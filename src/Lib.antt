-- ===== src/Lib.antt =====
-- The PKCS#11 module of the Nitrokey NetHSM: a shared library that serves the C functions of PKCS#11
-- (pkcs11/src/api) from sessions that call one or more NetHSM instances over HTTP (pkcs11/src/backend).
--
-- The parts, and the file that models each:
--
-- Common: the names that all modules share, Rust's `match` on constants (Select), `HashMap` as an
--   association list (HashMap), `Result` (Results), tests and lists over the native numbers.
-- Constants: the numbers of PKCS#11 that the code takes from the crate cryptoki_sys; their values are
--   those of fork-tests/pkcs11.h.
-- Mechanism: pkcs11/src/backend/mechanism.rs. Raw has from_ckraw_mech, ck_type, internal_digest and iv;
--   Info the flags and MECHANISM_LIST of pkcs11/src/defs.rs; Api the translations to and from the
--   NetHSM's mechanisms and names; Sizes the sizes; Keys the test for a key's mechanisms.
-- Errors: pkcs11/src/backend/mod.rs, with the conversion of every error into a CK_RV (error_rv).
-- Service: what the module calls and does not contain, as one record: the client nethsm_sdk_rs, the
--   crates for Base64, DER and digests, UTF-8 decoding and sleeping. It is a parameter of every
--   definition that calls it. A call takes the state W of the world and gives a new one. Keys has the
--   calls on keys and certificates.
-- Login: pkcs11/src/backend/login.rs. LoginCtx is the record of the struct; the methods that change it
--   give the new record. Calls has try_ and the role of a user, Pins has login and change_pin.
-- Db: pkcs11/src/backend/db/mod.rs, the cache of a slot, and the data of objects of backend/db/object.rs.
--   Attributes has the templates of backend/db/attr.rs and fill_attr_template; Objects.Make has
--   from_key_data and from_cert_data, and Objects.Values the attributes that they set.
-- Keys: backend/key.rs. The module itself has the templates (parse_attributes), Create the creation of
--   keys and the upload of certificates, Fetch the fetching of keys and certificates into the cache, and
--   Generate the generation of keys.
-- Encrypt, Decrypt, Sign: the contexts of backend/encrypt.rs, backend/decrypt.rs and backend/sign.rs.
-- Session: backend/session.rs and the slot of config/device.rs. Signing, Encrypting and Decrypting are
--   the three kinds of operations, Finding is the enumeration of objects with EnumCtx of
--   backend/object.rs, Objects finds keys and fetches them, and Changes creates, deletes and generates.
-- Manager: SessionManager of backend/session.rs.
-- Api: the C functions, with lock_session! of utils.rs and get_slot of backend/slot.rs: those of
--   api/sign.rs, api/encrypt.rs and api/decrypt.rs (Calls puts the functions that write to an output buffer
--   into one type), api/session.rs (Sessions, with C_Login and C_Logout), api/object.rs (Objects,
--   ObjectCalls), api/generation.rs (Generation), api/pin.rs (Pins), api/token.rs (Tokens, Waiting),
--   api/mod.rs (Library), and those that serve nothing (Unsupported). Versions has the texts and versions
--   of utils.rs and defs.rs, and Requests puts the functions that change a cache, a session or the table
--   of sessions into one type.
-- Events: backend/events.rs, with the EVENTS_MANAGER and TOKENS_STATE of data.rs.
-- Config: config/config_file.rs (the data, merge_configurations, fingerprints and passwords) and
--   config/initialization.rs (verifiers and agents; Slots has slot_from_config and
--   initialize_with_configs, Files config_files and initialize).
-- Tests: a NetHSM for the tests and runs on concrete inputs.
--
-- A C function takes the globals (slots, session table, caches, aliases), locks its session, and runs the
-- session's method; the method runs that of the operation's context, which calls the NetHSM through its
-- own copy of the session's LoginCtx. The methods on objects also take the cache of the session's slot.
--
-- State is passed along: a function that changes a struct gives the new one. Failing code gives a
-- Result or an Option. Code that may panic, or that a bound on its rounds may stop, gives a Run:
-- `returns`, `panics` or `runs_out`. Three loops have such a bound. The `for` of try_ takes as many
-- rounds as there are instances. The `loop` in it takes as many as its u32 counter needs to meet the
-- limit, 2 ^ 32 for a limit of 0, since the counter wraps in the release profile. That both are enough is
-- the first result below. The `loop` of C_WaitForSlotEvent waits for an event and has no bound of its
-- own, so its fuel is an argument; nothing else happens between its rounds.
--
-- Numbers are natural numbers. Handles have 64 bits and wrap, as in the release profile; lengths of
-- slices and buffers are below 2 ^ 64 on every target and are not cut. A pointer is an Option, and a
-- pointer with a length is the slice that the code makes of it; what an output pointer receives is part
-- of the reply. A call of a C function is one step: it holds the lock of its session from start to end;
-- locks that a panic has poisoned are not modelled. A search fetches keys one after the other, as the code
-- does where THREADS_ALLOWED is false. C_GenerateRandom gives only the bytes that the answer has, where
-- the code reads on behind a short answer.
-- The order in which a HashMap gives its entries is that of the list that models it; no theorem rests on it.
-- Times are arguments.
--
-- Not modelled: logging and Display, with the loggers that config/logging.rs sets up and their settings;
-- YAML, TLS and the merging of single values, which are crates and parameters of Config, as the
-- environment and the files are; the parallel fetching of keys; C_GetFunctionList,
-- which hands out a pointer to a table; functions for tests; concurrent calls, beyond the lock that makes
-- each call a step.
pub mod Common
pub mod Constants
pub mod Mechanism
pub mod Errors
pub mod Service
pub mod Login
pub mod Db
pub mod Encrypt
pub mod Decrypt
pub mod Sign
pub mod Session
pub mod Manager
pub mod Keys
pub mod Config
pub mod Api
pub mod Events
pub mod Tests
