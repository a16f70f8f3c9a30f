-- ===== src/Tests/World.antt =====
-- A NetHSM for the tests: it signs with 64 fixed bytes, encrypts and decrypts by giving the text back, and
-- keeps the bytes that it was given. Its texts are unary numbers.
use Prim.Native.Char.{Char, code}
use nethsm_pkcs.Common.{
  length, err, ◌%◌, ◌==◌, ℕ, zero, suc, ◌+◌, ◌≡◌, refl, ap, ◌∙◌, String, none, some, List, [], ◌∷◌,
  ◌++◌, ok, replicate, ◌==◌, if◌then◌else◌, arith,
}
use nethsm_pkcs.Constants
use nethsm_pkcs.Errors.{private_key}
use nethsm_pkcs.Mechanism.{Mechanism, KeyMechanism, SignMode}
use nethsm_pkcs.Service.{response_error, Service, Configuration, UserRole}
use nethsm_pkcs.Login.{UserConfig, LoginCtx}
use nethsm_pkcs.Db.{Object, Db, add_object}
use nethsm_pkcs.Db
use nethsm_pkcs.Encrypt.{EncryptCtx}
use nethsm_pkcs.Encrypt.Parts.{Receives}
use nethsm_pkcs.Sign.{SignCtx}
use nethsm_pkcs.Session.{Slot, Session}
use nethsm_pkcs.Manager.{SessionManager, create_session}
use nethsm_pkcs.Manager

abbrev letter_a : Char
letter_a = "a"

abbrev letter_b : Char
letter_b = "b"

abbrev pub unary : ℕ → String → String
unary zero s = String.◌∷◌ letter_b s
unary (suc n) s = String.◌∷◌ letter_a (unary n s)

abbrev pub encode : List ℕ → String
encode [] = String.[]
encode (n ∷ bytes) = unary n (encode bytes)

abbrev pub decode : ℕ → String → List ℕ
decode n String.[] = []
decode n (String.◌∷◌ c s) =
    let next = decode (suc n) s in
    let first = n ∷ decode 0 s in if code c == 97 then next else first

decode-unary : (n m : ℕ) (s : String) → decode n (unary m s) ≡ (n + m) ∷ decode 0 s
decode-unary n zero s = ap (λ (k : ℕ). k ∷ decode 0 s) (omega arith)
decode-unary n (suc m) s = decode-unary (suc n) m s ∙ ap (λ (k : ℕ). k ∷ decode 0 s) (omega arith)

pub decode-encode : (bytes : List ℕ) → decode 0 (encode bytes) ≡ bytes
decode-encode [] = refl
decode-encode (n ∷ bytes) =
    decode-unary 0 n (encode bytes)
    ∙ ap (λ (k : ℕ). k ∷ decode 0 (encode bytes)) (omega arith)
    ∙ ap (◌∷◌ n) (decode-encode bytes)

-- `note` is what the NetHSM does with the bytes that it encrypts.
abbrev pub service : (List ℕ → List ℕ → List ℕ) → Service (List ℕ)
service note = record {
  sleep = λ n w. w;
  from_utf8 = λ bytes. some "pin";
  base64_encode = encode;
  base64_decode = λ s. some (decode 0 s);
  hash = λ d bytes. bytes;
  from_der = λ bytes. some ((1 ∷ []) ∷ (2 ∷ []) ∷ []);
  users_user_id_get = λ name k w. (ok UserRole.operator, w);
  users_user_id_passphrase_post = λ name pin k w. (ok tt, w);
  keys_key_id_sign_post = λ id req k w. (ok (encode (replicate 64 7)), w);
  keys_key_id_encrypt_post = λ id req k w. (ok req.message, note w (decode 0 req.message));
  keys_key_id_decrypt_post = λ id req k w. (ok req.encrypted, w);
}

-- A NetHSM that notes what it encrypts, and refuses what fills no whole blocks.
abbrev pub logging : Service (List ℕ)
logging = record (service (λ w bytes. w ++ bytes)) {
  from_utf8 = λ bytes. some "argument length";
  keys_key_id_encrypt_post = λ id req k w.
      if length (decode 0 req.message) % 16 == 0
      then (ok req.message, w ++ decode 0 req.message)
      else (err (response_error 400 []), w);
}

abbrev pub quiet : Service (List ℕ)
quiet = service (λ w bytes. w)

pub logging-Receives : Receives logging (λ w. w)
logging-Receives = record {
  base64_round = λ d. ap some (decode-encode d);
  accepts = λ id req k w d e z. (
    req.message,
    w ++ decode 0 req.message,
    decode 0 req.message,
    ground (arith, e, z),
    refl,
    cc,
    cc,
  );
  refuses = λ id req k w d e z. ([], "argument length", w, ground (arith, e, z), refl, refl, refl);
}

abbrev pub user : UserConfig
user = record { username = "op"; password = some "pin" }

abbrev pub first_instance : Configuration
first_instance = record { base_path = "a"; basic_auth = none; user_agent = none }

abbrev pub second_instance : Configuration
second_instance = record { base_path = "b"; basic_auth = none; user_agent = none }

abbrev pub login_ctx : LoginCtx
login_ctx = record {
  operator = some user;
  administrator = some user;
  instances = first_instance ∷ second_instance ∷ [];
  index = 0;
  ck_state = Constants.cks_ro_public_session;
  retries = none;
}

abbrev pub key : Object
key = record {
  attrs = [];
  kind = private_key;
  id = "key";
  size = some 31;
  mechanisms =
      KeyMechanism.ed_dsa_signature ∷ KeyMechanism.aes_encryption_cbc
      ∷ KeyMechanism.aes_decryption_cbc ∷ [];
}

abbrev pub sign_ctx : SignCtx
sign_ctx = record {
  mechanism = Mechanism.ed_dsa;
  sign_name = SignMode.ed_dsa;
  key = key;
  buffer = [];
  login_ctx = login_ctx;
}

abbrev pub encrypt_ctx : EncryptCtx
encrypt_ctx = record {
  mechanism = Mechanism.aes_cbc none;
  key_id = "key";
  buffer = [];
  login_ctx = login_ctx;
}

abbrev pub slot : Slot
slot = record {
  label = "slot";
  retries = none;
  description = none;
  instances = first_instance ∷ second_instance ∷ [];
  operator = some user;
  administrator = some user;
  db = 0;
}

abbrev pub session : Session
session = record {
  slot_id = 0;
  login_ctx = login_ctx;
  flags = 4;
  device_error = 0;
  db = 0;
  sign_ctx = none;
  encrypt_ctx = none;
  decrypt_ctx = none;
  enum_ctx = none;
}

abbrev pub signing_session : Session
signing_session = record session { sign_ctx = some sign_ctx }

abbrev pub one_key : Db
one_key = (add_object key Db.new).1

abbrev pub manager : SessionManager
manager = (create_session 0 slot 4 Manager.new).1
