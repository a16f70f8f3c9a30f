-- ===== src/Tests/Streams.antt =====
-- Concrete encryptions and signatures.
use nethsm_pkcs.Common.{
  ◌≢◌, ◌⊎◌, ◌%◌, ℕ, ◌≡◌, refl, none, some, List, [], ◌∷◌, ◌++◌, ok, length, replicate, arith,
}
use nethsm_pkcs.Mechanism.{Mechanism, aes_cbc, sha256}
use nethsm_pkcs.Mechanism.Api.{encrypt_name}
use nethsm_pkcs.Mechanism.Sizes.{get_key_size}
use nethsm_pkcs.Login.{returns, can_run_mode}
use nethsm_pkcs.Login.Calls.{try_}
use nethsm_pkcs.Encrypt.{EncryptCtx, encrypt_data}
use nethsm_pkcs.Encrypt.Stream.{encrypt_parts}
use nethsm_pkcs.Encrypt.Parts.{IsReady, Finishes, IsRefused, parts_and_final}
use nethsm_pkcs.Encrypt.Chaining.{equal_parts_equal_outputs}
use nethsm_pkcs.Sign.{SignCtx, get_theoretical_size, output_of, join}
use nethsm_pkcs.Sign.Format.{ecdsa_output_size}
use nethsm_pkcs.Session.{Session}
use nethsm_pkcs.Session.Signing.{sign}
use nethsm_pkcs.Session.Parts.{sign_updates, sign_in_parts, sign_final_keeps}
use nethsm_pkcs.Session.Parts
use nethsm_pkcs.Session.Decrypting.{decrypt, decrypt_final}
use nethsm_pkcs.Session.Ciphertext.{decrypt_updates, decrypt_in_parts}
use nethsm_pkcs.Tests.World.{
  quiet, logging, logging-Receives, encrypt_ctx, sign_ctx, session, signing_session, key, encode,
}

encrypt_ctx-IsReady : IsReady encrypt_ctx
unfolding encrypt_name can_run_mode
encrypt_ctx-IsReady = record { mode = aes_cbc; named = refl; runs = refl }

abbrev two_parts : List (List ℕ)
two_parts = replicate 10 1 ∷ replicate 22 2 ∷ []

parts_and_final_example :
    ((32 % 16 ≡ 0) × Finishes logging (λ w. w) logging-Receives two_parts encrypt_ctx [])
    ⊎ ((32 % 16 ≢ 0) × IsRefused logging (λ w. w) logging-Receives two_parts encrypt_ctx [])
parts_and_final_example =
    parts_and_final logging (λ w. w) logging-Receives two_parts encrypt_ctx [] encrypt_ctx-IsReady

abbrev filled : EncryptCtx
filled = record encrypt_ctx { buffer = replicate 20 3 }

equal_parts_equal_outputs_example :
    encrypt_parts quiet (replicate 16 3 ∷ replicate 16 3 ∷ []) encrypt_ctx []
    ≡ returns (ok (replicate 16 3 ++ replicate 16 3), record encrypt_ctx { buffer = [] }, [])
unfolding encrypt_data encrypt_name try_
equal_parts_equal_outputs_example =
    equal_parts_equal_outputs quiet (replicate 16 3) (replicate 16 3) encrypt_ctx [] refl
      (omega arith) refl refl

abbrev ecdsa_ctx : SignCtx
ecdsa_ctx = record sign_ctx {
  mechanism = Mechanism.ecdsa (some sha256);
  key = record key { size = some 65 };
  buffer = 1 ∷ 2 ∷ 3 ∷ [];
}

abbrev padded : List ℕ
padded = replicate 65 0 ++ (1 ∷ []) ++ replicate 65 0 ++ (2 ∷ [])

ecdsa_output_size_example : length padded ≡ get_theoretical_size ecdsa_ctx
unfolding output_of join get_key_size
ecdsa_output_size_example = ecdsa_output_size quiet ecdsa_ctx (encode (1 ∷ [])) padded refl refl

sign_in_parts_example :
    sign_final_keeps quiet (sign_updates two_parts signing_session) []
    ≡ sign quiet (Parts.joined two_parts) signing_session []
sign_in_parts_example = sign_in_parts quiet two_parts signing_session []

abbrev decrypting_session : Session
decrypting_session = record session {
  decrypt_ctx = some (record {
    mechanism = Mechanism.aes_cbc none;
    key_id = "key";
    buffer = [];
    login_ctx = session.login_ctx;
  });
}

decrypt_in_parts_example :
    decrypt_final quiet (decrypt_updates two_parts decrypting_session) []
    ≡ decrypt quiet (Parts.joined two_parts) decrypting_session []
decrypt_in_parts_example = decrypt_in_parts quiet two_parts decrypting_session []
