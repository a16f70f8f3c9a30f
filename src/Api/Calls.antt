-- ===== src/Api/Calls.antt =====
-- The functions that write to an output buffer, as one type of calls: C_Sign, C_SignFinal, C_Encrypt,
-- C_EncryptUpdate, C_EncryptFinal, C_Decrypt and C_DecryptFinal (pkcs11/src/api).
use nethsm_pkcs.Common.{ℕ, Bool, Option, List}
use nethsm_pkcs.Service.{Service}
use nethsm_pkcs.Api.{Handler}
use nethsm_pkcs.Api.Signing.{sign_handler, sign_final_handler}
use nethsm_pkcs.Api.Encrypting.{encrypt_handler, encrypt_update_handler, encrypt_final_handler}
use nethsm_pkcs.Api.Decrypting.{decrypt_handler, decrypt_final_handler}

-- A call with the bytes that its input pointer leads to.
pub data Call : Type 0 where
  signs encrypts updates_encryption decrypts : Option (List ℕ) → Call
  finishes_signature finishes_encryption finishes_decryption : Call

-- `buffer` says whether there is an output buffer, and `len` is what its length pointer leads to.
unfoldable pub serve : {W : Type 0} → Service W → Call → Bool → Option ℕ → Handler W
unfolding sign_handler sign_final_handler encrypt_handler encrypt_update_handler
    encrypt_final_handler decrypt_handler decrypt_final_handler
serve x (signs bytes) buffer len = sign_handler x bytes buffer len
serve x (encrypts bytes) buffer len = encrypt_handler x bytes buffer len
serve x (updates_encryption part) buffer len = encrypt_update_handler x part buffer len
serve x (decrypts bytes) buffer len = decrypt_handler x bytes buffer len
serve x finishes_signature buffer len = sign_final_handler x buffer len
serve x finishes_encryption buffer len = encrypt_final_handler x buffer len
serve x finishes_decryption buffer len = decrypt_final_handler x buffer len
