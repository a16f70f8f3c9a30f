-- ===== src/Constants.antt =====
-- The constants of PKCS#11 that the code takes from the cryptoki_sys crate, with the values that the
-- header fork-tests/pkcs11.h gives them.
use nethsm_pkcs.Common.{ℕ}

-- Mechanism types.
abbrev pub ckm_aes_key_gen : ℕ
ckm_aes_key_gen = 4224

abbrev pub ckm_rsa_pkcs_key_pair_gen : ℕ
ckm_rsa_pkcs_key_pair_gen = 0

abbrev pub ckm_ec_key_pair_gen : ℕ
ckm_ec_key_pair_gen = 4160

abbrev pub ckm_ec_edwards_key_pair_gen : ℕ
ckm_ec_edwards_key_pair_gen = 4181

abbrev pub ckm_generic_secret_key_gen : ℕ
ckm_generic_secret_key_gen = 848

abbrev pub ckm_aes_cbc : ℕ
ckm_aes_cbc = 4226

abbrev pub ckm_rsa_pkcs : ℕ
ckm_rsa_pkcs = 1

abbrev pub ckm_sha1_rsa_pkcs : ℕ
ckm_sha1_rsa_pkcs = 6

abbrev pub ckm_sha224_rsa_pkcs : ℕ
ckm_sha224_rsa_pkcs = 70

abbrev pub ckm_sha256_rsa_pkcs : ℕ
ckm_sha256_rsa_pkcs = 64

abbrev pub ckm_sha384_rsa_pkcs : ℕ
ckm_sha384_rsa_pkcs = 65

abbrev pub ckm_sha512_rsa_pkcs : ℕ
ckm_sha512_rsa_pkcs = 66

abbrev pub ckm_rsa_pkcs_pss : ℕ
ckm_rsa_pkcs_pss = 13

abbrev pub ckm_sha1_rsa_pkcs_pss : ℕ
ckm_sha1_rsa_pkcs_pss = 14

abbrev pub ckm_sha224_rsa_pkcs_pss : ℕ
ckm_sha224_rsa_pkcs_pss = 71

abbrev pub ckm_sha256_rsa_pkcs_pss : ℕ
ckm_sha256_rsa_pkcs_pss = 67

abbrev pub ckm_sha384_rsa_pkcs_pss : ℕ
ckm_sha384_rsa_pkcs_pss = 68

abbrev pub ckm_sha512_rsa_pkcs_pss : ℕ
ckm_sha512_rsa_pkcs_pss = 69

abbrev pub ckm_rsa_pkcs_oaep : ℕ
ckm_rsa_pkcs_oaep = 9

abbrev pub ckm_rsa_x_509 : ℕ
ckm_rsa_x_509 = 3

abbrev pub ckm_ecdsa : ℕ
ckm_ecdsa = 4161

abbrev pub ckm_ecdsa_sha1 : ℕ
ckm_ecdsa_sha1 = 4162

abbrev pub ckm_ecdsa_sha224 : ℕ
ckm_ecdsa_sha224 = 4163

abbrev pub ckm_ecdsa_sha256 : ℕ
ckm_ecdsa_sha256 = 4164

abbrev pub ckm_ecdsa_sha384 : ℕ
ckm_ecdsa_sha384 = 4165

abbrev pub ckm_ecdsa_sha512 : ℕ
ckm_ecdsa_sha512 = 4166

abbrev pub ckm_eddsa : ℕ
ckm_eddsa = 4183

abbrev pub ckm_md5 : ℕ
ckm_md5 = 528

abbrev pub ckm_sha_1 : ℕ
ckm_sha_1 = 544

abbrev pub ckm_sha224 : ℕ
ckm_sha224 = 597

abbrev pub ckm_sha256 : ℕ
ckm_sha256 = 592

abbrev pub ckm_sha384 : ℕ
ckm_sha384 = 608

abbrev pub ckm_sha512 : ℕ
ckm_sha512 = 624

-- Flags.
abbrev pub ckf_hw : ℕ
ckf_hw = 1

abbrev pub ckf_encrypt : ℕ
ckf_encrypt = 256

abbrev pub ckf_decrypt : ℕ
ckf_decrypt = 512

abbrev pub ckf_sign : ℕ
ckf_sign = 2048

abbrev pub ckf_generate : ℕ
ckf_generate = 32768

abbrev pub ckf_generate_key_pair : ℕ
ckf_generate_key_pair = 65536

abbrev pub ckf_derive : ℕ
ckf_derive = 524288

abbrev pub ckf_ec_f_p : ℕ
ckf_ec_f_p = 1048576

abbrev pub ckf_ec_namedcurve : ℕ
ckf_ec_namedcurve = 8388608

abbrev pub ckf_ec_uncompress : ℕ
ckf_ec_uncompress = 16777216

abbrev pub ckf_serial_session : ℕ
ckf_serial_session = 4

-- Return values.
abbrev pub ckr_ok : ℕ
ckr_ok = 0

abbrev pub ckr_slot_id_invalid : ℕ
ckr_slot_id_invalid = 3

abbrev pub ckr_arguments_bad : ℕ
ckr_arguments_bad = 7

abbrev pub ckr_attribute_value_invalid : ℕ
ckr_attribute_value_invalid = 19

abbrev pub ckr_attribute_sensitive : ℕ
ckr_attribute_sensitive = 17

abbrev pub ckr_attribute_type_invalid : ℕ
ckr_attribute_type_invalid = 18

abbrev pub ckr_buffer_too_small : ℕ
ckr_buffer_too_small = 336

abbrev pub ckr_cryptoki_not_initialized : ℕ
ckr_cryptoki_not_initialized = 400

abbrev pub ckr_data_invalid : ℕ
ckr_data_invalid = 32

abbrev pub ckr_data_len_range : ℕ
ckr_data_len_range = 33

abbrev pub ckr_device_error : ℕ
ckr_device_error = 48

abbrev pub ckr_device_memory : ℕ
ckr_device_memory = 49

abbrev pub ckr_device_removed : ℕ
ckr_device_removed = 50

abbrev pub ckr_encrypted_data_len_range : ℕ
ckr_encrypted_data_len_range = 65

abbrev pub ckr_key_handle_invalid : ℕ
ckr_key_handle_invalid = 96

abbrev pub ckr_mechanism_invalid : ℕ
ckr_mechanism_invalid = 112

abbrev pub ckr_object_handle_invalid : ℕ
ckr_object_handle_invalid = 130

abbrev pub ckr_operation_active : ℕ
ckr_operation_active = 144

abbrev pub ckr_operation_not_initialized : ℕ
ckr_operation_not_initialized = 145

abbrev pub ckr_pin_incorrect : ℕ
ckr_pin_incorrect = 160

abbrev pub ckr_session_handle_invalid : ℕ
ckr_session_handle_invalid = 179

abbrev pub ckr_session_parallel_not_supported : ℕ
ckr_session_parallel_not_supported = 180

abbrev pub ckr_token_not_present : ℕ
ckr_token_not_present = 224

abbrev pub ckr_user_not_logged_in : ℕ
ckr_user_not_logged_in = 257

abbrev pub ckr_user_type_invalid : ℕ
ckr_user_type_invalid = 259

-- Session states and user types.
abbrev pub cks_ro_public_session : ℕ
cks_ro_public_session = 0

abbrev pub cks_rw_user_functions : ℕ
cks_rw_user_functions = 3

abbrev pub cks_rw_so_functions : ℕ
cks_rw_so_functions = 4

abbrev pub cku_so : ℕ
cku_so = 0

abbrev pub cku_user : ℕ
cku_user = 1

abbrev pub cku_context_specific : ℕ
cku_context_specific = 2

-- Object classes.
abbrev pub cko_certificate : ℕ
cko_certificate = 1

abbrev pub cko_public_key : ℕ
cko_public_key = 2

abbrev pub cko_private_key : ℕ
cko_private_key = 3

abbrev pub cko_secret_key : ℕ
cko_secret_key = 4

-- Attribute types.
abbrev pub cka_class : ℕ
cka_class = 0

abbrev pub cka_token : ℕ
cka_token = 1

abbrev pub cka_private : ℕ
cka_private = 2

abbrev pub cka_label : ℕ
cka_label = 3

abbrev pub cka_value : ℕ
cka_value = 17

abbrev pub cka_certificate_type : ℕ
cka_certificate_type = 128

abbrev pub cka_issuer : ℕ
cka_issuer = 129

abbrev pub cka_trusted : ℕ
cka_trusted = 134

abbrev pub cka_certificate_category : ℕ
cka_certificate_category = 135

abbrev pub cka_key_type : ℕ
cka_key_type = 256

abbrev pub cka_subject : ℕ
cka_subject = 257

abbrev pub cka_id : ℕ
cka_id = 258

abbrev pub cka_sensitive : ℕ
cka_sensitive = 259

abbrev pub cka_encrypt : ℕ
cka_encrypt = 260

abbrev pub cka_decrypt : ℕ
cka_decrypt = 261

abbrev pub cka_wrap : ℕ
cka_wrap = 262

abbrev pub cka_unwrap : ℕ
cka_unwrap = 263

abbrev pub cka_sign : ℕ
cka_sign = 264

abbrev pub cka_sign_recover : ℕ
cka_sign_recover = 265

abbrev pub cka_verify : ℕ
cka_verify = 266

abbrev pub cka_verify_recover : ℕ
cka_verify_recover = 267

abbrev pub cka_derive : ℕ
cka_derive = 268

abbrev pub cka_modulus : ℕ
cka_modulus = 288

abbrev pub cka_modulus_bits : ℕ
cka_modulus_bits = 289

abbrev pub cka_public_exponent : ℕ
cka_public_exponent = 290

abbrev pub cka_prime_1 : ℕ
cka_prime_1 = 292

abbrev pub cka_prime_2 : ℕ
cka_prime_2 = 293

abbrev pub cka_value_len : ℕ
cka_value_len = 353

abbrev pub cka_extractable : ℕ
cka_extractable = 354

abbrev pub cka_local : ℕ
cka_local = 355

abbrev pub cka_never_extractable : ℕ
cka_never_extractable = 356

abbrev pub cka_always_sensitive : ℕ
cka_always_sensitive = 357

abbrev pub cka_key_gen_mechanism : ℕ
cka_key_gen_mechanism = 358

abbrev pub cka_modifiable : ℕ
cka_modifiable = 368

abbrev pub cka_ec_params : ℕ
cka_ec_params = 384

abbrev pub cka_ec_point : ℕ
cka_ec_point = 385

abbrev pub cka_always_authenticate : ℕ
cka_always_authenticate = 514

abbrev pub cka_wrap_with_trusted : ℕ
cka_wrap_with_trusted = 528

abbrev pub cka_allowed_mechanisms : ℕ
cka_allowed_mechanisms = 1073743360

-- Key and certificate types.
abbrev pub ckk_rsa : ℕ
ckk_rsa = 0

abbrev pub ckk_ec : ℕ
ckk_ec = 3

abbrev pub ckk_ec_edwards : ℕ
ckk_ec_edwards = 64

abbrev pub ckk_generic_secret : ℕ
ckk_generic_secret = 16

abbrev pub ckc_x_509 : ℕ
ckc_x_509 = 0

-- Further return values.
abbrev pub ckr_general_error : ℕ
ckr_general_error = 5

abbrev pub ckr_function_failed : ℕ
ckr_function_failed = 6

abbrev pub ckr_attribute_read_only : ℕ
ckr_attribute_read_only = 16

abbrev pub ckr_action_prohibited : ℕ
ckr_action_prohibited = 27

abbrev pub ckr_function_not_supported : ℕ
ckr_function_not_supported = 84

abbrev pub ckr_no_event : ℕ
ckr_no_event = 8

abbrev pub ckr_cant_lock : ℕ
ckr_cant_lock = 10

abbrev pub ckr_need_to_create_threads : ℕ
ckr_need_to_create_threads = 9

abbrev pub ckr_cryptoki_already_initialized : ℕ
ckr_cryptoki_already_initialized = 401

abbrev pub ckr_pin_len_range : ℕ
ckr_pin_len_range = 162

-- Further flags.
abbrev pub ckf_dont_block : ℕ
ckf_dont_block = 1

abbrev pub ckf_rng : ℕ
ckf_rng = 1

abbrev pub ckf_login_required : ℕ
ckf_login_required = 4

abbrev pub ckf_user_pin_initialized : ℕ
ckf_user_pin_initialized = 8

abbrev pub ckf_token_initialized : ℕ
ckf_token_initialized = 1024

abbrev pub ckf_os_locking_ok : ℕ
ckf_os_locking_ok = 2

abbrev pub ckf_library_cant_create_os_threads : ℕ
ckf_library_cant_create_os_threads = 1

abbrev pub ckf_token_present : ℕ
ckf_token_present = 1

abbrev pub cryptoki_version_major : ℕ
cryptoki_version_major = 2

abbrev pub cryptoki_version_minor : ℕ
cryptoki_version_minor = 40

abbrev pub ckr_function_not_parallel : ℕ
ckr_function_not_parallel = 81
