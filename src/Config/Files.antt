-- ===== src/Config/Files.antt =====
-- The search for the configuration files (`config_files` of pkcs11/src/config/config_file.rs) and
-- `initialize` (config/initialization.rs).
use Prim.Native.String
use nethsm_pkcs.Common.{
  ℕ, String, Option, none, some, List, [], ◌∷◌, ◌++◌, map, Result, ok, ok_or, ◌>>=◌,
}
use nethsm_pkcs.Config.{ConfigError, io, InitializationError, Crates, Device}
use nethsm_pkcs.Config.Slots.{initialize_with_configs}

-- `std::env::var`, `std::fs::read`, and `File::open` with `read_to_end`: `open_file` is none where the
-- file cannot be opened, and none within where it cannot be read.
pub record Environment : Type 0 where
  pub var : String → Option String
  pub read : String → Option (List ℕ)
  pub open_file : String → Option (Option (List ℕ))

abbrev config_file_name : String
config_file_name = "p11nethsm.conf"

abbrev env_var_config_file : String
env_var_config_file = "P11NETHSM_CONFIG_FILE"

config_folders : Option String → List String
config_folders home =
    ("/etc/nitrokey" ∷ "/usr/local/etc/nitrokey" ∷ [])
    ++ elim home [ none ↦ [] | some h ↦ String.◌++◌ h "/.config/nitrokey" ∷ [] ]

file_path : String → String
file_path folder = String.◌++◌ folder (String.◌++◌ "/" config_file_name)

module _ (e : Environment) where
  -- The `for` over the folders; a file that cannot be opened is left out.
  unfoldable pub files_in : List String → Result ConfigError (List (List ℕ × String))
  unfolding file_path
  files_in [] = ok []
  files_in (folder ∷ folders) =
      let rest = files_in folders in
      elim (e.open_file (file_path folder)) [
        | none ↦ rest
        | some file ↦
            ok_or file io
            >>= (λ contents. rest >>= (λ files. ok ((contents, file_path folder) ∷ files)))
      ]

  unfoldable pub config_files : Result ConfigError (List (List ℕ × String))
  unfolding config_folders files_in
  config_files = elim (e.var env_var_config_file) [
    | some path ↦ ok_or (e.read path) io >>= (λ file. ok ((file, path) ∷ []))
    | none ↦ files_in (config_folders (e.var "HOME"))
  ]

  unfoldable pub initialize : Crates → Result InitializationError Device
  unfolding config_files initialize_with_configs
  initialize c =
      initialize_with_configs c
        (config_files >>= (λ files. ok (map (λ (f : List ℕ × String). f.0) files)))
