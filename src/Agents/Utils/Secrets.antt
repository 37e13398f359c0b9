-- ===== src/Agents/Utils/Secrets.antt =====
-- agent/agent-common/src/secrets.rs: the secrets that a container mounts, a directory for each and a file
-- for each of its keys. The file system is a record of calls.
use Prim.Native.String.{◌++◌}
use bottlerocket_test_system.Base.{
  ℕ, String, Bool, Option, none, some, List, [], ◌∷◌, if◌then◌else◌,
}
use bottlerocket_test_system.Base.Result.{Result, ok, err}
use bottlerocket_test_system.Base.Exec.{Exec, ◌>>=◌, pure, throw, read, context}
use bottlerocket_test_system.Base.Maps.{insert}

abbrev pub Bytes : Type 0
Bytes = List ℕ

-- `OpaqueError`, each with the name of the secret
pub data OpaqueError : Type 0 where
  list_directory : (name directory source : String) → OpaqueError
  missing_filename non_utf8_filename : (name path : String) → OpaqueError
  read_file : (name path source : String) → OpaqueError

abbrev pub secret_name : OpaqueError → String
secret_name (list_directory name directory source) = name
secret_name (missing_filename name path) = name
secret_name (non_utf8_filename name path) = name
secret_name (read_file name path source) = name

pub record Error : Type 0 where
  pub name : String
  pub source : Option OpaqueError

-- `From<OpaqueError> for Error`
from_opaque : OpaqueError → Error
from_opaque e = record { name = secret_name e; source = some e }

-- `DirEntry`: a path may have no last part, and that part may be no UTF-8
pub record DirEntry : Type 0 where
  pub path : String
  pub is_file : Bool
  pub file_name : Option (Option String)

pub record FileSystem (W : Type 0) : Type 0 where
  pub read_dir : String → Exec W String (List (Result String DirEntry))
  pub read_bytes : String → Exec W String Bytes

abbrev pub SecretData : Type 0
SecretData = List (String × Bytes)

abbrev pub secrets_path : String
secrets_path = "/secrets"

module _ {W : Type 0} (fs : FileSystem W) (dir name : String) where
  -- the key of a file
  abbrev pub key_of : DirEntry → Result Error String
  unfolding from_opaque
  key_of f = elim (f.file_name) [
    | none ↦ err (from_opaque (missing_filename name f.path))
    | some text ↦ elim text [
      | none ↦ err (from_opaque (non_utf8_filename name f.path))
      | some key ↦ ok key
    ]
  ]

  unfoldable pub read_file_of : SecretData → DirEntry → Exec W Error SecretData
  unfolding from_opaque
  read_file_of m f = do
    key ← read (λ w. key_of f)
    value ← context (λ e. from_opaque (read_file name f.path e)) (fs.read_bytes f.path)
    pure (insert key value m)

  unfoldable pub read_entries : SecretData → List (Result String DirEntry) → Exec W Error SecretData
  unfolding read_file_of from_opaque
  read_entries m [] = pure m
  read_entries m (err e ∷ es) = throw (from_opaque (list_directory name dir e))
  read_entries m (ok f ∷ es) =
      (if f.is_file then read_file_of m f else pure m) >>= λ n. read_entries n es

-- `get_secret` of a reader of a directory
unfoldable pub get_secret : {W : Type 0} → FileSystem W → String → String → Exec W Error SecretData
unfolding read_entries from_opaque
get_secret fs dir name = do
  let directory = dir ++ ("/" ++ name)
  entries ← context (λ e. from_opaque (list_directory name directory e)) (fs.read_dir directory)
  read_entries fs directory name [] entries
