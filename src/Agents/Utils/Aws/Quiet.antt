-- ===== src/Agents/Utils/Aws/Quiet.antt =====
-- The configuration of AWS clients keeps what the files, the environment and the token service keep.
use bottlerocket_test_system.Base.{ℕ, String, Bool, true, false, Option, none, some, List, [], ◌∷◌}
use bottlerocket_test_system.Base.Result.{Result, ok, err}
use bottlerocket_test_system.Base.Exec.Preserves.{
  Preserves, Anything, Preserves-pure, Preserves-throw, Preserves-read, Preserves-context,
  Preserves-bind, Preserves-if,
}
use bottlerocket_test_system.Agents.Utils.Secrets.{
  Bytes, DirEntry, SecretData, read_file_of, read_entries, get_secret,
}
use bottlerocket_test_system.Agents.Utils.Aws.{
  Error, SdkConfig, Environment, SecretValues, or_error, key_of, token_of, set_token,
  get_secret_values, set_environment_variables, base_provider, setup_role, aws_config,
}

-- The calls keep the property.
pub record IsQuiet {W : Type 0} (P : W → Type 0) (env : Environment W) : Type 0 where
  pub read_dir : (d : String) → Preserves P Anything (env.files.read_dir d)
  pub read_bytes : (f : String) → Preserves P Anything (env.files.read_bytes f)
  pub set_var : (k v : String) (w : W) → P w → P (env.set_var k v w)
  pub assume_role :
      (config : SdkConfig) (role : String) (duration : Option ℕ)
      → Preserves P Anything (env.send_assume_role config role duration)

module _ {W : Type 0} {P : W → Type 0} (env : Environment W) (q : IsQuiet P env) where
  read_file_of-Preserves :
      (dir name : String) (m : SecretData) (f : DirEntry)
      → Preserves P Anything (read_file_of env.files dir name m f)
  unfolding read_file_of
  read_file_of-Preserves dir name m f =
      Preserves-bind (Preserves-read {Q = Anything} _ λ w a h. tt) λ key _.
        Preserves-bind (Preserves-context _ (q.read_bytes f.path)) λ value _. Preserves-pure _ tt

  read_entries-Preserves :
      (dir name : String) (m : SecretData) (es : List (Result String DirEntry))
      → Preserves P Anything (read_entries env.files dir name m es)
  unfolding read_entries
  read_entries-Preserves dir name m [] = Preserves-pure _ tt
  read_entries-Preserves dir name m (err e ∷ es) = Preserves-throw _
  read_entries-Preserves dir name m (ok f ∷ es) =
      Preserves-bind
        (Preserves-if f.is_file (read_file_of-Preserves dir name m f) (Preserves-pure m tt))
        λ n _. read_entries-Preserves dir name n es

  get_secret-Preserves : (dir name : String) → Preserves P Anything (get_secret env.files dir name)
  unfolding get_secret
  get_secret-Preserves dir name =
      Preserves-bind (Preserves-context _ (q.read_dir _))
        λ es _. read_entries-Preserves _ name [] es

  or_error-Preserves :
      {A : Type 0} (e : Error) (o : Option A) → Preserves P Anything (or_error {W = W} e o)
  or_error-Preserves e none = Preserves-throw _
  or_error-Preserves e (some a) = Preserves-pure _ tt

  key_of-Preserves :
      (s : SecretData) (key name : String) → Preserves P Anything (key_of env s key name)
  key_of-Preserves s key name =
      Preserves-bind (or_error-Preserves _ _)
        λ bytes _. Preserves-context _ (Preserves-read {Q = Anything} _ λ w a h. tt)

  token_of-Preserves : (o : Option Bytes) → Preserves P Anything (token_of env o)
  token_of-Preserves none = Preserves-pure _ tt
  token_of-Preserves (some bytes) =
      Preserves-bind (Preserves-context _ (Preserves-read {Q = Anything} _ λ w a h. tt))
        λ t _. Preserves-pure _ tt

  get_secret_values-Preserves : (name : String) → Preserves P Anything (get_secret_values env name)
  unfolding get_secret_values
  get_secret_values-Preserves name =
      Preserves-bind (Preserves-context _ (get_secret-Preserves _ name)) λ s _.
        Preserves-bind (key_of-Preserves s _ name) λ id _.
          Preserves-bind (key_of-Preserves s _ name)
            λ key _. Preserves-bind (token_of-Preserves _) λ t _. Preserves-pure _ tt

  set_token-Preserves : (o : Option String) (w : W) → P w → P (set_token env o w)
  set_token-Preserves none w p = p
  set_token-Preserves (some t) w p = q.set_var _ t w p

  set_environment_variables-Preserves :
      (v : SecretValues) → Preserves P Anything (set_environment_variables env v)
  unfolding set_environment_variables
  set_environment_variables-Preserves v = record {
    at = λ w p. set_token-Preserves v.session_token _ (q.set_var _ _ _ (q.set_var _ _ w p));
    yields = λ w p a h. tt;
  }

  base_provider-Preserves :
      (secret role : Option String) (b : Bool)
      → Preserves P Anything (base_provider env secret role b)
  unfolding base_provider
  base_provider-Preserves none role b = Preserves-pure _ tt
  base_provider-Preserves (some name) role b =
      Preserves-bind (get_secret_values-Preserves name) λ v _.
        Preserves-bind
          (Preserves-if _ (set_environment_variables-Preserves v) (Preserves-pure _ tt))
          λ u _. Preserves-pure _ tt

  setup_role-Preserves :
      (role : Option String) (duration : Option ℕ) (b : Bool) (config : SdkConfig)
      → Preserves P Anything (setup_role env role duration b config)
  unfolding setup_role
  setup_role-Preserves none duration b config = Preserves-pure _ tt
  setup_role-Preserves (some arn) duration false config = Preserves-pure _ tt
  setup_role-Preserves (some arn) duration true config =
      Preserves-bind (Preserves-context _ (q.assume_role config arn duration)) λ answer _.
        Preserves-bind (or_error-Preserves _ answer) λ r _.
          Preserves-bind (or_error-Preserves _ _) λ id _.
            Preserves-bind (or_error-Preserves _ _) λ key _.
              Preserves-bind (or_error-Preserves _ _) λ token _.
                set_environment_variables-Preserves (record {
                  access_key_id = id;
                  secret_access_key = key;
                  session_token = some token;
                })

  pub aws_config-Preserves :
      (secret role : Option String) (duration : Option ℕ) (region endpoint : Option String)
      (b : Bool)
      → Preserves P Anything (aws_config env secret role duration region endpoint b)
  unfolding aws_config
  aws_config-Preserves secret role duration region endpoint b =
      Preserves-bind (base_provider-Preserves secret role b)
        λ _ _. Preserves-bind (setup_role-Preserves role duration b _) λ _ _. Preserves-pure _ tt
