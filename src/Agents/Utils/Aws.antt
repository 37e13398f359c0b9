-- ===== src/Agents/Utils/Aws.antt =====
-- agent/utils/src/aws.rs: the configuration of AWS clients. The providers of credentials of the crate
-- `aws-config` are kept as data; files, the environment and the token service are calls of a world.
pub mod Quiet
use Prim.Native.String.{◌++◌}
use bottlerocket_test_system.Base.{
  ℕ, String, Bool, true, false, ◌&&◌, Option, none, some, unwrap_or, is_none, if◌then◌else◌,
}
use bottlerocket_test_system.Base.Result.{Result, ok}
use bottlerocket_test_system.Base.Exec.{Exec, ◌>>=◌, ◌>>◌, pure, throw, read, context}
use bottlerocket_test_system.Base.Maps.{get}
use bottlerocket_test_system.Agents.Utils.Secrets
use bottlerocket_test_system.Agents.Utils.Secrets.{Bytes, FileSystem, SecretData, get_secret}

-- the errors of error.rs that these functions return
pub data Error : Type 0 where
  assume_role : (role_arn source : String) → Error
  conversion : (what source : String) → Error
  credentials_missing env_setup : String → Error
  secret_missing : Secrets.Error → Error

-- `Credentials` of a secret, with the session token if there is one
pub record SecretValues : Type 0 where
  pub access_key_id : String
  pub secret_access_key : String
  pub session_token : Option String

pub data BaseProvider : Type 0 where
  credentials : SecretValues → BaseProvider
  default_provider : BaseProvider

pub data CredentialsProvider : Type 0 where
  base : BaseProvider → CredentialsProvider
  assumed_role :
      (role_arn region session_name : String) (session_length : ℕ) (base_provider : BaseProvider)
      → CredentialsProvider

pub record SdkConfig : Type 0 where
  pub region : String
  pub endpoint_url : Option String
  pub credentials_provider : CredentialsProvider

-- The credentials that `assume_role` answers.
pub record RoleCredentials : Type 0 where
  pub access_key_id : Option String
  pub secret_access_key : Option String
  pub session_token : Option String

pub record Environment (W : Type 0) : Type 0 where
  pub files : FileSystem W
  pub from_utf8 : Bytes → Result String String
  pub set_var : String → String → W → W
  pub send_assume_role : SdkConfig → String → Option ℕ → Exec W String (Option RoleCredentials)

abbrev pub default_region : String
default_region = "us-west-2"

-- seconds
abbrev default_assume_role_session_duration : ℕ
default_assume_role_session_duration = 3600

abbrev pub or_error : {W A : Type 0} → Error → Option A → Exec W Error A
or_error e none = throw e
or_error e (some a) = pure a

abbrev provider_of : Option String → Option ℕ → String → BaseProvider → CredentialsProvider
provider_of none duration region b = base b
provider_of (some role_arn) duration region b =
    assumed_role role_arn region "testsys" (unwrap_or default_assume_role_session_duration duration)
      b

module _ {W : Type 0} (env : Environment W) where
  -- a key of the secret that has to be there; both are called `access-key-id` where they are no text
  abbrev pub key_of : SecretData → String → String → Exec W Error String
  key_of aws_secret key name = do
    bytes ←
        or_error (env_setup (key ++ (" missing from secret '" ++ (name ++ "'"))))
          (get key aws_secret)
    context (conversion "access-key-id") (read (λ w. env.from_utf8 bytes))

  abbrev pub token_of : Option Bytes → Exec W Error (Option String)
  token_of none = pure none
  token_of (some bytes) = do
    token ← context (conversion "session-token") (read (λ w. env.from_utf8 bytes))
    pure (some token)

  pub get_secret_values : String → Exec W Error SecretValues
  get_secret_values name = do
    aws_secret ← context secret_missing (get_secret env.files Secrets.secrets_path name)
    id ← key_of aws_secret "access-key-id" name
    key ← key_of aws_secret "secret-access-key" name
    token ← token_of (get "session-token" aws_secret)
    pure (record { access_key_id = id; secret_access_key = key; session_token = token })

  -- the token is set if there is one
  abbrev pub set_token : Option String → W → W
  set_token none w = w
  set_token (some t) w = env.set_var "AWS_SESSION_TOKEN" t w

  pub set_environment_variables : SecretValues → Exec W Error (Unit {0})
  set_environment_variables v w = (
    ok tt,
    set_token v.session_token (
        env.set_var "AWS_SECRET_ACCESS_KEY" v.secret_access_key
          (env.set_var "AWS_ACCESS_KEY_ID" v.access_key_id w)),
  )

  -- the provider of the secret, or the default one
  pub base_provider : Option String → Option String → Bool → Exec W Error BaseProvider
  unfolding get_secret_values set_environment_variables
  base_provider none role setup_env = pure default_provider
  base_provider (some name) role setup_env = do
    v ← get_secret_values name
    (if setup_env && is_none role then set_environment_variables v else pure tt)
    pure (credentials v)

  -- the variables of an assumed role
  pub setup_role : Option String → Option ℕ → Bool → SdkConfig → Exec W Error (Unit {0})
  unfolding set_environment_variables
  setup_role none duration setup_env config = pure tt
  setup_role (some role_arn) duration false config = pure tt
  setup_role (some role_arn) duration true config = do
    answer ← context (assume_role role_arn) (env.send_assume_role config role_arn duration)
    role ← or_error (credentials_missing role_arn) answer
    id ← or_error (credentials_missing role_arn) role.access_key_id
    key ← or_error (credentials_missing role_arn) role.secret_access_key
    token ← or_error (credentials_missing role_arn) role.session_token
    set_environment_variables
        (record { access_key_id = id; secret_access_key = key; session_token = some token })

  unfoldable pub aws_config :
      (secret role : Option String) (duration : Option ℕ) (region endpoint : Option String)
      (setup_env : Bool)
      → Exec W Error SdkConfig
  unfolding base_provider setup_role
  aws_config secret role duration region endpoint setup_env = do
    b ← base_provider secret role setup_env
    let r = unwrap_or default_region region
    let config : SdkConfig = record {
      region = r;
      endpoint_url = endpoint;
      credentials_provider = provider_of role duration r b;
    }
    setup_role role duration setup_env config
    pure config
