-- ===== src/Agents/Utils/Ssm.antt =====
-- agent/utils/src/ssm.rs: activations of the service SSM. The services are records of calls; the trust
-- document is a JSON text.
use bottlerocket_test_system.Base.{
  ℕ, zero, suc, String, Bool, false, Option, none, some, List, [], ◌∷◌, str_eq, if◌then◌else◌,
}
use bottlerocket_test_system.Base.Result.{Result, ok, err}
use bottlerocket_test_system.Base.Exec.{Exec, ◌>>=◌, ◌>>◌, pure, throw, context, attempt}

-- the errors of error.rs that these functions return
pub data Error : Type 0 where
  attach_role_policy create_role : (role_name text source : String) → Error
  activation_failed get_managed_instance_info : String → Error
  get_ssm_role : (role_name source : String) → Error
  missing : (what from : String) → Error

-- `SdkError`: the service answers an error, or the call fails otherwise.
pub data SdkError : Type 0 where
  service_error : (code : Option String) (text : String) → SdkError
  other_error : String → SdkError

pub record Iam (W : Type 0) : Type 0 where
  pub get_role : String → Exec W SdkError (Unit {0})
  pub send_create_role : String → String → Exec W String (Unit {0})
  pub send_attach_role_policy : String → String → Exec W String (Unit {0})

pub record InstanceInformation : Type 0 where
  pub instance_id : Option String
  pub ip_address : Option String

pub record Activations : Type 0 where
  pub activation_id : Option String
  pub activation_code : Option String

pub record Ssm (W : Type 0) : Type 0 where
  pub create_activation :
      (role : String) (limit : ℕ) (tag : String × String) → Exec W String Activations
  pub describe_instance_information :
      (key value : String) → Exec W String (Option (List InstanceInformation))
  pub sleep : ℕ → W → W

abbrev service_role : String
service_role = "BR-SSMServiceRole"

abbrev pub policy_arn : String
policy_arn = "arn:aws:iam::aws:policy/AmazonSSMManagedInstanceCore"

abbrev has_ip : String → Option String → Bool
has_ip ip none = false
has_ip ip (some a) = str_eq a ip

find_ip : String → List InstanceInformation → Option InstanceInformation
find_ip ip [] = none
find_ip ip (i ∷ is) = if has_ip ip i.ip_address then some i else find_ip ip is

module _ {W : Type 0} where
  -- a role that the service does not find is created
  create_missing : String → Iam W → Result SdkError (Unit {0}) → Exec W Error (Unit {0})
  create_missing document iam (ok u) = pure tt
  create_missing document iam (err (service_error code text)) =
      context (create_role service_role document) (iam.send_create_role service_role document)
  create_missing document iam (err (other_error e)) = throw (get_ssm_role service_role e)

  unfoldable pub ensure_ssm_service_role : String → Iam W → Exec W Error (Unit {0})
  unfolding create_missing
  ensure_ssm_service_role document iam = do
    found ← attempt (iam.get_role service_role)
    create_missing document iam found
    context (attach_role_policy service_role policy_arn)
        (iam.send_attach_role_policy service_role policy_arn)

  abbrev or_error : {A : Type 0} → Error → Option A → Exec W Error A
  or_error e none = throw e
  or_error e (some a) = pure a

  unfoldable pub create_ssm_activation : String → ℕ → Ssm W → Exec W Error (String × String)
  create_ssm_activation cluster_name num_registration ssm = do
    activations ← context activation_failed (
        ssm.create_activation service_role num_registration
          ("TESTSYS_MANAGED_INSTANCE", cluster_name))
    id ← or_error (missing "activation id" "activations") activations.activation_id
    code ← or_error (missing "activation code" "activations") activations.activation_code
    pure (id, code)

  abbrev found_or :
      Exec W Error (Option InstanceInformation)
      → Option InstanceInformation
      → Exec W Error (Option InstanceInformation)
  found_or again none = again
  found_or again (some i) = pure (some i)

  -- The loop, for a number of rounds: `none` says that they were not enough.
  unfoldable pub wait_for_ssm_ready :
      Ssm W → String → String → ℕ → Exec W Error (Option InstanceInformation)
  unfolding find_ip
  wait_for_ssm_ready ssm activation_id ip zero = pure none
  wait_for_ssm_ready ssm activation_id ip (suc rounds) = do
    listed ←
        context get_managed_instance_info
          (ssm.describe_instance_information "ActivationIds" activation_id)
    let again : Exec W Error (Option InstanceInformation) =
        λ w. wait_for_ssm_ready ssm activation_id ip rounds (ssm.sleep 5 w)
    found_or again (elim listed [ none ↦ none | some is ↦ find_ip ip is ])
