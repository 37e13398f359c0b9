-- ===== src/Agents/Utils.antt =====
-- agent/utils/src/lib.rs: functions that agents share. Files, base64 and the environment are calls of a
-- world; an exit code is shown by a parameter.
pub mod Secrets
pub mod Aws
pub mod Ssm
use Prim.Native.String.{◌++◌}
use bottlerocket_test_system.Base.{ℕ, String, Bool, Option, none, some, List, if◌then◌else◌}
use bottlerocket_test_system.Base.Result.{Result, ok, err}
use bottlerocket_test_system.Base.Exec.{Exec, ◌>>=◌, ◌>>◌, read, context}
use bottlerocket_test_system.Agents.ResourceAgent.ProviderError.{
  Resources, ProviderError, new_with_context,
}
use bottlerocket_test_system.Agents.Utils.Secrets.{Bytes}

-- errors of error.rs of writing a file
pub data WriteError : Type 0 where
  base64_decode : String → WriteError
  write_file : (path source : String) → WriteError

module _ {W : Type 0} (decode : String → Result String Bytes)
    (write : String → Bytes → Exec W String (Unit {0})) where
  unfoldable pub base64_decode_write_file : String → String → Exec W WriteError (Unit {0})
  base64_decode_write_file content path = do
    decoded_bytes ← context base64_decode (read (λ w. decode content))
    context (write_file path) (write path decoded_bytes)

-- `Output`, its streams decoded; a program that a signal ended has no code.
pub record Output : Type 0 where
  pub success : Bool
  pub code : Option String
  pub stdout : String
  pub stderr : String

abbrev code_text : Option String → String
code_text none = "-1"
code_text (some c) = c

unfoldable pub provider_error_for_cmd_output :
    Output → String → Resources → Result ProviderError String
provider_error_for_cmd_output output hint resources =
    if output.success
    then ok output.stdout
    else err (
        new_with_context resources (
          "Error running '"
          ++ (hint
              ++ ("', exit code "
                  ++ (code_text output.code
                      ++ ("\nstderr:\n" ++ (output.stderr ++ ("\nstdout:\n" ++ output.stdout))))))))
