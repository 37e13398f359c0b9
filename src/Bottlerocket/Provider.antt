-- ===== src/Bottlerocket/Provider.antt =====
-- agent/resource-agent/src/provider: what the providers of bottlerocket/agents share: the specification
-- they read, the client that stores their memo, and `context` on calls and options.
pub mod Keeps
use bottlerocket_test_system.Base.{String, Option, none, some, List}
use bottlerocket_test_system.Base.Result.{ok, err}
use bottlerocket_test_system.Base.Exec.{Exec, pure, throw, context}
use bottlerocket_test_system.Agents.ResourceAgent.ProviderError.{
  Resources, ProviderError, new_with_source_and_context, new_with_context,
}

pub record Spec (Config : Type 0) : Type 0 where
  pub configuration : Config
  pub secrets : List (String × String)

pub record InfoClient (W Info : Type 0) : Type 0 where
  pub get_info : Exec W String Info
  pub send_info : Info → Exec W String (Unit {0})

abbrev pub aws_credentials_secret_name : String
aws_credentials_secret_name = "awsCredentials"

module _ {W A : Type 0} where
  -- `context` of a call, its error shown as a text
  unfoldable pub tried : Resources → String → Exec W String A → Exec W ProviderError A
  tried r text m = context (new_with_source_and_context r text) m

  -- `context` of an option
  unfoldable pub needed : Resources → String → Option A → Exec W ProviderError A
  needed r text none = throw (new_with_context r text)
  needed r text (some a) = pure a

-- `timeout` of the crate `tokio`, around a wait that ran for the rounds that fit in: `none` is its error.
unfoldable pub in_time :
    {W A : Type 0} → Resources → String → Exec W ProviderError (Option A) → Exec W ProviderError A
in_time r text m w =
    let s = m w in
    elim (s.0) [
      | ok o ↦ elim o [
        | none ↦ (err (new_with_source_and_context r text "Elapsed"), s.1)
        | some a ↦ (ok a, s.1)
      ]
      | err e ↦ (err e, s.1)
    ]
