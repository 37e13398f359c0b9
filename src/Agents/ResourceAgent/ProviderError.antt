-- ===== src/Agents/ResourceAgent/ProviderError.antt =====
-- agent/resource-agent/src/provider/error.rs: the errors of a provider, with what is left behind.
use Prim.Native.String.{◌++◌}
use bottlerocket_test_system.Base.{String, Option, none, some}
use bottlerocket_test_system.Model.Resource.{ErrorResources}

pub data Resources : Type 0 where
  orphaned remaining clear unknown : Resources

-- `inner` is the error as `{:?}` shows it.
pub record ProviderError : Type 0 where
  pub resources : Resources
  pub context : Option String
  pub inner : Option String

unfoldable pub new_with_source_and_context : Resources → String → String → ProviderError
new_with_source_and_context r context source = record {
  resources = r;
  context = some context;
  inner = some source;
}

unfoldable pub new_with_source : Resources → String → ProviderError
new_with_source r source = record { resources = r; context = none; inner = some source }

unfoldable pub new_with_context : Resources → String → ProviderError
new_with_context r context = record { resources = r; context = some context; inner = none }

-- `Resources::message`, which `Display` writes
pub message : Resources → String
message orphaned = "An error left orphaned resources that cannot be destroyed"
message remaining = "An error left resources behind that can be destroyed"
message clear = "An error occurred but no resources were left behind"
message unknown = "An error occurred and it is unknown whether or not resources were left behind"

-- a part of the text, if it is there
abbrev part : String → Option String → String
part before none = ""
part before (some s) = before ++ s

-- `Display` of `ProviderError`
unfoldable pub display : ProviderError → String
unfolding message
display e = message e.resources ++ (part ", " e.context ++ part ": " e.inner)

-- `From<Resources> for ErrorResources` of clients/implementation.rs
unfoldable pub from_resources : Resources → ErrorResources
from_resources orphaned = ErrorResources.orphaned
from_resources remaining = ErrorResources.remaining
from_resources clear = ErrorResources.clear
from_resources unknown = ErrorResources.unknown
