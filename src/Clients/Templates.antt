-- ===== src/Clients/Templates.antt =====
-- model/src/clients/resource_client.rs: the fields `${resource.field}` of a configuration, which stand
-- for what other resources have created. The pattern is matched by the crate `regex`, whose groups
-- are a parameter.
pub mod Resolves
use Prim.Native.String.{◌++◌ as concat}
use bottlerocket_test_system.Base.{String, Option, none, some, str_eq, if◌then◌else◌}
use bottlerocket_test_system.Base.Result.{Result, ok, err, map_err, map_ok, ◌>>=◌}
use bottlerocket_test_system.Model.Json.{
  Fields, no_entry, entry, Value, object, array, string, number, bool, null,
}
use bottlerocket_test_system.Model.Resource.{
  Resource, ResourceStatus, created_resource, default_resource_status,
}
use bottlerocket_test_system.Clients.Error.{ClientError, config_serde, config_resolution}
use bottlerocket_test_system.Clients.CrdClient.{CrdClient, get}

-- `REGEX.captures`: none without a match, or the texts of the groups 1 and 2
abbrev pub Captures : Type 0
Captures = String → Option (Option String × Option String)

-- `Map::get`
unfoldable pub lookup : String → Fields → Option Value
lookup k no_entry = none
lookup k (entry j v fields) = if str_eq j k then some v else lookup k fields

-- `context` of an option
abbrev pub or_else : {A : Type 0} → String → Option A → Result ClientError A
or_else what none = err (config_resolution what)
or_else what (some a) = ok a

-- `Configuration`: how a map becomes a value of a type, with the type's default
pub record Configuration (C : Type 0) : Type 0 where
  pub default : C
  pub from_map : Fields → Result String C

unfoldable pub resource_name_and_field_name :
    Captures → String → Result ClientError (Option (String × String))
resource_name_and_field_name captures input = elim (captures input) [
  | none ↦ ok none
  | some c ↦ do
    resource_name ← or_else "Resource name could not be extracted from capture." c.0
    field_name ← or_else "Resource value could not be extracted from capture." c.1
    ok (some (resource_name, field_name))
]

module _ {W : Type 0} (c : CrdClient W Resource) (captures : Captures) (w : W) where
  -- the field of what a resource has created
  unfoldable pub created_field : String × String → Result ClientError Value
  unfolding lookup
  created_field p = do
    resource ← get c p.0 w
    results ← or_else "Created resource missing from resource." (created_resource resource)
    or_else (concat "No field '" (concat p.1 "' in created resource")) (lookup p.1 results)

  -- the field that a template names, or the text itself
  unfoldable pub value_of : String → Option (String × String) → Result ClientError Value
  unfolding created_field
  value_of input none = ok (string input)
  value_of input (some p) = created_field p

  unfoldable pub resolve_input_string : String → Result ClientError Value
  unfolding resource_name_and_field_name value_of
  resolve_input_string input = do
    template ← resource_name_and_field_name captures input
    value_of input template

  unfoldable mutual
    unfolding resolve_input_string

    -- The entries in order; the first error is the answer.
    pub resolve_templated_config : Fields → Result ClientError Fields
    resolve_templated_config no_entry = ok no_entry
    resolve_templated_config (entry k v fields) =
        let rest = resolve_templated_config fields in
        resolve_input v >>= λ u. map_ok (entry k u) rest

    pub resolve_input : Value → Result ClientError Value
    resolve_input (string s) = resolve_input_string s
    resolve_input (object fields) = map_ok object (resolve_templated_config fields)
    resolve_input (array vs) = ok (array vs)
    resolve_input (number n) = ok (number n)
    resolve_input (bool b) = ok (bool b)
    resolve_input null = ok null

  unfoldable pub get_resource_request :
      {C : Type 0} → Configuration C → String → Result ClientError C
  unfolding resolve_templated_config
  get_resource_request t name = get c name w >>= λ r. elim r.spec.agent.configuration [
    | none ↦ ok t.default
    | some raw ↦
        resolve_templated_config raw >>= λ resolved. map_err config_serde (t.from_map resolved)
  ]

module _ {W : Type 0} (c : CrdClient W Resource) (name : String) (w : W) where
  get_status : Result ClientError ResourceStatus
  get_status =
      map_ok (λ r. elim (Resource.status r) [ none ↦ default_resource_status | some s ↦ s ])
        (get c name w)

  unfoldable pub get_agent_info : {C : Type 0} → Configuration C → Result ClientError C
  unfolding get_status
  get_agent_info t = get_status >>= λ s. elim s.agent_info [
    | none ↦ ok t.default
    | some info ↦ map_err config_serde (t.from_map info)
  ]

  unfoldable pub get_created_resource :
      {C : Type 0} → Configuration C → Result ClientError (Option C)
  unfolding get_status
  get_created_resource t = get_status >>= λ s. elim s.created_resource [
    | none ↦ ok none
    | some created ↦ map_ok some (map_err config_serde (t.from_map created))
  ]
