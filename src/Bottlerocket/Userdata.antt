-- ===== src/Bottlerocket/Userdata.antt =====
-- bottlerocket/agents/src/userdata.rs: TOML values that are merged, and user data in base64. A table is an
-- association list: the order of its keys is not read. Base64 and UTF-8 are parameters.
pub mod Merged
use bottlerocket_test_system.Base.{
  ℕ, String, Bool, true, false, Option, none, some, List, ◌==◌, str_eq, if◌then◌else◌,
}
use bottlerocket_test_system.Base.Result.{Result, ok, err, ◌>>=◌, map_err}
use bottlerocket_test_system.Agents.ResourceAgent.ProviderError.{
  ProviderError, clear, new_with_context, new_with_source_and_context,
}
use bottlerocket_test_system.Agents.Utils.Secrets.{Bytes}

mutual
  -- `toml::map::Map`
  pub data Table : Type 0 where
    no_entry : Table
    entry : String → Value → Table → Table

  pub data Values : Type 0 where
    no_value : Values
    value : Value → Values → Values

  -- `toml::Value`; the numbers and dates are kept as they are written
  pub data Value : Type 0 where
    string integer float datetime : String → Value
    boolean : Bool → Value
    array : Values → Value
    table : Table → Value

-- which of the cases a value is
abbrev pub kind : Value → ℕ
kind (string s) = 0
kind (integer n) = 1
kind (float x) = 2
kind (datetime d) = 3
kind (boolean b) = 4
kind (array vs) = 5
kind (table t) = 6

-- `Value::same_type`
abbrev same_type : Value → Value → Bool
same_type v w = kind v == kind w

abbrev pub lookup : String → Table → Option Value
lookup k no_entry = none
lookup k (entry j v t) = if str_eq j k then some v else lookup k t

-- the table with a value at a key, old or new
abbrev pub put : String → Value → Table → Table
put k v no_entry = entry k v no_entry
put k v (entry j w t) = if str_eq j k then entry j v t else entry j w (put k v t)

abbrev mismatch : ProviderError
mismatch = new_with_context clear "Cannot merge mismatched data types in given TOML"

-- a scalar or an array takes the place of one of its type
abbrev pub replace : Value → Value → Result ProviderError Value
replace from into = if same_type into from then ok from else err mismatch

-- one key: the value is new, or is merged into the old one
abbrev pub merge_entry :
    String
    → (Value → Result ProviderError Value)
    → Value
    → Option Value
    → Table
    → Result ProviderError Table
merge_entry k merge v none to = ok (put k v to)
merge_entry k merge v (some old) to = merge old >>= λ new. ok (put k new to)

unfoldable mutual
  -- What `merge_into` is after the call. Where the call fails, it is not read any more.
  pub merge_values : Value → Value → Result ProviderError Value
  merge_values (table from) (table to) = merge_table from to >>= λ t. ok (table t)
  merge_values (table from) merge_into = err mismatch
  merge_values (string s) into = replace (string s) into
  merge_values (integer n) into = replace (integer n) into
  merge_values (float x) into = replace (float x) into
  merge_values (datetime d) into = replace (datetime d) into
  merge_values (boolean b) into = replace (boolean b) into
  merge_values (array vs) into = replace (array vs) into

  -- the loop over the entries of the table that is merged
  pub merge_table : Table → Table → Result ProviderError Table
  merge_table no_entry to = ok to
  merge_table (entry k v from) to =
      merge_entry k (merge_values v) v (lookup k to) to >>= λ t. merge_table from t

-- `from_utf8` and `decode`, with an error of each shown as a text
unfoldable pub decode_to_string :
    (String → Result String Bytes)
    → (Bytes → Result String String)
    → String
    → Result ProviderError String
decode_to_string decode from_utf8 encoded = do
  bytes ←
      map_err (new_with_source_and_context clear "Failed to decode base64 TOML") (decode encoded)
  map_err (new_with_source_and_context clear "Failed to decode base64 TOML") (from_utf8 bytes)
