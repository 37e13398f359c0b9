-- ===== src/Model/Json.antt =====
-- `serde_json::Value` and `Map<String, Value>`, as far as the code reads them.
use bottlerocket_test_system.Base.{ℕ, String, Bool}

mutual
  -- the entries of a map, in order
  pub data Fields : Type 0 where
    no_entry : Fields
    entry : String → Value → Fields → Fields

  pub data Values : Type 0 where
    no_value : Values
    value : Value → Values → Values

  pub data Value : Type 0 where
    object : Fields → Value
    array : Values → Value
    string : String → Value
    number : ℕ → Value
    bool : Bool → Value
    null : Value
