-- ===== src/Clients/Templates/Resolves.antt =====
-- The configurations that the resolution of templates answers.
use bottlerocket_test_system.Base.{ℕ, String, Bool, Option, none, some, ◌≡◌, ◌↔◌, refl, arith}
use bottlerocket_test_system.Base.Result.{ok, bind-ok, map_ok-ok}
use bottlerocket_test_system.Model.Json.{
  Fields, no_entry, entry, Value, Values, object, array, string, number, bool, null,
}
use bottlerocket_test_system.Model.Resource.{Resource, created_resource}
use bottlerocket_test_system.Clients.CrdClient.{CrdClient, get}
use bottlerocket_test_system.Clients.Templates.{
  Captures, or_else, lookup, resource_name_and_field_name, created_field, value_of,
  resolve_input_string, resolve_templated_config, resolve_input,
}

module _ {W : Type 0} (c : CrdClient W Resource) (captures : Captures) (w : W) where
  -- The text `${name.field}` stands for a field of what the named resource has created.
  pub record IsCreatedField (name field : String) (v : Value) : Type 0 where
    pub resource : Resource
    pub created : Fields
    pub found : get c name w ≡ ok resource
    pub has_created : created_resource resource ≡ some created
    pub has_field : lookup field created ≡ some v

  mutual
    -- A value without its templates. Texts in arrays are not looked at.
    pub data Resolves : Value → Value → Type 0 where
      plain : (s : String) → captures s ≡ none → Resolves (string s) (string s)
      template :
          (s name field : String) (v : Value)
          → captures s ≡ some (some name, some field)
          → IsCreatedField name field v
          → Resolves (string s) v
      fields : (fs gs : Fields) → ResolvesAll fs gs → Resolves (object fs) (object gs)
      items : (vs : Values) → Resolves (array vs) (array vs)
      numeral : (n : ℕ) → Resolves (number n) (number n)
      truth : (b : Bool) → Resolves (bool b) (bool b)
      nothing : Resolves null null

    pub data ResolvesAll : Fields → Fields → Type 0 where
      done : ResolvesAll no_entry no_entry
      next :
          (k : String) (v u : Value) (fs gs : Fields)
          → Resolves v u
          → ResolvesAll fs gs
          → ResolvesAll (entry k v fs) (entry k u gs)

  unwrap_ok :
      {A : Type 0} (what : String) (o : Option A) {a : A} → or_else what o ≡ ok a → o ≡ some a
  unwrap_ok what none h = absurd (cc)
  unwrap_ok what (some b) h = cc

  names_none : (s : String) → resource_name_and_field_name captures s ≡ ok none → captures s ≡ none
  unfolding resource_name_and_field_name
  names_none s h = ground arith

  names_some :
      (s name field : String)
      → resource_name_and_field_name captures s ≡ ok (some (name, field))
      → captures s ≡ some (some name, some field)
  unfolding resource_name_and_field_name
  names_some s name field h = ground arith

  created_field_sound :
      (name field : String) (u : Value)
      → created_field c captures w (name, field) ≡ ok u
      → IsCreatedField name field u
  unfolding created_field
  created_field_sound name field u h =
      let r = bind-ok (get c name w) _ h in
      let m = bind-ok (or_else _ (created_resource r.0)) _ r.2 in
      record {
        resource = r.0;
        created = m.0;
        found = r.1;
        has_created = unwrap_ok _ _ m.1;
        has_field = unwrap_ok _ _ m.2;
      }

  value_sound :
      (s : String) (t : Option (String × String)) (u : Value)
      → resource_name_and_field_name captures s ≡ ok t
      → value_of c captures w s t ≡ ok u
      → Resolves (string s) u
  unfolding value_of
  value_sound s none u e k = let p : string s ≡ u = cc in rw (← p) (plain s (names_none s e))
  value_sound s (some (name, field)) u e k =
      template s name field u (names_some s name field e) (created_field_sound name field u k)

  string_sound :
      (s : String) (u : Value) → resolve_input_string c captures w s ≡ ok u → Resolves (string s) u
  unfolding resolve_input_string
  string_sound s u h =
      let t = bind-ok (resource_name_and_field_name captures s) _ h in value_sound s t.0 u t.1 t.2

  string_complete :
      (s : String) (u : Value) → Resolves (string s) u → resolve_input_string c captures w s ≡ ok u
  unfolding resolve_input_string resource_name_and_field_name created_field
  string_complete s u (plain _ e) = ground arith
  string_complete s u (template _ name field _ e f) =
      ground (arith, f.found, f.has_created, f.has_field)

  mutual
    unfolding resolve_input

    sound : (v u : Value) → resolve_input c captures w v ≡ ok u → Resolves v u
    sound (string s) u h = string_sound s u h
    sound (object fs) u h =
        let m = map_ok-ok object (resolve_templated_config c captures w fs) h in
        let e = m.2 in rw (← e) (fields fs m.0 (sound_all fs m.0 m.1))
    sound (array vs) u h = let e : array vs ≡ u = cc in rw (← e) (items vs)
    sound (number n) u h = let e : number n ≡ u = cc in rw (← e) (numeral n)
    sound (bool b) u h = let e : bool b ≡ u = cc in rw (← e) (truth b)
    sound null u h = let e : null ≡ u = cc in rw (← e) nothing

    sound_all :
        (fs gs : Fields) → resolve_templated_config c captures w fs ≡ ok gs → ResolvesAll fs gs
    sound_all no_entry gs h = let e : no_entry ≡ gs = cc in rw (← e) done
    sound_all (entry k v fs) gs h =
        let a = bind-ok (resolve_input c captures w v) _ h in
        let m = map_ok-ok (entry k a.0) (resolve_templated_config c captures w fs) a.2 in
        let e = m.2 in rw (← e) (next k v a.0 fs m.0 (sound v a.0 a.1) (sound_all fs m.0 m.1))

  mutual
    unfolding resolve_input

    complete : (v u : Value) → Resolves v u → resolve_input c captures w v ≡ ok u
    complete (string s) u r = string_complete s u r
    complete (object fs) _ (fields _ gs r) = rw (complete_all fs gs r)
    complete (array vs) _ (items _) = refl
    complete (number n) _ (numeral _) = refl
    complete (bool b) _ (truth _) = refl
    complete null _ nothing = refl

    complete_all :
        (fs gs : Fields) → ResolvesAll fs gs → resolve_templated_config c captures w fs ≡ ok gs
    complete_all no_entry _ done = refl
    complete_all (entry k v fs) _ (next _ _ u _ gs r rs) =
        rw (complete v u r) (rw (complete_all fs gs rs))

  -- A configuration is resolved to another one exactly when the two have the same keys in the same
  -- order and each value is resolved: a text that the pattern matches is replaced by the field, of that
  -- name, of what the resource of that name has created; other texts, numbers and arrays stay; an
  -- object is resolved in the same way.
  pub resolve_templated_config_iff :
      (fs gs : Fields) → (resolve_templated_config c captures w fs ≡ ok gs) ↔ ResolvesAll fs gs
  resolve_templated_config_iff fs gs = (sound_all fs gs, complete_all fs gs)
