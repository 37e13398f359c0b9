-- ===== src/Bottlerocket/AgentConfig/Version/RoundTrip.antt =====
-- A version of Kubernetes is read back from its texts.
use mathlib.Core.List.{append_assoc}
use bottlerocket_test_system.Base.{
  ℕ, ◌<◌, Option, none, some, List, [], ◌∷◌, ◌++◌, ◌≡◌, refl, arith, ap, sym, ◌∙◌,
}
use bottlerocket_test_system.Base.Result.{ok}
use bottlerocket_test_system.Controller.Utils.{split, push_front}
use bottlerocket_test_system.Bottlerocket.AgentConfig.{K8sVersion}
use bottlerocket_test_system.Bottlerocket.AgentConfig.Version.{
  digits, parse_digits, parse_u8, without_v, parse_parts, parse, major_minor_without_v,
  major_minor_with_v, with_patch, full_version_without_v, full_version_with_v,
}

-- The numbers are of type `u8`.
pub record IsVersion (v : K8sVersion) : Type 0 where
  pub major_lt : v.major < 256
  pub minor_lt : v.minor < 256
  pub patch_lt : (p : ℕ) → v.patch ≡ some p → p < 256

parse_u8-digits : (n : ℕ) → n < 256 → parse_u8 (digits n) ≡ some n
unfolding digits parse_u8 parse_digits
parse_u8-digits n h = ground arith

split-digits_dot :
    (n : ℕ) (rest : List ℕ)
    → n < 256
    → split 46 (digits n ++ (46 ∷ rest)) ≡ digits n ∷ split 46 rest
unfolding digits split push_front
split-digits_dot n rest h = ground arith

split-digits : (n : ℕ) → n < 256 → split 46 (digits n) ≡ digits n ∷ []
unfolding digits split push_front
split-digits n h = ground arith

without_v-digits :
    (n : ℕ) (rest : List ℕ) → n < 256 → without_v (digits n ++ rest) ≡ digits n ++ rest
unfolding digits without_v
without_v-digits n rest h = ground arith

-- the parts of a version
parse_parts-two :
    (n m : ℕ)
    → n < 256
    → m < 256
    → parse_parts (digits n ∷ digits m ∷ []) ≡ ok (record { major = n; minor = m; patch = none })
unfolding parse_parts
parse_parts-two n m h k = ground (arith, parse_u8-digits n h, parse_u8-digits m k)

parse_parts-three :
    (n m p : ℕ)
    → n < 256
    → m < 256
    → p < 256
    → parse_parts (digits n ∷ digits m ∷ digits p ∷ [])
      ≡ ok (record { major = n; minor = m; patch = some p })
unfolding parse_parts
parse_parts-three n m p h k l =
    ground (arith, parse_u8-digits n h, parse_u8-digits m k, parse_u8-digits p l)

abbrev text_of : ℕ → ℕ → Option ℕ → List ℕ
text_of n m p = with_patch (digits n ++ (46 ∷ digits m)) p

parse-text_of :
    (n m : ℕ) (p : Option ℕ)
    → IsVersion (record { major = n; minor = m; patch = p })
    → (text_of n m p ≡ digits n ++ (46 ∷ with_patch (digits m) p))
      × (parse_parts (split 46 (text_of n m p)) ≡ ok (record { major = n; minor = m; patch = p }))
unfolding with_patch
parse-text_of n m none h = (
  refl,
  rw (split-digits_dot n (digits m) h.major_lt, split-digits m h.minor_lt)
      (parse_parts-two n m h.major_lt h.minor_lt),
)
parse-text_of n m (some p) h =
    let l = h.patch_lt p refl in
    let e = append_assoc (digits n) (46 ∷ digits m) (46 ∷ digits p) in
    (
      e,
      rw
          (
            e,
            split-digits_dot n (digits m ++ (46 ∷ digits p)) h.major_lt,
            split-digits_dot m (digits p) h.minor_lt,
            split-digits p l,
          )
          (parse_parts-three n m p h.major_lt h.minor_lt l),
    )

skip_v : (t : List ℕ) (p : Option ℕ) → without_v (with_patch (118 ∷ t) p) ≡ with_patch t p
unfolding without_v with_patch
skip_v t none = refl
skip_v t (some p) = refl

-- A version whose numbers are of type `u8` is read back from its full text, with the `v` or without.
pub parse-full_version :
    (v : K8sVersion)
    → IsVersion v
    → (parse (full_version_with_v v) ≡ ok v) × (parse (full_version_without_v v) ≡ ok v)
unfolding parse full_version_with_v full_version_without_v major_minor_with_v major_minor_without_v
parse-full_version v h =
    let s = parse-text_of v.major v.minor v.patch h in
    let plain =
      s.0
      ∙ (sym (without_v-digits v.major (46 ∷ with_patch (digits v.minor) v.patch) h.major_lt)
          ∙ ap without_v (sym s.0)) in
    (
      ap (λ x. parse_parts (split 46 x)) (skip_v (digits v.major ++ (46 ∷ digits v.minor)) v.patch)
          ∙ s.1,
      ap (λ x. parse_parts (split 46 x)) (sym plain) ∙ s.1,
    )
