-- ===== src/Bottlerocket/AgentConfig/Version.antt =====
-- bottlerocket/types/src/agent_config.rs: versions of Kubernetes. A text is the list of its code points.
pub mod RoundTrip
use bottlerocket_test_system.Base.{
  ℕ, ◌+◌, ◌*◌, ◌-◌, ◌/◌, ◌%◌, Bool, Option, none, some, List, [], ◌∷◌, ◌++◌, ltb, leb, ◌==◌, ◌&&◌,
  if◌then◌else◌,
}
use bottlerocket_test_system.Base.Result.{Result, ok, err, ◌>>=◌}
use bottlerocket_test_system.Controller.Utils.{split}
use bottlerocket_test_system.Bottlerocket.AgentConfig.{K8sVersion}

-- `Display` of a `u8`
pub digits : ℕ → List ℕ
digits n =
    if ltb n 10
    then (48 + n) ∷ []
    else if ltb n 100
    then (48 + n / 10) ∷ (48 + n % 10) ∷ []
    else (48 + n / 100) ∷ (48 + n / 10 % 10) ∷ (48 + n % 10) ∷ []

-- `str::parse::<u8>`: an optional plus, then digits, with every partial value in range
unfoldable pub parse_digits : ℕ → List ℕ → Option ℕ
parse_digits acc [] = some acc
parse_digits acc (c ∷ cs) =
    let next = acc * 10 + (c - 48) in
    let rest = parse_digits next cs in if leb 48 c && leb c 57 && ltb next 256 then rest else none

pub parse_u8 : List ℕ → Option ℕ
unfolding parse_digits
parse_u8 [] = none
parse_u8 (c ∷ []) = parse_digits 0 (c ∷ [])
parse_u8 (c ∷ (d ∷ ds)) = if c == 43 then parse_digits 0 (d ∷ ds) else parse_digits 0 (c ∷ (d ∷ ds))

-- the messages, each with its part that fails
pub data VersionError : Type 0 where
  no_major no_minor bad_major bad_minor : VersionError

abbrev pub or_error : {A : Type 0} → VersionError → Option A → Result VersionError A
or_error e none = err e
or_error e (some a) = ok a

-- `strip_prefix('v')`, or the text itself
pub without_v : List ℕ → List ℕ
without_v [] = []
without_v (c ∷ cs) = if c == 118 then cs else c ∷ cs

-- `next` of the iterator over the parts
abbrev head_of : List (List ℕ) → Option (List ℕ)
head_of [] = none
head_of (p ∷ ps) = some p

abbrev tail_of : List (List ℕ) → List (List ℕ)
tail_of [] = []
tail_of (p ∷ ps) = ps

-- A patch number that is no number is dropped.
abbrev patch_of : Option (List ℕ) → Option ℕ
patch_of none = none
patch_of (some p) = parse_u8 p

pub parse_parts : List (List ℕ) → Result VersionError K8sVersion
unfolding parse_u8
parse_parts parts = do
  first ← or_error no_major (head_of parts)
  major ← or_error bad_major (parse_u8 first)
  second ← or_error no_minor (head_of (tail_of parts))
  minor ← or_error bad_minor (parse_u8 second)
  ok (record { major = major; minor = minor; patch = patch_of (head_of (tail_of (tail_of parts))) })

pub parse : List ℕ → Result VersionError K8sVersion
unfolding parse_parts without_v
parse text = parse_parts (split b'.' (without_v text))

pub major_minor_without_v : K8sVersion → List ℕ
unfolding digits
major_minor_without_v v = digits v.major ++ (b'.' ∷ digits v.minor)

pub major_minor_with_v : K8sVersion → List ℕ
unfolding major_minor_without_v
major_minor_with_v v = b'v' ∷ major_minor_without_v v

-- the patch number, if there is one
pub with_patch : List ℕ → Option ℕ → List ℕ
unfolding digits
with_patch text none = text
with_patch text (some p) = text ++ (b'.' ∷ digits p)

pub full_version_without_v : K8sVersion → List ℕ
unfolding with_patch major_minor_without_v
full_version_without_v v = with_patch (major_minor_without_v v) v.patch

pub full_version_with_v : K8sVersion → List ℕ
unfolding with_patch major_minor_with_v
full_version_with_v v = with_patch (major_minor_with_v v) v.patch
