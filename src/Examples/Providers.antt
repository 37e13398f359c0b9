-- ===== src/Examples/Providers.antt =====
-- The theorems on what providers share at concrete values: user data and versions.
mod Ec2
mod Clusters
mod Eks
use bottlerocket_test_system.Base.{ℕ, ◌<◌, String, none, some, List, [], ◌∷◌, ◌≡◌, refl, arith}
use bottlerocket_test_system.Base.Result.{ok}
use bottlerocket_test_system.Bottlerocket.Userdata.{
  no_entry, entry, Value, string, integer, table, lookup, merge_values, merge_table,
}
use bottlerocket_test_system.Bottlerocket.Userdata.Merged.{
  at, IsMap, Overlays, merge_values-Overlays,
}
use bottlerocket_test_system.Bottlerocket.AgentConfig.{K8sVersion}
use bottlerocket_test_system.Bottlerocket.AgentConfig.Version.{
  parse, full_version_with_v, full_version_without_v,
}
use bottlerocket_test_system.Bottlerocket.AgentConfig.Version.RoundTrip.{
  IsVersion, parse-full_version,
}

-- the values of the unit test `merge_2`, in part
abbrev left : Value
left = table (
    entry "top1" (string "left top1") (
      entry "top2" (string "left top2")
        (entry "settings" (table (entry "setting" (string "left setting") no_entry)) no_entry)))

abbrev right : Value
right = table (
    entry "top1" (string "right top1")
      (entry "settings" (table (entry "inner" (integer "3") no_entry)) no_entry))

abbrev merged : Value
merged = table (
    entry "top1" (string "right top1") (
      entry "top2" (string "left top2") (
        entry "settings"
          (table (entry "setting" (string "left setting") (entry "inner" (integer "3") no_entry)))
          no_entry)))

merges : merge_values right left ≡ ok merged
unfolding merge_values
merges = refl

right-IsMap : IsMap right
unfolding IsMap
right-IsMap = (refl, (tt, (refl, ((refl, (tt, tt)), tt))))

merge_values-Overlays_example :
    Overlays
      (at ("settings" ∷ "setting" ∷ []) right)
      (at ("settings" ∷ "setting" ∷ []) left)
      (at ("settings" ∷ "setting" ∷ []) merged)
merge_values-Overlays_example =
    merge_values-Overlays ("settings" ∷ "setting" ∷ []) right left merged right-IsMap merges

-- the version v1.21.3
abbrev version : K8sVersion
version = record { major = 1; minor = 21; patch = some 3 }

small : (p : ℕ) → version.patch ≡ some p → p < 256
small p e = ground (arith, e)

version-IsVersion : IsVersion version
version-IsVersion = record { major_lt = omega arith; minor_lt = omega arith; patch_lt = small }

parse-full_version_example :
    (parse (full_version_with_v version) ≡ ok version)
    × (parse (full_version_without_v version) ≡ ok version)
parse-full_version_example = parse-full_version version version-IsVersion
