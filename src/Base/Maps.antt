-- ===== src/Base/Maps.antt =====
-- Maps with texts as keys (`BTreeMap` and `HashMap` of Rust): association lists. The order of the entries
-- is not read.
use Prim.Native.String.{String}
use mathlib.Core.Option.{Option, none, some}
use mathlib.Core.List.{List, [], ◌∷◌}
use text.Mathlib.Text.{◌==◌ as str_eq}
use bottlerocket_test_system.Base.Tests.{if◌then◌else◌}

module _ {ℓ} {A : Type ℓ} where
  abbrev pub get : String → List (String × A) → Option A
  get k [] = none
  get k ((j, a) ∷ m) = if str_eq j k then some a else get k m

  abbrev pub insert : String → A → List (String × A) → List (String × A)
  insert k a [] = (k, a) ∷ []
  insert k a ((j, b) ∷ m) = if str_eq j k then (j, a) ∷ m else (j, b) ∷ insert k a m
