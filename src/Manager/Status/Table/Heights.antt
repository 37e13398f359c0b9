-- ===== src/Manager/Status/Table/Heights.antt =====
-- The columns of the status table line up.
use bottlerocket_test_system.Base.{
  ℕ, ◌+◌, ◌≤◌, String, List, [], ◌∷◌, map, length, All, ◌≡◌, ◌⊎◌, In,
}
use bottlerocket_test_system.Model.Crd.{Crd}
use bottlerocket_test_system.Manager.Status.Table.{StatusColumn, row_count, cells_of}

-- Columns of one height.
abbrev pub IsAligned : ℕ → List (List String) → Type 0
IsAligned n = All (λ col. length col ≡ n)

-- the height of a row: that of its largest column, which is zero if there is none
abbrev pub IsHeight : List (List String) → ℕ → Type 0
IsHeight cells n =
    All (λ col. length col ≤ n) cells
    × ((n ≡ 0) ⊎ ((col : List String) × In col cells × (length col ≡ n)))

-- the heights of the rows of objects
abbrev pub AreHeights : List StatusColumn → List Crd → List ℕ → Type 0
AreHeights columns [] ns = ns ≡ []
AreHeights columns (crd ∷ crds) [] = ⊥
AreHeights columns (crd ∷ crds) (n ∷ ns) =
    IsHeight (map (λ col. StatusColumn.values col crd) columns) n × AreHeights columns crds ns

abbrev pub sum : List ℕ → ℕ
sum [] = 0
sum (n ∷ ns) = n + sum ns

abbrev heights : List StatusColumn → List Crd → List ℕ
heights columns [] = []
heights columns (crd ∷ crds) = row_count (cells_of columns crd) ∷ heights columns crds
