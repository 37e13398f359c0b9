-- ===== src/Base/Duration.antt =====
-- `chrono::Duration`, which is signed, and `std::time::Duration`, which is not, in nanoseconds.
use Prim.Native.Nat.{ℕ, ◌-◌, ◌*◌}
use mathlib.Core.Bool.{Bool, false}
use mathlib.Core.Option.{Option, none, some}
use bottlerocket_test_system.Base.Tests.{leb, if◌then◌else◌}

-- `negsuc n` is -(n + 1) nanoseconds.
pub data ℤ : Type 0 where
  pos : ℕ → ℤ
  negsuc : ℕ → ℤ

-- the difference of two points in time, `later - earlier`
abbrev pub sub_ℕ : ℕ → ℕ → ℤ
sub_ℕ a b = if leb b a then pos (a - b) else negsuc (b - a - 1)

-- `chrono::Duration::to_std`, which refuses a negative duration
abbrev pub to_std : ℤ → Option ℕ
to_std (pos n) = some n
to_std (negsuc n) = none

-- `d >= limit`, for a limit that is not negative
abbrev pub at_least : ℤ → ℕ → Bool
at_least (pos n) limit = leb limit n
at_least (negsuc n) limit = false

abbrev nanos_per_sec : ℕ
nanos_per_sec = 1_000_000_000

-- `Duration::seconds` and `Duration::from_secs`
abbrev pub from_secs : ℕ → ℕ
from_secs s = s * nanos_per_sec
