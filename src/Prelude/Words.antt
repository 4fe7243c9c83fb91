-- ===== src/Prelude/Words.antt =====
-- Machine words: two's complement readings, `core::cmp::Ordering` and big-endian bytes.
use Prim.Native.Nat.{ℕ, zero, suc, ◌+◌, ◌-◌, ◌*◌, ◌/◌, ◌%◌, ◌^◌, ◌<◌}
use mathlib.Core.Path.{◌≡◌}
use mathlib.Core.Bool.{Bool, true, false}
use mathlib.Core.List.{List, [], ◌∷◌}
use native.Mathlib.Omega.{arith}
use srtrust.Prelude.Lists.{get_or}
use srtrust.Prelude.Tests.{ltb, if◌then◌else◌}
use srtrust.Prelude.Int.{ℤ, pos, negsuc}

-- `w as i32` of a u32.
abbrev pub as_i32 : ℕ → ℤ
as_i32 w = if ltb w (2 ^ 31) then pos w else negsuc (2 ^ 32 - w - 1)

-- `w as i64` of a u64.
abbrev pub as_i64 : ℕ → ℤ
as_i64 w = if ltb w (2 ^ 63) then pos w else negsuc (2 ^ 64 - w - 1)

-- `w as i8` of a byte, and `z as u8` of an i8.
abbrev pub as_i8 : ℕ → ℤ
as_i8 w = if ltb w (2 ^ 7) then pos w else negsuc (2 ^ 8 - w - 1)

abbrev pub as_u8 : ℤ → ℕ
as_u8 (pos n) = n % 2 ^ 8
as_u8 (negsuc n) = 2 ^ 8 - 1 - n % 2 ^ 8

-- The i64 that a sum or product of i64 wraps to.
abbrev pub wrap_i64 : ℤ → ℤ
wrap_i64 (pos n) = as_i64 (n % 2 ^ 64)
wrap_i64 (negsuc n) = as_i64 (2 ^ 64 - 1 - n % 2 ^ 64)

-- `u32::try_from(n).unwrap_or(u32::MAX)` of a larger unsigned integer.
abbrev pub clamp_u32 : ℕ → ℕ
clamp_u32 n = if ltb n (2 ^ 32) then n else 2 ^ 32 - 1

-- `core::cmp::Ordering`.
pub data Ordering : Type 0 where
  less equal greater : Ordering

pub Ordering-discrete : Discrete Ordering
Ordering-discrete = hlevel

abbrev pub is_less : Ordering → Bool
is_less less = true
is_less _ = false

abbrev pub is_greater : Ordering → Bool
is_greater greater = true
is_greater _ = false

abbrev pub reverse_order : Ordering → Ordering
reverse_order less = greater
reverse_order equal = equal
reverse_order greater = less

-- `match d.signum() { 1 => Greater, -1 => Less, _ => Equal }`.
abbrev pub order_of_sign : ℤ → Ordering
order_of_sign (pos zero) = equal
order_of_sign (pos (suc n)) = greater
order_of_sign (negsuc n) = less

-- A predicate on all members of a list.
abbrev pub All {ℓ κ} : {A : Type ℓ} → (A → Type κ) → List A → Type κ
All P [] = Unit
All P (x ∷ xs) = P x × All P xs

abbrev pub IsByte : ℕ → Type 0
IsByte b = b < 256

-- The big-endian bytes of a u32 and of a u16.
abbrev pub u32_bytes : ℕ → List ℕ
u32_bytes v = v / 2 ^ 24 % 256 ∷ v / 2 ^ 16 % 256 ∷ v / 2 ^ 8 % 256 ∷ v % 256 ∷ []

abbrev pub u16_bytes : ℕ → List ℕ
u16_bytes v = v / 2 ^ 8 % 256 ∷ v % 256 ∷ []

abbrev pub be_u32 : ℕ → ℕ → ℕ → ℕ → ℕ
be_u32 a b c d = a * 2 ^ 24 + b * 2 ^ 16 + c * 2 ^ 8 + d

abbrev pub be_u16 : ℕ → ℕ → ℕ
be_u16 a b = a * 2 ^ 8 + b

-- The big-endian words at an offset of a slice, where the slice is long enough.
abbrev pub u32_at : List ℕ → ℕ → ℕ
u32_at bs i =
    be_u32 (get_or bs i 0) (get_or bs (i + 1) 0) (get_or bs (i + 2) 0) (get_or bs (i + 3) 0)

abbrev pub u16_at : List ℕ → ℕ → ℕ
u16_at bs i = be_u16 (get_or bs i 0) (get_or bs (i + 1) 0)

-- The bytes of a word give it back.
pub be_u32-bytes :
    (v : ℕ)
    → v < 2 ^ 32
    → be_u32 (v / 2 ^ 24 % 256) (v / 2 ^ 16 % 256) (v / 2 ^ 8 % 256) (v % 256) ≡ v
be_u32-bytes v h = omega arith

pub be_u16-bytes : (v : ℕ) → v < 2 ^ 16 → be_u16 (v / 2 ^ 8 % 256) (v % 256) ≡ v
be_u16-bytes v h = omega arith
