-- ===== src/Prelude/Bits.antt =====
-- Laws of the bitwise operations at every width, from the digit recursion that defines them:
-- exclusive or cancels and commutes, and `|` of disjoint fields is a sum.
use Prim.Native.Nat.{
  ℕ, zero, suc, ◌+◌, ◌*◌, ◌/◌, ◌%◌, ◌^◌, ◌≤◌, ◌<◌, max, bit_or, bit_xor, digits, differ,
  bit_or-bitwise, bit_xor-bitwise,
}
use mathlib.Core.Path.{◌≡◌, refl, ap}
use native.Mathlib.Decide.{dec_lt}
use native.Mathlib.Nat.{pow-suc}
use native.Mathlib.Omega.{arith}

-- The digit recursion does not depend on its fuel, once that reaches the first number.
digits-fuel :
    (f : ℕ → ℕ → ℕ) (n m a b : ℕ)
    → a ≤ n
    → a ≤ m
    → digits (λ y. y) f n a b ≡ digits (λ y. y) f m a b
digits-fuel f zero zero a b p q = refl
digits-fuel f zero (suc m) zero b p q = refl
digits-fuel f zero (suc m) (suc a) b p q = absurd (omega arith)
digits-fuel f (suc n) zero zero b p q = refl
digits-fuel f (suc n) zero (suc a) b p q = absurd (omega arith)
digits-fuel f (suc n) (suc m) zero b p q = refl
digits-fuel f (suc n) (suc m) (suc a) b p q =
    ap (λ (t : ℕ). t * 2 + f (suc a % 2) (b % 2))
      (digits-fuel f n m (suc a / 2) (b / 2) (omega arith) (omega arith))

differ_digits : (x y : ℕ) → x < 2 → y < 2 → differ x y ≡ (x + y) % 2
differ_digits zero zero p q = refl
differ_digits zero (suc zero) p q = refl
differ_digits zero (suc (suc y)) p q = absurd (omega arith)
differ_digits (suc zero) zero p q = refl
differ_digits (suc zero) (suc zero) p q = refl
differ_digits (suc zero) (suc (suc y)) p q = absurd (omega arith)
differ_digits (suc (suc x)) y p q = absurd (omega arith)

xor_step : (a b : ℕ) → bit_xor a b ≡ bit_xor (a / 2) (b / 2) * 2 + (a % 2 + b % 2) % 2
xor_step zero b = omega (arith, bit_xor-bitwise zero b, bit_xor-bitwise zero (b / 2))
xor_step (suc a) b = omega (
  arith,
  bit_xor-bitwise (suc a) b,
  bit_xor-bitwise (suc a / 2) (b / 2),
  digits-fuel differ a (suc a / 2) (suc a / 2) (b / 2) (omega arith) (omega arith),
  differ_digits (suc a % 2) (b % 2) (omega arith) (omega arith),
)

or_step : (a b : ℕ) → bit_or a b ≡ bit_or (a / 2) (b / 2) * 2 + max (a % 2) (b % 2)
or_step zero b = omega (arith, bit_or-bitwise zero b, bit_or-bitwise zero (b / 2))
or_step (suc a) b = omega (
  arith,
  bit_or-bitwise (suc a) b,
  bit_or-bitwise (suc a / 2) (b / 2),
  digits-fuel max a (suc a / 2) (suc a / 2) (b / 2) (omega arith) (omega arith),
)

xor-div : (a b : ℕ) → bit_xor a b / 2 ≡ bit_xor (a / 2) (b / 2)
xor-div a b = omega (arith, xor_step a b)

xor-mod : (a b : ℕ) → bit_xor a b % 2 ≡ (a % 2 + b % 2) % 2
xor-mod a b = omega (arith, xor_step a b)

pub zero-xor : (a : ℕ) → bit_xor 0 a ≡ a
zero-xor a = bit_xor-bitwise 0 a

-- A double exclusive or takes its digits from those of the three numbers.
xor_xor_step :
    (x a b : ℕ)
    → bit_xor (bit_xor x a) b
      ≡ bit_xor (bit_xor (x / 2) (a / 2)) (b / 2) * 2 + (x % 2 + a % 2 + b % 2) % 2
xor_xor_step x a b =
    omega (
      arith,
      xor_step (bit_xor x a) b,
      ap (λ (t : ℕ). bit_xor t (b / 2)) (xor-div x a),
      xor-mod x a,
    )

xor_right_comm_fuel :
    (n x a b : ℕ) → x + a + b ≤ n → bit_xor (bit_xor x a) b ≡ bit_xor (bit_xor x b) a
xor_right_comm_fuel zero x a b h =
    let ex : x ≡ 0 = omega arith in
    let ea : a ≡ 0 = omega arith in let eb : b ≡ 0 = omega arith in rw (ex, ea, eb)
xor_right_comm_fuel (suc n) x a b h = elim (dec_lt 0 (x + a + b)) [
  | yes p ↦ omega (
    arith,
    xor_xor_step x a b,
    xor_xor_step x b a,
    xor_right_comm_fuel n (x / 2) (a / 2) (b / 2) (omega arith),
  )
  | no p ↦ xor_right_comm_fuel n x a b (omega arith)
]

-- Exclusive or by two numbers in either order.
pub xor_right_comm : (x a b : ℕ) → bit_xor (bit_xor x a) b ≡ bit_xor (bit_xor x b) a
xor_right_comm x a b = xor_right_comm_fuel (x + a + b) x a b (omega arith)

xor_cancel_fuel : (n x a : ℕ) → x + a ≤ n → bit_xor (bit_xor x a) a ≡ x
xor_cancel_fuel zero x a h =
    let ex : x ≡ 0 = omega arith in let ea : a ≡ 0 = omega arith in rw (ex, ea)
xor_cancel_fuel (suc n) x a h = elim (dec_lt 0 (x + a)) [
  | yes p ↦ omega (arith, xor_xor_step x a a, xor_cancel_fuel n (x / 2) (a / 2) (omega arith))
  | no p ↦ xor_cancel_fuel n x a (omega arith)
]

-- Exclusive or by the same number twice gives the first one back.
pub xor_cancel : (x a : ℕ) → bit_xor (bit_xor x a) a ≡ x
xor_cancel x a = xor_cancel_fuel (x + a) x a (omega arith)

double-pow : (q k : ℕ) → q * 2 ^ suc k ≡ q * 2 ^ k * 2
double-pow q k = omega (arith, ap (λ (t : ℕ). q * t) (pow-suc 2 k))

or-zero_fuel : (n a : ℕ) → a ≤ n → bit_or a 0 ≡ a
or-zero_fuel n zero h = refl
or-zero_fuel zero (suc a) h = absurd (omega arith)
or-zero_fuel (suc n) (suc a) h =
    omega (arith, or_step (suc a) 0, or-zero_fuel n (suc a / 2) (omega arith))

pub or-zero : (a : ℕ) → bit_or a 0 ≡ a
or-zero a = or-zero_fuel a a (omega arith)

-- `(q << k) | r` is a sum where `r` has at most `k` bits.
pub or_fields : (k q r : ℕ) → r < 2 ^ k → bit_or (q * 2 ^ k) r ≡ q * 2 ^ k + r
or_fields zero q r h = ground (arith, or-zero_fuel q q (omega arith))
or_fields (suc k) q r h = ground (
  arith,
  or_step (q * 2 ^ suc k) r,
  double-pow q k,
  or_fields k q (r / 2) (omega (arith, pow-suc 2 k)),
)

-- Exclusive or stays within `k` bits.
pub xor-lt : (k a b : ℕ) → a < 2 ^ k → b < 2 ^ k → bit_xor a b < 2 ^ k
xor-lt zero a b h l =
    let ea : a ≡ 0 = omega arith in let eb : b ≡ 0 = omega arith in rw (ea, eb) (omega arith)
xor-lt (suc k) a b h l = omega (
  arith,
  xor_step a b,
  pow-suc 2 k,
  xor-lt k (a / 2) (b / 2) (omega (arith, pow-suc 2 k)) (omega (arith, pow-suc 2 k)),
)

or_comm_fuel : (n a b : ℕ) → a + b ≤ n → bit_or a b ≡ bit_or b a
or_comm_fuel zero a b h =
    let ea : a ≡ 0 = omega arith in let eb : b ≡ 0 = omega arith in rw (ea, eb)
or_comm_fuel (suc n) a b h = elim (dec_lt 0 (a + b)) [
  | yes p ↦ omega (arith, or_step a b, or_step b a, or_comm_fuel n (a / 2) (b / 2) (omega arith))
  | no p ↦ or_comm_fuel n a b (omega arith)
]

pub or_comm : (a b : ℕ) → bit_or a b ≡ bit_or b a
or_comm a b = or_comm_fuel (a + b) a b (omega arith)
