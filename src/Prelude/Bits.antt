-- ===== src/Prelude/Bits.antt =====
-- What a bitwise "and" keeps: it never has more than its operands. A bitwise "or" of fields that do not
-- overlap is their sum.
use Prim.Native.Nat.{
  ℕ, zero, suc, ◌+◌, ◌*◌, ◌/◌, ◌%◌, ◌≤◌, min, max, bit_and, bit_or, digits, bit_and-bitwise,
  bit_or-bitwise, ◌^◌, ◌<◌,
}
use mathlib.Core.Path.{◌≡◌, refl, sym, ap, ◌∙◌}
use mathlib.Core.Bool.{Bool, true, ◌&&◌}
use native.Mathlib.Nat.{pow-suc, mul_assoc}
use native.Mathlib.Omega.{arith}

-- `bit_and` on the digits, with fuel
abbrev common : ℕ → ℕ → ℕ → ℕ
common fuel x y = digits (λ _. 0) min fuel x y

common-le : (fuel x y : ℕ) → common fuel x y ≤ y
common-le zero x y = omega arith
common-le (suc fuel) zero y = omega arith
common-le (suc fuel) (suc x) y = omega (arith, common-le fuel (suc x / 2) (y / 2))

common-le_left : (fuel x y : ℕ) → common fuel x y ≤ x
common-le_left zero x y = omega arith
common-le_left (suc fuel) zero y = omega arith
common-le_left (suc fuel) (suc x) y = omega (arith, common-le_left fuel (suc x / 2) (y / 2))

common_same : (f g x y : ℕ) → x ≤ f → x ≤ g → common f x y ≡ common g x y
common_same zero zero x y a b = refl
common_same zero (suc g) zero y a b = refl
common_same zero (suc g) (suc x) y a b = absurd (omega arith)
common_same (suc f) zero zero y a b = refl
common_same (suc f) zero (suc x) y a b = absurd (omega arith)
common_same (suc f) (suc g) zero y a b = refl
common_same (suc f) (suc g) (suc x) y a b =
    omega (arith, common_same f g (suc x / 2) (y / 2) (omega arith) (omega arith))

bit_and-common : (fuel x y : ℕ) → x ≤ fuel → bit_and x y ≡ common fuel x y
bit_and-common fuel x y h = bit_and-bitwise x y ∙ common_same x fuel x y (omega arith) h

pub bit_and-le : (x y : ℕ) → bit_and x y ≤ y
bit_and-le x y = omega (arith, bit_and-common x x y (omega arith), common-le x x y)

common-zero : (fuel y : ℕ) → common fuel 0 y ≡ 0
common-zero zero y = refl
common-zero (suc fuel) y = refl

common_step :
    (fuel x y : ℕ) → common (suc fuel) x y ≡ common fuel (x / 2) (y / 2) * 2 + min (x % 2) (y % 2)
common_step fuel zero y = omega (arith, common-zero fuel (y / 2))
common_step fuel (suc x) y = refl

pub bit_and_step : (x y : ℕ) → bit_and x y ≡ bit_and (x / 2) (y / 2) * 2 + min (x % 2) (y % 2)
bit_and_step x y = omega (
  arith,
  bit_and-common (suc x) x y (omega arith),
  common_step x x y,
  bit_and-common x (x / 2) (y / 2) (omega arith),
)

-- Digit by digit, with the same fuel on both sides.
common_mono : (fuel x c y : ℕ) → x ≤ fuel → common fuel (common fuel x c) y ≤ common fuel x y
common_mono zero x c y h = omega arith
common_mono (suc fuel) zero c y h = omega (arith, common-zero fuel y)
common_mono (suc fuel) (suc x) c y h =
    let z = common fuel (suc x / 2) (c / 2) in
    let digit = min (suc x % 2) (c % 2) in
    let half : (z * 2 + digit) / 2 ≡ z = omega arith in
    let ih = common_mono fuel (suc x / 2) (c / 2) (y / 2) (omega arith) in
    let step = common_step fuel (z * 2 + digit) y in omega (arith, rw half at step, ih)

-- What has fewer bits meets `y` in no more.
pub bit_and_mono : (x c y : ℕ) → bit_and (bit_and x c) y ≤ bit_and x y
bit_and_mono x c y =
    let z = bit_and-common x x c (omega arith) in
    let outer = bit_and-common x (bit_and x c) y (omega (arith, z, common-le_left x x c)) in
    let inner = bit_and-common x x y (omega arith) in
    omega (arith, outer, ap (λ t. common x t y) z, inner, common_mono x x c y (omega arith))

-- `bit_or` on the digits, with fuel
abbrev joined : ℕ → ℕ → ℕ → ℕ
joined fuel x y = digits (λ b. b) max fuel x y

joined_same : (f g x y : ℕ) → x ≤ f → x ≤ g → joined f x y ≡ joined g x y
joined_same zero zero x y a b = refl
joined_same zero (suc g) zero y a b = refl
joined_same zero (suc g) (suc x) y a b = absurd (omega arith)
joined_same (suc f) zero zero y a b = refl
joined_same (suc f) zero (suc x) y a b = absurd (omega arith)
joined_same (suc f) (suc g) zero y a b = refl
joined_same (suc f) (suc g) (suc x) y a b =
    omega (arith, joined_same f g (suc x / 2) (y / 2) (omega arith) (omega arith))

zero-bit_or : (y : ℕ) → bit_or 0 y ≡ y
zero-bit_or y = bit_or-bitwise 0 y

pub bit_or_step : (x y : ℕ) → bit_or x y ≡ bit_or (x / 2) (y / 2) * 2 + max (x % 2) (y % 2)
bit_or_step zero y = omega (arith, zero-bit_or y, zero-bit_or (y / 2))
bit_or_step (suc x) y = omega (
  arith,
  bit_or-bitwise (suc x) y,
  bit_or-bitwise (suc x / 2) (y / 2),
  joined_same x (suc x / 2) (suc x / 2) (y / 2) (omega arith) (omega arith),
)

bit_or-zero_below : (fuel x : ℕ) → x ≤ fuel → bit_or x 0 ≡ x
bit_or-zero_below fuel zero h = zero-bit_or 0
bit_or-zero_below zero (suc x) h = absurd (omega arith)
bit_or-zero_below (suc fuel) (suc x) h =
    omega (arith, bit_or_step (suc x) 0, bit_or-zero_below fuel (suc x / 2) (omega arith))

pub bit_or-zero : (x : ℕ) → bit_or x 0 ≡ x
bit_or-zero x = bit_or-zero_below x x (omega arith)

-- A field of `k` bits below a multiple of `2 ^ k`
pub bit_or-add : (k x y : ℕ) → y < 2 ^ k → bit_or (x * 2 ^ k) y ≡ x * 2 ^ k + y
bit_or-add zero x y h =
    let none_left : y ≡ 0 = omega arith in rw none_left (omega (arith, bit_or-zero (x * 1)))
bit_or-add (suc k) x y h =
    let double : x * 2 ^ suc k ≡ x * 2 ^ k * 2 = rw (pow-suc 2 k) (sym (mul_assoc x (2 ^ k) 2)) in
    let half : x * 2 ^ suc k / 2 ≡ x * 2 ^ k = omega (arith, double) in
    let ih = bit_or-add k x (y / 2) (omega (arith, pow-suc 2 k)) in
    let step = bit_or_step (x * 2 ^ suc k) y in omega (arith, double, rw half at step, ih)

-- Over a small range, a test is checked by evaluation.
abbrev pub all_below : ℕ → (ℕ → Bool) → Bool
all_below zero p = true
all_below (suc n) p = p n && all_below n p

pub all_below-lt : (n : ℕ) (p : ℕ → Bool) (x : ℕ) → all_below n p ≡ true → x < n → p x ≡ true
all_below-lt zero p x h lt = absurd (omega arith)
all_below-lt (suc n) p x h lt = ground (arith, all_below-lt n p x)
