-- ===== src/Prelude/Digits.antt =====
-- The binary digits of a number, and what the bitwise operations do to each.
use Prim.Native.Nat.{
  ℕ, zero, suc, ◌+◌, ◌-◌, ◌*◌, ◌/◌, ◌%◌, ◌^◌, ◌≤◌, ◌<◌, min, max, bit_and, bit_or, bit_xor, differ,
  digits, bitwise, bit_and-bitwise, bit_or-bitwise, bit_xor-bitwise,
}
use mathlib.Core.Path.{◌≡◌, refl, ap, sym, ◌∙◌}
use mathlib.Core.Logic.{◌≢◌}
use native.Mathlib.Nat.{pow-le-pow_right, pow-suc, mul_assoc, div-div-eq-div-mul, mod-add-div}
use native.Mathlib.Omega.{arith, pow_step}

-- the digit of weight 2 ^ k
unfoldable pub digit : ℕ → ℕ → ℕ
digit a zero = a % 2
digit a (suc k) = digit (a / 2) k

-- What is left when the first number has run out, and the operation on two digits.
module _ (rest : ℕ → ℕ) (op : ℕ → ℕ → ℕ) where
  -- Any count of digits to go serves that is not below the first number.
  any_count :
      (x y : ℕ) (less more : ℕ)
      → x ≤ less
      → x ≤ more
      → digits rest op less x y ≡ digits rest op more x y
  any_count zero y zero zero h k = refl
  any_count zero y zero (suc more) h k = refl
  any_count zero y (suc less) zero h k = refl
  any_count zero y (suc less) (suc more) h k = refl
  any_count (suc x) y zero more h k = absurd (omega arith)
  any_count (suc x) y (suc less) zero h k = absurd (omega arith)
  any_count (suc x) y (suc less) (suc more) h k =
      let halves : suc x / 2 ≤ less = omega arith in
      let halves' : suc x / 2 ≤ more = omega arith in
      ap (λ upper. upper * 2 + op (suc x % 2) (y % 2))
        (any_count (suc x / 2) (y / 2) less more halves halves')

  lowest_digit :
      ((y : ℕ) → rest y ≡ rest (y / 2) * 2 + op 0 (y % 2))
      → (x y : ℕ) → bitwise rest op x y ≡ bitwise rest op (x / 2) (y / 2) * 2 + op (x % 2) (y % 2)
  lowest_digit h zero y = h y
  lowest_digit h (suc x) y =
      let half : suc x / 2 ≤ x = omega arith in
      ap (λ upper. upper * 2 + op (suc x % 2) (y % 2))
        (any_count (suc x / 2) (y / 2) x (suc x / 2) half (omega arith))

bit_and-lowest : (a b : ℕ) → bit_and a b ≡ bit_and (a / 2) (b / 2) * 2 + min (a % 2) (b % 2)
bit_and-lowest a b = omega (
  arith,
  bit_and-bitwise a b,
  bit_and-bitwise (a / 2) (b / 2),
  lowest_digit (λ b. zero) min (λ b. omega arith) a b,
)

bit_or-lowest : (a b : ℕ) → bit_or a b ≡ bit_or (a / 2) (b / 2) * 2 + max (a % 2) (b % 2)
bit_or-lowest a b = omega (
  arith,
  bit_or-bitwise a b,
  bit_or-bitwise (a / 2) (b / 2),
  lowest_digit (λ b. b) max (λ b. omega arith) a b,
)

differ_le : (x y : ℕ) → x < 2 → y < 2 → differ x y < 2
differ_le zero y p q = q
differ_le (suc zero) zero p q = p
differ_le (suc zero) (suc y) p q = omega arith
differ_le (suc (suc x)) y p q = absurd (omega arith)

bit_xor-lowest : (a b : ℕ) → bit_xor a b ≡ bit_xor (a / 2) (b / 2) * 2 + differ (a % 2) (b % 2)
bit_xor-lowest a b = omega (
  arith,
  bit_xor-bitwise a b,
  bit_xor-bitwise (a / 2) (b / 2),
  lowest_digit (λ b. b) differ (λ b. omega arith) a b,
)

pub digit-bit_and : (a b k : ℕ) → digit (bit_and a b) k ≡ min (digit a k) (digit b k)
unfolding digit
digit-bit_and a b zero = omega (arith, bit_and-lowest a b)
digit-bit_and a b (suc k) =
    let half : bit_and a b / 2 ≡ bit_and (a / 2) (b / 2) = omega (arith, bit_and-lowest a b) in
    rw half (digit-bit_and (a / 2) (b / 2) k)

pub digit-bit_or : (a b k : ℕ) → digit (bit_or a b) k ≡ max (digit a k) (digit b k)
unfolding digit
digit-bit_or a b zero = omega (arith, bit_or-lowest a b)
digit-bit_or a b (suc k) =
    let half : bit_or a b / 2 ≡ bit_or (a / 2) (b / 2) = omega (arith, bit_or-lowest a b) in
    rw half (digit-bit_or (a / 2) (b / 2) k)

pub digit-bit_xor : (a b k : ℕ) → digit (bit_xor a b) k ≡ differ (digit a k) (digit b k)
unfolding digit
digit-bit_xor a b zero =
    omega (arith, bit_xor-lowest a b, differ_le (a % 2) (b % 2) (omega arith) (omega arith))
digit-bit_xor a b (suc k) =
    let half : bit_xor a b / 2 ≡ bit_xor (a / 2) (b / 2) =
      omega (arith, bit_xor-lowest a b, differ_le (a % 2) (b % 2) (omega arith) (omega arith)) in
    rw half (digit-bit_xor (a / 2) (b / 2) k)

pub digit_lt : (a k : ℕ) → digit a k < 2
unfolding digit
digit_lt a zero = omega arith
digit_lt a (suc k) = digit_lt (a / 2) k

pub digit-zero : (k : ℕ) → digit 0 k ≡ 0
unfolding digit
digit-zero zero = refl
digit-zero (suc k) = digit-zero k

-- A power of two has one digit.
pub digit-pow_self : (k : ℕ) → digit (2 ^ k) k ≡ 1
unfolding digit
digit-pow_self zero = refl
digit-pow_self (suc k) =
    let half : 2 ^ suc k / 2 ≡ 2 ^ k = omega arith in rw half (digit-pow_self k)

pub digit-pow_other : (j k : ℕ) → j ≢ k → digit (2 ^ j) k ≡ 0
unfolding digit
digit-pow_other zero zero h = absurd (h refl)
digit-pow_other zero (suc k) h = digit-zero k
digit-pow_other (suc j) zero h = omega arith
digit-pow_other (suc j) (suc k) h =
    let half : 2 ^ suc j / 2 ≡ 2 ^ j = omega arith in
    rw half (digit-pow_other j k (λ e. h (ap suc e)))

-- The complement within n digits.
pub digit_complement : (n a k : ℕ) → a < 2 ^ n → k < n → digit (2 ^ n - 1 - a) k ≡ 1 - digit a k
unfolding digit
digit_complement zero a k ha hk = absurd (omega arith)
digit_complement (suc n) a zero ha hk = omega (arith, pow_step 2 n)
digit_complement (suc n) a (suc k) ha hk =
    let half : (2 ^ suc n - 1 - a) / 2 ≡ 2 ^ n - 1 - a / 2 = omega (arith, pow_step 2 n) in
    rw half (digit_complement n (a / 2) k (omega (arith, pow_step 2 n)) (omega arith))

-- No digit stands above the number.
pub digit_above : (n a k : ℕ) → a < 2 ^ n → n ≤ k → digit a k ≡ 0
unfolding digit
digit_above zero a k ha hk = let none_left : a ≡ 0 = omega arith in rw none_left (digit-zero k)
digit_above (suc n) a zero ha hk = absurd (omega arith)
digit_above (suc n) a (suc k) ha hk =
    digit_above n (a / 2) k (omega (arith, pow_step 2 n)) (omega arith)

none_in_common : (count x : ℕ) → x ≤ count → bit_and x 0 ≡ 0
none_in_common zero zero h = refl
none_in_common zero (suc x) h = absurd (omega arith)
none_in_common (suc count) x h =
    let upper : bit_and (x / 2) 0 ≡ 0 = none_in_common count (x / 2) (omega arith) in
    omega (arith, bit_and-lowest x 0, upper)

mul_twice : (d p q : ℕ) → d < 2 → q ≡ p * 2 → d * q ≡ d * p * 2
mul_twice zero p q h e = omega arith
mul_twice (suc zero) p q h e = omega arith
mul_twice (suc (suc d)) p q h e = absurd (omega arith)

-- A test with a mask of one digit reads that digit.
pub and_pow : (a k : ℕ) → bit_and a (2 ^ k) ≡ digit a k * 2 ^ k
unfolding digit
and_pow a zero = omega (arith, bit_and-lowest a 1, none_in_common (a / 2) (a / 2) (omega arith))
and_pow a (suc k) =
    let half : 2 ^ suc k / 2 ≡ 2 ^ k = omega (arith, pow_step 2 k) in
    let even : 2 ^ suc k % 2 ≡ 0 = omega (arith, pow_step 2 k) in
    let step : bit_and a (2 ^ suc k) ≡ bit_and (a / 2) (2 ^ k) * 2 =
      omega (arith, bit_and-lowest a (2 ^ suc k), ap (λ x. bit_and (a / 2) x) half, even) in
    let twice : digit (a / 2) k * 2 ^ suc k ≡ digit (a / 2) k * 2 ^ k * 2 =
      mul_twice (digit (a / 2) k) (2 ^ k) (2 ^ suc k) (digit_lt (a / 2) k)
        (omega (arith, pow_step 2 k)) in
    omega (arith, step, and_pow (a / 2) k, twice)

pub bit_and_zero_left : (b : ℕ) → bit_and 0 b ≡ 0
bit_and_zero_left b = bit_and-bitwise 0 b

pub pow_lt_word : (i : ℕ) → i < 64 → 2 ^ i < 2 ^ 64
pow_lt_word i h =
    let below : 2 ^ i ≤ 2 ^ 63 = pow-le-pow_right (omega arith) {j = 63} (omega arith) in
    let top : 2 ^ 63 < 2 ^ 64 = omega arith in omega (arith, below, top)

pub pow_positive : (k : ℕ) → 0 < 2 ^ k
pow_positive zero = omega arith
pow_positive (suc k) = omega (arith, pow_step 2 k, pow_positive k)

times_step : (x s : ℕ) → x * 2 ^ suc s ≡ x * 2 ^ s * 2
times_step x s = ap (λ p. x * p) (pow-suc 2 s) ∙ sym (mul_assoc x (2 ^ s) 2)

-- A shift to the left moves every digit up.
pub digit-shift_below : (x s k : ℕ) → k < s → digit (x * 2 ^ s) k ≡ 0
unfolding digit
digit-shift_below x zero k h = absurd (omega arith)
digit-shift_below x (suc s) zero h =
    let twice : x * 2 ^ suc s ≡ x * 2 ^ s * 2 = times_step x s in omega (arith, twice)
digit-shift_below x (suc s) (suc k) h =
    let twice : x * 2 ^ suc s ≡ x * 2 ^ s * 2 = times_step x s in
    let half : x * 2 ^ suc s / 2 ≡ x * 2 ^ s = omega (arith, twice) in
    rw half (digit-shift_below x s k (omega arith))

pub digit-shift_above : (x s k : ℕ) → digit (x * 2 ^ s) (s + k) ≡ digit x k
unfolding digit
digit-shift_above x zero k =
    let same_digit : zero + k ≡ k = omega arith in
    let same_number : x * 2 ^ zero ≡ x = omega arith in rw (same_digit, same_number) refl
digit-shift_above x (suc s) k =
    let twice : x * 2 ^ suc s ≡ x * 2 ^ s * 2 = times_step x s in
    let half : x * 2 ^ suc s / 2 ≡ x * 2 ^ s = omega (arith, twice) in
    let next : suc s + k ≡ suc (s + k) = omega arith in
    ap (digit (x * 2 ^ suc s)) next ∙ ap (λ n. digit n (s + k)) half ∙ digit-shift_above x s k

half_shift : (w s : ℕ) → w / 2 ^ suc s ≡ w / 2 / 2 ^ s
half_shift w s =
    let twice : 2 ^ suc s ≡ 2 * 2 ^ s = omega (arith, pow_step 2 s) in
    ap (λ p. w / p) twice ∙ sym (div-div-eq-div-mul w 2 (2 ^ s))

-- A number shifted to the right, and its low digits.
pub digit-drop : (w s k : ℕ) → digit (w / 2 ^ s) k ≡ digit w (s + k)
unfolding digit
digit-drop w zero k =
    let whole : w / 2 ^ 0 ≡ w = omega arith in
    let same_digit : zero + k ≡ k = omega arith in rw (whole, same_digit) refl
digit-drop w (suc s) k =
    let next : suc s + k ≡ suc (s + k) = omega arith in
    rw (next, half_shift w s) (digit-drop (w / 2) s k)

-- The low digits of a number, and how often their weight goes into it.
low_part : (w n : ℕ) → w ≡ w % 2 ^ suc n + 2 ^ n * (w / 2 / 2 ^ n) * 2
low_part w n =
    let twice : 2 ^ suc n ≡ 2 * 2 ^ n = omega (arith, pow_step 2 n) in
    let upper : 2 ^ suc n * (w / 2 ^ suc n) ≡ 2 * (2 ^ n * (w / 2 / 2 ^ n)) =
      ap (λ q. 2 ^ suc n * q) (half_shift w n)
      ∙ ap (λ p. p * (w / 2 / 2 ^ n)) twice
      ∙ mul_assoc 2 (2 ^ n) (w / 2 / 2 ^ n) in
    omega (arith, mod-add-div w (2 ^ suc n), upper)

pub digit-low : (n w k : ℕ) → k < n → digit (w % 2 ^ n) k ≡ digit w k
unfolding digit
digit-low zero w k h = absurd (omega arith)
digit-low (suc n) w zero h = omega (arith, low_part w n)
digit-low (suc n) w (suc k) h =
    let half : w % 2 ^ suc n / 2 ≡ w / 2 % 2 ^ n =
      omega (arith, low_part w n, mod-add-div (w / 2) (2 ^ n)) in
    rw half (digit-low n (w / 2) k (omega arith))
