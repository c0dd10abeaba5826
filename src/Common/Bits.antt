-- ===== src/Common/Bits.antt =====
-- Bytes put together by `|` and `<<`, and checks of every byte by evaluation.
use Prim.Native.Nat.{
  ℕ, zero, suc, ◌+◌, ◌*◌, ◌/◌, ◌%◌, ◌^◌, ◌≤◌, ◌<◌, ◌-◌, min, max, bit_and, bit_and-bitwise, bit_or,
  bit_xor, digits, bit_or-bitwise,
}
use native.Mathlib.Nat.{pow-suc, le_refl, one-le-pow}
use mathlib.Core.Path.{◌≡◌, refl, ap, ◌∙◌}
use mathlib.Core.Bool.{Bool, true, ◌&&◌}
use native.Mathlib.Omega.{arith}
use device_manager.Common.Tests.{◌==◌, ==_iff}

-- `|` on the digits of the first number, with the number of digits still to go.
abbrev or_digits : ℕ → ℕ → ℕ → ℕ
or_digits = digits (λ b. b) max

double-shift : (q k : ℕ) → q * 2 ^ suc k ≡ q * 2 ^ k + q * 2 ^ k
double-shift q k = omega (arith, ap (λ (t : ℕ). q * t) (pow-suc 2 k))

or_digits-shift : (k n a q : ℕ) → a ≤ n → a < 2 ^ k → or_digits n a (q * 2 ^ k) ≡ a + q * 2 ^ k
or_digits-shift k zero zero q le lt = omega arith
or_digits-shift k zero (suc a) q le lt = absurd (omega arith)
or_digits-shift k (suc n) zero q le lt = omega arith
or_digits-shift zero (suc n) (suc a) q le lt = absurd (omega arith)
or_digits-shift (suc k) (suc n) (suc a) q le lt =
    let d = double-shift q k in
    let half : q * 2 ^ suc k / 2 ≡ q * 2 ^ k = omega arith in
    let even : q * 2 ^ suc k % 2 ≡ 0 = omega arith in
    let ih = or_digits-shift k n (suc a / 2) q (omega arith) (omega (arith, pow-suc 2 k)) in
    rw (half, even, ih) (omega arith)

-- `lo | (hi << k)` where `lo` fits `k` bits.
pub bit_or_low : (k lo hi : ℕ) → lo < 2 ^ k → bit_or lo (hi * 2 ^ k) ≡ lo + hi * 2 ^ k
bit_or_low k lo hi h = bit_or-bitwise lo (hi * 2 ^ k) ∙ or_digits-shift k lo lo hi (le_refl lo) h

or_digits-zero : (n a : ℕ) → a ≤ n → or_digits n a 0 ≡ a
or_digits-zero zero a le = omega arith
or_digits-zero (suc n) zero le = refl
or_digits-zero (suc n) (suc a) le = rw (or_digits-zero n (suc a / 2) (omega arith)) (omega arith)

or_digits-high : (k n a q m : ℕ) → m ≡ q * 2 ^ k → m ≤ n → a < 2 ^ k → or_digits n m a ≡ a + m
or_digits-high k zero a q zero e le lt = omega arith
or_digits-high k zero a q (suc m) e le lt = absurd (omega arith)
or_digits-high k (suc n) a q zero e le lt = omega arith
or_digits-high zero (suc n) zero q (suc m) e le lt = or_digits-zero (suc n) (suc m) le ∙ omega arith
or_digits-high zero (suc n) (suc a) q (suc m) e le lt = absurd (omega arith)
or_digits-high (suc k) (suc n) a q (suc m) e le lt =
    let d = double-shift q k in
    let ih =
      or_digits-high k n (a / 2) q (suc m / 2) (omega (arith, d)) (omega arith)
        (omega (arith, pow-suc 2 k)) in
    let even : suc m % 2 ≡ 0 = omega (arith, d) in rw (ih, even) (omega (arith, d))

-- `(hi << k) | lo` where `lo` fits `k` bits.
pub bit_or_high : (k hi lo : ℕ) → lo < 2 ^ k → bit_or (hi * 2 ^ k) lo ≡ lo + hi * 2 ^ k
bit_or_high k hi lo h =
    bit_or-bitwise (hi * 2 ^ k) lo
    ∙ or_digits-high k (hi * 2 ^ k) lo hi (hi * 2 ^ k) refl (le_refl (hi * 2 ^ k)) h

-- `&` likewise.
abbrev and_digits : ℕ → ℕ → ℕ → ℕ
and_digits = digits (λ b. zero) min

and_digits-zero : (n a : ℕ) → and_digits n a 0 ≡ 0
and_digits-zero zero a = refl
and_digits-zero (suc n) zero = refl
and_digits-zero (suc n) (suc a) = rw (and_digits-zero n (suc a / 2)) (omega arith)

and_digits-mask :
    (k n a q r : ℕ) → a ≤ n → a ≡ q * 2 ^ k + r → r < 2 ^ k → and_digits n a (2 ^ k - 1) ≡ r
and_digits-mask zero n a q r le e lt = and_digits-zero n a ∙ omega arith
and_digits-mask (suc k) zero zero q r le e lt = omega arith
and_digits-mask (suc k) zero (suc a) q r le e lt = absurd (omega arith)
and_digits-mask (suc k) (suc n) zero q r le e lt = omega arith
and_digits-mask (suc k) (suc n) (suc a) q r le e lt =
    let d = double-shift q k in
    let p = pow-suc 2 k in
    let pos = one-le-pow k 2 in
    let half : (2 ^ suc k - 1) / 2 ≡ 2 ^ k - 1 = omega (arith, p, pos) in
    let odd : (2 ^ suc k - 1) % 2 ≡ 1 = omega (arith, p, pos) in
    let ih =
      and_digits-mask k n (suc a / 2) q (r / 2) (omega arith) (omega (arith, d))
        (omega (arith, p)) in
    rw (half, odd, ih) (omega (arith, d))

-- `x & 0xFF`.
pub bit_and-byte : (x : ℕ) → bit_and x 0xFF ≡ x % 256
bit_and-byte x =
    bit_and-bitwise x 0xFF
    ∙ and_digits-mask 8 x x (x / 256) (x % 256) (le_refl x) (omega arith) (omega arith)

pub all_below : ℕ → (ℕ → Bool) → Bool
all_below zero p = true
all_below (suc n) p = p n && all_below n p

pub all_below-true : (n : ℕ) (p : ℕ → Bool) (x : ℕ) → all_below n p ≡ true → x < n → p x ≡ true
unfolding all_below
all_below-true zero p x h lt = absurd (omega arith)
all_below-true (suc n) p x h lt = ground (arith, all_below-true n p x)

-- Two flips of one bit of a byte.
flips : all_below 256 (λ x. bit_xor (bit_xor x 0x20) 0x20 == x) ≡ true
unfolding all_below
flips = refl

pub bit_xor_twice : (x : ℕ) → x < 256 → bit_xor (bit_xor x 0x20) 0x20 ≡ x
bit_xor_twice x h = (==_iff _ x).0 (all_below-true 256 _ x flips h)

flip_fits : all_below 256 (λ x. bit_xor x 0x20 / 256 == 0) ≡ true
unfolding all_below
flip_fits = refl

pub bit_xor-lt : (x : ℕ) → x < 256 → bit_xor x 0x20 < 256
bit_xor-lt x h =
    omega (arith, (==_iff (bit_xor x 0x20 / 256) 0).0 (all_below-true 256 _ x flip_fits h))
