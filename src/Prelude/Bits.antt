-- ===== src/Prelude/Bits.antt =====
-- Facts about `bit_or` and `bit_and` at variables, from the digit recursion that they stand for.
use Prim.Native.Nat.{
  ℕ, zero, suc, ◌+◌, ◌-◌, ◌*◌, ◌/◌, ◌%◌, ◌^◌, ◌≤◌, ◌<◌, min, max, bit_and, bit_or, digits,
  bit_and-bitwise, bit_or-bitwise,
}
use mathlib.Core.Path.{◌≡◌, refl, sym, ap, ◌∙◌}
use native.Mathlib.Omega.{arith}
use native.Mathlib.Nat.{pow-suc, pow-zero, mul_assoc, add-zero, mod-lt, mod-eq_of_lt}
use native.Mathlib.Nat.{div-add-mod', mul-zero, mul-suc, add-mul-mod_self_right}

pub pow-add : (m a b : ℕ) → m ^ (a + b) ≡ m ^ a * m ^ b
pow-add m a zero = rw (add-zero, pow-zero) (omega arith)
pow-add m a (suc b) =
    ap (λ (t : ℕ). m ^ t) (omega arith)
    ∙ pow-suc m (a + b)
    ∙ rw (pow-add m a b, pow-suc m b) (mul_assoc (m ^ a) (m ^ b) m)

pub two-pow-pos : (k : ℕ) → 0 < 2 ^ k
two-pow-pos zero = omega (arith, pow-zero 2)
two-pow-pos (suc k) = omega (arith, pow-suc 2 k, two-pow-pos k)

-- The recursion of `bit_or`, with any count of digits that is enough for `a`.
joined-digits :
    (n k a b : ℕ) → a ≤ n → a < 2 ^ k → digits (λ y. y) max n a (b * 2 ^ k) ≡ a + b * 2 ^ k
joined-digits zero k zero b h lt = omega arith
joined-digits zero k (suc a) b h lt = absurd (omega arith)
joined-digits (suc n) k zero b h lt = omega arith
joined-digits (suc n) zero (suc a) b h lt = absurd (omega (arith, pow-zero 2))
joined-digits (suc n) (suc k) (suc a) b h lt =
    let whole = pow-suc 2 k in
    let even : b * 2 ^ suc k ≡ 2 * (b * 2 ^ k) = rw whole (omega arith) in
    let half : 2 * (b * 2 ^ k) / 2 ≡ b * 2 ^ k = omega arith in
    rw (even, half, joined-digits n k (suc a / 2) b (omega arith) (omega (arith, whole)))
      (omega arith)

-- A number below 2 ^ k and a multiple of it have no digit in common.
pub bit_or-shift : (k a b : ℕ) → a < 2 ^ k → bit_or a (b * 2 ^ k) ≡ a + b * 2 ^ k
bit_or-shift k a b h = bit_or-bitwise a (b * 2 ^ k) ∙ joined-digits a k a b (omega arith) h

-- The same recursion on the multiple.
swapped-digits :
    (n k a b c : ℕ) → c ≡ b * 2 ^ k → c ≤ n → a < 2 ^ k → digits (λ y. y) max n c a ≡ c + a
swapped-digits zero k a b zero e h lt = omega arith
swapped-digits zero k a b (suc c) e h lt = absurd (omega arith)
swapped-digits (suc n) k a b zero e h lt = omega arith
swapped-digits (suc n) zero zero b (suc c) e h lt =
    let m = suc c / 2 in
    omega (
      arith,
      swapped-digits n zero 0 m m (omega (arith, ap (λ (t : ℕ). m * t) (pow-zero 2))) (omega arith)
          lt,
    )
swapped-digits (suc n) zero (suc a) b (suc c) e h lt = absurd (omega (arith, pow-zero 2))
swapped-digits (suc n) (suc k) a b (suc c) e h lt =
    let whole = pow-suc 2 k in
    let even : suc c ≡ 2 * (b * 2 ^ k) = omega (arith, e, ap (λ (t : ℕ). b * t) whole) in
    omega (
      arith,
      even,
      swapped-digits n k (a / 2) b (suc c / 2) (omega (arith, even)) (omega arith)
          (omega (arith, whole)),
    )

pub bit_or-low : (k a b : ℕ) → a < 2 ^ k → bit_or (b * 2 ^ k) a ≡ b * 2 ^ k + a
bit_or-low k a b h =
    bit_or-bitwise (b * 2 ^ k) a ∙ swapped-digits (b * 2 ^ k) k a b (b * 2 ^ k) refl (omega arith) h

pub pow-mul : (m a b : ℕ) → m ^ (a * b) ≡ (m ^ a) ^ b
pow-mul m a zero = ap (λ (t : ℕ). m ^ t) (mul-zero a) ∙ pow-zero m ∙ sym (pow-zero (m ^ a))
pow-mul m a (suc b) = rw (mul-suc, pow-add, pow-suc, pow-mul m a b)

pub mod_double : (a p : ℕ) → 0 < p → a % (p * 2) ≡ a / 2 % p * 2 + a % 2
mod_double a p h =
    let low = a / 2 % p * 2 + a % 2 in
    let q = a / 2 / p in
    let split : low + q * (p * 2) ≡ a =
      omega (arith, ap (λ (t : ℕ). t * 2) (div-add-mod' (a / 2) p)) in
    ap (λ (t : ℕ). t % (p * 2)) (sym split)
    ∙ add-mul-mod_self_right low q (p * 2)
    ∙ mod-eq_of_lt (omega (arith, mod-lt (a / 2) h))

-- The recursion of `bit_and` against a mask.
masked-digits : (n k a : ℕ) → a ≤ n → digits (λ y. 0) min n a (2 ^ k - 1) ≡ a % 2 ^ k
masked-digits zero k zero h = omega (arith, mod-eq_of_lt (two-pow-pos k))
masked-digits zero k (suc a) h = absurd (omega arith)
masked-digits (suc n) k zero h = omega (arith, mod-eq_of_lt (two-pow-pos k))
masked-digits (suc n) zero (suc a) h =
    rw (pow-zero 2) (omega (arith, masked-digits n zero (suc a / 2) (omega arith), pow-zero 2))
masked-digits (suc n) (suc k) (suc a) h =
    let some_digits = two-pow-pos k in
    let half : (2 ^ k * 2 - 1) / 2 ≡ 2 ^ k - 1 = omega arith in
    rw
      (
        pow-suc 2 k,
        half,
        masked-digits n k (suc a / 2) (omega arith),
        mod_double (suc a) (2 ^ k) some_digits,
      )
      (omega arith)

-- The low k bits.
pub bit_and-mask : (k a : ℕ) → bit_and a (2 ^ k - 1) ≡ a % 2 ^ k
bit_and-mask k a = bit_and-bitwise a (2 ^ k - 1) ∙ masked-digits a k a (omega arith)
