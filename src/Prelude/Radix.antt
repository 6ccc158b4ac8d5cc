-- ===== src/Prelude/Radix.antt =====
-- Numbers as lists of digits, the lowest first: bytes are the digits to the base 256.
use Prim.Native.Nat.{ℕ, zero, suc, ◌+◌, ◌*◌, ◌/◌, ◌%◌, ◌^◌, ◌<◌}
use mathlib.Core.Path.{◌≡◌, refl, sym, ap, ap₂, ◌∙◌}
use mathlib.Core.List.{List, [], ◌∷◌, ◌++◌}
use native.Mathlib.Omega.{arith}
use native.Mathlib.Nat.{
  pow-suc, pow-zero, mod-lt, mod-eq_of_lt, div-eq_of_lt, div-add-mod', add-mul-mod_self_left,
  add-mul-div_left, div-lt_iff_lt-mul, mul-le-mul, le_refl,
}
use bht_bhte.Prelude.Lists.{length, All}

abbrev pub IsByte : ℕ → Type 0
IsByte b = b < 256

-- The number that digits to the base `b` stand for.
abbrev pub value : ℕ → List ℕ → ℕ
value b [] = 0
value b (x ∷ xs) = x + b * value b xs

-- The lowest n digits of m to the base `b`.
abbrev pub digits : ℕ → ℕ → ℕ → List ℕ
digits b zero m = []
digits b (suc n) m = (m % b) ∷ digits b n (m / b)

abbrev pub IsBelow : ℕ → List ℕ → Type 0
IsBelow b = All λ x. x < b

pub length-digits : (b n m : ℕ) → length (digits b n m) ≡ n
length-digits b zero m = refl
length-digits b (suc n) m = ap suc (length-digits b n (m / b))

pub digits-IsBelow : (b n m : ℕ) → 0 < b → IsBelow b (digits b n m)
digits-IsBelow b zero m h = tt
digits-IsBelow b (suc n) m h = (mod-lt m h, digits-IsBelow b n (m / b) h)

pub low_digit : (b x y : ℕ) → x < b → (x + b * y) % b ≡ x
low_digit b x y h = add-mul-mod_self_left x b y ∙ mod-eq_of_lt h

pub high_digits : (b x y : ℕ) → x < b → (x + b * y) / b ≡ y
high_digits b x y h =
    add-mul-div_left x y (omega arith) ∙ ap (λ (t : ℕ). t + y) (div-eq_of_lt h) ∙ omega arith

pub digits-value : (b : ℕ) (xs : List ℕ) → IsBelow b xs → digits b (length xs) (value b xs) ≡ xs
digits-value b [] h = refl
digits-value b (x ∷ xs) (h, hs) =
    ap₂ ◌∷◌ (low_digit b x (value b xs) h)
      (ap (digits b (length xs)) (high_digits b x (value b xs) h) ∙ digits-value b xs hs)

-- The same where the number of digits is known otherwise.
pub digits-value_at :
    (b n : ℕ) (xs : List ℕ) → length xs ≡ n → IsBelow b xs → digits b n (value b xs) ≡ xs
digits-value_at b n xs e h = ap (λ k. digits b k (value b xs)) (sym e) ∙ digits-value b xs h

pub value-digits : (b n m : ℕ) → 0 < b → m < b ^ n → value b (digits b n m) ≡ m
value-digits b zero m hb h = omega (arith, pow-zero b)
value-digits b (suc n) m hb h = omega (
  arith,
  div-add-mod' m b,
  ap (λ (t : ℕ). b * t)
      (value-digits b n (m / b) hb ((div-lt_iff_lt-mul hb).1 (omega (arith, pow-suc b n)))),
)

pub value-append :
    (b : ℕ) (xs ys : List ℕ) → value b (xs ++ ys) ≡ value b xs + b ^ length xs * value b ys
value-append b [] ys = omega (arith, ap (λ (t : ℕ). t * value b ys) (pow-zero b))
value-append b (x ∷ xs) ys = omega (
  arith,
  ap (λ (t : ℕ). b * t) (value-append b xs ys),
  ap (λ (t : ℕ). t * value b ys) (pow-suc b (length xs)),
)

pub value-lt : (b : ℕ) (xs : List ℕ) → IsBelow b xs → value b xs < b ^ length xs
value-lt b [] h = omega (arith, pow-zero b)
value-lt b (x ∷ xs) (h, hs) =
    omega (arith, pow-suc b (length xs), mul-le-mul (le_refl b) (value-lt b xs hs))
