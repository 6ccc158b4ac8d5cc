-- ===== src/Fips204/Ntt/Fold.antt =====
-- A polynomial modulo X^2n - z^2 taken modulo X^n - z, as one butterfly of nttForward does it, in
-- mldsa_fips204.h: the product goes along.
use native.Mathlib.Nat.{mul-add, mul_assoc, add-mul, mul-zero}
use mathlib.Core.Path.{ap₂}
use bht_bhte.Prelude.{
  ℕ, zero, suc, ◌+◌, ◌*◌, ◌≡◌, refl, sym, ap, ◌∙◌, List, [], ◌∷◌, ◌++◌, length, zip_with, replicate,
  arith, length-append, length-map, append_assoc, append-nil,
}
use bht_bhte.Fips204.Ntt.Product.{
  add, times, push, last, shift, product, shifts, length-product, shift-add, shift-times,
  product-append,
}

abbrev rev : List ℕ → List ℕ
rev [] = []
rev (y ∷ ys) = rev ys ++ (y ∷ [])

rev-snoc : (ys : List ℕ) (x : ℕ) → rev (ys ++ (x ∷ [])) ≡ x ∷ rev ys
rev-snoc [] x = refl
rev-snoc (y ∷ ys) x = ap (λ l. l ++ (y ∷ [])) (rev-snoc ys x)

rev-rev : (r : List ℕ) → rev (rev r) ≡ r
rev-rev [] = refl
rev-rev (x ∷ r) = rev-snoc (rev r) x ∙ ap (◌∷◌ x) (rev-rev r)

push-snoc : (c : ℕ) (r : List ℕ) (y : ℕ) → push c (r ++ (y ∷ [])) ≡ c ∷ r
push-snoc c [] y = refl
push-snoc c (x ∷ r) y = ap (◌∷◌ c) (push-snoc x r y)

last-snoc : (d : ℕ) (r : List ℕ) (y : ℕ) → last d (r ++ (y ∷ [])) ≡ y
last-snoc d [] y = refl
last-snoc d (x ∷ r) y = last-snoc x r y

shift-snoc : (z : ℕ) (r : List ℕ) (y : ℕ) → shift z (r ++ (y ∷ [])) ≡ (z * y) ∷ r
shift-snoc z r y =
    push-snoc (z * last 0 (r ++ (y ∷ []))) r y ∙ ap (λ l. (z * l) ∷ r) (last-snoc 0 r y)

pub times-append : (k : ℕ) (xs ys : List ℕ) → times k (xs ++ ys) ≡ times k xs ++ times k ys
times-append k [] ys = refl
times-append k (x ∷ xs) ys = ap (◌∷◌ (k * x)) (times-append k xs ys)

rotate : (z : ℕ) (a ys : List ℕ) → shifts z (length ys) (a ++ rev ys) ≡ times z (rev ys) ++ a
rotate z a [] = append-nil a
rotate z a (y ∷ ys) =
    ap (shifts z (length ys))
      (ap (shift z) (sym (append_assoc a (rev ys) (y ∷ []))) ∙ shift-snoc z (a ++ rev ys) y)
    ∙ rotate z ((z * y) ∷ a) ys
    ∙ sym (append_assoc (times z (rev ys)) ((z * y) ∷ []) a)
    ∙ ap (λ l. l ++ a) (sym (times-append z (rev ys) (y ∷ [])))

length-rev : (ys : List ℕ) → length (rev ys) ≡ length ys
length-rev [] = refl
length-rev (y ∷ ys) = omega (arith, length-append (rev ys) (y ∷ []), length-rev ys)

-- X^n is z.
shifts-length : (z : ℕ) (r : List ℕ) → shifts z (length r) r ≡ times z r
shifts-length z r =
    ap₂ (shifts z) (sym (length-rev r)) (sym (rev-rev r))
    ∙ rotate z [] (rev r)
    ∙ append-nil (times z (rev (rev r)))
    ∙ ap (times z) (rev-rev r)

-- The remainder modulo X^n - z of a polynomial with the lower half u and the upper half v.
abbrev pub fold : ℕ → List ℕ → List ℕ → List ℕ
fold z u v = zip_with (λ x y. x + z * y) u v

mix_one : (x y k c s t : ℕ) → (x * c + s) + k * (y * c + t) ≡ (x + k * y) * c + (s + k * t)
mix_one x y k c s t = omega (arith, mul-add k (y * c) t, add-mul x (k * y) c, mul_assoc k y c)

mix :
    (x y k : ℕ) (c B B' : List ℕ)
    → add (add (times x c) B) (times k (add (times y c) B'))
      ≡ add (times (x + k * y) c) (add B (times k B'))
mix x y k [] B B' = refl
mix x y k (c ∷ cs) [] B' = refl
mix x y k (c ∷ cs) (s ∷ B) [] = refl
mix x y k (c ∷ cs) (s ∷ B) (t ∷ B') = ap₂ ◌∷◌ (mix_one x y k c s t) (mix x y k cs B B')

zeros-add : (k n : ℕ) → add (replicate n 0) (times k (replicate n 0)) ≡ replicate n 0
zeros-add k zero = refl
zeros-add k (suc n) = ap₂ ◌∷◌ (omega (arith, mul-zero k)) (zeros-add k n)

pub length-times : (k : ℕ) (r : List ℕ) → length (times k r) ≡ length r
length-times k r = length-map r (λ x. k * x)

product-fold :
    (z k : ℕ) (u v c : List ℕ)
    → length u ≡ length v
    → add (product z u c) (times k (product z v c)) ≡ product z (fold k u v) c
product-fold z k [] [] c h = zeros-add k (length c)
product-fold z k [] (y ∷ v) c h = absurd (omega arith)
product-fold z k (x ∷ u) [] c h = absurd (omega arith)
product-fold z k (x ∷ u) (y ∷ v) c h =
    let P = product z u c in
    let Q = product z v c in
    mix x y k c (shift z P) (shift z Q)
    ∙ ap (add (times (x + k * y) c)) (
        ap (add (shift z P)) (sym (shift-times z k Q))
        ∙ sym (
            shift-add z P (times k Q)
              (length-product z u c ∙ sym (length-times k Q ∙ length-product z v c)))
        ∙ ap (shift z) (product-fold z k u v c (omega arith)))

-- A factor may be taken modulo X^n - z before.
pub reduce_factor :
    (z : ℕ) (u v c : List ℕ)
    → length u ≡ length v
    → length u ≡ length c
    → product z (u ++ v) c ≡ product z (fold z u v) c
reduce_factor z u v c h k =
    product-append z u v c
    ∙ ap (add (product z u c)) (
        ap (λ n. shifts z n (product z v c)) (k ∙ sym (length-product z v c))
        ∙ shifts-length z (product z v c))
    ∙ product-fold z z u v c h
