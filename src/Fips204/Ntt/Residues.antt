-- ===== src/Fips204/Ntt/Residues.antt =====
-- Products and remainders of polynomials modulo Q, in mldsa_fips204.h.
use native.Mathlib.Nat.{mod-mod, mul_comm, add-mul}
use mathlib.Core.Path.{ap₂}
use bht_bhte.Prelude.{
  ℕ, zero, suc, ◌+◌, ◌-◌, ◌*◌, ◌%◌, ◌≤◌, ◌≡◌, refl, sym, ap, ◌∙◌, List, [], ◌∷◌, ◌++◌, map, length,
  zip_with, take, drop, replicate, arith, length-map,
}
use bht_bhte.Fips204.Field.{q}
use bht_bhte.Fips204.Ntt.Butterfly.{upper, lower, mul-mod_right_q}
use bht_bhte.Fips204.Ntt.Product.{add, times, push, last, shift, product}
use bht_bhte.Fips204.Ntt.Fold.{fold}
use bht_bhte.Fips204.Ntt.Halves.{fold_halves, fold-product}

abbrev pub residues : List ℕ → List ℕ
residues xs = map (λ x. x % q) xs

pub mul-mod_q : (a b : ℕ) → a * b % q ≡ (a % q) * (b % q) % q
mul-mod_q a b =
    ap (λ s. s % q) (mul_comm a b)
    ∙ sym (mul-mod_right_q b a)
    ∙ ap (λ s. s % q) (mul_comm b (a % q))
    ∙ sym (mul-mod_right_q (a % q) b)

pub residues_idem : (xs : List ℕ) → residues (residues xs) ≡ residues xs
residues_idem [] = refl
residues_idem (x ∷ xs) = ap₂ ◌∷◌ (mod-mod x q) (residues_idem xs)

residues-add : (xs ys : List ℕ) → residues (add xs ys) ≡ residues (add (residues xs) (residues ys))
residues-add [] ys = refl
residues-add (x ∷ xs) [] = refl
residues-add (x ∷ xs) (y ∷ ys) = ap₂ ◌∷◌ (omega arith) (residues-add xs ys)

residues-times :
    (c : ℕ) (xs : List ℕ) → residues (times c xs) ≡ residues (times (c % q) (residues xs))
residues-times c [] = refl
residues-times c (x ∷ xs) = ap₂ ◌∷◌ (mul-mod_q c x) (residues-times c xs)

residues-push : (c : ℕ) (xs : List ℕ) → residues (push c xs) ≡ push (c % q) (residues xs)
residues-push c [] = refl
residues-push c (x ∷ xs) = ap (◌∷◌ (c % q)) (residues-push x xs)

residues-last : (d : ℕ) (xs : List ℕ) → last (d % q) (residues xs) ≡ last d xs % q
residues-last d [] = refl
residues-last d (x ∷ xs) = residues-last x xs

residues-shift :
    (z : ℕ) (xs : List ℕ) → residues (shift z xs) ≡ residues (shift (z % q) (residues xs))
residues-shift z xs =
    let l = last 0 xs in
    residues-push (z * l) xs
    ∙ ap₂ push (mul-mod_q z l ∙ ap (λ m. (z % q) * m % q) (sym (residues-last 0 xs)))
        (sym (residues_idem xs))
    ∙ sym (residues-push ((z % q) * last 0 (residues xs)) (residues xs))

-- Only the residues of the factors matter.
pub residues-product :
    (z : ℕ) (a b : List ℕ)
    → residues (product z a b) ≡ residues (product (z % q) (residues a) (residues b))
residues-product z [] b = ap (λ n. residues (replicate n 0)) (sym (length-map b (λ x. x % q)))
residues-product z (x ∷ a) b =
    let P = product z a b in
    let P' = product (z % q) (residues a) (residues b) in
    residues-add (times x b) (shift z P)
    ∙ ap residues (
        ap₂ add (residues-times x b) (
          residues-shift z P
          ∙ ap (λ r. residues (shift (z % q) r)) (residues-product z a b)
          ∙ ap (λ w. residues (shift w (residues P'))) (sym (mod-mod z q))
          ∙ sym (residues-shift (z % q) P')))
    ∙ sym (residues-add (times (x % q) (residues b)) (shift (z % q) P'))

pub same_product :
    (z z' : ℕ) (a a' b b' : List ℕ)
    → z % q ≡ z' % q
    → residues a ≡ residues a'
    → residues b ≡ residues b'
    → residues (product z a b) ≡ residues (product z' a' b')
same_product z z' a a' b b' h k l =
    residues-product z a b
    ∙ ap (λ w. residues (product w (residues a) (residues b))) h
    ∙ ap₂ (λ s t. residues (product (z' % q) s t)) k l
    ∙ sym (residues-product z' a' b')

residues-fold :
    (z : ℕ) (u v : List ℕ) → residues (fold z u v) ≡ residues (fold z (residues u) (residues v))
residues-fold z [] v = refl
residues-fold z (x ∷ u) [] = refl
residues-fold z (x ∷ u) (y ∷ v) = ap₂ ◌∷◌ (omega (arith, mul-mod_right_q z y)) (residues-fold z u v)

residues-take : (n : ℕ) (xs : List ℕ) → take n (residues xs) ≡ residues (take n xs)
residues-take zero xs = refl
residues-take (suc n) [] = refl
residues-take (suc n) (x ∷ xs) = ap (◌∷◌ (x % q)) (residues-take n xs)

residues-drop : (n : ℕ) (xs : List ℕ) → drop n (residues xs) ≡ residues (drop n xs)
residues-drop zero xs = refl
residues-drop (suc n) [] = refl
residues-drop (suc n) (x ∷ xs) = residues-drop n xs

residues-fold_halves :
    (z n : ℕ) (r : List ℕ) → residues (fold_halves z n (residues r)) ≡ residues (fold_halves z n r)
residues-fold_halves z n r =
    ap₂ (λ u v. residues (fold z u v)) (residues-take n r) (residues-drop n r)
    ∙ sym (residues-fold z (take n r) (drop n r))

pub upper-fold : (z : ℕ) (u v : List ℕ) → zip_with (upper z) u v ≡ residues (fold z u v)
upper-fold z [] v = refl
upper-fold z (x ∷ u) [] = refl
upper-fold z (x ∷ u) (y ∷ v) = ap₂ ◌∷◌ (omega arith) (upper-fold z u v)

pub lower-fold :
    (z : ℕ) (u v : List ℕ) → z ≤ q → zip_with (lower z) u v ≡ residues (fold (q - z) u v)
lower-fold z [] v h = refl
lower-fold z (x ∷ u) [] h = refl
lower-fold z (x ∷ u) (y ∷ v) h =
    let e : (q - z) * y + z * y ≡ q * y =
      sym (add-mul (q - z) z y) ∙ ap (λ s. s * y) (omega arith) in
    ap₂ ◌∷◌ (omega (arith, e)) (lower-fold z u v h)

-- One block of a layer keeps products, if its root has the square w.
pub block-product :
    (z w n : ℕ) (u v u' v' : List ℕ)
    → z * z % q ≡ w % q
    → length u ≡ n
    → length v ≡ n
    → length u' ≡ n
    → length v' ≡ n
    → residues (fold_halves z n (residues (product w (u ++ v) (u' ++ v'))))
      ≡ residues (product z (residues (fold z u v)) (residues (fold z u' v')))
block-product z w n u v u' v' e h k h' k' =
    ap (λ r. residues (fold_halves z n r))
      (same_product w (z * z) (u ++ v) (u ++ v) (u' ++ v') (u' ++ v') (sym e) refl refl)
    ∙ residues-fold_halves z n (product (z * z) (u ++ v) (u' ++ v'))
    ∙ ap residues (fold-product z n u v u' v' h k h' k')
    ∙ same_product z z (fold z u v) (residues (fold z u v)) (fold z u' v') (residues (fold z u' v'))
        refl (sym (residues_idem (fold z u v))) (sym (residues_idem (fold z u' v')))
