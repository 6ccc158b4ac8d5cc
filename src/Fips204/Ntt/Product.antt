-- ===== src/Fips204/Ntt/Product.antt =====
-- The product that pointwise multiplication of transforms stands for, in mldsa_fips204.h: that of
-- two polynomials with natural coefficients modulo X^n - z, the lowest coefficient first.
use native.Mathlib.Nat.{mul-add, mul_left_comm, mul-zero}
use mathlib.Core.Path.{ap₂}
use bht_bhte.Prelude.{
  ℕ, zero, suc, ◌+◌, ◌*◌, ◌≡◌, refl, sym, ap, ◌∙◌, List, [], ◌∷◌, ◌++◌, map, length, zip_with,
  replicate, arith, length-map, length-replicate,
}

abbrev pub add : List ℕ → List ℕ → List ℕ
add xs ys = zip_with ◌+◌ xs ys

abbrev pub times : ℕ → List ℕ → List ℕ
times c xs = map (λ x. c * x) xs

-- Every coefficient moves up by one place, c comes in at the bottom, and the last drops out.
abbrev pub push : ℕ → List ℕ → List ℕ
push c [] = []
push c (x ∷ xs) = c ∷ push x xs

abbrev pub last : ℕ → List ℕ → ℕ
last d [] = d
last d (x ∷ xs) = last x xs

-- Times X.
abbrev pub shift : ℕ → List ℕ → List ℕ
shift z r = push (z * last 0 r) r

-- A product by Horner's rule on the first factor.
abbrev pub product : ℕ → List ℕ → List ℕ → List ℕ
product z [] b = replicate (length b) 0
product z (x ∷ a) b = add (times x b) (shift z (product z a b))

pub length-push : (c : ℕ) (r : List ℕ) → length (push c r) ≡ length r
length-push c [] = refl
length-push c (x ∷ xs) = ap suc (length-push x xs)

pub length-add : (xs ys : List ℕ) → length xs ≡ length ys → length (add xs ys) ≡ length xs
length-add [] ys h = refl
length-add (x ∷ xs) [] h = absurd (omega arith)
length-add (x ∷ xs) (y ∷ ys) h = ap suc (length-add xs ys (omega arith))

pub length-product : (z : ℕ) (a b : List ℕ) → length (product z a b) ≡ length b
length-product z [] b = length-replicate (length b) 0
length-product z (x ∷ a) b =
    let rest = length-push (z * last 0 (product z a b)) (product z a b) ∙ length-product z a b in
    length-add (times x b) (shift z (product z a b)) (length-map b (λ y. x * y) ∙ sym rest)
    ∙ length-map b (λ y. x * y)

push-add : (c d : ℕ) (xs ys : List ℕ) → push (c + d) (add xs ys) ≡ add (push c xs) (push d ys)
push-add c d [] ys = refl
push-add c d (x ∷ xs) [] = refl
push-add c d (x ∷ xs) (y ∷ ys) = ap (◌∷◌ (c + d)) (push-add x y xs ys)

last-add :
    (d e : ℕ) (xs ys : List ℕ)
    → length xs ≡ length ys
    → last (d + e) (add xs ys) ≡ last d xs + last e ys
last-add d e [] [] h = refl
last-add d e [] (y ∷ ys) h = absurd (omega arith)
last-add d e (x ∷ xs) [] h = absurd (omega arith)
last-add d e (x ∷ xs) (y ∷ ys) h = last-add x y xs ys (omega arith)

pub shift-add :
    (z : ℕ) (xs ys : List ℕ)
    → length xs ≡ length ys
    → shift z (add xs ys) ≡ add (shift z xs) (shift z ys)
shift-add z xs ys h =
    ap (λ c. push c (add xs ys))
      (ap (◌*◌ z) (last-add 0 0 xs ys h) ∙ mul-add z (last 0 xs) (last 0 ys))
    ∙ push-add (z * last 0 xs) (z * last 0 ys) xs ys

push-times : (k c : ℕ) (xs : List ℕ) → push (k * c) (times k xs) ≡ times k (push c xs)
push-times k c [] = refl
push-times k c (x ∷ xs) = ap (◌∷◌ (k * c)) (push-times k x xs)

last-times : (k d : ℕ) (xs : List ℕ) → last (k * d) (times k xs) ≡ k * last d xs
last-times k d [] = refl
last-times k d (x ∷ xs) = last-times k x xs

pub shift-times : (z k : ℕ) (xs : List ℕ) → shift z (times k xs) ≡ times k (shift z xs)
shift-times z k xs =
    ap (λ c. push c (times k xs))
      (ap (◌*◌ z) (ap (λ d. last d (times k xs)) (sym (mul-zero k)) ∙ last-times k 0 xs)
        ∙ mul_left_comm z k (last 0 xs))
    ∙ push-times k (z * last 0 xs) xs

pub add_zeros : (n : ℕ) (r : List ℕ) → length r ≡ n → add (replicate n 0) r ≡ r
add_zeros zero [] h = refl
add_zeros zero (x ∷ r) h = absurd (omega arith)
add_zeros (suc n) [] h = absurd (omega arith)
add_zeros (suc n) (x ∷ r) h = ap₂ ◌∷◌ (omega arith) (add_zeros n r (omega arith))

add_assoc_list : (xs ys zs : List ℕ) → add xs (add ys zs) ≡ add (add xs ys) zs
add_assoc_list [] ys zs = refl
add_assoc_list (x ∷ xs) [] zs = refl
add_assoc_list (x ∷ xs) (y ∷ ys) [] = refl
add_assoc_list (x ∷ xs) (y ∷ ys) (z ∷ zs) = ap₂ ◌∷◌ (omega arith) (add_assoc_list xs ys zs)

-- Times X, n times.
abbrev pub shifts : ℕ → ℕ → List ℕ → List ℕ
shifts z zero r = r
shifts z (suc n) r = shifts z n (shift z r)

shifts-shift : (z n : ℕ) (r : List ℕ) → shifts z n (shift z r) ≡ shift z (shifts z n r)
shifts-shift z zero r = refl
shifts-shift z (suc n) r = shifts-shift z n (shift z r)

length-shifts : (z n : ℕ) (r : List ℕ) → length (shifts z n r) ≡ length r
length-shifts z zero r = refl
length-shifts z (suc n) r = length-shifts z n (shift z r) ∙ length-push (z * last 0 r) r

pub product-append :
    (z : ℕ) (u v c : List ℕ)
    → product z (u ++ v) c ≡ add (product z u c) (shifts z (length u) (product z v c))
product-append z [] v c = sym (add_zeros (length c) (product z v c) (length-product z v c))
product-append z (x ∷ u) v c =
    let P = product z u c in
    let Q = shifts z (length u) (product z v c) in
    ap (λ r. add (times x c) (shift z r)) (product-append z u v c)
    ∙ ap (add (times x c)) (
        shift-add z P Q (
          length-product z u c
          ∙ sym (length-shifts z (length u) (product z v c) ∙ length-product z v c))
        ∙ ap (add (shift z P)) (sym (shifts-shift z (length u) (product z v c))))
    ∙ add_assoc_list (times x c) (shift z P) (shifts z (suc (length u)) (product z v c))
