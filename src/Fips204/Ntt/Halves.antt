-- ===== src/Fips204/Ntt/Halves.antt =====
-- The product modulo X^2n - z^2, cut into halves and taken modulo X^n - z: the transform of
-- mldsa_fips204.h keeps products, one layer at a time.
use native.Mathlib.Nat.{mul-add, mul_assoc, mul_left_comm, mul-zero}
use mathlib.Core.Path.{ap₂}
use bht_bhte.Prelude.{
  ℕ, zero, suc, ◌+◌, ◌*◌, ◌≡◌, refl, sym, ap, ◌∙◌, List, [], ◌∷◌, ◌++◌, length, take, drop,
  replicate, arith, length-append, length-replicate, length-take, length-drop, take-append-drop,
  take-length-append, drop-length-append,
}
use bht_bhte.Fips204.Ntt.Product.{
  add, times, push, last, shift, product, length-push, length-product,
}
use bht_bhte.Fips204.Ntt.Fold.{fold, times-append, length-times, reduce_factor}

abbrev pub fold_halves : ℕ → ℕ → List ℕ → List ℕ
fold_halves z n r = fold z (take n r) (drop n r)

fold_halves-append : (z n : ℕ) (u v : List ℕ) → length u ≡ n → fold_halves z n (u ++ v) ≡ fold z u v
fold_halves-append z n u v h =
    ap (λ n. fold_halves z n (u ++ v)) (sym h)
    ∙ ap₂ (fold z) (take-length-append u v) (drop-length-append u v)

push-append : (c : ℕ) (u v : List ℕ) → push c (u ++ v) ≡ push c u ++ push (last c u) v
push-append c [] v = refl
push-append c (x ∷ u) v = ap (◌∷◌ c) (push-append x u v)

last-append : (d : ℕ) (u v : List ℕ) → last d (u ++ v) ≡ last (last d u) v
last-append d [] v = refl
last-append d (x ∷ u) v = last-append x u v

push-fold :
    (z c d : ℕ) (u v : List ℕ) → fold z (push c u) (push d v) ≡ push (c + z * d) (fold z u v)
push-fold z c d [] v = refl
push-fold z c d (x ∷ u) [] = refl
push-fold z c d (x ∷ u) (y ∷ v) = ap (◌∷◌ (c + z * d)) (push-fold z x y u v)

last-fold :
    (z d e : ℕ) (u v : List ℕ)
    → length u ≡ length v
    → last (d + z * e) (fold z u v) ≡ last d u + z * last e v
last-fold z d e [] [] h = refl
last-fold z d e [] (y ∷ v) h = absurd (omega arith)
last-fold z d e (x ∷ u) [] h = absurd (omega arith)
last-fold z d e (x ∷ u) (y ∷ v) h = last-fold z x y u v (omega arith)

-- Times X.
shift-fold :
    (z n : ℕ) (u v : List ℕ)
    → length u ≡ n
    → length v ≡ n
    → fold_halves z n (shift (z * z) (u ++ v)) ≡ shift z (fold z u v)
shift-fold z n [] [] h k = shift_none n
  where
    shift_none : (n : ℕ) → fold_halves z n [] ≡ []
    shift_none zero = refl
    shift_none (suc n) = refl
shift-fold z n [] (y ∷ v) h k = absurd (omega arith)
shift-fold z n (x ∷ u) [] h k = absurd (omega arith)
shift-fold z n (x ∷ u) (y ∷ v) h k =
    let top = last y v in
    let middle = last x u in
    ap (λ c. fold_halves z n (push (z * z * c) ((x ∷ u) ++ (y ∷ v))))
      (last-append 0 (x ∷ u) (y ∷ v))
    ∙ ap (fold_halves z n) (push-append (z * z * top) (x ∷ u) (y ∷ v))
    ∙ fold_halves-append z n (push (z * z * top) (x ∷ u)) (push middle (y ∷ v))
        (length-push (z * z * top) (x ∷ u) ∙ h)
    ∙ push-fold z (z * z * top) middle (x ∷ u) (y ∷ v)
    ∙ ap (λ c. push c (fold z (x ∷ u) (y ∷ v)))
        (corner z top middle ∙ ap (◌*◌ z) (sym (last-fold z x y u v (omega arith))))
  where
    corner : (z t m : ℕ) → z * z * t + z * m ≡ z * (m + z * t)
    corner z t m = omega (arith, mul-add z m (z * t), mul_assoc z z t)

interchange :
    (z : ℕ) (a b c d : List ℕ) → fold z (add a b) (add c d) ≡ add (fold z a c) (fold z b d)
interchange z [] b c d = refl
interchange z (x ∷ a) [] [] d = refl
interchange z (x ∷ a) [] (y ∷ c) d = refl
interchange z (x ∷ a) (s ∷ b) [] d = refl
interchange z (x ∷ a) (s ∷ b) (y ∷ c) [] = refl
interchange z (x ∷ a) (s ∷ b) (y ∷ c) (t ∷ d) =
    ap₂ ◌∷◌ (omega (arith, mul-add z y t)) (interchange z a b c d)

take-add : (n : ℕ) (a b : List ℕ) → take n (add a b) ≡ add (take n a) (take n b)
take-add zero a b = refl
take-add (suc n) [] b = refl
take-add (suc n) (x ∷ a) [] = refl
take-add (suc n) (x ∷ a) (y ∷ b) = ap (◌∷◌ (x + y)) (take-add n a b)

drop-add :
    (n : ℕ) (a b : List ℕ) → length a ≡ length b → drop n (add a b) ≡ add (drop n a) (drop n b)
drop-add zero a b h = refl
drop-add (suc n) [] b h = refl
drop-add (suc n) (x ∷ a) [] h = absurd (omega arith)
drop-add (suc n) (x ∷ a) (y ∷ b) h = drop-add n a b (omega arith)

add-fold :
    (z n : ℕ) (a b : List ℕ)
    → length a ≡ length b
    → fold_halves z n (add a b) ≡ add (fold_halves z n a) (fold_halves z n b)
add-fold z n a b h =
    ap₂ (fold z) (take-add n a b) (drop-add n a b h)
    ∙ interchange z (take n a) (take n b) (drop n a) (drop n b)

times-fold : (z k : ℕ) (u v : List ℕ) → fold z (times k u) (times k v) ≡ times k (fold z u v)
times-fold z k [] v = refl
times-fold z k (x ∷ u) [] = refl
times-fold z k (x ∷ u) (y ∷ v) =
    ap₂ ◌∷◌ (omega (arith, mul-add k x (z * y), mul_left_comm z k y)) (times-fold z k u v)

zeros-fold : (z n : ℕ) → fold_halves z n (replicate (n + n) 0) ≡ replicate n 0
zeros-fold z n =
    ap (fold_halves z n) (twice n n)
    ∙ fold_halves-append z n (replicate n 0) (replicate n 0) (length-replicate n 0)
    ∙ zero_fold n
  where
    twice : (m n : ℕ) → replicate {A = ℕ} (m + n) 0 ≡ replicate m 0 ++ replicate n 0
    twice zero n = ap (λ m. replicate m 0) (omega arith)
    twice (suc m) n =
        let e : suc m + n ≡ suc (m + n) = omega arith in
        ap (λ k. replicate {A = ℕ} k 0) e ∙ ap (◌∷◌ 0) (twice m n)

    zero_fold : (n : ℕ) → fold z (replicate n 0) (replicate n 0) ≡ replicate n 0
    zero_fold zero = refl
    zero_fold (suc n) = ap₂ ◌∷◌ (omega (arith, mul-zero z)) (zero_fold n)

pub length-fold : (z : ℕ) (u v : List ℕ) → length u ≡ length v → length (fold z u v) ≡ length u
length-fold z [] v h = refl
length-fold z (x ∷ u) [] h = absurd (omega arith)
length-fold z (x ∷ u) (y ∷ v) h = ap suc (length-fold z u v (omega arith))

halves-product :
    (z n : ℕ) (a u v : List ℕ)
    → length u ≡ n
    → length v ≡ n
    → fold_halves z n (product (z * z) a (u ++ v)) ≡ product z a (fold z u v)
halves-product z n [] u v h k =
    ap (λ m. fold_halves z n (replicate m 0)) (length-append u v ∙ ap₂ ◌+◌ h k)
    ∙ zeros-fold z n
    ∙ ap (λ m. replicate m 0) (sym (length-fold z u v (h ∙ sym k) ∙ h))
halves-product z n (x ∷ a) u v h k =
    let R = product (z * z) a (u ++ v) in
    let size : length R ≡ n + n =
      length-product (z * z) a (u ++ v) ∙ length-append u v ∙ ap₂ ◌+◌ h k in
    add-fold z n (times x (u ++ v)) (shift (z * z) R) (
      length-times x (u ++ v)
      ∙ sym (length-push (z * z * last 0 R) R ∙ length-product (z * z) a (u ++ v)))
    ∙ ap₂ add
        (ap (fold_halves z n) (times-append x u v)
          ∙ fold_halves-append z n (times x u) (times x v) (length-times x u ∙ h)
          ∙ times-fold z x u v)
        (ap (λ r. fold_halves z n (shift (z * z) r)) (sym (take-append-drop n R))
          ∙ shift-fold z n (take n R) (drop n R) (omega (arith, length-take n R))
              (omega (arith, length-drop n R))
          ∙ ap (shift z) (halves-product z n a u v h k))

-- The product, and each factor, modulo X^n - z.
pub fold-product :
    (z n : ℕ) (u v u' v' : List ℕ)
    → length u ≡ n
    → length v ≡ n
    → length u' ≡ n
    → length v' ≡ n
    → fold_halves z n (product (z * z) (u ++ v) (u' ++ v')) ≡ product z (fold z u v) (fold z u' v')
fold-product z n u v u' v' h k h' k' =
    halves-product z n (u ++ v) u' v' h' k'
    ∙ reduce_factor z u v (fold z u' v') (h ∙ sym k)
        (h ∙ sym (length-fold z u' v' (h' ∙ sym k') ∙ h'))
