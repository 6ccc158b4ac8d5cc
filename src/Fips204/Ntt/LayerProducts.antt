-- ===== src/Fips204/Ntt/LayerProducts.antt =====
-- A layer of nttForward of mldsa_fips204.h keeps the products of blocks.
use native.Mathlib.Nat.{suc-mul}
use mathlib.Core.Path.{ap₂}
use bht_bhte.Prelude.{
  ℕ, zero, suc, ◌+◌, ◌-◌, ◌*◌, ◌%◌, ◌≤◌, ◌≡◌, refl, sym, ap, ◌∙◌, Bool, true, false, ◌&&◌, ◌==◌,
  leb, List, [], ◌∷◌, ◌++◌, length, take, drop, append_assoc, arith, length-append, length-take,
  length-drop, length-map, take-append-drop,
}
use bht_bhte.Fips204.Field.{q}
use bht_bhte.Fips204.Ntt.Butterfly.{upper, lower}
use bht_bhte.Fips204.Ntt.Layers.{blocks}
use bht_bhte.Fips204.Ntt.Undo.{blocks-parts, take-of, drop-of}
use bht_bhte.Fips204.Ntt.Product.{product, length-product}
use bht_bhte.Fips204.Ntt.Fold.{fold}
use bht_bhte.Fips204.Ntt.Halves.{fold_halves, length-fold}
use bht_bhte.Fips204.Ntt.Residues.{residues, upper-fold, lower-fold, block-product}

-- The products of the blocks of m coefficients, modulo X^m - w for their numbers w.
unfoldable pub block_products : List ℕ → ℕ → List ℕ → List ℕ → List ℕ
block_products [] m a b = []
block_products (w ∷ ws) m a b =
    residues (product w (take m a) (take m b)) ++ block_products ws m (drop m a) (drop m b)

-- The numbers of the halves of blocks with the roots zs.
abbrev pub children : List ℕ → List ℕ
children [] = []
children (z ∷ zs) = z ∷ (q - z) ∷ children zs

abbrev pub AreRoots : List ℕ → List ℕ → Type 0
AreRoots [] [] = Unit {0}
AreRoots [] (w ∷ ws) = ⊥
AreRoots (z ∷ zs) [] = ⊥
AreRoots (z ∷ zs) (w ∷ ws) =
    ((z ≤ q) × (z * z % q ≡ w % q) × ((q - z) * (q - z) % q ≡ w % q)) × AreRoots zs ws

unfoldable pub are_roots : List ℕ → List ℕ → Bool
are_roots [] [] = true
are_roots [] (w ∷ ws) = false
are_roots (z ∷ zs) [] = false
are_roots (z ∷ zs) (w ∷ ws) =
    (leb z q && ((z * z % q == w % q) && ((q - z) * (q - z) % q == w % q))) && are_roots zs ws

pub are_roots→AreRoots : (zs ws : List ℕ) → are_roots zs ws ≡ true → AreRoots zs ws
unfolding are_roots
are_roots→AreRoots [] [] h = tt
are_roots→AreRoots [] (w ∷ ws) h = cc
are_roots→AreRoots (z ∷ zs) [] h = cc
are_roots→AreRoots (z ∷ zs) (w ∷ ws) h =
    ((ground arith, ground arith, ground arith), are_roots→AreRoots zs ws (ground arith))

suc-add : (m n : ℕ) → suc m + n ≡ suc (m + n)
suc-add m n = omega arith

take_none : (n : ℕ) → take {A = ℕ} n [] ≡ []
take_none zero = refl
take_none (suc n) = refl

drop_none : (n : ℕ) → drop {A = ℕ} n [] ≡ []
drop_none zero = refl
drop_none (suc n) = refl

take-drop : (m n : ℕ) (r : List ℕ) → take (m + n) r ≡ take m r ++ take n (drop m r)
take-drop zero n r = let e : 0 + n ≡ n = omega arith in ap (λ k. take k r) e
take-drop (suc m) n [] = take_none (suc m + n) ∙ sym (take_none n)
take-drop (suc m) n (x ∷ r) = ap (λ k. take k (x ∷ r)) (suc-add m n) ∙ ap (◌∷◌ x) (take-drop m n r)

drop-drop : (m n : ℕ) (r : List ℕ) → drop (m + n) r ≡ drop n (drop m r)
drop-drop zero n r = let e : 0 + n ≡ n = omega arith in ap (λ k. drop k r) e
drop-drop (suc m) n [] = drop_none (suc m + n) ∙ sym (drop_none n)
drop-drop (suc m) n (x ∷ r) = ap (λ k. drop k (x ∷ r)) (suc-add m n) ∙ drop-drop m n r

take_twice : (n : ℕ) (r : List ℕ) → take (2 * n) r ≡ take n r ++ take n (drop n r)
take_twice n r = let e : 2 * n ≡ n + n = omega arith in ap (λ k. take k r) e ∙ take-drop n n r

drop_twice : (n : ℕ) (r : List ℕ) → drop (2 * n) r ≡ drop n (drop n r)
drop_twice n r = let e : 2 * n ≡ n + n = omega arith in ap (λ k. drop k r) e ∙ drop-drop n n r

blocks-split :
    (z : ℕ) (zs : List ℕ) (n : ℕ) (P rest : List ℕ)
    → length P ≡ 2 * n
    → z ≤ q
    → blocks upper lower (z ∷ zs) n (P ++ rest)
      ≡ residues (fold_halves z n P)
        ++ (residues (fold_halves (q - z) n P) ++ blocks upper lower zs n rest)
blocks-split z zs n P rest h k =
    let u = take n P in
    let v = drop n P in
    ap (blocks upper lower (z ∷ zs) n)
      (ap (λ l. l ++ rest) (sym (take-append-drop n P)) ∙ append_assoc u v rest)
    ∙ blocks-parts upper lower z zs n u v rest (omega (arith, length-take n P))
        (omega (arith, length-drop n P))
    ∙ ap₂ (λ U L. U ++ (L ++ blocks upper lower zs n rest)) (upper-fold z u v) (lower-fold z u v k)

-- The first two blocks.
products-split :
    (z z' : ℕ) (ws : List ℕ) (n : ℕ) (U L A U' L' B : List ℕ)
    → length U ≡ n
    → length L ≡ n
    → length U' ≡ n
    → length L' ≡ n
    → block_products (z ∷ z' ∷ ws) n (U ++ (L ++ A)) (U' ++ (L' ++ B))
      ≡ residues (product z U U') ++ (residues (product z' L L') ++ block_products ws n A B)
unfolding block_products
products-split z z' ws n U L A U' L' B h k h' k' =
    rw
      (
        take-of n U (L ++ A) h,
        take-of n U' (L' ++ B) h',
        drop-of n U (L ++ A) h,
        drop-of n U' (L' ++ B) h',
        take-of n L A k,
        take-of n L' B k',
        drop-of n L A k,
        drop-of n L' B k',
      )
      refl

no_layer : (n : ℕ) (a b : List ℕ) → blocks upper lower [] n (block_products [] (2 * n) a b) ≡ []
unfolding blocks block_products
no_layer n a b = refl

no_products : (n : ℕ) (a b : List ℕ) → block_products [] n a b ≡ []
unfolding block_products
no_products n a b = refl

products-first :
    (w : ℕ) (ws : List ℕ) (n : ℕ) (a b : List ℕ)
    → block_products (w ∷ ws) (2 * n) a b
      ≡ residues (product w (take n a ++ take n (drop n a)) (take n b ++ take n (drop n b)))
        ++ block_products ws (2 * n) (drop n (drop n a)) (drop n (drop n b))
unfolding block_products
products-first w ws n a b = rw (take_twice n a, take_twice n b, drop_twice n a, drop_twice n b) refl

blocks-first :
    (z : ℕ) (zs : List ℕ) (n : ℕ) (a : List ℕ)
    → z ≤ q
    → blocks upper lower (z ∷ zs) n a
      ≡ residues (fold z (take n a) (take n (drop n a)))
        ++ (residues (fold (q - z) (take n a) (take n (drop n a)))
            ++ blocks upper lower zs n (drop n (drop n a)))
unfolding blocks
blocks-first z zs n a k =
    ap₂ (λ U L. U ++ (L ++ blocks upper lower zs n (drop n (drop n a))))
      (upper-fold z (take n a) (take n (drop n a))) (lower-fold z (take n a) (take n (drop n a)) k)

part :
    (z : ℕ) (u v : List ℕ) {n : ℕ}
    → length u ≡ n
    → length v ≡ n
    → length (residues (fold z u v)) ≡ n
part z u v h k = length-map (fold z u v) (λ x. x % q) ∙ length-fold z u v (h ∙ sym k) ∙ h

pub blocks-products :
    (zs ws : List ℕ) (n : ℕ) (a b : List ℕ)
    → AreRoots zs ws
    → length a ≡ length zs * (2 * n)
    → length b ≡ length zs * (2 * n)
    → blocks upper lower zs n (block_products ws (2 * n) a b)
      ≡ block_products (children zs) n (blocks upper lower zs n a) (blocks upper lower zs n b)
blocks-products [] [] n a b roots h k = no_layer n a b ∙ sym (no_products n _ _)
blocks-products [] (w ∷ ws) n a b roots h k = absurd roots
blocks-products (z ∷ zs) [] n a b roots h k = absurd roots
blocks-products (z ∷ zs) (w ∷ ws) n a b ((below, square, other), roots) h k =
    let u = take n a in
    let v = take n (drop n a) in
    let u' = take n b in
    let v' = take n (drop n b) in
    let P = residues (product w (u ++ v) (u' ++ v')) in
    let big = suc-mul (length zs) (2 * n) in
    let u_size : length u ≡ n = omega (arith, big, length-take n a) in
    let v_size : length v ≡ n = omega (arith, big, length-take n (drop n a), length-drop n a) in
    let u'_size : length u' ≡ n = omega (arith, big, length-take n b) in
    let v'_size : length v' ≡ n = omega (arith, big, length-take n (drop n b), length-drop n b) in
    ap (blocks upper lower (z ∷ zs) n) (products-first w ws n a b)
    ∙ blocks-split z zs n P _
        (length-map (product w (u ++ v) (u' ++ v')) (λ x. x % q)
          ∙ length-product w (u ++ v) (u' ++ v')
          ∙ omega (arith, length-append u' v', u'_size, v'_size))
        below
    ∙ ap₂ ◌++◌ (block-product z w n u v u' v' square u_size v_size u'_size v'_size) (
        ap₂ ◌++◌ (block-product (q - z) w n u v u' v' other u_size v_size u'_size v'_size) (
          blocks-products zs ws n (drop n (drop n a)) (drop n (drop n b)) roots
            (omega (arith, big, length-drop n (drop n a), length-drop n a))
            (omega (arith, big, length-drop n (drop n b), length-drop n b))))
    ∙ sym (
        ap₂ (block_products (children (z ∷ zs)) n) (blocks-first z zs n a below)
          (blocks-first z zs n b below)
        ∙ products-split z (q - z) (children zs) n _ _ _ _ _ _ (part z u v u_size v_size)
            (part (q - z) u v u_size v_size) (part z u' v' u'_size v'_size)
            (part (q - z) u' v' u'_size v'_size))
