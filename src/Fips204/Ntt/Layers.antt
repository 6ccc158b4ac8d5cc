-- ===== src/Fips204/Ntt/Layers.antt =====
-- A layer of nttForward and of nttInverse in mldsa_fips204.h as a function on residues, and the
-- layer that undoes another.
use native.Mathlib.Nat.{suc-mul}
use bht_bhte.Prelude.{
  ℕ, zero, suc, ◌*◌, ◌/◌, ◌≤◌, ◌≡◌, refl, sym, ap, ◌∙◌, List, [], ◌∷◌, ◌++◌, map, foldl, length,
  take, drop, zip_with, range, All, All-take, All-drop, append_assoc, arith, min, length-append,
  length-take, length-drop, take-append-drop,
}
use bht_bhte.Prelude.Int.{pos}
use bht_bhte.Fips204.Field.{Poly}

-- The pairs (us, vs) of each block, with its root.
unfoldable pub blocks : (f g : ℕ → ℕ → ℕ → ℕ) → List ℕ → ℕ → List ℕ → List ℕ
blocks f g [] len r = r
blocks f g (z ∷ zs) len r =
    let us = take len r in
    let vs = take len (drop len r) in
    zip_with (f z) us vs ++ (zip_with (g z) us vs ++ blocks f g zs len (drop len (drop len r)))

abbrev pub iterate : (ℕ → ℕ) → ℕ → ℕ → ℕ
iterate next zero kk = kk
iterate next (suc n) kk = iterate next n (next kk)

-- The roots of the n blocks from the counter kk on.
unfoldable pub roots : (ℕ → ℕ) → (ℕ → ℕ) → ℕ → ℕ → List ℕ
roots root next zero kk = []
roots root next (suc n) kk = root kk ∷ roots root next n (next kk)

pub length-zip_with :
    (f : ℕ → ℕ → ℕ) (xs ys : List ℕ) → length (zip_with f xs ys) ≡ min (length xs) (length ys)
length-zip_with f [] ys = omega arith
length-zip_with f (x ∷ xs) [] = omega arith
length-zip_with f (x ∷ xs) (y ∷ ys) = omega (arith, length-zip_with f xs ys)

abbrev pub layer_of : (f g : ℕ → ℕ → ℕ → ℕ) (root next : ℕ → ℕ) → ℕ → ℕ × List ℕ → ℕ × List ℕ
layer_of f g root next len (kk, r) =
    (iterate next (128 / len) kk, blocks f g (roots root next (128 / len) kk) len r)

pub whole :
    (len : ℕ) (r : List ℕ) → r ≡ take len r ++ (take len (drop len r) ++ drop len (drop len r))
whole len r =
    sym (ap (◌++◌ (take len r)) (take-append-drop len (drop len r)) ∙ take-append-drop len r)

regroup : (pre F G rest : List ℕ) → pre ++ (F ++ (G ++ rest)) ≡ (pre ++ (F ++ G)) ++ rest
regroup pre F G rest = simp append_assoc

module _ (f g : ℕ → ℕ → ℕ → ℕ) (root next : ℕ → ℕ) (Ok Counter : ℕ → Type 0)
    (keep : (kk : ℕ) → Counter kk → Counter (next kk)) (block : ℕ → ℕ × Poly → ℕ → ℕ × Poly)
    (one : (len kk : ℕ) (us vs post pre : List ℕ) (start : ℕ)
      → Counter kk
      → length pre ≡ start
      → length us ≡ len
      → length vs ≡ len
      → All Ok vs
      → block len (kk, map pos (pre ++ (us ++ (vs ++ post)))) start ≡ (
        next kk,
        map pos (pre ++ (zip_with (f (root kk)) us vs ++ (zip_with (g (root kk)) us vs ++ post))),
      )) where
  pub layer :
      (len n i kk : ℕ) (pre r : List ℕ)
      → Counter kk
      → length pre ≡ i * (2 * len)
      → length r ≡ n * (2 * len)
      → All Ok r
      → foldl (block len) (kk, map pos (pre ++ r)) (map (λ i. i * (2 * len)) (range i n))
        ≡ (iterate next n kk, map pos (pre ++ blocks f g (roots root next n kk) len r))
  unfolding blocks roots
  layer len zero i kk pre r c h k ok = refl
  layer len (suc n) i kk pre r c h k ok =
      let us = take len r in
      let vs = take len (drop len r) in
      let rest = drop len (drop len r) in
      let F = zip_with (f (root kk)) us vs in
      let G = zip_with (g (root kk)) us vs in
      let starts = map (λ i. i * (2 * len)) (range (suc i) n) in
      let long : 2 * len ≤ length r = omega (arith, suc-mul n (2 * len)) in
      let us_size : length us ≡ len = omega (arith, length-take len r) in
      let vs_size : length vs ≡ len =
        omega (arith, length-take len (drop len r), length-drop len r) in
      ap (λ l. foldl (block len) (block len (kk, map pos (pre ++ l)) (i * (2 * len))) starts)
        (whole len r)
      ∙ ap (λ s. foldl (block len) s starts)
          (one len kk us vs rest pre (i * (2 * len)) c h us_size vs_size
              (All-take Ok len (drop len r) (All-drop Ok len r ok))
            ∙ ap (λ l. (next kk, map pos l)) (regroup pre F G rest))
      ∙ layer len n (suc i) (next kk) (pre ++ (F ++ G)) rest (keep kk c)
          (omega (
            arith,
            suc-mul i (2 * len),
            length-append pre (F ++ G),
            length-append F G,
            length-zip_with (f (root kk)) us vs,
            length-zip_with (g (root kk)) us vs,
          ))
          (omega (arith, suc-mul n (2 * len), length-drop len (drop len r), length-drop len r))
          (All-drop Ok len (drop len r) (All-drop Ok len r ok))
      ∙ ap (λ l. (iterate next n (next kk), map pos l)) (sym (regroup pre F G _))
