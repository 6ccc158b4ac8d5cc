-- ===== src/Fips204/Ntt/Blocks.antt =====
-- The loops over the butterflies of a layer in nttForward and nttInverse of mldsa_fips204.h, on a
-- list of residues that is cut into blocks.
use bht_bhte.Prelude.{
  ℕ, suc, ◌+◌, ◌-◌, ◌*◌, ◌%◌, ◌≤◌, ◌≡◌, refl, sym, ap, ◌∙◌, List, [], ◌∷◌, ◌++◌, map, foldl, length,
  set, zip_with, range, All, append_assoc, arith, length-append,
}
use bht_bhte.Prelude.Int.{pos}
use bht_bhte.Fips204.Field.{q, Poly}
use bht_bhte.Fips204.Ntt.{coeff, forward_butterfly, inverse_butterfly}
use bht_bhte.Fips204.Ntt.Butterfly.{
  upper, lower, inverse_upper, inverse_lower, pos-mul, pos-add, mod_q-pos, mod_q-sub,
}

coeff-middle :
    (pre : List ℕ) (x : ℕ) (rest : List ℕ) (i : ℕ)
    → length pre ≡ i
    → coeff (map pos (pre ++ (x ∷ rest))) i ≡ pos x
coeff-middle pre x rest i h = rw⁻¹ h (at pre)
  where
    at : (pre : List ℕ) → coeff (map pos (pre ++ (x ∷ rest))) (length pre) ≡ pos x
    at [] = refl
    at (y ∷ ys) = at ys

set-middle :
    (pre : List ℕ) (x v : ℕ) (rest : List ℕ) (i : ℕ)
    → length pre ≡ i
    → set (map pos (pre ++ (x ∷ rest))) i (pos v) ≡ map pos (pre ++ (v ∷ rest))
set-middle pre x v rest i h = rw⁻¹ h (at pre)
  where
    at :
        (pre : List ℕ)
        → set (map pos (pre ++ (x ∷ rest))) (length pre) (pos v) ≡ map pos (pre ++ (v ∷ rest))
    at [] = refl
    at (y ∷ ys) = ap (◌∷◌ (pos y)) (at ys)

-- The two places of a butterfly: x, and y behind the n numbers between them.
abbrev places : List ℕ → ℕ → List ℕ → ℕ → List ℕ → List ℕ
places pre x between y post = pre ++ (x ∷ (between ++ (y ∷ post)))

second :
    (pre : List ℕ) (x : ℕ) (between : List ℕ) (y : ℕ) (post : List ℕ)
    → places pre x between y post ≡ (pre ++ (x ∷ between)) ++ (y ∷ post)
second pre x between y post = sym (append_assoc pre (x ∷ between) (y ∷ post))

second_index :
    (pre : List ℕ) (x : ℕ) (between : List ℕ) (len : ℕ)
    → len ≡ suc (length between)
    → length (pre ++ (x ∷ between)) ≡ length pre + len
second_index pre x between len h = omega (arith, length-append pre (x ∷ between))

module _ (pre : List ℕ) (x : ℕ) (between : List ℕ) (y : ℕ) (post : List ℕ) (len : ℕ)
    (apart : len ≡ suc (length between)) where
  coeff-first : coeff (map pos (places pre x between y post)) (length pre) ≡ pos x
  coeff-first = coeff-middle pre x (between ++ (y ∷ post)) (length pre) refl

  coeff-second : coeff (map pos (places pre x between y post)) (length pre + len) ≡ pos y
  coeff-second = rw (second pre x between y post) (
      coeff-middle (pre ++ (x ∷ between)) y post (length pre + len)
        (second_index pre x between len apart))

  set-first :
      (v : ℕ)
      → set (map pos (places pre x between y post)) (length pre) (pos v)
        ≡ map pos (places pre v between y post)
  set-first v = set-middle pre x v (between ++ (y ∷ post)) (length pre) refl

  set-second :
      (v : ℕ)
      → set (map pos (places pre x between y post)) (length pre + len) (pos v)
        ≡ map pos (places pre x between v post)
  set-second v =
      rw (second pre x between y post, second pre x between v post)
        (set-middle (pre ++ (x ∷ between)) y v post (length pre + len)
          (second_index pre x between len apart))

pub forward_butterfly-places :
    (z : ℕ) (pre : List ℕ) (x : ℕ) (between : List ℕ) (y : ℕ) (post : List ℕ) (len : ℕ)
    → len ≡ suc (length between)
    → forward_butterfly (pos z) len (map pos (places pre x between y post)) (length pre)
      ≡ map pos (places pre (upper z x y) between (lower z x y) post)
unfolding forward_butterfly
forward_butterfly-places z pre x between y post len h =
    rw
      (
        coeff-second pre x between y post len h,
        coeff-first pre x between y post len h,
        pos-mul z y,
        mod_q-sub x (z * y % q) (omega arith),
        set-second pre x between y post len h (lower z x y),
        coeff-first pre x between (lower z x y) post len h,
        pos-add x (z * y % q),
        mod_q-pos (x + z * y % q),
      )
      (set-first pre x between (lower z x y) post len h (upper z x y))

pub inverse_butterfly-places :
    (z : ℕ) (pre : List ℕ) (x : ℕ) (between : List ℕ) (y : ℕ) (post : List ℕ) (len : ℕ)
    → y ≤ q
    → len ≡ suc (length between)
    → inverse_butterfly (pos z) len (map pos (places pre x between y post)) (length pre)
      ≡ map pos (places pre (inverse_upper x y) between (inverse_lower z x y) post)
unfolding inverse_butterfly
inverse_butterfly-places z pre x between y post len below h =
    let x' = inverse_upper x y in
    let d = (x + (q - y)) % q in
    rw
      (
        coeff-first pre x between y post len h,
        coeff-second pre x between y post len h,
        pos-add x y,
        mod_q-pos (x + y),
        set-first pre x between y post len h x',
        coeff-second pre x' between y post len h,
        mod_q-sub x y below,
        set-second pre x' between y post len h d,
        coeff-second pre x' between d post len h,
        pos-mul z d,
      )
      (set-second pre x' between d post len h (inverse_lower z x y))

regroup :
    (pre : List ℕ) (a : ℕ) (us mid : List ℕ) (b : ℕ) (rest : List ℕ)
    → places pre a (us ++ mid) b rest ≡ (pre ++ (a ∷ [])) ++ (us ++ ((mid ++ (b ∷ [])) ++ rest))
regroup pre a us mid b rest = simp append_assoc

-- One block: a loop over j that treats the pairs (us, vs), which are `len` apart, with `mid` the
-- second places that are done.
module _ (B : Poly → ℕ → Poly) (len : ℕ) (f g : ℕ → ℕ → ℕ) (Ok : ℕ → Type 0)
    (step : (pre : List ℕ) (x : ℕ) (between : List ℕ) (y : ℕ) (post : List ℕ)
      → Ok y
      → len ≡ suc (length between)
      → B (map pos (places pre x between y post)) (length pre)
        ≡ map pos (places pre (f x y) between (g x y) post)) where
  pub butterflies :
      (us mid vs post pre : List ℕ) (start : ℕ)
      → length pre ≡ start
      → length us ≡ length vs
      → length us + length mid ≡ len
      → All Ok vs
      → foldl B (map pos (pre ++ (us ++ (mid ++ (vs ++ post))))) (range start (length us))
        ≡ map pos (pre ++ (zip_with f us vs ++ (mid ++ (zip_with g us vs ++ post))))
  butterflies [] mid [] post pre start s h k ok = refl
  butterflies [] mid (v ∷ vs) post pre start s h k ok = absurd (omega arith)
  butterflies (u ∷ us) mid [] post pre start s h k ok = absurd (omega arith)
  butterflies (u ∷ us) mid (v ∷ vs) post pre start s h k (ok, oks) =
      let us' = us ++ (mid ++ (v ∷ (vs ++ post))) in
      let rounds = range (suc start) (length us) in
      ap (λ l. foldl B l rounds)
        (ap (B (map pos (pre ++ (u ∷ us')))) (sym s)
          ∙ ap (λ r. B (map pos (pre ++ (u ∷ r))) (length pre))
              (sym (append_assoc us mid (v ∷ (vs ++ post))))
          ∙ step pre u (us ++ mid) v (vs ++ post) ok (omega (arith, length-append us mid))
          ∙ ap (map pos) (regroup pre (f u v) us mid (g u v) (vs ++ post)))
      ∙ butterflies us (mid ++ (g u v ∷ [])) vs post (pre ++ (f u v ∷ [])) (suc start)
          (omega (arith, length-append pre (f u v ∷ []))) (omega arith)
          (omega (arith, length-append mid (g u v ∷ []))) oks
      ∙ ap (map pos) (
          append_assoc pre (f u v ∷ []) (zip_with f us vs ++ _)
          ∙ ap (λ r. pre ++ (f u v ∷ (zip_with f us vs ++ r)))
              (append_assoc mid (g u v ∷ []) (zip_with g us vs ++ post)))
