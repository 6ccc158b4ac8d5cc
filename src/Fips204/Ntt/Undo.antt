-- ===== src/Fips204/Ntt/Undo.antt =====
-- A layer of nttInverse in mldsa_fips204.h undoes the one of nttForward with inverse roots.
use native.Mathlib.Nat.{suc-mul}
use mathlib.Core.List.{map-append}
use mathlib.Core.Path.{ap₂}
use bht_bhte.Prelude.{
  ℕ, ◌*◌, ◌%◌, ◌≡◌, refl, sym, ap, ◌∙◌, List, [], ◌∷◌, ◌++◌, map, length, take, drop, zip_with, All,
  All-append, All-drop, arith, length-append, length-take, length-drop, take-length-append,
  drop-length-append, length-map, Bool, true, false, ◌&&◌, ◌==◌,
}
use bht_bhte.Fips204.Field.{q}
use bht_bhte.Fips204.Ntt.Butterfly.{
  upper, lower, inverse_upper, inverse_lower, scale, inverse_upper-scale, inverse_lower-scale,
}
use bht_bhte.Fips204.Ntt.Layers.{blocks, whole, length-zip_with}

-- The inverse butterfly's first place does not use the root.
abbrev pub plain_upper : ℕ → ℕ → ℕ → ℕ
plain_upper z x y = inverse_upper x y

abbrev pub AreInverse : List ℕ → List ℕ → Type 0
AreInverse [] [] = Unit {0}
AreInverse [] (z' ∷ zs') = ⊥
AreInverse (z ∷ zs) [] = ⊥
AreInverse (z ∷ zs) (z' ∷ zs') = (z * z' % q ≡ 1) × AreInverse zs zs'

unfoldable pub are_inverse : List ℕ → List ℕ → Bool
are_inverse [] [] = true
are_inverse [] (z' ∷ zs') = false
are_inverse (z ∷ zs) [] = false
are_inverse (z ∷ zs) (z' ∷ zs') = (z * z' % q == 1) && are_inverse zs zs'

pub are_inverse→AreInverse : (zs zs' : List ℕ) → are_inverse zs zs' ≡ true → AreInverse zs zs'
unfolding are_inverse
are_inverse→AreInverse [] [] h = tt
are_inverse→AreInverse [] (z' ∷ zs') h = cc
are_inverse→AreInverse (z ∷ zs) [] h = cc
are_inverse→AreInverse (z ∷ zs) (z' ∷ zs') h =
    (ground arith, are_inverse→AreInverse zs zs' (ground arith))

pub take-of : (len : ℕ) (xs ys : List ℕ) → length xs ≡ len → take len (xs ++ ys) ≡ xs
take-of len xs ys h = ap (λ n. take n (xs ++ ys)) (sym h) ∙ take-length-append xs ys

pub drop-of : (len : ℕ) (xs ys : List ℕ) → length xs ≡ len → drop len (xs ++ ys) ≡ ys
drop-of len xs ys h = ap (λ n. drop n (xs ++ ys)) (sym h) ∙ drop-length-append xs ys

pub blocks-parts :
    (f g : ℕ → ℕ → ℕ → ℕ) (z : ℕ) (zs : List ℕ) (len : ℕ) (us vs rest : List ℕ)
    → length us ≡ len
    → length vs ≡ len
    → blocks f g (z ∷ zs) len (us ++ (vs ++ rest))
      ≡ zip_with (f z) us vs ++ (zip_with (g z) us vs ++ blocks f g zs len rest)
unfolding blocks
blocks-parts f g z zs len us vs rest h k =
    rw
      (
        blocks,
        take-of len us (vs ++ rest) h,
        drop-of len us (vs ++ rest) h,
        take-of len vs rest k,
        drop-of len vs rest k,
      )
      refl

undo_upper :
    (c z : ℕ) (us vs : List ℕ)
    → length us ≡ length vs
    → zip_with inverse_upper
        (map (scale c) (zip_with (upper z) us vs))
        (map (scale c) (zip_with (lower z) us vs))
      ≡ map (scale (2 * c)) us
undo_upper c z [] vs h = refl
undo_upper c z (u ∷ us) [] h = absurd (omega arith)
undo_upper c z (u ∷ us) (v ∷ vs) h =
    ap₂ ◌∷◌ (inverse_upper-scale c z u v) (undo_upper c z us vs (omega arith))

undo_lower :
    (c z z' : ℕ) (us vs : List ℕ)
    → z * z' % q ≡ 1
    → length us ≡ length vs
    → zip_with
        (inverse_lower z')
        (map (scale c) (zip_with (upper z) us vs))
        (map (scale c) (zip_with (lower z) us vs))
      ≡ map (scale (2 * c)) vs
undo_lower c z z' [] [] e h = refl
undo_lower c z z' [] (v ∷ vs) e h = absurd (omega arith)
undo_lower c z z' (u ∷ us) [] e h = absurd (omega arith)
undo_lower c z z' (u ∷ us) (v ∷ vs) e h =
    ap₂ ◌∷◌ (inverse_lower-scale c z z' u v e) (undo_lower c z z' us vs e (omega arith))

map-append₃ :
    (f : ℕ → ℕ) (xs ys zs : List ℕ) → map f (xs ++ (ys ++ zs)) ≡ map f xs ++ (map f ys ++ map f zs)
map-append₃ f xs ys zs = simp map-append

pub undo :
    (zs zs' : List ℕ) (len c : ℕ) (r : List ℕ)
    → AreInverse zs zs'
    → length r ≡ length zs * (2 * len)
    → blocks plain_upper inverse_lower zs' len (map (scale c) (blocks upper lower zs len r))
      ≡ map (scale (2 * c)) r
unfolding blocks
undo [] [] len c [] e h = refl
undo [] [] len c (x ∷ r) e h = absurd (omega arith)
undo [] (z' ∷ zs') len c r e h = absurd e
undo (z ∷ zs) [] len c r e h = absurd e
undo (z ∷ zs) (z' ∷ zs') len c r (e, es) h =
    let us = take len r in
    let vs = take len (drop len r) in
    let rest = drop len (drop len r) in
    let F = zip_with (upper z) us vs in
    let G = zip_with (lower z) us vs in
    let B = blocks upper lower zs len rest in
    let us_size : length us ≡ len =
      omega (arith, length-take len r, suc-mul (length zs) (2 * len)) in
    let vs_size : length vs ≡ len =
      omega
        (arith, length-take len (drop len r), length-drop len r, suc-mul (length zs) (2 * len)) in
    let rest_size : length rest ≡ length zs * (2 * len) =
      omega
        (arith, suc-mul (length zs) (2 * len), length-drop len (drop len r), length-drop len r) in
    let F_size : length (map (scale c) F) ≡ len =
      omega (arith, length-map F (scale c), length-zip_with (upper z) us vs, us_size, vs_size) in
    let G_size : length (map (scale c) G) ≡ len =
      omega (arith, length-map G (scale c), length-zip_with (lower z) us vs, us_size, vs_size) in
    ap (blocks plain_upper inverse_lower (z' ∷ zs') len) (map-append₃ (scale c) F G B)
    ∙ blocks-parts plain_upper inverse_lower z' zs' len (map (scale c) F) (map (scale c) G)
        (map (scale c) B) F_size G_size
    ∙ ap₂ ◌++◌ (undo_upper c z us vs (us_size ∙ sym vs_size)) (
        ap₂ ◌++◌ (undo_lower c z z' us vs e (us_size ∙ sym vs_size))
          (undo zs zs' len c rest es rest_size))
    ∙ sym (map-append₃ (scale (2 * c)) us vs rest)
    ∙ ap (map (scale (2 * c))) (sym (whole len r))

pub length-blocks :
    (f g : ℕ → ℕ → ℕ → ℕ) (zs : List ℕ) (len : ℕ) (r : List ℕ)
    → length r ≡ length zs * (2 * len)
    → length (blocks f g zs len r) ≡ length r
unfolding blocks
length-blocks f g [] len r h = refl
length-blocks f g (z ∷ zs) len r h =
    let us = take len r in
    let vs = take len (drop len r) in
    let rest = drop len (drop len r) in
    let big = suc-mul (length zs) (2 * len) in
    let rest_size : length rest ≡ length zs * (2 * len) =
      omega (arith, big, length-drop len (drop len r), length-drop len r) in
    omega (
      arith,
      big,
      length-append (zip_with (f z) us vs) (zip_with (g z) us vs ++ blocks f g zs len rest),
      length-append (zip_with (g z) us vs) (blocks f g zs len rest),
      length-zip_with (f z) us vs,
      length-zip_with (g z) us vs,
      length-take len r,
      length-take len (drop len r),
      length-drop len r,
      rest_size,
      length-blocks f g zs len rest rest_size,
    )

All-zip_with :
    (Ok : ℕ → Type 0) (f : ℕ → ℕ → ℕ)
    → ((x y : ℕ) → Ok (f x y))
    → (xs ys : List ℕ) → All Ok (zip_with f xs ys)
All-zip_with Ok f h [] ys = tt
All-zip_with Ok f h (x ∷ xs) [] = tt
All-zip_with Ok f h (x ∷ xs) (y ∷ ys) = (h x y, All-zip_with Ok f h xs ys)

pub All-blocks :
    (Ok : ℕ → Type 0) (f g : ℕ → ℕ → ℕ → ℕ)
    → ((z x y : ℕ) → Ok (f z x y))
    → ((z x y : ℕ) → Ok (g z x y))
    → (zs : List ℕ) (len : ℕ) (r : List ℕ) → All Ok r
    → All Ok (blocks f g zs len r)
unfolding blocks
All-blocks Ok f g hf hg [] len r h = h
All-blocks Ok f g hf hg (z ∷ zs) len r h =
    let us = take len r in
    let vs = take len (drop len r) in
    let rest = drop len (drop len r) in
    All-append Ok (zip_with (f z) us vs) (zip_with (g z) us vs ++ blocks f g zs len rest)
      (All-zip_with Ok (f z) (hf z) us vs)
      (All-append Ok (zip_with (g z) us vs) (blocks f g zs len rest)
        (All-zip_with Ok (g z) (hg z) us vs)
        (All-blocks Ok f g hf hg zs len rest (All-drop Ok len (drop len r) (All-drop Ok len r h))))
