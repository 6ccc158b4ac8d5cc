-- ===== src/Fips204/Ntt/Pairs.antt =====
-- The roots of nttForward and nttInverse of mldsa_fips204.h that undo one another, and the passes over
-- one layer with them.
use mathlib.Core.Path.{ap₂}
use bht_bhte.Prelude.{
  ℕ, ◌-◌, ◌*◌, ◌/◌, ◌<◌, ◌≡◌, refl, sym, ap, ◌∙◌, true, List, [], ◌∷◌, map, length, All, arith,
}
use bht_bhte.Prelude.Int.{pos, ◌*ℤ◌, rem}
use bht_bhte.Fips204.Field.{q}
use bht_bhte.Fips204.Ntt.{mod_pow, bitrev8, ninv}
use bht_bhte.Fips204.Ntt.Butterfly.{upper, lower, inverse_lower, scale, pos-mul}
use bht_bhte.Fips204.Ntt.Layers.{blocks, roots}
use bht_bhte.Fips204.Ntt.Passes.{
  root_at, forward_root, inverse_root, up, down, AtMost, Fits, length-layer, length-roots,
}
use bht_bhte.Fips204.Ntt.Undo.{plain_upper, are_inverse, are_inverse→AreInverse, undo, All-blocks}

abbrev pub IsResidue : ℕ → Type 0
IsResidue n = n < q

-- The roots of a layer with n blocks in the two directions.
abbrev pub forward_roots : ℕ → List ℕ
forward_roots n = roots forward_root up n (n - 1)

abbrev pub inverse_roots : ℕ → List ℕ
inverse_roots n = roots inverse_root down n (2 * n)

abbrev pub pass : ℕ → ℕ → List ℕ → List ℕ
pass n len r = blocks upper lower (forward_roots n) len r

-- The eight layers.
unfoldable pub transform : List ℕ → List ℕ
transform r =
    pass 128 1
      (pass 64 2 (pass 32 4 (pass 16 8 (pass 8 16 (pass 4 32 (pass 2 64 (pass 1 128 r)))))))

pub inverse_1 : are_inverse (forward_roots 1) (inverse_roots 1) ≡ true
unfolding root_at mod_pow bitrev8 are_inverse roots
inverse_1 = refl

pub inverse_2 : are_inverse (forward_roots 2) (inverse_roots 2) ≡ true
unfolding root_at mod_pow bitrev8 are_inverse roots
inverse_2 = refl

pub inverse_4 : are_inverse (forward_roots 4) (inverse_roots 4) ≡ true
unfolding root_at mod_pow bitrev8 are_inverse roots
inverse_4 = refl

pub inverse_8 : are_inverse (forward_roots 8) (inverse_roots 8) ≡ true
unfolding root_at mod_pow bitrev8 are_inverse roots
inverse_8 = refl

pub inverse_16 : are_inverse (forward_roots 16) (inverse_roots 16) ≡ true
unfolding root_at mod_pow bitrev8 are_inverse roots
inverse_16 = refl

pub inverse_32 : are_inverse (forward_roots 32) (inverse_roots 32) ≡ true
unfolding root_at mod_pow bitrev8 are_inverse roots
inverse_32 = refl

pub inverse_64 : are_inverse (forward_roots 64) (inverse_roots 64) ≡ true
unfolding root_at mod_pow bitrev8 are_inverse roots
inverse_64 = refl

pub inverse_128 : are_inverse (forward_roots 128) (inverse_roots 128) ≡ true
unfolding root_at mod_pow bitrev8 are_inverse roots
inverse_128 = refl

pub pass_undone :
    (n len c : ℕ) (r : List ℕ)
    → are_inverse (forward_roots n) (inverse_roots n) ≡ true
    → n * (2 * len) ≡ 256
    → length r ≡ 256
    → blocks plain_upper inverse_lower (inverse_roots n) len (map (scale c) (pass n len r))
      ≡ map (scale (2 * c)) r
pass_undone n len c r e fit h =
    undo (forward_roots n) (inverse_roots n) len c r
      (are_inverse→AreInverse (forward_roots n) (inverse_roots n) e)
      (h ∙ sym fit ∙ ap (λ m. m * (2 * len)) (sym (length-roots forward_root up n (n - 1))))

pub pass-IsResidue : (n len : ℕ) (r : List ℕ) → All IsResidue r → All IsResidue (pass n len r)
pass-IsResidue n len =
    All-blocks IsResidue upper lower (λ z x y. omega arith) (λ z x y. omega arith) (forward_roots n)
      len

pub length-pass :
    (n len : ℕ) (r : List ℕ)
    → 128 / len ≡ n
    → Fits len
    → length r ≡ 256
    → length (pass n len r) ≡ 256
length-pass n len r e fit h =
    ap (λ m. length (blocks upper lower (roots forward_root up m (n - 1)) len r)) (sym e)
    ∙ length-layer upper lower forward_root up len (n - 1) r fit h

pub scale-one : (r : List ℕ) → All IsResidue r → map (scale 1) r ≡ r
scale-one [] h = refl
scale-one (x ∷ r) (hx, h) = ap₂ ◌∷◌ (omega arith) (scale-one r h)

pub scale-AtMost : (c : ℕ) (r : List ℕ) → All (AtMost q) (map (scale c) r)
scale-AtMost c [] = tt
scale-AtMost c (x ∷ r) = (omega arith, scale-AtMost c r)

-- 256 and ninv cancel.
ninv_value : ninv ≡ pos 8347681
unfolding ninv mod_pow
ninv_value = refl

pub unscale :
    (r : List ℕ)
    → All IsResidue r
    → map (λ c. rem (ninv *ℤ c) q) (map pos (map (scale 256) r)) ≡ map pos r
unscale [] h = refl
unscale (x ∷ r) (hx, h) =
    ap₂ ◌∷◌
      (ap (λ z. rem (z *ℤ pos (scale 256 x)) q) ninv_value
        ∙ ap (λ z. rem z q) (pos-mul 8347681 (scale 256 x))
        ∙ ap pos (omega arith))
      (unscale r h)
