-- ===== src/Fips204/Ntt/Inverse.antt =====
-- nttInverse undoes nttForward, of mldsa_fips204.h.
use bht_bhte.Prelude.{
  ℕ, ◌≡◌, refl, sym, ap, ◌∙◌, List, [], ◌∷◌, map, foldl, length, length-map, All, arith,
}
use bht_bhte.Prelude.Int.{pos, ◌*ℤ◌, rem}
use bht_bhte.Fips204.Field.{q}
use bht_bhte.Fips204.Ntt.{ninv, inverse_block, block_starts, ntt_forward, ntt_inverse}
use bht_bhte.Fips204.Ntt.Butterfly.{scale}
use bht_bhte.Fips204.Ntt.Passes.{inverse_layer, Fits, as_poly, forward_layers, inverse_layers}
use bht_bhte.Fips204.Ntt.Pairs.{
  IsResidue, pass, transform, pass_undone, pass-IsResidue, length-pass, scale-one, scale-AtMost,
  unscale, inverse_1, inverse_2, inverse_4, inverse_8, inverse_16, inverse_32, inverse_64,
  inverse_128,
}

module _ (r : List ℕ) (size : length r ≡ 256) (residues : All IsResidue r) where
  after_1 : List ℕ
  after_1 = pass 1 128 r

  length-after_1 : length after_1 ≡ 256
  unfolding after_1
  length-after_1 = length-pass 1 128 r refl refl size

  after_1-IsResidue : All IsResidue after_1
  unfolding after_1
  after_1-IsResidue = pass-IsResidue 1 128 r residues

  after_2 : List ℕ
  after_2 = pass 2 64 after_1

  length-after_2 : length after_2 ≡ 256
  unfolding after_2
  length-after_2 = length-pass 2 64 after_1 refl refl length-after_1

  after_2-IsResidue : All IsResidue after_2
  unfolding after_2
  after_2-IsResidue = pass-IsResidue 2 64 after_1 after_1-IsResidue

  after_4 : List ℕ
  after_4 = pass 4 32 after_2

  length-after_4 : length after_4 ≡ 256
  unfolding after_4
  length-after_4 = length-pass 4 32 after_2 refl refl length-after_2

  after_4-IsResidue : All IsResidue after_4
  unfolding after_4
  after_4-IsResidue = pass-IsResidue 4 32 after_2 after_2-IsResidue

  after_8 : List ℕ
  after_8 = pass 8 16 after_4

  length-after_8 : length after_8 ≡ 256
  unfolding after_8
  length-after_8 = length-pass 8 16 after_4 refl refl length-after_4

  after_8-IsResidue : All IsResidue after_8
  unfolding after_8
  after_8-IsResidue = pass-IsResidue 8 16 after_4 after_4-IsResidue

  after_16 : List ℕ
  after_16 = pass 16 8 after_8

  length-after_16 : length after_16 ≡ 256
  unfolding after_16
  length-after_16 = length-pass 16 8 after_8 refl refl length-after_8

  after_16-IsResidue : All IsResidue after_16
  unfolding after_16
  after_16-IsResidue = pass-IsResidue 16 8 after_8 after_8-IsResidue

  after_32 : List ℕ
  after_32 = pass 32 4 after_16

  length-after_32 : length after_32 ≡ 256
  unfolding after_32
  length-after_32 = length-pass 32 4 after_16 refl refl length-after_16

  after_32-IsResidue : All IsResidue after_32
  unfolding after_32
  after_32-IsResidue = pass-IsResidue 32 4 after_16 after_16-IsResidue

  after_64 : List ℕ
  after_64 = pass 64 2 after_32

  length-after_64 : length after_64 ≡ 256
  unfolding after_64
  length-after_64 = length-pass 64 2 after_32 refl refl length-after_32

  after_64-IsResidue : All IsResidue after_64
  unfolding after_64
  after_64-IsResidue = pass-IsResidue 64 2 after_32 after_32-IsResidue

  after_128 : List ℕ
  after_128 = pass 128 1 after_64

  length-after_128 : length after_128 ≡ 256
  unfolding after_128
  length-after_128 = length-pass 128 1 after_64 refl refl length-after_64

  after_128-IsResidue : All IsResidue after_128
  unfolding after_128
  after_128-IsResidue = pass-IsResidue 128 1 after_64 after_64-IsResidue

  All-fit : All Fits (128 ∷ 64 ∷ 32 ∷ 16 ∷ 8 ∷ 4 ∷ 2 ∷ 1 ∷ [])
  All-fit = (refl, (refl, (refl, (refl, (refl, (refl, (refl, (refl, tt))))))))

  forward_passes : ntt_forward (map pos r) ≡ map pos after_128
  unfolding ntt_forward after_1 after_2 after_4 after_8 after_16 after_32 after_64 after_128
  forward_passes =
      ap (λ s. s.1) (forward_layers (128 ∷ 64 ∷ 32 ∷ 16 ∷ 8 ∷ 4 ∷ 2 ∷ 1 ∷ []) 0 r All-fit size)

  back_128 :
      foldl inverse_layer (256, map (scale 1) after_128) (1 ∷ 2 ∷ 4 ∷ 8 ∷ 16 ∷ 32 ∷ 64 ∷ 128 ∷ [])
      ≡ foldl inverse_layer (128, map (scale 2) after_64) (2 ∷ 4 ∷ 8 ∷ 16 ∷ 32 ∷ 64 ∷ 128 ∷ [])
  unfolding after_128
  back_128 =
      ap (λ l. foldl inverse_layer (128, l) (2 ∷ 4 ∷ 8 ∷ 16 ∷ 32 ∷ 64 ∷ 128 ∷ []))
        (pass_undone 128 1 1 after_64 inverse_128 refl length-after_64)

  back_64 :
      foldl inverse_layer (128, map (scale 2) after_64) (2 ∷ 4 ∷ 8 ∷ 16 ∷ 32 ∷ 64 ∷ 128 ∷ [])
      ≡ foldl inverse_layer (64, map (scale 4) after_32) (4 ∷ 8 ∷ 16 ∷ 32 ∷ 64 ∷ 128 ∷ [])
  unfolding after_64
  back_64 =
      ap (λ l. foldl inverse_layer (64, l) (4 ∷ 8 ∷ 16 ∷ 32 ∷ 64 ∷ 128 ∷ []))
        (pass_undone 64 2 2 after_32 inverse_64 refl length-after_32)

  back_32 :
      foldl inverse_layer (64, map (scale 4) after_32) (4 ∷ 8 ∷ 16 ∷ 32 ∷ 64 ∷ 128 ∷ [])
      ≡ foldl inverse_layer (32, map (scale 8) after_16) (8 ∷ 16 ∷ 32 ∷ 64 ∷ 128 ∷ [])
  unfolding after_32
  back_32 =
      ap (λ l. foldl inverse_layer (32, l) (8 ∷ 16 ∷ 32 ∷ 64 ∷ 128 ∷ []))
        (pass_undone 32 4 4 after_16 inverse_32 refl length-after_16)

  back_16 :
      foldl inverse_layer (32, map (scale 8) after_16) (8 ∷ 16 ∷ 32 ∷ 64 ∷ 128 ∷ [])
      ≡ foldl inverse_layer (16, map (scale 16) after_8) (16 ∷ 32 ∷ 64 ∷ 128 ∷ [])
  unfolding after_16
  back_16 =
      ap (λ l. foldl inverse_layer (16, l) (16 ∷ 32 ∷ 64 ∷ 128 ∷ []))
        (pass_undone 16 8 8 after_8 inverse_16 refl length-after_8)

  back_8 :
      foldl inverse_layer (16, map (scale 16) after_8) (16 ∷ 32 ∷ 64 ∷ 128 ∷ [])
      ≡ foldl inverse_layer (8, map (scale 32) after_4) (32 ∷ 64 ∷ 128 ∷ [])
  unfolding after_8
  back_8 =
      ap (λ l. foldl inverse_layer (8, l) (32 ∷ 64 ∷ 128 ∷ []))
        (pass_undone 8 16 16 after_4 inverse_8 refl length-after_4)

  back_4 :
      foldl inverse_layer (8, map (scale 32) after_4) (32 ∷ 64 ∷ 128 ∷ [])
      ≡ foldl inverse_layer (4, map (scale 64) after_2) (64 ∷ 128 ∷ [])
  unfolding after_4
  back_4 =
      ap (λ l. foldl inverse_layer (4, l) (64 ∷ 128 ∷ []))
        (pass_undone 4 32 32 after_2 inverse_4 refl length-after_2)

  back_2 :
      foldl inverse_layer (4, map (scale 64) after_2) (64 ∷ 128 ∷ [])
      ≡ foldl inverse_layer (2, map (scale 128) after_1) (128 ∷ [])
  unfolding after_2
  back_2 =
      ap (λ l. foldl inverse_layer (2, l) (128 ∷ []))
        (pass_undone 2 64 64 after_1 inverse_2 refl length-after_1)

  back_1 :
      foldl inverse_layer (2, map (scale 128) after_1) (128 ∷ [])
      ≡ foldl inverse_layer (1, map (scale 256) r) ([])
  unfolding after_1
  back_1 = ap (λ l. foldl inverse_layer (1, l) ([])) (pass_undone 1 128 128 r inverse_1 refl size)

  inverse_passes :
      foldl inverse_layer (256, map (scale 1) after_128) (1 ∷ 2 ∷ 4 ∷ 8 ∷ 16 ∷ 32 ∷ 64 ∷ 128 ∷ [])
      ≡ (1, map (scale 256) r)
  inverse_passes = back_128 ∙ back_64 ∙ back_32 ∙ back_16 ∙ back_8 ∙ back_4 ∙ back_2 ∙ back_1

  back_again : ntt_inverse (map pos after_128) ≡ map pos r
  unfolding ntt_inverse
  back_again =
      let lens = 1 ∷ 2 ∷ 4 ∷ 8 ∷ 16 ∷ 32 ∷ 64 ∷ 128 ∷ [] in
      ap (λ s. map (λ c. rem (ninv *ℤ c) q) s.1)
        (ap
            (λ l.
              foldl (λ s len. foldl (inverse_block len) s (block_starts len)) (256, map pos l) lens)
            (sym (scale-one after_128 after_128-IsResidue))
          ∙ inverse_layers lens 256 (map (scale 1) after_128) (omega arith)
              (refl, (refl, (refl, (refl, (refl, (refl, (refl, (refl, tt))))))))
              (scale-AtMost 1 after_128) (length-map after_128 (scale 1) ∙ length-after_128)
          ∙ ap as_poly inverse_passes)
      ∙ unscale r residues

pub forward_transform :
    (r : List ℕ)
    → length r ≡ 256
    → All IsResidue r
    → ntt_forward (map pos r) ≡ map pos (transform r)
unfolding transform after_1 after_2 after_4 after_8 after_16 after_32 after_64 after_128
forward_transform r size residues = forward_passes r size residues

-- On every polynomial of 256 residues the inverse transform undoes the forward one.
pub ntt_inverse-ntt_forward :
    (r : List ℕ)
    → length r ≡ 256
    → All IsResidue r
    → ntt_inverse (ntt_forward (map pos r)) ≡ map pos r
ntt_inverse-ntt_forward r size residues =
    ap ntt_inverse (forward_passes r size residues) ∙ back_again r size residues
