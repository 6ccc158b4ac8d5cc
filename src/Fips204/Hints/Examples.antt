-- ===== src/Fips204/Hints/Examples.antt =====
-- Hints on which the theorems on their coding in mldsa_fips204.h are applied.
use bht_bhte.Prelude.{
  ℕ, zero, suc, ◌<◌, ◌≡◌, refl, Bool, true, false, List, [], ◌∷◌, ◌++◌, some, replicate, All,
  All-append, arith,
}
use bht_bhte.Fips204.Hints.{hint_pack, hint_unpack}
use bht_bhte.Fips204.Hints.Packed.{as_hint}
use bht_bhte.Fips204.Hints.RoundTrip.{hint_unpack-hint_pack}
use bht_bhte.Fips204.Hints.Flags.{IsByte}
use bht_bhte.Fips204.Hints.Canonical.{hint_pack-hint_unpack}

replicate-IsByte : (n b : ℕ) → b < 256 → All IsByte (replicate n b)
replicate-IsByte zero b h = tt
replicate-IsByte (suc n) b h = (h, replicate-IsByte n b h)

-- Two rows: a one at the first place, ones at the first two.
abbrev hint_rows : List (List Bool)
hint_rows = (true ∷ replicate 255 false) ∷ (true ∷ true ∷ replicate 254 false) ∷ []

hint_unpack-hint_pack_example :
    hint_unpack (hint_pack (as_hint hint_rows) 80 2) 80 2 ≡ some (as_hint hint_rows)
hint_unpack-hint_pack_example =
    hint_unpack-hint_pack hint_rows 80 (omega arith) (refl, (refl, tt)) (omega arith)

-- The bytes of these rows.
abbrev hint_bytes : List ℕ
hint_bytes = (0 ∷ 0 ∷ 1 ∷ replicate 77 0) ++ (1 ∷ 3 ∷ [])

test_hint_bytes : hint_unpack hint_bytes 80 2 ≡ some (as_hint hint_rows)
unfolding hint_unpack
test_hint_bytes = refl

hint_pack-hint_unpack_example : hint_pack (as_hint hint_rows) 80 2 ≡ hint_bytes
hint_pack-hint_unpack_example =
    hint_pack-hint_unpack hint_bytes 80 2 (as_hint hint_rows) (omega arith) refl
      (All-append IsByte (0 ∷ 0 ∷ 1 ∷ replicate 77 0) (1 ∷ 3 ∷ [])
        (omega arith, (omega arith, (omega arith, replicate-IsByte 77 0 (omega arith))))
        (omega arith, (omega arith, tt)))
      test_hint_bytes
