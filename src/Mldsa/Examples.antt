-- ===== src/Mldsa/Examples.antt =====
-- Runs of the two halves of mldsa.cpp, and the theorems at concrete keys.
use bht_bhte.Prelude.{
  ℕ, suc, ◌≡◌, refl, true, none, some, List, [], ◌∷◌, length, replicate, length-replicate,
}
use bht_bhte.HybridSig.{level2, level3, signature_size}
use bht_bhte.Mldsa.{new_public_key, new_signature, Signature}
use bht_bhte.Mldsa.Oqs.{Liboqs, mldsa_sign_with, mldsa_verify_with}
use bht_bhte.Mldsa.Oqs.Correct.{IsCorrect, mldsa_verify_with-mldsa_sign_with}
use bht_bhte.Mldsa.Fallback.{
  Fallback, shake256_fallback, generate_key_pair_internal, fallback_sign, fallback_mldsa_verify,
}
use bht_bhte.Mldsa.Fallback.Seed.{fallback_seed}
use bht_bhte.Mldsa.Fallback.Termination.{shake256_fallback_returns, fallback_never_returns}

-- A scheme whose signatures are zeros and are all accepted.
abbrev lax : Liboqs
lax = record {
  sig_new = λ level. true;
  sig_keypair = λ level entropy. some (1 ∷ [], 2 ∷ []);
  sig_sign = λ level message sk. some (replicate (signature_size level) 0);
  sig_verify = λ level message sig pk. true;
}

lax-IsCorrect : IsCorrect lax
unfolding IsCorrect
lax-IsCorrect level entropy pk sk message h =
    (replicate (signature_size level) 0, refl, length-replicate (signature_size level) 0, refl)

mldsa_verify_with-mldsa_sign_with_example :
    (signature : Signature) × (mldsa_sign_with lax 0
        (7 ∷ [])
        (record { bytes = 2 ∷ []; level = level2 })
        (3 ∷ [])
      ≡ some signature)
    × (mldsa_verify_with lax (7 ∷ []) signature (record { bytes = 1 ∷ []; level = level2 }) (4 ∷ [])
        ≡ some true)
mldsa_verify_with-mldsa_sign_with_example =
    mldsa_verify_with-mldsa_sign_with lax lax-IsCorrect level2 refl 5 0 (1 ∷ []) (2 ∷ []) (7 ∷ [])
      (3 ∷ []) (4 ∷ []) refl

shake256_fallback_returns_example :
    ((fuel b : ℕ) (bs : List ℕ) → shake256_fallback fuel (b ∷ bs) 300 ≡ none)
    × ((fuel : ℕ)
        → (output : List ℕ) × (shake256_fallback (suc fuel) [] 300 ≡ some output)
          × (length output ≡ 300))
shake256_fallback_returns_example = shake256_fallback_returns 300

abbrev keyed : Fallback
keyed = record {
  level = level3;
  public_key = new_public_key level3;
  secret_key = record { bytes = 9 ∷ 8 ∷ []; level = level3 };
  has_key = true;
}

fallback_never_returns_example :
    (generate_key_pair_internal 50 (1 ∷ []) keyed ≡ none)
    × (fallback_sign 50 (1 ∷ []) (5 ∷ []) [] keyed ≡ none)
    × (fallback_mldsa_verify 50
          (5 ∷ [])
          (new_signature level3)
          (record { bytes = 4 ∷ 3 ∷ []; level = level3 })
          []
        ≡ none)
fallback_never_returns_example =
    fallback_never_returns 50 1 9 4 [] (8 ∷ []) (3 ∷ []) (5 ∷ []) [] (new_signature level3) keyed
      (record { bytes = 4 ∷ 3 ∷ []; level = level3 }) refl refl

-- The seed that is made of the clock and two addresses has 32 bytes.
test_seed_length : length (fallback_seed 1700000000 4096 8192) ≡ 32
unfolding fallback_seed
test_seed_length = refl
