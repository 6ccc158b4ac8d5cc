-- ===== src/Signer/Examples.antt =====
-- Signers over a hash that is constant, and the theorems at them.
use bht_bhte.Prelude.{
  ℕ, ◌≡◌, ◌↔◌, refl, Bool, true, false, none, some, List, [], ◌∷◌, ◌++◌, length, replicate, arith,
  length-replicate,
}
use bht_bhte.HybridSig.{level2, level3}
use bht_bhte.Signer.{Openssl, Signer, new_signer, generate_key_pair, sign, verify}
use bht_bhte.Signer.Hybrid.{HybridSigner, hybrid_signer, verify_hybrid}
use bht_bhte.Signer.Accepts.{IsSha, IsUsable, verify_iff, verify-sign, verify_hybrid_short}

-- No curve signature is ever accepted.
abbrev env : Openssl
env = record {
  sha256 = λ bytes. replicate 32 5;
  rand_bytes = λ entropy n. some (replicate n entropy);
  ec_public = λ key. some (replicate 33 2);
  ecdsa_do_sign = λ hash key. none;
  ecdsa_do_verify = λ point hash r s. false;
}

env-IsSha : IsSha env
unfolding IsSha
env-IsSha bytes = length-replicate {A = ℕ} 32 5

usable : IsUsable none
unfolding IsUsable
usable = tt

abbrev made : Bool × Signer
made = generate_key_pair env 7 (new_signer level2 none)

made_succeeds : made ≡ (true, made.1)
unfolding generate_key_pair new_signer
made_succeeds = refl

verify-sign_example : verify env (1 ∷ 2 ∷ []) (sign env (1 ∷ 2 ∷ []) made.1) made.1 ≡ true
verify-sign_example =
    verify-sign env env-IsSha none usable level2 7 (1 ∷ 2 ∷ []) made.1 made_succeeds

abbrev plain : Signer
plain = record {
  level = level3;
  sig = none;
  public_key = 8 ∷ 9 ∷ [];
  private_key = 3 ∷ [];
  has_key = true;
}

verify_iff_example : (verify env (1 ∷ []) (replicate 32 0 ++ (8 ∷ 9 ∷ [])) plain ≡ true) ↔ (
    (first : List ℕ) × (length first ≡ 32)
    × (replicate 32 0 ++ (8 ∷ 9 ∷ []) ≡ first ++ (8 ∷ 9 ∷ [])))
verify_iff_example =
    verify_iff env (1 ∷ []) (replicate 32 0 ++ (8 ∷ 9 ∷ [])) plain refl 8 (9 ∷ []) refl

-- A signature that nobody made, for another message than any that was signed.
test_forged : verify env (4 ∷ 4 ∷ []) (replicate 32 0 ++ (8 ∷ 9 ∷ [])) plain ≡ true
unfolding verify
test_forged = refl

abbrev both : HybridSigner
both = record (hybrid_signer plain) {
  has_ecdsa_key = true;
  has_mldsa_key = true;
  ecdsa_public = replicate 33 2;
}

verify_hybrid_short_example : verify_hybrid env (1 ∷ []) [] true both ≡ true
verify_hybrid_short_example = verify_hybrid_short env (1 ∷ []) [] true both (omega arith)
