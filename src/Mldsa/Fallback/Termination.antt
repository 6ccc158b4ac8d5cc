-- ===== src/Mldsa/Fallback/Termination.antt =====
-- The loop of shake256_fallback over its input (BHC/src/crypto/mldsa.cpp), and the methods of
-- CMLDSA that call it.
use bht_bhte.Prelude.{
  ℕ, zero, suc, ◌+◌, ◌/◌, ◌*◌, ◌≤◌, ◌≡◌, refl, true, ◌||◌, none, some, List, [], ◌∷◌, ◌++◌,
  replicate, length, length-append, length-map, ltb, leb, ◌==◌, range, map, min, ◌-◌, arith,
  Bool-cases, length-range, inl, inr, ltb→ge,
}
use bht_bhte.Fips204.Shake.{state_byte}
use bht_bhte.HybridSig.{signature_size}
use bht_bhte.Mldsa.{PublicKey, Signature}
use bht_bhte.Mldsa.Fallback.{
  absorb, squeeze, permute, shake256_fallback, Fallback, generate_key_pair_internal, fallback_sign,
  fallback_sign_internal, fallback_verify_internal, fallback_mldsa_verify,
}

-- A turn with input left takes a whole block or all of it.
full_block : (n : ℕ) → (min 136 (n - 0) == 136 || leb n (0 + min 136 (n - 0))) ≡ true
full_block n = ground arith

input_left : (n : ℕ) → ltb 0 (suc n) ≡ true
input_left n = ground arith

-- A turn that takes a whole block, or the rest of the input, starts over at the index 0.
absorb_restarts : (fuel b : ℕ) (bs st : List ℕ) → absorb fuel (b ∷ bs) 0 st ≡ none
unfolding absorb
absorb_restarts zero b bs st = refl
absorb_restarts (suc fuel) b bs st =
    rw (input_left (length bs), full_block (length (b ∷ bs))) (absorb_restarts fuel b bs _)

pub length-squeeze :
    (n blocks : ℕ) (st : List ℕ) → n ≤ blocks * 136 → length (squeeze blocks n st) ≡ n
unfolding squeeze
length-squeeze n zero st h = omega arith
length-squeeze n (suc blocks) st h =
    let rest = length-squeeze (n - 136) blocks (permute st) (omega arith) in
    elim (Bool-cases (ltb 0 n)) [
      | inl more ↦
          rw
            (
              more,
              length-append (map (state_byte st) (range 0 (min 136 n)))
                  (squeeze blocks (n - 136) (permute st)),
              length-map (range 0 (min 136 n)) (state_byte st),
              length-range 0 (min 136 n),
              rest,
            )
            (omega arith)
      | inr done ↦ rw done (omega (arith, ltb→ge 0 n done))
    ]

pub shake256_fallback_returns :
    (output_len : ℕ)
    → ((fuel b : ℕ) (bs : List ℕ) → shake256_fallback fuel (b ∷ bs) output_len ≡ none)
      × ((fuel : ℕ)
          → (output : List ℕ) × (shake256_fallback (suc fuel) [] output_len ≡ some output)
            × (length output ≡ output_len))
unfolding shake256_fallback
shake256_fallback_returns n = (
  λ fuel b bs. rw (absorb_restarts fuel b bs (replicate 25 0)) refl,
  λ fuel. (_, refl, length-squeeze n (n / 136 + 1) _ (omega arith)),
)

-- A secret key and a public key are never empty.
pub fallback_never_returns :
    (fuel seed_byte sk_byte pk_byte : ℕ) (seed sk pk message context : List ℕ)
    (signature : Signature) (s : Fallback) (public_key : PublicKey)
    → s.secret_key.bytes ≡ sk_byte ∷ sk
    → public_key.bytes ≡ pk_byte ∷ pk
    → (generate_key_pair_internal fuel (seed_byte ∷ seed) s ≡ none)
      × (fallback_sign fuel (seed_byte ∷ seed) message context s ≡ none)
      × (fallback_mldsa_verify fuel message signature public_key context ≡ none)
unfolding generate_key_pair_internal fallback_sign fallback_sign_internal fallback_mldsa_verify
    fallback_verify_internal
fallback_never_returns fuel seed_byte sk_byte pk_byte seed sk pk message context signature s
      public_key h k =
    let hangs : (b : ℕ) (bs : List ℕ) (n : ℕ) → shake256_fallback fuel (b ∷ bs) n ≡ none =
      λ b bs n. (shake256_fallback_returns n).0 fuel b bs in
    let drawn = hangs seed_byte seed (length s.secret_key.bytes) in
    (
      rw drawn refl,
      elim (Bool-cases s.has_key) [
        | inl has ↦
            rw (has, h, hangs sk_byte (sk ++ (message ++ context)) (signature_size s.level)) refl
        | inr lacks ↦ rw (lacks, drawn) refl
      ],
      rw (k, hangs pk_byte (pk ++ (message ++ context)) (signature_size public_key.level)) refl,
    )
