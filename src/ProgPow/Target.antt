-- ===== src/ProgPow/Target.antt =====
-- The comparison of a hash with a target in BHC/src/crypto/progpow.cpp.
use bht_bhte.Prelude.{
  ℕ, suc, ◌+◌, ◌*◌, ◌^◌, ◌<◌, ◌≤◌, ◌≡◌, ◌↔◌, refl, sym, ap, ◌∙◌, subst, true, false, if◌then◌else◌,
  List, [], ◌∷◌, inl, inr, ltb, ltb→lt, ltb→ge, Bool-cases, length, All, map, arith, drop,
  length-drop, write_over, All-append, All-drop, length-append, drop-length-append, range, ◌%◌,
  get_or,
}
use bht_bhte.Prelude.Radix.{IsByte}
use mathlib.Core.Path.{ap₂}
use native.Mathlib.Nat.{suc-mul, pow-suc, pow-zero, mul-le-mul, le_refl, mod-lt}
use bht_bhte.ProgPow.Loop.{
  ProgPow, Generators, initialize, hash_bytes, hash_digest, hash, meets_target, proof_meets_target,
  verify, prog_pow_hash, check_prog_pow_proof,
}

-- The number that bytes stand for, the first one the highest.
abbrev pub be_value : List ℕ → ℕ
be_value [] = 0
be_value (b ∷ bs) = b * 256 ^ length bs + be_value bs

be_value-lt : (bs : List ℕ) → All IsByte bs → be_value bs < 256 ^ length bs
be_value-lt [] h = omega (arith, pow-zero 256)
be_value-lt (b ∷ bs) (h, hs) =
    let le : b ≤ 255 = omega arith in
    omega
      (arith, pow-suc 256 (length bs), be_value-lt bs hs, mul-le-mul le (le_refl (256 ^ length bs)))

-- A lower first byte decides.
first_lower :
    (x y : ℕ) (xs ys : List ℕ)
    → All IsByte xs
    → length xs ≡ length ys
    → x < y
    → be_value (x ∷ xs) < be_value (y ∷ ys)
first_lower x y xs ys hx len h =
    let le : suc x ≤ y = omega arith in
    let scaled : suc x * 256 ^ length xs ≤ y * 256 ^ length ys =
      subst (λ n. suc x * 256 ^ length xs ≤ y * 256 ^ n) len
        (mul-le-mul le (le_refl (256 ^ length xs))) in
    omega (arith, be_value-lt xs hx, scaled, suc-mul x (256 ^ length xs))

meets_target_iff :
    (output target : List ℕ)
    → All IsByte output
    → All IsByte target
    → length output ≡ length target
    → (meets_target output target ≡ true) ↔ (be_value output ≤ be_value target)
unfolding meets_target
meets_target_iff [] [] ho ht len = (λ h. omega arith, λ h. refl)
meets_target_iff [] (t ∷ target) ho ht len = absurd (omega (arith, len))
meets_target_iff (o ∷ output) [] ho ht len = absurd (omega (arith, len))
meets_target_iff (o ∷ output) (t ∷ target) (ho, hos) (ht, hts) len =
    let len' : length output ≡ length target = omega (arith, len) in
    elim (Bool-cases (ltb o t)) [
      | inl below ↦ rw below (
          let le : be_value (o ∷ output) ≤ be_value (t ∷ target) =
            omega (arith, first_lower o t output target hos len' (ltb→lt o t below)) in
          (λ h. le, λ h. refl))
      | inr not_below ↦ elim (Bool-cases (ltb t o)) [
        | inl above ↦
            rw (not_below, above)
              (let gt : be_value (t ∷ target) < be_value (o ∷ output) =
                  first_lower t o target output hts (sym len') (ltb→lt t o above) in
                (λ h. absurd (cc h), λ h. absurd (omega (arith, gt, h))))
        | inr not_above ↦
            rw (not_below, not_above)
              (let same : o ≡ t = omega (arith, ltb→ge o t not_below, ltb→ge t o not_above) in
                let rest = meets_target_iff output target hos hts len' in
                let heads : o * 256 ^ length output ≡ t * 256 ^ length target =
                  ap₂ (λ a n. a * 256 ^ n) same len' in
                (λ h. omega (arith, rest.0 h, heads), λ h. rest.1 (omega (arith, h, heads))))
      ]
    ]

-- The two loops answer alike.
meets_target-proof_meets_target :
    (output target : List ℕ) → meets_target output target ≡ proof_meets_target output target
unfolding meets_target proof_meets_target
meets_target-proof_meets_target [] target = refl
meets_target-proof_meets_target (o ∷ output) [] = refl
meets_target-proof_meets_target (o ∷ output) (t ∷ target) =
    ap (λ b. if ltb o t then true else if ltb t o then false else b)
      (meets_target-proof_meets_target output target)

low_bytes : (f : ℕ → ℕ) (xs : List ℕ) → All IsByte (map (λ i. f i % 256) xs)
low_bytes f [] = tt
low_bytes f (x ∷ xs) = (mod-lt (f x) (omega arith), low_bytes f xs)

-- An output of 32 bytes stays one.
hash_bytes-IsByte :
    (gen : Generators) (block_number : ℕ) (header_hash : List ℕ) (nonce : ℕ)
    → All IsByte (hash_bytes gen block_number header_hash nonce)
      × (length (hash_bytes gen block_number header_hash nonce) ≡ 8)
unfolding hash_bytes
hash_bytes-IsByte gen block_number header_hash nonce = (
  low_bytes (λ i. get_or (hash_digest gen block_number header_hash nonce) (4 * i + 3) 0)
      (range 0 8),
  refl,
)

write_over-IsByte :
    (first output : List ℕ)
    → All IsByte first
    → length first ≡ 8
    → All IsByte output
    → length output ≡ 32
    → All IsByte (write_over first output) × (length (write_over first output) ≡ 32)
write_over-IsByte first output hf lf ho lo = (
  All-append IsByte first (drop (length first) output) hf
      (All-drop IsByte (length first) output ho),
  omega
      (arith, length-append first (drop (length first) output), length-drop (length first) output),
)

-- Verify of an object and CheckProgPoWProof agree, and both compare numbers; 24 of the hash's 32
-- bytes are those that the local array held.
pub check_prog_pow_proof_iff :
    (gen : Generators) (p : ProgPow) (header_hash target output : List ℕ) (nonce : ℕ)
    → All IsByte target
    → length target ≡ 32
    → All IsByte output
    → length output ≡ 32
    → (verify gen p header_hash nonce target output
        ≡ check_prog_pow_proof gen header_hash nonce p.block_number target output)
      × ((check_prog_pow_proof gen header_hash nonce p.block_number target output ≡ true) ↔ (
          be_value (prog_pow_hash gen header_hash nonce p.block_number output) ≤ be_value target))
      × (drop 8 (prog_pow_hash gen header_hash nonce p.block_number output) ≡ drop 8 output)
unfolding verify check_prog_pow_proof prog_pow_hash hash initialize
check_prog_pow_proof_iff gen p header_hash target output nonce ht lt ho lo =
    let first = hash_bytes gen p.block_number header_hash nonce in
    let made = hash_bytes-IsByte gen p.block_number header_hash nonce in
    let whole = write_over-IsByte first output made.0 made.1 ho lo in
    let alike = meets_target-proof_meets_target (write_over first output) target in
    (
      alike,
      subst (λ b. (b ≡ true) ↔ (be_value (write_over first output) ≤ be_value target)) alike
          (meets_target_iff (write_over first output) target whole.0 ht (whole.1 ∙ sym lt)),
      ap (λ n. drop n (write_over first output)) (sym made.1)
          ∙ drop-length-append first (drop (length first) output)
          ∙ ap (λ n. drop n output) made.1,
    )
