-- ===== src/Signer/Accepts.antt =====
-- Which signatures the signers of BHTWalletPro/src/crypto/mldsa_signer.cpp accept.
use bht_bhte.Prelude.{
  ℕ, ◌+◌, ◌<◌, ◌≡◌, ◌≢◌, ◌↔◌, refl, sym, ap, ◌∙◌, subst, Bool, true, false, ◌&&◌, Option, none,
  some, List, [], ◌∷◌, ◌++◌, inl, inr, ltb, leb, length, take, drop, replicate, write_over-same,
  bytes_eq, bytes_eq_refl, bytes_eq→eq, take-append-drop, length-take, length-append,
  length-replicate, drop-length-append, Bool-cases, ltb→ge, arith, if◌then◌else◌, Option-cases,
}
use bht_bhte.HybridSig.{Level, level2, level3, level5, signature_size}
use bht_bhte.Mldsa.{secret_key_size}
use bht_bhte.Signer.{Scheme, Openssl, Signer, new_signer, generate_key_pair, sign, verify, is_empty}
use bht_bhte.Signer.Hybrid.{HybridSigner, verify_hybrid, mldsa_part, ecdsa_part}

long_enough : (xs ys : List ℕ) → length xs ≡ 32 → ltb (length (xs ++ ys)) 32 ≡ false
long_enough xs ys h = ground (arith, length-append xs ys)

tail_after : (xs ys : List ℕ) → length xs ≡ 32 → drop 32 (xs ++ ys) ≡ ys
tail_after xs ys h = ap (λ n. drop n (xs ++ ys)) (sym h) ∙ drop-length-append xs ys

-- The answer without liboqs, for a signer with a key.
verify-plain :
    (env : Openssl) (message signature : List ℕ) (s : Signer)
    → s.sig ≡ none
    → (k : ℕ) (ks : List ℕ) → s.public_key ≡ k ∷ ks
    → verify env message signature s
      ≡ (if ltb (length signature) 32 then false else bytes_eq (drop 32 signature) s.public_key)
unfolding verify
verify-plain env message [] s no_lib k ks h = refl
verify-plain env message (b ∷ bs) s no_lib k ks h = rw (no_lib, h) refl

-- Without liboqs, whoever knows the public key makes a signature for any message.
pub verify_iff :
    (env : Openssl) (message signature : List ℕ) (s : Signer)
    → s.sig ≡ none
    → (k : ℕ) (ks : List ℕ) → s.public_key ≡ k ∷ ks
    → (verify env message signature s ≡ true)
      ↔ ((first : List ℕ) × (length first ≡ 32) × (signature ≡ first ++ s.public_key))
verify_iff env message signature s no_lib k ks h =
    let answer = verify-plain env message signature s no_lib k ks h in
    (
      λ accepted. elim (Bool-cases (ltb (length signature) 32)) [
        | inl short ↦ absurd (cc (answer, accepted, short))
        | inr long ↦
            let same = bytes_eq→eq (drop 32 signature) s.public_key (
              sym (ap (λ t. if t then false else bytes_eq (drop 32 signature) s.public_key) long)
              ∙ sym answer
              ∙ accepted) in
            (
              take 32 signature,
              omega (arith, length-take 32 signature, ltb→ge (length signature) 32 long),
              sym (take-append-drop 32 signature) ∙ ap (◌++◌ (take 32 signature)) same,
            )
      ],
      λ (first, len, made).
          answer
          ∙ rw (made, long_enough first s.public_key len, tail_after first s.public_key len)
              (bytes_eq_refl s.public_key),
    )

-- What liboqs documents of a scheme: a made key has the scheme's lengths, which are not 0, and
-- signing under it succeeds with a signature that the check accepts.
unfoldable pub IsSchemeCorrect : Scheme → Type 0
IsSchemeCorrect scheme =
    (entropy : ℕ) (pk sk message : List ℕ)
    → scheme.sig_keypair entropy ≡ some (pk, sk)
    → (length pk ≡ scheme.length_public_key)
      × (length sk ≡ scheme.length_secret_key)
      × (is_empty pk ≡ false)
      × ((sig : List ℕ) × (scheme.sig_sign message sk ≡ some sig)
          × (is_empty sig ≡ false)
          × (scheme.sig_verify message sig pk ≡ true))

-- What OpenSSL documents: a SHA-256 hash has 32 bytes.
unfoldable pub IsSha : Openssl → Type 0
IsSha env = (bytes : List ℕ) → length (env.sha256 bytes) ≡ 32

unfoldable pub IsUsable : Option Scheme → Type 0
IsUsable none = Unit
IsUsable (some scheme) = IsSchemeCorrect scheme

not_made : (r : Bool × Signer) (s : Signer) → r.0 ≡ false → ◌≢◌ {A = Bool × Signer} r (true, s)
not_made r s no_key h = absurd (cc (no_key, ap (λ p. p.0) h))

filled : (xs ys : List ℕ) → length xs ≡ 32 → (k : ℕ) × (ks : List ℕ) × (xs ++ ys ≡ k ∷ ks)
filled [] ys h = absurd (omega (arith, h))
filled (x ∷ xs) ys h = (x, xs ++ ys, refl)

accepts_lib :
    (env : Openssl) (scheme : Scheme) (message sig : List ℕ) (s : Signer)
    → s.sig ≡ some scheme
    → s.has_key ≡ true
    → is_empty s.public_key ≡ false
    → scheme.sig_sign message s.private_key ≡ some sig
    → is_empty sig ≡ false
    → scheme.sig_verify message sig s.public_key ≡ true
    → verify env message (sign env message s) s ≡ true
unfolding sign verify
accepts_lib env scheme message sig s lib has key signs full accepts =
    let made : sign env message s ≡ sig = rw (has, lib, signs) refl in
    let answer : verify env message sig s ≡ true = rw (full, key, lib) accepts in
    ap (λ t. verify env message t s) made ∙ answer

accepts_plain :
    (env : Openssl)
    → IsSha env
    → (message : List ℕ) (s : Signer) → s.sig ≡ none
    → s.has_key ≡ true
    → (k : ℕ) (ks : List ℕ) → s.public_key ≡ k ∷ ks
    → verify env message (sign env message s) s ≡ true
unfolding IsSha sign
accepts_plain env sha message s no_lib has k ks h =
    (verify_iff env message (sign env message s) s no_lib k ks h).1
      (env.sha256 (env.sha256 message ++ s.private_key), sha _, rw (has, no_lib) refl)

pub verify-sign :
    (env : Openssl)
    → IsSha env
    → (sig : Option Scheme) → IsUsable sig
    → (level : Level) (entropy : ℕ) (message : List ℕ) (s : Signer)
    → generate_key_pair env entropy (new_signer level sig) ≡ (true, s)
    → verify env message (sign env message s) s ≡ true
unfolding IsSha IsUsable IsSchemeCorrect generate_key_pair new_signer
verify-sign env sha none ok level entropy message s =
    elim (Option-cases (env.rand_bytes entropy (secret_key_size level))) [
      | inl failed ↦ rw failed (λ h. absurd (not_made _ s refl h))
      | inr (bytes, drawn) ↦ rw drawn (λ h.
          let (k, ks, pk) = filled (env.sha256 bytes) _ (sha bytes) in
          subst (λ s'. verify env message (sign env message s') s' ≡ true) (ap (λ p. p.1) h)
            (accepts_plain env sha message _ refl refl k ks pk))
    ]
verify-sign env sha (some scheme) ok level entropy message s =
    elim (Option-cases (scheme.sig_keypair entropy)) [
      | inl failed ↦ rw failed (λ h. absurd (not_made _ s refl h))
      | inr ((pk, sk), drawn) ↦ rw drawn (λ h.
          let (pk_size, sk_size, pk_full, signed) = ok entropy pk sk message drawn in
          let (sig, signs, sig_full, accepts) = signed in
          let pk_same =
            write_over-same pk (replicate scheme.length_public_key 0)
              (pk_size ∙ sym (length-replicate scheme.length_public_key 0)) in
          let sk_same =
            write_over-same sk (replicate scheme.length_secret_key 0)
              (sk_size ∙ sym (length-replicate scheme.length_secret_key 0)) in
          subst (λ s'. verify env message (sign env message s') s' ≡ true) (ap (λ p. p.1) h)
            (accepts_lib env scheme message sig _ refl refl (rw pk_same pk_full) (rw sk_same signs)
              sig_full (rw pk_same accepts)))
    ]

size_above : (level : Level) (n : ℕ) → n < 64 → leb (signature_size level) n ≡ false
size_above level2 n h = ground arith
size_above level3 n h = ground arith
size_above level5 n h = ground arith

past_above : (offset n : ℕ) → n < 64 → leb (offset + 64) n ≡ false
past_above offset n h = ground arith

and_false : (a b : Bool) → (a && b && false) ≡ false
and_false true true = refl
and_false true false = refl
and_false false b = refl

and_false_last : (a : Bool) → (a && false) ≡ false
and_false_last true = refl
and_false_last false = refl

-- Both checks are left out for a signature below 64 bytes, the empty one included.
pub verify_hybrid_short :
    (env : Openssl) (message signature : List ℕ) (hybrid : Bool) (s : HybridSigner)
    → length signature < 64
    → verify_hybrid env message signature hybrid s ≡ true
unfolding verify_hybrid mldsa_part ecdsa_part
verify_hybrid_short env message signature hybrid s h =
    let offset = if hybrid && s.has_mldsa_key then signature_size s.signer.level else 0 in
    rw
      (
        size_above s.signer.level (length signature) h,
        and_false hybrid s.has_mldsa_key,
        past_above offset (length signature) h,
        and_false_last s.has_ecdsa_key,
      )
      refl
