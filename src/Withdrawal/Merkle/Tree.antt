-- ===== src/Withdrawal/Merkle/Tree.antt =====
-- Merkle trees over 2 ^ n leaves, and what a proof says of them.
use bht_bhte.Prelude.{
  ℕ, zero, suc, ◌+◌, ◌*◌, ◌/◌, ◌%◌, ◌^◌, ◌≡◌, ◌≢◌, ◌⊎◌, inl, inr, refl, sym, ap, ◌∙◌, subst, true,
  false, List, [], ◌∷◌, ◌++◌, none, some, arith, ◌==◌, length, get_elem?, get_or, All, bytes_eq,
  bytes_eq_refl, bytes_eq→eq, Bool-cases, ==_iff, Option-cases, take-length-append,
  drop-length-append, take, drop,
}
use bht_bhte.Prelude.Bits.{mod_double, two-pow-pos, pow-add}
use mathlib.Core.Path.{ap₂}
use bht_bhte.Withdrawal.{MerkleProof}
use bht_bhte.Withdrawal.Merkle.{combine, climb, verify_merkle_proof}
use native.Mathlib.Nat.{pow-suc, pow-zero, mod-one, div-div-eq-div-mul, div-one}

abbrev pub IsHash : List ℕ → Type 0
IsHash h = length h ≡ 32

-- Two texts with one hash.
abbrev pub Collision : (List ℕ → List ℕ) → Type 0
Collision sha256 = (x : List ℕ) × (y : List ℕ) × (x ≢ y) × (sha256 x ≡ sha256 y)

module _ (sha256 : List ℕ → List ℕ) where
  -- The level above, and the root of 2 ^ n leaves.
  unfoldable pub parents : List (List ℕ) → List (List ℕ)
  parents (a ∷ (b ∷ rest)) = sha256 (a ++ b) ∷ parents rest
  parents (a ∷ []) = []
  parents [] = []

  unfoldable pub merkle_root : ℕ → List (List ℕ) → List ℕ
  unfolding parents
  merkle_root zero leaves = get_or leaves 0 []
  merkle_root (suc n) leaves = merkle_root n (parents leaves)

  get_elem?-parents :
      (xs : List (List ℕ)) (k : ℕ) (c : List ℕ)
      → get_elem? (parents xs) k ≡ some c
      → (a : List ℕ) × (b : List ℕ) × (get_elem? xs (2 * k) ≡ some a)
        × (get_elem? xs (2 * k + 1) ≡ some b)
        × (c ≡ sha256 (a ++ b))
  unfolding parents
  get_elem?-parents [] k c e = cc
  get_elem?-parents (a ∷ []) k c e = cc
  get_elem?-parents (a ∷ (b ∷ rest)) zero c e = (a, b, refl, refl, cc)
  get_elem?-parents (a ∷ (b ∷ rest)) (suc k) c e =
      let (x, y, ex, ey, ec) = get_elem?-parents rest k c e in
      (
        x,
        y,
        ap (get_elem? (a ∷ (b ∷ rest))) (let e : 2 * suc k ≡ suc (suc (2 * k)) = omega arith in e)
            ∙ ex,
        ap (get_elem? (a ∷ (b ∷ rest)))
              (let e : 2 * suc k + 1 ≡ suc (suc (2 * k + 1)) = omega arith in e)
            ∙ ey,
        ec,
      )

  pub length-parents : (m : ℕ) (xs : List (List ℕ)) → length xs ≡ m * 2 → length (parents xs) ≡ m
  unfolding parents
  length-parents zero [] h = refl
  length-parents zero (a ∷ xs) h = absurd (omega arith)
  length-parents (suc m) [] h = absurd (omega arith)
  length-parents (suc m) (a ∷ []) h = absurd (omega arith)
  length-parents (suc m) (a ∷ (b ∷ rest)) h = omega (arith, length-parents m rest (omega arith))

  module _ (hash_size : (x : List ℕ) → length (sha256 x) ≡ 32) where
    pub parents-IsHash : (xs : List (List ℕ)) → All IsHash (parents xs)
    unfolding parents
    parents-IsHash [] = tt
    parents-IsHash (a ∷ []) = tt
    parents-IsHash (a ∷ (b ∷ rest)) = (hash_size (a ++ b), parents-IsHash rest)

append-inj : (a b c d : List ℕ) → length a ≡ length c → a ++ b ≡ c ++ d → (a ≡ c) × (b ≡ d)
append-inj a b c d h e = (
  sym (take-length-append a b) ∙ ap₂ take h e ∙ take-length-append c d,
  sym (drop-length-append a b) ∙ ap₂ drop h e ∙ drop-length-append c d,
)

IsHash-get_elem? :
    (xs : List (List ℕ)) (k : ℕ) (a : List ℕ) → All IsHash xs → get_elem? xs k ≡ some a → IsHash a
IsHash-get_elem? [] k a h e = absurd (cc)
IsHash-get_elem? (x ∷ xs) zero a (h, hs) e = subst IsHash (let e' : x ≡ a = cc in e') h
IsHash-get_elem? (x ∷ xs) (suc k) a (h, hs) e = IsHash-get_elem? xs k a hs e

bytes_ne : (x y : List ℕ) → bytes_eq x y ≡ false → x ≢ y
bytes_ne x y h e = cc (bytes_eq_refl y, subst (λ t. bytes_eq t y ≡ false) e h)

pub bit_cases : (p : ℕ) → (p % 2 ≡ 0) ⊎ (p % 2 ≡ 1)
bit_cases p = omega arith

-- The position of a node from that of its parent.
position : (p n : ℕ) → p % 2 ^ suc n ≡ 2 * (p / 2 % 2 ^ n) + p % 2
position p n = rw (pow-suc 2 n) (mod_double p (2 ^ n) (two-pow-pos n) ∙ omega arith)

pub halve : (path i : ℕ) → path / 2 ^ (i + 1) ≡ path / 2 ^ i / 2
halve path i =
    sym (div-div-eq-div-mul path (2 ^ i) 2 ∙ ap (λ (t : ℕ). path / t) (sym (pow-add 2 i 1)))

-- Equal hashes of two pairs: the pairs agree, or they are a collision.
same_pair :
    (sha256 : List ℕ → List ℕ) (bit : ℕ) (cur s a b : List ℕ)
    → (bit ≡ 0) ⊎ (bit ≡ 1)
    → IsHash cur
    → IsHash s
    → IsHash a
    → sha256 (combine sha256 bit cur s) ≡ sha256 (a ++ b)
    → ((bit ≡ 0) × (cur ≡ a)) ⊎ (((bit ≡ 1) × (cur ≡ b)) ⊎ Collision sha256)
unfolding combine
same_pair sha256 bit cur s a b (inl e) hc hs ha h =
    elim (Bool-cases (bytes_eq (cur ++ s) (a ++ b))) [
      | inl eq ↦ inl (e, (append-inj cur s a b (hc ∙ sym ha) (bytes_eq→eq _ _ eq)).0)
      | inr ne ↦ inr (inr (cur ++ s, a ++ b, bytes_ne _ _ ne, rw e at h))
    ]
same_pair sha256 bit cur s a b (inr e) hc hs ha h =
    elim (Bool-cases (bytes_eq (s ++ cur) (a ++ b))) [
      | inl eq ↦ inr (inl (e, (append-inj s cur a b (hs ∙ sym ha) (bytes_eq→eq _ _ eq)).1))
      | inr ne ↦ inr (inr (s ++ cur, a ++ b, bytes_ne _ _ ne, rw e at h))
    ]

module _ (sha256 : List ℕ → List ℕ) (hash_size : (x : List ℕ) → length (sha256 x) ≡ 32) where
  at_child :
      (n p : ℕ) (cur s : List ℕ) (xs : List (List ℕ))
      → All IsHash xs
      → IsHash cur
      → IsHash s
      → get_elem? (parents sha256 xs) (p / 2 % 2 ^ n) ≡ some (sha256 (combine sha256 (p % 2) cur s))
      → (get_elem? xs (p % 2 ^ suc n) ≡ some cur) ⊎ Collision sha256
  at_child n p cur s xs h hc hs e =
      let k = p / 2 % 2 ^ n in
      let (a, b, ea, eb, ec) = get_elem?-parents sha256 xs k _ e in
      let here = position p n in
      elim (same_pair sha256 (p % 2) cur s a b (bit_cases p) hc hs
        (IsHash-get_elem? xs (2 * k) a h ea) ec) [
          | inl (zero_bit, same) ↦
              inl (ap (get_elem? xs) (omega (arith, here, zero_bit)) ∙ ea ∙ ap some (sym same))
          | inr (inl (one_bit, same)) ↦ inl (
              ap (get_elem? xs) (here ∙ ap (λ (t : ℕ). 2 * k + t) one_bit)
              ∙ eb
              ∙ ap some (sym same))
          | inr (inr c) ↦ inr c
        ]

  climb_sound :
      (n path i : ℕ) (cur : List ℕ) (ss xs : List (List ℕ))
      → length ss ≡ n
      → length xs ≡ 2 ^ n
      → All IsHash xs
      → IsHash cur
      → climb sha256 path i cur ss ≡ some (merkle_root sha256 n xs)
      → (get_elem? xs (path / 2 ^ i % 2 ^ n) ≡ some cur) ⊎ Collision sha256
  unfolding climb merkle_root
  climb_sound zero path i cur [] [] hn hx a hc e = absurd (omega (arith, pow-zero 2))
  climb_sound zero path i cur [] (x ∷ xs) hn hx a hc e =
      inl (
        ap (get_elem? (x ∷ xs)) (ap (λ (t : ℕ). path / 2 ^ i % t) (pow-zero 2) ∙ mod-one _) ∙ sym e)
  climb_sound zero path i cur (s ∷ ss) xs hn hx a hc e = absurd (omega arith)
  climb_sound (suc n) path i cur [] xs hn hx a hc e = absurd (omega arith)
  climb_sound (suc n) path i cur (s ∷ ss) xs hn hx a hc e = elim (Bool-cases (length s == 32)) [
    | inr bad ↦ absurd (let e' : none ≡ some _ = rw bad at e in cc)
    | inl good ↦
        let p = path / 2 ^ i in
        let up = sha256 (combine sha256 (p % 2) cur s) in
        let below =
          climb_sound n path (i + 1) up ss (parents sha256 xs) (omega arith)
            (length-parents sha256 (2 ^ n) xs (hx ∙ pow-suc 2 n))
            (parents-IsHash sha256 hash_size xs) (hash_size _) (rw good at e) in
        elim below [
          | inr c ↦ inr c
          | inl found ↦ at_child n p cur s xs a hc ((==_iff _ _).0 good) (
              subst (λ (t : ℕ). get_elem? (parents sha256 xs) (t % 2 ^ n) ≡ some up) (halve path i)
                found)
        ]
  ]

  verified :
      (proof : MerkleProof) (root : List ℕ)
      → verify_merkle_proof sha256 proof root ≡ true
      → IsHash proof.leaf_hash
        × (climb sha256 (proof.path % 2 ^ 32) 0 proof.leaf_hash proof.siblings ≡ some root)
  unfolding verify_merkle_proof
  verified proof root v =
      elim (Option-cases (climb sha256 (proof.path % 2 ^ 32) 0 proof.leaf_hash proof.siblings)) [
        | inl e ↦ absurd (ground arith)
        | inr (c, e) ↦ (ground arith, e ∙ ap some (bytes_eq→eq c root (ground arith)))
      ]

  -- If a proof with n siblings verifies against the root of a tree of 2 ^ n leaves of 32 bytes, its
  -- leaf stands in the tree at the position that the low n bits of its 32-bit path name, or the
  -- verification shows two texts with one hash. The hash function gives 32 bytes.
  pub verify_merkle_proof_sound :
      (n : ℕ) (proof : MerkleProof) (leaves : List (List ℕ))
      → length proof.siblings ≡ n
      → length leaves ≡ 2 ^ n
      → All IsHash leaves
      → verify_merkle_proof sha256 proof (merkle_root sha256 n leaves) ≡ true
      → (get_elem? leaves (proof.path % 2 ^ 32 % 2 ^ n) ≡ some proof.leaf_hash) ⊎ Collision sha256
  unfolding verify_merkle_proof
  verify_merkle_proof_sound n proof leaves hs hl a v =
      let (h, e) = verified proof _ v in
      subst (λ (t : ℕ). (get_elem? leaves (t % 2 ^ n) ≡ some proof.leaf_hash) ⊎ Collision sha256)
        (div-one (proof.path % 2 ^ 32))
        (climb_sound n (proof.path % 2 ^ 32) 0 proof.leaf_hash proof.siblings leaves hs hl a h e)
