-- ===== src/Withdrawal/Merkle/Complete.antt =====
-- The proof of a leaf of a Merkle tree, made from its neighbours on the way up.
use mathlib.Core.Path.{ap₂}
use bht_bhte.Prelude.{
  ℕ, zero, suc, ◌+◌, ◌-◌, ◌*◌, ◌/◌, ◌%◌, ◌^◌, ◌<◌, ◌≤◌, ◌≡◌, inl, inr, refl, sym, ap, ◌∙◌, subst,
  true, List, [], ◌∷◌, ◌++◌, some, arith, ◌==◌, if◌then◌else◌, length, get_or, All, bytes_eq_refl,
  ==_iff,
}
use bht_bhte.Withdrawal.Merkle.{combine, climb, verify_merkle_proof, is_empty}
use bht_bhte.Withdrawal.Merkle.Tree.{
  IsHash, parents, merkle_root, length-parents, parents-IsHash, halve, bit_cases,
}
use native.Mathlib.Nat.{pow-suc, pow-zero, div-one, mod-eq_of_lt, pow-le-pow_right}

abbrev sibling : ℕ → ℕ
sibling p = if p % 2 == 0 then p + 1 else p - 1

-- A position in a tree of at most 2 ^ 32 leaves is a uint32_t.
path_fits : (n path : ℕ) → suc n ≤ 32 → path < 2 ^ suc n → path % 2 ^ 32 ≡ path
path_fits n path small h =
    let le : 2 ^ suc n ≤ 2 ^ 32 = pow-le-pow_right (let e : 0 < 2 = omega arith in e) small in
    mod-eq_of_lt (omega (arith, le, h))

IsHash-get_or :
    (xs : List (List ℕ)) (k : ℕ) → k < length xs → All IsHash xs → IsHash (get_or xs k [])
IsHash-get_or [] k h a = absurd (omega arith)
IsHash-get_or (x ∷ xs) zero h (a, rest) = a
IsHash-get_or (x ∷ xs) (suc k) h (a, rest) = IsHash-get_or xs k (omega arith) rest

module _ (sha256 : List ℕ → List ℕ) (hash_size : (x : List ℕ) → length (sha256 x) ≡ 32) where
  -- The neighbours on the way up from leaf p.
  pub siblings_of : ℕ → List (List ℕ) → ℕ → List (List ℕ)
  siblings_of zero leaves p = []
  siblings_of (suc n) leaves p =
      get_or leaves (sibling p) [] ∷ siblings_of n (parents sha256 leaves) (p / 2)

  get_or-parents :
      (xs : List (List ℕ)) (k : ℕ)
      → 2 * k + 1 < length xs
      → get_or (parents sha256 xs) k [] ≡ sha256 (get_or xs (2 * k) [] ++ get_or xs (2 * k + 1) [])
  unfolding parents
  get_or-parents [] k h = absurd (omega arith)
  get_or-parents (a ∷ []) k h = absurd (omega arith)
  get_or-parents (a ∷ (b ∷ rest)) zero h = refl
  get_or-parents (a ∷ (b ∷ rest)) (suc k) h =
      let even : 2 * suc k ≡ suc (suc (2 * k)) = omega arith in
      let odd : 2 * suc k + 1 ≡ suc (suc (2 * k + 1)) = omega arith in
      get_or-parents rest k (omega arith)
      ∙ sym (
          ap₂ (λ (s t : ℕ). sha256 (get_or (a ∷ (b ∷ rest)) s [] ++ get_or (a ∷ (b ∷ rest)) t []))
            even odd)

  combine_pair :
      (xs : List (List ℕ)) (p : ℕ)
      → combine sha256 (p % 2) (get_or xs p []) (get_or xs (sibling p) [])
        ≡ get_or xs (2 * (p / 2)) [] ++ get_or xs (2 * (p / 2) + 1) []
  unfolding combine
  combine_pair xs p = elim (bit_cases p) [
    | inl e ↦ rw e (ap₂ (λ (s t : ℕ). get_or xs s [] ++ get_or xs t []) (omega arith) (omega arith))
    | inr e ↦ rw e (ap₂ (λ (s t : ℕ). get_or xs s [] ++ get_or xs t []) (omega arith) (omega arith))
  ]

  sibling-lt : (p m : ℕ) → p < m * 2 → sibling p < m * 2
  sibling-lt p m h = ground arith

  climb_complete :
      (n path i : ℕ) (xs : List (List ℕ))
      → path / 2 ^ i < 2 ^ n
      → length xs ≡ 2 ^ n
      → All IsHash xs
      → climb sha256 path i (get_or xs (path / 2 ^ i) []) (siblings_of n xs (path / 2 ^ i))
        ≡ some (merkle_root sha256 n xs)
  unfolding climb merkle_root siblings_of
  climb_complete zero path i xs h hx a =
      ap (λ (t : ℕ). some (get_or xs t [])) (omega (arith, pow-zero 2))
  climb_complete (suc n) path i xs h hx a =
      let p = path / 2 ^ i in
      let lt : p < 2 ^ n * 2 = omega (arith, pow-suc 2 n) in
      let size : length xs ≡ 2 ^ n * 2 = hx ∙ pow-suc 2 n in
      let good =
        (==_iff (length (get_or xs (sibling p) [])) 32).1
          (IsHash-get_or xs (sibling p) (omega (arith, sibling-lt p (2 ^ n) lt)) a) in
      let up : sha256 (combine sha256 (p % 2) (get_or xs p []) (get_or xs (sibling p) []))
          ≡ get_or (parents sha256 xs) (p / 2) [] =
        ap sha256 (combine_pair xs p) ∙ sym (get_or-parents xs (p / 2) (omega arith)) in
      let half = sym (halve path i) in
      let above = parents sha256 xs in
      let rest =
        climb_complete n path (i + 1) above (subst (λ (t : ℕ). t < 2 ^ n) half (omega arith))
          (length-parents sha256 (2 ^ n) xs size) (parents-IsHash sha256 hash_size xs) in
      rw good (
        ap₂ (λ c j. climb sha256 path (i + 1) c (siblings_of n above j))
          (up ∙ ap (λ j. get_or above j []) half) half
        ∙ rest)

  -- In a tree of 2 ^ n leaves of 32 bytes, with n from 1 to 32, the proof made of a leaf, its position
  -- and its neighbours on the way up verifies against the root. The hash function gives 32 bytes.
  pub verify_merkle_proof_complete :
      (n path : ℕ) (leaves : List (List ℕ))
      → suc n ≤ 32
      → path < 2 ^ suc n
      → length leaves ≡ 2 ^ suc n
      → All IsHash leaves
      → verify_merkle_proof sha256
          (record {
            siblings = siblings_of (suc n) leaves path;
            path = path;
            leaf_hash = get_or leaves path [];
          })
          (merkle_root sha256 (suc n) leaves)
        ≡ true
  unfolding verify_merkle_proof siblings_of is_empty
  verify_merkle_proof_complete n path leaves small h hl a =
      let whole = div-one path in
      let up =
        climb_complete (suc n) path 0 leaves (subst (λ (t : ℕ). t < 2 ^ suc n) (sym whole) h) hl
          a in
      let up' : climb sha256 path 0 (get_or leaves path []) (siblings_of (suc n) leaves path)
          ≡ some (merkle_root sha256 (suc n) leaves) =
        subst
          (λ j.
            climb sha256 path 0 (get_or leaves j []) (siblings_of (suc n) leaves j)
            ≡ some (merkle_root sha256 (suc n) leaves))
          whole up in
      let low : climb sha256 (path % 2 ^ 32) 0 (get_or leaves path [])
            (siblings_of (suc n) leaves path)
          ≡ some (merkle_root sha256 (suc n) leaves) =
        ap (λ j. climb sha256 j 0 (get_or leaves path []) (siblings_of (suc n) leaves path))
          (path_fits n path small h)
        ∙ up' in
      let size =
        (==_iff (length (get_or leaves path [])) 32).1
          (IsHash-get_or leaves path (omega arith) a) in
      rw (size, low) (bytes_eq_refl (merkle_root sha256 (suc n) leaves))
