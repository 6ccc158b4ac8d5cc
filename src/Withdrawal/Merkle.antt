-- ===== src/Withdrawal/Merkle.antt =====
-- verifyMerkleProof of BHC/src/script/withdrawal_script.cpp.
pub mod Tree
pub mod Complete
use bht_bhte.Prelude.{
  ℕ, zero, suc, ◌+◌, ◌/◌, ◌%◌, ◌^◌, Bool, true, false, not, ◌||◌, List, [], ◌∷◌, ◌++◌, Option, none,
  some, ◌==◌, if◌then◌else◌, length, bytes_eq,
}
use bht_bhte.Withdrawal.{MerkleProof}

unfoldable pub is_empty {ℓ} : {A : Type ℓ} → List A → Bool
is_empty [] = true
is_empty (x ∷ xs) = false

module _ (sha256 : List ℕ → List ℕ) where
  -- `combined`, by the bit of `path` at this sibling.
  unfoldable pub combine : ℕ → List ℕ → List ℕ → List ℕ
  combine bit current sibling = if bit == 0 then current ++ sibling else sibling ++ current

  -- The loop from sibling `i` on, over a path below 2 ^ 32; `none` is its `return false`. A shift by
  -- 32 or more has no meaning in C++; such a bit of the path is 0 here.
  unfoldable pub climb : ℕ → ℕ → List ℕ → List (List ℕ) → Option (List ℕ)
  unfolding combine
  climb path i current [] = some current
  climb path i current (s ∷ rest) =
      let next = climb path (i + 1) (sha256 (combine (path / 2 ^ i % 2) current s)) rest in
      if not (length s == 32) then none else next

  -- The path is a uint32_t.
  unfoldable pub verify_merkle_proof : MerkleProof → List ℕ → Bool
  unfolding is_empty climb
  verify_merkle_proof proof expected_root =
      if is_empty proof.siblings || not (length proof.leaf_hash == 32)
      then false
      else elim (climb (proof.path % 2 ^ 32) 0 proof.leaf_hash proof.siblings) [
        | none ↦ false
        | some current ↦ bytes_eq current expected_root
      ]
