-- ===== src/Withdrawal/ForcedExit.antt =====
-- CForcedExitVerifier of BHC/src/script/withdrawal_script.cpp. Its level is not read.
use bht_bhte.Prelude.{
  ℕ, Bool, true, false, not, ◌||◌, ◌≡◌, ◌↔◌, ◌≤◌, refl, ap, List, [], ◌∷◌, ◌++◌, Option, none, some,
  arith, ltb, ◌==◌, ==_iff, if◌then◌else◌, length, length-append, Bool-cases, inl, inr, ltb→ge,
}
use mathlib.Core.Path.{ap₂}
use bht_bhte.Withdrawal.Merkle.{is_empty}

pub record ForcedExit : Type 0 where
  pub escape_hatch_script : List ℕ

abbrev pub forced_exit : ForcedExit
forced_exit = record {
  escape_hatch_script =
      0x6A ∷ 0x4B ∷ 0x45 ∷ 0x52 ∷ 0x4E ∷ 0x45 ∷ 0x4C ∷ 0x5F ∷ 0x45 ∷ 0x53 ∷ 0x43 ∷ 0x41 ∷ 0x50
      ∷ 0x45 ∷ [];
}

-- The loop over the bytes of the template; the check of the sizes comes before it.
unfoldable pub agrees : List ℕ → List ℕ → Bool
agrees template [] = true
agrees [] (y ∷ ys) = true
agrees (x ∷ xs) (y ∷ ys) = if not (y == x) then false else agrees xs ys

unfoldable pub verify_forced_exit_script : ForcedExit → List ℕ → Bool
verify_forced_exit_script v exit_script =
    if ltb (length exit_script) (length v.escape_hatch_script)
    then false
    else agrees v.escape_hatch_script exit_script

-- "FORCED"
abbrev pub forced_prefix : List ℕ
forced_prefix = 0x46 ∷ 0x4F ∷ 0x52 ∷ 0x43 ∷ 0x45 ∷ 0x44 ∷ []

unfoldable pub generate_forced_exit_proof :
    (List ℕ → List ℕ) → List ℕ → List ℕ → List ℕ → Option (List ℕ)
generate_forced_exit_proof sha256 l2_state_proof fraud_evidence exit_recipient =
    if ltb (length l2_state_proof) 32
      || (is_empty fraud_evidence || not (length exit_recipient == 25))
    then none
    else some (sha256 (forced_prefix ++ (l2_state_proof ++ (fraud_evidence ++ exit_recipient))))

agrees_prefix :
    (template script : List ℕ)
    → length template ≤ length script
    → agrees template script ≡ true
    → (rest : List ℕ) × (script ≡ template ++ rest)
unfolding agrees
agrees_prefix [] script h e = (script, refl)
agrees_prefix (x ∷ xs) [] h e = absurd (omega arith)
agrees_prefix (x ∷ xs) (y ∷ ys) h e = elim (Bool-cases (y == x)) [
  | inl same ↦
      let (rest, tail) = agrees_prefix xs ys (omega arith) (ground arith) in
      (rest, ap₂ ◌∷◌ ((==_iff y x).0 same) tail)
  | inr differ ↦ absurd (ground arith)
]

agrees_append : (template rest : List ℕ) → agrees template (template ++ rest) ≡ true
unfolding agrees
agrees_append [] [] = refl
agrees_append [] (y ∷ ys) = refl
agrees_append (x ∷ xs) rest = rw ((==_iff x x).1 refl) (agrees_append xs rest)

-- VerifyForcedExitScript accepts exactly the scripts that begin with the template.
pub verify_forced_exit_script_iff :
    (v : ForcedExit) (script : List ℕ)
    → (verify_forced_exit_script v script ≡ true)
      ↔ ((rest : List ℕ) × (script ≡ v.escape_hatch_script ++ rest))
unfolding verify_forced_exit_script
verify_forced_exit_script_iff v script = (
  (λ e. elim (Bool-cases (ltb (length script) (length v.escape_hatch_script))) [
    | inl short ↦ absurd (ground arith)
    | inr long ↦
        agrees_prefix v.escape_hatch_script script
          (ltb→ge (length script) (length v.escape_hatch_script) long) (ground arith)
  ]),
  (λ (rest, e).
      let room : ltb (length script) (length v.escape_hatch_script) ≡ false =
        ground (arith, length-append v.escape_hatch_script rest, ap length e) in
      rw (room, e) (agrees_append v.escape_hatch_script rest)),
)
