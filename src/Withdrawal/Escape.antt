-- ===== src/Withdrawal/Escape.antt =====
-- CEscapeHatchVerifier and VerifyEscapeHatch of BHC/src/script/withdrawal_script.cpp.
pub mod History
pub mod Liveness
use bht_bhte.Prelude.{
  ℕ, ◌+◌, ◌-◌, ◌*◌, ◌%◌, ◌^◌, Bool, true, false, not, ◌&&◌, ◌||◌, List, [], ◌∷◌, ◌++◌, Option, none,
  some, ltb, ◌==◌, if◌then◌else◌, length, take, drop,
}
use bht_bhte.Prelude.Radix.{digits}
use bht_bhte.Withdrawal.{L2StateRoot}
use bht_bhte.Withdrawal.Parse.{or_bytes}

abbrev pub emergency_window_seconds : ℕ
emergency_window_seconds = 24 * 60 * 60

abbrev pub max_historical_roots : ℕ
max_historical_roots = 10000

pub record EscapeHatch : Type 0 where
  pub historical_roots : List L2StateRoot
  pub last_anchor_time : ℕ
  pub emergency_mode : Bool

abbrev pub escape_hatch : EscapeHatch
escape_hatch = record { historical_roots = []; last_anchor_time = 0; emergency_mode = false }

unfoldable pub record_anchor : EscapeHatch → L2StateRoot → EscapeHatch
record_anchor v root =
    let roots = v.historical_roots ++ root ∷ [] in
    record v {
      historical_roots = if ltb max_historical_roots (length roots) then drop 1 roots else roots;
      last_anchor_time = root.timestamp;
    }

-- The difference is one of uint64_t.
unfoldable pub check_liveness : EscapeHatch → ℕ → Bool
check_liveness v now =
    if ltb emergency_window_seconds ((now + 2 ^ 64 - v.last_anchor_time) % 2 ^ 64)
    then false
    else true

-- The loop of VerifyEscapeProof.
unfoldable pub is_anchored_at : ℕ → List L2StateRoot → Bool
is_anchored_at height [] = false
is_anchored_at height (root ∷ rest) =
    (root.block_height == height && root.confirmed) || is_anchored_at height rest

unfoldable pub verify_escape_proof : EscapeHatch → List ℕ → List ℕ → Bool
verify_escape_proof v l2_proof bhc_address =
    if ltb (length l2_proof) 64
    then false
    else if not (length bhc_address == 25)
    then false
    else is_anchored_at (or_bytes 64 0 0 (take 8 l2_proof)) v.historical_roots

-- The loop of VerifyEscapeHatch.
unfoldable pub is_historical_at : ℕ → List L2StateRoot → Bool
is_historical_at height [] = false
is_historical_at height (root ∷ rest) =
    (root.block_height == height && root.confirmed) || is_historical_at height rest

unfoldable pub verify_escape_hatch : List ℕ → List ℕ → ℕ → List L2StateRoot → Bool
verify_escape_hatch l2_proof bhc_recovery_address l2_block_number roots =
    if ltb (length l2_proof) 64
    then false
    else if not (length bhc_recovery_address == 25)
    then false
    else is_historical_at l2_block_number roots

unfoldable pub trigger_emergency_mode : EscapeHatch → EscapeHatch
trigger_emergency_mode v = record v { emergency_mode = true }

unfoldable pub is_emergency_mode : EscapeHatch → Bool
is_emergency_mode v = v.emergency_mode

unfoldable pub execute_emergency_withdrawal :
    (List ℕ → List ℕ) → EscapeHatch → List ℕ → List ℕ → ℕ → Option (List ℕ)
execute_emergency_withdrawal sha256 v l2_proof bhc_address amount =
    if not v.emergency_mode
    then none
    else if not (verify_escape_proof v l2_proof bhc_address)
    then none
    else some (sha256 (l2_proof ++ (bhc_address ++ digits 256 8 amount)))
