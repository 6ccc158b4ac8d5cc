-- ===== src/Withdrawal/Escape/Liveness.antt =====
-- When CheckLiveness of CEscapeHatchVerifier answers true.
use bht_bhte.Prelude.{ℕ, ◌+◌, ◌^◌, ◌≤◌, ◌<◌, ◌≡◌, ◌↔◌, ◌⊎◌, true, arith}
use bht_bhte.Withdrawal.Escape.{EscapeHatch, check_liveness}

-- For two times below 2 ^ 64, CheckLiveness answers true exactly when the last anchor is at most
-- 24 hours old, or lies so far ahead that the difference wraps to at most 24 hours.
pub check_liveness_iff :
    (v : EscapeHatch) (now : ℕ)
    → now < 2 ^ 64
    → v.last_anchor_time < 2 ^ 64
    → (check_liveness v now ≡ true) ↔ (
        ((v.last_anchor_time ≤ now) × (now ≤ v.last_anchor_time + 86400))
        ⊎ (now + 2 ^ 64 ≤ v.last_anchor_time + 86400))
unfolding check_liveness
check_liveness_iff v now h k = ground arith
