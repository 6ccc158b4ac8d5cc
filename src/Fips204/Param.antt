-- ===== src/Fips204/Param.antt =====
-- The parameter sets of mldsa_fips204.h.
use bht_bhte.Prelude.{ℕ, ◌-◌, ◌*◌, ◌/◌, ◌^◌, ◌==◌, if◌then◌else◌}
use bht_bhte.Fips204.Field.{q}

pub record Param : Type 0 where
  pub k : ℕ
  pub l : ℕ
  pub eta : ℕ
  pub tau : ℕ
  pub omega_max : ℕ
  pub ct_bytes : ℕ
  pub beta : ℕ
  pub gamma1 : ℕ
  pub gamma2 : ℕ

-- 44, 87, and 65 for all else.
abbrev pub param_for : ℕ → Param
param_for level =
    if level == 44
    then record {
      k = 4;
      l = 4;
      eta = 2;
      tau = 39;
      omega_max = 80;
      ct_bytes = 32;
      beta = 39 * 2;
      gamma1 = 2 ^ 17;
      gamma2 = (q - 1) / 88;
    }
    else if level == 87
    then record {
      k = 8;
      l = 7;
      eta = 2;
      tau = 60;
      omega_max = 75;
      ct_bytes = 64;
      beta = 60 * 2;
      gamma1 = 2 ^ 19;
      gamma2 = (q - 1) / 32;
    }
    else record {
      k = 6;
      l = 5;
      eta = 4;
      tau = 49;
      omega_max = 55;
      ct_bytes = 48;
      beta = 49 * 4;
      gamma1 = 2 ^ 19;
      gamma2 = (q - 1) / 32;
    }

abbrev pub level_from_enum : ℕ → ℕ
level_from_enum level_enum = if level_enum == 2 then 44 else if level_enum == 5 then 87 else 65
