-- ===== src/Fips204/Api.antt =====
-- The serialized interface of mldsa_fips204.h. The bytes of randomBytes, which come from
-- std::random_device, are arguments.
use bht_bhte.Prelude.{ℕ, Bool, false, List, Option, none, some, ◌==◌, if◌then◌else◌, length}
use bht_bhte.Fips204.Param.{param_for, level_from_enum}
use bht_bhte.Fips204.Sampling.{◌>>=◌}
use bht_bhte.Fips204.Keys.{encode_pk, decode_pk, encode_sk, decode_sk, key_gen_internal}
use bht_bhte.Fips204.Sign.{sign_core}
use bht_bhte.Fips204.Verify.{verify_core}

-- The serialized interface, by the level 2, 3 or 5.
unfoldable pub generate_key_pair : ℕ → ℕ → List ℕ → Option (List ℕ × List ℕ)
generate_key_pair fuel level_enum xi = do
  let p = param_for (level_from_enum level_enum)
  (pk, sk) ← key_gen_internal fuel p xi
  some (encode_pk p pk, encode_sk p sk)

-- The inner `none` is the answer false.
unfoldable pub sign : ℕ → ℕ → List ℕ → List ℕ → List ℕ → List ℕ → Option (Option (List ℕ))
unfolding sign_core
sign fuel level_enum sk msg ctx rnd =
    let p = param_for (level_from_enum level_enum) in
    elim (decode_sk p sk) [
      | none ↦ some none
      | some s ↦ do
        sig ← sign_core fuel p s msg ctx rnd
        some (if length sig == 0 then none else some sig)
    ]

unfoldable pub verify : ℕ → ℕ → List ℕ → List ℕ → List ℕ → List ℕ → Option Bool
unfolding verify_core
verify fuel level_enum pk msg ctx sig =
    let p = param_for (level_from_enum level_enum) in
    elim (decode_pk p pk) [ none ↦ some false | some k ↦ verify_core fuel p k msg ctx sig ]
