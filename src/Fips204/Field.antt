-- ===== src/Fips204/Field.antt =====
-- The constants and the coefficient arithmetic of mldsa_fips204.h. An int32_t or int64_t is an
-- integer; every intermediate value of this code is far inside 64 bits.
use bht_bhte.Prelude.{ℕ, zero, suc, ◌+◌, ◌-◌, ◌/◌, ◌%◌, ◌^◌, List, ltb, ◌==◌, if◌then◌else◌}
use bht_bhte.Prelude.Int.{ℤ, pos, negsuc, ◌-ℤ◌, ltb_ℤ}

abbrev pub q : ℕ
q = 8380417

abbrev pub nn : ℕ
nn = 256

abbrev pub dd : ℕ
dd = 13

-- An array of 256 coefficients, and a vector of such.
abbrev pub Poly : Type 0
Poly = List ℤ

abbrev pub PolyVec : Type 0
PolyVec = List Poly

-- `(uint32_t)c` and `(int32_t)v`.
abbrev pub to_u32 : ℤ → ℕ
to_u32 (pos n) = n % 2 ^ 32
to_u32 (negsuc n) = 2 ^ 32 - 1 - n % 2 ^ 32

abbrev pub to_i32 : ℕ → ℤ
to_i32 v = if ltb v (2 ^ 31) then pos v else negsuc (2 ^ 32 - 1 - v)

-- The remainder of C takes the sign of `a`, and a negative one is lifted by Q.
unfoldable pub mod_q : ℤ → ℤ
mod_q (pos n) = pos (n % q)
mod_q (negsuc n) = if suc n % q == 0 then pos 0 else pos (q - suc n % q)

unfoldable pub centered : ℤ → ℤ
centered a = if ltb_ℤ (pos (q / 2)) a then a -ℤ pos q else a

-- `while (x > 0) { n++; x >>= 1; }`. A round halves x, an int, so 32 rounds are enough.
unfoldable pub bitlen_loop : ℕ → ℕ → ℕ → ℕ
bitlen_loop zero x n = n
bitlen_loop (suc fuel) x n =
    let rest = bitlen_loop fuel (x / 2) (n + 1) in if ltb 0 x then rest else n

unfoldable pub bitlen : ℕ → ℕ
unfolding bitlen_loop
bitlen x = bitlen_loop 32 x 0
