-- ===== src/Fips204/Keccak.antt =====
-- keccakf of mldsa_fips204.h. The state is the list of its 25 lanes, each below 2 ^ 64.
use bht_bhte.Prelude.{
  ℕ, ◌+◌, ◌-◌, ◌*◌, ◌/◌, ◌%◌, ◌^◌, List, [], ◌∷◌, map, foldl, bit_and, bit_or, bit_xor, get_or, set,
  zip_with, range,
}

-- Called with 0 < n < 64 only.
unfoldable pub rotl64 : ℕ → ℕ → ℕ
rotl64 x n = bit_or (x * 2 ^ n % 2 ^ 64) (x / 2 ^ (64 - n))

abbrev pub round_constants : List ℕ
round_constants =
    0x0000000000000001 ∷ 0x0000000000008082 ∷ 0x800000000000808a ∷ 0x8000000080008000
    ∷ 0x000000000000808b ∷ 0x0000000080000001 ∷ 0x8000000080008081 ∷ 0x8000000000008009
    ∷ 0x000000000000008a ∷ 0x0000000000000088 ∷ 0x0000000080008009 ∷ 0x000000008000000a
    ∷ 0x000000008000808b ∷ 0x800000000000008b ∷ 0x8000000000008089 ∷ 0x8000000000008003
    ∷ 0x8000000000008002 ∷ 0x8000000000000080 ∷ 0x000000000000800a ∷ 0x800000008000000a
    ∷ 0x8000000080008081 ∷ 0x8000000000008080 ∷ 0x0000000080000001 ∷ 0x8000000080008008 ∷ []

-- pi and rho, entry by entry.
abbrev lane_moves : List (ℕ × ℕ)
lane_moves =
    zip_with (λ j n. (j, n))
      (10 ∷ 7 ∷ 11 ∷ 17 ∷ 18 ∷ 3 ∷ 5 ∷ 16 ∷ 8 ∷ 21 ∷ 24 ∷ 4 ∷ 15 ∷ 23 ∷ 19 ∷ 13 ∷ 12 ∷ 2 ∷ 20 ∷ 14
        ∷ 22 ∷ 9 ∷ 6 ∷ 1 ∷ [])
      (1 ∷ 3 ∷ 6 ∷ 10 ∷ 15 ∷ 21 ∷ 28 ∷ 36 ∷ 45 ∷ 55 ∷ 2 ∷ 14 ∷ 27 ∷ 41 ∷ 56 ∷ 8 ∷ 25 ∷ 43 ∷ 62 ∷ 18
        ∷ 39 ∷ 61 ∷ 20 ∷ 44 ∷ [])

abbrev pub lane : List ℕ → ℕ → ℕ
lane st i = get_or st i 0

unfoldable pub column_parity : List ℕ → ℕ → ℕ
column_parity st i =
    bit_xor
      (bit_xor (bit_xor (bit_xor (lane st i) (lane st (i + 5))) (lane st (i + 10)))
        (lane st (i + 15)))
      (lane st (i + 20))

unfoldable pub theta : List ℕ → List ℕ
unfolding column_parity rotl64
theta st =
    let bc = map (column_parity st) (range 0 5) in
    foldl
      (λ s i.
        let t = bit_xor (lane bc ((i + 4) % 5)) (rotl64 (lane bc ((i + 1) % 5)) 1) in
        foldl (λ s' j. set s' (j + i) (bit_xor (lane s' (j + i)) t)) s (0 ∷ 5 ∷ 10 ∷ 15 ∷ 20 ∷ []))
      st (range 0 5)

unfoldable pub rho_pi_step : ℕ × List ℕ → ℕ × ℕ → ℕ × List ℕ
unfolding rotl64
rho_pi_step (t, st) (j, n) = (lane st j, set st j (rotl64 t n))

unfoldable pub rho_pi : List ℕ → List ℕ
unfolding rho_pi_step
rho_pi st = (foldl rho_pi_step (lane st 1, st) lane_moves).1

unfoldable pub chi : List ℕ → List ℕ
chi st =
    foldl
      (λ s j.
        let a = map (λ i. lane s (j + i)) (range 0 5) in
        foldl
          (λ s' i. set s' (j + i) (
            bit_xor (lane a i)
              (bit_and (2 ^ 64 - 1 - lane a ((i + 1) % 5)) (lane a ((i + 2) % 5)))))
          s (range 0 5))
      st (0 ∷ 5 ∷ 10 ∷ 15 ∷ 20 ∷ [])

unfoldable pub keccak_round : List ℕ → ℕ → List ℕ
unfolding theta rho_pi chi
keccak_round st rc = let s = chi (rho_pi (theta st)) in set s 0 (bit_xor (lane s 0) rc)

unfoldable pub keccakf : List ℕ → List ℕ
unfolding keccak_round
keccakf st = foldl keccak_round st round_constants
