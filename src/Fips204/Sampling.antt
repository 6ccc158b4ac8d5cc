-- ===== src/Fips204/Sampling.antt =====
-- The samplers of mldsa_fips204.h. Rejection sampling reads an unbounded stream; each sampler takes
-- the number of draws it may make, and gives `none` where these do not suffice.
use bht_bhte.Prelude.{
  ℕ, zero, suc, ◌+◌, ◌-◌, ◌*◌, ◌/◌, ◌%◌, ◌^◌, List, [], ◌∷◌, Option, none, some, foldl, bit_and,
  bit_or, ltb, leb, ◌==◌, if◌then◌else◌, get_or, set, range, map,
}
use bht_bhte.Prelude.Int.{ℤ, pos, negsuc, ◌-ℤ◌}
use bht_bhte.Fips204.Field.{q, nn, Poly, PolyVec, bitlen}
use bht_bhte.Fips204.Pack.{bit_unpack}
use bht_bhte.Fips204.Shake.{Shake, shake, read_byte, shake_read, cat}
use bht_bhte.Fips204.Ntt.{zero_poly, coeff}

infixl 5 ◌>>=◌
abbrev pub ◌>>=◌ {ℓ κ} : {A : Type ℓ} {B : Type κ} → Option A → (A → Option B) → Option B
none >>= f = none
some a >>= f = f a

-- f of each index, in order.
unfoldable pub for_each {ℓ κ} :
    {A : Type ℓ} {B : Type κ} → (A → Option B) → List A → Option (List B)
for_each f [] = some []
for_each f (x ∷ xs) = do y ← f x; ys ← for_each f xs; some (y ∷ ys)

-- Three bytes to a number below 2 ^ 23.
abbrev pub rej_candidate : List ℕ → ℕ
rej_candidate b =
    bit_or (bit_or (get_or b 0 0) (get_or b 1 0 * 2 ^ 8)) (bit_and (get_or b 2 0) 0x7F * 2 ^ 16)

unfoldable pub rej_ntt_loop : ℕ → Shake → ℕ → Poly → Option Poly
unfolding shake_read
rej_ntt_loop zero st i p = if leb nn i then some p else none
rej_ntt_loop (suc fuel) st i p =
    let (b, st') = shake_read st 3 in
    let d = rej_candidate b in
    let (i', p') = if ltb d q then (i + 1, set p i (pos d)) else (i, p) in
    let rest = rej_ntt_loop fuel st' i' p' in if leb nn i then some p else rest

unfoldable pub rej_ntt_poly : ℕ → List ℕ → ℕ → ℕ → Option Poly
unfolding rej_ntt_loop
rej_ntt_poly fuel rho s r =
    rej_ntt_loop fuel (shake 168 (cat (rho ∷ (s ∷ r ∷ []) ∷ []))) 0 zero_poly

-- Entry r * l + s of the result is that of row r and column s.
unfoldable pub expand_a : ℕ → List ℕ → ℕ → ℕ → Option (List Poly)
unfolding rej_ntt_poly
expand_a fuel rho k l =
    for_each (λ i. rej_ntt_poly fuel rho (i % l % 256) (i / l % 256)) (range 0 (k * l))

unfoldable pub coeff_from_half_byte : ℕ → ℕ → Option ℤ
coeff_from_half_byte z eta =
    if eta == 2
    then if ltb z 15 then some (pos 2 -ℤ pos (z % 5)) else none
    else if ltb z 9
    then some (pos 4 -ℤ pos z)
    else none

-- `if (coeffFromHalfByte(...)) p[i++] = v;`
abbrev pub accept : Option ℤ → ℕ × Poly → ℕ × Poly
accept none (i, p) = (i, p)
accept (some v) (i, p) = (i + 1, set p i v)

unfoldable pub rej_bounded_loop : ℕ → ℕ → Shake → ℕ × Poly → Option Poly
unfolding read_byte coeff_from_half_byte
rej_bounded_loop zero eta st (i, p) = if leb nn i then some p else none
rej_bounded_loop (suc fuel) eta st (i, p) =
    let (b, st') = read_byte st in
    let (i', p') = accept (coeff_from_half_byte (bit_and b 0x0F) eta) (i, p) in
    let next =
      if leb nn i' then (i', p') else accept (coeff_from_half_byte (b / 2 ^ 4) eta) (i', p') in
    let rest = rej_bounded_loop fuel eta st' next in if leb nn i then some p else rest

abbrev pub nonce_bytes : ℕ → List ℕ
nonce_bytes nonce = bit_and nonce 0xFF ∷ nonce / 2 ^ 8 ∷ []

-- `nonce` is a uint16_t.
unfoldable pub rej_bounded_poly : ℕ → List ℕ → ℕ → ℕ → Option Poly
unfolding rej_bounded_loop
rej_bounded_poly fuel rho_p nonce eta =
    rej_bounded_loop fuel eta (shake 136 (cat (rho_p ∷ nonce_bytes nonce ∷ []))) (0, zero_poly)

unfoldable pub expand_mask : List ℕ → ℕ → ℕ → ℕ → PolyVec
unfolding shake_read
expand_mask rho_pp kappa l gamma1 =
    let width = bitlen (2 * gamma1 - 1) in
    let bytes_per_poly = nn * width / 8 in
    map
      (λ i.
        let st = shake 136 (cat (rho_pp ∷ nonce_bytes ((kappa + i) % 2 ^ 16) ∷ [])) in
        bit_unpack (shake_read st bytes_per_poly).0 (pos gamma1) width)
      (range 0 l)

-- `do { j = st.readByte(); } while ((int)j > i);`
unfoldable pub draw_up_to : ℕ → ℕ → Shake → Option (ℕ × Shake)
unfolding read_byte
draw_up_to zero i st = none
draw_up_to (suc fuel) i st =
    let (j, st') = read_byte st in
    let again = draw_up_to fuel i st' in if ltb i j then again else some (j, st')

unfoldable pub ball_loop : ℕ → List ℕ → ℕ → Shake → Poly → Option Poly
unfolding draw_up_to
ball_loop fuel [] signs st c = some c
ball_loop fuel (i ∷ rest) signs st c = do
  (j, st') ← draw_up_to fuel i st
  ball_loop fuel rest (signs / 2) st'
      (set (set c i (coeff c j)) j (if signs % 2 == 1 then negsuc 0 else pos 1))

unfoldable pub sample_in_ball : ℕ → List ℕ → ℕ → Option Poly
unfolding ball_loop shake_read
sample_in_ball fuel ctilde tau =
    let (sb, st) = shake_read (shake 136 ctilde) 8 in
    let signs = foldl (λ s i. bit_or s (get_or sb i 0 * 2 ^ (8 * i))) 0 (range 0 8) in
    ball_loop fuel (range (nn - tau) tau) signs st zero_poly
