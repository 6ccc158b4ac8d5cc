-- ===== src/Mldsa/Fallback.antt =====
-- The fallback half of BHC/src/crypto/mldsa.cpp, built without liboqs: shake256_fallback and the
-- methods of CMLDSA over it. A loop that may not end takes a count of rounds and answers `none`
-- when it runs out; getrandom, the clock and the two addresses that seed the generator are
-- arguments.
pub mod Seed
pub mod Termination
use bht_bhte.Prelude.{
  ℕ, zero, suc, ◌+◌, ◌-◌, ◌*◌, ◌/◌, ◌%◌, ◌^◌, min, bit_and, bit_or, bit_xor, Bool, true, false,
  ◌||◌, Option, none, some, List, [], ◌∷◌, ◌++◌, map, foldl, flat_map, ltb, leb, ◌==◌,
  if◌then◌else◌, length, set, take, drop, replicate, range, zip_with,
}
use bht_bhte.HybridSig.{Level, signature_size, public_key_size}
use bht_bhte.Fips204.Keccak.{lane, column_parity, rotl64, round_constants}
use bht_bhte.Fips204.Shake.{xor_bytes, xor_byte, state_byte}
use bht_bhte.Fips204.Sampling.{◌>>=◌}
use bht_bhte.Mldsa.{PublicKey, SecretKey, Signature}

-- The order of the loops over x and y.
abbrev cells : List (ℕ × ℕ)
cells = flat_map (λ x. map (λ y. (x, y)) (range 0 5)) (range 0 5)

-- A shift by 0 also shifts right by the whole width, which the language does not define; it
-- gives 0 here.
abbrev pub rotate : ℕ → ℕ → ℕ
rotate v shift = bit_or (v * 2 ^ shift % 2 ^ 64) (v / 2 ^ (64 - shift))

abbrev add_parity : List ℕ → List ℕ → ℕ × ℕ → List ℕ
add_parity d s (x, y) = set s (x + 5 * y) (bit_xor (lane s (x + 5 * y)) (lane d x))

-- b[y][z] stands at 5 * y + z.
abbrev move_lane : List ℕ → List ℕ → ℕ × ℕ → List ℕ
move_lane s b (x, y) =
    set b (5 * y + (2 * x + 3 * y) % 5) (rotate (lane s (x + 5 * y)) ((x * 2 + y * 3) % 64))

abbrev mix_row : List ℕ → List ℕ → ℕ × ℕ → List ℕ
mix_row b s (x, y) = set s (x + 5 * y) (
    bit_xor (lane b (5 * x + y))
      (bit_and (2 ^ 64 - 1 - lane b (5 * ((x + 1) % 5) + y)) (lane b (5 * ((x + 2) % 5) + y))))

unfoldable pub permute_round : List ℕ → ℕ → List ℕ
unfolding column_parity rotl64
permute_round st rc =
    let c = map (column_parity st) (range 0 5) in
    let d =
      map (λ x. bit_xor (lane c ((x + 4) % 5)) (rotl64 (lane c ((x + 1) % 5)) 1)) (range 0 5) in
    let s = foldl (add_parity d) st cells in
    let b = foldl (move_lane s) (replicate 25 0) cells in
    let t = foldl (mix_row b) s cells in set t 0 (bit_xor (lane t 0) rc)

unfoldable pub permute : List ℕ → List ℕ
unfolding permute_round
permute st = foldl permute_round st round_constants

-- The loop over the input, from the index i.
unfoldable pub absorb : ℕ → List ℕ → ℕ → List ℕ → Option (List ℕ)
unfolding permute xor_bytes
absorb zero input i st = none
absorb (suc fuel) input i st =
    let block_len = min 136 (length input - i) in
    let s = xor_bytes st i (take block_len (drop i input)) in
    let full = block_len == 136 || leb (length input) (i + block_len) in
    let rest =
      absorb fuel input (if full then 0 else i + block_len) (if full then permute s else s) in
    if ltb i (length input) then rest else some st

-- The loop over the output, by blocks; n bytes are left to write.
unfoldable pub squeeze : ℕ → ℕ → List ℕ → List ℕ
unfolding permute state_byte
squeeze zero n st = []
squeeze (suc blocks) n st =
    let rest = squeeze blocks (n - 136) (permute st) in
    if ltb 0 n then map (state_byte st) (range 0 (min 136 n)) ++ rest else []

unfoldable pub shake256_fallback : ℕ → List ℕ → ℕ → Option (List ℕ)
unfolding absorb squeeze permute xor_byte
shake256_fallback fuel input output_len = absorb fuel input 0 (replicate 25 0) >>= λ st.
    let once = permute (xor_byte (xor_byte st 135 0x1F) 134 0x06) in
    let twice = permute (xor_byte (xor_byte once 135 0x80) 134 0x05) in
    some (squeeze (output_len / 136 + 1) output_len twice)

-- constantTimeCompare, on the bytes that both buffers have.
unfoldable pub constant_time_compare : List ℕ → List ℕ → Bool
constant_time_compare a b = foldl bit_or 0 (zip_with bit_xor a b) == 0

-- CMLDSA without m_sig.
pub record Fallback : Type 0 where
  pub level : Level
  pub public_key : PublicKey
  pub secret_key : SecretKey
  pub has_key : Bool

-- Half of the secret key, as it has just been written, gives the public key.
unfoldable pub generate_key_pair_internal : ℕ → List ℕ → Fallback → Option Fallback
unfolding shake256_fallback
generate_key_pair_internal fuel seed s =
    let sk_size = length s.secret_key.bytes in
    shake256_fallback fuel seed sk_size >>= λ sk.
    shake256_fallback fuel (take (sk_size / 2) sk) (length s.public_key.bytes) >>= λ pk.
    some (record s {
      public_key = record s.public_key { bytes = pk };
      secret_key = record s.secret_key { bytes = sk };
      has_key = true;
    })

unfoldable pub fallback_sign_internal : ℕ → List ℕ → List ℕ → Fallback → Option (List ℕ)
unfolding shake256_fallback
fallback_sign_internal fuel message context s =
    shake256_fallback fuel (s.secret_key.bytes ++ (message ++ context)) (signature_size s.level)

unfoldable pub fallback_verify_internal : ℕ → List ℕ → List ℕ → List ℕ → Fallback → Option Bool
unfolding shake256_fallback constant_time_compare
fallback_verify_internal fuel message context signature s =
    shake256_fallback fuel (s.public_key.bytes ++ (message ++ context)) (signature_size s.level)
    >>= λ expected_sig. some (constant_time_compare signature expected_sig)

-- Sign; `seed` is what GenerateKeyPair draws when there is no key.
unfoldable pub fallback_sign :
    ℕ → List ℕ → List ℕ → List ℕ → Fallback → Option (Signature × Fallback)
unfolding generate_key_pair_internal fallback_sign_internal
fallback_sign fuel seed message context s =
    (if s.has_key then some s else generate_key_pair_internal fuel seed s) >>= λ s'.
    fallback_sign_internal fuel message context s' >>= λ signature.
    some (record { bytes = signature; level = s'.level }, s')

unfoldable pub fallback_mldsa_verify : ℕ → List ℕ → Signature → PublicKey → List ℕ → Option Bool
unfolding fallback_verify_internal
fallback_mldsa_verify fuel message signature public_key context =
    fallback_verify_internal fuel message context signature.bytes (record {
      level = public_key.level;
      public_key = public_key;
      secret_key = record { bytes = []; level = public_key.level };
      has_key = false;
    })
