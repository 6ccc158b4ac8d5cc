-- ===== src/Mldsa/Fallback/Seed.antt =====
-- The seed that generateKeyPairInternal makes up when getrandom fails: three loops over the five
-- words `fallback_seed`, each a number below 2 ^ 64.
use bht_bhte.Prelude.{
  ℕ, ◌+◌, ◌-◌, ◌*◌, ◌/◌, ◌%◌, ◌^◌, bit_or, bit_xor, Option, none, some, List, [], ◌∷◌, foldl, leb,
  if◌then◌else◌, get_or, set, replicate, range,
}

abbrev word : List ℕ → ℕ → ℕ
word fs i = get_or fs i 0

abbrev shl : ℕ → ℕ → ℕ
shl v n = v * 2 ^ n % 2 ^ 64

abbrev shr : ℕ → ℕ → ℕ
shr v n = v / 2 ^ n

-- One turn of the loop over `bit`, on the words and the byte.
unfoldable pub entropy_bit : ℕ → List ℕ × ℕ → ℕ → List ℕ × ℕ
entropy_bit i (fs, byte) bit =
    let third = bit_xor (word fs 3) (word fs ((i + bit) % 4) * 31 % 2 ^ 64) in
    let fourth = bit_or (shl (word fs 4) 1) (shr third (bit + i) % 2) in
    let combined =
      bit_xor (bit_xor (bit_xor (word fs 0) (shl (word fs 1) (i % 56))) (shr (word fs 2) (i % 48)))
        (bit_xor (shl third i) (shr fourth (31 - i))) in
    (
      set (set fs 3 third) 4 fourth,
      bit_or byte (bit_xor combined (shr combined (i + bit + 1)) % 2 * 2 ^ bit),
    )

unfoldable pub entropy_byte : List ℕ × List ℕ → ℕ → List ℕ × List ℕ
unfolding entropy_bit
entropy_byte (fs, seed) i =
    let (fs', byte) = foldl (entropy_bit i) (fs, 0) (range 0 8) in (fs', set seed i byte)

-- `seed[at] ^= v`, and the low byte of a word.
abbrev xor_seed : List ℕ → ℕ → ℕ → List ℕ
xor_seed seed at v = set seed at (bit_xor (get_or seed at 0) (v % 256))

unfoldable pub mix_word : List ℕ × List ℕ → ℕ → List ℕ × List ℕ
mix_word (fs, seed) i =
    let a = word fs (i % 4) in
    let b = bit_xor a (shl a 13) in
    let c = bit_xor b (shr b 7) in
    let t = bit_xor c (shl c 17) in
    (
      set fs (i % 4) t,
      if leb 4 i
          then xor_seed
              (xor_seed (xor_seed (xor_seed seed ((i - 4) * 4 % 32) t) ((i - 3) * 4 % 32) (shr t 8))
                ((i - 2) * 4 % 32) (shr t 16))
              ((i - 1) * 4 % 32) (shr t 24)
          else seed,
    )

unfoldable pub mix_byte : List ℕ × List ℕ → ℕ → List ℕ × List ℕ
mix_byte (fs, seed) i =
    let a = word fs 0 in
    let b = bit_xor a (shl a 17) in
    let c = bit_xor b (shr b 15) in
    let d = bit_xor c (shl c 25) in
    let e = bit_xor d (shr (word fs 1) (i % 56)) in
    let f = bit_xor e (shl (word fs 2) (i % 48)) in
    let g = bit_xor f (shl (word fs 3) (i % 32)) in
    let combined = bit_xor g (shr (word fs 4) (i % 56)) in
    (set fs (i % 4) (bit_xor (word fs (i % 4)) combined), xor_seed seed i combined)

unfoldable pub fallback_seed : ℕ → ℕ → ℕ → List ℕ
unfolding entropy_byte mix_word mix_byte
fallback_seed time seed_address this_address =
    let words = time ∷ seed_address ∷ this_address ∷ 0 ∷ 0 ∷ [] in
    let made = foldl entropy_byte (words, replicate 32 0) (range 0 32) in
    let mixed = foldl mix_word made (range 0 8) in (foldl mix_byte mixed (range 0 32)).1

-- The bytes of getrandom, or the ones above.
unfoldable pub draw_seed : Option (List ℕ) → ℕ → ℕ → ℕ → List ℕ
unfolding fallback_seed
draw_seed (some seed) time seed_address this_address = seed
draw_seed none time seed_address this_address = fallback_seed time seed_address this_address
