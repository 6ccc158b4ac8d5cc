-- ===== src/ProgPow/Loop.antt =====
-- The class CProgPoW of BHC/src/crypto/progpow.cpp. The cache is held as its words of 32 bits, and
-- an output that is not written holds the bytes that it had.
use bht_bhte.Prelude.{
  ℕ, ◌+◌, ◌-◌, ◌*◌, ◌/◌, ◌%◌, ◌^◌, bit_and, bit_or, bit_xor, Bool, true, false, not, ◌&&◌, List, [],
  ◌∷◌, ◌++◌, map, foldl, flat_map, ltb, ◌==◌, if◌then◌else◌, length, get_or, set, take, drop,
  replicate, range, write_over,
}
use bht_bhte.Prelude.Radix.{digits, value}
use bht_bhte.ProgPow.{rotl32, rotr32, fnv1a, fnv1a_all, get_epoch}
use bht_bhte.ProgPow.Sha256.{sha256}

pub record ProgPow : Type 0 where
  pub epoch : ℕ
  pub block_number : ℕ
  pub cache : List ℕ

abbrev pub prog_pow : ProgPow
prog_pow = record { epoch = 0; block_number = 0; cache = [] }

pub record Generators : Type 0 where
  pub mt19937 : ℕ → ℕ → ℕ
  pub mt19937_64 : ℕ → ℕ → ℕ

abbrev clz32 : ℕ → ℕ
clz32 v = foldl (λ n k. n + (if ltb v (2 ^ k) then 1 else 0)) 0 (range 0 32)

abbrev popcount32 : ℕ → ℕ
popcount32 v = foldl (λ n k. n + v / 2 ^ k % 2) 0 (range 0 32)

-- The 4096 words of a cache that is not empty.
unfoldable pub mix_cache : List ℕ → ℕ → List ℕ
unfolding fnv1a
mix_cache words i = set words i (fnv1a (get_or words i 0) (get_or words ((i + 4095) % 4096) 0))

-- One word of the data set; the index of the cache is below its count of words.
unfoldable pub calc_dataset_item : List ℕ → ℕ → ℕ
unfolding fnv1a
calc_dataset_item words index =
    foldl (λ mix i. fnv1a mix (get_or words (fnv1a mix i % length words) 0)) index (range 0 256)

-- What one draw `r` puts into its lane.
unfoldable pub lane_result : ℕ → ℕ → ℕ → ℕ
unfolding rotl32 rotr32 fnv1a
lane_result r m n =
    let shift = r / 2 ^ 28 % 32 in
    let op = r / 2 ^ 24 % 16 in
    if op == 0
    then (m + n) % 2 ^ 32
    else if op == 1
    then m * n % 2 ^ 32
    else if op == 2
    then bit_xor m n
    else if op == 3
    then rotl32 m shift
    else if op == 4
    then rotr32 m shift
    else if op == 5
    then clz32 m
    else if op == 6
    then popcount32 m
    else if op == 7
    then bit_and m n
    else if op == 8
    then bit_or m n
    else if op == 9
    then 2 ^ 32 - 1 - m
    else if op == 10
    then (m + (2 ^ 32 - n)) % 2 ^ 32
    else if op == 11
    then m * 2 ^ shift % 2 ^ 32
    else if op == 12
    then m / 2 ^ shift
    else if op == 13
    then fnv1a m n
    else if op == 14
    then bit_xor m (rotl32 n 7)
    else m

unfoldable pub mix_lane : List ℕ → ℕ → List ℕ
unfolding lane_result fnv1a
mix_lane mix r =
    let lane = r % 16 in
    let m = get_or mix lane 0 in
    set mix lane (fnv1a m (lane_result r m (get_or mix ((lane + 1) % 16) 0)))

-- The seed of the lanes: the two halves of the nonce and the words of the header's hash.
unfoldable pub lane_seed : List ℕ → ℕ → ℕ
unfolding fnv1a
lane_seed header_hash nonce =
    foldl (λ seed i. fnv1a seed (value 256 (take 4 (drop (4 * i) header_hash))))
      (fnv1a (nonce % 2 ^ 32) (nonce / 2 ^ 32)) (range 0 8)

module _ (gen : Generators) where
  unfoldable pub init_cache : ℕ → ProgPow → ProgPow
  unfolding get_epoch mix_cache
  init_cache block_number p =
      let epoch = get_epoch block_number in
      let drawn =
        flat_map (λ i. gen.mt19937_64 0 i % 2 ^ 32 ∷ gen.mt19937_64 0 i / 2 ^ 32 ∷ [])
          (range 0 2048) in
      if (p.epoch == epoch) && not (length p.cache == 0) then p else record {
        epoch = epoch;
        block_number = block_number;
        cache = foldl mix_cache drawn (range 0 4096);
      }

  unfoldable pub initialize : ℕ → ProgPow → ProgPow
  unfolding init_cache
  initialize block_number p = record (init_cache block_number p) { block_number = block_number }

  unfoldable pub hash_loop : ℕ → ℕ → List ℕ → List ℕ
  unfolding lane_seed mix_lane fnv1a get_epoch
  hash_loop block_number nonce header_hash =
      let mix = map (fnv1a (lane_seed header_hash nonce)) (range 0 16) in
      let prog_seed = get_epoch block_number % 2 ^ 32 in
      foldl (λ m loop. mix_lane m (gen.mt19937 prog_seed loop)) mix (range 0 64)

  unfoldable pub hash_digest : ℕ → List ℕ → ℕ → List ℕ
  unfolding hash_loop fnv1a_all sha256
  hash_digest block_number header_hash nonce =
      let final_hash = fnv1a_all (hash_loop block_number nonce header_hash) 0x811c9dc5 in
      sha256
        (digits 256 4 final_hash ++ (digits 256 8 nonce ++ (take 32 header_hash ++ replicate 20 0)))

  -- The last byte of each word of the SHA-256 hash, in the first eight bytes of the output.
  unfoldable pub hash_bytes : ℕ → List ℕ → ℕ → List ℕ
  hash_bytes block_number header_hash nonce =
      map (λ i. get_or (hash_digest block_number header_hash nonce) (4 * i + 3) 0 % 256) (range 0 8)

  unfoldable pub hash : ProgPow → List ℕ → ℕ → List ℕ → List ℕ
  unfolding hash_bytes
  hash p header_hash nonce output = write_over (hash_bytes p.block_number header_hash nonce) output

-- The comparison loop of Verify, and that of CheckProgPoWProof.
unfoldable pub meets_target : List ℕ → List ℕ → Bool
meets_target [] target = true
meets_target (o ∷ output) [] = true
meets_target (o ∷ output) (t ∷ target) =
    let rest = meets_target output target in
    if ltb o t then true else if ltb t o then false else rest

unfoldable pub proof_meets_target : List ℕ → List ℕ → Bool
proof_meets_target [] target = true
proof_meets_target (h ∷ hash) [] = true
proof_meets_target (h ∷ hash) (t ∷ target) =
    let rest = proof_meets_target hash target in
    if ltb h t then true else if ltb t h then false else rest

module _ (gen : Generators) where
  -- `output` is a local array that holds what happens to be there.
  unfoldable pub verify : ProgPow → List ℕ → ℕ → List ℕ → List ℕ → Bool
  unfolding hash meets_target
  verify p header_hash nonce target output =
      meets_target (hash gen p header_hash nonce output) target

  unfoldable pub prog_pow_hash : List ℕ → ℕ → ℕ → List ℕ → List ℕ
  unfolding initialize hash
  prog_pow_hash header_hash nonce block_number output =
      hash gen (initialize gen block_number prog_pow) header_hash nonce output

  unfoldable pub check_prog_pow_proof : List ℕ → ℕ → ℕ → List ℕ → List ℕ → Bool
  unfolding prog_pow_hash proof_meets_target
  check_prog_pow_proof header_hash nonce block_number target output =
      proof_meets_target (prog_pow_hash header_hash nonce block_number output) target
