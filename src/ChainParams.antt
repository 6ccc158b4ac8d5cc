-- ===== src/ChainParams.antt =====
-- BHC/src/chainparams.cpp and chainparams.h: the parameters of the three networks, and the network
-- in use, a pointer that may be null. Texts are lists of character codes; the hash of the genesis
-- block is held with its last byte first.
use bht_bhte.Prelude.{
  codes, ℕ, ◌*◌, ◌≡◌, refl, Bool, true, false, Option, none, some, List, [], ◌∷◌, ◌++◌, replicate,
}
use bht_bhte.ProgPow.{progpow_period}

pub data Network : Type 0 where
  main testnet regtest : Network

pub record ConsensusParams : Type 0 where
  pub subsidy_halving_interval : ℕ
  pub bip34_height : ℕ
  pub bip65_height : ℕ
  pub bip66_height : ℕ
  pub pow_limit : List ℕ
  pub pow_target_timespan : ℕ
  pub pow_target_spacing : ℕ
  pub pow_allow_min_difficulty_blocks : Bool
  pub pow_no_retargeting : Bool
  pub lwma_window_size : ℕ
  pub prog_pow_period : ℕ
  pub hash_genesis_block : List ℕ
  pub prog_pow_active : Bool
  pub mldsa_active : Bool

pub record SeedNode : Type 0 where
  pub host : List ℕ
  pub port : ℕ

pub record ChainParams : Type 0 where
  pub network : Network
  pub network_id : List ℕ
  pub consensus : ConsensusParams
  pub seeds : List SeedNode
  pub default_port : ℕ
  pub rpc_port : ℕ
  pub base58_prefix_pub_key : List ℕ
  pub base58_prefix_script : List ℕ
  pub bech32_hrp : List ℕ
  pub magic_bytes : List ℕ

abbrev main_consensus : ConsensusParams
main_consensus = record {
  subsidy_halving_interval = 210000;
  bip34_height = 1;
  bip65_height = 1;
  bip66_height = 1;
  pow_limit = replicate 29 0 ++ (15 ∷ 255 ∷ 255 ∷ []);
  pow_target_timespan = 14 * 24 * 60 * 60;
  pow_target_spacing = 10 * 60;
  pow_allow_min_difficulty_blocks = false;
  pow_no_retargeting = false;
  lwma_window_size = 45;
  prog_pow_period = progpow_period;
  hash_genesis_block =
      0 ∷ 0 ∷ 11 ∷ 237 ∷ 83 ∷ 207 ∷ 79 ∷ 168 ∷ 173 ∷ 102 ∷ 22 ∷ 15 ∷ 94 ∷ 66 ∷ 77 ∷ 162 ∷ 145 ∷ 178
      ∷ 244 ∷ 90 ∷ 159 ∷ 205 ∷ 16 ∷ 226 ∷ 119 ∷ 19 ∷ 212 ∷ 210 ∷ 81 ∷ 165 ∷ 126 ∷ 58 ∷ [];
  prog_pow_active = true;
  mldsa_active = true;
}

abbrev testnet_consensus : ConsensusParams
testnet_consensus = record {
  subsidy_halving_interval = 210000;
  bip34_height = 1;
  bip65_height = 1;
  bip66_height = 1;
  pow_limit = replicate 29 0 ++ (31 ∷ 255 ∷ 255 ∷ []);
  pow_target_timespan = 14 * 24 * 60 * 60;
  pow_target_spacing = 10 * 60;
  pow_allow_min_difficulty_blocks = true;
  pow_no_retargeting = false;
  lwma_window_size = 45;
  prog_pow_period = progpow_period;
  hash_genesis_block = replicate 32 0;
  prog_pow_active = true;
  mldsa_active = true;
}

abbrev regtest_consensus : ConsensusParams
regtest_consensus = record {
  subsidy_halving_interval = 150;
  bip34_height = 1;
  bip65_height = 1;
  bip66_height = 1;
  pow_limit = replicate 29 0 ++ (0 ∷ 0 ∷ 255 ∷ []);
  pow_target_timespan = 14 * 24 * 60 * 60;
  pow_target_spacing = 10 * 60;
  pow_allow_min_difficulty_blocks = true;
  pow_no_retargeting = true;
  lwma_window_size = 45;
  prog_pow_period = progpow_period;
  hash_genesis_block = replicate 32 0;
  prog_pow_active = true;
  mldsa_active = true;
}

-- "main", with the prefix "bhc".
abbrev main_params : ChainParams
main_params = record {
  network = main;
  network_id = codes "main";
  consensus = main_consensus;
  seeds =
      record { host = codes "seed1.bhc-core.org"; port = 18334 }
      ∷ record { host = codes "seed2.bhc-core.org"; port = 18334 }
      ∷ record { host = codes "seed3.bhc-core.org"; port = 18334 }
      ∷ record { host = codes "seed.bhc-foundation.io"; port = 18334 }
      ∷ [];
  default_port = 18334;
  rpc_port = 18332;
  base58_prefix_pub_key = 26 ∷ [];
  base58_prefix_script = 28 ∷ [];
  bech32_hrp = codes "bhc";
  magic_bytes = 66 ∷ 72 ∷ 67 ∷ 1 ∷ [];
}

-- "test", with the prefix "tbhc".
abbrev testnet_params : ChainParams
testnet_params = record {
  network = testnet;
  network_id = codes "test";
  consensus = testnet_consensus;
  seeds =
      record { host = codes "testnet-seed1.bhc-core.org"; port = 28334 }
      ∷ record { host = codes "testnet-seed2.bhc-core.org"; port = 28334 }
      ∷ [];
  default_port = 28334;
  rpc_port = 28332;
  base58_prefix_pub_key = 111 ∷ [];
  base58_prefix_script = 196 ∷ [];
  bech32_hrp = codes "tbhc";
  magic_bytes = 66 ∷ 72 ∷ 84 ∷ 1 ∷ [];
}

-- "regtest", with the prefix "rbhc".
abbrev regtest_params : ChainParams
regtest_params = record {
  network = regtest;
  network_id = codes "regtest";
  consensus = regtest_consensus;
  seeds = [];
  default_port = 38334;
  rpc_port = 38332;
  base58_prefix_pub_key = 111 ∷ [];
  base58_prefix_script = 196 ∷ [];
  bech32_hrp = codes "rbhc";
  magic_bytes = 66 ∷ 72 ∷ 82 ∷ 1 ∷ [];
}

-- The constructor.
unfoldable pub chain_params : Network → ChainParams
chain_params main = main_params
chain_params testnet = testnet_params
chain_params regtest = regtest_params

-- Get makes the main network's parameters when there are none; the pointer is g_current_params.
unfoldable pub get_params : Option ChainParams → ChainParams × Option ChainParams
unfolding chain_params
get_params none = (chain_params main, some (chain_params main))
get_params (some params) = (params, some params)

unfoldable pub set_network : Network → Option ChainParams → Option ChainParams
unfolding chain_params
set_network network current = some (chain_params network)

test_get_set : (n : Network) (p : Option ChainParams) → (get_params (set_network n p)).0.network ≡ n
unfolding get_params set_network chain_params
test_get_set main p = refl
test_get_set testnet p = refl
test_get_set regtest p = refl
