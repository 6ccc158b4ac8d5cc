-- ===== src/NetworkConfig.antt =====
-- BHTWalletPro/src/config/networkconfig.cpp and networkconfig.h: the networks of the wallet and the
-- one in use, a static variable that is passed in and out. Texts are lists of character codes, and
-- a list of seeds ends before its null pointer.
pub mod Tables
use bht_bhte.Prelude.{ℕ, ◌≡◌, refl, Bool, true, false, not, List, [], ◌∷◌}

pub data NetworkType : Type 0 where
  main_net test_net signet reg_test : NetworkType

pub record NetworkParams : Type 0 where
  pub network : NetworkType
  pub name : List ℕ
  pub data_dir : List ℕ
  pub default_port : ℕ
  pub default_rpc_port : ℕ
  pub default_ws_port : ℕ
  pub genesis_block : List ℕ
  pub genesis_hash : List ℕ
  pub genesis_time : ℕ
  pub bip44_coin_type : ℕ
  pub bech32_prefix : List ℕ
  pub bech32_separator : List ℕ
  pub require_standard : Bool
  pub mine_blocks_on_demand : Bool
  pub dns_seeds : List (List ℕ)
  pub fixed_seeds : List (List ℕ)
  pub target_spacing : ℕ
  pub target_timespan : ℕ
  pub pow_limit_bits : ℕ
  pub difficulty_adjustment_interval : ℕ

-- s_current_network as it starts, GetNetworkType and SetNetworkType.
abbrev pub initial_network : NetworkType
initial_network = main_net

unfoldable pub get_network_type : NetworkType → NetworkType
get_network_type current = current

unfoldable pub set_network_type : NetworkType → NetworkType → NetworkType
set_network_type type current = type

unfoldable pub is_test_network : NetworkType → Bool
is_test_network main_net = false
is_test_network _ = true

-- IsMainNet, IsTestNet, IsSignet and IsRegTest.
abbrev pub is_main_net : NetworkType → Bool
is_main_net main_net = true
is_main_net _ = false

abbrev pub is_test_net : NetworkType → Bool
is_test_net test_net = true
is_test_net _ = false

abbrev pub is_signet : NetworkType → Bool
is_signet signet = true
is_signet _ = false

abbrev pub is_reg_test : NetworkType → Bool
is_reg_test reg_test = true
is_reg_test _ = false

abbrev pub is_test_chain : NetworkType → Bool
is_test_chain current = not (is_main_net current)

test_chains_agree : (current : NetworkType) → is_test_network current ≡ is_test_chain current
unfolding is_test_network
test_chains_agree main_net = refl
test_chains_agree test_net = refl
test_chains_agree signet = refl
test_chains_agree reg_test = refl
