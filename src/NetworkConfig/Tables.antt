-- ===== src/NetworkConfig/Tables.antt =====
-- The tables of BHTWalletPro/src/config/networkconfig.cpp and what is read from them.
use bht_bhte.Prelude.{codes, ℕ, true, false, List, [], ◌∷◌}
use bht_bhte.NetworkConfig.{NetworkType, main_net, test_net, signet, reg_test, NetworkParams}

abbrev pub main_net_params : NetworkParams
main_net_params = record {
  network = main_net;
  name = codes "main";
  data_dir = codes "BHT";
  default_port = 8333;
  default_rpc_port = 8332;
  default_ws_port = 8334;
  genesis_block =
      codes
        "0100000000000000000000000000000000000000000000000000000000000000000000003ba3edfd7a7b12b27ac72c3e67768f617fc81bc3888a51323a9fb8aa4b1e5e4a29ab5f49ffff001d1dac2b7c";
  genesis_hash = codes "000000000019d6689c085ae165831e934ff763ae46a2a6c172b3f1b60a8ce26f";
  genesis_time = 1231006505;
  bip44_coin_type = 0;
  bech32_prefix = codes "bc";
  bech32_separator = codes "1";
  require_standard = true;
  mine_blocks_on_demand = false;
  dns_seeds = (codes "seed.bht.org") ∷ (codes "seed2.bht.org") ∷ (codes "dnsseed.bht.org") ∷ [];
  fixed_seeds = [];
  target_spacing = 600;
  target_timespan = 1209600;
  pow_limit_bits = 0x1d00ffff;
  difficulty_adjustment_interval = 2016;
}

abbrev pub test_net_params : NetworkParams
test_net_params = record {
  network = test_net;
  name = codes "test";
  data_dir = codes "BHT_testnet";
  default_port = 18333;
  default_rpc_port = 18332;
  default_ws_port = 18334;
  genesis_block =
      codes
        "0100000000000000000000000000000000000000000000000000000000000000000000003ba3edfd7a7b12b27ac72c3e67768f617fc81bc3888a51323a9fb8aa4b1e5e4adae5494dffff001d1aa4ae18";
  genesis_hash = codes "000000000933ea01ad0ee984209779baaec3ced90fa3f408719526f8d77f4943";
  genesis_time = 1296688602;
  bip44_coin_type = 1;
  bech32_prefix = codes "tb";
  bech32_separator = codes "1";
  require_standard = true;
  mine_blocks_on_demand = false;
  dns_seeds = (codes "testnet-seed.bht.org") ∷ (codes "testnet-seed2.bht.org") ∷ [];
  fixed_seeds = [];
  target_spacing = 600;
  target_timespan = 1209600;
  pow_limit_bits = 0x1d00ffff;
  difficulty_adjustment_interval = 2016;
}

abbrev pub signet_params : NetworkParams
signet_params = record {
  network = signet;
  name = codes "signet";
  data_dir = codes "BHT_signet";
  default_port = 38333;
  default_rpc_port = 38332;
  default_ws_port = 38334;
  genesis_block =
      codes
        "0100000000000000000000000000000000000000000000000000000000000000000000003ba3edfd7a7b12b27ac72c3e67768f617fc81bc3888a51323a9fb8aa4b1e5e4a8f59174ffff001d1dac2b7c";
  genesis_hash = codes "00000008819873e925046c1fd611d2f4b6b3a3d4e1e1e1e1e1e1e1e1e1e1e1e1e";
  genesis_time = 1598918400;
  bip44_coin_type = 1;
  bech32_prefix = codes "tb";
  bech32_separator = codes "1";
  require_standard = true;
  mine_blocks_on_demand = false;
  dns_seeds = (codes "signet-seed.bht.org") ∷ [];
  fixed_seeds = [];
  target_spacing = 600;
  target_timespan = 1209600;
  pow_limit_bits = 0x1d00ffff;
  difficulty_adjustment_interval = 2016;
}

abbrev pub reg_test_params : NetworkParams
reg_test_params = record {
  network = reg_test;
  name = codes "regtest";
  data_dir = codes "BHT_regtest";
  default_port = 18444;
  default_rpc_port = 18443;
  default_ws_port = 18445;
  genesis_block =
      codes
        "0100000000000000000000000000000000000000000000000000000000000000000000003ba3edfd7a7b12b27ac72c3e67768f617fc81bc3888a51323a9fb8aa4b1e5e4adae5494dffff7f2002000000";
  genesis_hash = codes "0f9188f13cb7b2c71f2a335e3a4fc328bf5beb436012afca590b1a11466e2206";
  genesis_time = 1296688602;
  bip44_coin_type = 1;
  bech32_prefix = codes "bcrt";
  bech32_separator = codes "1";
  require_standard = false;
  mine_blocks_on_demand = true;
  dns_seeds = [];
  fixed_seeds = [];
  target_spacing = 600;
  target_timespan = 1209600;
  pow_limit_bits = 0x207fffff;
  difficulty_adjustment_interval = 2016;
}

unfoldable pub get_params : NetworkType → NetworkParams
get_params main_net = main_net_params
get_params test_net = test_net_params
get_params signet = signet_params
get_params reg_test = reg_test_params

unfoldable pub get_data_dir : NetworkType → List ℕ
unfolding get_params
get_data_dir current = (get_params current).data_dir

unfoldable pub get_network_name : NetworkType → List ℕ
unfolding get_params
get_network_name current = (get_params current).name

unfoldable pub get_default_port : NetworkType → ℕ
unfolding get_params
get_default_port current = (get_params current).default_port

unfoldable pub get_default_rpc_port : NetworkType → ℕ
unfolding get_params
get_default_rpc_port current = (get_params current).default_rpc_port

unfoldable pub get_bip44_coin_type : NetworkType → ℕ
unfolding get_params
get_bip44_coin_type current = (get_params current).bip44_coin_type

unfoldable pub get_bech32_prefix : NetworkType → List ℕ
unfolding get_params
get_bech32_prefix current = (get_params current).bech32_prefix
