-- ===== src/Layer2/Blocks.antt =====
-- GetLatestBlock, GetBlockByNumber and GetBlockByHash of BHTWalletPro/src/layer2/layer2_client.cpp.
use bht_bhte.Prelude.{codes, ℕ, not, none, some, List, [], ◌∷◌, ◌++◌, if◌then◌else◌}
use bht_bhte.Wallet.{ByteMap, find}
use bht_bhte.Layer2.Json.{parse_json_response, parse_hex_to_uint64, value_key}
use bht_bhte.Layer2.Words.{empty_params, array_open}
use bht_bhte.Layer2.Client.{Client, Http, refused, hex, send_rpc_request, send_either}
use bht_bhte.Layer2.Fill.{
  Filled, Step, fill, assign, text_step, number_step, with_fields, fill_response,
}
use bht_bhte.Layer2.Transactions.{BhteTransaction}

pub record BhteBlock : Type 0 where
  pub number : ℕ
  pub hash : List ℕ
  pub timestamp : ℕ
  pub transactions : List BhteTransaction

-- The number, and the time of the call.
abbrev read_latest : ℕ → ByteMap (List ℕ) → BhteBlock → Filled BhteBlock
read_latest now m block = elim (find m value_key) [
  | none ↦ (block, refused)
  | some s ↦
      fill
        (number_step value_key (λ n b. record b { number = n })
          ∷ assign (λ b. record b { timestamp = now })
          ∷ [])
        m block
]

abbrev timestamp_step : Step BhteBlock
timestamp_step = number_step (codes "timestamp") (λ n b. record b { timestamp = n })

-- A block is asked for without its transactions.
abbrev block_params : List ℕ → List ℕ
block_params text = array_open ++ (text ++ codes "\", false]")

module _ (post : List ℕ → List ℕ → Http) where
  unfoldable pub get_latest_block : ℕ × ℕ → ℕ → BhteBlock → Client → Client × Filled BhteBlock
  unfolding send_rpc_request parse_json_response parse_hex_to_uint64
  get_latest_block times now block c =
      if not c.connected
      then (c, (block, refused))
      else fill_response (with_fields (read_latest now)) block (
          send_either post times (codes "eth_blockNumber", empty_params)
            (codes "bhte_blockNumber", empty_params) c)

  unfoldable pub get_block_by_number : ℕ → ℕ → BhteBlock → Client → Client × Filled BhteBlock
  unfolding send_rpc_request parse_json_response parse_hex_to_uint64
  get_block_by_number time number block c =
      if not c.connected
      then (c, (block, refused))
      else fill_response
          (with_fields (
            fill (
              assign (λ b. record b { number = number })
              ∷ text_step (codes "hash") (λ t b. record b { hash = t })
              ∷ timestamp_step
              ∷ [])))
          block
          (send_rpc_request post time (codes "eth_getBlockByNumber")
            (block_params (48 ∷ 120 ∷ hex number)) c)

  unfoldable pub get_block_by_hash : ℕ → List ℕ → BhteBlock → Client → Client × Filled BhteBlock
  unfolding send_rpc_request parse_json_response parse_hex_to_uint64
  get_block_by_hash time hash block c =
      if not c.connected
      then (c, (block, refused))
      else fill_response
          (with_fields (
            fill (
              assign (λ b. record b { hash = hash })
              ∷ number_step (codes "number") (λ n b. record b { number = n })
              ∷ timestamp_step
              ∷ [])))
          block (send_rpc_request post time (codes "eth_getBlockByHash") (block_params hash) c)
