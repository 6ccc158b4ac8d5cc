-- ===== src/Layer2/Accounts.antt =====
-- The objects of BHTWalletPro/src/layer2/layer2_client.h, and of layer2_client.cpp the requests
-- GetAccount, GetCode and GetBridgeStatus.
use bht_bhte.Prelude.{
  codes, ℕ, Bool, true, false, not, none, some, List, [], ◌∷◌, ltb, if◌then◌else◌, length, drop,
}
use bht_bhte.Wallet.{ByteMap, find}
use bht_bhte.Layer2.Json.{parse_json_response, parse_hex_to_uint64, trim_quotes, value_key}
use bht_bhte.Layer2.Words.{empty_params}
use bht_bhte.Layer2.Client.{Client, Http, threw, refused, answered, send_rpc_request, latest, only}
use bht_bhte.Layer2.Fill.{
  Filled, Step, fill, assign, text_step, number_step, flag_step, with_fields, fill_response,
  push_hex,
}

pub record BhteAccount : Type 0 where
  pub address : List ℕ
  pub balance : ℕ
  pub nonce : ℕ
  pub tokens : List (List ℕ)
  pub is_contract : Bool
  pub code_hash : List ℕ

pub record BhteBridgeStatus : Type 0 where
  pub active : Bool
  pub last_synced_block : ℕ
  pub current_block : ℕ
  pub pending_deposits : ℕ
  pub pending_withdrawals : ℕ
  pub layer1_hash : List ℕ
  pub layer2_hash : List ℕ
  pub bridge_fee : ℕ
  pub min_deposit : ℕ
  pub min_withdrawal : ℕ

abbrev account_steps : List ℕ → List (Step BhteAccount)
account_steps address =
    assign (λ a. record a { address = address })
    ∷ number_step (codes "balance") (λ n a. record a { balance = n })
    ∷ number_step (codes "nonce") (λ n a. record a { nonce = n })
    ∷ flag_step (codes "isContract") (λ b a. record a { is_contract = b })
    ∷ text_step (codes "codeHash") (λ t a. record a { code_hash = t })
    ∷ []

abbrev status_steps : List (Step BhteBridgeStatus)
status_steps =
    flag_step (codes "active") (λ b s. record s { active = b })
    ∷ number_step (codes "lastSyncedBlock") (λ n s. record s { last_synced_block = n })
    ∷ number_step (codes "currentBlock") (λ n s. record s { current_block = n })
    ∷ number_step (codes "pendingDeposits") (λ n s. record s { pending_deposits = n })
    ∷ number_step (codes "pendingWithdrawals") (λ n s. record s { pending_withdrawals = n })
    ∷ number_step (codes "bridgeFee") (λ n s. record s { bridge_fee = n })
    ∷ number_step (codes "minDeposit") (λ n s. record s { min_deposit = n })
    ∷ number_step (codes "minWithdrawal") (λ n s. record s { min_withdrawal = n })
    ∷ []

abbrev code_end : List ℕ × Bool → Filled (List ℕ)
code_end (code, true) = (code, answered tt)
code_end (code, false) = (code, threw)

-- The bytes of the result are put behind those that `code` holds.
unfoldable pub read_code : ByteMap (List ℕ) → List ℕ → Filled (List ℕ)
unfolding push_hex
read_code m code = elim (find m value_key) [
  | none ↦ (code, refused)
  | some s ↦
      if ltb 2 (length (trim_quotes s))
      then code_end (push_hex code (drop 2 (trim_quotes s)))
      else (code, refused)
]

module _ (post : List ℕ → List ℕ → Http) where
  unfoldable pub get_account : ℕ → List ℕ → BhteAccount → Client → Client × Filled BhteAccount
  unfolding send_rpc_request parse_json_response parse_hex_to_uint64
  get_account time address account c =
      if not c.connected
      then (c, (account, refused))
      else fill_response (with_fields (fill (account_steps address))) account
          (send_rpc_request post time (codes "bhte_getAccount") (only address) c)

  unfoldable pub get_code : ℕ → List ℕ → List ℕ → Client → Client × Filled (List ℕ)
  unfolding send_rpc_request parse_json_response read_code
  get_code time address code c =
      if not c.connected
      then (c, (code, refused))
      else fill_response (with_fields read_code) code
          (send_rpc_request post time (codes "eth_getCode") (latest address) c)

  unfoldable pub get_bridge_status :
      ℕ → BhteBridgeStatus → Client → Client × Filled BhteBridgeStatus
  unfolding send_rpc_request parse_json_response parse_hex_to_uint64
  get_bridge_status time status c =
      if not c.connected
      then (c, (status, refused))
      else fill_response (with_fields (fill status_steps)) status
          (send_rpc_request post time (codes "bhte_getBridgeStatus") empty_params c)
