-- ===== src/Layer2/Client.antt =====
-- The requests of Layer2Client in BHTWalletPro/src/layer2/layer2_client.cpp. sendHTTPPOST is an
-- argument, a function of the endpoint and the body, and so are the times of a call's requests.
use bht_bhte.Prelude.{
  ℕ, zero, suc, ◌+◌, ◌-◌, ◌/◌, ◌%◌, Bool, not, Option, none, some, List, [], ◌∷◌, ◌++◌, ltb, ◌==◌,
  if◌then◌else◌, length, replicate,
}
use bht_bhte.Hardware.Path.{decimal}
use bht_bhte.Wallet.{ByteMap, find}
use bht_bhte.Layer2.Json.{
  parse_json_response, parse_hex_to_uint64, trim_quotes, value_key, quantity,
}
use bht_bhte.Layer2.Words.{
  latest_suffix, array_open, array_close, object_open, object_close, empty_params, latest_object,
  eth_get_balance, bhte_get_balance, eth_get_transaction_count, bhte_get_nonce, eth_gas_price,
  bhte_gas_price, eth_chain_id, bhte_chain_id, eth_call, eth_estimate_gas, eth_send_transaction,
  bhte_send_transaction, bhte_deposit, bhte_withdraw, balance_key, nonce_key, transaction_hash_key,
  deposit_id_key, withdrawal_id_key, not_connected_text, http_error_text, open_request, method_open,
  params_open, id_open, from_open, to_open, value_open, gas_price_open, data_open, memo_open,
  layer1_txid_open, layer2_address_open, layer1_address_open, amount_open, proof_open,
  signature_open, next_field,
}

pub record Client : Type 0 where
  pub connected : Bool
  pub endpoint : List ℕ
  pub rpc_id_prefix : List ℕ
  pub last_error : List ℕ

-- What sendHTTPPOST gives: a message for a request that fails, or a status and the body.
pub data Http : Type 0 where
  failed_with : List ℕ → Http
  responded : ℕ → List ℕ → Http

-- What a call does: an exception of std::stoull, false, or true with what it writes.
pub data Outcome {ℓ} (A : Type ℓ) : Type ℓ where
  threw : Outcome A
  refused : Outcome A
  answered : A → Outcome A

abbrev digit_char : ℕ → ℕ
digit_char d = if ltb d 10 then 48 + d else 87 + d

abbrev hex_in : ℕ → ℕ → List ℕ
hex_in zero n = []
hex_in (suc turns) n =
    let rest = hex_in turns (n / 16) in
    if ltb n 16 then digit_char n ∷ [] else rest ++ (digit_char (n % 16) ∷ [])

-- A number of 64 bits has at most 16 digits.
abbrev pub hex : ℕ → List ℕ
hex n = hex_in 16 n

abbrev pub hex_bytes : List ℕ → List ℕ
hex_bytes [] = []
hex_bytes (b ∷ bs) = digit_char (b / 16) ∷ digit_char (b % 16) ∷ hex_bytes bs

unfoldable pub generate_rpc_id : List ℕ → ℕ → List ℕ
generate_rpc_id prefix time =
    let digits = hex time in prefix ++ (95 ∷ (replicate (8 - length digits) 48 ++ digits))

unfoldable pub build_json_rpc_request : List ℕ → ℕ → List ℕ → List ℕ → List ℕ
unfolding generate_rpc_id
build_json_rpc_request prefix time method params =
    open_request
    ++ (method_open
        ++ (method
            ++ (next_field
                ++ (params_open
                    ++ (params
                        ++ (44 ∷ (id_open ++ (generate_rpc_id prefix time ++ (34 ∷ 125 ∷ [])))))))))

abbrev escape_char : ℕ → List ℕ
escape_char c =
    if c == 34
    then 92 ∷ 34 ∷ []
    else if c == 92
    then 92 ∷ 92 ∷ []
    else if c == 8
    then 92 ∷ 98 ∷ []
    else if c == 12
    then 92 ∷ 102 ∷ []
    else if c == 10
    then 92 ∷ 110 ∷ []
    else if c == 13
    then 92 ∷ 114 ∷ []
    else if c == 9
    then 92 ∷ 116 ∷ []
    else c ∷ []

unfoldable pub escape_json_string : List ℕ → List ℕ
escape_json_string [] = []
escape_json_string (c ∷ cs) = escape_char c ++ escape_json_string cs

abbrev pub retry :
    (Client → Client × Option (List ℕ)) → Client × Option (List ℕ) → Client × Option (List ℕ)
retry again (c, none) = again c
retry again (c, some body) = (c, some body)

module _ (post : List ℕ → List ℕ → Http) where
  -- The body of the answer, `none` for false.
  unfoldable pub send_rpc_request : ℕ → List ℕ → List ℕ → Client → Client × Option (List ℕ)
  unfolding build_json_rpc_request
  send_rpc_request time method params c =
      if not c.connected
      then (record c { last_error = not_connected_text }, none)
      else elim (post c.endpoint (build_json_rpc_request c.rpc_id_prefix time method params)) [
        | failed_with e ↦ (record c { last_error = e }, none)
        | responded status body ↦
            if not (status == 200)
            then (record c { last_error = http_error_text ++ decimal status }, none)
            else (c, some body)
      ]

  -- A request, and where it fails a second one.
  abbrev pub send_either :
      ℕ × ℕ → List ℕ × List ℕ → List ℕ × List ℕ → Client → Client × Option (List ℕ)
  send_either times first second c =
      retry (send_rpc_request times.1 second.0 second.1)
        (send_rpc_request times.0 first.0 first.1 c)

abbrev pub set_error : Option (List ℕ) → Client → Client
set_error none c = c
set_error (some e) c = record c { last_error = e }

abbrev and_then {ℓ} :
    {A : Type ℓ} → (ByteMap (List ℕ) → Outcome A) → Option (ByteMap (List ℕ)) → Outcome A
and_then read none = refused
and_then read (some fields) = read fields

-- parseJSONResponse, and what a call makes of the fields.
abbrev pub read_response {ℓ} :
    {A : Type ℓ} → (ByteMap (List ℕ) → Outcome A) → Client × Option (List ℕ) → Client × Outcome A
read_response read (c, none) = (c, refused)
read_response read (c, some body) =
    let (fields, error) = parse_json_response body in (set_error error c, and_then read fields)

abbrev number_of : Option ℕ → Outcome ℕ
number_of none = threw
number_of (some n) = answered n

abbrev quantity_text : Option (List ℕ) → Outcome ℕ
quantity_text none = refused
quantity_text (some s) = number_of (parse_hex_to_uint64 s)

-- A number under a key, `_value` in its absence.
abbrev pub read_either : List ℕ → ByteMap (List ℕ) → Outcome ℕ
read_either key m = elim (find m key) [
  | some s ↦ number_of (parse_hex_to_uint64 s)
  | none ↦ quantity_text (find m value_key)
]

abbrev pub read_only : ByteMap (List ℕ) → Outcome ℕ
read_only m = quantity_text (find m value_key)

abbrev text_of : Option (List ℕ) → Outcome (List ℕ)
text_of none = refused
text_of (some s) = answered (trim_quotes s)

abbrev text_either : List ℕ → ByteMap (List ℕ) → Outcome (List ℕ)
text_either key m = elim (find m key) [
  | some s ↦ answered (trim_quotes s)
  | none ↦ text_of (find m value_key)
]

abbrev pub latest : List ℕ → List ℕ
latest address = array_open ++ (address ++ latest_suffix)

abbrev pub only : List ℕ → List ℕ
only address = array_open ++ (address ++ array_close)

-- A text field and the comma behind it.
abbrev field : List ℕ → List ℕ → List ℕ
field opening text = opening ++ (text ++ next_field)

abbrev pub call_params : List ℕ → List ℕ → List ℕ → List ℕ
call_params from to payload =
    object_open
    ++ (field from_open from ++ (field to_open to ++ (data_open ++ (payload ++ latest_object))))

module _ (post : List ℕ → List ℕ → Http) where
  unfoldable pub get_balance : ℕ × ℕ → List ℕ → Client → Client × Outcome ℕ
  unfolding send_rpc_request parse_json_response parse_hex_to_uint64
  get_balance times address c =
      if not c.connected
      then (c, refused)
      else read_response (read_either balance_key) (
          send_either post times (eth_get_balance, latest address) (bhte_get_balance, only address)
            c)

  unfoldable pub get_nonce : ℕ × ℕ → List ℕ → Client → Client × Outcome ℕ
  unfolding send_rpc_request parse_json_response parse_hex_to_uint64
  get_nonce times address c =
      if not c.connected
      then (c, refused)
      else read_response (read_either nonce_key) (
          send_either post times (eth_get_transaction_count, latest address)
            (bhte_get_nonce, only address) c)

  unfoldable pub get_gas_price : ℕ × ℕ → Client → Client × Outcome ℕ
  unfolding send_rpc_request parse_json_response parse_hex_to_uint64
  get_gas_price times c =
      if not c.connected
      then (c, refused)
      else read_response read_only
          (send_either post times (eth_gas_price, empty_params) (bhte_gas_price, empty_params) c)

  unfoldable pub get_chain_id : ℕ × ℕ → Client → Client × Outcome ℕ
  unfolding send_rpc_request parse_json_response parse_hex_to_uint64
  get_chain_id times c =
      if not c.connected
      then (c, refused)
      else read_response read_only
          (send_either post times (eth_chain_id, empty_params) (bhte_chain_id, empty_params) c)

  unfoldable pub call_contract : ℕ → List ℕ → List ℕ → List ℕ → Client → Client × Outcome ℕ
  unfolding send_rpc_request parse_json_response parse_hex_to_uint64
  call_contract time from to payload c =
      if not c.connected
      then (c, refused)
      else read_response read_only
          (send_rpc_request post time eth_call (call_params from to payload) c)

  unfoldable pub estimate_gas : ℕ → List ℕ → List ℕ → ℕ → Client → Client × Outcome (List ℕ)
  unfolding send_rpc_request parse_json_response
  estimate_gas time from to amount c =
      if not c.connected
      then (c, refused)
      else let params =
          object_open
          ++ (field from_open from
              ++ (field to_open to ++ (value_open ++ (quantity amount ++ object_close)))) in
        read_response (λ m. text_of (find m value_key))
          (send_rpc_request post time eth_estimate_gas params c)

  unfoldable pub send_transaction :
      ℕ × ℕ → List ℕ → List ℕ → ℕ → ℕ → List ℕ → List ℕ → Client → Client × Outcome (List ℕ)
  unfolding send_rpc_request parse_json_response escape_json_string
  send_transaction times from to amount fee memo signature c =
      if not c.connected
      then (c, refused)
      else let escaped = memo_open ++ (escape_json_string memo ++ (34 ∷ [])) in
        let params =
          object_open
          ++ (field from_open from
              ++ (field to_open to
                  ++ (field value_open (quantity amount)
                      ++ (field gas_price_open (quantity fee)
                          ++ (data_open
                              ++ (hex_bytes signature
                                  ++ (34
                                      ∷ ((if length memo == 0 then [] else escaped)
                                          ++ (125 ∷ 93 ∷ []))))))))) in
        read_response (text_either transaction_hash_key)
          (send_either post times (eth_send_transaction, params) (bhte_send_transaction, params) c)

  unfoldable pub deposit_to_layer2 :
      ℕ → List ℕ → List ℕ → ℕ → List ℕ → Client → Client × Outcome (List ℕ)
  unfolding send_rpc_request parse_json_response
  deposit_to_layer2 time layer1_txid layer2_address amount proof c =
      if not c.connected
      then (c, refused)
      else let params =
          object_open
          ++ (field layer1_txid_open layer1_txid
              ++ (field layer2_address_open layer2_address
                  ++ (field amount_open (quantity amount)
                      ++ (proof_open ++ (hex_bytes proof ++ object_close))))) in
        read_response (λ m. text_of (find m deposit_id_key))
          (send_rpc_request post time bhte_deposit params c)

  unfoldable pub withdraw_from_layer2 :
      ℕ → List ℕ → List ℕ → ℕ → List ℕ → Client → Client × Outcome (List ℕ)
  unfolding send_rpc_request parse_json_response
  withdraw_from_layer2 time layer2_address layer1_address amount signature c =
      if not c.connected
      then (c, refused)
      else let params =
          object_open
          ++ (field layer2_address_open layer2_address
              ++ (field layer1_address_open layer1_address
                  ++ (field amount_open (quantity amount)
                      ++ (signature_open ++ (hex_bytes signature ++ object_close))))) in
        read_response (λ m. text_of (find m withdrawal_id_key))
          (send_rpc_request post time bhte_withdraw params c)
