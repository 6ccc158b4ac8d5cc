-- ===== src/Layer2/Words.antt =====
-- The words of BHTWalletPro/src/layer2/layer2_client.cpp: methods of the node and names of fields.
use bht_bhte.Prelude.{codes, ℕ, List}

abbrev pub latest_suffix : List ℕ
latest_suffix = codes "\", \"latest\"]"

abbrev pub array_open : List ℕ
array_open = codes "[\""

abbrev pub array_close : List ℕ
array_close = codes "\"]"

abbrev pub object_open : List ℕ
object_open = codes "[{"

abbrev pub object_close : List ℕ
object_close = codes "\"}]"

abbrev pub empty_params : List ℕ
empty_params = codes "[]"

abbrev pub latest_object : List ℕ
latest_object = codes "\"}, \"latest\"]"

abbrev pub eth_get_balance : List ℕ
eth_get_balance = codes "eth_getBalance"

abbrev pub bhte_get_balance : List ℕ
bhte_get_balance = codes "bhte_getBalance"

abbrev pub eth_get_transaction_count : List ℕ
eth_get_transaction_count = codes "eth_getTransactionCount"

abbrev pub bhte_get_nonce : List ℕ
bhte_get_nonce = codes "bhte_getNonce"

abbrev pub eth_gas_price : List ℕ
eth_gas_price = codes "eth_gasPrice"

abbrev pub bhte_gas_price : List ℕ
bhte_gas_price = codes "bhte_gasPrice"

abbrev pub eth_chain_id : List ℕ
eth_chain_id = codes "eth_chainId"

abbrev pub bhte_chain_id : List ℕ
bhte_chain_id = codes "bhte_chainId"

abbrev pub eth_call : List ℕ
eth_call = codes "eth_call"

abbrev pub eth_estimate_gas : List ℕ
eth_estimate_gas = codes "eth_estimateGas"

abbrev pub eth_send_transaction : List ℕ
eth_send_transaction = codes "eth_sendTransaction"

abbrev pub bhte_send_transaction : List ℕ
bhte_send_transaction = codes "bhte_sendTransaction"

abbrev pub bhte_deposit : List ℕ
bhte_deposit = codes "bhte_deposit"

abbrev pub bhte_withdraw : List ℕ
bhte_withdraw = codes "bhte_withdraw"

abbrev pub balance_key : List ℕ
balance_key = codes "balance"

abbrev pub nonce_key : List ℕ
nonce_key = codes "nonce"

abbrev pub transaction_hash_key : List ℕ
transaction_hash_key = codes "transactionHash"

abbrev pub deposit_id_key : List ℕ
deposit_id_key = codes "depositId"

abbrev pub withdrawal_id_key : List ℕ
withdrawal_id_key = codes "withdrawalId"

abbrev pub not_connected_text : List ℕ
not_connected_text = codes "Not connected to endpoint"

abbrev pub http_error_text : List ℕ
http_error_text = codes "HTTP error: "

abbrev pub open_request : List ℕ
open_request = codes "{\"jsonrpc\":\"2.0\","

abbrev pub method_open : List ℕ
method_open = codes "\"method\":\""

abbrev pub params_open : List ℕ
params_open = codes "\"params\":"

abbrev pub id_open : List ℕ
id_open = codes "\"id\":\""

abbrev pub from_open : List ℕ
from_open = codes "\"from\":\""

abbrev pub to_open : List ℕ
to_open = codes "\"to\":\""

abbrev pub value_open : List ℕ
value_open = codes "\"value\":\""

abbrev pub gas_price_open : List ℕ
gas_price_open = codes "\"gasPrice\":\""

abbrev pub data_open : List ℕ
data_open = codes "\"data\":\""

abbrev pub memo_open : List ℕ
memo_open = codes ",\"memo\":\""

abbrev pub layer1_txid_open : List ℕ
layer1_txid_open = codes "\"layer1Txid\":\""

abbrev pub layer2_address_open : List ℕ
layer2_address_open = codes "\"layer2Address\":\""

abbrev pub layer1_address_open : List ℕ
layer1_address_open = codes "\"layer1Address\":\""

abbrev pub amount_open : List ℕ
amount_open = codes "\"amount\":\""

abbrev pub proof_open : List ℕ
proof_open = codes "\"proof\":\""

abbrev pub signature_open : List ℕ
signature_open = codes "\"signature\":\""

abbrev pub next_field : List ℕ
next_field = codes "\","
