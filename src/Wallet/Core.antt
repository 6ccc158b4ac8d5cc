-- ===== src/Wallet/Core.antt =====
-- The class CWallet of BHTWalletPro/src/wallet/wallet.h and wallet.cpp: its state, its keys and
-- its lock. The bytes of a new key and the time are arguments. ReadMasterKey of walletdb.h
-- always answers false.
pub mod Phrase
pub mod Consistent
use bht_bhte.Prelude.{
  ℕ, zero, suc, ◌+◌, ◌*◌, ◌/◌, ◌%◌, ◌^◌, Bool, true, false, not, ◌&&◌, ◌||◌, Option, none, some,
  List, [], ◌∷◌, ◌++◌, map, foldl, leb, ltb, ◌==◌, if◌then◌else◌, length, get_or, take, zip_with,
  bytes_eq, bit_xor, bit_or,
}
use bht_bhte.Fips204.Sampling.{◌>>=◌}
use bht_bhte.Wallet.{Openssl, ByteMap, find, insert}
use bht_bhte.Wallet.Keys.{
  is_valid, pub_is_valid, set_priv_key, make_new_key, get_pub_key, get_id, derive, be_bytes,
  export_key,
}
use bht_bhte.Wallet.Crypter.{
  MasterKey, master_key, get_ckey, master_pub_key, set_master_key, decrypt_master, encrypt,
}
use bht_bhte.Wallet.Tx.{WalletTx}

pub data OutputType : Type 0 where
  legacy p2sh_segwit bech32 bech32m : OutputType

pub data CoinType : Type 0 where
  bhc bhte : CoinType

pub data SignatureType : Type 0 where
  ecdsa schnorr ml_dsa : SignatureType

pub record KeyPool : Type 0 where
  pub creation_time : ℕ
  pub public_key : List ℕ
  pub output_type : OutputType

-- `keys` and `pubkeys` are under the identifier, `pubkey_to_keyid` under the public key.
pub record Wallet : Type 0 where
  pub locked : Bool
  pub encrypted : Bool
  pub dirty : Bool
  pub use_mldsa : Bool
  pub min_fee : ℕ
  pub default_sigtype : SignatureType
  pub master_seed : List ℕ
  pub master : MasterKey
  pub default_pubkey : List ℕ
  pub keys : ByteMap (List ℕ)
  pub pubkey_to_keyid : ByteMap (List ℕ)
  pub pubkeys : ByteMap (List ℕ)
  pub wallet_txs : ByteMap WalletTx
  pub key_pools : List KeyPool

abbrev pub wallet : Wallet
wallet = record {
  locked = true;
  encrypted = false;
  dirty = false;
  use_mldsa = true;
  min_fee = 1000;
  default_sigtype = schnorr;
  master_seed = [];
  master = master_key;
  default_pubkey = [];
  keys = [];
  pubkey_to_keyid = [];
  pubkeys = [];
  wallet_txs = [];
  key_pools = [];
}

abbrev pub is_empty : List ℕ → Bool
is_empty [] = true
is_empty (b ∷ bs) = false

unfoldable pub encrypt_wallet : List ℕ → Wallet → Bool × Wallet
unfolding encrypt
encrypt_wallet passphrase w =
    if w.encrypted
    then (false, w)
    else if is_empty w.master.key
    then (false, w)
    else elim (encrypt w.master.key passphrase) [
      | none ↦ (false, w)
      | some crypted_key ↦ (true, record w { encrypted = true })
    ]

-- SetPrivKey takes any bytes, so only the cipher can refuse.
unfoldable pub unlock : List ℕ → Wallet → Bool × Wallet
unfolding decrypt_master set_master_key
unlock passphrase w =
    if not w.encrypted
    then (true, record w { locked = false })
    else elim (decrypt_master passphrase w.master) [
      | none ↦ (false, w)
      | some key ↦ (true, record w { master = (set_master_key key w.master).1; locked = false })
    ]

unfoldable pub lock : Wallet → Wallet
lock w = if w.encrypted then record w { locked = true } else w

unfoldable pub read_master_key : Option (List ℕ)
read_master_key = none

unfoldable pub load_wallet : List ℕ → Wallet → Bool × Wallet
unfolding read_master_key decrypt_master set_master_key master_pub_key
load_wallet passphrase w = elim read_master_key [
  | none ↦ (false, w)
  | some crypted_key ↦
      let m = record w.master { crypted_key = crypted_key } in
      elim (decrypt_master passphrase m) [
        | none ↦ (false, record w { master = m })
        | some key ↦
            let m' = (set_master_key key m).1 in
            (
              true,
              record w {
                master = m';
                default_pubkey = master_pub_key m';
                encrypted = true;
                locked = false;
                dirty = false;
              },
            )
      ]
]

unfoldable pub lookup_pub_key : List ℕ → Wallet → List ℕ
lookup_pub_key id w = elim (find w.pubkeys id) [ none ↦ [] | some pk ↦ pk ]

unfoldable pub lookup_key : List ℕ → Wallet → Option (List ℕ)
lookup_key id w = find w.keys id

module _ (env : Openssl) where
  unfoldable pub add_key : List ℕ → Wallet → Bool × Wallet
  unfolding get_pub_key get_id
  add_key key w =
      let pk = get_pub_key key in
      if pub_is_valid pk
      then (let id = get_id env pk in
          (
            true,
            record w {
              keys = insert id key w.keys;
              pubkeys = insert id pk w.pubkeys;
              pubkey_to_keyid = insert pk id w.pubkey_to_keyid;
              dirty = true;
            },
          ))
      else (false, w)

  unfoldable pub add_key_pub_key : List ℕ → List ℕ → Wallet → Bool × Wallet
  unfolding get_pub_key get_id add_key
  add_key_pub_key key pubkey w =
      if pub_is_valid pubkey && bytes_eq (get_id env pubkey) (get_id env (get_pub_key key))
      then add_key key w
      else (false, w)

  -- The answer of RAND_bytes is not looked at.
  unfoldable pub generate_new_key : Option (List ℕ) → ℕ → OutputType → Wallet → List ℕ × Wallet
  unfolding get_pub_key add_key
  generate_new_key drawn time type w =
      let key = (make_new_key drawn []).1 in
      let pubkey = get_pub_key key in
      let (added, w') = add_key key w in
      if not added then ([], w') else (
        pubkey,
        record w' {
          key_pools =
              w'.key_pools
              ++ (record { creation_time = time; public_key = pubkey; output_type = type } ∷ []);
        },
      )

  unfoldable pub get_default_id : Wallet → Option (List ℕ)
  unfolding get_id
  get_default_id w =
      if pub_is_valid w.default_pubkey then some (get_id env w.default_pubkey) else none
