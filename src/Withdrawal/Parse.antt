-- ===== src/Withdrawal/Parse.antt =====
-- ParseWithdrawalRequest of BHC/src/script/withdrawal_script.cpp. The offset into `raw_request` is
-- the rest of it that is not read yet.
pub mod Wire
pub mod Bounds
use bht_bhte.Prelude.{
  ℕ, zero, suc, ◌+◌, ◌*◌, ◌%◌, ◌^◌, List, [], ◌∷◌, Option, none, some, bit_or, ltb, if◌then◌else◌,
  length, take, drop,
}
use bht_bhte.Withdrawal.{
  L2StateRoot, MerkleProof, WithdrawalRequest, pending, challenge_period_seconds,
}

-- `none` is a read past the end of the vector, which C++ gives no meaning.
infixl 5 ◌>>=◌
abbrev pub ◌>>=◌ {ℓ κ} : {A : Type ℓ} {B : Type κ} → Option A → (A → Option B) → Option B
none >>= f = none
some a >>= f = f a

-- Bytes from the front, and the rest.
unfoldable pub take_bytes : ℕ → List ℕ → Option (List ℕ × List ℕ)
take_bytes n xs = if ltb (length xs) n then none else some (take n xs, drop n xs)

-- `v |= (uintW_t)b << (8 * i)` for each byte.
unfoldable pub or_bytes : ℕ → ℕ → ℕ → List ℕ → ℕ
or_bytes w i v [] = v
or_bytes w i v (b ∷ bs) = or_bytes w (i + 1) (bit_or v (b * 2 ^ (8 * i) % 2 ^ w)) bs

pub take_uint : ℕ → ℕ → List ℕ → Option (ℕ × List ℕ)
unfolding take_bytes or_bytes
take_uint w n xs = do (bytes, rest) ← take_bytes n xs; some (or_bytes w 0 0 bytes, rest)

pub take_siblings : ℕ → List ℕ → Option (List (List ℕ) × List ℕ)
unfolding take_bytes
take_siblings zero xs = some ([], xs)
take_siblings (suc n) xs = do
  (s, rest) ← take_bytes 32 xs
  (more, rest') ← take_siblings n rest
  some (s ∷ more, rest')

pub data Parsed : Type 0 where
  rejected : Parsed
  out_of_bounds : Parsed
  parsed : WithdrawalRequest → Parsed

-- The constructor of `request` leaves the numbers of `state_root` and the path of `merkle_proof`
-- unset: `blank_root` and `blank_path` are what stands there.
module _ (blank_root : L2StateRoot) (blank_path : ℕ) where
  pub read_request : List ℕ → Option WithdrawalRequest
  unfolding take_bytes take_uint take_siblings
  read_request raw = do
    (recipient, rest₁) ← take_bytes 25 raw
    (amount, rest₂) ← take_uint 64 8 rest₁
    (block, rest₃) ← take_uint 64 8 rest₂
    (tx_hash, rest₄) ← take_bytes 32 rest₃
    (count, rest₅) ← take_uint 32 4 rest₄
    (siblings, rest₆) ← take_siblings count rest₅
    (signature, rest₇) ← take_bytes 3293 rest₆
    (pubkey, rest₈) ← take_bytes 1952 rest₇
    (time, rest₉) ← take_uint 64 8 rest₈
    some (record {
      recipient_bhc_address = recipient;
      amount = amount;
      l2_block_number = block;
      l2_transaction_hash = tx_hash;
      state_root = blank_root;
      merkle_proof = record { siblings = siblings; path = blank_path; leaf_hash = [] };
      signature = signature;
      mldsa_pubkey = pubkey;
      request_timestamp = time;
      status = pending;
      challenge_end_time = (time + challenge_period_seconds) % 2 ^ 64;
      challenge_reason = [];
    })

  pub parse_withdrawal_request : List ℕ → Parsed
  unfolding read_request
  parse_withdrawal_request raw =
      if ltb (length raw) 128
      then rejected
      else elim (read_request raw) [ none ↦ out_of_bounds | some r ↦ parsed r ]
