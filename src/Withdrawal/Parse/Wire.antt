-- ===== src/Withdrawal/Parse/Wire.antt =====
-- The layout that the parser reads, and what it takes.
use bht_bhte.Prelude.{
  ℕ, suc, ◌+◌, ◌*◌, ◌%◌, ◌^◌, ◌≤◌, ◌<◌, ◌≡◌, refl, ap, ◌∙◌, List, [], ◌∷◌, ◌++◌, some, arith, ltb,
  subst, false, append_assoc, length, All, length-append, take-length-append, drop-length-append,
}
use bht_bhte.Prelude.Bits.{bit_or-shift, pow-add, two-pow-pos}
use bht_bhte.Prelude.Radix.{IsBelow, value, digits, length-digits, digits-IsBelow, value-digits}
use bht_bhte.Withdrawal.{L2StateRoot, WithdrawalRequest, pending, challenge_period_seconds}
use bht_bhte.Withdrawal.Parse.{
  take_bytes, or_bytes, take_uint, take_siblings, read_request, parse_withdrawal_request, parsed,
}
use bht_bhte.Withdrawal.Parse.Bounds.{read_request-size, long_enough}
use native.Mathlib.Nat.{mod-eq_of_lt, pow-le-pow_right, mul-le-mul, le_refl, le_trans}

pub take_bytes-append :
    (n : ℕ) (xs ys : List ℕ) → length xs ≡ n → take_bytes n (xs ++ ys) ≡ some (xs, ys)
unfolding take_bytes
take_bytes-append n xs ys e =
    subst (λ k. take_bytes k (xs ++ ys) ≡ some (xs, ys)) e
      (let room : ltb (length (xs ++ ys)) (length xs) ≡ false =
          ground (arith, length-append xs ys) in
        rw (room, take-length-append xs ys, drop-length-append xs ys))

pub or_bytes-value :
    (w i v : ℕ) (bs : List ℕ)
    → IsBelow 256 bs
    → 8 * (i + length bs) ≤ w
    → v < 2 ^ (8 * i)
    → or_bytes w i v bs ≡ v + 2 ^ (8 * i) * value 256 bs
unfolding or_bytes
or_bytes-value w i v [] h fits hv = omega arith
or_bytes-value w i v (b ∷ bs) (h, hs) fits hv =
    let p = 2 ^ (8 * i) in
    let next : 2 ^ (8 * (i + 1)) ≡ p * 256 =
      ap (λ (t : ℕ). 2 ^ t) (let e : 8 * (i + 1) ≡ 8 * i + 8 = omega arith in e)
      ∙ pow-add 2 (8 * i) 8 in
    let scaled : suc b * p ≤ 256 * p = mul-le-mul h (le_refl p) in
    let small : b * p < 2 ^ w = omega (
      arith,
      scaled,
      next,
      two-pow-pos (8 * i),
      pow-le-pow_right {n = 2} (omega arith) {i = 8 * (i + 1)} {j = w} (omega arith),
    ) in
    rw (mod-eq_of_lt small, bit_or-shift (8 * i) v b hv)
      (or_bytes-value w (i + 1) (v + b * p) bs hs (omega arith) (omega (arith, scaled, next))
        ∙ omega (arith, ap (λ (t : ℕ). t * value 256 bs) next))

-- A number in n bytes, the lowest first.
pub uint_bytes : ℕ → ℕ → List ℕ
uint_bytes n m = digits 256 n m

take_uint-append :
    (w n m : ℕ) (ys : List ℕ)
    → 8 * n ≤ w
    → m < 256 ^ n
    → take_uint w n (uint_bytes n m ++ ys) ≡ some (m, ys)
unfolding take_uint uint_bytes
take_uint-append w n m ys fits h =
    let size = length-digits 256 n m in
    rw (take_bytes-append n (digits 256 n m) ys size) (
      ap (λ (t : ℕ). some (t, ys))
        (or_bytes-value w 0 0 (digits 256 n m) (digits-IsBelow 256 n m (omega arith)) (omega arith)
            (omega arith)
          ∙ omega (arith, value-digits 256 n m (omega arith) h)))

abbrev pub joined : List (List ℕ) → List ℕ
joined [] = []
joined (s ∷ ss) = s ++ joined ss

take_siblings-append :
    (ss : List (List ℕ)) (ys : List ℕ)
    → All (λ s. length s ≡ 32) ss
    → take_siblings (length ss) (joined ss ++ ys) ≡ some (ss, ys)
unfolding take_siblings
take_siblings-append [] ys h = refl
take_siblings-append (s ∷ ss) ys (h, hs) = rw (
  append_assoc s (joined ss) ys,
  take_bytes-append 32 s (joined ss ++ ys) h,
  take_siblings-append ss ys hs,
)

-- The bytes of a request, with what follows it.
pub wire : WithdrawalRequest → List ℕ → List ℕ
wire r tail =
    r.recipient_bhc_address
    ++ (uint_bytes 8 r.amount
        ++ (uint_bytes 8 r.l2_block_number
            ++ (r.l2_transaction_hash
                ++ (uint_bytes 4 (length r.merkle_proof.siblings)
                    ++ (joined r.merkle_proof.siblings
                        ++ (r.signature
                            ++ (r.mldsa_pubkey ++ (uint_bytes 8 r.request_timestamp ++ tail))))))))

-- The sizes and ranges of the fields that are read.
pub record IsWired (r : WithdrawalRequest) : Type 0 where
  pub recipient_size : length r.recipient_bhc_address ≡ 25
  pub amount_fits : r.amount < 256 ^ 8
  pub block_fits : r.l2_block_number < 256 ^ 8
  pub hash_size : length r.l2_transaction_hash ≡ 32
  pub count_fits : length r.merkle_proof.siblings < 256 ^ 4
  pub sibling_sizes : All (λ s. length s ≡ 32) r.merkle_proof.siblings
  pub signature_size : length r.signature ≡ 3293
  pub pubkey_size : length r.mldsa_pubkey ≡ 1952
  pub time_fits : r.request_timestamp < 256 ^ 8

-- What is not read: the fields that the parser sets itself, or leaves as they are.
pub defaults : L2StateRoot → ℕ → WithdrawalRequest → WithdrawalRequest
defaults blank_root blank_path r = record r {
  state_root = blank_root;
  merkle_proof = record { siblings = r.merkle_proof.siblings; path = blank_path; leaf_hash = [] };
  status = pending;
  challenge_end_time = (r.request_timestamp + challenge_period_seconds) % 2 ^ 64;
  challenge_reason = [];
}

read_request-wire :
    (blank_root : L2StateRoot) (blank_path : ℕ) (r : WithdrawalRequest) (tail : List ℕ)
    → IsWired r
    → read_request blank_root blank_path (wire r tail) ≡ some (defaults blank_root blank_path r)
unfolding read_request wire defaults
read_request-wire blank_root blank_path r tail w = rw (
  take_bytes-append 25 r.recipient_bhc_address _ w.recipient_size,
  take_uint-append 64 8 r.amount _ (omega arith) w.amount_fits,
  take_uint-append 64 8 r.l2_block_number _ (omega arith) w.block_fits,
  take_bytes-append 32 r.l2_transaction_hash _ w.hash_size,
  take_uint-append 32 4 (length r.merkle_proof.siblings) _ (omega arith) w.count_fits,
  take_siblings-append r.merkle_proof.siblings _ w.sibling_sizes,
  take_bytes-append 3293 r.signature _ w.signature_size,
  take_bytes-append 1952 r.mldsa_pubkey _ w.pubkey_size,
  take_uint-append 64 8 r.request_timestamp tail (omega arith) w.time_fits,
)

-- For a request whose fields have the sizes of the layout, the parser reads its bytes, whatever
-- follows them, as that request, with status PENDING, the challenge time set 7 days after the
-- request (modulo 2 ^ 64), no leaf hash, no reason, and the unset fields as they were.
pub parse-wire :
    (blank_root : L2StateRoot) (blank_path : ℕ) (r : WithdrawalRequest) (tail : List ℕ)
    → IsWired r
    → parse_withdrawal_request blank_root blank_path (wire r tail)
      ≡ parsed (defaults blank_root blank_path r)
unfolding parse_withdrawal_request
parse-wire blank_root blank_path r tail w =
    let e = read_request-wire blank_root blank_path r tail w in
    let size = read_request-size blank_root blank_path (wire r tail) _ e in
    rw (e, long_enough (length (wire r tail)) (le_trans (omega arith) size))
