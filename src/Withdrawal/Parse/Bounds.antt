-- ===== src/Withdrawal/Parse/Bounds.antt =====
-- How many bytes ParseWithdrawalRequest reads, and what its size check admits.
use bht_bhte.Prelude.{
  ℕ, zero, suc, ◌+◌, ◌≤◌, ◌<◌, ◌≡◌, refl, ap, ◌∙◌, List, Option, none, some, arith, ltb, false,
  Option-cases, inl, inr, length, length-drop,
}
use bht_bhte.Withdrawal.{L2StateRoot, WithdrawalRequest}
use bht_bhte.Withdrawal.Parse.{
  take_bytes, take_uint, take_siblings, read_request, parse_withdrawal_request, out_of_bounds,
  ◌>>=◌,
}

take_bytes-size :
    (n : ℕ) (xs a rest : List ℕ) → take_bytes n xs ≡ some (a, rest) → length xs ≡ n + length rest
unfolding take_bytes
take_bytes-size n xs a rest e = ground (arith, length-drop n xs)

bind-eq-some {ℓ κ} :
    {A : Type ℓ} {B : Type κ} (m : Option A) (f : A → Option B) {b : B}
    → (m >>= f) ≡ some b
    → (a : A) × (m ≡ some a) × (f a ≡ some b)
bind-eq-some none f e = cc
bind-eq-some (some a) f e = (a, refl, e)

take_uint-size :
    (w n : ℕ) (xs : List ℕ) (m : ℕ) (rest : List ℕ)
    → take_uint w n xs ≡ some (m, rest)
    → length xs ≡ n + length rest
unfolding take_uint
take_uint-size w n xs m rest e =
    let ((bytes, more), found, done) = bind-eq-some (take_bytes n xs) _ e in
    let same : more ≡ rest = cc in
    take_bytes-size n xs bytes more found ∙ ap (λ r. n + length r) same

take_siblings-size :
    (n : ℕ) (xs : List ℕ) (ss : List (List ℕ)) (rest : List ℕ)
    → take_siblings n xs ≡ some (ss, rest)
    → length rest ≤ length xs
unfolding take_siblings
take_siblings-size zero xs ss rest e = let same : xs ≡ rest = cc in omega (arith, ap length same)
take_siblings-size (suc n) xs ss rest e =
    let ((s, more), found, next) = bind-eq-some (take_bytes 32 xs) _ e in
    let ((more_ss, rest'), found', done) = bind-eq-some (take_siblings n more) _ next in
    let same : rest' ≡ rest = cc in
    omega (
      arith,
      take_bytes-size 32 xs s more found,
      take_siblings-size n more more_ss rest' found',
      ap length same,
    )

sizes_add :
    {n₀ n₁ n₂ n₃ n₄ n₅ n₆ n₇ n₈ : ℕ} (n₉ : ℕ)
    → n₀ ≡ 25 + n₁
    → n₁ ≡ 8 + n₂
    → n₂ ≡ 8 + n₃
    → n₃ ≡ 32 + n₄
    → n₄ ≡ 4 + n₅
    → n₆ ≤ n₅
    → n₆ ≡ 3293 + n₇
    → n₇ ≡ 1952 + n₈
    → n₈ ≡ 8 + n₉
    → 5330 ≤ n₀
sizes_add n₉ e₁ e₂ e₃ e₄ e₅ e₆ e₇ e₈ e₉ = omega arith

pub long_enough : (n : ℕ) → 128 ≤ n → ltb n 128 ≡ false
long_enough n h = ground arith

-- The fixed fields alone take 5330 bytes.
pub read_request-size :
    (blank_root : L2StateRoot) (blank_path : ℕ) (raw : List ℕ) (r : WithdrawalRequest)
    → read_request blank_root blank_path raw ≡ some r
    → 5330 ≤ length raw
unfolding read_request
read_request-size blank_root blank_path raw r e =
    let ((a₁, r₁), f₁, e₁) = bind-eq-some (take_bytes 25 raw) _ e in
    let ((a₂, r₂), f₂, e₂) = bind-eq-some (take_uint 64 8 r₁) _ e₁ in
    let ((a₃, r₃), f₃, e₃) = bind-eq-some (take_uint 64 8 r₂) _ e₂ in
    let ((a₄, r₄), f₄, e₄) = bind-eq-some (take_bytes 32 r₃) _ e₃ in
    let ((a₅, r₅), f₅, e₅) = bind-eq-some (take_uint 32 4 r₄) _ e₄ in
    let ((a₆, r₆), f₆, e₆) = bind-eq-some (take_siblings a₅ r₅) _ e₅ in
    let ((a₇, r₇), f₇, e₇) = bind-eq-some (take_bytes 3293 r₆) _ e₆ in
    let ((a₈, r₈), f₈, e₈) = bind-eq-some (take_bytes 1952 r₇) _ e₇ in
    let ((a₉, r₉), f₉, e₉) = bind-eq-some (take_uint 64 8 r₈) _ e₈ in
    sizes_add (length r₉) (take_bytes-size 25 raw a₁ r₁ f₁) (take_uint-size 64 8 r₁ a₂ r₂ f₂)
      (take_uint-size 64 8 r₂ a₃ r₃ f₃) (take_bytes-size 32 r₃ a₄ r₄ f₄)
      (take_uint-size 32 4 r₄ a₅ r₅ f₅) (take_siblings-size a₅ r₅ a₆ r₆ f₆)
      (take_bytes-size 3293 r₆ a₇ r₇ f₇) (take_bytes-size 1952 r₇ a₈ r₈ f₈)
      (take_uint-size 64 8 r₈ a₉ r₉ f₉)

-- The size check admits every vector of 128 bytes, but the fixed fields take 5330: on any vector of
-- 128 up to 5329 bytes the parser reads past the end.
pub parse_short :
    (blank_root : L2StateRoot) (blank_path : ℕ) (raw : List ℕ)
    → 128 ≤ length raw
    → length raw < 5330
    → parse_withdrawal_request blank_root blank_path raw ≡ out_of_bounds
unfolding parse_withdrawal_request
parse_short blank_root blank_path raw lo hi =
    let long = long_enough (length raw) lo in
    elim (Option-cases (read_request blank_root blank_path raw)) [
      | inl e ↦ rw (long, e)
      | inr (r, e) ↦ absurd (omega (arith, read_request-size blank_root blank_path raw r e))
    ]
