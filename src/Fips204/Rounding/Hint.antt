-- ===== src/Fips204/Rounding/Hint.antt =====
-- decompose, and the hint by which a verifier recovers the signer's high bits.
use bht_bhte.Prelude.{
  ℕ, ◌+◌, ◌-◌, ◌*◌, ◌/◌, ◌%◌, ◌<◌, ◌≤◌, ◌≡◌, ◌≢◌, ◌⊎◌, inl, inr, arith, if◌then◌else◌, ◌==◌, sym,
  ap, ◌∙◌, Bool, true, false, ltb, Bool-cases,
}
use bht_bhte.Prelude.Int.{ℤ, pos, negsuc, ◌+ℤ◌, ◌-ℤ◌, ◌*ℤ◌, ◌≤ℤ◌, ◌<ℤ◌, ◌==ℤ◌, rem, ltb_ℤ}
use bht_bhte.Fips204.Field.{q, mod_q}
use bht_bhte.Fips204.Rounding.{decompose, high_bits, use_hint}
use bht_bhte.Fips204.Rounding.Parts.{
  IsGamma2, residue, mod_q-residue, nearest, top, high, low, decompose_lem,
}

-- The way that a hint turns a high part, and the part below which it turns up.
turn : Bool → ℕ → ℕ → ℕ
turn true n m = (n + 1) % m
turn false n m = (n + m - 1) % m

above : ℕ → ℕ → Bool
above x g = if nearest x g == top g then false else ltb (2 * g * nearest x g) x

turn-lt : (up : Bool) (n m : ℕ) → (m ≡ 44) ⊎ (m ≡ 16) → turn up n m < m
unfolding turn
turn-lt true n m (inl e) = rw e (omega arith)
turn-lt true n m (inr e) = rw e (omega arith)
turn-lt false n m (inl e) = rw e (omega arith)
turn-lt false n m (inr e) = rw e (omega arith)

high-lt : (x g : ℕ) → IsGamma2 g → x < q → high x g < top g
high-lt x g (inl e) h = rw e (ground arith)
high-lt x g (inr e) h = rw e (ground arith)

low-above : (x g : ℕ) → IsGamma2 g → x < q → ltb_ℤ (pos 0) (low x g) ≡ above x g
unfolding above
low-above x g (inl e) h = rw e (ground arith)
low-above x g (inr e) h = rw e (ground arith)

lifted : ℤ → ℕ → ℤ
lifted r m = if ltb_ℤ r (pos 0) then r +ℤ pos m else r

wrap-turn :
    (up : Bool) (n m : ℕ)
    → (m ≡ 44) ⊎ (m ≡ 16)
    → n < m
    → lifted (rem (if up then pos n +ℤ pos 1 else pos n -ℤ pos 1) m) m ≡ pos (turn up n m)
unfolding turn lifted ◌+ℤ◌ ◌-ℤ◌
wrap-turn true n m (inl e) h = rw e (ground arith)
wrap-turn true n m (inr e) h = rw e (ground arith)
wrap-turn false n m (inl e) h = rw e (ground arith)
wrap-turn false n m (inr e) h = rw e (ground arith)

top_cases : (g : ℕ) → IsGamma2 g → (top g ≡ 44) ⊎ (top g ≡ 16)
top_cases g (inl e) = inl (rw e)
top_cases g (inr e) = inr (rw e)

abbrev IsClose : ℕ → ℕ → ℕ → Type 0
IsClose g x y = (y ≤ x + g) × (x ≤ y + g) ⊎ ((y + q ≤ x + g) ⊎ (x + q ≤ y + g))

abbrev Turns : ℕ → ℕ → ℕ → Type 0
Turns g x y = high x g ≢ high y g → turn (above y g) (high y g) (top g) ≡ high x g

Turns-44 : (x y : ℕ) → x < q → y < q → IsClose 95232 x y → Turns 95232 x y
unfolding turn above
Turns-44 x y hx hy (inl h) n = ground arith
Turns-44 x y hx hy (inr (inl h)) n = ground arith
Turns-44 x y hx hy (inr (inr h)) n = ground arith

Turns-16 : (x y : ℕ) → x < q → y < q → IsClose 261888 x y → Turns 261888 x y
unfolding turn above
Turns-16 x y hx hy (inl h) n = ground arith
Turns-16 x y hx hy (inr (inl h)) n = ground arith
Turns-16 x y hx hy (inr (inr h)) n = ground arith

turns : (g x y : ℕ) → IsGamma2 g → x < q → y < q → IsClose g x y → Turns g x y
turns g x y (inl e) hx hy = rw e (Turns-44 x y hx hy)
turns g x y (inr e) hx hy = rw e (Turns-16 x y hx hy)

use_hint-turn :
    (r : ℤ) (g : ℕ)
    → IsGamma2 g
    → let y = residue r in
      (use_hint (pos 0) r g ≡ pos (high y g))
      × (use_hint (pos 1) r g ≡ pos (turn (above y g) (high y g) (top g)))
unfolding use_hint
use_hint-turn r g h =
    let y = residue r in
    let lt = (mod_q-residue r).1 in
    (
      ap (λ p. p.0) (decompose_lem r g h),
      rw (decompose_lem r g h, low-above y g h lt)
          (unfold lifted in
            wrap-turn (above y g) (high y g) (top g) (top_cases g h) (high-lt y g h lt)),
    )

high_bits-high : (r : ℤ) (g : ℕ) → IsGamma2 g → high_bits r g ≡ pos (high (residue r) g)
unfolding high_bits
high_bits-high r g h = ap (λ p. p.0) (decompose_lem r g h)

-- Reduction moves a sum by a multiple of q.
residue-IsClose :
    (w d : ℤ) (g : ℕ)
    → IsGamma2 g
    → pos 0 -ℤ pos g ≤ℤ d
    → d ≤ℤ pos g
    → IsClose g (residue w) (residue (w +ℤ d))
unfolding residue mod_q ◌+ℤ◌ ◌-ℤ◌
residue-IsClose (pos w) (pos d) g (inl e) lo hi = ground arith
residue-IsClose (pos w) (pos d) g (inr e) lo hi = ground arith
residue-IsClose (negsuc w) (pos d) g (inl e) lo hi = ground arith
residue-IsClose (negsuc w) (pos d) g (inr e) lo hi = ground arith
residue-IsClose (pos w) (negsuc d) g (inl e) lo hi = ground arith
residue-IsClose (pos w) (negsuc d) g (inr e) lo hi = ground arith
residue-IsClose (negsuc w) (negsuc d) g (inl e) lo hi = ground arith
residue-IsClose (negsuc w) (negsuc d) g (inr e) lo hi = ground arith

hinted :
    (f : ℤ → ℤ) (a b t : ℕ)
    → f (pos 0) ≡ pos b
    → f (pos 1) ≡ pos t
    → (a ≢ b → t ≡ a)
    → f (if pos b ==ℤ pos a then pos 0 else pos 1) ≡ pos a
hinted f a b t e₀ e₁ h = elim (Bool-cases (pos b ==ℤ pos a)) [
  | inl same ↦ rw same (e₀ ∙ ground arith)
  | inr differ ↦ rw differ (e₁ ∙ ap pos (h (ground arith)))
]

-- For both values of gamma2 and |d| <= gamma2: with the hint "the high bits of w + d and of w
-- differ", as the signer makes it, useHint of w + d gives the high bits of w.
pub use_hint-high_bits :
    (w d : ℤ) (g : ℕ)
    → IsGamma2 g
    → pos 0 -ℤ pos g ≤ℤ d
    → d ≤ℤ pos g
    → use_hint (if high_bits (w +ℤ d) g ==ℤ high_bits w g then pos 0 else pos 1) (w +ℤ d) g
      ≡ high_bits w g
use_hint-high_bits w d g h lo hi =
    let x = residue w in
    let y = residue (w +ℤ d) in
    let t =
      turns g x y h (mod_q-residue w).1 (mod_q-residue (w +ℤ d)).1
        (residue-IsClose w d g h lo hi) in
    let u = use_hint-turn (w +ℤ d) g h in
    rw (high_bits-high w g h, high_bits-high (w +ℤ d) g h)
      (hinted (λ c. use_hint c (w +ℤ d) g) (high x g) (high y g) _ u.0 u.1 t)

-- For both values of gamma2, useHint stays in 0 <= r1 < (Q - 1) / (2 gamma2), for hint 0 and 1.
pub use_hint_range :
    (h : Bool) (r : ℤ) (g : ℕ)
    → IsGamma2 g
    → let r1 = use_hint (if h then pos 1 else pos 0) r g in
      (pos 0 ≤ℤ r1) × (r1 <ℤ pos ((q - 1) / (2 * g)))
use_hint_range true r g h =
    rw ((use_hint-turn r g h).1)
      (omega (arith, turn-lt (above (residue r) g) (high (residue r) g) (top g) (top_cases g h)))
use_hint_range false r g h =
    rw ((use_hint-turn r g h).0) (omega (arith, high-lt (residue r) g h (mod_q-residue r).1))

recombined : ℕ → ℕ → ℤ
recombined x g = pos (high x g) *ℤ pos (2 * g) +ℤ low x g

recombined_lem : (x g : ℕ) → x < q → IsGamma2 g → mod_q (recombined x g) ≡ pos x
unfolding ◌+ℤ◌ ◌*ℤ◌ mod_q recombined
recombined_lem x g h (inl e) = rw e (ground arith)
recombined_lem x g h (inr e) = rw e (ground arith)

low_range : (x g : ℕ) → x < q → IsGamma2 g → (pos 0 -ℤ pos g ≤ℤ low x g) × (low x g ≤ℤ pos g)
unfolding ◌-ℤ◌
low_range x g h (inl e) = rw e (ground arith)
low_range x g h (inr e) = rw e (ground arith)

-- For both values of gamma2, decompose gives 0 <= r1 < (Q - 1) / (2 gamma2) and
-- -gamma2 <= r0 <= gamma2, with r1 * 2 gamma2 + r0 equal to r modulo Q.
pub decompose_parts :
    (r : ℤ) (g : ℕ)
    → IsGamma2 g
    → let (r1, r0) = decompose r g in
      (pos 0 ≤ℤ r1)
      × (r1 <ℤ pos ((q - 1) / (2 * g)))
      × (pos 0 -ℤ pos g ≤ℤ r0)
      × (r0 ≤ℤ pos g)
      × (mod_q (r1 *ℤ pos (2 * g) +ℤ r0) ≡ mod_q r)
unfolding recombined
decompose_parts r g h =
    let x = residue r in
    let below = (mod_q-residue r).1 in
    let (lo, hi) = low_range x g below h in
    rw (decompose_lem r g h) (
      omega arith,
      omega (arith, high-lt x g h below),
      lo,
      hi,
      recombined_lem x g below h ∙ sym (mod_q-residue r).0,
    )
