-- ===== src/Fips204/BitIo/Reads.antt =====
-- What a BitReader still has to read, as a number.
use bht_bhte.Prelude.{
  ℕ, zero, suc, ◌+◌, ◌-◌, ◌*◌, ◌/◌, ◌%◌, ◌^◌, ◌≤◌, ◌<◌, ◌≡◌, refl, sym, ap, ◌∙◌, List, [], ◌∷◌,
  arith, ltb, inl, inr, Bool-cases, bit_or,
}
use bht_bhte.Prelude.Bits.{pow-add, bit_or-shift, bit_and-mask, two-pow-pos}
use bht_bhte.Prelude.Radix.{IsBelow, value}
use bht_bhte.Fips204.BitIo.{BitReader, next_byte, refill, take_bits, read}
use native.Mathlib.Nat.{
  mod-eq_of_lt, pow-le-pow_right, mul-le-mul, le_refl, add-mul-mod_self_left, add-mul-div_left,
  div-lt_iff_lt-mul,
}

abbrev pub unread : BitReader → ℕ
unread r = r.cur + 2 ^ r.nbits * value 256 r.rest

pub record IsPartial (r : BitReader) : Type 0 where
  pub bytes : IsBelow 256 r.rest
  pub fits : r.cur < 2 ^ r.nbits

next_byte-value :
    (bs : List ℕ)
    → IsBelow 256 bs
    → ((next_byte bs).0 < 256)
      × IsBelow 256 (next_byte bs).1
      × (value 256 bs ≡ (next_byte bs).0 + 256 * value 256 (next_byte bs).1)
unfolding next_byte
next_byte-value [] h = (omega arith, tt, omega arith)
next_byte-value (b ∷ bs) (h, hs) = (h, hs, refl)

abbrev step : BitReader → BitReader
step r = record {
  rest = (next_byte r.rest).1;
  cur = bit_or r.cur ((next_byte r.rest).0 * 2 ^ r.nbits % 2 ^ 64);
  nbits = r.nbits + 8;
}

step_cur :
    (r : BitReader)
    → r.nbits ≤ 32
    → IsPartial r
    → (step r).cur ≡ r.cur + (next_byte r.rest).0 * 2 ^ r.nbits
step_cur r h p =
    let b = (next_byte r.rest).0 in
    let small : b * 2 ^ r.nbits < 2 ^ 64 = omega (
      arith,
      mul-le-mul (let e : suc b ≤ 256 = (next_byte-value r.rest p.bytes).0 in e)
          (le_refl (2 ^ r.nbits)),
      pow-le-pow_right {n = 2} (omega arith) h,
      two-pow-pos r.nbits,
    ) in
    rw (mod-eq_of_lt small) (bit_or-shift r.nbits r.cur b p.fits)

step-IsPartial : (r : BitReader) → r.nbits ≤ 32 → IsPartial r → IsPartial (step r)
step-IsPartial r h p = record {
  bytes = (next_byte-value r.rest p.bytes).1;
  fits =
      rw (step_cur r h p, pow-add)
        (omega (
          arith,
          p.fits,
          mul-le-mul
              (let e : suc ((next_byte r.rest).0) ≤ 256 = (next_byte-value r.rest p.bytes).0 in e)
              (le_refl (2 ^ r.nbits)),
        ));
}

unread-step : (r : BitReader) → r.nbits ≤ 32 → IsPartial r → unread (step r) ≡ unread r
unread-step r h p =
    rw (step_cur r h p, pow-add 2 r.nbits 8)
      (omega (arith, ap (λ (t : ℕ). 2 ^ r.nbits * t) (next_byte-value r.rest p.bytes).2))

record Refilled (bits : ℕ) (r s : BitReader) : Type 0 where
  partial : IsPartial s
  same_unread : unread s ≡ unread r
  enough : bits ≤ s.nbits

refill-Refilled :
    (fuel bits : ℕ) (r : BitReader)
    → bits ≤ 32
    → bits ≤ r.nbits + fuel
    → IsPartial r
    → Refilled bits r (refill fuel bits r)
unfolding refill
refill-Refilled zero bits r hb h p = record {
  partial = p;
  same_unread = refl;
  enough = omega arith;
}
refill-Refilled (suc fuel) bits r hb h p = elim (Bool-cases (ltb r.nbits bits)) [
  | inl more ↦
      let small : r.nbits ≤ 32 = ground arith in
      let ih = refill-Refilled fuel bits (step r) hb (omega arith) (step-IsPartial r small p) in
      rw more (record {
        partial = ih.partial;
        same_unread = ih.same_unread ∙ unread-step r small p;
        enough = ih.enough;
      })
  | inr done ↦ rw done (record { partial = p; same_unread = refl; enough = ground arith })
]

-- One call of `read` takes the low `bits` bits of what is unread.
pub record Read (bits : ℕ) (r : BitReader) (res : ℕ × BitReader) : Type 0 where
  pub partial : IsPartial res.1
  pub result : res.0 ≡ unread r % 2 ^ bits
  pub remains : unread res.1 ≡ unread r / 2 ^ bits

take_bits-Read :
    (bits : ℕ) (r : BitReader) → bits ≤ r.nbits → IsPartial r → Read bits r (take_bits r bits)
unfolding take_bits
take_bits-Read bits r h p =
    let left = 2 ^ (r.nbits - bits) in
    let v = value 256 r.rest in
    let split : 2 ^ r.nbits ≡ 2 ^ bits * left =
      ap (λ (t : ℕ). 2 ^ t) (omega arith) ∙ pow-add 2 bits (r.nbits - bits) in
    let whole : unread r ≡ r.cur + 2 ^ bits * (left * v) =
      omega (arith, ap (λ (t : ℕ). t * v) split) in
    record {
      partial = record {
        bytes = p.bytes;
        fits = (div-lt_iff_lt-mul (two-pow-pos bits)).1 (omega (arith, split, p.fits));
      };
      result =
          bit_and-mask bits r.cur
          ∙ sym (
              ap (λ (t : ℕ). t % 2 ^ bits) whole
              ∙ add-mul-mod_self_left r.cur (2 ^ bits) (left * v));
      remains = sym (
          ap (λ (t : ℕ). t / 2 ^ bits) whole
          ∙ add-mul-div_left r.cur (left * v) (two-pow-pos bits));
    }

pub read-Read : (bits : ℕ) (r : BitReader) → bits ≤ 32 → IsPartial r → Read bits r (read r bits)
unfolding read
read-Read bits r hb p =
    let f = refill-Refilled bits bits r hb (omega arith) p in
    let t = take_bits-Read bits (refill bits bits r) f.enough f.partial in
    record {
      partial = t.partial;
      result = t.result ∙ ap (λ (t : ℕ). t % 2 ^ bits) f.same_unread;
      remains = t.remains ∙ ap (λ (t : ℕ). t / 2 ^ bits) f.same_unread;
    }
