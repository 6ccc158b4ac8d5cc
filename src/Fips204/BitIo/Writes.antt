-- ===== src/Fips204/BitIo/Writes.antt =====
-- What a BitWriter has written, as a number.
use bht_bhte.Prelude.{
  ℕ, zero, suc, ◌+◌, ◌-◌, ◌*◌, ◌/◌, ◌%◌, ◌^◌, ◌≤◌, ◌<◌, ◌≡◌, refl, ap, ◌∙◌, List, [], ◌∷◌, ◌++◌,
  arith, leb, length, length-append, All-append, inl, inr, Bool-cases, subst, foldl,
}
use bht_bhte.Prelude.Bits.{pow-add, bit_or-shift, two-pow-pos}
use bht_bhte.Prelude.Radix.{IsBelow, value, value-append}
use bht_bhte.Fips204.BitIo.{BitWriter, flush, write}
use native.Mathlib.Nat.{
  mod-eq_of_lt, pow-suc, pow-zero, pow-le-pow_right, mul-le-mul, le_refl, div-lt_iff_lt-mul,
}

-- The bits written so far, the number that they are the binary digits of, and the weight of the
-- next bit.
abbrev pub count : BitWriter → ℕ
count w = 8 * length w.out + w.nbits

abbrev pub written : BitWriter → ℕ
written w = value 256 w.out + 256 ^ length w.out * w.cur

abbrev pub place : BitWriter → ℕ
place w = 256 ^ length w.out * 2 ^ w.nbits

pub record IsFilled (w : BitWriter) : Type 0 where
  pub bytes : IsBelow 256 w.out
  pub fits : w.cur < 2 ^ w.nbits

abbrev step : BitWriter → BitWriter
step w = record { out = w.out ++ (w.cur % 256) ∷ []; cur = w.cur / 256; nbits = w.nbits - 8 }

length-snoc : (xs : List ℕ) (x : ℕ) → length (xs ++ x ∷ []) ≡ suc (length xs)
length-snoc xs x = omega (arith, length-append xs (x ∷ []))

split_pow : (n : ℕ) → 8 ≤ n → 2 ^ n ≡ 2 ^ (n - 8) * 256
split_pow n h = ap (λ (t : ℕ). 2 ^ t) (omega arith) ∙ pow-add 2 (n - 8) 8

written-step : (w : BitWriter) → written (step w) ≡ written w
written-step w =
    let p = 256 ^ length w.out in
    rw (length-snoc w.out (w.cur % 256), value-append 256 w.out (w.cur % 256 ∷ []), pow-suc)
      (omega (
        arith,
        ap (λ (t : ℕ). p * t)
            (let e : w.cur ≡ w.cur % 256 + 256 * (w.cur / 256) = omega arith in e),
      ))

place-step : (w : BitWriter) → 8 ≤ w.nbits → place (step w) ≡ place w
place-step w h = rw (length-snoc w.out (w.cur % 256), pow-suc, split_pow w.nbits h) (omega arith)

step-IsFilled : (w : BitWriter) → 8 ≤ w.nbits → IsFilled w → IsFilled (step w)
step-IsFilled w h f = record {
  bytes = All-append _ w.out _ f.bytes (omega arith);
  fits = (div-lt_iff_lt-mul (omega arith)).1 (subst (λ t. w.cur < t) (split_pow w.nbits h) f.fits);
}

pub record Flushed (w v : BitWriter) : Type 0 where
  pub filled : IsFilled v
  pub same_count : count v ≡ count w
  pub same_written : written v ≡ written w
  pub same_place : place v ≡ place w
  pub below : v.nbits < 8

flush-Flushed :
    (fuel : ℕ) (w : BitWriter) → w.nbits < 8 + fuel → IsFilled w → Flushed w (flush fuel w)
unfolding flush
flush-Flushed zero w h f = record {
  filled = f;
  same_count = refl;
  same_written = refl;
  same_place = refl;
  below = h;
}
flush-Flushed (suc fuel) w h f = elim (Bool-cases (leb 8 w.nbits)) [
  | inl more ↦
      let big : 8 ≤ w.nbits = ground arith in
      let ih = flush-Flushed fuel (step w) (omega arith) (step-IsFilled w big f) in
      rw more (record {
        filled = ih.filled;
        same_count = ih.same_count ∙ omega (arith, length-snoc w.out (w.cur % 256));
        same_written = ih.same_written ∙ written-step w;
        same_place = ih.same_place ∙ place-step w big;
        below = ih.below;
      })
  | inr done ↦ rw done (record {
    filled = f;
    same_count = refl;
    same_written = refl;
    same_place = refl;
    below = ground arith;
  })
]

module _ (bits : ℕ) (small : bits ≤ 32) where
  shift_fits : (nbits val : ℕ) → nbits < 8 → val < 2 ^ bits → val * 2 ^ nbits < 2 ^ (nbits + bits)
  shift_fits nbits val h hv = rw pow-add (
      omega (
        arith,
        mul-le-mul (let e : suc val ≤ 2 ^ bits = hv in e) (le_refl (2 ^ nbits)),
        two-pow-pos nbits,
      ))

  no_wrap :
      (nbits val : ℕ) → nbits < 8 → val < 2 ^ bits → val * 2 ^ nbits % 2 ^ 64 ≡ val * 2 ^ nbits
  no_wrap nbits val h hv = mod-eq_of_lt (
      omega (
        arith,
        shift_fits nbits val h hv,
        pow-le-pow_right {n = 2} (omega arith) {i = nbits + bits} {j = 64} (omega arith),
      ))

  abbrev pushed : BitWriter → ℕ → BitWriter
  pushed w val = record { out = w.out; cur = w.cur + val * 2 ^ w.nbits; nbits = w.nbits + bits }

  pushed-IsFilled :
      (w : BitWriter) (val : ℕ) → IsFilled w → val < 2 ^ bits → IsFilled (pushed w val)
  pushed-IsFilled w val f hv = record {
    bytes = f.bytes;
    fits = rw pow-add (
        omega (
          arith,
          f.fits,
          mul-le-mul (let e : suc val ≤ 2 ^ bits = hv in e) (le_refl (2 ^ w.nbits)),
        ));
  }

  write-pushed :
      (w : BitWriter) (val : ℕ)
      → w.nbits < 8
      → IsFilled w
      → val < 2 ^ bits
      → write w val bits ≡ flush (w.nbits + bits) (pushed w val)
  unfolding write
  write-pushed w val h f hv = rw (no_wrap w.nbits val h hv, bit_or-shift w.nbits w.cur val f.fits)

  -- One call of `write` appends `bits` bits.
  pub record Wrote (w v : BitWriter) (vals : List ℕ) : Type 0 where
    pub filled : IsFilled v
    pub below : v.nbits < 8
    pub counts : count v ≡ count w + bits * length vals
    pub writes : written v ≡ written w + place w * value (2 ^ bits) vals
    pub places : place v ≡ place w * (2 ^ bits) ^ length vals

  pub write-Wrote :
      (w : BitWriter) (val : ℕ)
      → w.nbits < 8
      → IsFilled w
      → val < 2 ^ bits
      → Wrote w (write w val bits) (val ∷ [])
  write-Wrote w val h f hv =
      let d =
        flush-Flushed (w.nbits + bits) (pushed w val) (omega arith) (pushed-IsFilled w val f hv) in
      rw (write-pushed w val h f hv) (record {
        filled = d.filled;
        below = d.below;
        counts = d.same_count ∙ omega arith;
        writes = d.same_written ∙ omega arith;
        places = d.same_place ∙ rw (pow-add, pow-suc, pow-zero) (omega arith);
      })

  pub writes-Wrote :
      (w : BitWriter) (vals : List ℕ)
      → w.nbits < 8
      → IsFilled w
      → IsBelow (2 ^ bits) vals
      → Wrote w (foldl (λ v val. write v val bits) w vals) vals
  writes-Wrote w [] h f hv = record {
    filled = f;
    below = h;
    counts = omega arith;
    writes = omega arith;
    places = rw pow-zero (omega arith);
  }
  writes-Wrote w (v ∷ vs) h f (hv, hvs) =
      let one = write-Wrote w v h f hv in
      let more = writes-Wrote (write w v bits) vs one.below one.filled hvs in
      let next : place (write w v bits) ≡ place w * 2 ^ bits =
        one.places ∙ rw (pow-suc, pow-zero) (omega arith) in
      record {
        filled = more.filled;
        below = more.below;
        counts = more.counts ∙ omega (arith, one.counts);
        writes =
            more.writes ∙ omega (arith, one.writes, ap (λ (t : ℕ). t * value (2 ^ bits) vs) next);
        places =
            more.places
            ∙ rw (pow-suc (2 ^ bits) (length vs))
                (omega (arith, ap (λ (t : ℕ). t * (2 ^ bits) ^ length vs) next));
      }
