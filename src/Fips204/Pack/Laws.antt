-- ===== src/Fips204/Pack/Laws.antt =====
-- Packing as a change of base, between the digits that are bytes and those that are coefficients.
use bht_bhte.Prelude.{
  ℕ, zero, suc, ◌*◌, ◌^◌, ◌≤◌, ◌<◌, ◌≡◌, refl, sym, ap, ◌∙◌, subst, List, [], ◌∷◌, arith, length,
  length-map, map, foldl, All,
}
use bht_bhte.Prelude.Bits.{two-pow-pos, pow-mul}
use bht_bhte.Prelude.Radix.{
  IsBelow, value, digits, digits-value, digits-value_at, length-digits, digits-IsBelow,
  value-digits, value-lt,
}
use bht_bhte.Prelude.Int.{ℤ}
use bht_bhte.Fips204.Field.{nn, Poly}
use bht_bhte.Fips204.BitIo.{BitWriter, BitReader, bit_writer, bit_reader, write, read}
use bht_bhte.Fips204.BitIo.Writes.{IsFilled, writes-Wrote, count, written}
use bht_bhte.Fips204.BitIo.Reads.{IsPartial, read-Read, unread}
use bht_bhte.Fips204.Pack.{reads}
use mathlib.Core.Path.{ap₂}
use mathlib.Core.List.{foldl-map}

reads-digits :
    (n bits : ℕ) (r : BitReader)
    → bits ≤ 32
    → IsPartial r
    → reads n r bits ≡ digits (2 ^ bits) n (unread r)
unfolding reads
reads-digits zero bits r hb p = refl
reads-digits (suc n) bits r hb p =
    let one = read-Read bits r hb p in
    ap₂ ◌∷◌ one.result
      (reads-digits n bits (read r bits).1 hb one.partial ∙ ap (digits (2 ^ bits) n) one.remains)

-- Reading n words gives back the digits that the bytes were made of.
reads_back :
    (n k bits : ℕ) (vals : List ℕ)
    → bits ≤ 32
    → length vals ≡ n
    → IsBelow (2 ^ bits) vals
    → 256 ^ k ≡ (2 ^ bits) ^ n
    → reads n (bit_reader (digits 256 k (value (2 ^ bits) vals))) bits ≡ vals
reads_back n k bits vals hb size below range =
    let m = value (2 ^ bits) vals in
    let fits : m < 256 ^ k =
      subst (λ (t : ℕ). m < t) (ap (λ (t : ℕ). (2 ^ bits) ^ t) size ∙ sym range)
        (value-lt (2 ^ bits) vals below) in
    reads-digits n bits _ hb
      (record { bytes = digits-IsBelow 256 k m (omega arith); fits = omega arith })
    ∙ ap (digits (2 ^ bits) n) (omega (arith, value-digits 256 k m (omega arith) fits))
    ∙ digits-value_at (2 ^ bits) n vals size below

-- The words that are read from k bytes are digits of the bytes' number.
value-reads :
    (n k bits : ℕ) (buf : List ℕ)
    → bits ≤ 32
    → length buf ≡ k
    → IsBelow 256 buf
    → 256 ^ k ≡ (2 ^ bits) ^ n
    → value (2 ^ bits) (reads n (bit_reader buf) bits) ≡ value 256 buf
value-reads n k bits buf hb size below range =
    let m = value 256 buf in
    let fits : m < (2 ^ bits) ^ n =
      subst (λ (t : ℕ). m < t) (ap (λ (t : ℕ). 256 ^ t) size ∙ range) (value-lt 256 buf below) in
    ap (value (2 ^ bits)) (
      reads-digits n bits _ hb (record { bytes = below; fits = omega arith })
      ∙ ap (digits (2 ^ bits) n) (omega arith))
    ∙ value-digits (2 ^ bits) n m (two-pow-pos bits) fits

pub reads-IsBelow :
    (n bits : ℕ) (buf : List ℕ)
    → bits ≤ 32
    → IsBelow 256 buf
    → IsBelow (2 ^ bits) (reads n (bit_reader buf) bits)
      × (length (reads n (bit_reader buf) bits) ≡ n)
reads-IsBelow n bits buf hb below =
    let e =
      reads-digits n bits (bit_reader buf) hb (record { bytes = below; fits = omega arith }) in
    let m = unread (bit_reader buf) in
    (
      subst (IsBelow (2 ^ bits)) (sym e) (digits-IsBelow (2 ^ bits) n m (two-pow-pos bits)),
      ap length e ∙ length-digits (2 ^ bits) n m,
    )

-- After 256 coefficients no bit is left over.
out_of_full :
    (bits : ℕ) (v : BitWriter) (m : ℕ)
    → IsFilled v
    → v.nbits < 8
    → count v ≡ bits * 256
    → written v ≡ m
    → v.out ≡ digits 256 (32 * bits) m
out_of_full bits v m f below counts writes =
    let rest : v.nbits ≡ 0 = omega arith in
    let size : length v.out ≡ 32 * bits = omega arith in
    let empty : v.cur ≡ 0 = omega (arith, subst (λ (t : ℕ). v.cur < 2 ^ t) rest f.fits) in
    let whole : value 256 v.out ≡ m =
      omega (arith, writes, ap (λ (t : ℕ). 256 ^ length v.out * t) empty) in
    sym (digits-value 256 v.out f.bytes) ∙ ap₂ (digits 256) size whole

full_pack :
    (bits : ℕ) (vals : List ℕ)
    → bits ≤ 32
    → length vals ≡ nn
    → IsBelow (2 ^ bits) vals
    → (foldl (λ w v. write w v bits) bit_writer vals).out
      ≡ digits 256 (32 * bits) (value (2 ^ bits) vals)
full_pack bits vals hb hl h =
    let w =
      writes-Wrote bits hb bit_writer vals (omega arith) (record { bytes = tt; fits = omega arith })
        h in
    out_of_full bits _ (value (2 ^ bits) vals) w.filled w.below
      (w.counts ∙ omega (arith, ap (λ (t : ℕ). bits * t) hl)) (w.writes ∙ omega arith)

-- 256 coefficients take as many bits as the bytes.
pub same_range : (bits : ℕ) → 256 ^ (32 * bits) ≡ (2 ^ bits) ^ nn
same_range bits =
    sym (pow-mul 2 8 (32 * bits)) ∙ ap (λ (t : ℕ). 2 ^ t) (omega arith) ∙ pow-mul 2 bits nn

module _ (enc : ℤ → ℕ) (dec : ℕ → ℤ) (bits : ℕ) (hb : bits ≤ 32) where
  abbrev pub packed : Poly → List ℕ
  packed p = (foldl (λ w c. write w (enc c) bits) bit_writer p).out

  abbrev pub unpacked : List ℕ → Poly
  unpacked buf = map dec (reads nn (bit_reader buf) bits)

  abbrev pub Fits : Poly → Type 0
  Fits = All λ c. (enc c < 2 ^ bits) × (dec (enc c) ≡ c)

  Fits-IsBelow : (p : Poly) → Fits p → IsBelow (2 ^ bits) (map enc p)
  Fits-IsBelow [] h = tt
  Fits-IsBelow (c ∷ p) (h, hs) = (h.0, Fits-IsBelow p hs)

  Fits-inverse : (p : Poly) → Fits p → map dec (map enc p) ≡ p
  Fits-inverse [] h = refl
  Fits-inverse (c ∷ p) (h, hs) = ap₂ ◌∷◌ h.1 (Fits-inverse p hs)

  pub packed-digits :
      (p : Poly)
      → length p ≡ nn
      → Fits p
      → packed p ≡ digits 256 (32 * bits) (value (2 ^ bits) (map enc p))
  packed-digits p hl h =
      ap (λ (w : BitWriter). w.out) (sym (foldl-map enc (λ w v. write w v bits) p bit_writer))
      ∙ full_pack bits (map enc p) hb (length-map p enc ∙ hl) (Fits-IsBelow p h)

  pub unpacked-packed : (p : Poly) → length p ≡ nn → Fits p → unpacked (packed p) ≡ p
  unpacked-packed p hl h =
      ap unpacked (packed-digits p hl h)
      ∙ ap (map dec) (
          reads_back nn (32 * bits) bits (map enc p) hb (length-map p enc ∙ hl) (Fits-IsBelow p h)
            (same_range bits))
      ∙ Fits-inverse p h

  -- `enc` undoes `dec` on every word that can be read.
  abbrev pub Opens : List ℕ → Type 0
  Opens = All λ v. enc (dec v) ≡ v

  Opens-inverse : (vals : List ℕ) → Opens vals → map enc (map dec vals) ≡ vals
  Opens-inverse [] h = refl
  Opens-inverse (v ∷ vals) (h, hs) = ap₂ ◌∷◌ h (Opens-inverse vals hs)

  pub packed-unpacked :
      (buf : List ℕ)
      → length buf ≡ 32 * bits
      → IsBelow 256 buf
      → Opens (reads nn (bit_reader buf) bits)
      → packed (unpacked buf) ≡ buf
  packed-unpacked buf size below opens =
      let vals = reads nn (bit_reader buf) bits in
      let shape = reads-IsBelow nn bits buf hb below in
      ap (λ (w : BitWriter). w.out)
        (sym (foldl-map enc (λ w v. write w v bits) (map dec vals) bit_writer))
      ∙ ap (λ vs. (foldl (λ w v. write w v bits) bit_writer vs).out) (Opens-inverse vals opens)
      ∙ full_pack bits vals hb shape.1 shape.0
      ∙ ap (digits 256 (32 * bits))
          (value-reads nn (32 * bits) bits buf hb size below (same_range bits))
      ∙ digits-value_at 256 (32 * bits) buf size below
