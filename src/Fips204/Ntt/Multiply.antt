-- ===== src/Fips204/Ntt/Multiply.antt =====
-- Pointwise products of transforms are transforms of products modulo X^256 + 1, in mldsa_fips204.h.
use native.Mathlib.Nat.{mul-zero}
use mathlib.Core.Path.{ap₂}
use bht_bhte.Prelude.{
  ℕ, ◌+◌, ◌-◌, ◌*◌, ◌%◌, ◌≡◌, refl, sym, ap, ◌∙◌, true, List, [], ◌∷◌, map, length, zip_with, take,
  All, arith, append-nil, take-length, length-map,
}
use bht_bhte.Prelude.Int.{pos, rem}
use bht_bhte.Fips204.Field.{q}
use bht_bhte.Fips204.Ntt.{mod_pow, bitrev8, ntt_forward, ntt_inverse, pointwise}
use bht_bhte.Fips204.Ntt.Butterfly.{pos-mul}
use bht_bhte.Fips204.Ntt.Layers.{roots}
use bht_bhte.Fips204.Ntt.Passes.{root_at, forward_root, up, length-roots}
use bht_bhte.Fips204.Ntt.Pairs.{IsResidue, forward_roots, pass, transform, length-pass}
use bht_bhte.Fips204.Ntt.Inverse.{forward_transform, ntt_inverse-ntt_forward}
use bht_bhte.Fips204.Ntt.Product.{product, length-product}
use bht_bhte.Fips204.Ntt.Residues.{residues}
use bht_bhte.Fips204.Ntt.LayerProducts.{
  block_products, children, are_roots, are_roots→AreRoots, blocks-products,
}

roots_1 : are_roots (forward_roots 1) ((q - 1) ∷ []) ≡ true
unfolding root_at mod_pow bitrev8 are_roots roots
roots_1 = refl

roots_2 : are_roots (forward_roots 2) (children (forward_roots 1)) ≡ true
unfolding root_at mod_pow bitrev8 are_roots roots
roots_2 = refl

roots_4 : are_roots (forward_roots 4) (children (forward_roots 2)) ≡ true
unfolding root_at mod_pow bitrev8 are_roots roots
roots_4 = refl

roots_8 : are_roots (forward_roots 8) (children (forward_roots 4)) ≡ true
unfolding root_at mod_pow bitrev8 are_roots roots
roots_8 = refl

roots_16 : are_roots (forward_roots 16) (children (forward_roots 8)) ≡ true
unfolding root_at mod_pow bitrev8 are_roots roots
roots_16 = refl

roots_32 : are_roots (forward_roots 32) (children (forward_roots 16)) ≡ true
unfolding root_at mod_pow bitrev8 are_roots roots
roots_32 = refl

roots_64 : are_roots (forward_roots 64) (children (forward_roots 32)) ≡ true
unfolding root_at mod_pow bitrev8 are_roots roots
roots_64 = refl

roots_128 : are_roots (forward_roots 128) (children (forward_roots 64)) ≡ true
unfolding root_at mod_pow bitrev8 are_roots roots
roots_128 = refl

pass-products :
    (n len : ℕ) (ws a b : List ℕ)
    → are_roots (forward_roots n) ws ≡ true
    → n * (2 * len) ≡ 256
    → length a ≡ 256
    → length b ≡ 256
    → pass n len (block_products ws (2 * len) a b)
      ≡ block_products (children (forward_roots n)) len (pass n len a) (pass n len b)
pass-products n len ws a b e fit h k =
    let size : 256 ≡ length (forward_roots n) * (2 * len) =
      sym fit ∙ ap (λ m. m * (2 * len)) (sym (length-roots forward_root up n (n - 1))) in
    blocks-products (forward_roots n) ws len a b (are_roots→AreRoots (forward_roots n) ws e)
      (h ∙ size) (k ∙ size)

one_block :
    (w : ℕ) (a b : List ℕ)
    → length a ≡ 256
    → length b ≡ 256
    → residues (product w a b) ≡ block_products (w ∷ []) 256 a b
unfolding block_products
one_block w a b h k = sym (
    append-nil (residues (product w (take 256 a) (take 256 b)))
    ∙ ap₂ (λ s t. residues (product w s t)) (ap (λ n. take n a) (sym h) ∙ take-length a)
        (ap (λ n. take n b) (sym k) ∙ take-length b))

last_layer :
    (ws a b : List ℕ)
    → length a ≡ length ws
    → length b ≡ length ws
    → block_products ws 1 a b ≡ zip_with (λ x y. x * y % q) a b
unfolding block_products
last_layer [] [] b h k = refl
last_layer [] (x ∷ a) b h k = absurd (omega arith)
last_layer (w ∷ ws) [] b h k = absurd (omega arith)
last_layer (w ∷ ws) (x ∷ a) [] h k = absurd (omega arith)
last_layer (w ∷ ws) (x ∷ a) (y ∷ b) h k =
    ap₂ ◌∷◌ (ap (λ s. (x * y + s) % q) (mul-zero w) ∙ omega arith)
      (last_layer ws a b (omega arith) (omega arith))

length-children : (zs : List ℕ) → length (children zs) ≡ 2 * length zs
length-children [] = refl
length-children (z ∷ zs) = omega (arith, length-children zs)

transform-product :
    (a b : List ℕ)
    → length a ≡ 256
    → length b ≡ 256
    → transform (residues (product (q - 1) a b))
      ≡ zip_with (λ x y. x * y % q) (transform a) (transform b)
unfolding transform
transform-product a b h k =
    let a1 = pass 1 128 a in
    let b1 = pass 1 128 b in
    let ha1 : length a1 ≡ 256 = length-pass 1 128 a refl refl h in
    let hb1 : length b1 ≡ 256 = length-pass 1 128 b refl refl k in
    let a2 = pass 2 64 a1 in
    let b2 = pass 2 64 b1 in
    let ha2 : length a2 ≡ 256 = length-pass 2 64 a1 refl refl ha1 in
    let hb2 : length b2 ≡ 256 = length-pass 2 64 b1 refl refl hb1 in
    let a4 = pass 4 32 a2 in
    let b4 = pass 4 32 b2 in
    let ha4 : length a4 ≡ 256 = length-pass 4 32 a2 refl refl ha2 in
    let hb4 : length b4 ≡ 256 = length-pass 4 32 b2 refl refl hb2 in
    let a8 = pass 8 16 a4 in
    let b8 = pass 8 16 b4 in
    let ha8 : length a8 ≡ 256 = length-pass 8 16 a4 refl refl ha4 in
    let hb8 : length b8 ≡ 256 = length-pass 8 16 b4 refl refl hb4 in
    let a16 = pass 16 8 a8 in
    let b16 = pass 16 8 b8 in
    let ha16 : length a16 ≡ 256 = length-pass 16 8 a8 refl refl ha8 in
    let hb16 : length b16 ≡ 256 = length-pass 16 8 b8 refl refl hb8 in
    let a32 = pass 32 4 a16 in
    let b32 = pass 32 4 b16 in
    let ha32 : length a32 ≡ 256 = length-pass 32 4 a16 refl refl ha16 in
    let hb32 : length b32 ≡ 256 = length-pass 32 4 b16 refl refl hb16 in
    let a64 = pass 64 2 a32 in
    let b64 = pass 64 2 b32 in
    let ha64 : length a64 ≡ 256 = length-pass 64 2 a32 refl refl ha32 in
    let hb64 : length b64 ≡ 256 = length-pass 64 2 b32 refl refl hb32 in
    let a128 = pass 128 1 a64 in
    let b128 = pass 128 1 b64 in
    let ha128 : length a128 ≡ 256 = length-pass 128 1 a64 refl refl ha64 in
    let hb128 : length b128 ≡ 256 = length-pass 128 1 b64 refl refl hb64 in
    ap
      (λ r.
        pass 128 1
          (pass 64 2 (pass 32 4 (pass 16 8 (pass 8 16 (pass 4 32 (pass 2 64 (pass 1 128 r))))))))
      (one_block (q - 1) a b h k)
    ∙ ap (λ r. pass 128 1 (pass 64 2 (pass 32 4 (pass 16 8 (pass 8 16 (pass 4 32 (pass 2 64 r)))))))
        (pass-products 1 128 ((q - 1) ∷ []) a b roots_1 refl h k)
    ∙ ap (λ r. pass 128 1 (pass 64 2 (pass 32 4 (pass 16 8 (pass 8 16 (pass 4 32 r))))))
        (pass-products 2 64 (children (forward_roots 1)) a1 b1 roots_2 refl ha1 hb1)
    ∙ ap (λ r. pass 128 1 (pass 64 2 (pass 32 4 (pass 16 8 (pass 8 16 r)))))
        (pass-products 4 32 (children (forward_roots 2)) a2 b2 roots_4 refl ha2 hb2)
    ∙ ap (λ r. pass 128 1 (pass 64 2 (pass 32 4 (pass 16 8 r))))
        (pass-products 8 16 (children (forward_roots 4)) a4 b4 roots_8 refl ha4 hb4)
    ∙ ap (λ r. pass 128 1 (pass 64 2 (pass 32 4 r)))
        (pass-products 16 8 (children (forward_roots 8)) a8 b8 roots_16 refl ha8 hb8)
    ∙ ap (λ r. pass 128 1 (pass 64 2 r))
        (pass-products 32 4 (children (forward_roots 16)) a16 b16 roots_32 refl ha16 hb16)
    ∙ ap (λ r. pass 128 1 r)
        (pass-products 64 2 (children (forward_roots 32)) a32 b32 roots_64 refl ha32 hb32)
    ∙ pass-products 128 1 (children (forward_roots 64)) a64 b64 roots_128 refl ha64 hb64
    ∙ last_layer (children (forward_roots 128)) a128 b128
        (ha128
          ∙ sym (
              length-children (forward_roots 128)
              ∙ ap (λ n. 2 * n) (length-roots forward_root up 128 127)))
        (hb128
          ∙ sym (
              length-children (forward_roots 128)
              ∙ ap (λ n. 2 * n) (length-roots forward_root up 128 127)))

pointwise-pos :
    (a b : List ℕ) → pointwise (map pos a) (map pos b) ≡ map pos (zip_with (λ x y. x * y % q) a b)
unfolding pointwise
pointwise-pos [] b = refl
pointwise-pos (x ∷ a) [] = refl
pointwise-pos (x ∷ a) (y ∷ b) = ap₂ ◌∷◌ (ap (λ z. rem z q) (pos-mul x y)) (pointwise-pos a b)

residues-IsResidue : (xs : List ℕ) → All IsResidue (residues xs)
residues-IsResidue [] = tt
residues-IsResidue (x ∷ xs) = (omega arith, residues-IsResidue xs)

-- The inverse transform of the pointwise product of the transforms of two polynomials of 256 residues
-- is their product modulo X^256 + 1 and Q.
pub ntt_inverse-pointwise :
    (a b : List ℕ)
    → length a ≡ 256
    → length b ≡ 256
    → All IsResidue a
    → All IsResidue b
    → ntt_inverse (pointwise (ntt_forward (map pos a)) (ntt_forward (map pos b)))
      ≡ map pos (residues (product (q - 1) a b))
ntt_inverse-pointwise a b h k below_a below_b =
    let c = residues (product (q - 1) a b) in
    let size : length c ≡ 256 =
      length-map (product (q - 1) a b) (λ x. x % q) ∙ length-product (q - 1) a b ∙ k in
    ap ntt_inverse (
      ap₂ pointwise (forward_transform a h below_a) (forward_transform b k below_b)
      ∙ pointwise-pos (transform a) (transform b)
      ∙ ap (map pos) (sym (transform-product a b h k))
      ∙ sym (forward_transform c size (residues-IsResidue (product (q - 1) a b))))
    ∙ ntt_inverse-ntt_forward c size (residues-IsResidue (product (q - 1) a b))
