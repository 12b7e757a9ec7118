-- ===== src/Anonymize/Blocks.antt =====
-- Which digits of an address enter the blocks of `map_address`, and what comes out of them.
use pcap_server.Prelude.{
  ℕ, zero, suc, ◌+◌, ◌-◌, ◌*◌, ◌/◌, ◌^◌, ◌≡◌, ◌≤◌, ◌<◌, refl, sym, ap, ◌∙◌, Bytes, get_or, be_bytes,
  length-be_bytes, shl, shr, bit_and, bit_or, arith, get_or-append_lt, get_or-append_past,
  bit_and-mul_pow, div-pow_add, mul-pow-div, shl-bit_or, IsBytes-get_or,
}
use native.Mathlib.Nat.{pow-suc}
use pcap_server.Anonymize.{Primitives, PrefixMap, keep_mask, block_at, blocks_from, flips_from}

keep_mask_lem : (position : ℕ) → keep_mask position ≡ (2 ^ position - 1) * 2 ^ (128 - position)
unfolding keep_mask
keep_mask_lem zero = refl
keep_mask_lem (suc position) = ground arith

-- The first digits of the aligned address are the first digits of the address.
shl-div :
    (address bits position : ℕ)
    → bits ≤ 128
    → position ≤ bits
    → shl address (128 - bits) / 2 ^ (128 - position) ≡ address / 2 ^ (bits - position)
shl-div address bits position h k =
    let e : 128 - position ≡ (bits - position) + (128 - bits) = omega arith in
    ap (λ n. shl address (128 - bits) / 2 ^ n) e
    ∙ mul-pow-div (128 - bits) (bits - position) address

pub block_at_lem :
    (pad address bits position : ℕ)
    → bits ≤ 128
    → position ≤ bits
    → block_at pad (shl address (128 - bits)) position
      ≡ bit_or
          (bit_and (address / 2 ^ (bits - position)) (2 ^ position - 1) * 2 ^ (128 - position))
          (bit_and pad (2 ^ 128 - 1 - keep_mask position))
unfolding block_at
block_at_lem pad address bits position h k =
    let aligned = shl address (128 - bits) in
    ap (λ x. bit_or x (bit_and pad (2 ^ 128 - 1 - keep_mask position)))
      (ap (bit_and aligned) (keep_mask_lem position)
        ∙ bit_and-mul_pow (128 - position) aligned (2 ^ position - 1)
        ∙ ap (λ y. bit_and y (2 ^ position - 1) * 2 ^ (128 - position))
            (shl-div address bits position h k))

module _ (p : Primitives) (m : PrefixMap) (aligned : ℕ) where
  -- The digit that is flipped at a position.
  abbrev pub flip_at : ℕ → ℕ
  flip_at position =
      shr (get_or (p.aes m.aes_key (be_bytes 16 (block_at m.pad aligned position))) 0 0) 7

  pub flip_at-lt : (position : ℕ) → flip_at position < 2
  flip_at-lt position =
      let byte =
        IsBytes-get_or (p.aes m.aes_key (be_bytes 16 (block_at m.pad aligned position))) 0
          (p.aes-IsBytes m.aes_key (be_bytes 16 (block_at m.pad aligned position))) in
      omega (arith, byte)

  -- All flips up to a position, as a number.
  unfoldable pub flips : ℕ → ℕ
  flips zero = 0
  flips (suc n) = flips n * 2 + flip_at n

  get_or-blocks :
      (n position i : ℕ)
      → i < n
      → get_or (p.aes m.aes_key (blocks_from n m.pad aligned position)) (i * 16) 0
        ≡ get_or (p.aes m.aes_key (be_bytes 16 (block_at m.pad aligned (position + i)))) 0 0
  unfolding blocks_from
  get_or-blocks zero position i h = elim h [ ]
  get_or-blocks (suc n) position zero h =
      let block = be_bytes 16 (block_at m.pad aligned position) in
      let rest = blocks_from n m.pad aligned (position + 1) in
      let size =
        p.length-aes m.aes_key block (length-be_bytes 16 (block_at m.pad aligned position)) in
      let same : position ≡ position + 0 = omega arith in
      ap (λ xs. get_or xs 0 0)
        (p.aes-append m.aes_key block rest (length-be_bytes 16 (block_at m.pad aligned position)))
      ∙ get_or-append_lt (p.aes m.aes_key block) (p.aes m.aes_key rest) 0 0 (omega (arith, size))
      ∙ ap (λ q. get_or (p.aes m.aes_key (be_bytes 16 (block_at m.pad aligned q))) 0 0) same
  get_or-blocks (suc n) position (suc i) h =
      let block = be_bytes 16 (block_at m.pad aligned position) in
      let rest = blocks_from n m.pad aligned (position + 1) in
      let size =
        p.length-aes m.aes_key block (length-be_bytes 16 (block_at m.pad aligned position)) in
      let same : position + 1 + i ≡ position + suc i = omega arith in
      ap (λ xs. get_or xs (suc i * 16) 0)
        (p.aes-append m.aes_key block rest (length-be_bytes 16 (block_at m.pad aligned position)))
      ∙ get_or-append_past (p.aes m.aes_key block) (p.aes m.aes_key rest) (suc i * 16) (i * 16) 0
          (omega (arith, size))
      ∙ get_or-blocks n (position + 1) i (omega arith)
      ∙ ap (λ q. get_or (p.aes m.aes_key (be_bytes 16 (block_at m.pad aligned q))) 0 0) same

  flips_from_lem :
      (out : Bytes) (n position : ℕ)
      → ((i : ℕ) → i < n → shr (get_or out ((position + i) * 16) 0) 7 ≡ flip_at (position + i))
      → flips_from n out position (flips position) ≡ flips (position + n)
  unfolding flips flips_from
  flips_from_lem out zero position h = ap flips (omega arith)
  flips_from_lem out (suc n) position h =
      let here : shr (get_or out (position * 16) 0) 7 ≡ flip_at position =
        let e : position + 0 ≡ position = omega arith in
        ap (λ q. shr (get_or out (q * 16) 0) 7) (sym e) ∙ h 0 (omega arith) ∙ ap flip_at e in
      let next : bit_or (shl (flips position) 1) (shr (get_or out (position * 16) 0) 7)
          ≡ flips (position + 1) =
        let e : suc position ≡ position + 1 = omega arith in
        ap (bit_or (shl (flips position) 1)) here
        ∙ shl-bit_or 1 (flips position) (flip_at position) (flip_at-lt position)
        ∙ omega arith
        ∙ ap flips e in
      let e : position + 1 + n ≡ position + suc n = omega arith in
      ap (flips_from n out (position + 1)) next
      ∙ flips_from_lem out n (position + 1) (λ i k.
        let f : position + suc i ≡ position + 1 + i = omega arith in
        ap (λ q. shr (get_or out (q * 16) 0) 7) (sym f) ∙ h (suc i) (omega arith) ∙ ap flip_at f)
      ∙ ap flips e

  pub flips_from_blocks :
      (bits : ℕ)
      → flips_from bits (p.aes m.aes_key (blocks_from bits m.pad aligned 0)) 0 0 ≡ flips bits
  unfolding flips
  flips_from_blocks bits =
      let e : 0 + bits ≡ bits = omega arith in
      flips_from_lem (p.aes m.aes_key (blocks_from bits m.pad aligned 0)) bits 0 (λ i h.
        let f : 0 + i ≡ i = omega arith in
        ap (λ q. shr (get_or (p.aes m.aes_key (blocks_from bits m.pad aligned 0)) (q * 16) 0) 7) f
        ∙ ap (λ b. shr b 7) (get_or-blocks bits 0 i h))
      ∙ ap flips e

  pub flips-div : (n d : ℕ) → flips (n + d) / 2 ^ d ≡ flips n
  unfolding flips
  flips-div n zero = let e : n + 0 ≡ n = omega arith in ap (λ k. flips k / 1) e ∙ omega arith
  flips-div n (suc d) =
      let e : n + suc d ≡ suc (n + d) = omega arith in
      let one_more : suc d ≡ 1 + d = omega arith in
      let half : (flips (n + d) * 2 + flip_at (n + d)) / 2 ≡ flips (n + d) =
        omega (arith, flip_at-lt (n + d)) in
      ap (λ k. flips k / 2 ^ suc d) e
      ∙ ap (λ k. (flips (n + d) * 2 + flip_at (n + d)) / 2 ^ k) one_more
      ∙ sym (div-pow_add 1 d (flips (n + d) * 2 + flip_at (n + d)))
      ∙ ap (λ x. x / 2 ^ d) half
      ∙ flips-div n d

  pub flips-lt : (n : ℕ) → flips n < 2 ^ n
  unfolding flips
  flips-lt zero = omega arith
  flips-lt (suc n) = omega (arith, flips-lt n, flip_at-lt n, pow-suc 2 n)
