-- ===== src/Anonymize/Prefix.antt =====
-- `PrefixPreservingMap.map` against the prefixes of addresses.
use native.Mathlib.Nat.{div-eq_of_lt}
use pcap_server.Prelude.{
  ℕ, zero, suc, ◌+◌, ◌-◌, ◌*◌, ◌/◌, ◌^◌, ◌≡◌, ◌↔◌, ◌≤◌, ◌<◌, refl, sym, ap, ap₂, ◌∙◌, shl, bit_and,
  bit_or, bit_xor, arith, be_bytes, div-pow_add, bit_xor-div, bit_xor-lt, xor_cancel, get_or, shr,
}
use pcap_server.Anonymize.{
  Primitives, PrefixMap, keep_mask, block_at, map_address, blocks_from, flips_from,
}
use pcap_server.Anonymize.Blocks.{
  block_at_lem, flip_at, flips, flips_from_blocks, flips-div, flips-lt,
}

-- The first `n` of an address's `bits` digits.
abbrev pub prefix : ℕ → ℕ → ℕ → ℕ
prefix bits n address = address / 2 ^ (bits - n)

module _ (p : Primitives) (m : PrefixMap) (bits : ℕ) (fits : bits ≤ 128) where
  abbrev aligned : ℕ → ℕ
  aligned address = shl address (128 - bits)

  prefix-shorter :
      (address n k : ℕ)
      → n ≤ k
      → k ≤ bits
      → prefix bits k address / 2 ^ (k - n) ≡ prefix bits n address
  prefix-shorter address n k h h' =
      let e : bits - k + (k - n) ≡ bits - n = omega arith in
      div-pow_add (bits - k) (k - n) address ∙ ap (λ d. address / 2 ^ d) e

  same_shorter :
      (a b n k : ℕ)
      → n ≤ k
      → k ≤ bits
      → prefix bits k a ≡ prefix bits k b
      → prefix bits n a ≡ prefix bits n b
  same_shorter a b n k h h' e =
      sym (prefix-shorter a n k h h') ∙ ap (λ x. x / 2 ^ (k - n)) e ∙ prefix-shorter b n k h h'

  -- A position's digit is flipped by what stands in front of it.
  same_flip :
      (a b n : ℕ)
      → n ≤ bits
      → prefix bits n a ≡ prefix bits n b
      → flip_at p m (aligned a) n ≡ flip_at p m (aligned b) n
  same_flip a b n h e =
      let block : block_at m.pad (aligned a) n ≡ block_at m.pad (aligned b) n =
        block_at_lem m.pad a bits n fits h
        ∙ ap
            (λ x.
              bit_or (bit_and x (2 ^ n - 1) * 2 ^ (128 - n))
                (bit_and m.pad (2 ^ 128 - 1 - keep_mask n)))
            e
        ∙ sym (block_at_lem m.pad b bits n fits h) in
      ap (λ x. shr (get_or (p.aes m.aes_key (be_bytes 16 x)) 0 0) 7) block

  same_flips :
      (a b n k : ℕ)
      → k ≤ suc n
      → n ≤ bits
      → prefix bits n a ≡ prefix bits n b
      → flips p m (aligned a) k ≡ flips p m (aligned b) k
  unfolding flips
  same_flips a b n zero h h' e = refl
  same_flips a b n (suc k) h h' e =
      ap₂ (λ x y. x * 2 + y) (same_flips a b n k (omega arith) h' e)
        (same_flip a b k (omega arith) (same_shorter a b k n (omega arith) h' e))

  prefix-map_address :
      (address n : ℕ)
      → n ≤ bits
      → prefix bits n (map_address p m address bits)
        ≡ bit_xor (prefix bits n address) (flips p m (aligned address) n)
  unfolding map_address
  prefix-map_address address n h =
      let e : bits ≡ n + (bits - n) = omega arith in
      ap (λ f. prefix bits n (bit_xor address f)) (flips_from_blocks p m (aligned address) bits)
      ∙ bit_xor-div (bits - n) address (flips p m (aligned address) bits)
      ∙ ap (bit_xor (prefix bits n address)) (
          ap (λ k. flips p m (aligned address) k / 2 ^ (bits - n)) e
          ∙ flips-div p m (aligned address) n (bits - n))

  keeps :
      (a b n : ℕ)
      → n ≤ bits
      → prefix bits n a ≡ prefix bits n b
      → prefix bits n (map_address p m a bits) ≡ prefix bits n (map_address p m b bits)
  keeps a b n h e =
      prefix-map_address a n h
      ∙ ap₂ bit_xor e (same_flips a b n n (omega arith) h e)
      ∙ sym (prefix-map_address b n h)

  reflects :
      (a b n : ℕ)
      → a < 2 ^ bits
      → b < 2 ^ bits
      → n ≤ bits
      → prefix bits n (map_address p m a bits) ≡ prefix bits n (map_address p m b bits)
      → prefix bits n a ≡ prefix bits n b
  reflects a b zero ha hb h e =
      let all_bits : bits - 0 ≡ bits = omega arith in
      ap (λ k. a / 2 ^ k) all_bits
      ∙ div-eq_of_lt ha
      ∙ sym (div-eq_of_lt hb)
      ∙ ap (λ k. b / 2 ^ k) (sym all_bits)
  reflects a b (suc n) ha hb h e =
      let front = reflects a b n ha hb (omega arith) (
        same_shorter (map_address p m a bits) (map_address p m b bits) n (suc n) (omega arith) h
          e) in
      let flipped = same_flips a b n (suc n) (omega arith) (omega arith) front in
      xor_cancel (prefix bits (suc n) a) (prefix bits (suc n) b) (flips p m (aligned b) (suc n)) (
        ap (bit_xor (prefix bits (suc n) a)) (sym flipped)
        ∙ sym (prefix-map_address a (suc n) h)
        ∙ e
        ∙ prefix-map_address b (suc n) h)

  -- For every key and pad, and addresses of up to 128 bits: two addresses share their first `n` bits
  -- just when their stand-ins do, for each `n`. With all bits it says that no two addresses have
  -- the same stand-in.
  pub prefix-map_address_iff :
      (a b n : ℕ)
      → a < 2 ^ bits
      → b < 2 ^ bits
      → n ≤ bits
      → (prefix bits n a ≡ prefix bits n b)
        ↔ (prefix bits n (map_address p m a bits) ≡ prefix bits n (map_address p m b bits))
  prefix-map_address_iff a b n ha hb h = (keeps a b n h, reflects a b n ha hb h)

  -- A stand-in has no more bits than the address, so that `to_bytes` does not raise OverflowError.
  pub map_address-lt : (address : ℕ) → address < 2 ^ bits → map_address p m address bits < 2 ^ bits
  unfolding map_address
  map_address-lt address h =
      bit_xor-lt bits address
        (flips_from bits (p.aes m.aes_key (blocks_from bits m.pad (aligned address) 0)) 0 0) h
        (rw (flips_from_blocks p m (aligned address) bits) (flips-lt p m (aligned address) bits))
