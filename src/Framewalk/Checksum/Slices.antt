-- ===== src/Framewalk/Checksum/Slices.antt =====
-- What a write to a checksum field does to the bytes that enter a checksum.
use pcap_server.Prelude.{
  ℕ, ◌+◌, ◌-◌, ◌≤◌, ◌<◌, ◌≡◌, refl, ◌∙◌, ◌⊎◌, List, [], ◌∷◌, Bytes, length, set, slice, shr,
  bit_and, arith, get_or, slice-set_before, slice-set, slice-set_after, take-set_after,
  drop-set_before, length-set, get_or-set_ne, get_or-set_self, shl-bit_or, bit_and_255,
}
use pcap_server.Framewalk.{Scope}
use pcap_server.Framewalk.Invariant.{PseudoFrom, PseudoBy}
use pcap_server.Framewalk.Checksum.{pseudo_bytes, zero_field, covered, field_value, write_field}

pub length-write_field : (xs : Bytes) (at v : ℕ) → length (write_field xs at v) ≡ length xs
unfolding write_field
length-write_field xs at v =
    rw (length-set (set xs at (shr v 8)) (at + 1) (bit_and v 0xFF)) (length-set xs at (shr v 8))

module _ (xs : Bytes) (at v : ℕ) where
  -- A slice behind the field does not change.
  slice-write_before :
      (first last : ℕ)
      → at + 2 ≤ first
      → slice (write_field xs at v) first last ≡ slice xs first last
  unfolding write_field
  slice-write_before first last h =
      rw (slice-set_before (bit_and v 0xFF) (set xs at (shr v 8)) first last (at + 1) (omega arith))
        (slice-set_before (shr v 8) xs first last at (omega arith))

  -- Nor does one in front of it.
  slice-write_after :
      (first last : ℕ)
      → first ≤ at
      → last ≤ at
      → slice (write_field xs at v) first last ≡ slice xs first last
  unfolding write_field
  slice-write_after first last h h' =
      rw
        (slice-set_after (bit_and v 0xFF) (set xs at (shr v 8)) first last (at + 1) (omega arith)
          (omega arith))
        (slice-set_after (shr v 8) xs first last at h h')

  pub pseudo_bytes-write_before :
      (pseudo : List (ℕ × ℕ))
      → PseudoFrom (at + 2) pseudo
      → pseudo_bytes (write_field xs at v) pseudo ≡ pseudo_bytes xs pseudo
  unfolding pseudo_bytes
  pseudo_bytes-write_before [] h = refl
  pseudo_bytes-write_before ((p, n) ∷ rest) h =
      rw (slice-write_before p (p + n) h.0, pseudo_bytes-write_before rest h.1)

  pub pseudo_bytes-write_after :
      (pseudo : List (ℕ × ℕ))
      → PseudoBy at pseudo
      → pseudo_bytes (write_field xs at v) pseudo ≡ pseudo_bytes xs pseudo
  unfolding pseudo_bytes
  pseudo_bytes-write_after [] h = refl
  pseudo_bytes-write_after ((p, n) ∷ rest) h =
      rw
        (slice-write_after p (p + n) (omega arith) (omega arith), pseudo_bytes-write_after rest h.1)

  pub covered-write_before :
      (s : Scope) (end : ℕ)
      → at + 2 ≤ s.start
      → covered (write_field xs at v) s end ≡ covered xs s end
  unfolding covered
  covered-write_before s end h = rw (slice-write_before s.start end h)

  zero_field-set :
      (rel w j : ℕ) (ys : Bytes)
      → rel ≤ j
      → j < rel + 2
      → zero_field rel (set ys j w) ≡ zero_field rel ys
  unfolding zero_field
  zero_field-set rel w j ys h h' =
      rw (take-set_after w rel ys j h, drop-set_before w (rel + 2) ys j h')

  -- The scope's own field is cleared before the sum.
  pub covered-write_self :
      (s : Scope) (end : ℕ)
      → s.start ≤ s.checksum_at
      → s.checksum_at ≡ at
      → covered (write_field xs at v) s end ≡ covered xs s end
  unfolding covered write_field
  covered-write_self s end h e =
      let rel = s.checksum_at - s.start in
      rw
        (slice-set (bit_and v 0xFF) (set xs at (shr v 8)) s.start end (at + 1) (rel + 1)
          (omega arith))
        (rw
          (zero_field-set rel (bit_and v 0xFF) (rel + 1) (slice (set xs at (shr v 8)) s.start end)
            (omega arith) (omega arith))
          (rw (slice-set (shr v 8) xs s.start end at rel (omega arith))
            (zero_field-set rel (shr v 8) rel (slice xs s.start end) (omega arith) (omega arith))))

  pub field_value-write_other :
      (at' : ℕ)
      → (at + 2 ≤ at') ⊎ (at' + 2 ≤ at)
      → field_value (write_field xs at v) at' ≡ field_value xs at'
  unfolding field_value write_field
  field_value-write_other at' h =
      let w = bit_and v 0xFF in
      let ys = set xs at (shr v 8) in
      rw (
        get_or-set_ne w ys (at + 1) at' 0 (omega arith),
        get_or-set_ne w ys (at + 1) (at' + 1) 0 (omega arith),
        get_or-set_ne (shr v 8) xs at at' 0 (omega arith),
        get_or-set_ne (shr v 8) xs at (at' + 1) 0 (omega arith),
      )

  -- What is written is read back.
  pub field_value-write_self : at + 2 ≤ length xs → field_value (write_field xs at v) at ≡ v
  unfolding field_value write_field
  field_value-write_self h =
      let w = bit_and v 0xFF in
      let ys = set xs at (shr v 8) in
      rw
        (
          get_or-set_ne w ys (at + 1) at 0 (omega arith),
          get_or-set_self (shr v 8) xs at 0 (omega arith),
          get_or-set_self w ys (at + 1) 0 (omega (arith, length-set xs at (shr v 8))),
        )
        (shl-bit_or 8 (shr v 8) w (omega (arith, bit_and_255 v)) ∙ omega (arith, bit_and_255 v))

  -- Every byte but the two of the field stays.
  pub get_or-write_field :
      (i : ℕ) → (i < at) ⊎ (at + 2 ≤ i) → get_or (write_field xs at v) i 0 ≡ get_or xs i 0
  unfolding write_field
  get_or-write_field i h = rw (
    get_or-set_ne (bit_and v 0xFF) (set xs at (shr v 8)) (at + 1) i 0 (omega arith),
    get_or-set_ne (shr v 8) xs at i 0 (omega arith),
  )
