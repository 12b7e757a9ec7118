-- ===== src/Framewalk/Checksum/Rfc1624.antt =====
-- One round of `refresh_checksums`: the incremental update of RFC 1624.
use pcap_server.Prelude.{
  IsBytes, ℕ, zero, suc, ◌+◌, ◌%◌, ◌≤◌, ◌<◌, min, ◌≡◌, refl, sym, ◌∙◌, ◌⊎◌, inl, inr, false, ◌&&◌,
  [], ◌∷◌, Bytes, length, get_or, set, shr, bit_and, shl-bit_or, bit_and_255, ltb, bytes_eq,
  bytes_eq→eq, arith, All-map, Bool-cases,
}
use pcap_server.Framewalk.{Scope}
use pcap_server.Framewalk.Invariant.{ScopeWithin}
use pcap_server.Framewalk.Checksum.{
  pseudo_bytes, covered, field_value, total_sum, updated_checksum, write_field, refresh_scope,
}
use pcap_server.Framewalk.Checksum.Slices.{
  length-write_field, pseudo_bytes-write_after, covered-write_self, field_value-write_self,
}

-- What a scope sums over in a buffer, its own field left out.
abbrev pub cover_sum : Bytes → Scope → ℕ
cover_sum xs s = total_sum (covered xs s (min s.end (length xs))) (pseudo_bytes xs s.pseudo)

-- The sum that a receiver forms: the field and all that it covers. It is 0 where the checksum is
-- right.
abbrev pub receiver_sum : Bytes → Scope → ℕ
receiver_sum xs s = (field_value xs s.checksum_at + cover_sum xs s) % 0xFFFF

total_sum-lt : (xs ys : Bytes) → total_sum xs ys < 0xFFFF
unfolding total_sum
total_sum-lt xs ys = omega arith

updated_checksum_lem :
    (c old_sum new_sum : ℕ)
    → c ≤ 0xFFFF
    → old_sum < 0xFFFF
    → new_sum < 0xFFFF
    → ((updated_checksum c old_sum new_sum + new_sum) % 0xFFFF ≡ (c + old_sum) % 0xFFFF)
      × (0 < updated_checksum c old_sum new_sum)
      × (updated_checksum c old_sum new_sum ≤ 0xFFFF)
unfolding updated_checksum
updated_checksum_lem c old_sum new_sum hc ho hn = omega arith

pub get_or-lt : (xs : Bytes) (i : ℕ) → IsBytes xs → get_or xs i 0 < 256
get_or-lt [] i h = omega arith
get_or-lt (x ∷ xs) zero h = h.0
get_or-lt (x ∷ xs) (suc i) h = get_or-lt xs i h.1

pub field_value-le : (xs : Bytes) (at : ℕ) → IsBytes xs → field_value xs at ≤ 0xFFFF
unfolding field_value
field_value-le xs at h = omega (
  arith,
  shl-bit_or 8 (get_or xs at 0) (get_or xs (at + 1) 0) (get_or-lt xs (at + 1) h),
  get_or-lt xs at h,
  get_or-lt xs (at + 1) h,
)

IsBytes-set : (xs : Bytes) (i v : ℕ) → v < 256 → IsBytes xs → IsBytes (set xs i v)
IsBytes-set [] i v hv h = tt
IsBytes-set (x ∷ xs) zero v hv h = (hv, h.1)
IsBytes-set (x ∷ xs) (suc i) v hv h = (h.0, IsBytes-set xs i v hv h.1)

IsBytes-write_field :
    (xs : Bytes) (at v : ℕ) → v ≤ 0xFFFF → IsBytes xs → IsBytes (write_field xs at v)
unfolding write_field
IsBytes-write_field xs at v hv h =
    IsBytes-set (set xs at (shr v 8)) (at + 1) (bit_and v 0xFF) (omega (arith, bit_and_255 v))
      (IsBytes-set xs at (shr v 8) (omega arith) h)

-- The three ways a round may end: it leaves the buffer alone, or writes the updated checksum.
module _ (original edited : Bytes) (s : Scope) where
  abbrev pub update : ℕ
  update =
      let end = min s.end (length edited) in
      updated_checksum (field_value edited s.checksum_at)
        (total_sum (covered original s end) (pseudo_bytes original s.pseudo))
        (total_sum (covered edited s end) (pseudo_bytes edited s.pseudo))

  pub refresh_scope-cases :
      s.checksum_at + 2 ≤ length edited
      → ((refresh_scope original edited s ≡ edited)
          × (covered original s (min s.end (length edited))
              ≡ covered edited s (min s.end (length edited)))
          × (pseudo_bytes original s.pseudo ≡ pseudo_bytes edited s.pseudo))
        ⊎ (refresh_scope original edited s ≡ write_field edited s.checksum_at update)
  unfolding refresh_scope
  refresh_scope-cases fits =
      let end = min s.end (length edited) in
      let before = covered original s end in
      let after = covered edited s end in
      let pseudo_before = pseudo_bytes original s.pseudo in
      let pseudo_after = pseudo_bytes edited s.pseudo in
      let inside : ltb (length edited) (s.checksum_at + 2) ≡ false = ground arith in
      elim (Bool-cases (bytes_eq before after && bytes_eq pseudo_before pseudo_after)) [
        | inl same ↦ inl (
          rw (inside, same),
          bytes_eq→eq before after (ground arith),
          bytes_eq→eq pseudo_before pseudo_after (ground arith),
        )
        | inr differ ↦ inr (rw (inside, differ))
      ]

  pub length-refresh_scope : length (refresh_scope original edited s) ≡ length edited
  unfolding refresh_scope
  length-refresh_scope = ground (arith, length-write_field edited s.checksum_at update)

  module _ (n : ℕ) (size : length edited ≡ n) (w : ScopeWithin n s) (bytes : IsBytes edited) where
    fits : s.checksum_at + 2 ≤ length edited
    fits = omega (arith, w.field_within)

    update_lem :
        ((update + cover_sum edited s) % 0xFFFF
          ≡ (field_value edited s.checksum_at
              + total_sum
                  (covered original s (min s.end (length edited)))
                  (pseudo_bytes original s.pseudo))
            % 0xFFFF)
        × (0 < update)
        × (update ≤ 0xFFFF)
    update_lem =
        updated_checksum_lem _ _ _ (field_value-le edited s.checksum_at bytes) (total_sum-lt _ _)
          (total_sum-lt _ _)

    pub IsBytes-refresh_scope : IsBytes (refresh_scope original edited s)
    IsBytes-refresh_scope = elim (refresh_scope-cases fits) [
      | inl same ↦ rw same.0 bytes
      | inr written ↦
          rw written (IsBytes-write_field edited s.checksum_at update update_lem.2 bytes)
    ]

    cover_sum-write_field :
        (v : ℕ) → cover_sum (write_field edited s.checksum_at v) s ≡ cover_sum edited s
    cover_sum-write_field v = rw (
      length-write_field edited s.checksum_at v,
      covered-write_self edited s.checksum_at v s (min s.end (length edited)) w.start_le_field refl,
      pseudo_bytes-write_after edited s.checksum_at v s.pseudo
          (All-map _ _ s.pseudo (λ p h. omega (arith, w.start_le_field)) w.pseudo_before),
    )

    -- After the round the receiver's sum is what the edited field made with the original bytes.
    pub receiver_sum-refresh_scope :
        length original ≡ n
        → receiver_sum (refresh_scope original edited s) s
          ≡ (field_value edited s.checksum_at + cover_sum original s) % 0xFFFF
    receiver_sum-refresh_scope e =
        let e' : length original ≡ length edited = e ∙ sym size in
        elim (refresh_scope-cases fits) [
          | inl same ↦ rw (same.0, e', same.1, same.2)
          | inr written ↦
              rw
                (
                  written,
                  field_value-write_self edited s.checksum_at update fits,
                  cover_sum-write_field update,
                  e',
                )
                update_lem.0
        ]

    -- A checksum that the round changes is not 0.
    pub field_value-refresh_scope :
        (refresh_scope original edited s ≡ edited)
        ⊎ (0 < field_value (refresh_scope original edited s) s.checksum_at)
    field_value-refresh_scope = elim (refresh_scope-cases fits) [
      | inl same ↦ inl same.0
      | inr written ↦
          inr (rw (written, field_value-write_self edited s.checksum_at update fits) update_lem.1)
    ]
