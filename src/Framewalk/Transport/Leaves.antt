-- ===== src/Framewalk/Transport/Leaves.antt =====
-- The transport methods that carry nothing deeper, and the helpers of the others.
use pcap_server.Prelude.{
  ℕ, zero, suc, ◌+◌, ◌*◌, ◌≤◌, ◌<◌, refl, not, ◌&&◌, [], ◌∷◌, Bytes, leb, ◌==◌, member, length,
  arith, bit_and,
}
use pcap_server.Framewalk.{mac, ipv6, Layout, has, add_scope}
use pcap_server.Framewalk.Invariant.{
  IsPartial, Ends, Ends-done, Ends-if, Ends-byte_at, Ends-u16, Ends-has, IsPartial-if, IsSegment,
}
use pcap_server.Framewalk.Invariant.Steps.{
  IsPartial-mono, IsPartial-set_transport, IsPartial-add_scope, IsPartial-header_end,
  IsPartial-address, widen,
}
use pcap_server.Framewalk.Transport.{
  Pseudo, nd_option, nd_options_loop, nd_options, tcp, gre_end, gre_scope,
}

-- One option adds nothing behind the option's end.
IsPartial-nd_option :
    (f : Bytes) (cur kind len s : ℕ) (l : Layout)
    → 0 < len
    → IsPartial (length f) cur s l
    → IsPartial (length f) (cur + len) s (nd_option f cur kind len l)
unfolding nd_option
IsPartial-nd_option f cur kind len s l pos h =
    IsPartial-if (member kind (1 ∷ 2 ∷ []) && leb 8 len)
      (λ p. widen (ground arith) (IsPartial-address f (cur + 2) mac refl (omega arith) h))
      λ _.
        IsPartial-if (kind == 3 && leb 32 len)
          (λ p. widen (ground arith) (IsPartial-address f (cur + 16) ipv6 refl (omega arith) h))
          λ _. widen (omega arith) h

-- To where the next header stands.
pub carry :
    {n a s off : ℕ} {l : Layout} → (a ≤ off) × (s ≤ off) → IsPartial n a s l → IsPartial n off off l
carry le h = IsPartial-mono le.0 le.1 h

-- The scope of a segment whose checksum field is captured.
pub add_segment :
    {n a s s' off end field : ℕ} {pseudo : Pseudo} {l : Layout}
    → IsSegment n s off end pseudo
    → (off ≤ field) × (field + 2 ≤ n)
    → field + 2 ≤ s'
    → IsPartial n a s l
    → IsPartial n a s'
        (add_scope (record { checksum_at = field; start = off; end = end; pseudo = pseudo }) l)
add_segment g within by h =
    IsPartial-add_scope _
      (record {
        start_le_field = within.0;
        field_within = within.1;
        end_within = g.end_within;
        pseudo_before = g.pseudo_before;
      })
      g.off_after g.pseudo_from (omega (arith, g.off_after)) by h

module _ (f : Bytes) where
  nd_options_loop-Ends :
      (k cur end s : ℕ) (l : Layout)
      → 0 < k
      → length f < cur + k
      → IsPartial (length f) cur s l
      → Ends (length f) (nd_options_loop k f cur end l)
  unfolding nd_options_loop
  nd_options_loop-Ends zero cur end s l pos room h = absurd (omega arith)
  nd_options_loop-Ends (suc k) cur end s l pos room h =
      Ends-if (leb (cur + 2) end && has f cur 2)
        (λ more. Ends-byte_at f cur _ (ground arith) λ kind.
          Ends-byte_at f (cur + 1) _ (ground arith) λ units.
            Ends-if (units * 8 == 0) (λ _. Ends-done h)
              λ some_len.
                nd_options_loop-Ends k (cur + units * 8) end s _ (ground arith) (ground arith)
                  (IsPartial-nd_option f cur kind (units * 8) s l (ground arith) h))
        λ _. Ends-done h

  pub nd_options-Ends :
      (cur end s : ℕ) {l : Layout}
      → IsPartial (length f) cur s l
      → Ends (length f) (nd_options f cur end l)
  unfolding nd_options
  nd_options-Ends cur end s h =
      nd_options_loop-Ends (suc (length f)) cur end s _ (omega arith) (omega arith) h

  pub tcp-Ends :
      (off end s : ℕ) (pseudo : Pseudo) {l : Layout}
      → IsSegment (length f) s off end pseudo
      → IsPartial (length f) off s l
      → Ends (length f) (tcp f off end pseudo l)
  unfolding tcp
  tcp-Ends off end s pseudo g h = Ends-has f off 20 (Ends-done h) λ fits.
      Ends-byte_at f (off + 12) _ (omega arith) λ b. Ends-u16 f off _ (omega arith) λ sport.
        Ends-u16 f (off + 2) _ (omega arith) λ dport. Ends-done (
          IsPartial-set_transport _ _ _ (
            IsPartial-header_end f _ refl
              (add_segment {s' = off + 18} g (omega arith) (omega arith) h)))

-- ICMP has no pseudo header.
pub bare : {n s off end : ℕ} → (s ≤ off) × (end ≤ n) → IsSegment n s off end []
bare g = record { off_after = g.0; end_within = g.1; pseudo_from = tt; pseudo_before = tt }

pub IsPartial-gre_scope :
    (f : Bytes) (off end flags s : ℕ) (l : Layout)
    → (s ≤ off) × (end ≤ length f)
    → IsPartial (length f) off s l
    → IsPartial (length f) off (gre_end off flags) (gre_scope f off end flags l)
unfolding gre_end gre_scope
IsPartial-gre_scope f off end flags s l g h =
    IsPartial-if (not (bit_and flags 0x8000 == 0) && has f (off + 4) 2)
      (λ p. add_segment {field = off + 4} (bare g) (ground arith) (ground arith) h)
      λ _. IsPartial-mono (omega arith) (ground arith) h

pub le-gre_end : (off flags : ℕ) → off ≤ gre_end off flags
unfolding gre_end
le-gre_end off flags = ground arith
