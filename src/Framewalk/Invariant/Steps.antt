-- ===== src/Framewalk/Invariant/Steps.antt =====
-- What the helpers of `_Walker` that append to the layout do to the invariant.
use pcap_server.Prelude.{
  ℕ, ◌+◌, ◌≤◌, ◌≡◌, [], ◌∷◌, ◌++◌, Bytes, length, leb→le, Bool-cases, All-map, All-append,
  Pairwise-append, arith, inl, inr,
}
use pcap_server.Framewalk.{
  Kind, TransportName, Scope, Layout, has, address, header_end, add_scope, set_transport,
}
use pcap_server.Framewalk.Invariant.{
  EndsBy, FieldEndsBy, PseudoFrom, ScopeWithin, Outside, IsPartial, size_of,
}

module _ {n a s : ℕ} {l : Layout} where
  pub IsPartial-mono : {a' s' : ℕ} → a ≤ a' → s ≤ s' → IsPartial n a s l → IsPartial n a' s' l
  IsPartial-mono ha hs h = record {
    layout = h.layout;
    addresses_by = All-map _ _ l.addresses (λ x p. omega arith) h.addresses_by;
    fields_by = All-map _ _ l.scopes (λ x p. omega arith) h.fields_by;
  }

  pub IsPartial-set_transport :
      (name : TransportName) (sport dport : ℕ)
      → IsPartial n a s l
      → IsPartial n a s (set_transport name sport dport l)
  unfolding set_transport
  IsPartial-set_transport name sport dport h = record {
    layout = record {
      addresses_within = h.layout.addresses_within;
      addresses_apart = h.layout.addresses_apart;
      scopes_within = h.layout.scopes_within;
      scopes_nested = h.layout.scopes_nested;
      payload_within = h.layout.payload_within;
    };
    addresses_by = h.addresses_by;
    fields_by = h.fields_by;
  }

  pub IsPartial-add_scope :
      {s' : ℕ} (t : Scope)
      → ScopeWithin n t
      → s ≤ t.start
      → PseudoFrom s t.pseudo
      → s ≤ s'
      → t.checksum_at + 2 ≤ s'
      → IsPartial n a s l
      → IsPartial n a s' (add_scope t l)
  unfolding add_scope
  IsPartial-add_scope {s'} t w hs hp le lt h = record {
    layout = record {
      addresses_within = h.layout.addresses_within;
      addresses_apart = h.layout.addresses_apart;
      scopes_within = All-append (ScopeWithin n) l.scopes t h.layout.scopes_within w;
      scopes_nested = Pairwise-append Outside l.scopes t h.layout.scopes_nested (
          All-map (FieldEndsBy s) (λ x. Outside x t) l.scopes
            (λ x p. (omega arith, All-map _ _ t.pseudo (λ q r. omega arith) hp)) h.fields_by);
      payload_within = h.layout.payload_within;
    };
    addresses_by = h.addresses_by;
    fields_by =
        All-append (FieldEndsBy s') l.scopes t
          (All-map _ _ l.scopes (λ x p. omega arith) h.fields_by) lt;
  }

  pub IsPartial-header_end :
      (f : Bytes) (offset : ℕ)
      → length f ≡ n
      → IsPartial n a s l
      → IsPartial n a s (header_end f offset l)
  unfolding header_end
  IsPartial-header_end f offset e h = record {
    layout = record {
      addresses_within = h.layout.addresses_within;
      addresses_apart = h.layout.addresses_apart;
      scopes_within = h.layout.scopes_within;
      scopes_nested = h.layout.scopes_nested;
      payload_within = omega arith;
    };
    addresses_by = h.addresses_by;
    fields_by = h.fields_by;
  }

  IsPartial-push :
      (offset : ℕ) (kind : Kind)
      → offset + size_of kind ≤ n
      → a ≤ offset
      → IsPartial n a s l
      → IsPartial n
          (offset + size_of kind)
          s
          (record l { addresses = l.addresses ++ (offset, kind) ∷ [] })
  IsPartial-push offset kind fits le h = record {
    layout = record {
      addresses_within =
          All-append (EndsBy n) l.addresses (offset, kind) h.layout.addresses_within fits;
      addresses_apart =
          Pairwise-append (λ x y. EndsBy y.0 x) l.addresses (offset, kind) h.layout.addresses_apart
            (All-map _ _ l.addresses (λ x p. omega arith) h.addresses_by);
      scopes_within = h.layout.scopes_within;
      scopes_nested = h.layout.scopes_nested;
      payload_within = h.layout.payload_within;
    };
    addresses_by =
        All-append (EndsBy (offset + size_of kind)) l.addresses (offset, kind)
          (All-map _ _ l.addresses (λ x p. omega arith) h.addresses_by) (omega arith);
    fields_by = h.fields_by;
  }

  -- An address is appended only where it is captured whole.
  pub IsPartial-address :
      (f : Bytes) (offset : ℕ) (kind : Kind)
      → length f ≡ n
      → a ≤ offset
      → IsPartial n a s l
      → IsPartial n (offset + size_of kind) s (address f offset (size_of kind) kind l)
  unfolding address
  IsPartial-address f offset kind e le h = elim (Bool-cases (has f offset (size_of kind))) [
    | inl yes_has ↦ rw yes_has (IsPartial-push offset kind (omega (arith, leb→le _ _ yes_has)) le h)
    | inr none_has ↦ rw none_has (IsPartial-mono (omega arith) (omega arith) h)
  ]

pub widen : {n a a' s : ℕ} {l : Layout} → a ≤ a' → IsPartial n a s l → IsPartial n a' s l
widen le h = IsPartial-mono le (omega arith) h
