-- ===== src/Framewalk/Invariant.antt =====
-- The invariant of a layout under construction, and the guards and reads of `_Walker` under it.
pub mod Steps
use pcap_server.Prelude.{
  ℕ, ◌+◌, ◌≤◌, ◌<◌, ◌≡◌, refl, Bool, true, false, not, ◌||◌, List, [], ◌∷◌, ◌++◌, Bytes, length,
  ltb, leb→le, shl, bit_or, Bool-cases, if◌then◌else◌, All, All-map, All-append, Pairwise,
  Pairwise-append, arith, get_elem?_in_range, inl, inr,
}
use pcap_server.Framewalk.{
  Outcome, done, ◌>>=◌, Kind, mac, ipv4, ipv6, TransportName, Scope, Layout, Carried, Descend,
  max_depth, has, byte_at, u16, address, header_end, add_scope, set_transport,
}

abbrev pub size_of : Kind → ℕ
size_of mac = 6
size_of ipv4 = 4
size_of ipv6 = 16

-- The address ends at or before an offset.
abbrev pub EndsBy : ℕ → ℕ × Kind → Type 0
EndsBy c a = a.0 + size_of a.1 ≤ c

-- The checksum field lies in front of an offset.
abbrev pub FieldEndsBy : ℕ → Scope → Type 0
FieldEndsBy c s = s.checksum_at + 2 ≤ c

abbrev pub PseudoBy : ℕ → List (ℕ × ℕ) → Type 0
PseudoBy c = All (λ p. p.0 + p.1 ≤ c)

abbrev pub PseudoFrom : ℕ → List (ℕ × ℕ) → Type 0
PseudoFrom c = All (λ p. c ≤ p.0)

-- The checksum field is captured whole, what it covers is captured too, and the pseudo header
-- stands in front of what is covered.
pub record ScopeWithin (n : ℕ) (s : Scope) : Type 0 where
  pub start_le_field : s.start ≤ s.checksum_at
  pub field_within : s.checksum_at + 2 ≤ n
  pub end_within : s.end ≤ n
  pub pseudo_before : PseudoBy s.start s.pseudo

-- The field of `s` lies in front of all that enters the checksum of `t`.
abbrev pub Outside : Scope → Scope → Type 0
Outside s t = (s.checksum_at + 2 ≤ t.start) × PseudoFrom (s.checksum_at + 2) t.pseudo

-- What a finished layout of `n` captured bytes promises.
pub record IsLayout (n : ℕ) (l : Layout) : Type 0 where
  pub addresses_within : All (EndsBy n) l.addresses
  pub addresses_apart : Pairwise (λ a b. EndsBy b.0 a) l.addresses
  pub scopes_within : All (ScopeWithin n) l.scopes
  pub scopes_nested : Pairwise Outside l.scopes
  pub payload_within : l.payload_start ≤ n

-- The same while the walk goes on: addresses so far end by `a`, checksum fields by `s`.
pub record IsPartial (n a s : ℕ) (l : Layout) : Type 0 where
  pub layout : IsLayout n l
  pub addresses_by : All (EndsBy a) l.addresses
  pub fields_by : All (FieldEndsBy s) l.scopes

-- The method returned, with a well-formed layout: no IndexError and no lack of fuel.
pub data Ends (n : ℕ) : Outcome Layout → Type 0 where
  finished : {l : Layout} → IsLayout n l → Ends n (done l)

pub Ends-done : {n a s : ℕ} {l : Layout} → IsPartial n a s l → Ends n (done l)
Ends-done h = finished h.layout

pub Ends-if :
    {n : ℕ} (b : Bool) {x y : Outcome Layout}
    → (b ≡ true → Ends n x)
    → (b ≡ false → Ends n y)
    → Ends n (if b then x else y)
Ends-if true hx hy = hx refl
Ends-if false hx hy = hy refl

pub IsPartial-if :
    {n a s : ℕ} (b : Bool) {x y : Layout}
    → (b ≡ true → IsPartial n a s x)
    → (b ≡ false → IsPartial n a s y)
    → IsPartial n a s (if b then x else y)
IsPartial-if true hx hy = hx refl
IsPartial-if false hx hy = hy refl

module _ (f : Bytes) where
  byte_at_in_range : (offset : ℕ) → offset < length f → (b : ℕ) × (byte_at f offset ≡ done b)
  unfolding byte_at
  byte_at_in_range offset h = let (b, e) = get_elem?_in_range f offset h in (b, ground (arith, e))

  u16_in_range : (offset : ℕ) → offset + 1 < length f → (w : ℕ) × (u16 f offset ≡ done w)
  unfolding u16
  u16_in_range offset h =
      let (hi, e) = get_elem?_in_range f offset (omega arith) in
      let (lo, e') = get_elem?_in_range f (offset + 1) h in
      (bit_or (shl hi 8) lo, ground (arith, e, e'))

  pub Ends-byte_at :
      {n : ℕ} (offset : ℕ) (k : ℕ → Outcome Layout)
      → offset < length f
      → ((b : ℕ) → Ends n (k b))
      → Ends n (byte_at f offset >>= k)
  Ends-byte_at offset k h rest = let (b, e) = byte_at_in_range offset h in rw (e, ◌>>=◌) (rest b)

  pub Ends-u16 :
      {n : ℕ} (offset : ℕ) (k : ℕ → Outcome Layout)
      → offset + 1 < length f
      → ((w : ℕ) → Ends n (k w))
      → Ends n (u16 f offset >>= k)
  Ends-u16 offset k h rest = let (w, e) = u16_in_range offset h in rw (e, ◌>>=◌) (rest w)

  -- The guard `if not self.has(offset, len): return`.
  pub Ends-has :
      {n : ℕ} (offset len : ℕ) {x y : Outcome Layout}
      → Ends n x
      → (offset + len ≤ length f → Ends n y)
      → Ends n (if not (has f offset len) then x else y)
  Ends-has offset len hx hy = Ends-if (not (has f offset len)) (λ _. hx) (λ p. hy (ground arith))

  -- The guard on the depth and on the header's length.
  pub Ends-guard :
      {n : ℕ} (depth offset len : ℕ) {x y : Outcome Layout}
      → Ends n x
      → (depth ≤ max_depth → offset + len ≤ length f → Ends n y)
      → Ends n (if ltb max_depth depth || not (has f offset len) then x else y)
  Ends-guard depth offset len hx hy =
      Ends-if (ltb max_depth depth || not (has f offset len)) (λ _. hx)
        (λ p. hy (ground arith) (ground arith))

-- A datagram that a transport method is called on: the fields so far end by `s`, and the pseudo
-- header stands behind them.
pub record IsSegment (n s off end : ℕ) (pseudo : List (ℕ × ℕ)) : Type 0 where
  pub off_after : s ≤ off
  pub end_within : end ≤ n
  pub pseudo_from : PseudoFrom s pseudo
  pub pseudo_before : PseudoBy off pseudo

-- The call one level deeper ends with a well-formed layout.
abbrev pub DescendEnds : Bytes → Descend → ℕ → Type 0
DescendEnds f descend depth =
    (carried : Carried) (off : ℕ) (l : Layout)
    → IsPartial (length f) off off l
    → Ends (length f) (descend carried off (depth + 1) l)
