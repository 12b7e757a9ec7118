-- ===== src/Framewalk/Checksum/Walked.antt =====
-- `refresh_checksums` on the scopes that `walk` reports for the original frame, as
-- backend/sanitizer.py calls it.
use pcap_server.Prelude.{
  IsBytes, subst, ℕ, ◌+◌, ◌*◌, ◌≡◌, refl, sym, ap₂, ◌∙◌, inl, inr, ◌⊎◌, ◌<◌, Bytes, length, member,
  get_or, All, All-zip, Bool-cases,
}
use pcap_server.Framewalk.{done, Scope, Layout}
use pcap_server.Framewalk.Invariant.{IsLayout, ScopeWithin}
use pcap_server.Framewalk.Walk.{linktypes, walk}
use pcap_server.Framewalk.Walk.Sound.{walk-IsLayout, walk_unsupported}
use pcap_server.Framewalk.Checksum.{field_value, refresh_scope, refresh_checksums}
use pcap_server.Framewalk.Checksum.Rfc1624.{receiver_sum, field_value-refresh_scope}
use pcap_server.Framewalk.Checksum.Receiver.{
  SameField, receiver_words, receiver_words-eq, field_value-get_or,
}
use pcap_server.Framewalk.Checksum.Refresh.{
  NoField, kept_sum, receiver_sum-refresh_checksums, IsBytes-refresh_checksums,
  get_or-refresh_checksums,
}

-- Whatever layout `walk` returns is well-formed.
pub IsLayout-walk :
    (f : Bytes) (linktype : ℕ) (l : Layout) → walk f linktype ≡ done l → IsLayout (length f) l
IsLayout-walk f linktype l e = elim (Bool-cases (member linktype linktypes)) [
  | inl known ↦
      let (l', e', h) = walk-IsLayout f linktype known in
      let same : l' ≡ l = cc (e', e) in subst (IsLayout (length f)) same h
  | inr unknown ↦ cc (walk_unsupported f linktype unknown)
]

-- The sum that a receiver forms over each checksum that the walk found, word by word and pseudo
-- header included, is after the refresh what it was in the original frame: a right checksum is right
-- for the edited bytes, and a wrong one is as wrong as it was. This holds for any edit that keeps
-- the length and leaves the checksum fields themselves alone.
pub receiver_sum-refresh_walk :
    (original edited : Bytes) (linktype : ℕ) (l : Layout)
    → walk original linktype ≡ done l
    → length edited ≡ length original
    → IsBytes edited
    → All (SameField edited original) l.scopes
    → All
        (λ s.
          receiver_words (refresh_checksums original edited l.scopes) s ≡ receiver_words original s)
        l.scopes
receiver_sum-refresh_walk original edited linktype l e size bytes fields =
    let h = IsLayout-walk original linktype l e in
    let xs = refresh_checksums original edited l.scopes in
    let refreshed =
      receiver_sum-refresh_checksums original edited (length original) size l.scopes refl bytes
        h.scopes_within h.scopes_nested in
    let after =
      IsBytes-refresh_checksums original edited (length original) size l.scopes h.scopes_within
        bytes in
    All-zip (λ s. receiver_sum xs s ≡ kept_sum original edited s) (SameField edited original)
      (λ s. receiver_words xs s ≡ receiver_words original s) l.scopes
      (λ s kept same.
        let at = s.checksum_at in
        let field = field_value-get_or edited at bytes in
        let both = ap₂ (λ a b. a * 256 + b) same.0 same.1 in
        receiver_words-eq xs s (field_value xs at) (field_value-get_or xs at after)
        ∙ kept
        ∙ sym (receiver_words-eq original s (field_value edited at) (field ∙ both)))
      refreshed fields

-- The refresh writes nothing but the checksum fields that the walk found.
pub get_or-refresh_walk :
    (original edited : Bytes) (linktype : ℕ) (l : Layout) (i : ℕ)
    → walk original linktype ≡ done l
    → length edited ≡ length original
    → NoField i l.scopes
    → get_or (refresh_checksums original edited l.scopes) i 0 ≡ get_or edited i 0
get_or-refresh_walk original edited linktype l i e size outside =
    get_or-refresh_checksums original edited (length original) size i l.scopes
      (IsLayout-walk original linktype l e).scopes_within outside

-- A round of the refresh, on a scope whose field and covered bytes are captured, leaves the buffer
-- as it is or writes a checksum that is not 0, which UDP over IPv4 would read as none computed.
pub refresh_scope_nonzero :
    (original edited : Bytes) (s : Scope)
    → ScopeWithin (length edited) s
    → IsBytes edited
    → (refresh_scope original edited s ≡ edited)
      ⊎ (0 < field_value (refresh_scope original edited s) s.checksum_at)
refresh_scope_nonzero original edited s w bytes =
    field_value-refresh_scope original edited s (length edited) refl w bytes
