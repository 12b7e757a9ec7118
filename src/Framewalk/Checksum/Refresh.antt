-- ===== src/Framewalk/Checksum/Refresh.antt =====
-- `refresh_checksums` over the scopes of a walk, innermost first.
use mathlib.Core.List.{reverse-cons, foldl-append}
use pcap_server.Prelude.{
  IsBytes, ℕ, ◌+◌, ◌%◌, ◌≤◌, ◌<◌, min, ◌≡◌, refl, ◌∙◌, ◌⊎◌, inl, inr, List, [], ◌∷◌, Bytes, length,
  get_or, arith, All, All-zip, Pairwise,
}
use pcap_server.Framewalk.{Scope}
use pcap_server.Framewalk.Invariant.{ScopeWithin, Outside}
use pcap_server.Framewalk.Checksum.{field_value, refresh_scope, refresh_checksums}
use pcap_server.Framewalk.Checksum.Slices.{
  length-write_field, pseudo_bytes-write_before, covered-write_before, field_value-write_other,
  get_or-write_field,
}
use pcap_server.Framewalk.Checksum.Rfc1624.{
  cover_sum, receiver_sum, update, refresh_scope-cases, length-refresh_scope, IsBytes-refresh_scope,
  receiver_sum-refresh_scope,
}

-- The byte at `i` belongs to no scope's checksum field.
abbrev pub NoField : ℕ → List Scope → Type 0
NoField i = All (λ s. (i < s.checksum_at) ⊎ (s.checksum_at + 2 ≤ i))

-- What a scope's field, as it stands in the edited buffer, makes with the original bytes.
abbrev pub kept_sum : Bytes → Bytes → Scope → ℕ
kept_sum original edited t = (field_value edited t.checksum_at + cover_sum original t) % 0xFFFF

module _ (original edited : Bytes) where
  refresh_checksums-cons :
      (s : Scope) (scopes : List Scope)
      → refresh_checksums original edited (s ∷ scopes)
        ≡ refresh_scope original (refresh_checksums original edited scopes) s
  unfolding refresh_checksums
  refresh_checksums-cons s scopes = rw (reverse-cons, foldl-append)

module _ (original xs : Bytes) (s t : Scope) (n : ℕ) (size : length xs ≡ n)
    (w : ScopeWithin n s) where
  -- A round leaves the receiver's sum of every scope further in as it is.
  receiver_sum-refresh_other :
      ScopeWithin n t
      → Outside s t
      → receiver_sum (refresh_scope original xs s) t ≡ receiver_sum xs t
  receiver_sum-refresh_other wt out =
      elim (refresh_scope-cases original xs s (omega (arith, w.field_within))) [
        | inl same ↦ rw same.0
        | inr written ↦
            let v = update original xs s in
            rw (
              written,
              length-write_field xs s.checksum_at v,
              field_value-write_other xs s.checksum_at v t.checksum_at
                  (inl (omega (arith, wt.start_le_field))),
              covered-write_before xs s.checksum_at v t (min t.end (length xs)) out.0,
              pseudo_bytes-write_before xs s.checksum_at v t.pseudo out.1,
            )
      ]

module _ (original xs : Bytes) (s : Scope) (fits : s.checksum_at + 2 ≤ length xs) where
  field_value-refresh_other :
      (at : ℕ)
      → at + 2 ≤ s.checksum_at
      → field_value (refresh_scope original xs s) at ≡ field_value xs at
  field_value-refresh_other at h = elim (refresh_scope-cases original xs s fits) [
    | inl same ↦ rw same.0
    | inr written ↦
        rw written (field_value-write_other xs s.checksum_at (update original xs s) at (inr h))
  ]

  get_or-refresh_scope :
      (i : ℕ)
      → (i < s.checksum_at) ⊎ (s.checksum_at + 2 ≤ i)
      → get_or (refresh_scope original xs s) i 0 ≡ get_or xs i 0
  get_or-refresh_scope i h = elim (refresh_scope-cases original xs s fits) [
    | inl same ↦ rw same.0
    | inr written ↦ rw written (get_or-write_field xs s.checksum_at (update original xs s) i h)
  ]

module _ (original edited : Bytes) (n : ℕ) (size : length edited ≡ n) where
  pub length-refresh_checksums :
      (scopes : List Scope) → length (refresh_checksums original edited scopes) ≡ n
  unfolding refresh_checksums
  length-refresh_checksums [] = size
  length-refresh_checksums (s ∷ scopes) = rw (refresh_checksums-cons original edited s scopes) (
      length-refresh_scope original (refresh_checksums original edited scopes) s
      ∙ length-refresh_checksums scopes)

  pub IsBytes-refresh_checksums :
      (scopes : List Scope)
      → All (ScopeWithin n) scopes
      → IsBytes edited
      → IsBytes (refresh_checksums original edited scopes)
  unfolding refresh_checksums
  IsBytes-refresh_checksums [] w h = h
  IsBytes-refresh_checksums (s ∷ scopes) w h =
      rw (refresh_checksums-cons original edited s scopes) (
        IsBytes-refresh_scope original (refresh_checksums original edited scopes) s n
          (length-refresh_checksums scopes) w.0 (IsBytes-refresh_checksums scopes w.1 h))

  field_value-refresh_checksums :
      (at : ℕ) (scopes : List Scope)
      → All (ScopeWithin n) scopes
      → All (λ s. at + 2 ≤ s.checksum_at) scopes
      → field_value (refresh_checksums original edited scopes) at ≡ field_value edited at
  unfolding refresh_checksums
  field_value-refresh_checksums at [] w h = refl
  field_value-refresh_checksums at (s ∷ scopes) w h =
      rw (refresh_checksums-cons original edited s scopes) (
        field_value-refresh_other original (refresh_checksums original edited scopes) s
          (omega (arith, w.0.field_within, length-refresh_checksums scopes)) at h.0
        ∙ field_value-refresh_checksums at scopes w.1 h.1)

  -- Nothing but checksum fields is written.
  pub get_or-refresh_checksums :
      (i : ℕ) (scopes : List Scope)
      → All (ScopeWithin n) scopes
      → NoField i scopes
      → get_or (refresh_checksums original edited scopes) i 0 ≡ get_or edited i 0
  unfolding refresh_checksums
  get_or-refresh_checksums i [] w h = refl
  get_or-refresh_checksums i (s ∷ scopes) w h =
      rw (refresh_checksums-cons original edited s scopes) (
        get_or-refresh_scope original (refresh_checksums original edited scopes) s
          (omega (arith, w.0.field_within, length-refresh_checksums scopes)) i h.0
        ∙ get_or-refresh_checksums i scopes w.1 h.1)

  -- Each scope's receiver sum, once all are refreshed, is what its edited field makes with the
  -- original bytes.
  pub receiver_sum-refresh_checksums :
      (scopes : List Scope)
      → length original ≡ n
      → IsBytes edited
      → All (ScopeWithin n) scopes
      → Pairwise Outside scopes
      → All
          (λ t.
            receiver_sum (refresh_checksums original edited scopes) t ≡ kept_sum original edited t)
          scopes
  receiver_sum-refresh_checksums [] e b w p = tt
  receiver_sum-refresh_checksums (s ∷ scopes) e b w p =
      let xs = refresh_checksums original edited scopes in
      let size' = length-refresh_checksums scopes in
      let fields =
        All-zip (ScopeWithin n) (Outside s) (λ t. s.checksum_at + 2 ≤ t.checksum_at) scopes
          (λ t wt out. omega (arith, wt.start_le_field)) w.1 p.0 in
      let here =
        receiver_sum-refresh_scope original xs s n size' w.0
          (IsBytes-refresh_checksums scopes w.1 b) e in
      rw (refresh_checksums-cons original edited s scopes) (
        rw (field_value-refresh_checksums s.checksum_at scopes w.1 fields) at here,
        All-zip (λ t. receiver_sum xs t ≡ kept_sum original edited t)
            (λ t. ScopeWithin n t × Outside s t)
            (λ t.
              receiver_sum (refresh_checksums original edited (s ∷ scopes)) t
              ≡ kept_sum original edited t)
            scopes
            (λ t ih out.
              rw (refresh_checksums-cons original edited s scopes)
                (receiver_sum-refresh_other original xs s t n size' w.0 out.0 out.1 ∙ ih))
            (receiver_sum-refresh_checksums scopes e b w.1 p.1)
            (All-zip (ScopeWithin n) (Outside s) (λ t. ScopeWithin n t × Outside s t) scopes
              (λ t wt out. (wt, out)) w.1 p.0),
      )
