-- ===== src/Sanitizer/Rewriter.antt =====
-- backend/sanitizer.py: _FrameRewriter and what it does to one frame.
pub mod Sizes
pub mod Writes
pub mod Reported
pub mod Edits
pub mod Whole
pub mod Kept
use pcap_server.Prelude.{
  ℕ, zero, suc, ◌+◌, ◌-◌, min, Bool, true, false, not, ◌&&◌, ◌||◌, List, [], ◌∷◌, ◌++◌, Option,
  none, some, Bytes, ltb, leb, ◌==◌, length, take, drop, slice, bytes_eq, if◌then◌else◌, Text, Dict,
  lookup, store, remove,
}
use pcap_server.Anonymize.{Primitives}
use pcap_server.Anonymize.Mapper.{AddressMapper, mapper_ipv4, mapper_ipv6, mapper_mac}
use pcap_server.Anonymize.Names.{Pseudonyms, member_text}
use pcap_server.Framewalk.{
  Outcome, done, index_error, unsupported_link_type, out_of_fuel, Kind, mac, ipv4, ipv6,
  TransportName, tcp, udp, icmp, icmpv6, Layout,
}
use pcap_server.Framewalk.Walk.{walk}
use pcap_server.Framewalk.Checksum.{refresh_checksums}
use pcap_server.Framewalk.Invariant.{size_of}
use pcap_server.Sanitizer.{disagree, walk_failed, Attempt, ok, raised, ◌>>=◌}
use pcap_server.Sanitizer.Texts.{codes, PythonTexts, ends_with, contains, hex, meets}
use pcap_server.Sanitizer.Rules.{
  SanitizeOptions, Category, credentials, usernames, hostnames, Style, secret, auth, cookie, name,
  host, nbns, Rule, rules_by_field, FieldCatalog, rule_selected,
}
use pcap_server.Sanitizer.Fields.{
  Json, array, item, Items, Members, no_members, member_of, get, members_of, text_of, Found,
  raw_suffix, collect_fields, locate, claims_bytes,
}
use pcap_server.Sanitizer.Masks.{mask_secret, mask_auth, mask_cookie, assign}
use pcap_server.Sanitizer.Names.{pseudonym, field_hostname, netbios, address_matches}
use pcap_server.Sanitizer.Summary.{
  Masked, masked_credentials, masked_usernames, masked_hostnames, reverse_dns_names,
  SanitizeSummary, empty_summary, note_undissected, count_masked,
}
use pcap_server.Sanitizer.Conditions.{
  rules_for, seen_values, applies, category_for, is_binary, kind_for, layer_fields, agrees_with,
  has_data, packet_layers, packet_fields,
}

-- A `_FrameRewriter`.
pub record FrameRewriter : Type 0 where
  pub options : SanitizeOptions
  pub mapper : AddressMapper
  pub names : Pseudonyms
  pub catalog : Option FieldCatalog
  pub linktype : ℕ
  pub summary : SanitizeSummary

-- A frame under edit: `edited`, `placed` and the rewriter.
pub record Editing : Type 0 where
  pub edited : Bytes
  pub placed : List (ℕ × ℕ)
  pub rewriter : FrameRewriter

unfoldable pub count_unplaced : Dict ℕ → Text → Option ℕ → Dict ℕ
count_unplaced d field none = store d field 1
count_unplaced d field (some n) = store d field (n + 1)

unfoldable pub add_unplaced : Text → Editing → Editing
add_unplaced field e =
    let s = e.rewriter.summary in
    record e {
      rewriter = record e.rewriter {
        summary = record s { unplaced = count_unplaced s.unplaced field (lookup s.unplaced field) };
      };
    }

unfoldable pub is_placed : ℕ × ℕ → List (ℕ × ℕ) → Bool
is_placed x [] = false
is_placed x (y ∷ ys) = let later = is_placed x ys in x.0 == y.0 && x.1 == y.1 || later

module _ (p : Primitives) (py : PythonTexts) where
  -- `_map_address`, with the mapper that is left.
  unfoldable pub map_address : Kind → Bytes → FrameRewriter → Option Bytes × FrameRewriter
  map_address mac original w =
      let answer = mapper_mac p w.mapper original in
      if w.options.macs then (some answer.0, record w { mapper = answer.1 }) else (none, w)
  map_address ipv4 original w =
      let answer = mapper_ipv4 p w.mapper original in
      if not w.options.ips then (none, w) else (some answer.0, record w { mapper = answer.1 })
  map_address ipv6 original w =
      let answer = mapper_ipv6 p w.mapper original in
      if not w.options.ips then (none, w) else (some answer.0, record w { mapper = answer.1 })

  -- What follows `_map_address`.
  unfoldable pub place : ℕ → ℕ → Option Bytes → FrameRewriter → Editing → Editing
  place position len none w e = record e { rewriter = w }
  place position len (some replacement) w e = record {
    edited = assign e.edited position len replacement;
    placed = e.placed ++ (position, len) ∷ [];
    rewriter = w;
  }

  -- The loop over the layout's addresses.
  unfoldable pub map_headers : Bytes → List (ℕ × Kind) → Editing → Editing
  map_headers frame [] e = e
  map_headers frame ((offset, kind) ∷ rest) e =
      let len = size_of kind in
      let answer = map_address kind (slice frame offset (offset + len)) e.rewriter in
      map_headers frame rest (place offset len answer.0 answer.1 e)

  -- `_apply_address` from the comparison with `placed` on.
  unfoldable pub apply_located : Kind → Text → Bytes → ℕ → ℕ → Editing → Editing
  apply_located kind shown frame position len e =
      let original = slice frame position (position + len) in
      let answer = map_address kind original e.rewriter in
      if is_placed (position, len) e.placed
      then e
      else if not (address_matches py kind original shown)
      then e
      else place position len answer.0 answer.1 e

  unfoldable pub apply_address : Text → Kind → Json → Json → Bytes → Editing → Editing
  apply_address field kind value raw frame e =
      let unplaced = if claims_bytes raw then add_unplaced field e else e in
      let on = elim kind as (λ _. Bool) [
        | mac ↦ e.rewriter.options.macs
        | ipv4 ↦ e.rewriter.options.ips
        | ipv6 ↦ e.rewriter.options.ips
      ] in
      if not on || contains (codes "mask") field then e else elim (text_of value) [
        | none ↦ e
        | some shown ↦ elim (locate py raw frame) [
          | none ↦ unplaced
          | some (position, len) ↦ apply_located kind shown frame position len e
        ]
      ]

  abbrev with_names : FrameRewriter → Option Bytes × Pseudonyms → Option Bytes × FrameRewriter
  with_names w a = (a.0, record w { names = a.1 })

  unfoldable pub replacement :
      Style → Text → Json → Bytes → FrameRewriter → Option Bytes × FrameRewriter
  replacement secret field value segment w =
      (some (mask_secret segment value (is_binary w.catalog field)), w)
  replacement auth field value segment w = (some (mask_auth segment value), w)
  replacement cookie field value segment w = (some (mask_cookie segment value), w)
  replacement name field value segment w = (some (pseudonym p w.names segment value), w)
  replacement host field value segment w = with_names w (field_hostname p w.names segment value)
  replacement nbns field value segment w = with_names w (netbios p w.names segment)

  -- `_apply_rule` behind `_replacement`.
  unfoldable pub put : Masked → Text → Bytes → ℕ → ℕ → Option Bytes → Editing → Editing
  put counted field segment position len none e = add_unplaced field e
  put counted field segment position len (some new) e =
      let w = e.rewriter in
      if not (length new == len)
      then add_unplaced field e
      else if bytes_eq new segment
      then e
      else record e {
        edited = assign e.edited position len new;
        rewriter = record w { summary = count_masked counted w.summary };
      }

  unfoldable pub apply_rule : Rule → Text → Json → Json → Bytes → Editing → Editing
  apply_rule r field value raw frame e = elim (category_for py e.rewriter.options r value) [
    | none ↦ e
    | some counted ↦ elim (locate py raw frame) [
      | none ↦ if claims_bytes raw then add_unplaced field e else e
      | some (position, len) ↦
          let segment = slice frame position (position + len) in
          let answer = replacement r.style field value segment e.rewriter in
          put counted field segment position len answer.0 (record e { rewriter = answer.1 })
    ]
  ]

  -- The loop over a field's rules.
  unfoldable pub apply_rules :
      List Found → List Rule → Text → Json → Json → Bytes → Editing → Editing
  apply_rules fields [] field value raw frame e = e
  apply_rules fields (r ∷ rs) field value raw frame e =
      apply_rules fields rs field value raw frame
        (if applies py fields r.when then apply_rule r field value raw frame e else e)

  unfoldable pub apply_kind : Option Kind → Text → Json → Json → Bytes → Editing → Editing
  apply_kind none field value raw frame e = e
  apply_kind (some kind) field value raw frame e = apply_address field kind value raw frame e

  -- The loop over the fields that were found, `fields` being all of them.
  unfoldable pub apply_fields : List Found → List Found → Bytes → Editing → Editing
  apply_fields fields [] frame e = e
  apply_fields fields ((field, value, raw) ∷ rest) frame e = apply_fields fields rest frame (
      apply_rules fields (rules_for field) field value raw frame
        (apply_kind (kind_for e.rewriter.catalog field) field value raw frame e))

module _ (p : Primitives) (py : PythonTexts) where
  unfoldable pub apply_packet :
      Json → Bytes → Option (TransportName × ℕ × ℕ) → Editing → Attempt Editing
  apply_packet packet frame transport e =
      let layers = packet_layers packet in
      let frame_layer = members_of (get layers (codes "frame")) in
      let w = e.rewriter in
      let noted =
        if has_data (get frame_layer (codes "frame.protocols"))
        then record w { summary = note_undissected transport (length frame) w.summary }
        else w in
      let fields = packet_fields packet in
      if not (agrees_with py (get layers (codes "frame_raw")) frame)
      then raised disagree
      else ok (apply_fields p py fields fields frame (record e { rewriter = noted }))

  unfoldable pub apply_reported :
      Option Json → Bytes → Option (TransportName × ℕ × ℕ) → Editing → Attempt Editing
  apply_reported none frame transport e = ok e
  apply_reported (some packet) frame transport e = apply_packet packet frame transport e

  -- The end of `rewrite`: the checksums, and the payload.
  unfoldable pub finish_frame : Bytes → Layout → Editing → Bytes × FrameRewriter
  finish_frame frame l e =
      let w = e.rewriter in
      let refreshed =
        if not (bytes_eq e.edited frame)
        then refresh_checksums frame e.edited l.scopes
        else e.edited in
      if w.options.strip_payload && ltb l.payload_start (length refreshed)
      then (
        take l.payload_start refreshed,
        record w { summary = record w.summary { stripped_frames = w.summary.stripped_frames + 1 } },
      )
      else (refreshed, w)

  unfoldable pub rewrite_walked :
      FrameRewriter → Bytes → Option Json → Layout → Attempt (Bytes × FrameRewriter)
  rewrite_walked w frame packet l = do
    applied ←
        apply_reported packet frame l.transport (
          map_headers p py frame l.addresses (record { edited = frame; placed = []; rewriter = w }))
    ok (finish_frame frame l applied)

  unfoldable pub rewrite : FrameRewriter → Bytes → Option Json → Attempt (Bytes × FrameRewriter)
  rewrite w frame packet = elim (walk frame w.linktype) [
    | done l ↦ rewrite_walked w frame packet l
    | index_error ↦ raised walk_failed
    | unsupported_link_type t ↦ raised walk_failed
    | out_of_fuel ↦ raised walk_failed
  ]
