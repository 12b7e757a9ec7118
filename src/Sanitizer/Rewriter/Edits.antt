-- ===== src/Sanitizer/Rewriter/Edits.antt =====
-- What every step of the rewriter keeps of the frame under edit.
pub mod Packet
use pcap_server.Prelude.{
  ℕ, zero, suc, ◌+◌, ◌-◌, min, ◌≡◌, ◌≤◌, ◌<◌, ◌⊎◌, refl, sym, ap, subst, ◌∙◌, Bool, true, false,
  not, ◌&&◌, ◌||◌, List, [], ◌∷◌, ◌++◌, Option, none, some, Bytes, ltb, length, take, drop, slice,
  get_or, arith, Bool-cases, inl, inr, length-append, length-take, length-drop, bytes_eq, ◌==◌,
  if◌then◌else◌, Text, All,
}
use pcap_server.Anonymize.{Primitives}
use pcap_server.Anonymize.Mapper.{MapperConfig, mapper_ipv4, mapper_ipv6, mapper_mac}
use pcap_server.Anonymize.Mapper.Cache.{
  IsCoherent, Answers, mapper_ipv4-IsCoherent, mapper_mac-IsCoherent, mapper_ipv6-IsCoherent,
  plain_ipv6,
}
use pcap_server.Framewalk.{Kind, mac, ipv4, ipv6}
use pcap_server.Framewalk.Invariant.{size_of}
use pcap_server.Sanitizer.Texts.{PythonTexts, contains, codes, hex}
use pcap_server.Sanitizer.Fields.{
  Json, Found, locate, text_of, natural_of, confirm, locate_in, claims_bytes, truthy,
}
use pcap_server.Sanitizer.Masks.{assign}
use pcap_server.Sanitizer.Names.{address_matches}
use pcap_server.Sanitizer.Rules.{
  SanitizeOptions, Rule, Style, secret, auth, cookie, name, host, nbns,
}
use pcap_server.Sanitizer.Rewriter.{
  FrameRewriter, Editing, add_unplaced, is_placed, map_address, place, map_headers, apply_located,
  apply_address, replacement, put, apply_rule, apply_rules, apply_kind, apply_fields, with_names,
}
use pcap_server.Sanitizer.Summary.{Masked}
use pcap_server.Sanitizer.Conditions.{rules_for, applies, category_for, kind_for}
use pcap_server.Sanitizer.Rewriter.Sizes.{plain_for, length-plain_for, address_matches_size}
use pcap_server.Sanitizer.Rewriter.Writes.{Misses, length-assign, get_or-assign}

-- The rewriter's options and link type, and a mapper whose caches hold its stand-ins.
pub record IsRewriter (p : Primitives) (c : MapperConfig) (o : SanitizeOptions) (lt : ℕ)
    (w : FrameRewriter) : Type 0 where
  pub same_options : w.options ≡ o
  pub same_linktype : w.linktype ≡ lt
  pub coherent : IsCoherent p c w.mapper

module _ (p : Primitives) (py : PythonTexts) (c : MapperConfig) (o : SanitizeOptions) (lt : ℕ)
    (frame : Bytes) (Kept : ℕ → Type 0) where
  -- The frame under edit has its length, and its kept bytes are those of the original.
  pub record IsEdited (e : Editing) : Type 0 where
    pub same_length : length e.edited ≡ length frame
    pub same_kept : (i : ℕ) → Kept i → get_or e.edited i 0 ≡ get_or frame i 0
    pub rewriter : IsRewriter p c o lt e.rewriter

  -- A place in the frame that holds no kept byte.
  pub record MayWrite (place : ℕ × ℕ) : Type 0 where
    pub within : place.0 + place.1 ≤ length frame
    pub misses : (i : ℕ) → Kept i → Misses i place

  pub IsEdited-assign :
      (e : Editing) (position len : ℕ) (new : Bytes)
      → IsEdited e
      → MayWrite (position, len)
      → length new ≡ len
      → (placed : List (ℕ × ℕ)) (w : FrameRewriter) → IsRewriter p c o lt w
      → IsEdited
          (record { edited = assign e.edited position len new; placed = placed; rewriter = w })
  IsEdited-assign e position len new h m size placed w hw =
      let room : position + len ≤ length e.edited = omega (arith, h.same_length, m.within) in
      record {
        same_length = length-assign e.edited new position len room size ∙ h.same_length;
        same_kept = λ i kept.
            get_or-assign e.edited new position len room size i (m.misses i kept)
            ∙ h.same_kept i kept;
        rewriter = hw;
      }

  -- The stand-in that map_address gives has the size of its address.
  abbrev pub IsMapped : Kind → Option Bytes × FrameRewriter → Type 0
  IsMapped kind a =
      ((new : Bytes) → a.0 ≡ some new → length new ≡ size_of kind) × IsRewriter p c o lt a.1

  IsMapped-if :
      (b : Bool) (kind : Kind) (w : FrameRewriter) (x y : Option Bytes × FrameRewriter)
      → IsMapped kind x
      → IsMapped kind y
      → IsMapped kind (if b then x else y)
  IsMapped-if true kind w x y hx hy = hx
  IsMapped-if false kind w x y hx hy = hy

  pub map_address-IsMapped :
      (kind : Kind) (original : Bytes) (w : FrameRewriter)
      → IsRewriter p c o lt w
      → length original ≡ size_of kind
      → IsMapped kind (map_address p py kind original w)
  unfolding map_address
  map_address-IsMapped mac original w h size =
      let a = mapper_mac-IsCoherent p c w.mapper original h.coherent in
      IsMapped-if w.options.macs mac w
        (
          some (mapper_mac p w.mapper original).0,
          record w { mapper = (mapper_mac p w.mapper original).1 },
        )
        (none, w)
        (
          (λ new e. cc (e, ap length a.0, length-plain_for p c mac original size)),
          record { same_options = h.same_options; same_linktype = h.same_linktype; coherent = a.1 },
        )
        ((λ new e. cc e), h)
  map_address-IsMapped ipv4 original w h size =
      let a = mapper_ipv4-IsCoherent p c w.mapper original h.coherent in
      IsMapped-if (not w.options.ips) ipv4 w (none, w)
        (
          some (mapper_ipv4 p w.mapper original).0,
          record w { mapper = (mapper_ipv4 p w.mapper original).1 },
        )
        ((λ new e. cc e), h)
        (
          (λ new e. cc (e, ap length a.0, length-plain_for p c ipv4 original size)),
          record { same_options = h.same_options; same_linktype = h.same_linktype; coherent = a.1 },
        )
  map_address-IsMapped ipv6 original w h size =
      let a = mapper_ipv6-IsCoherent p c w.mapper original h.coherent in
      IsMapped-if (not w.options.ips) ipv6 w (none, w)
        (
          some (mapper_ipv6 p w.mapper original).0,
          record w { mapper = (mapper_ipv6 p w.mapper original).1 },
        )
        ((λ new e. cc e), h)
        (
          (λ new e. cc (e, ap length a.0, length-plain_for p c ipv6 original size)),
          record { same_options = h.same_options; same_linktype = h.same_linktype; coherent = a.1 },
        )

  pub place-IsEdited :
      (position len : ℕ) (new : Option Bytes) (w : FrameRewriter) (e : Editing)
      → IsEdited e
      → MayWrite (position, len)
      → ((xs : Bytes) → new ≡ some xs → length xs ≡ len)
      → IsRewriter p c o lt w
      → IsEdited (place p py position len new w e)
  unfolding place
  place-IsEdited position len none w e h m size hw = record {
    same_length = h.same_length;
    same_kept = h.same_kept;
    rewriter = hw;
  }
  place-IsEdited position len (some new) w e h m size hw =
      IsEdited-assign e position len new h m (size new refl) (e.placed ++ (position, len) ∷ []) w hw

  pub length-slice_within :
      (position len : ℕ)
      → position + len ≤ length frame
      → length (slice frame position (position + len)) ≡ len
  length-slice_within position len h = omega (
    arith,
    h,
    length-take (position + len - position) (drop position frame),
    length-drop position frame,
  )

  pub map_headers-IsEdited :
      (addresses : List (ℕ × Kind)) (e : Editing)
      → IsEdited e
      → All (λ a. MayWrite (a.0, size_of a.1)) addresses
      → IsEdited (map_headers p py frame addresses e)
  unfolding map_headers
  map_headers-IsEdited [] e h m = h
  map_headers-IsEdited ((offset, kind) ∷ rest) e h m =
      let len = size_of kind in
      let original = slice frame offset (offset + len) in
      let answer = map_address p py kind original e.rewriter in
      let mapped =
        map_address-IsMapped kind original e.rewriter h.rewriter
          (length-slice_within offset len m.0.within) in
      map_headers-IsEdited rest (place p py offset len answer.0 answer.1 e)
        (place-IsEdited offset len answer.0 answer.1 e h m.0 mapped.0 mapped.1) m.1
