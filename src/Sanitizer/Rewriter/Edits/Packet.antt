-- ===== src/Sanitizer/Rewriter/Edits/Packet.antt =====
-- The steps of the rewriter on what tshark located.
use pcap_server.Prelude.{
  ℕ, ◌+◌, ◌≡◌, refl, sym, ◌∙◌, Bool, true, false, not, List, [], ◌∷◌, Option, none, some, Bytes,
  length, slice, arith, bytes_eq, ◌==◌, if◌then◌else◌, Text, All,
}
use pcap_server.Anonymize.{Primitives}
use pcap_server.Anonymize.Mapper.{MapperConfig}
use pcap_server.Framewalk.{Kind}
use pcap_server.Sanitizer.{not-false}
use pcap_server.Sanitizer.Texts.{PythonTexts}
use pcap_server.Sanitizer.Fields.{Json, Found, locate, text_of, claims_bytes}
use pcap_server.Sanitizer.Names.{address_matches}
use pcap_server.Sanitizer.Rules.{
  SanitizeOptions, Rule, Style, secret, auth, cookie, name, host, nbns,
}
use pcap_server.Sanitizer.Rewriter.{
  FrameRewriter, Editing, add_unplaced, is_placed, map_address, place, apply_located, apply_address,
  replacement, put, apply_rule, apply_rules, apply_kind, apply_fields,
}
use pcap_server.Sanitizer.Summary.{Masked}
use pcap_server.Sanitizer.Conditions.{rules_for, applies, category_for, kind_for}
use pcap_server.Sanitizer.Rewriter.Sizes.{address_matches_size}
use pcap_server.Sanitizer.Rewriter.Edits.{
  IsRewriter, IsEdited, MayWrite, IsEdited-assign, map_address-IsMapped, place-IsEdited,
  length-slice_within,
}

module _ (p : Primitives) (py : PythonTexts) (c : MapperConfig) (o : SanitizeOptions) (lt : ℕ)
    (frame : Bytes) (Kept : ℕ → Type 0) where
  abbrev Edited : Editing → Type 0
  Edited e = IsEdited p py c o lt frame Kept e

  abbrev Writable : ℕ × ℕ → Type 0
  Writable place = MayWrite p py c o lt frame Kept place

  -- Where a field is located, nothing is kept.
  abbrev pub FieldWritable : Found → Type 0
  FieldWritable f = (place : ℕ × ℕ) → locate py f.2 frame ≡ some place → Writable place

  Edited-if :
      (b : Bool) (x y : Editing)
      → (b ≡ true → Edited x)
      → (b ≡ false → Edited y)
      → Edited (if b then x else y)
  Edited-if true x y hx hy = hx refl
  Edited-if false x y hx hy = hy refl

  Edited-option :
      {A : Type 0} (a : Option A) (x : Editing) (y : A → Editing)
      → Edited x
      → ((v : A) → a ≡ some v → Edited (y v))
      → Edited (elim a [ none ↦ x | some v ↦ y v ])
  Edited-option none x y hx hy = hx
  Edited-option (some v) x y hx hy = hy v refl

  Edited-add_unplaced : (field : Text) (e : Editing) → Edited e → Edited (add_unplaced field e)
  unfolding add_unplaced
  Edited-add_unplaced field e h = record {
    same_length = h.same_length;
    same_kept = h.same_kept;
    rewriter = record {
      same_options = h.rewriter.same_options;
      same_linktype = h.rewriter.same_linktype;
      coherent = h.rewriter.coherent;
    };
  }

  unplaced_if :
      (b : Bool) (field : Text) (e : Editing)
      → Edited e
      → Edited (if b then add_unplaced field e else e)
  unplaced_if b field e h =
      Edited-if b (add_unplaced field e) e (λ _. Edited-add_unplaced field e h) (λ _. h)

  apply_located-Edited :
      (kind : Kind) (shown : Text) (position len : ℕ) (e : Editing)
      → Edited e
      → Writable (position, len)
      → Edited (apply_located p py kind shown frame position len e)
  unfolding apply_located
  apply_located-Edited kind shown position len e h m =
      let original = slice frame position (position + len) in
      let answer = map_address p py kind original e.rewriter in
      Edited-if (is_placed (position, len) e.placed) e _ (λ _. h)
        (λ _.
          Edited-if (not (address_matches py kind original shown)) e
            (place p py position len answer.0 answer.1 e) (λ _. h)
            (λ matches.
              let size =
                address_matches_size py kind original shown
                  (not-false (address_matches py kind original shown) matches) in
              let whole = length-slice_within p py c o lt frame Kept position len m.within in
              let mapped =
                map_address-IsMapped p py c o lt frame Kept kind original e.rewriter h.rewriter
                  size in
              place-IsEdited p py c o lt frame Kept position len answer.0 answer.1 e h m
                (λ xs got. mapped.0 xs got ∙ sym size ∙ whole) mapped.1))

  apply_address-Edited :
      (field : Text) (kind : Kind) (value raw : Json) (e : Editing)
      → Edited e
      → FieldWritable (field, value, raw)
      → Edited (apply_address p py field kind value raw frame e)
  unfolding apply_address
  apply_address-Edited field kind value raw e h m =
      let unplaced = if claims_bytes raw then add_unplaced field e else e in
      Edited-if _ e _ (λ _. h)
        (λ _. Edited-option (text_of value) e _ h (λ shown _.
          Edited-option (locate py raw frame) unplaced
            (λ at. apply_located p py kind shown frame at.0 at.1 e)
            (unplaced_if (claims_bytes raw) field e h)
            (λ at found. apply_located-Edited kind shown at.0 at.1 e h (m at found))))

  put-Edited :
      (counted : Masked) (field : Text) (segment : Bytes) (position len : ℕ) (new : Option Bytes)
      (e : Editing)
      → Edited e
      → Writable (position, len)
      → Edited (put p py counted field segment position len new e)
  unfolding put
  put-Edited counted field segment position len none e h m = Edited-add_unplaced field e h
  put-Edited counted field segment position len (some new) e h m =
      Edited-if (not (length new == len)) (add_unplaced field e) _
        (λ _. Edited-add_unplaced field e h)
        (λ size.
          Edited-if (bytes_eq new segment) e _ (λ _. h)
            (λ _.
              IsEdited-assign p py c o lt frame Kept e position len new h m (ground (arith, size))
                e.placed _
                (record {
                  same_options = h.rewriter.same_options;
                  same_linktype = h.rewriter.same_linktype;
                  coherent = h.rewriter.coherent;
                })))

  replacement-IsRewriter :
      (style : Style) (field : Text) (value : Json) (segment : Bytes) (w : FrameRewriter)
      → IsRewriter p c o lt w
      → IsRewriter p c o lt (replacement p py style field value segment w).1
  unfolding replacement
  replacement-IsRewriter secret field value segment w h = h
  replacement-IsRewriter auth field value segment w h = h
  replacement-IsRewriter cookie field value segment w h = h
  replacement-IsRewriter name field value segment w h = h
  replacement-IsRewriter host field value segment w h = record {
    same_options = h.same_options;
    same_linktype = h.same_linktype;
    coherent = h.coherent;
  }
  replacement-IsRewriter nbns field value segment w h = record {
    same_options = h.same_options;
    same_linktype = h.same_linktype;
    coherent = h.coherent;
  }

  apply_rule-Edited :
      (r : Rule) (field : Text) (value raw : Json) (e : Editing)
      → Edited e
      → FieldWritable (field, value, raw)
      → Edited (apply_rule p py r field value raw frame e)
  unfolding apply_rule
  apply_rule-Edited r field value raw e h m =
      Edited-option (category_for py e.rewriter.options r value) e _ h (λ counted _.
        Edited-option (locate py raw frame) (if claims_bytes raw then add_unplaced field e else e)
          (λ at.
            let segment = slice frame at.0 (at.0 + at.1) in
            let answer = replacement p py r.style field value segment e.rewriter in
            put p py counted field segment at.0 at.1 answer.0 (record e { rewriter = answer.1 }))
          (unplaced_if (claims_bytes raw) field e h)
          (λ at found.
            let segment = slice frame at.0 (at.0 + at.1) in
            let answer = replacement p py r.style field value segment e.rewriter in
            put-Edited counted field segment at.0 at.1 answer.0 (record e { rewriter = answer.1 })
              (record {
                same_length = h.same_length;
                same_kept = h.same_kept;
                rewriter = replacement-IsRewriter r.style field value segment e.rewriter h.rewriter;
              })
              (m at found)))

  apply_rules-Edited :
      (fields : List Found) (rs : List Rule) (field : Text) (value raw : Json) (e : Editing)
      → Edited e
      → FieldWritable (field, value, raw)
      → Edited (apply_rules p py fields rs field value raw frame e)
  unfolding apply_rules
  apply_rules-Edited fields [] field value raw e h m = h
  apply_rules-Edited fields (r ∷ rs) field value raw e h m =
      apply_rules-Edited fields rs field value raw
        (if applies py fields r.when then apply_rule p py r field value raw frame e else e)
        (Edited-if (applies py fields r.when) (apply_rule p py r field value raw frame e) e
          (λ _. apply_rule-Edited r field value raw e h m) (λ _. h))
        m

  apply_kind-Edited :
      (kind : Option Kind) (field : Text) (value raw : Json) (e : Editing)
      → Edited e
      → FieldWritable (field, value, raw)
      → Edited (apply_kind p py kind field value raw frame e)
  unfolding apply_kind
  apply_kind-Edited none field value raw e h m = h
  apply_kind-Edited (some kind) field value raw e h m =
      apply_address-Edited field kind value raw e h m

  pub apply_fields-IsEdited :
      (fields found : List Found) (e : Editing)
      → IsEdited p py c o lt frame Kept e
      → All FieldWritable found
      → IsEdited p py c o lt frame Kept (apply_fields p py fields found frame e)
  unfolding apply_fields
  apply_fields-IsEdited fields [] e h m = h
  apply_fields-IsEdited fields ((field, value, raw) ∷ rest) e h m =
      let kinded = apply_kind p py (kind_for e.rewriter.catalog field) field value raw frame e in
      apply_fields-IsEdited fields rest
        (apply_rules p py fields (rules_for field) field value raw frame kinded)
        (apply_rules-Edited fields (rules_for field) field value raw kinded
          (apply_kind-Edited (kind_for e.rewriter.catalog field) field value raw e h m.0) m.0)
        m.1
