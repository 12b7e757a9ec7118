-- ===== src/Sanitizer/Rewriter/Kept.antt =====
-- What `rewrite` returns: its size, and the bytes that are those of the frame.
use pcap_server.Prelude.{
  ℕ, ◌≡◌, ◌<◌, refl, sym, ap, subst, ◌∙◌, Bool, true, false, not, ◌&&◌, [], Option, Bytes, ltb,
  length, take, get_or, arith, length-take, bytes_eq, if◌then◌else◌, All, All-map, All-zip,
}
use pcap_server.Anonymize.{Primitives}
use pcap_server.Anonymize.Mapper.{MapperConfig}
use pcap_server.Framewalk.{Outcome, done, index_error, unsupported_link_type, out_of_fuel, Layout}
use pcap_server.Framewalk.Invariant.{IsLayout, size_of}
use pcap_server.Framewalk.Walk.{walk}
use pcap_server.Framewalk.Checksum.{refresh_checksums}
use pcap_server.Framewalk.Checksum.Refresh.{
  NoField, length-refresh_checksums, get_or-refresh_checksums,
}
use pcap_server.Framewalk.Checksum.Walked.{IsLayout-walk}
use pcap_server.Sanitizer.{walk_failed, Attempt, ok, raised, Holds, Holds-bind, Holds-ok}
use pcap_server.Sanitizer.Texts.{PythonTexts}
use pcap_server.Sanitizer.Fields.{Json}
use pcap_server.Sanitizer.Rules.{SanitizeOptions}
use pcap_server.Sanitizer.Rewriter.{
  FrameRewriter, Editing, map_headers, apply_reported, finish_frame, rewrite_walked, rewrite,
}
use pcap_server.Sanitizer.Rewriter.Writes.{Misses, get_or-take}
use pcap_server.Sanitizer.Rewriter.Edits.{IsRewriter, IsEdited, MayWrite, map_headers-IsEdited}
use pcap_server.Sanitizer.Rewriter.Edits.Packet.{FieldWritable}
use pcap_server.Sanitizer.Rewriter.Reported.{MissesField, locate-Reported}
use pcap_server.Sanitizer.Rewriter.Whole.{
  Within, locate-Within, reported_fields, MissesLocated, All-kept, apply_reported-IsEdited,
}

-- The length of what `rewrite` returns.
abbrev pub final_length : SanitizeOptions → Layout → Bytes → ℕ
final_length o l frame = if o.strip_payload then l.payload_start else length frame

module _ (p : Primitives) (py : PythonTexts) (frame : Bytes) where
  abbrev pub after_walk :
      FrameRewriter → Option Json → Outcome Layout → Attempt (Bytes × FrameRewriter)
  after_walk w packet outcome = elim outcome [
    | done l ↦ rewrite_walked p py w frame packet l
    | index_error ↦ raised walk_failed
    | unsupported_link_type t ↦ raised walk_failed
    | out_of_fuel ↦ raised walk_failed
  ]

module _ (p : Primitives) (py : PythonTexts) (c : MapperConfig) (o : SanitizeOptions) (lt : ℕ)
    (frame : Bytes) (Kept : ℕ → Type 0) where
  -- The result of `rewrite` on a frame with a layout.
  pub record IsRewritten (l : Layout) (a : Bytes × FrameRewriter) : Type 0 where
    pub size : length a.0 ≡ final_length o l frame
    pub kept :
        (i : ℕ) → Kept i → NoField i l.scopes → i < length a.0 → get_or a.0 i 0 ≡ get_or frame i 0
    pub rewriter : IsRewriter p c o lt a.1

  module _ (l : Layout) (layout : IsLayout (length frame) l) where
    -- The checksums refreshed, or left.
    abbrev refreshed_if : Bool → Bytes → Bytes
    refreshed_if changed edited =
        if changed then refresh_checksums frame edited l.scopes else edited

    length-refreshed :
        (changed : Bool) (e : Editing)
        → IsEdited p py c o lt frame Kept e
        → length (refreshed_if changed e.edited) ≡ length frame
    length-refreshed true e h =
        length-refresh_checksums frame e.edited (length frame) h.same_length l.scopes
    length-refreshed false e h = h.same_length

    get_or-refreshed :
        (changed : Bool) (e : Editing) (i : ℕ)
        → IsEdited p py c o lt frame Kept e
        → Kept i
        → NoField i l.scopes
        → get_or (refreshed_if changed e.edited) i 0 ≡ get_or frame i 0
    get_or-refreshed true e i h kept outside =
        get_or-refresh_checksums frame e.edited (length frame) h.same_length i l.scopes
          layout.scopes_within outside
        ∙ h.same_kept i kept
    get_or-refreshed false e i h kept outside = h.same_kept i kept

    -- The payload cut off, or left.
    cut-IsRewritten :
        (b strip : Bool) (xs : Bytes) (v w : FrameRewriter)
        → o.strip_payload ≡ strip
        → b ≡ strip && ltb l.payload_start (length xs)
        → length xs ≡ length frame
        → ((i : ℕ) → Kept i → NoField i l.scopes → get_or xs i 0 ≡ get_or frame i 0)
        → IsRewriter p c o lt v
        → IsRewriter p c o lt w
        → IsRewritten l (if b then (take l.payload_start xs, v) else (xs, w))
    cut-IsRewritten true true xs v w e cut size same hv hw = record {
      size =
          omega (arith, length-take l.payload_start xs, size, layout.payload_within)
          ∙ sym (ap (λ s. if s then l.payload_start else length frame) e);
      kept = λ i kept outside below.
          get_or-take l.payload_start xs i 0 (omega (arith, below, length-take l.payload_start xs))
          ∙ same i kept outside;
      rewriter = hv;
    }
    cut-IsRewritten true false xs v w e cut size same hv hw = cc cut
    cut-IsRewritten false true xs v w e cut size same hv hw = record {
      size =
          ground (arith, cut, size, layout.payload_within)
          ∙ sym (ap (λ s. if s then l.payload_start else length frame) e);
      kept = λ i kept outside below. same i kept outside;
      rewriter = hw;
    }
    cut-IsRewritten false false xs v w e cut size same hv hw = record {
      size = size ∙ sym (ap (λ s. if s then l.payload_start else length frame) e);
      kept = λ i kept outside below. same i kept outside;
      rewriter = hw;
    }

    finish_frame-IsRewritten :
        (e : Editing)
        → IsEdited p py c o lt frame Kept e
        → IsRewritten l (finish_frame p py frame l e)
    unfolding finish_frame
    finish_frame-IsRewritten e h =
        let changed = not (bytes_eq e.edited frame) in
        let xs = refreshed_if changed e.edited in
        let s = e.rewriter.options.strip_payload in
        cut-IsRewritten (s && ltb l.payload_start (length xs)) s xs _ e.rewriter
          (ap (λ q. q.strip_payload) (sym h.rewriter.same_options)) refl
          (length-refreshed changed e h)
          (λ i kept outside. get_or-refreshed changed e i h kept outside)
          (record {
            same_options = h.rewriter.same_options;
            same_linktype = h.rewriter.same_linktype;
            coherent = h.rewriter.coherent;
          })
          h.rewriter

    rewrite_walked-IsRewritten :
        (w : FrameRewriter) (packet : Option Json)
        → IsRewriter p c o lt w
        → All (λ a. MayWrite p py c o lt frame Kept (a.0, size_of a.1)) l.addresses
        → All (FieldWritable p py c o lt frame Kept) (reported_fields packet)
        → Holds (IsRewritten l) (rewrite_walked p py w frame packet l)
    unfolding rewrite_walked
    rewrite_walked-IsRewritten w packet h addresses fields =
        let e : Editing = record { edited = frame; placed = []; rewriter = w } in
        let mapped = map_headers p py frame l.addresses e in
        Holds-bind (IsEdited p py c o lt frame Kept) (IsRewritten l)
          (apply_reported p py packet frame l.transport mapped)
          (λ applied. ok (finish_frame p py frame l applied))
          (apply_reported-IsEdited p py c o lt frame Kept packet l.transport mapped
            (map_headers-IsEdited p py c o lt frame Kept l.addresses e
              (record { same_length = refl; same_kept = λ i k. refl; rewriter = h }) addresses)
            fields)
          (λ applied h'. finish_frame-IsRewritten applied h')

  rewrite-IsRewritten :
      (w : FrameRewriter) (packet : Option Json) (l : Layout)
      → IsRewriter p c o lt w
      → walk frame w.linktype ≡ done l
      → ((i : ℕ) → Kept i → All (λ a. Misses i (a.0, size_of a.1)) l.addresses)
      → ((i : ℕ) → Kept i → All (MissesLocated py frame i) (reported_fields packet))
      → Holds (IsRewritten l) (rewrite p py w frame packet)
  unfolding rewrite
  rewrite-IsRewritten w packet l h walked addresses fields =
      let layout = IsLayout-walk frame w.linktype l walked in
      let whole =
        rewrite_walked-IsRewritten l layout w packet h
          (All-zip _ _ _ l.addresses
            (λ a within misses. record { within = within; misses = misses }) layout.addresses_within
            (All-kept Kept (λ i a. Misses i (a.0, size_of a.1)) l.addresses addresses))
          (All-map _ _ (reported_fields packet)
            (λ f misses place found. record {
              within = subst (Within (length frame)) found (locate-Within py f.2 frame);
              misses = λ i kept. misses i kept place found;
            })
            (All-kept Kept (MissesLocated py frame) (reported_fields packet) fields)) in
      subst (λ outcome. Holds (IsRewritten l) (after_walk p py frame w packet outcome)) (sym walked)
        whole

Holds-always : {A : Type 0} (P : A → Type 0) (x : Attempt A) → ((a : A) → P a) → Holds P x
Holds-always P (ok a) h = h a
Holds-always P (raised e) h = tt

module _ (p : Primitives) (py : PythonTexts) (frame : Bytes) (w : FrameRewriter)
    (packet : Option Json) where
  abbrev Walked : Bytes × FrameRewriter → Type 0
  Walked a = (l : Layout) × (walk frame w.linktype ≡ done l)

  Walked-after :
      (outcome : Outcome Layout)
      → walk frame w.linktype ≡ outcome
      → Holds Walked (after_walk p py frame w packet outcome)
  Walked-after (done l) e = Holds-always Walked (rewrite_walked p py w frame packet l) (λ a. (l, e))
  Walked-after index_error e = tt
  Walked-after (unsupported_link_type t) e = tt
  Walked-after out_of_fuel e = tt

  -- A frame that is rewritten has a layout.
  pub rewrite-Walked :
      (a : Bytes × FrameRewriter)
      → rewrite p py w frame packet ≡ ok a
      → (l : Layout) × (walk frame w.linktype ≡ done l)
  unfolding rewrite
  rewrite-Walked a e =
      Holds-ok Walked (rewrite p py w frame packet) a (Walked-after (walk frame w.linktype) refl) e

-- `rewrite`, on a frame that the walker lays out: what it returns is as long as the frame, or, with
-- strip_payload, as its headers up to `payload_start`. The rewriter that is left has the same
-- options and link type, and a mapper whose caches hold the stand-ins that it would give without them. This holds
-- of any packet that tshark may report for the frame.
pub length-rewrite :
    (p : Primitives) (py : PythonTexts) (c : MapperConfig) (o : SanitizeOptions) (lt : ℕ)
    (w : FrameRewriter) (frame : Bytes) (packet : Option Json) (l : Layout)
    (a : Bytes × FrameRewriter)
    → IsRewriter p c o lt w
    → walk frame w.linktype ≡ done l
    → rewrite p py w frame packet ≡ ok a
    → (length a.0 ≡ final_length o l frame) × IsRewriter p c o lt a.1
length-rewrite p py c o lt w frame packet l a h walked e =
    let none_kept : ℕ → Type 0 = λ i. ⊥ in
    let r =
      Holds-ok (IsRewritten p py c o lt frame none_kept l) (rewrite p py w frame packet) a
        (rewrite-IsRewritten p py c o lt frame none_kept w packet l h walked (λ i k. absurd k)
          (λ i k. absurd k))
        e in
    (r.size, r.rewriter)

-- `rewrite`, on a frame that the walker lays out, changes no byte of what it returns but in the
-- addresses of the headers, in the fields that tshark reported with the bytes that the frame has
-- where tshark says, and in the checksum fields.
pub get_or-rewrite :
    (p : Primitives) (py : PythonTexts) (c : MapperConfig) (o : SanitizeOptions) (lt : ℕ)
    (w : FrameRewriter) (frame : Bytes) (packet : Option Json) (l : Layout)
    (a : Bytes × FrameRewriter) (i : ℕ)
    → IsRewriter p c o lt w
    → walk frame w.linktype ≡ done l
    → rewrite p py w frame packet ≡ ok a
    → All (λ at. Misses i (at.0, size_of at.1)) l.addresses
    → All (MissesField py frame i) (reported_fields packet)
    → NoField i l.scopes
    → i < length a.0
    → get_or a.0 i 0 ≡ get_or frame i 0
get_or-rewrite p py c o lt w frame packet l a i h walked e addresses fields outside below =
    let only : ℕ → Type 0 = λ j. j ≡ i in
    let located =
      All-map (MissesField py frame i) (MissesLocated py frame i) (reported_fields packet)
        (λ f m place found. m place (locate-Reported py frame f.2 place found)) fields in
    let r =
      Holds-ok (IsRewritten p py c o lt frame only l) (rewrite p py w frame packet) a
        (rewrite-IsRewritten p py c o lt frame only w packet l h walked
          (λ j same.
            subst (λ k. All (λ at. Misses k (at.0, size_of at.1)) l.addresses) (sym same) addresses)
          (λ j same.
            subst (λ k. All (MissesLocated py frame k) (reported_fields packet)) (sym same)
              located))
        e in
    r.kept i refl outside below
