-- ===== src/Sanitizer/Rewriter/Whole.antt =====
-- `rewrite` as a whole: the size of what it returns, and the bytes it leaves alone.
use pcap_server.Prelude.{
  ℕ, ◌+◌, ◌≡◌, ◌≤◌, refl, Bool, true, false, not, ◌||◌, List, [], ◌∷◌, Option, none, some, Bytes,
  ltb, length, arith, ◌==◌, if◌then◌else◌, Text, All,
}
use pcap_server.Anonymize.{Primitives}
use pcap_server.Anonymize.Mapper.{MapperConfig}
use pcap_server.Framewalk.{TransportName}
use pcap_server.Sanitizer.{disagree, ok, raised, Holds, Holds-if}
use pcap_server.Sanitizer.Texts.{PythonTexts, codes}
use pcap_server.Sanitizer.Fields.{
  Json, null, boolean, whole, negative, float, string, array, object, no_items, item, Found, get,
  members_of, locate, locate_in, confirm, text_of, natural_of, truthy,
}
use pcap_server.Sanitizer.Rules.{SanitizeOptions}
use pcap_server.Sanitizer.Rewriter.{Editing, apply_fields, apply_packet, apply_reported}
use pcap_server.Sanitizer.Summary.{note_undissected}
use pcap_server.Sanitizer.Conditions.{packet_layers, packet_fields, agrees_with, has_data}
use pcap_server.Sanitizer.Rewriter.Writes.{Misses}
use pcap_server.Sanitizer.Rewriter.Edits.{IsEdited}
use pcap_server.Sanitizer.Rewriter.Edits.Packet.{FieldWritable, apply_fields-IsEdited}

-- A located field lies within the frame.
abbrev pub Within : ℕ → Option (ℕ × ℕ) → Type 0
Within n none = Unit
Within n (some place) = place.0 + place.1 ≤ n

Within-if :
    (n : ℕ) (b : Bool) (x : Option (ℕ × ℕ))
    → (b ≡ false → Within n x)
    → Within n (if b then none else x)
Within-if n true x h = tt
Within-if n false x h = h refl

Within-option :
    (n : ℕ) {A : Type 0} (a : Option A) (f : A → Option (ℕ × ℕ))
    → ((v : A) → Within n (f v))
    → Within n (elim a [ none ↦ none | some v ↦ f v ])
Within-option n none f h = tt
Within-option n (some v) f h = h v

or_right : (a b c : Bool) → a || b || c ≡ false → c ≡ false
or_right true b c h = cc h
or_right false true c h = cc h
or_right false false c h = h

confirm-Within :
    (py : PythonTexts) (digits : Text) (position len : ℕ) (masked : Bool) (frame : Bytes)
    → Within (length frame) (confirm py digits position len masked frame)
unfolding confirm
confirm-Within py digits position len masked frame =
    Within-if (length frame) (masked || len == 0 || ltb (length frame) (position + len)) _
      (λ inside. Within-if (length frame) _ (some (position, len)) (λ _.
        ground (arith, or_right masked (len == 0) (ltb (length frame) (position + len)) inside)))

locate_in-Within :
    (py : PythonTexts) (h p l b : Json) (frame : Bytes)
    → Within (length frame) (locate_in py h p l b frame)
unfolding locate_in
locate_in-Within py h p l b frame = Within-option (length frame) (text_of h) _ (λ digits.
    Within-option (length frame) (natural_of p) _ (λ position.
      Within-option (length frame) (natural_of l)
        (λ len. confirm py digits position len (truthy b) frame)
        (λ len. confirm-Within py digits position len (truthy b) frame)))

pub locate-Within :
    (py : PythonTexts) (raw : Json) (frame : Bytes) → Within (length frame) (locate py raw frame)
unfolding locate
locate-Within py null frame = tt
locate-Within py (boolean b) frame = tt
locate-Within py (whole n) frame = tt
locate-Within py (negative n) frame = tt
locate-Within py (float z) frame = tt
locate-Within py (string s) frame = tt
locate-Within py (object ms) frame = tt
locate-Within py (array no_items) frame = tt
locate-Within py (array (item h no_items)) frame = tt
locate-Within py (array (item h (item p no_items))) frame = tt
locate-Within py (array (item h (item p (item l no_items)))) frame = tt
locate-Within py (array (item h (item p (item l (item b rest))))) frame =
    locate_in-Within py h p l b frame

-- The fields of what tshark reported for a frame, if it reported it.
abbrev pub reported_fields : Option Json → List Found
reported_fields none = []
reported_fields (some packet) = packet_fields packet

-- An index that lies in no located field.
abbrev pub MissesLocated : PythonTexts → Bytes → ℕ → Found → Type 0
MissesLocated py frame i f = (place : ℕ × ℕ) → locate py f.2 frame ≡ some place → Misses i place

pub All-kept :
    {A : Type 0} (K : ℕ → Type 0) (P : ℕ → A → Type 0) (xs : List A)
    → ((i : ℕ) → K i → All (P i) xs)
    → All (λ a. (i : ℕ) → K i → P i a) xs
All-kept K P [] h = tt
All-kept K P (x ∷ xs) h = ((λ i k. (h i k).0), All-kept K P xs (λ i k. (h i k).1))

module _ (p : Primitives) (py : PythonTexts) (c : MapperConfig) (o : SanitizeOptions) (lt : ℕ)
    (frame : Bytes) (Kept : ℕ → Type 0) where
  noted-IsEdited :
      (b : Bool) (e : Editing) (s : _)
      → IsEdited p py c o lt frame Kept e
      → IsEdited p py c o lt frame Kept
          (record e { rewriter = if b then record e.rewriter { summary = s } else e.rewriter })
  noted-IsEdited true e s h = record {
    same_length = h.same_length;
    same_kept = h.same_kept;
    rewriter = record {
      same_options = h.rewriter.same_options;
      same_linktype = h.rewriter.same_linktype;
      coherent = h.rewriter.coherent;
    };
  }
  noted-IsEdited false e s h = h

  pub apply_reported-IsEdited :
      (packet : Option Json) (transport : Option (TransportName × ℕ × ℕ)) (e : Editing)
      → IsEdited p py c o lt frame Kept e
      → All (FieldWritable p py c o lt frame Kept) (reported_fields packet)
      → Holds (IsEdited p py c o lt frame Kept) (apply_reported p py packet frame transport e)
  unfolding apply_reported apply_packet
  apply_reported-IsEdited none transport e h m = h
  apply_reported-IsEdited (some packet) transport e h m =
      let layers = packet_layers packet in
      let data_there =
        has_data (get (members_of (get layers (codes "frame"))) (codes "frame.protocols")) in
      let s = note_undissected transport (length frame) e.rewriter.summary in
      let noted = if data_there then record e.rewriter { summary = s } else e.rewriter in
      let fields = packet_fields packet in
      Holds-if (IsEdited p py c o lt frame Kept)
        (not (agrees_with py (get layers (codes "frame_raw")) frame)) (raised disagree)
        (ok (apply_fields p py fields fields frame (record e { rewriter = noted }))) (λ _. tt)
        (λ _.
          apply_fields-IsEdited p py c o lt frame Kept fields fields (record e { rewriter = noted })
            (noted-IsEdited data_there e s h) m)
