-- ===== src/Sanitizer/Rewriter/Reported.antt =====
-- The fields of a frame that tshark reports: their places, apart from the code that looks for them.
use pcap_server.Prelude.{
  ℕ, ◌+◌, ◌≡◌, ◌≤◌, refl, sym, ap, ◌∙◌, subst, Bool, true, false, not, ◌||◌, Option, none, some,
  Bytes, ltb, length, slice, arith, ◌==◌, if◌then◌else◌, Text, bytes_eq, bytes_eq→eq,
}
use pcap_server.Sanitizer.Texts.{PythonTexts, hex}
use pcap_server.Sanitizer.Fields.{
  Json, Items, null, boolean, whole, negative, float, string, array, object, no_items, item, Found,
  locate, locate_in, confirm, text_of, natural_of, truthy,
}
use pcap_server.Sanitizer.Rewriter.Writes.{Misses}

-- A raw form is the digits, the place, the size and the bit mask of a field, and perhaps more. It
-- reports a place of the frame where there is no bit mask, the frame has the place, and its bytes
-- there are those of the digits.
pub record Reported (py : PythonTexts) (raw : Json) (frame : Bytes) (place : ℕ × ℕ) : Type 0 where
  pub shown : Json
  pub position : Json
  pub size : Json
  pub mask : Json
  pub more : Items
  pub digits : Text
  pub form : raw ≡ array (item shown (item position (item size (item mask more))))
  pub as_digits : text_of shown ≡ some digits
  pub as_position : natural_of position ≡ some place.0
  pub as_size : natural_of size ≡ some place.1
  pub unmasked : truthy mask ≡ false
  pub captured : place.0 + place.1 ≤ length frame
  pub same_bytes : hex (slice frame place.0 (place.0 + place.1)) ≡ py.lower digits

-- An index that lies in no place that a field reports.
abbrev pub MissesField : PythonTexts → Bytes → ℕ → Found → Type 0
MissesField py frame i f = (place : ℕ × ℕ) → Reported py f.2 frame place → Misses i place

module _ (P : ℕ × ℕ → Type 0) where
  abbrev Gives : Option (ℕ × ℕ) → Type 0
  Gives none = Unit
  Gives (some place) = P place

  Gives-if : (b : Bool) (x : Option (ℕ × ℕ)) → (b ≡ false → Gives x) → Gives (if b then none else x)
  Gives-if true x h = tt
  Gives-if false x h = h refl

  Gives-option :
      {A : Type 0} (a : Option A) (f : A → Option (ℕ × ℕ))
      → ((v : A) → a ≡ some v → Gives (f v))
      → Gives (elim a [ none ↦ none | some v ↦ f v ])
  Gives-option none f h = tt
  Gives-option (some v) f h = h v refl

or_none : (a b c : Bool) → a || b || c ≡ false → (a ≡ false) × (c ≡ false)
or_none true b c h = cc h
or_none false true c h = cc h
or_none false false c h = (refl, h)

differ_none : (b : Bool) → not b ≡ false → b ≡ true
differ_none true h = refl
differ_none false h = cc h

module _ (py : PythonTexts) (frame : Bytes) where
  Gives-locate_in :
      (h p l b : Json) (more : Items)
      → Gives
          (Reported py (array (item h (item p (item l (item b more))))) frame)
          (locate_in py h p l b frame)
  unfolding locate_in confirm
  Gives-locate_in h p l b more =
      let P = Reported py (array (item h (item p (item l (item b more))))) frame in
      Gives-option P (text_of h) _ (λ digits hd. Gives-option P (natural_of p) _ (λ position hp.
        Gives-option P (natural_of l) _ (λ size hl.
          Gives-if P (truthy b || size == 0 || ltb (length frame) (position + size)) _ (λ inside.
            let both =
              or_none (truthy b) (size == 0) (ltb (length frame) (position + size)) inside in
            Gives-if P
              (not (bytes_eq (hex (slice frame position (position + size))) (py.lower digits)))
              (some (position, size))
              (λ same. record {
                shown = h;
                position = p;
                size = l;
                mask = b;
                more = more;
                digits = digits;
                form = refl;
                as_digits = hd;
                as_position = hp;
                as_size = hl;
                unmasked = both.0;
                captured = ground (arith, both.1);
                same_bytes = bytes_eq→eq _ _ (differ_none _ same);
              })))))

  Gives-locate : (raw : Json) → Gives (Reported py raw frame) (locate py raw frame)
  unfolding locate
  Gives-locate null = tt
  Gives-locate (boolean b) = tt
  Gives-locate (whole n) = tt
  Gives-locate (negative n) = tt
  Gives-locate (float z) = tt
  Gives-locate (string s) = tt
  Gives-locate (object ms) = tt
  Gives-locate (array no_items) = tt
  Gives-locate (array (item h no_items)) = tt
  Gives-locate (array (item h (item p no_items))) = tt
  Gives-locate (array (item h (item p (item l no_items)))) = tt
  Gives-locate (array (item h (item p (item l (item b more))))) = Gives-locate_in h p l b more

  -- What the code locates is reported.
  pub locate-Reported :
      (raw : Json) (place : ℕ × ℕ) → locate py raw frame ≡ some place → Reported py raw frame place
  locate-Reported raw place e = subst (Gives (Reported py raw frame)) e (Gives-locate raw)

  -- The raw form of digits at a place reports no other place.
  pub Reported-place :
      (d : Text) (p n : ℕ) (b : Json) (more : Items) (place : ℕ × ℕ)
      → Reported py
          (array (item (string d) (item (whole p) (item (whole n) (item b more)))))
          frame
          place
      → (p ≡ place.0) × (n ≡ place.1) × (hex (slice frame place.0 (place.0 + place.1)) ≡ py.lower d)
  Reported-place d p n b more place r =
      let f = r.form in
      let fd : string d ≡ r.shown = cc f in
      let fp : whole p ≡ r.position = cc f in
      let fn : whole n ≡ r.size = cc f in
      let at : some p ≡ some place.0 = ap natural_of fp ∙ r.as_position in
      let long : some n ≡ some place.1 = ap natural_of fn ∙ r.as_size in
      let digits : some d ≡ some r.digits = ap text_of fd ∙ r.as_digits in
      let same : d ≡ r.digits = cc digits in (cc at, cc long, r.same_bytes ∙ ap py.lower (sym same))
