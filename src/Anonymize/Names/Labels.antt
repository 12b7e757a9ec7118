-- ===== src/Anonymize/Names/Labels.antt =====
-- Labels and hostnames: the cache, letter case, and what is kept.
use pcap_server.Prelude.{
  ℕ, suc, ◌≡◌, refl, sym, ap, ap₂, subst, ◌∙◌, false, List, [], ◌∷◌, Option, none, some, Bytes, ltb,
  length, if◌then◌else◌, arith, lookup, store, lookup-store_same, lookup-store_other, map,
  Bool-cases, inl, inr, bytes_eq, bytes_eq→eq,
}
use pcap_server.Anonymize.{Primitives}
use pcap_server.Anonymize.Mapper.{cache_limit}
use pcap_server.Anonymize.Names.{
  apply_byte, apply, lower_ascii, lower_latin1, structural_labels, member_text, label_kind,
  Pseudonyms, stream, text, cached_label, label,
}
use pcap_server.Anonymize.Names.Shape.{length-stream, SameShape-text}

length-map : (f : ℕ → ℕ) (xs : List ℕ) → length (map f xs) ≡ length xs
length-map f [] = refl
length-map f (x ∷ xs) = ap suc (length-map f xs)

-- Where two code points are equal in small letters, their bytes have one stand-in: beyond ASCII the
-- byte itself makes no difference.
apply_byte_same :
    (a b pick : ℕ)
    → lower_latin1 a ≡ lower_latin1 b
    → apply_byte (lower_ascii a) pick ≡ apply_byte (lower_ascii b) pick
unfolding apply_byte
apply_byte_same a b pick h = ground (arith, h)

apply_same :
    (xs ys picks : Bytes)
    → map lower_latin1 xs ≡ map lower_latin1 ys
    → length picks ≡ length xs
    → apply (map lower_ascii xs) picks ≡ apply (map lower_ascii ys) picks
unfolding apply
apply_same [] [] picks h k = refl
apply_same [] (b ∷ ys) picks h k = cc h
apply_same (a ∷ xs) [] picks h k = cc h
apply_same (a ∷ xs) (b ∷ ys) [] h k = absurd (omega arith)
apply_same (a ∷ xs) (b ∷ ys) (p ∷ ps) h k =
    ap₂ ◌∷◌ (apply_byte_same a b p (cc h)) (apply_same xs ys ps (cc h) (omega arith))

module _ (p : Primitives) where
  -- The stand-in of a label without a cache.
  unfoldable pub plain_label : Bytes → Bytes → Bytes
  plain_label key raw =
      if member_text (map lower_latin1 raw) structural_labels
      then raw
      else text p key label_kind (map lower_latin1 raw) (map lower_ascii raw)

  -- Each entry of the cache is the stand-in of every label that is asked for by it.
  pub record IsLabelled (s : Pseudonyms) : Type 0 where
    pub entries :
        (raw v : Bytes)
        → lookup s.labels (map lower_latin1 raw) ≡ some v
        → v ≡ text p s.hash_key label_kind (map lower_latin1 raw) (map lower_ascii raw)

  text_same :
      (key a b : Bytes)
      → map lower_latin1 a ≡ map lower_latin1 b
      → text p key label_kind (map lower_latin1 a) (map lower_ascii a)
        ≡ text p key label_kind (map lower_latin1 b) (map lower_ascii b)
  unfolding text
  text_same key a b h =
      let size : length (map lower_ascii a) ≡ length (map lower_ascii b) =
        length-map lower_ascii a
        ∙ sym (length-map lower_latin1 a)
        ∙ ap length h
        ∙ length-map lower_latin1 b
        ∙ sym (length-map lower_ascii b) in
      let picks = stream p key label_kind (map lower_latin1 a) (length (map lower_ascii a)) in
      let enough =
        length-stream p key label_kind (map lower_latin1 a) (length (map lower_ascii a)) in
      apply_same a b picks h (enough ∙ length-map lower_ascii a)
      ∙ ap₂ (λ v n. apply (map lower_ascii b) (stream p key label_kind v n)) h size

  plain_label_same :
      (key a b : Bytes)
      → map lower_latin1 a ≡ map lower_latin1 b
      → member_text (map lower_latin1 a) structural_labels ≡ false
      → plain_label key a ≡ plain_label key b
  unfolding plain_label
  plain_label_same key a b h named =
      let named' : member_text (map lower_latin1 b) structural_labels ≡ false =
        subst (λ t. member_text t structural_labels ≡ false) h named in
      ground (arith, named, named', text_same key a b h)

  pub length-plain_label : (key raw : Bytes) → length (plain_label key raw) ≡ length raw
  unfolding plain_label
  length-plain_label key raw =
      let size = (SameShape-text p key label_kind (map lower_latin1 raw) (map lower_ascii raw)).0 in
      let same = length-map lower_ascii raw in ground (arith, size, same)

  IsLabelled-stored :
      (s : Pseudonyms) (raw : Bytes)
      → IsLabelled s
      → IsLabelled (record s {
        labels =
            store s.labels
              (map lower_latin1 raw)
              (text p s.hash_key label_kind (map lower_latin1 raw) (map lower_ascii raw));
      })
  IsLabelled-stored s raw h = record {
    entries = λ other v found.
        let made = text p s.hash_key label_kind (map lower_latin1 raw) (map lower_ascii raw) in
        elim (Bool-cases (bytes_eq (map lower_latin1 other) (map lower_latin1 raw))) [
          | inl same ↦
              let e = bytes_eq→eq (map lower_latin1 other) (map lower_latin1 raw) same in
              let stored : lookup (store s.labels (map lower_latin1 raw) made)
                    (map lower_latin1 other)
                  ≡ some made =
                subst (λ k. lookup (store s.labels (map lower_latin1 raw) made) k ≡ some made)
                  (sym e) (lookup-store_same s.labels (map lower_latin1 raw) made) in
              let value : v ≡ made = cc (found, stored) in
              value ∙ text_same s.hash_key raw other (sym e)
          | inr apart ↦ h.entries other v (
              sym (
                lookup-store_other s.labels (map lower_latin1 raw) (map lower_latin1 other) made
                  apart)
              ∙ found)
        ];
  }

  -- An answer that is right and leaves the key and a cache of stand-ins.
  abbrev pub Labels : Pseudonyms → Bytes → Bytes × Pseudonyms → Type 0
  Labels s v r = (r.0 ≡ v) × IsLabelled r.1 × (r.1.hash_key ≡ s.hash_key)

  cached_label-Labels :
      (s : Pseudonyms) (raw : Bytes) (o : Option Bytes)
      → IsLabelled s
      → lookup s.labels (map lower_latin1 raw) ≡ o
      → Labels s
          (text p s.hash_key label_kind (map lower_latin1 raw) (map lower_ascii raw))
          (cached_label p s raw (map lower_latin1 raw) o)
  unfolding cached_label
  cached_label-Labels s raw (some v) h e = (h.entries raw v e, h, refl)
  cached_label-Labels s raw none h e = elim (Bool-cases (ltb (length s.labels) cache_limit)) [
    | inl room ↦ rw room (refl, IsLabelled-stored s raw h, refl)
    | inr full ↦ rw full (refl, h, refl)
  ]

  -- Whatever labels were asked for before, and however full the cache is, a label gets the stand-in
  -- that it has without a cache, and the cache goes on holding stand-ins.
  pub label-Labels :
      (s : Pseudonyms) (raw : Bytes)
      → IsLabelled s
      → Labels s (plain_label s.hash_key raw) (label p s raw)
  unfolding label plain_label
  label-Labels s raw h = elim (Bool-cases (member_text (map lower_latin1 raw) structural_labels)) [
    | inl kept ↦ rw kept (refl, h, refl)
    | inr named ↦
        rw named (cached_label-Labels s raw (lookup s.labels (map lower_latin1 raw)) h refl)
  ]

  -- Labels that differ in the case of their letters alone have one stand-in, whatever labels were
  -- asked for before each of them, unless they are the structural ones, which are kept.
  pub label_same :
      (s t : Pseudonyms) (a b : Bytes)
      → IsLabelled s
      → IsLabelled t
      → s.hash_key ≡ t.hash_key
      → map lower_latin1 a ≡ map lower_latin1 b
      → member_text (map lower_latin1 a) structural_labels ≡ false
      → (label p s a).0 ≡ (label p t b).0
  label_same s t a b hs ht key h named =
      (label-Labels s a hs).0
      ∙ plain_label_same s.hash_key a b h named
      ∙ ap (λ k. plain_label k b) key
      ∙ sym (label-Labels t b ht).0

  pub IsLabelled-fresh : (key : Bytes) → IsLabelled (record { hash_key = key; labels = [] })
  IsLabelled-fresh key = record { entries = λ raw v h. cc h }
