-- ===== src/Sanitizer/Stream/Printed.antt =====
-- A sanitized copy that is yielded to its end, as the bytes of a capture.
use mathlib.Core.List.{append_assoc, append-nil}
use pcap_server.Prelude.{
  ℕ, suc, ◌≡◌, refl, sym, ap, ◌∙◌, Bool, true, false, List, [], ◌∷◌, ◌++◌, Option, Bytes, leb,
  length, if◌then◌else◌, join,
}
use pcap_server.Anonymize.{Primitives}
use pcap_server.Anonymize.Mapper.{MapperConfig}
use pcap_server.Framewalk.{done, Layout}
use pcap_server.Framewalk.Walk.{walk}
use pcap_server.Sanitizer.{Attempt, ok, raised, Endian, output_chunk_bytes, Holds, Holds-bind}
use pcap_server.Sanitizer.Texts.{PythonTexts}
use pcap_server.Sanitizer.Fields.{Json}
use pcap_server.Sanitizer.Rules.{SanitizeOptions}
use pcap_server.Sanitizer.Reader.{Ending, clean, failed}
use pcap_server.Sanitizer.Reader.Print.{print_all}
use pcap_server.Sanitizer.Tshark.{TsharkPass}
use pcap_server.Sanitizer.Rewriter.{FrameRewriter, rewrite}
use pcap_server.Sanitizer.Rewriter.Edits.{IsRewriter}
use pcap_server.Sanitizer.Rewriter.Kept.{final_length, length-rewrite, rewrite-Walked}
use pcap_server.Sanitizer.Stream.{
  Yields, packet_of, finish_of, patched, yield_out, yield_if, end_stream, Rewritten, rewrite_record,
  stream_records,
}

-- A frame and what it became: the walker lays the frame out, and the length is the layout's.
abbrev pub Becomes : SanitizeOptions → ℕ → Bytes → Bytes → Type 0
Becomes o linktype frame new =
    (l : Layout) × (walk frame linktype ≡ done l) × (length new ≡ final_length o l frame)

-- Records and what they became, one for one.
abbrev pub AllBecome :
    SanitizeOptions → ℕ → Endian → List (Bytes × Bytes) → List (Bytes × Bytes) → Type 0
AllBecome o linktype endian [] [] = Unit
AllBecome o linktype endian [] (new ∷ news) = ⊥
AllBecome o linktype endian (old ∷ olds) [] = ⊥
AllBecome o linktype endian (old ∷ olds) (new ∷ news) =
    (new.0 ≡ patched endian old.0 new.1)
    × Becomes o linktype old.1 new.1
    × AllBecome o linktype endian olds news

join-yield_out : (out : Bytes) → join (yield_out out) ≡ out
unfolding yield_out join
join-yield_out [] = refl
join-yield_out (b ∷ bs) = append-nil (b ∷ bs)

-- A yield moves bytes from the buffer to the chunks.
join-yield_if :
    (full : Bool) (more : Bytes) (rest : Yields) (tail : Bytes)
    → join rest.0 ≡ (if full then [] else more) ++ tail
    → join (yield_if full more rest).0 ≡ more ++ tail
unfolding yield_if join
join-yield_if true more rest tail h = ap (λ xs. more ++ xs) h
join-yield_if false more rest tail h = h

yield_if-clean : (full : Bool) (more : Bytes) (rest : Yields) → (yield_if full more rest).1 ≡ rest.1
unfolding yield_if
yield_if-clean true more rest = refl
yield_if-clean false more rest = refl

Holds-from : {A : Type 0} (P : A → Type 0) (x : Attempt A) → ((a : A) → x ≡ ok a → P a) → Holds P x
Holds-from P (ok a) h = h a refl
Holds-from P (raised e) h = tt

module _ (p : Primitives) (py : PythonTexts) (c : MapperConfig) (o : SanitizeOptions) (lt : ℕ) where
  abbrev IsStep : Bytes → Rewritten → Type 0
  IsStep frame a = Becomes o lt frame a.0 × IsRewriter p c o lt a.1

  rewrite_record-IsStep :
      (index : ℕ) (frame : Bytes) (w : FrameRewriter) (t : Option (TsharkPass Json))
      → IsRewriter p c o lt w
      → Holds (IsStep frame) (rewrite_record p py index frame w t)
  unfolding rewrite_record
  rewrite_record-IsStep index frame w t h =
      Holds-bind (λ asked. Unit {0}) (IsStep frame) (packet_of index t) _
        (Holds-from (λ asked. Unit {0}) (packet_of index t) (λ asked e. tt))
        (λ asked _.
          Holds-bind (λ a. Becomes o lt frame a.0 × IsRewriter p c o lt a.1) (IsStep frame)
            (rewrite p py w frame asked.0) _
            (Holds-from (λ a. Becomes o lt frame a.0 × IsRewriter p c o lt a.1)
              (rewrite p py w frame asked.0)
              (λ a e.
                let (l, walked) = rewrite-Walked p py frame w asked.0 a e in
                let (size, kept) = length-rewrite p py c o lt w frame asked.0 l a h walked e in
                ((l, ap (walk frame) (sym h.same_linktype) ∙ walked, size), kept)))
            (λ a (becomes, kept). (
              becomes,
              record {
                same_options = kept.same_options;
                same_linktype = kept.same_linktype;
                coherent = kept.coherent;
              },
            )))

  -- A stream that ends cleanly yielded the buffer and the records that became of the given ones.
  abbrev pub IsPrinted : Endian → List (Bytes × Bytes) → Bytes → Yields → Type 0
  IsPrinted endian rs out y =
      y.1 ≡ clean
      → (news : List (Bytes × Bytes)) × (join y.0 ≡ out ++ print_all news)
        × AllBecome o lt endian rs news

  end_stream-IsPrinted :
      (endian : Endian) (ending : Ending) (t : Option (TsharkPass Json)) (out : Bytes)
      → IsPrinted endian [] out (end_stream ending t out)
  unfolding end_stream
  end_stream-IsPrinted endian (failed e) t out h = cc h
  end_stream-IsPrinted endian clean t out h = ended (finish_of t) h
    where
      ended :
          (x : Attempt (Unit {0}))
          → IsPrinted endian [] out
              (elim x [ raised e ↦ ([], failed e) | ok over ↦ (yield_out out, clean) ])
      ended (raised e) g = cc g
      ended (ok over) g = ([], join-yield_out out ∙ sym (append-nil out), tt)

  after_record :
      (endian : Endian) (header frame out : Bytes) (rest : List (Bytes × Bytes))
      (x : Attempt Rewritten) (later : Bytes → FrameRewriter → Option (TsharkPass Json) → Yields)
      → Holds (IsStep frame) x
      → ((out' : Bytes) (w' : FrameRewriter) (t' : Option (TsharkPass Json))
          → IsRewriter p c o lt w'
          → IsPrinted endian rest out' (later out' w' t'))
      → IsPrinted endian ((header, frame) ∷ rest) out (elim x [
        | raised e ↦ ([], failed e)
        | ok (rewritten, w', t') ↦
            let more = out ++ patched endian header rewritten ++ rewritten in
            let full = leb output_chunk_bytes (length more) in
            yield_if full more (later (if full then [] else more) w' t')
      ])
  after_record endian header frame out rest (raised e) later h ih y = cc y
  after_record endian header frame out rest (ok (rewritten, w', t')) later (becomes, kept) ih y =
      let new_header = patched endian header rewritten in
      let more = out ++ new_header ++ rewritten in
      let full = leb output_chunk_bytes (length more) in
      let left = if full then [] else more in
      let ended = sym (yield_if-clean full more (later left w' t')) ∙ y in
      let (news, printed, all) = ih left w' t' kept ended in
      (
        (new_header, rewritten) ∷ news,
        join-yield_if full more (later left w' t') (print_all news) printed
            ∙ append_assoc (out ++ new_header) rewritten (print_all news)
            ∙ append_assoc out new_header (rewritten ++ print_all news),
        (refl, becomes, all),
      )

  pub stream_records-IsPrinted :
      (endian : Endian) (ending : Ending) (rs : List (Bytes × Bytes)) (index : ℕ) (out : Bytes)
      (w : FrameRewriter) (t : Option (TsharkPass Json))
      → IsRewriter p c o lt w
      → IsPrinted endian rs out (stream_records p py endian ending rs index out w t)
  unfolding stream_records
  stream_records-IsPrinted endian ending [] index out w t h =
      end_stream-IsPrinted endian ending t out
  stream_records-IsPrinted endian ending ((header, frame) ∷ rest) index out w t h =
      after_record endian header frame out rest (rewrite_record p py (suc index) frame w t)
        (λ out' w' t'. stream_records p py endian ending rest (suc index) out' w' t')
        (rewrite_record-IsStep (suc index) frame w t h)
        (λ out' w' t' h'. stream_records-IsPrinted endian ending rest (suc index) out' w' t' h')
