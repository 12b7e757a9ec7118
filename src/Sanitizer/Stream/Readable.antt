-- ===== src/Sanitizer/Stream/Readable.antt =====
-- A sanitized copy that is yielded to its end is a capture with the same header.
use mathlib.Core.List.{append_assoc}
use pcap_server.Prelude.{
  ℕ, suc, ◌*◌, ◌≡◌, ◌≤◌, refl, sym, ap, subst, ◌∙◌, Bool, true, false, List, [], ◌∷◌, ◌++◌, Option,
  Bytes, ltb, length, take, drop, slice, if◌then◌else◌, join, arith, length-append, length-take,
  length-drop, All, take-append, drop-append,
}
use pcap_server.Anonymize.{Primitives}
use pcap_server.Anonymize.Mapper.{MapperConfig}
use pcap_server.Framewalk.{Layout}
use pcap_server.Framewalk.Invariant.{IsLayout}
use pcap_server.Framewalk.Checksum.Walked.{IsLayout-walk}
use pcap_server.Sanitizer.{
  too_short, Attempt, ok, raised, Endian, from_bytes, to_bytes_4, global_header_len,
  max_record_bytes, Holds, Holds-bind, Holds-if, Holds-ok,
}
use pcap_server.Sanitizer.Texts.{PythonTexts}
use pcap_server.Sanitizer.Fields.{Json}
use pcap_server.Sanitizer.Rules.{SanitizeOptions}
use pcap_server.Sanitizer.Reader.{clean, failed, Records, judge_header, linktype_of, read_capture}
use pcap_server.Sanitizer.Reader.Parse.{
  parse_records, parse_capture, read_capture-parse_capture, IsRead, parse_records-IsRead,
}
use pcap_server.Sanitizer.Reader.Print.{
  print_all, IsRecord, length-to_bytes_4, from_bytes-to_bytes_4, parse_records-print_all,
}
use pcap_server.Sanitizer.Tshark.{TsharkPass}
use pcap_server.Sanitizer.Rewriter.{FrameRewriter}
use pcap_server.Sanitizer.Rewriter.Edits.{IsRewriter}
use pcap_server.Sanitizer.Rewriter.Kept.{final_length}
use pcap_server.Sanitizer.Stream.{
  Yields, patched, stream_records, stream_opened, stream_sanitized_pcap,
}
use pcap_server.Sanitizer.Stream.Printed.{Becomes, AllBecome, IsPrinted, stream_records-IsPrinted}

Holds-from : {A : Type 0} (P : A → Type 0) (x : Attempt A) → ((a : A) → x ≡ ok a → P a) → Holds P x
Holds-from P (ok a) h = h a refl
Holds-from P (raised e) h = tt

-- What is known of a capture that was parsed.
record IsOpened (a : Bytes × Endian × Records) : Type 0 where
  pub size : length a.0 ≡ 24
  pub linktype : ℕ
  pub judged : judge_header a.0 ≡ ok (a.1, linktype)
  pub read : All IsRead a.2.0

parse_capture-IsOpened : (xs : Bytes) → Holds IsOpened (parse_capture xs)
unfolding parse_capture
parse_capture-IsOpened xs =
    let header = take global_header_len xs in
    Holds-if IsOpened (ltb (length xs) global_header_len) (raised too_short) _ (λ _. tt)
      (λ there.
        Holds-bind (λ kind. judge_header header ≡ ok kind) IsOpened (judge_header header) _
          (Holds-from (λ kind. judge_header header ≡ ok kind) (judge_header header) (λ kind e. e))
          (λ kind e. record {
            size = ground (arith, there, length-take global_header_len xs);
            linktype = kind.1;
            judged = e;
            read = parse_records-IsRead (suc (length xs)) kind.0 (drop global_header_len xs);
          }))

final_length-le :
    (o : SanitizeOptions) (l : Layout) (frame : Bytes)
    → IsLayout (length frame) l
    → final_length o l frame ≤ length frame
final_length-le o l frame h = within o.strip_payload
  where
    within : (b : Bool) → (if b then l.payload_start else length frame) ≤ length frame
    within true = h.payload_within
    within false = omega arith

patched-IsRecord :
    (o : SanitizeOptions) (lt : ℕ) (endian : Endian) (old new : Bytes × Bytes)
    → IsRead old
    → new.0 ≡ patched endian old.0 new.1
    → Becomes o lt old.1 new.1
    → IsRecord endian new
unfolding patched max_record_bytes
patched-IsRecord o lt endian old new (whole, small) e (l, walked, size) =
    let four = to_bytes_4 endian (length new.1) in
    let len : length four ≡ 4 = length-to_bytes_4 endian (length new.1) in
    let short = final_length-le o l old.1 (IsLayout-walk old.1 lt l walked) in
    let fits : length new.1 ≤ 1024 * 1024 = omega (arith, small, size, short) in
    let front : length (take 8 old.0) ≡ 8 = omega (arith, whole, length-take 8 old.0) in
    let parts = take 8 old.0 ++ four in
    let after : length parts ≡ 12 = omega (arith, front, len, length-append (take 8 old.0) four) in
    let claimed : slice (parts ++ drop 12 old.0) 8 12 ≡ four =
      ap (λ xs. take 4 (drop 8 xs)) (append_assoc (take 8 old.0) four (drop 12 old.0))
      ∙ ap (take 4) (drop-append 8 (take 8 old.0) (four ++ drop 12 old.0) front)
      ∙ take-append 4 four (drop 12 old.0) len in
    (
      ap length e
          ∙ omega (arith, after, whole, length-append parts (drop 12 old.0), length-drop 12 old.0),
      ap (λ h. from_bytes endian (slice h 8 12)) e
          ∙ ap (from_bytes endian) claimed
          ∙ from_bytes-to_bytes_4 endian (length new.1) (omega (arith, fits)),
      fits,
    )

All-IsRecord :
    (o : SanitizeOptions) (lt : ℕ) (endian : Endian) (olds news : List (Bytes × Bytes))
    → All IsRead olds
    → AllBecome o lt endian olds news
    → All (IsRecord endian) news
All-IsRecord o lt endian [] [] h b = tt
All-IsRecord o lt endian [] (new ∷ news) h b = absurd b
All-IsRecord o lt endian (old ∷ olds) [] h b = absurd b
All-IsRecord o lt endian (old ∷ olds) (new ∷ news) h b =
    (patched-IsRecord o lt endian old new h.0 b.0 b.1, All-IsRecord o lt endian olds news h.1 b.2)

-- A header and records, parsed.
parse_capture-print_all :
    (endian : Endian) (lt : ℕ) (header : Bytes) (news : List (Bytes × Bytes))
    → length header ≡ 24
    → judge_header header ≡ ok (endian, lt)
    → All (IsRecord endian) news
    → parse_capture (header ++ print_all news) ≡ ok (header, endian, (news, clean))
unfolding parse_capture
parse_capture-print_all endian lt header news size judged h =
    let xs = header ++ print_all news in
    let whole = length-append header (print_all news) in
    let long : ltb (length xs) 24 ≡ false = ground (arith, size, whole) in
    let parsed : parse_records (suc (length xs)) endian (print_all news) ≡ (news, clean) =
      parse_records-print_all (suc (length xs)) endian news h (omega (arith, whole)) in
    rw
      (
        long,
        take-append 24 header (print_all news) size,
        drop-append 24 header (print_all news) size,
        judged,
        parsed,
      )
      refl

abbrev after_open :
    Primitives
    → PythonTexts
    → FrameRewriter
    → Option (TsharkPass Json)
    → Attempt (Bytes × Endian × Records)
    → Yields
after_open p py w t x = elim x [
  | raised e ↦ ([], failed e)
  | ok opened ↦ stream_opened p py w t opened
]

-- If a sanitized copy of a capture that reads to its end is yielded to its end, with or without
-- the help of tshark, then what was yielded is a capture that reads to its end too, however the
-- chunks fall: it has the same global header, and for each record of the original one record, whose
-- header is the original one but for the captured length, and whose frame has the length of the
-- original frame, or of its headers where payloads are stripped.
pub stream_sanitized_pcap-readable :
    (p : Primitives) (py : PythonTexts) (c : MapperConfig) (o : SanitizeOptions) (w : FrameRewriter)
    (t : Option (TsharkPass Json)) (chunks ys : List Bytes) (header : Bytes) (endian : Endian)
    (rs : List (Bytes × Bytes))
    → IsRewriter p c o w.linktype w
    → read_capture chunks ≡ ok (header, endian, (rs, clean))
    → stream_sanitized_pcap p py w t chunks ≡ (ys, clean)
    → (news : List (Bytes × Bytes)) × (read_capture ys ≡ ok (header, endian, (news, clean)))
      × AllBecome o (linktype_of endian header) endian rs news
unfolding stream_sanitized_pcap stream_opened
stream_sanitized_pcap-readable p py c o w t chunks ys header endian rs h opened yielded =
    let lt = linktype_of endian header in
    let w' : FrameRewriter = record w { linktype = lt } in
    let known =
      Holds-ok IsOpened (parse_capture (join chunks)) (header, endian, (rs, clean))
        (parse_capture-IsOpened (join chunks)) (sym (read_capture-parse_capture chunks) ∙ opened) in
    let streamed : stream_records p py endian clean rs 0 header w' t ≡ (ys, clean) =
      subst (λ x. after_open p py w t x ≡ (ys, clean)) opened yielded in
    let (news, printed, all) =
      subst (IsPrinted p py c o lt endian rs header) streamed
        (stream_records-IsPrinted p py c o lt endian clean rs 0 header w' t
          (record { same_options = h.same_options; same_linktype = refl; coherent = h.coherent }))
        refl in
    (
      news,
      read_capture-parse_capture ys
          ∙ ap parse_capture printed
          ∙ parse_capture-print_all endian known.linktype header news known.size known.judged
              (All-IsRecord o lt endian rs news known.read all),
      all,
    )
