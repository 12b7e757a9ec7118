-- ===== src/Sanitizer/Reader/Whole.antt =====
-- A capture read in chunks, and the same capture parsed as a whole.
use pcap_server.Prelude.{
  ℕ, ◌≡◌, refl, ap, subst, ◌∙◌, Bool, true, false, not, Bytes, ltb, length, take, drop, slice,
  if◌then◌else◌, join, arith, length-append, length-drop,
}
use pcap_server.Sanitizer.{
  SanitizeError, mid_header, mid_record, not_a_record, Endian, from_bytes, record_header_len,
  max_record_bytes,
}
use pcap_server.Sanitizer.Reader.{
  PcapReader, fill, take_bytes, Next, ends, fails, reads, next_record,
}
use pcap_server.Sanitizer.Reader.Chunking.{
  rest_of, IsReader, IsFilled, fill-IsFilled, take_bytes-IsTaken,
}

-- A round of `records` on the bytes of the capture that are left.
unfoldable pub parse_next : Endian → Bytes → Next Bytes
parse_next endian xs =
    let header = take record_header_len xs in
    let incl_len = from_bytes endian (slice header 8 12) in
    let later = drop record_header_len xs in
    if ltb (length xs) record_header_len
    then (if ltb 0 (length xs) then fails mid_header else ends)
    else if ltb max_record_bytes incl_len
    then fails (not_a_record incl_len)
    else if ltb (length later) incl_len
    then fails mid_record
    else reads header (take incl_len later) (drop incl_len later)

-- The reader that is left stands for the bytes that are left.
pub data Agrees (endian : Endian) : Next PcapReader → Next Bytes → Type 0 where
  both_end : Agrees endian ends ends
  both_fail : {e : SanitizeError} → Agrees endian (fails e) (fails e)
  both_read :
      {header frame : Bytes} {r : PcapReader} {xs : Bytes}
      → IsReader r
      → r.endian ≡ endian
      → rest_of r ≡ xs
      → Agrees endian (reads header frame r) (reads header frame xs)

Agrees-if :
    (endian : Endian) (b c : Bool) {x y : Next PcapReader} {x' y' : Next Bytes}
    → b ≡ c
    → (b ≡ true → Agrees endian x x')
    → (b ≡ false → Agrees endian y y')
    → Agrees endian (if b then x else y) (if c then x' else y')
Agrees-if endian true true e hx hy = hx refl
Agrees-if endian false false e hx hy = hy refl
Agrees-if endian true false e hx hy = cc e
Agrees-if endian false true e hx hy = cc e

-- Whether `_fill` fails, told from the bytes that are left.
pub not_filled :
    (need : ℕ) (r : PcapReader) (a : Bool × PcapReader)
    → IsFilled need r a
    → not a.0 ≡ ltb (length (rest_of r)) need
not_filled need r (true, r') h =
    let there = h.enough refl in
    let size = ap length h.same_rest in
    ground (
      arith,
      there,
      size,
      length-append (drop r'.pos r'.buf) (join r'.chunks),
      length-drop r'.pos r'.buf,
    )
not_filled need r (false, r') h = let less = (h.short refl).0 in ground (arith, less)

pub is_filled : (need : ℕ) (r : PcapReader) (a : Bool × PcapReader) → not a.0 ≡ false → a.0 ≡ true
is_filled need r (true, r') e = refl
is_filled need r (false, r') e = cc e

is_short : (a : Bool × PcapReader) → not a.0 ≡ true → a.0 ≡ false
is_short (true, r') e = cc e
is_short (false, r') e = refl

read_frame :
    (endian : Endian) (header : Bytes) (t : Bytes × PcapReader) (frame xs : Bytes)
    → t.0 ≡ frame
    → IsReader t.1
    → t.1.endian ≡ endian
    → rest_of t.1 ≡ xs
    → Agrees endian (reads header t.0 t.1) (reads header frame xs)
read_frame endian header t frame xs e valid same_endian same_rest =
    subst (λ g. Agrees endian (reads header t.0 t.1) (reads header g xs)) e
      (both_read valid same_endian same_rest)

-- The round after the record's header.
read_body :
    (endian : Endian) (header : Bytes) (h : PcapReader) (later : Bytes)
    → IsReader h
    → h.endian ≡ endian
    → rest_of h ≡ later
    → Agrees endian
        (let incl_len = from_bytes endian (slice header 8 12) in
          let body = fill incl_len h in
          let frame = take_bytes incl_len body.1 in
          if ltb max_record_bytes incl_len
          then fails (not_a_record incl_len)
          else if not body.0
          then fails mid_record
          else reads header frame.0 frame.1)
        (let incl_len = from_bytes endian (slice header 8 12) in
          if ltb max_record_bytes incl_len
          then fails (not_a_record incl_len)
          else if ltb (length later) incl_len
          then fails mid_record
          else reads header (take incl_len later) (drop incl_len later))
read_body endian header h later valid same_endian same_rest =
    let incl_len = from_bytes endian (slice header 8 12) in
    let body = fill incl_len h in
    let f = fill-IsFilled incl_len h valid in
    Agrees-if endian (ltb max_record_bytes incl_len) (ltb max_record_bytes incl_len) refl
      (λ _. both_fail)
      (λ _.
        Agrees-if endian (not body.0) (ltb (length later) incl_len)
          (not_filled incl_len h body f ∙ ap (λ xs. ltb (length xs) incl_len) same_rest)
          (λ _. both_fail)
          (λ there.
            let t =
              take_bytes-IsTaken incl_len body.1 (f.enough (is_filled incl_len h body there)) in
            let left = f.same_rest ∙ same_rest in
            read_frame endian header (take_bytes incl_len body.1) (take incl_len later)
              (drop incl_len later) (t.taken ∙ ap (take incl_len) left) t.valid
              (t.same_endian ∙ f.same_endian ∙ same_endian) (t.left ∙ ap (drop incl_len) left)))

pub next_record-Agrees :
    (r : PcapReader)
    → IsReader r
    → Agrees r.endian (next_record r) (parse_next r.endian (rest_of r))
unfolding next_record parse_next
next_record-Agrees r valid =
    let xs = rest_of r in
    let filled = fill record_header_len r in
    let f = fill-IsFilled record_header_len r valid in
    Agrees-if r.endian (not filled.0) (ltb (length xs) record_header_len)
      (not_filled record_header_len r filled f)
      (λ short.
        let alone = (f.short (is_short filled short)).1 in
        let same : ltb filled.1.pos (length filled.1.buf) ≡ ltb 0 (length xs) =
          ground (arith, ap length alone, length-drop filled.1.pos filled.1.buf) in
        Agrees-if r.endian (ltb filled.1.pos (length filled.1.buf)) (ltb 0 (length xs)) same
          (λ _. both_fail) (λ _. both_end))
      (λ there.
        let t =
          take_bytes-IsTaken record_header_len filled.1
            (f.enough (is_filled record_header_len r filled there)) in
        let taken = take_bytes record_header_len filled.1 in
        let header : taken.0 ≡ take record_header_len xs =
          t.taken ∙ ap (take record_header_len) f.same_rest in
        subst
          (λ g.
            Agrees r.endian
              (let incl_len = from_bytes r.endian (slice taken.0 8 12) in
                let body = fill incl_len taken.1 in
                let frame = take_bytes incl_len body.1 in
                if ltb max_record_bytes incl_len
                then fails (not_a_record incl_len)
                else if not body.0
                then fails mid_record
                else reads taken.0 frame.0 frame.1)
              (let incl_len = from_bytes r.endian (slice g 8 12) in
                let later = drop record_header_len xs in
                if ltb max_record_bytes incl_len
                then fails (not_a_record incl_len)
                else if ltb (length later) incl_len
                then fails mid_record
                else reads g (take incl_len later) (drop incl_len later)))
          header
          (read_body r.endian taken.0 taken.1 (drop record_header_len xs) t.valid
            (t.same_endian ∙ f.same_endian) (t.left ∙ ap (drop record_header_len) f.same_rest)))
