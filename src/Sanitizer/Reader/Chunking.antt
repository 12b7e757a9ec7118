-- ===== src/Sanitizer/Reader/Chunking.antt =====
-- The reader against the bytes of the capture as a whole.
use mathlib.Core.List.{append_assoc, append-nil}
use pcap_server.Prelude.{
  ℕ, ◌+◌, ◌-◌, ◌≡◌, ◌≤◌, ◌<◌, refl, sym, ap, ◌∙◌, Bool, true, false, List, [], ◌∷◌, ◌++◌, Bytes,
  ltb, length, take, drop, if◌then◌else◌, join, arith, Bool-cases, inl, inr, length-append,
  length-drop, take-append_le, drop-append_le, drop-drop,
}
use pcap_server.Sanitizer.{max_record_bytes}
use pcap_server.Sanitizer.Reader.{PcapReader, fill_loop, fill, take_bytes}

-- What the reader has still to read.
abbrev pub rest_of : PcapReader → Bytes
rest_of r = drop r.pos r.buf ++ join r.chunks

abbrev pub IsReader : PcapReader → Type 0
IsReader r = r.pos ≤ length r.buf

-- After `_fill`: nothing is lost, and the answer is whether as many bytes are left.
pub record IsFilled (need : ℕ) (r : PcapReader) (a : Bool × PcapReader) : Type 0 where
  pub valid : IsReader a.1
  pub same_rest : rest_of a.1 ≡ rest_of r
  pub same_endian : a.1.endian ≡ r.endian
  pub enough : a.0 ≡ true → a.1.pos + need ≤ length a.1.buf
  pub short : a.0 ≡ false → (length (rest_of r) < need) × (rest_of r ≡ drop a.1.pos a.1.buf)

moved_rest :
    (old : Bool) (pos : ℕ) (buf chunk later : Bytes)
    → pos ≤ length buf
    → drop (if old then 0 else pos) ((if old then drop pos buf else buf) ++ chunk) ++ later
      ≡ drop pos buf ++ (chunk ++ later)
moved_rest true pos buf chunk later h = append_assoc (drop pos buf) chunk later
moved_rest false pos buf chunk later h =
    ap (λ xs. xs ++ later) (drop-append_le pos buf chunk h)
    ∙ append_assoc (drop pos buf) chunk later

grown_valid :
    (old : Bool) (pos : ℕ) (buf chunk : Bytes)
    → pos ≤ length buf
    → (if old then 0 else pos) ≤ length ((if old then drop pos buf else buf) ++ chunk)
grown_valid true pos buf chunk h = omega arith
grown_valid false pos buf chunk h = omega (arith, length-append buf chunk)

-- What holds of the longer buffer holds of the shorter one with the chunk still to come.
IsFilled-later :
    (need : ℕ) (r : PcapReader) (chunk : Bytes) (chunks : List Bytes) (grown : PcapReader)
    (a : Bool × PcapReader)
    → IsFilled need grown a
    → rest_of grown ≡ drop r.pos r.buf ++ (chunk ++ join chunks)
    → grown.endian ≡ r.endian
    → IsFilled need (record r { chunks = chunk ∷ chunks }) a
unfolding join
IsFilled-later need r chunk chunks grown a h e e' = record {
  valid = h.valid;
  same_rest = h.same_rest ∙ e;
  same_endian = h.same_endian ∙ e';
  enough = h.enough;
  short = λ f. let (less, alone) = h.short f in (omega (arith, less, ap length e), sym e ∙ alone);
}

fill_loop-IsFilled :
    (need : ℕ) (chunks : List Bytes) (r : PcapReader)
    → IsReader r
    → IsFilled need (record r { chunks = chunks }) (fill_loop need chunks r)
unfolding fill_loop join
fill_loop-IsFilled need [] r h = record {
  valid = h;
  same_rest = refl;
  same_endian = refl;
  enough = λ e. ground (arith, e);
  short = λ e.
      let missing : length r.buf < r.pos + need = ground (arith, e) in
      let alone : drop r.pos r.buf ++ [] ≡ drop r.pos r.buf = append-nil (drop r.pos r.buf) in
      (omega (arith, ap length alone, length-drop r.pos r.buf, missing), alone);
}
fill_loop-IsFilled need (chunk ∷ chunks) r h =
    elim (Bool-cases (ltb (length r.buf) (r.pos + need))) [
      | inr there ↦ rw there (record {
        valid = h;
        same_rest = refl;
        same_endian = refl;
        enough = λ e. ground (arith, there);
        short = λ e. cc e;
      })
      | inl missing ↦
          let old = ltb max_record_bytes r.pos in
          let grown : PcapReader = record r {
            chunks = chunks;
            buf = (if old then drop r.pos r.buf else r.buf) ++ chunk;
            pos = if old then 0 else r.pos;
          } in
          let ih = fill_loop-IsFilled need chunks grown (grown_valid old r.pos r.buf chunk h) in
          rw missing (
            IsFilled-later need r chunk chunks grown (fill_loop need chunks grown) ih
              (moved_rest old r.pos r.buf chunk (join chunks) h) refl)
    ]

pub fill-IsFilled : (need : ℕ) (r : PcapReader) → IsReader r → IsFilled need r (fill need r)
unfolding fill
fill-IsFilled need r h = fill_loop-IsFilled need r.chunks r h

-- `_take` of bytes that are in the buffer.
pub record IsTaken (n : ℕ) (r : PcapReader) (t : Bytes × PcapReader) : Type 0 where
  pub valid : IsReader t.1
  pub taken : t.0 ≡ take n (rest_of r)
  pub left : rest_of t.1 ≡ drop n (rest_of r)
  pub same_endian : t.1.endian ≡ r.endian

pub take_bytes-IsTaken :
    (n : ℕ) (r : PcapReader) → r.pos + n ≤ length r.buf → IsTaken n r (take_bytes n r)
unfolding take_bytes
take_bytes-IsTaken n r h =
    let room : n ≤ length (drop r.pos r.buf) = omega (arith, length-drop r.pos r.buf) in
    let size : r.pos + n - r.pos ≡ n = omega arith in
    record {
      valid = h;
      taken =
          ap (λ k. take k (drop r.pos r.buf)) size
          ∙ sym (take-append_le n (drop r.pos r.buf) (join r.chunks) room);
      left =
          ap (λ xs. xs ++ join r.chunks) (sym (drop-drop r.pos n r.buf))
          ∙ sym (drop-append_le n (drop r.pos r.buf) (join r.chunks) room);
      same_endian = refl;
    }
