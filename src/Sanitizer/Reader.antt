-- ===== src/Sanitizer/Reader.antt =====
-- backend/sanitizer.py: _PcapReader, the records of a capture that arrives in chunks.
pub mod Chunking
pub mod Whole
pub mod Parse
pub mod Print
use pcap_server.Prelude.{
  ℕ, zero, suc, ◌+◌, ◌-◌, ◌%◌, ◌^◌, Bool, true, false, not, List, [], ◌∷◌, ◌++◌, Bytes, ltb, length,
  take, drop, slice, bytes_eq, bit_and, member, if◌then◌else◌, Option, none, some, join,
}
use pcap_server.Framewalk.Walk.{linktypes}
use pcap_server.Sanitizer.{
  SanitizeError, too_short, is_pcapng, not_pcap, cannot_sanitize, mid_header, mid_record,
  not_a_record, out_of_fuel, Attempt, ok, raised, ◌>>=◌, Endian, big, little, from_bytes,
  global_header_len, record_header_len, max_record_bytes,
}

-- PCAP_MAGICS, as the test `PCAP_MAGICS.get(magic)`.
unfoldable pub magic_endian : Bytes → Option Endian
magic_endian magic =
    if bytes_eq magic (0xA1 ∷ 0xB2 ∷ 0xC3 ∷ 0xD4 ∷ [])
    then some big
    else if bytes_eq magic (0xD4 ∷ 0xC3 ∷ 0xB2 ∷ 0xA1 ∷ [])
    then some little
    else if bytes_eq magic (0xA1 ∷ 0xB2 ∷ 0x3C ∷ 0x4D ∷ [])
    then some big
    else if bytes_eq magic (0x4D ∷ 0x3C ∷ 0xB2 ∷ 0xA1 ∷ [])
    then some little
    else none

abbrev pub pcapng_magic : Bytes
pcapng_magic = 0x0A ∷ 0x0D ∷ 0x0D ∷ 0x0A ∷ []

-- A `_PcapReader`: the chunks that are still to come, the buffer, and the place in it.
pub record PcapReader : Type 0 where
  pub chunks : List Bytes
  pub buf : Bytes
  pub pos : ℕ
  pub endian : Endian
  pub linktype : ℕ

-- `_PcapReader(source)`. The link type is -1 in the source until the header is read.
abbrev pub new_reader : List Bytes → PcapReader
new_reader chunks = record { chunks = chunks; buf = []; pos = 0; endian = little; linktype = 0 }

-- The loop of `_fill`, over the chunks. `len(buf) - pos < need` without a negative number.
unfoldable pub fill_loop : ℕ → List Bytes → PcapReader → Bool × PcapReader
fill_loop need [] r = (not (ltb (length r.buf) (r.pos + need)), record r { chunks = [] })
fill_loop need (chunk ∷ chunks) r =
    let old = ltb max_record_bytes r.pos in
    let more = fill_loop need chunks (record r {
      chunks = chunks;
      buf = (if old then drop r.pos r.buf else r.buf) ++ chunk;
      pos = if old then 0 else r.pos;
    }) in
    if ltb (length r.buf) (r.pos + need) then more else (true, record r { chunks = chunk ∷ chunks })

unfoldable pub fill : ℕ → PcapReader → Bool × PcapReader
fill need r = fill_loop need r.chunks r

unfoldable pub take_bytes : ℕ → PcapReader → Bytes × PcapReader
take_bytes n r = (slice r.buf r.pos (r.pos + n), record r { pos = r.pos + n })

-- The link type that a header names, without the FCS bits.
abbrev pub linktype_of : Endian → Bytes → ℕ
linktype_of endian header = bit_and (from_bytes endian (slice header 20 24)) 0x03FF_FFFF

-- What a header of 24 bytes says: the byte order and the link type.
unfoldable pub judge_header : Bytes → Attempt (Endian × ℕ)
judge_header header = elim (magic_endian (take 4 header)) [
  | none ↦ if bytes_eq (take 4 header) pcapng_magic then raised is_pcapng else raised not_pcap
  | some endian ↦
      let linktype = linktype_of endian header in
      if not (member linktype linktypes)
      then raised (cannot_sanitize linktype)
      else ok (endian, linktype)
]

unfoldable pub global_header : PcapReader → Attempt (Bytes × PcapReader)
global_header r =
    let filled = fill global_header_len r in
    let taken = take_bytes global_header_len filled.1 in
    if not filled.0 then raised too_short else do
      kind ← judge_header taken.0
      ok (taken.0, record taken.1 { endian = kind.0; linktype = kind.1 })

-- What one round of `records` finds: the end, an error, or a record and what is left.
pub data Next (A : Type 0) : Type 0 where
  ends : Next A
  fails : SanitizeError → Next A
  reads : Bytes → Bytes → A → Next A

unfoldable pub next_record : PcapReader → Next PcapReader
next_record r =
    let filled = fill record_header_len r in
    let header = take_bytes record_header_len filled.1 in
    let incl_len = from_bytes r.endian (slice header.0 8 12) in
    let body = fill incl_len header.1 in
    let frame = take_bytes incl_len body.1 in
    if not filled.0
    then (if ltb filled.1.pos (length filled.1.buf) then fails mid_header else ends)
    else if ltb max_record_bytes incl_len
    then fails (not_a_record incl_len)
    else if not body.0
    then fails mid_record
    else reads header.0 frame.0 frame.1

-- How the generator `records` ends.
pub data Ending : Type 0 where
  clean : Ending
  failed : SanitizeError → Ending

-- The records that a generator yields, and how it ends.
abbrev pub Records : Type 0
Records = List (Bytes × Bytes) × Ending

abbrev pub yield_record : Bytes → Bytes → Records → Records
yield_record header frame rest = ((header, frame) ∷ rest.0, rest.1)

-- What the generator yields from a round on, `rest` being the later rounds.
unfoldable pub yield_next : {A : Type 0} → Next A → (A → Records) → Records
yield_next ends rest = ([], clean)
yield_next (fails e) rest = ([], failed e)
yield_next (reads header frame r) rest = yield_record header frame (rest r)

-- The loop of `records`; the first argument is the fuel.
unfoldable pub records : ℕ → PcapReader → Records
records zero r = ([], failed out_of_fuel)
records (suc k) r = yield_next (next_record r) (records k)

-- A capture that is read to its end: its header, then `records`, with a round for each byte.
unfoldable pub read_capture : List Bytes → Attempt (Bytes × Endian × Records)
read_capture chunks = do
  opened ← global_header (new_reader chunks)
  ok (opened.0, opened.1.endian, records (suc (length (join chunks))) opened.1)
