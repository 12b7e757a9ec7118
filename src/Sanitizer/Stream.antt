-- ===== src/Sanitizer/Stream.antt =====
-- backend/sanitizer.py: the loop of stream_sanitized_pcap over the records.
-- The yields to the event loop are left out.
pub mod Printed
pub mod Readable
use pcap_server.Prelude.{
  ℕ, zero, suc, ◌+◌, Bool, true, false, List, [], ◌∷◌, ◌++◌, Option, none, some, Bytes, leb, length,
  take, drop, if◌then◌else◌,
}
use pcap_server.Anonymize.{Primitives}
use pcap_server.Sanitizer.{Attempt, ok, raised, ◌>>=◌, Endian, to_bytes_4, output_chunk_bytes}
use pcap_server.Sanitizer.Texts.{PythonTexts}
use pcap_server.Sanitizer.Fields.{Json}
use pcap_server.Sanitizer.Reader.{Ending, clean, failed, Records, read_capture, linktype_of}
use pcap_server.Sanitizer.Tshark.{TsharkPass, packet_for, finish}
use pcap_server.Sanitizer.Rewriter.{FrameRewriter, rewrite}

-- The chunks that the generator yields, and how it ends.
abbrev pub Yields : Type 0
Yields = List Bytes × Ending

-- `await tshark.packet_for(index) if tshark is not None else None`
unfoldable pub packet_of :
    ℕ → Option (TsharkPass Json) → Attempt (Option Json × Option (TsharkPass Json))
packet_of index none = ok (none, none)
packet_of index (some t) = do asked ← packet_for index t; ok (asked.0, some asked.1)

unfoldable pub finish_of : Option (TsharkPass Json) → Attempt Unit
finish_of none = ok tt
finish_of (some t) = finish t

-- The record's header with the new length in it.
unfoldable pub patched : Endian → Bytes → Bytes → Bytes
patched endian header rewritten =
    take 8 header ++ to_bytes_4 endian (length rewritten) ++ drop 12 header

-- `if out: yield bytes(out)`
unfoldable pub yield_out : Bytes → List Bytes
yield_out [] = []
yield_out (b ∷ bs) = (b ∷ bs) ∷ []

unfoldable pub yield_if : Bool → Bytes → Yields → Yields
yield_if full out rest = if full then (out ∷ rest.0, rest.1) else rest

abbrev set_frames : ℕ → FrameRewriter → FrameRewriter
set_frames index w = record w { summary = record w.summary { frames = index } }

-- The end of the generator, after the last record.
unfoldable pub end_stream : Ending → Option (TsharkPass Json) → Bytes → Yields
end_stream (failed e) t out = ([], failed e)
end_stream clean t out = elim (finish_of t) [
  | raised e ↦ ([], failed e)
  | ok done ↦ (yield_out out, clean)
]

-- What one record is rewritten to, and the state that is left.
abbrev pub Rewritten : Type 0
Rewritten = Bytes × FrameRewriter × Option (TsharkPass Json)

module _ (p : Primitives) (py : PythonTexts) where
  unfoldable pub rewrite_record :
      ℕ → Bytes → FrameRewriter → Option (TsharkPass Json) → Attempt Rewritten
  rewrite_record index frame w t = do
    asked ← packet_of index t
    a ← rewrite p py w frame asked.0
    ok (a.0, set_frames index a.1, asked.1)

  -- `index` is the number of records before.
  unfoldable pub stream_records :
      Endian
      → Ending
      → List (Bytes × Bytes)
      → ℕ
      → Bytes
      → FrameRewriter
      → Option (TsharkPass Json)
      → Yields
  stream_records endian ending [] index out w t = end_stream ending t out
  stream_records endian ending ((header, frame) ∷ rest) index out w t =
      elim (rewrite_record (suc index) frame w t) [
        | raised e ↦ ([], failed e)
        | ok (rewritten, w', t') ↦
            let more = out ++ patched endian header rewritten ++ rewritten in
            let full = leb output_chunk_bytes (length more) in
            yield_if full more
              (stream_records endian ending rest (suc index) (if full then [] else more) w' t')
      ]

  -- `stream_sanitized_pcap` once the header is read. `w` is the rewriter but for its link type.
  unfoldable pub stream_opened :
      FrameRewriter → Option (TsharkPass Json) → Bytes × Endian × Records → Yields
  stream_opened w t (header, endian, records) =
      stream_records endian records.1 records.0 0 header
        (record w { linktype = linktype_of endian header }) t

  unfoldable pub stream_sanitized_pcap :
      FrameRewriter → Option (TsharkPass Json) → List Bytes → Yields
  stream_sanitized_pcap w t chunks = elim (read_capture chunks) [
    | raised e ↦ ([], failed e)
    | ok opened ↦ stream_opened w t opened
  ]
