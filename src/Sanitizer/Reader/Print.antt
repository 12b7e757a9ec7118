-- ===== src/Sanitizer/Reader/Print.antt =====
-- Records written one behind the other, and what parsing makes of them.
use mathlib.Core.List.{reverse, reverse-reverse}
use pcap_server.Prelude.{
  ℕ, zero, suc, ◌*◌, ◌^◌, ◌≡◌, ◌≤◌, ◌<◌, refl, ap, ◌∙◌, false, List, [], ◌∷◌, ◌++◌, Bytes, ltb,
  length, take, drop, slice, arith, length-append, take-append, drop-append, All, be_bytes,
  length-be_bytes, big_endian-be_bytes, big_endian,
}
use pcap_server.Sanitizer.{Endian, big, little, from_bytes, to_bytes_4, max_record_bytes}
use pcap_server.Sanitizer.Reader.{reads, clean, yield_record, yield_next}
use pcap_server.Sanitizer.Reader.Whole.{parse_next}
use pcap_server.Sanitizer.Reader.Parse.{parse_records}

-- The bytes of some records.
abbrev pub print_all : List (Bytes × Bytes) → Bytes
print_all [] = []
print_all ((header, frame) ∷ rest) = header ++ (frame ++ print_all rest)

-- A record with the sizes that its reader wants.
abbrev pub IsRecord : Endian → Bytes × Bytes → Type 0
IsRecord endian r =
    (length r.0 ≡ 16)
    × (from_bytes endian (slice r.0 8 12) ≡ length r.1)
    × (length r.1 ≤ max_record_bytes)

length-reverse_four : (n : ℕ) → length (reverse (be_bytes 4 n)) ≡ 4
unfolding be_bytes
length-reverse_four n = refl

pub length-to_bytes_4 : (endian : Endian) (n : ℕ) → length (to_bytes_4 endian n) ≡ 4
length-to_bytes_4 big n = length-be_bytes 4 n
length-to_bytes_4 little n = length-reverse_four n

pub from_bytes-to_bytes_4 :
    (endian : Endian) (n : ℕ) → n < 2 ^ 32 → from_bytes endian (to_bytes_4 endian n) ≡ n
from_bytes-to_bytes_4 big n h = big_endian-be_bytes n h
from_bytes-to_bytes_4 little n h =
    ap big_endian (reverse-reverse (be_bytes 4 n)) ∙ big_endian-be_bytes n h

parse_next-record :
    (endian : Endian) (header frame later : Bytes)
    → IsRecord endian (header, frame)
    → parse_next endian (header ++ (frame ++ later)) ≡ reads header frame later
unfolding parse_next max_record_bytes
parse_next-record endian header frame later (size, claimed, small) =
    let xs = header ++ (frame ++ later) in
    let front : take 16 xs ≡ header = take-append 16 header (frame ++ later) size in
    let back : drop 16 xs ≡ frame ++ later = drop-append 16 header (frame ++ later) size in
    let n : from_bytes endian (slice (take 16 xs) 8 12) ≡ length frame =
      ap (λ h. from_bytes endian (slice h 8 12)) front ∙ claimed in
    let long : ltb (length xs) 16 ≡ false =
      ground (arith, size, length-append header (frame ++ later)) in
    let real : ltb (1024 * 1024) (length frame) ≡ false = ground (arith, small) in
    let whole : ltb (length (frame ++ later)) (length frame) ≡ false =
      ground (arith, length-append frame later) in
    rw
      (
        long,
        n,
        back,
        real,
        whole,
        front,
        take-append (length frame) frame later refl,
        drop-append (length frame) frame later refl,
      )
      refl

pub parse_records-print_all :
    (k : ℕ) (endian : Endian) (rs : List (Bytes × Bytes))
    → All (IsRecord endian) rs
    → length (print_all rs) < k
    → parse_records k endian (print_all rs) ≡ (rs, clean)
unfolding parse_records yield_next parse_next
parse_records-print_all zero endian rs h k = elim k [ ]
parse_records-print_all (suc k) endian [] h less = refl
parse_records-print_all (suc k) endian ((header, frame) ∷ rest) h less =
    let shorter : length (print_all rest) < k = omega (
      arith,
      less,
      h.0.0,
      length-append header (frame ++ print_all rest),
      length-append frame (print_all rest),
    ) in
    rw (parse_next-record endian header frame (print_all rest) h.0)
      (ap (yield_record header frame) (parse_records-print_all k endian rest h.1 shorter))
