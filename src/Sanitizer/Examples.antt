-- ===== src/Sanitizer/Examples.antt =====
-- Tests of the sanitizer, and its theorems at concrete captures.
use pcap_server.Prelude.{
  ℕ, ◌≡◌, ◌≢◌, refl, true, false, List, [], ◌∷◌, ◌++◌, Option, none, some, Bytes, length, get_or,
  inl, inr, arith, join, bytes_eq, take, drop, from_bytes_on, be_bytes,
}
use pcap_server.Anonymize.Mapper.Cache.{fresh_mapper, fresh-IsCoherent}
use pcap_server.Anonymize.Mapper.{mapper_mac, map_mac, remember, cache_limit}
use pcap_server.Framewalk.Checksum.{refresh_checksums}
use pcap_server.Anonymize.Examples.{toy_primitives, small_config}
use pcap_server.Framewalk.{done, mac, Layout, address, header_end}
use pcap_server.Framewalk.Link.{ethernet, ethertype, vlan_loop, network}
use pcap_server.Framewalk.Walk.{walk, link}
use pcap_server.Framewalk.{u16}
use pcap_server.Sanitizer.{
  Attempt, ok, raised, little, out_of_fuel, max_record_bytes, output_chunk_bytes,
}
use pcap_server.Sanitizer.Texts.{
  PythonTexts, codes, hex, ends_with, encode, rfind, starts_with, fill_with, meets, contains,
}
use pcap_server.Sanitizer.Fields.{
  Json, string, whole, array, object, no_items, item, no_members, member_of, pair_up, repeat_for,
  shown_list, first_shown, raw_fields, collect_fields, confirm, locate_in, locate, claims_bytes,
}
use pcap_server.Sanitizer.Rules.{
  SanitizeOptions, rules_by_field, group_rules, add_rule, rules, rule_selected,
}
use pcap_server.Sanitizer.Reader.{
  Ending, clean, failed, Records, PcapReader, new_reader, records, read_capture, global_header,
  fill_loop, take_bytes, judge_header, magic_endian, next_record, yield_next, linktype_of,
}
use pcap_server.Sanitizer.Reader
use pcap_server.Sanitizer.Reader.Parse.{parse_capture, read_capture-parse_capture, records_total}
use pcap_server.Sanitizer.Tshark.{
  new_pass, run_pass, packet_for, look_ahead, advance, advance_on, answer, finish, settle,
}
use pcap_server.Sanitizer.Tshark.Matching.{reported, run_pass-reported}
use pcap_server.Sanitizer.Tshark.Complete.{run_pass_complete}
use pcap_server.Sanitizer.Rewriter.{
  FrameRewriter, rewrite, map_address, place, map_headers, replacement, put, apply_rule,
  apply_rules, apply_kind, apply_fields, apply_packet, apply_reported, finish_frame, rewrite_walked,
}
use pcap_server.Sanitizer.Summary.{empty_summary, count_masked}
use pcap_server.Sanitizer.Conditions.{
  rules_for, seen_values, applies, category_for, is_binary, kind_for, layer_fields, agrees_with,
  has_data, split_colons, packet_layers, packet_fields,
}
use pcap_server.Sanitizer.Masks.{find_encoded, find_value, fill, mask_secret}
use pcap_server.Sanitizer.Stream.{
  stream_sanitized_pcap, stream_opened, stream_records, rewrite_record, packet_of, yield_if,
  end_stream, finish_of, yield_out, patched,
}
use pcap_server.Sanitizer.Stream.Printed.{AllBecome}
use pcap_server.Sanitizer.Stream.Readable.{stream_sanitized_pcap-readable}
use pcap_server.Sanitizer.Rewriter.Edits.{IsRewriter}
use pcap_server.Sanitizer.Rewriter.Reported.{Reported-place}
use pcap_server.Sanitizer.Rewriter.Kept.{final_length, length-rewrite, get_or-rewrite}

abbrev toy_texts : PythonTexts
toy_texts = record {
  lower = λ xs. xs;
  upper = λ xs. xs;
  parse_ipv4 = λ xs. none;
  parse_ipv6 = λ xs. none;
}

abbrev credentials_only : SanitizeOptions
credentials_only = record {
  credentials = true;
  ips = true;
  keep_private = false;
  macs = true;
  keep_oui = false;
  hostnames = false;
  usernames = false;
  strip_payload = false;
}

-- An Ethernet frame of an unknown type, whose payload is "pw".
abbrev frame : Bytes
frame = 2 ∷ 2 ∷ 3 ∷ 4 ∷ 5 ∷ 6 ∷ 7 ∷ 8 ∷ 9 ∷ 10 ∷ 11 ∷ 12 ∷ 0x88 ∷ 0xB5 ∷ 0x70 ∷ 0x77 ∷ []

abbrev frame_layout : Layout
frame_layout = record {
  addresses = (0, mac) ∷ (6, mac) ∷ [];
  scopes = [];
  payload_start = 14;
  transport = none;
}

walk-frame : walk frame 1 ≡ done frame_layout
unfolding walk link ethernet ethertype vlan_loop network u16 address header_end
walk-frame = refl

abbrev raw : Bytes → ℕ → ℕ → Json
raw xs position len = array (
    item (string (hex xs))
      (item (whole position) (item (whole len) (item (whole 0) (item (whole 26) no_items)))))

-- What tshark reports for it: a password after PASS.
abbrev ftp_layer : Json
ftp_layer = object (
    member_of (codes "ftp.request.command_raw") (raw (codes "PASS") 0 4) (
      member_of (codes "ftp.request.command") (string (codes "PASS")) (
        member_of (codes "ftp.request.arg_raw") (raw (codes "pw") 14 2)
          (member_of (codes "ftp.request.arg") (string (codes "pw")) no_members))))

abbrev packet : Json
packet = object (
    member_of (codes "_source")
      (object (
        member_of (codes "layers")
          (object (
            member_of (codes "frame_raw") (raw frame 0 16)
              (member_of (codes "ftp") ftp_layer no_members)))
          no_members))
      no_members)

abbrev rewriter : FrameRewriter
rewriter = record {
  options = credentials_only;
  mapper = fresh_mapper small_config;
  names = record { hash_key = 7 ∷ 7 ∷ []; labels = [] };
  catalog = none;
  linktype = 1;
  summary = empty_summary;
}

abbrev result_of : Attempt (Bytes × FrameRewriter) → Bytes × FrameRewriter
result_of (ok a) = a
result_of (raised e) = ([], rewriter)

abbrev first_of : Option (ℕ × ℕ) → ℕ
first_of none = 0
first_of (some at) = at.0

abbrev rewritten : Bytes × FrameRewriter
rewritten = result_of (rewrite toy_primitives toy_texts rewriter frame (some packet))

abbrev sanitized_frame : Bytes
sanitized_frame = rewritten.0

rewrite-frame : rewrite toy_primitives toy_texts rewriter frame (some packet) ≡ ok rewritten
unfolding rewrite hex ends_with encode rfind starts_with fill_with meets contains rules_by_field
    group_rules add_rule rules rule_selected pair_up repeat_for shown_list first_shown raw_fields
    collect_fields confirm locate_in locate claims_bytes find_encoded find_value fill mask_secret
    rules_for seen_values applies category_for is_binary kind_for map_address place map_headers
    replacement put count_masked apply_rule apply_rules apply_kind apply_fields layer_fields
    agrees_with has_data split_colons packet_layers packet_fields apply_packet apply_reported
    finish_frame rewrite_walked walk link ethernet ethertype vlan_loop network u16 address
    header_end mapper_mac map_mac remember cache_limit refresh_checksums bytes_eq
rewrite-frame = refl

rewriter-IsRewriter : IsRewriter toy_primitives small_config credentials_only 1 rewriter
rewriter-IsRewriter = record {
  same_options = refl;
  same_linktype = refl;
  coherent = fresh-IsCoherent toy_primitives small_config;
}

length-rewritten : length rewritten.0 ≡ 16
length-rewritten =
    (length-rewrite toy_primitives toy_texts small_config credentials_only 1 rewriter frame
      (some packet) frame_layout rewritten rewriter-IsRewriter walk-frame rewrite-frame).0

length-rewrite_example :
    (length rewritten.0 ≡ final_length credentials_only frame_layout frame)
    × IsRewriter toy_primitives small_config credentials_only 1 rewritten.1
length-rewrite_example =
    length-rewrite toy_primitives toy_texts small_config credentials_only 1 rewriter frame
      (some packet) frame_layout rewritten rewriter-IsRewriter walk-frame rewrite-frame

get_or-rewrite_example : get_or rewritten.0 12 0 ≡ get_or frame 12 0
unfolding packet_fields packet_layers layer_fields collect_fields raw_fields first_shown ends_with
    bytes_eq locate locate_in confirm hex
get_or-rewrite_example =
    get_or-rewrite toy_primitives toy_texts small_config credentials_only 1 rewriter frame
      (some packet) frame_layout rewritten 12 rewriter-IsRewriter walk-frame rewrite-frame
      (inr (omega arith), (inr (omega arith), tt))
      (
        (λ place r.
            let (at, long, same) =
              Reported-place toy_texts frame (hex (codes "PASS")) 0 4 _ _ place r in
            inr (omega (arith, at, long))),
        (
          (λ place r.
              let (at, long, same) =
                Reported-place toy_texts frame (hex (codes "pw")) 14 2 _ _ place r in
              inl (omega (arith, at))),
          tt,
        ),
      )
      tt (omega (arith, length-rewritten))

-- A capture of that frame, in little-endian order, and in three chunks.
abbrev capture_header : Bytes
capture_header =
    0xD4 ∷ 0xC3 ∷ 0xB2 ∷ 0xA1 ∷ 2 ∷ 0 ∷ 4 ∷ 0 ∷ 0 ∷ 0 ∷ 0 ∷ 0 ∷ 0 ∷ 0 ∷ 0 ∷ 0 ∷ 0 ∷ 0 ∷ 4 ∷ 0 ∷ 1
    ∷ 0 ∷ 0 ∷ 0 ∷ []

abbrev record_header : Bytes
record_header = 1 ∷ 2 ∷ 3 ∷ 4 ∷ 5 ∷ 6 ∷ 7 ∷ 8 ∷ 16 ∷ 0 ∷ 0 ∷ 0 ∷ 16 ∷ 0 ∷ 0 ∷ 0 ∷ []

abbrev chunks : List Bytes
chunks =
    take 30 (capture_header ++ record_header)
    ∷ []
    ∷ drop 30 (capture_header ++ record_header ++ frame)
    ∷ []

read_capture-parse_capture_example : read_capture chunks ≡ parse_capture (join chunks)
read_capture-parse_capture_example = read_capture-parse_capture chunks

records_total_example : (records 100 (new_reader chunks)).1 ≢ failed out_of_fuel
unfolding join
records_total_example = records_total 100 (new_reader chunks) (omega arith) (omega arith)

-- Three frames, of which tshark reports the second.
abbrev answers : List (Option Json)
answers = none ∷ some packet ∷ none ∷ []

run_pass_complete_example : run_pass 3 (new_pass (reported 1 answers) true) ≡ ok answers
run_pass_complete_example = run_pass_complete answers

run_pass-reported_example : (reported 1 answers ≡ reported 1 answers) × (length answers ≡ 3)
run_pass-reported_example =
    run_pass-reported 3 (reported 1 answers) true answers run_pass_complete_example

read-chunks :
    read_capture chunks ≡ ok (capture_header, little, ((record_header, frame) ∷ [], clean))
unfolding read_capture global_header Reader.fill fill_loop take_bytes judge_header magic_endian
    bytes_eq records next_record yield_next join from_bytes_on max_record_bytes
read-chunks = refl

streamed :
    stream_sanitized_pcap toy_primitives toy_texts rewriter
      (some (new_pass ((some 1, packet) ∷ []) true))
      chunks
    ≡ ((capture_header ++ record_header ++ sanitized_frame) ∷ [], clean)
unfolding stream_sanitized_pcap stream_opened stream_records rewrite_record packet_of packet_for
    look_ahead advance advance_on answer yield_if end_stream finish_of finish settle yield_out
    patched output_chunk_bytes read_capture global_header Reader.fill fill_loop take_bytes
    judge_header magic_endian records next_record yield_next join from_bytes_on max_record_bytes
    be_bytes fill rewrite hex ends_with encode rfind starts_with fill_with meets contains
    rules_by_field group_rules add_rule rules rule_selected pair_up repeat_for shown_list
    first_shown raw_fields collect_fields confirm locate_in locate claims_bytes find_encoded
    find_value mask_secret rules_for seen_values applies category_for is_binary kind_for map_address
    place map_headers replacement put count_masked apply_rule apply_rules apply_kind apply_fields
    layer_fields agrees_with has_data split_colons packet_layers packet_fields apply_packet
    apply_reported finish_frame rewrite_walked walk link ethernet ethertype vlan_loop network u16
    address header_end mapper_mac map_mac remember cache_limit refresh_checksums bytes_eq
streamed = refl

stream_sanitized_pcap-readable_example :
    (news : List (Bytes × Bytes)) × (read_capture
        ((capture_header ++ record_header ++ sanitized_frame) ∷ [])
      ≡ ok (capture_header, little, (news, clean)))
    × AllBecome credentials_only
        (linktype_of little capture_header)
        little
        ((record_header, frame) ∷ [])
        news
stream_sanitized_pcap-readable_example =
    stream_sanitized_pcap-readable toy_primitives toy_texts small_config credentials_only rewriter
      (some (new_pass ((some 1, packet) ∷ []) true)) chunks
      ((capture_header ++ record_header ++ sanitized_frame) ∷ []) capture_header little
      ((record_header, frame) ∷ []) rewriter-IsRewriter read-chunks streamed
