-- ===== src/Sanitizer/Reader/Parse.antt =====
-- A whole capture: read in chunks, and parsed as one string of bytes.
use pcap_server.Prelude.{
  ℕ, zero, suc, ◌≡◌, ◌≢◌, ◌≤◌, ◌<◌, refl, sym, ap, ◌∙◌, Bool, true, false, not, List, [], Bytes,
  ltb, length, take, drop, slice, if◌then◌else◌, join, arith, length-take, length-drop, All,
}
use pcap_server.Sanitizer.{
  SanitizeError, too_short, out_of_fuel, Attempt, ok, raised, ◌>>=◌, Endian, from_bytes,
  global_header_len, record_header_len, max_record_bytes,
}
use pcap_server.Sanitizer.Reader.{
  PcapReader, new_reader, fill, take_bytes, judge_header, global_header, Next, ends, fails, reads,
  next_record, failed, Records, yield_record, yield_next, records, read_capture,
}
use pcap_server.Sanitizer.Reader.Chunking.{rest_of, IsReader, fill-IsFilled, take_bytes-IsTaken}
use pcap_server.Sanitizer.Reader.Whole.{
  parse_next, Agrees, both_end, both_fail, both_read, next_record-Agrees, not_filled, is_filled,
}

unfoldable pub parse_records : ℕ → Endian → Bytes → Records
parse_records zero endian xs = ([], failed out_of_fuel)
parse_records (suc k) endian xs = yield_next (parse_next endian xs) (parse_records k endian)

unfoldable pub parse_capture : Bytes → Attempt (Bytes × Endian × Records)
parse_capture xs = if ltb (length xs) global_header_len then raised too_short else do
  kind ← judge_header (take global_header_len xs)
  ok (
    take global_header_len xs,
    kind.0,
    parse_records (suc (length xs)) kind.0 (drop global_header_len xs),
  )

yield_next-Agrees :
    (endian : Endian) (x : Next PcapReader) (y : Next Bytes) (later : PcapReader → Records)
    (parsed : Bytes → Records)
    → Agrees endian x y
    → ((r : PcapReader) → IsReader r → r.endian ≡ endian → later r ≡ parsed (rest_of r))
    → yield_next x later ≡ yield_next y parsed
unfolding yield_next
yield_next-Agrees endian _ _ later parsed both_end h = refl
yield_next-Agrees endian _ _ later parsed both_fail h = refl
yield_next-Agrees endian _ _ later parsed (both_read {header} {frame} {r} valid same_endian same)
      h =
    ap (yield_record header frame) (h r valid same_endian ∙ ap parsed same)

pub records-parse_records :
    (k : ℕ) (r : PcapReader) → IsReader r → records k r ≡ parse_records k r.endian (rest_of r)
unfolding records parse_records
records-parse_records zero r valid = refl
records-parse_records (suc k) r valid =
    yield_next-Agrees r.endian (next_record r) (parse_next r.endian (rest_of r)) (records k)
      (parse_records k r.endian) (next_record-Agrees r valid)
      (λ r' valid' e.
        records-parse_records k r' valid' ∙ ap (λ en. parse_records k en (rest_of r')) e)

abbrev give_header : Bytes → PcapReader → Attempt (Endian × ℕ) → Attempt (Bytes × PcapReader)
give_header header r verdict = do
  kind ← verdict
  ok (header, record r { endian = kind.0; linktype = kind.1 })

abbrev give_capture : ℕ → Bytes × PcapReader → Attempt (Bytes × Endian × Records)
give_capture k opened = ok (opened.0, opened.1.endian, records k opened.1)

abbrev give_parsed : ℕ → Bytes → Bytes → Endian × ℕ → Attempt (Bytes × Endian × Records)
give_parsed k header later kind = ok (header, kind.0, parse_records k kind.0 later)

-- What follows the header, for each verdict on it.
opened-parsed :
    (k : ℕ) (header later : Bytes) (r : PcapReader) (verdict : Attempt (Endian × ℕ))
    → IsReader r
    → rest_of r ≡ later
    → (give_header header r verdict >>= give_capture k) ≡ (verdict >>= give_parsed k header later)
opened-parsed k header later r (raised err) valid same = refl
opened-parsed k header later r (ok kind) valid same =
    ap (λ rs. ok (header, kind.0, rs))
      (records-parse_records k (record r { endian = kind.0; linktype = kind.1 }) valid
        ∙ ap (parse_records k kind.0) same)

Attempt-if :
    (b c : Bool) (e : SanitizeError) {A B : Type 0} (x : Attempt A) (f : A → Attempt B)
    (y : Attempt B)
    → b ≡ c
    → (b ≡ false → (x >>= f) ≡ y)
    → ((if b then raised e else x) >>= f) ≡ (if c then raised e else y)
Attempt-if true true e x f y same h = refl
Attempt-if false false e x f y same h = h refl
Attempt-if true false e x f y same h = cc same
Attempt-if false true e x f y same h = cc same

-- A capture reads alike however its bytes arrive: `_PcapReader` on any chunks, empty ones
-- included, gives the header, the records, the ending and the errors that parsing the
-- concatenation of the chunks as one string gives.
pub read_capture-parse_capture :
    (chunks : List Bytes) → read_capture chunks ≡ parse_capture (join chunks)
unfolding read_capture parse_capture global_header
read_capture-parse_capture chunks =
    let r = new_reader chunks in
    let xs = join chunks in
    let filled = fill global_header_len r in
    let f = fill-IsFilled global_header_len r (omega arith) in
    let taken = take_bytes global_header_len filled.1 in
    let parsed : Bytes → Attempt (Bytes × Endian × Records) =
      λ g. judge_header g >>= give_parsed (suc (length xs)) g (drop global_header_len xs) in
    Attempt-if (not filled.0) (ltb (length xs) global_header_len) too_short
      (give_header taken.0 taken.1 (judge_header taken.0)) (give_capture (suc (length xs)))
      (parsed (take global_header_len xs)) (not_filled global_header_len r filled f)
      (λ there.
        let t =
          take_bytes-IsTaken global_header_len filled.1
            (f.enough (is_filled global_header_len r filled there)) in
        let header : taken.0 ≡ take global_header_len xs =
          t.taken ∙ ap (take global_header_len) f.same_rest in
        opened-parsed (suc (length xs)) taken.0 (drop global_header_len xs) taken.1
          (judge_header taken.0) t.valid (t.left ∙ ap (drop global_header_len) f.same_rest)
        ∙ ap parsed header)

-- A round that goes on leaves fewer than `n` bytes and a record of the right sizes, and none runs
-- out of fuel.
unfoldable IsShorter : ℕ → Next Bytes → Type 0
IsShorter n ends = Unit
IsShorter n (fails e) = e ≢ out_of_fuel
IsShorter n (reads header frame xs) =
    (length xs < n) × (length header ≡ 16) × (length frame ≤ max_record_bytes)

IsShorter-if :
    (n : ℕ) (b : Bool) (x y : Next Bytes)
    → IsShorter n x
    → (b ≡ false → IsShorter n y)
    → IsShorter n (if b then x else y)
IsShorter-if n true x y hx hy = hx
IsShorter-if n false x y hx hy = hy refl

parse_next-IsShorter : (endian : Endian) (xs : Bytes) → IsShorter (length xs) (parse_next endian xs)
unfolding parse_next IsShorter
parse_next-IsShorter endian xs =
    let incl_len = from_bytes endian (slice (take record_header_len xs) 8 12) in
    let later = drop record_header_len xs in
    IsShorter-if (length xs) (ltb (length xs) record_header_len) _ _
      (IsShorter-if (length xs) (ltb 0 (length xs)) _ _ (λ e. cc e) (λ _. tt))
      (λ there.
        IsShorter-if (length xs) (ltb max_record_bytes incl_len) _ _ (λ e. cc e)
          (λ real.
            IsShorter-if (length xs) (ltb (length later) incl_len) _ _ (λ e. cc e)
              (λ _.
                let size : length (take record_header_len xs) ≡ 16 =
                  ground (arith, there, length-take record_header_len xs) in
                let small : length (take incl_len later) ≤ max_record_bytes =
                  ground (arith, real, length-take incl_len later) in
                (
                  ground
                      (arith, there, length-drop record_header_len xs, length-drop incl_len later),
                  size,
                  small,
                ))))

yield_next-enough :
    (n : ℕ) (x : Next Bytes) (rest : Bytes → Records)
    → IsShorter n x
    → ((xs : Bytes) → length xs < n → (rest xs).1 ≢ failed out_of_fuel)
    → (yield_next x rest).1 ≢ failed out_of_fuel
unfolding yield_next IsShorter
yield_next-enough n ends rest h ih e = cc e
yield_next-enough n (fails err) rest h ih e = h (cc e)
yield_next-enough n (reads header frame xs) rest h ih e = ih xs h.0 e

-- The rounds of `parse_records` that a string of bytes needs.
pub parse_records-enough :
    (k : ℕ) (endian : Endian) (xs : Bytes)
    → length xs < k
    → (parse_records k endian xs).1 ≢ failed out_of_fuel
unfolding parse_records
parse_records-enough zero endian xs h = omega arith
parse_records-enough (suc k) endian xs h =
    yield_next-enough (length xs) (parse_next endian xs) (parse_records k endian)
      (parse_next-IsShorter endian xs) (λ ys less. parse_records-enough k endian ys (omega arith))

-- The sizes of a record that was read.
abbrev pub IsRead : Bytes × Bytes → Type 0
IsRead r = (length r.0 ≡ 16) × (length r.1 ≤ max_record_bytes)

yield_next-IsRead :
    (n : ℕ) (x : Next Bytes) (rest : Bytes → Records)
    → IsShorter n x
    → ((xs : Bytes) → All IsRead (rest xs).0)
    → All IsRead (yield_next x rest).0
unfolding yield_next IsShorter
yield_next-IsRead n ends rest h ih = tt
yield_next-IsRead n (fails err) rest h ih = tt
yield_next-IsRead n (reads header frame xs) rest h ih = ((h.1, h.2), ih xs)

pub parse_records-IsRead :
    (k : ℕ) (endian : Endian) (xs : Bytes) → All IsRead (parse_records k endian xs).0
unfolding parse_records
parse_records-IsRead zero endian xs = tt
parse_records-IsRead (suc k) endian xs =
    yield_next-IsRead (length xs) (parse_next endian xs) (parse_records k endian)
      (parse_next-IsShorter endian xs) (λ ys. parse_records-IsRead k endian ys)

-- The loop of `records` ends: with a round for each byte of the capture and one more, a
-- reader never runs out of fuel, so it ends cleanly or with one of the source's errors.
pub records_total :
    (k : ℕ) (r : PcapReader)
    → IsReader r
    → length (rest_of r) < k
    → (records k r).1 ≢ failed out_of_fuel
records_total k r valid h e =
    parse_records-enough k r.endian (rest_of r) h
      (sym (ap (λ rs. rs.1) (records-parse_records k r valid)) ∙ e)
