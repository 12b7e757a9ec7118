-- ===== src/Crypto/Authentic.antt =====
-- What a stream is made of that `open_stream` reads to its end.
use mathlib.Core.List.{append_assoc}
use pcap_server.Prelude.{
  ℕ, zero, suc, ◌+◌, ◌≤◌, ◌<◌, ◌≡◌, refl, ap, ap₂, subst, sym, ◌∙◌, List, [], ◌∷◌, ◌++◌, some,
  Bytes, IsBytes, IsBytes-take, IsBytes-drop, length, take, drop, length-take, take-append-drop,
  big_endian, be_bytes, be_bytes-big_endian, arith, Option-cases, inl, inr,
}
use pcap_server.Crypto.Layout.{open_chunks_bad, open_chunks_end, open_chunks_more}
use pcap_server.Crypto.{
  Aead, clean, chunk_size, tag_len, nonce_len, chunk_aad, magic, seal_one, Chunk, bad, terminator,
  chunk, judge_chunk, read_chunk, open_chunks,
}

-- A chunk as the format has it: the length, the nonce, and the text encrypted under the data key,
-- with the magic bytes and the chunk's place in the stream as associated data.
abbrev pub framed : Aead → Bytes → Bytes → ℕ → Bytes → Bytes
framed aes dek nonce index p =
    be_bytes 4 (length p) ++ (nonce ++ aes.encrypt dek nonce p (magic ++ be_bytes 8 index))

-- It is what `_seal_one` writes.
pub framed-seal_one :
    (aes : Aead) (dek file nonce : Bytes) (index : ℕ) (p rest : Bytes)
    → file ≡ framed aes dek nonce index p ++ rest
    → file ≡ seal_one aes dek nonce index p ++ rest
unfolding seal_one
framed-seal_one aes dek file nonce index p rest h = h

-- A stream of such chunks from an index on, up to the terminator, and whatever follows it.
pub data Sealed (aes : Aead) (dek : Bytes) : ℕ → List Bytes → Bytes → Type 0 where
  ends :
      {index : ℕ} {file : Bytes} (nonce rest : Bytes)
      → length nonce ≡ nonce_len
      → file ≡ framed aes dek nonce index [] ++ rest
      → Sealed aes dek index [] file
  goes_on :
      {index : ℕ} {ps : List Bytes} {file : Bytes} (nonce p later : Bytes)
      → length nonce ≡ nonce_len
      → 0 < length p
      → length p ≤ chunk_size
      → file ≡ framed aes dek nonce index p ++ later
      → Sealed aes dek (index + 1) ps later
      → Sealed aes dek index (p ∷ ps) file

length-zero : (xs : Bytes) → length xs ≡ 0 → xs ≡ []
length-zero [] h = refl
length-zero (x ∷ xs) h = absurd (omega arith)

module _ (aes : Aead) (dek : Bytes) (index : ℕ) where
  -- What passed the checks was long enough, and decrypted.
  record Passed (length_raw nonce body p : Bytes) : Type 0 where
    size_read : 4 ≤ length length_raw
    size_fits : big_endian length_raw ≤ chunk_size
    nonce_read : nonce_len ≤ length nonce
    body_read : big_endian length_raw + tag_len ≤ length body
    decrypted : aes.decrypt dek nonce body (chunk_aad index) ≡ some p

  judge_chunk-terminator :
      (length_raw nonce body later : Bytes)
      → judge_chunk aes dek index length_raw nonce body later ≡ terminator
      → (p : Bytes) × Passed length_raw nonce body p × (big_endian length_raw ≡ 0)
  unfolding judge_chunk
  judge_chunk-terminator length_raw nonce body later h =
      elim (Option-cases (aes.decrypt dek nonce body (chunk_aad index))) [
        | inl refused ↦ absurd (ground (arith, refused))
        | inr (p, opened) ↦ (p, ground (arith, opened), ground (arith, opened))
      ]

  judge_chunk-chunk :
      (length_raw nonce body later p later' : Bytes)
      → judge_chunk aes dek index length_raw nonce body later ≡ chunk p later'
      → Passed length_raw nonce body p × (0 < big_endian length_raw) × (later ≡ later')
  unfolding judge_chunk
  judge_chunk-chunk length_raw nonce body later p later' h =
      (ground arith, ground arith, ground arith)

  module _ (file : Bytes) (bytes : IsBytes file) where
    abbrev size_field : Bytes
    size_field = take 4 file

    abbrev pub nonce_field : Bytes
    nonce_field = take nonce_len (drop 4 file)

    abbrev sealed_rest : Bytes
    sealed_rest = drop nonce_len (drop 4 file)

    abbrev body_field : Bytes
    body_field = take (big_endian size_field + tag_len) sealed_rest

    abbrev later_field : Bytes
    later_field = drop (big_endian size_field + tag_len) sealed_rest

    prefix :
        (p : Bytes)
        → length p ≡ big_endian size_field
        → length size_field ≡ 4
        → be_bytes 4 (length p) ≡ size_field
    prefix p size four =
        ap (be_bytes 4) size ∙ be_bytes-big_endian size_field four (IsBytes-take 4 file bytes)

    whole :
        (p : Bytes)
        → body_field ≡ aes.encrypt dek nonce_field p (chunk_aad index)
        → be_bytes 4 (length p) ≡ size_field
        → file ≡ framed aes dek nonce_field index p ++ later_field
    whole p sealed size = sym (
        ap₂ (λ a b. (a ++ (nonce_field ++ b)) ++ later_field) size (sym sealed)
        ∙ append_assoc size_field (nonce_field ++ body_field) later_field
        ∙ ap (λ xs. size_field ++ xs)
            (append_assoc nonce_field body_field later_field
              ∙ ap (λ xs. nonce_field ++ xs)
                  (take-append-drop (big_endian size_field + tag_len) sealed_rest)
              ∙ take-append-drop nonce_len (drop 4 file))
        ∙ take-append-drop 4 file)

    Passed-Sealed :
        (p : Bytes)
        → Passed size_field nonce_field body_field p
        → (length nonce_field ≡ nonce_len)
          × (length p ≡ big_endian size_field)
          × (file ≡ framed aes dek nonce_field index p ++ later_field)
    Passed-Sealed p h =
        let sealed : body_field ≡ aes.encrypt dek nonce_field p (chunk_aad index) =
          aes.encrypt-decrypt dek nonce_field body_field (chunk_aad index) p h.decrypted in
        let size : length p ≡ big_endian size_field = omega (
          arith,
          aes.length-encrypt dek nonce_field p (chunk_aad index),
          ap length sealed,
          length-take (big_endian size_field + tag_len) sealed_rest,
          h.body_read,
        ) in
        let four : length size_field ≡ 4 = omega (arith, length-take 4 file, h.size_read) in
        (
          omega (arith, length-take nonce_len (drop 4 file), h.nonce_read),
          size,
          whole p sealed (prefix p size four),
        )

    -- What reads as the terminator, or as a chunk, was sealed as that.
    read_terminator : read_chunk aes dek index file ≡ terminator → Sealed aes dek index [] file
    unfolding read_chunk
    read_terminator h =
        let (p, ok_p, zero_size) =
          judge_chunk-terminator size_field nonce_field body_field later_field h in
        let (n, size, same) = Passed-Sealed p ok_p in
        let empty : p ≡ [] = length-zero p (size ∙ zero_size) in
        ends nonce_field later_field n (rw empty at same)

    pub read_chunk_sealed :
        (p later : Bytes)
        → read_chunk aes dek index file ≡ chunk p later
        → (length nonce_field ≡ nonce_len)
          × (0 < length p)
          × (length p ≤ chunk_size)
          × (file ≡ framed aes dek nonce_field index p ++ later)
          × (IsBytes later)
    unfolding read_chunk
    read_chunk_sealed p later h =
        let (ok_p, some_bytes, rest) =
          judge_chunk-chunk size_field nonce_field body_field later_field p later h in
        let (n, size, same) = Passed-Sealed p ok_p in
        (
          n,
          omega arith,
          omega (arith, ok_p.size_fits),
          rw rest at same,
          subst IsBytes rest (
              IsBytes-drop (big_endian size_field + tag_len) sealed_rest
                (IsBytes-drop nonce_len (drop 4 file) (IsBytes-drop 4 file bytes))),
        )

module _ (aes : Aead) (dek : Bytes) where
  -- One round, with the claim for what follows it.
  round-Sealed :
      (k index : ℕ) (file : Bytes) (ps : List Bytes) (r : Chunk)
      → IsBytes file
      → ((later : Bytes) (qs : List Bytes)
          → IsBytes later
          → open_chunks aes k dek (index + 1) later ≡ (qs, clean)
          → Sealed aes dek (index + 1) qs later)
      → read_chunk aes dek index file ≡ r
      → open_chunks aes (suc k) dek index file ≡ (ps, clean)
      → Sealed aes dek index ps file
  round-Sealed k index file ps (bad e) b next read h =
      cc (ap (λ o. o.1) (sym (open_chunks_bad aes k dek index file e read) ∙ h))
  round-Sealed k index file ps terminator b next read h =
      let none_left : [] ≡ ps =
        ap (λ o. o.0) (sym (open_chunks_end aes k dek index file read) ∙ h) in
      rw (← none_left) (read_terminator aes dek index file b read)
  round-Sealed k index file ps (chunk p later) b next read h =
      let o = open_chunks aes k dek (index + 1) later in
      let opened = sym (open_chunks_more aes k dek index file p later read) ∙ h in
      let parts : p ∷ o.0 ≡ ps = ap (λ o. o.0) opened in
      let ended : o.1 ≡ clean = ap (λ o. o.1) opened in
      let (n, some_bytes, fits, same, bl) = read_chunk_sealed aes dek index file b p later read in
      rw (← parts) (
        goes_on (nonce_field aes dek index file b) p later n some_bytes fits same
          (next later o.0 bl (ap (λ e. (o.0, e)) ended)))

  -- A stream of bytes whose chunks open, one after the other up to the terminator, is made of just
  -- those chunks and a terminator, each encrypted under the data key with the magic bytes and its own
  -- index in the stream as associated data.
  pub open_chunks-Sealed :
      (k index : ℕ) (file : Bytes) (ps : List Bytes)
      → IsBytes file
      → open_chunks aes k dek index file ≡ (ps, clean)
      → Sealed aes dek index ps file
  unfolding open_chunks
  open_chunks-Sealed zero index file ps b h = cc (ap (λ o. o.1) h)
  open_chunks-Sealed (suc k) index file ps b h =
      round-Sealed k index file ps (read_chunk aes dek index file) b
        (open_chunks-Sealed k (index + 1)) refl h
