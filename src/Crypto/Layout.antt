-- ===== src/Crypto/Layout.antt =====
-- How the fields of a sealed chunk and of a header are read back.
use mathlib.Core.List.{append_assoc}
use pcap_server.Prelude.{
  ℕ, suc, ◌+◌, ◌≤◌, ◌<◌, ◌≡◌, ap, ◌∙◌, false, if◌then◌else◌, bytes_eq_refl, List, [], ◌++◌, some,
  Bytes, ltb, ◌==◌, length, join, take, drop, length-take, take-append, take_all, drop-append,
  drop-append_past, length-append, be_bytes, length-be_bytes, big_endian-be_bytes, arith,
}
use pcap_server.Crypto.{
  CryptoError, not_encrypted, bad, failed, open_stream, open_bytes, join_opened, open_chunks, clean,
  yield_first, Aead, terminator, chunk, chunk_size, tag_len, nonce_len, chunk_aad, seal_one,
  judge_chunk, read_chunk, Cryptor, ok, header_len, dek_len, wrapped_dek_len, kek_id_len,
  header_for_dek, unwrap_dek, magic,
}

module _ (aes : Aead) where
  read_chunk-seal_one :
      (dek nonce : Bytes) (index : ℕ) (p rest : Bytes)
      → length nonce ≡ nonce_len
      → length p ≤ chunk_size
      → read_chunk aes dek index (seal_one aes dek nonce index p ++ rest)
        ≡ judge_chunk aes dek index
            (be_bytes 4 (length p))
            nonce
            (aes.encrypt dek nonce p (chunk_aad index))
            rest
  unfolding read_chunk seal_one
  read_chunk-seal_one dek nonce index p rest hn hp =
      let size = be_bytes 4 (length p) in
      let body = aes.encrypt dek nonce p (chunk_aad index) in
      let split : (size ++ (nonce ++ body)) ++ rest ≡ size ++ (nonce ++ (body ++ rest)) =
        simp append_assoc in
      rw (
        split,
        take-append 4 size (nonce ++ (body ++ rest)) (length-be_bytes 4 (length p)),
        drop-append 4 size (nonce ++ (body ++ rest)) (length-be_bytes 4 (length p)),
        take-append nonce_len nonce (body ++ rest) hn,
        drop-append nonce_len nonce (body ++ rest) hn,
        big_endian-be_bytes (length p) (omega arith),
        take-append (length p + tag_len) body rest
            (aes.length-encrypt dek nonce p (chunk_aad index)),
        drop-append (length p + tag_len) body rest
            (aes.length-encrypt dek nonce p (chunk_aad index)),
      )

  judge_chunk-sealed :
      (dek nonce : Bytes) (index : ℕ) (p rest : Bytes)
      → length nonce ≡ nonce_len
      → length p ≤ chunk_size
      → judge_chunk aes dek index
          (be_bytes 4 (length p))
          nonce
          (aes.encrypt dek nonce p (chunk_aad index))
          rest
        ≡ (if length p == 0 then terminator else chunk p rest)
  unfolding judge_chunk
  judge_chunk-sealed dek nonce index p rest hn hp = ground (
    arith,
    length-be_bytes 4 (length p),
    big_endian-be_bytes (length p) (omega arith),
    aes.length-encrypt dek nonce p (chunk_aad index),
    aes.decrypt-encrypt dek nonce p (chunk_aad index),
  )

  pub read_sealed :
      (dek nonce : Bytes) (index : ℕ) (p rest : Bytes)
      → length nonce ≡ nonce_len
      → length p ≤ chunk_size
      → read_chunk aes dek index (seal_one aes dek nonce index p ++ rest)
        ≡ (if length p == 0 then terminator else chunk p rest)
  read_sealed dek nonce index p rest hn hp =
      read_chunk-seal_one dek nonce index p rest hn hp
      ∙ judge_chunk-sealed dek nonce index p rest hn hp

  pub read_sealed_end :
      (dek nonce : Bytes) (index : ℕ) (rest : Bytes)
      → length nonce ≡ nonce_len
      → read_chunk aes dek index (seal_one aes dek nonce index [] ++ rest) ≡ terminator
  read_sealed_end dek nonce index rest hn = read_sealed dek nonce index [] rest hn (omega arith)

  pub read_sealed_more :
      (dek nonce : Bytes) (index : ℕ) (p rest : Bytes)
      → length nonce ≡ nonce_len
      → 0 < length p
      → length p ≤ chunk_size
      → read_chunk aes dek index (seal_one aes dek nonce index p ++ rest) ≡ chunk p rest
  read_sealed_more dek nonce index p rest hn some_bytes hp =
      read_sealed dek nonce index p rest hn hp ∙ ground arith

  pub length-seal_one :
      (dek nonce : Bytes) (index : ℕ) (p : Bytes)
      → length nonce ≡ nonce_len
      → length (seal_one aes dek nonce index p) ≡ 32 + length p
  unfolding seal_one
  length-seal_one dek nonce index p hn =
      let body = aes.encrypt dek nonce p (chunk_aad index) in
      omega (
        arith,
        length-append (be_bytes 4 (length p)) (nonce ++ body),
        length-append nonce body,
        length-be_bytes 4 (length p),
        aes.length-encrypt dek nonce p (chunk_aad index),
      )

  abbrev pub header_bytes : Cryptor → Bytes → Bytes → Bytes
  header_bytes c nonce dek =
      magic ++ (c.kek_id ++ (nonce ++ aes.encrypt c.kek nonce dek (magic ++ c.kek_id)))

  pub length-header_bytes :
      (c : Cryptor) (nonce dek : Bytes)
      → length c.kek_id ≡ kek_id_len
      → length nonce ≡ nonce_len
      → length dek ≡ dek_len
      → length (header_bytes c nonce dek) ≡ header_len
  length-header_bytes c nonce dek hk hn hd =
      let wrapped = aes.encrypt c.kek nonce dek (magic ++ c.kek_id) in
      omega (
        arith,
        length-append c.kek_id (nonce ++ wrapped),
        length-append nonce wrapped,
        aes.length-encrypt c.kek nonce dek (magic ++ c.kek_id),
      )

  -- With an id, a nonce and a data key of the right lengths the header is built.
  pub header_for_dek_ok :
      (c : Cryptor) (nonce dek : Bytes)
      → length c.kek_id ≡ kek_id_len
      → length nonce ≡ nonce_len
      → length dek ≡ dek_len
      → header_for_dek aes c nonce dek ≡ ok (header_bytes c nonce dek)
  unfolding header_for_dek
  header_for_dek_ok c nonce dek hk hn hd = ground (arith, length-header_bytes c nonce dek hk hn hd)

  -- A header opens to the data key that it was made for.
  pub unwrap_dek-header_bytes :
      (c : Cryptor) (nonce dek : Bytes)
      → length c.kek_id ≡ kek_id_len
      → length nonce ≡ nonce_len
      → length dek ≡ dek_len
      → unwrap_dek aes c (header_bytes c nonce dek) ≡ ok dek
  unfolding unwrap_dek
  unwrap_dek-header_bytes c nonce dek hk hn hd =
      let wrapped = aes.encrypt c.kek nonce dek (magic ++ c.kek_id) in
      let whole : length wrapped ≡ wrapped_dek_len =
        omega (arith, aes.length-encrypt c.kek nonce dek (magic ++ c.kek_id)) in
      let long : ltb (length (header_bytes c nonce dek)) header_len ≡ false =
        ground (arith, length-header_bytes c nonce dek hk hn hd) in
      rw (
        long,
        bytes_eq_refl magic,
        take-append kek_id_len c.kek_id (nonce ++ wrapped) hk,
        bytes_eq_refl c.kek_id,
        drop-append 16 c.kek_id (nonce ++ wrapped) hk,
        drop-append_past 28 12 c.kek_id (nonce ++ wrapped) (omega arith),
        take-append nonce_len nonce wrapped hn,
        drop-append 12 nonce wrapped hn,
        take_all wrapped_dek_len wrapped whole,
        aes.decrypt-encrypt c.kek nonce dek (magic ++ c.kek_id),
      )

  pub open_chunks_bad :
      (k : ℕ) (dek : Bytes) (index : ℕ) (rest : Bytes) (e : CryptoError)
      → read_chunk aes dek index rest ≡ bad e
      → open_chunks aes (suc k) dek index rest ≡ ([], failed e)
  unfolding open_chunks
  open_chunks_bad k dek index rest e read = ground (arith, read)

  pub open_chunks_end :
      (k : ℕ) (dek : Bytes) (index : ℕ) (rest : Bytes)
      → read_chunk aes dek index rest ≡ terminator
      → open_chunks aes (suc k) dek index rest ≡ ([], clean)
  unfolding open_chunks
  open_chunks_end k dek index rest e = ground (arith, e)

  pub open_chunks_more :
      (k : ℕ) (dek : Bytes) (index : ℕ) (rest p later : Bytes)
      → read_chunk aes dek index rest ≡ chunk p later
      → open_chunks aes (suc k) dek index rest
        ≡ yield_first p (open_chunks aes k dek (index + 1) later)
  unfolding open_chunks
  open_chunks_more k dek index rest p later e = ground (arith, e)

  pub open_stream_ok :
      (c : Cryptor) (file dek : Bytes)
      → unwrap_dek aes c (take header_len file) ≡ ok dek
      → open_stream aes c file ≡ open_chunks aes (suc (length file)) dek 0 (drop header_len file)
  unfolding open_stream
  open_stream_ok c file dek e = ground (arith, e)

  pub open_bytes_clean :
      (c : Cryptor) (file : Bytes) (chunks : List Bytes)
      → open_stream aes c file ≡ (chunks, clean)
      → open_bytes aes c file ≡ some (ok (join chunks))
  unfolding open_bytes
  open_bytes_clean c file chunks e = ap join_opened e

  pub open_stream_short :
      (c : Cryptor) (file : Bytes)
      → length file < header_len
      → open_stream aes c file ≡ ([], failed not_encrypted)
  unfolding open_stream unwrap_dek
  open_stream_short c file h = ground (arith, length-take header_len file)
