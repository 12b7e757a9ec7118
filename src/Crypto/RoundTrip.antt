-- ===== src/Crypto/RoundTrip.antt =====
-- `open_stream` and `open_bytes` on what `seal_chunks` and `seal_bytes` write.
use mathlib.Core.List.{append_assoc, append-nil}
use pcap_server.Prelude.{
  ℕ, zero, suc, ◌+◌, ◌≤◌, ◌<◌, ◌≡◌, refl, ap, ◌∙◌, List, [], ◌∷◌, ◌++◌, some, Bytes, length, take,
  drop, take-append, drop-append, length-append, length-take, length-drop, take-append-drop, join,
  arith, All,
}
use pcap_server.Crypto.{
  Aead, Cryptor, ok, clean, yield_first, chunk_size, dek_len, nonce_len, kek_id_len, header_len,
  seal_one, seal_from, seal_chunks, chunks_of, seal_bytes, open_chunks, open_stream, open_bytes,
  unwrap_dek,
}
use pcap_server.Crypto.Layout.{
  open_chunks_end, open_chunks_more, open_stream_ok, open_bytes_clean, read_sealed_end,
  read_sealed_more, length-seal_one, header_bytes, length-header_bytes, header_for_dek_ok,
  unwrap_dek-header_bytes,
}

-- The chunks that `seal_chunks` does not skip.
abbrev pub sealed_chunks : List Bytes → List Bytes
sealed_chunks [] = []
sealed_chunks ([] ∷ chunks) = sealed_chunks chunks
sealed_chunks ((b ∷ bs) ∷ chunks) = (b ∷ bs) ∷ sealed_chunks chunks

join-sealed_chunks : (chunks : List Bytes) → join (sealed_chunks chunks) ≡ join chunks
unfolding join
join-sealed_chunks [] = refl
join-sealed_chunks ([] ∷ chunks) = join-sealed_chunks chunks
join-sealed_chunks ((b ∷ bs) ∷ chunks) = ap (λ xs. (b ∷ bs) ++ xs) (join-sealed_chunks chunks)

abbrev pub FitChunks : List Bytes → Type 0
FitChunks = All (λ p. length p ≤ chunk_size)

abbrev pub Nonces : (ℕ → Bytes) → Type 0
Nonces nonces = (i : ℕ) → length (nonces i) ≡ nonce_len

module _ (aes : Aead) (nonces : ℕ → Bytes) (drawn : Nonces nonces) (dek : Bytes) where
  open-seal_from :
      (k index : ℕ) (chunks : List Bytes) (rest : Bytes)
      → length (sealed_chunks chunks) < k
      → FitChunks chunks
      → open_chunks aes k dek index (join (seal_from aes nonces dek index chunks) ++ rest)
        ≡ (sealed_chunks chunks, clean)
  unfolding seal_from join
  open-seal_from zero index chunks rest h fit = absurd (omega arith)
  open-seal_from (suc k) index [] rest h fit =
      let file = seal_one aes dek (nonces index) index [] in
      rw (append_assoc file [] rest) (
        open_chunks_end aes k dek index (file ++ rest)
          (read_sealed_end aes dek (nonces index) index rest (drawn index)))
  open-seal_from (suc k) index ([] ∷ chunks) rest h fit =
      open-seal_from (suc k) index chunks rest h fit.1
  open-seal_from (suc k) index ((b ∷ bs) ∷ chunks) rest h fit =
      let p = b ∷ bs in
      let file = seal_one aes dek (nonces index) index p in
      let later = join (seal_from aes nonces dek (index + 1) chunks) in
      let read =
        read_sealed_more aes dek (nonces index) index p (later ++ rest) (drawn index) (omega arith)
          fit.0 in
      rw (append_assoc file later rest) (
        open_chunks_more aes k dek index (file ++ (later ++ rest)) p (later ++ rest) read
        ∙ ap (yield_first p) (open-seal_from k (index + 1) chunks rest (omega arith) fit.1))

  length-join-seal_from :
      (index : ℕ) (chunks : List Bytes)
      → length (sealed_chunks chunks) < length (join (seal_from aes nonces dek index chunks))
  unfolding seal_from join
  length-join-seal_from index [] = omega (
    arith,
    length-append (seal_one aes dek (nonces index) index []) [],
    length-seal_one aes dek (nonces index) index [] (drawn index),
  )
  length-join-seal_from index ([] ∷ chunks) = length-join-seal_from index chunks
  length-join-seal_from index ((b ∷ bs) ∷ chunks) = omega (
    arith,
    length-append (seal_one aes dek (nonces index) index (b ∷ bs))
        (join (seal_from aes nonces dek (index + 1) chunks)),
    length-seal_one aes dek (nonces index) index (b ∷ bs) (drawn index),
    length-join-seal_from (index + 1) chunks,
  )

FitChunks-chunks_of : (k : ℕ) (xs : Bytes) → FitChunks (chunks_of k xs)
unfolding chunks_of
FitChunks-chunks_of zero xs = tt
FitChunks-chunks_of (suc k) [] = tt
FitChunks-chunks_of (suc k) (x ∷ xs) = (
  omega (arith, length-take chunk_size (x ∷ xs)),
  FitChunks-chunks_of k (drop chunk_size (x ∷ xs)),
)

join-chunks_of : (k : ℕ) (xs : Bytes) → length xs ≤ k → join (chunks_of k xs) ≡ xs
unfolding chunks_of join
join-chunks_of zero [] h = refl
join-chunks_of zero (x ∷ xs) h = absurd (omega arith)
join-chunks_of (suc k) [] h = refl
join-chunks_of (suc k) (x ∷ xs) h =
    ap (λ ys. take chunk_size (x ∷ xs) ++ ys)
      (join-chunks_of k (drop chunk_size (x ∷ xs)) (omega (arith, length-drop chunk_size (x ∷ xs))))
    ∙ take-append-drop chunk_size (x ∷ xs)

module _ (aes : Aead) (c : Cryptor) (nonce dek : Bytes) (nonces : ℕ → Bytes) where
  pub seal_chunks_ok :
      (chunks : List Bytes)
      → length c.kek_id ≡ kek_id_len
      → length nonce ≡ nonce_len
      → length dek ≡ dek_len
      → seal_chunks aes c nonce dek nonces chunks
        ≡ ok (header_bytes aes c nonce dek ∷ seal_from aes nonces dek 0 chunks)
  unfolding seal_chunks
  seal_chunks_ok chunks hk hn hd = rw (header_for_dek_ok aes c nonce dek hk hn hd)

  open_sealed :
      (chunks : List Bytes) (rest : Bytes)
      → length c.kek_id ≡ kek_id_len
      → length nonce ≡ nonce_len
      → Nonces nonces
      → length dek ≡ dek_len
      → FitChunks chunks
      → open_stream aes c
          (join (header_bytes aes c nonce dek ∷ seal_from aes nonces dek 0 chunks) ++ rest)
        ≡ (sealed_chunks chunks, clean)
  unfolding open_stream join
  open_sealed chunks rest hk hn drawn hd fit =
      let header = header_bytes aes c nonce dek in
      let body = join (seal_from aes nonces dek 0 chunks) in
      let size = length-header_bytes aes c nonce dek hk hn hd in
      let split : (header ++ body) ++ rest ≡ header ++ (body ++ rest) =
        append_assoc header body rest in
      let file = header ++ (body ++ rest) in
      let opened : unwrap_dek aes c (take header_len file) ≡ ok dek =
        ap (unwrap_dek aes c) (take-append header_len header (body ++ rest) size)
        ∙ unwrap_dek-header_bytes aes c nonce dek hk hn hd in
      rw split (
        open_stream_ok aes c file dek opened
        ∙ ap (open_chunks aes (suc (length file)) dek 0)
            (drop-append header_len header (body ++ rest) size)
        ∙ open-seal_from aes nonces drawn dek (suc (length file)) 0 chunks rest
            (omega (
              arith,
              length-append header (body ++ rest),
              length-append body rest,
              length-join-seal_from aes nonces drawn dek 0 chunks,
            ))
            fit)

  -- A sealed stream, with whatever stands behind its terminator, opens to the chunks that were
  -- sealed, the empty ones left out, and ends cleanly. It holds for every data key of 32 bytes and
  -- all nonces of 12, for chunks of at most CHUNK_SIZE bytes, under the same master key.
  pub open_stream-seal_chunks :
      (chunks parts : List Bytes) (rest : Bytes)
      → length c.kek_id ≡ kek_id_len
      → length nonce ≡ nonce_len
      → Nonces nonces
      → length dek ≡ dek_len
      → FitChunks chunks
      → seal_chunks aes c nonce dek nonces chunks ≡ ok parts
      → open_stream aes c (join parts ++ rest) ≡ (sealed_chunks chunks, clean)
  open_stream-seal_chunks chunks parts rest hk hn drawn hd fit sealed =
      let same : header_bytes aes c nonce dek ∷ seal_from aes nonces dek 0 chunks ≡ parts =
        cc (seal_chunks_ok chunks hk hn hd, sealed) in
      rw (← same) (open_sealed chunks rest hk hn drawn hd fit)

  -- Cutting a buffer into chunks of CHUNK_SIZE, sealing them, and opening the result gives the
  -- buffer back, for every buffer, data key of 32 bytes and nonces of 12.
  pub open_bytes-seal_bytes :
      (xs file : Bytes)
      → length c.kek_id ≡ kek_id_len
      → length nonce ≡ nonce_len
      → Nonces nonces
      → length dek ≡ dek_len
      → seal_bytes aes c nonce dek nonces xs ≡ ok file
      → open_bytes aes c file ≡ some (ok xs)
  unfolding seal_bytes
  open_bytes-seal_bytes xs file hk hn drawn hd sealed =
      let chunks = chunks_of (length xs) xs in
      let parts = header_bytes aes c nonce dek ∷ seal_from aes nonces dek 0 chunks in
      let same : join parts ≡ file = cc (seal_chunks_ok chunks hk hn hd, sealed) in
      let opened = open_sealed chunks [] hk hn drawn hd (FitChunks-chunks_of (length xs) xs) in
      rw (← same) (
        open_bytes_clean aes c (join parts) (sealed_chunks chunks) (rw append-nil at opened)
        ∙ ap (λ p. some (ok p))
            (join-sealed_chunks chunks ∙ join-chunks_of (length xs) xs (omega arith)))
