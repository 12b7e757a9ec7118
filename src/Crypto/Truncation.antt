-- ===== src/Crypto/Truncation.antt =====
-- `open_stream` on a sealed file that is cut short.
use mathlib.Core.List.{append_assoc}
use pcap_server.Prelude.{
  ℕ, zero, suc, ◌+◌, ◌≤◌, ◌<◌, ◌≡◌, ◌≢◌, refl, ap, sym, ◌∙◌, List, [], ◌∷◌, ◌++◌, Bytes, IsBytes,
  IsBytes-drop, length, take, drop, take-append, take-append_le, drop-append, drop-append_le,
  length-append, length-drop, join, arith, dec_lt,
}
use pcap_server.Crypto.{
  Aead, Cryptor, ok, CryptoError, not_encrypted, clean, out_of_fuel, failed, Opened, dek_len,
  nonce_len, kek_id_len, header_len, seal_one, seal_from, seal_chunks, Chunk, bad, terminator,
  chunk, read_chunk, open_chunks, open_stream, unwrap_dek,
}
use pcap_server.Crypto.Layout.{
  read_sealed_end, read_sealed_more, length-seal_one, header_bytes, length-header_bytes,
  unwrap_dek-header_bytes, open_chunks_bad, open_chunks_end, open_chunks_more, open_stream_ok,
  open_stream_short,
}
use pcap_server.Crypto.RoundTrip.{FitChunks, Nonces, seal_chunks_ok}
use pcap_server.Crypto.Authentic.{
  framed-seal_one, Sealed, ends, goes_on, read_chunk_sealed, open_chunks-Sealed,
}

-- How an opening ended, other than cleanly: with an exception.
abbrev pub Raises : Opened → Type 0
Raises o = (e : CryptoError) × (o.1 ≡ failed e)

raises : (o : Opened) → o.1 ≢ clean → o.1 ≢ out_of_fuel → Raises o
raises (ps, clean) not_clean not_fuel = absurd (not_clean refl)
raises (ps, out_of_fuel) not_clean not_fuel = absurd (not_fuel refl)
raises (ps, failed e) not_clean not_fuel = (e, refl)

module _ (aes : Aead) (dek : Bytes) where
  -- The loop consumes what it reads, so it does not run out of fuel.
  ending-cases :
      (k index : ℕ) (file : Bytes) (r : Chunk)
      → IsBytes file
      → length file < suc k
      → ((later : Bytes)
          → IsBytes later
          → length later < k
          → (open_chunks aes k dek (index + 1) later).1 ≢ out_of_fuel)
      → read_chunk aes dek index file ≡ r
      → (open_chunks aes (suc k) dek index file).1 ≢ out_of_fuel
  ending-cases k index file (bad e) b room next read h =
      cc (ap (λ o. o.1) (open_chunks_bad aes k dek index file e read), h)
  ending-cases k index file terminator b room next read h =
      cc (ap (λ o. o.1) (open_chunks_end aes k dek index file read), h)
  ending-cases k index file (chunk p later) b room next read h =
      let (n, some_bytes, fits, same, bl) = read_chunk_sealed aes dek index file b p later read in
      let nonce = take nonce_len (drop 4 file) in
      next later bl
        (omega (
          arith,
          ap length (framed-seal_one aes dek _ nonce index p later same),
          length-append (seal_one aes dek nonce index p) later,
          length-seal_one aes dek nonce index p n,
        ))
        (sym (ap (λ o. o.1) (open_chunks_more aes k dek index file p later read)) ∙ h)

  open_chunks-ends :
      (k index : ℕ) (file : Bytes)
      → IsBytes file
      → length file < k
      → (open_chunks aes k dek index file).1 ≢ out_of_fuel
  open_chunks-ends zero index file b room h = absurd (omega arith)
  open_chunks-ends (suc k) index file b room h =
      ending-cases k index file (read_chunk aes dek index file) b room
        (open_chunks-ends k (index + 1)) refl h

length-Sealed :
    {aes : Aead} {dek : Bytes} {index : ℕ} {ps : List Bytes} {file : Bytes}
    → Sealed aes dek index ps file
    → 32 ≤ length file
length-Sealed {aes} {dek} {index} (ends nonce rest n same) = omega (
  arith,
  ap length (framed-seal_one aes dek _ nonce index [] rest same),
  length-append (seal_one aes dek nonce index []) rest,
  length-seal_one aes dek nonce index [] n,
)
length-Sealed {aes} {dek} {index} (goes_on nonce p later n some_bytes fits same next) = omega (
  arith,
  ap length (framed-seal_one aes dek _ nonce index p later same),
  length-append (seal_one aes dek nonce index p) later,
  length-seal_one aes dek nonce index p n,
)

join_parts : {x : Bytes} {xs ys : List Bytes} → x ∷ xs ≡ ys → x ++ join xs ≡ join ys
unfolding join
join_parts e = ap join e

regroup : {part : Bytes} (a b rest : Bytes) → part ≡ a ++ b → part ++ rest ≡ a ++ (b ++ rest)
regroup a b rest e = ap (λ xs. xs ++ rest) e ∙ append_assoc a b rest

module _ (aes : Aead) (dek : Bytes) (nonces : ℕ → Bytes) (drawn : Nonces nonces) where
  -- What a sealed stream is made of is no proper part of another one.
  prefix_not-Sealed :
      (chunks : List Bytes) (index : ℕ) (ps : List Bytes) (part : Bytes) (x : ℕ) (lost : Bytes)
      → FitChunks chunks
      → join (seal_from aes nonces dek index chunks) ≡ part ++ x ∷ lost
      → Sealed aes dek index ps part
      → ⊥
  unfolding seal_from join
  prefix_not-Sealed [] index ps part x lost fit same sealed =
      let file = seal_one aes dek (nonces index) index [] in
      absurd (
        omega (
          arith,
          ap length same,
          length-append file [],
          length-append part (x ∷ lost),
          length-seal_one aes dek (nonces index) index [] (drawn index),
          length-Sealed sealed,
        ))
  prefix_not-Sealed ([] ∷ chunks) index ps part x lost fit same sealed =
      prefix_not-Sealed chunks index ps part x lost fit.1 same sealed
  prefix_not-Sealed ((b ∷ bs) ∷ chunks) index ps part x lost fit same (ends nonce rest n is_part) =
      let later = join (seal_from aes nonces dek (index + 1) chunks) in
      let file =
        same
        ∙ regroup (seal_one aes dek nonce index []) rest (x ∷ lost)
            (framed-seal_one aes dek _ nonce index [] rest is_part) in
      cc (
        read_sealed_more aes dek (nonces index) index (b ∷ bs) later (drawn index) (omega arith)
            fit.0,
        ap (read_chunk aes dek index) file,
        read_sealed_end aes dek nonce index (rest ++ x ∷ lost) n,
      )
  prefix_not-Sealed ((b ∷ bs) ∷ chunks) index ps part x lost fit same
        (goes_on nonce p later n some_bytes fits is_part next) =
      let sealed_later = join (seal_from aes nonces dek (index + 1) chunks) in
      let same_read =
        sym (
          read_sealed_more aes dek (nonces index) index (b ∷ bs) sealed_later (drawn index)
            (omega arith) fit.0)
        ∙ ap (read_chunk aes dek index) (
            same
            ∙ regroup (seal_one aes dek nonce index p) later (x ∷ lost)
                (framed-seal_one aes dek _ nonce index p later is_part))
        ∙ read_sealed_more aes dek nonce index p (later ++ x ∷ lost) n some_bytes fits in
      prefix_not-Sealed chunks (index + 1) _ later x lost fit.1 (cc same_read) next

  open_rest-Raises :
      (chunks : List Bytes) (k : ℕ) (part : Bytes) (x : ℕ) (lost : Bytes)
      → FitChunks chunks
      → IsBytes part
      → length part < k
      → join (seal_from aes nonces dek 0 chunks) ≡ part ++ x ∷ lost
      → Raises (open_chunks aes k dek 0 part)
  open_rest-Raises chunks k part x lost fit bytes room cut =
      raises (open_chunks aes k dek 0 part)
        (λ e. prefix_not-Sealed chunks 0 _ part x lost fit cut (
          open_chunks-Sealed aes dek k 0 part (open_chunks aes k dek 0 part).0 bytes
            (ap (λ ending. ((open_chunks aes k dek 0 part).0, ending)) e)))
        (open_chunks-ends aes dek k 0 part bytes room)

  -- A sealed file with its end cut off raises when it is opened, wherever the cut is: in the header,
  -- in a chunk, between two chunks or in the terminator.
  pub open_stream_truncated :
      (c : Cryptor) (nonce : Bytes) (chunks parts : List Bytes) (part : Bytes) (x : ℕ)
      (lost : Bytes)
      → length c.kek_id ≡ kek_id_len
      → length nonce ≡ nonce_len
      → length dek ≡ dek_len
      → FitChunks chunks
      → IsBytes part
      → seal_chunks aes c nonce dek nonces chunks ≡ ok parts
      → join parts ≡ part ++ x ∷ lost
      → Raises (open_stream aes c part)
  open_stream_truncated c nonce chunks parts part x lost hk hn hd fit bytes sealed cut =
      elim (dec_lt (length part) header_len) [
        | yes short ↦ (not_encrypted, ap (λ o. o.1) (open_stream_short aes c part short))
        | no long ↦
            let header = header_bytes aes c nonce dek in
            let body = join (seal_from aes nonces dek 0 chunks) in
            let all_parts : header ∷ seal_from aes nonces dek 0 chunks ≡ parts =
              cc (seal_chunks_ok aes c nonce dek nonces chunks hk hn hd, sealed) in
            let same : header ++ body ≡ part ++ x ∷ lost = join_parts all_parts ∙ cut in
            let whole : header_len ≤ length part = omega arith in
            let size = length-header_bytes aes c nonce dek hk hn hd in
            let head : take header_len part ≡ header =
              sym (take-append_le header_len part (x ∷ lost) whole)
              ∙ ap (take header_len) (sym same)
              ∙ take-append header_len header body size in
            let rest : body ≡ drop header_len part ++ x ∷ lost =
              sym (drop-append header_len header body size)
              ∙ ap (drop header_len) same
              ∙ drop-append_le header_len part (x ∷ lost) whole in
            let opened =
              ap (unwrap_dek aes c) head ∙ unwrap_dek-header_bytes aes c nonce dek hk hn hd in
            rw (open_stream_ok aes c part dek opened) (
              open_rest-Raises chunks (suc (length part)) (drop header_len part) x lost fit
                (IsBytes-drop header_len part bytes) (omega (arith, length-drop header_len part))
                rest)
      ]
