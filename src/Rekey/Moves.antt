-- ===== src/Rekey/Moves.antt =====
-- `rekey_file` on a file that is sealed under the old key.
use pcap_server.Prelude.{
  ◌≡◌, ap, ◌∙◌, true, false, Bytes, ◌++◌, length, take, drop, bytes_eq, bytes_eq_refl, ltb, arith,
  drop-append, take-append, length-append,
}
use pcap_server.Crypto.{
  Aead, Cryptor, ok, err, wrong_key, magic, header_len, kek_id_len, nonce_len, dek_len, unwrap_dek,
  header_for_dek,
}
use pcap_server.Crypto.Layout.{
  header_bytes, length-header_bytes, header_for_dek_ok, unwrap_dek-header_bytes,
}
use pcap_server.Rekey.{rekeyed, finished, write_rekeyed, rewrap, unwrap_old, rekey_file}

module _ (aes : Aead) (old new : Cryptor) (nonce later_nonce dek : Bytes) where
  unwrap_dek-other_key :
      length old.kek_id ≡ kek_id_len
      → length nonce ≡ nonce_len
      → length dek ≡ dek_len
      → bytes_eq old.kek_id new.kek_id ≡ false
      → unwrap_dek aes new (header_bytes aes old nonce dek) ≡ err wrong_key
  unfolding unwrap_dek
  unwrap_dek-other_key hk hn hd other =
      let wrapped = aes.encrypt old.kek nonce dek (magic ++ old.kek_id) in
      let long : ltb (length (header_bytes aes old nonce dek)) header_len ≡ false =
        ground (arith, length-header_bytes aes old nonce dek hk hn hd) in
      rw (long, bytes_eq_refl magic, take-append kek_id_len old.kek_id (nonce ++ wrapped) hk, other)

  write_rekeyed_ok :
      (header file : Bytes)
      → unwrap_dek aes new (take header_len (header ++ drop header_len file)) ≡ ok dek
      → length (header ++ drop header_len file) ≡ length file
      → write_rekeyed aes new dek header file ≡ (finished rekeyed, header ++ drop header_len file)
  unfolding write_rekeyed
  write_rekeyed_ok header file e size = ground (arith, e, size, bytes_eq_refl dek)

  rewrap_ok :
      (header file : Bytes)
      → header_for_dek aes new later_nonce dek ≡ ok header
      → unwrap_dek aes new header ≡ ok dek
      → rewrap aes new later_nonce true dek file ≡ write_rekeyed aes new dek header file
  unfolding rewrap
  rewrap_ok header file made e = ground (arith, made, e, bytes_eq_refl dek)

  rekey_file_ok :
      (file : Bytes)
      → bytes_eq (take 8 (take header_len file)) magic ≡ true
      → unwrap_dek aes new (take header_len file) ≡ err wrong_key
      → unwrap_dek aes old (take header_len file) ≡ ok dek
      → rekey_file aes old new later_nonce true file ≡ rewrap aes new later_nonce true dek file
  unfolding rekey_file unwrap_old
  rekey_file_ok file m e e' = ground (arith, m, e, e')

  -- A file sealed under the old key, whose id is not the new key's, is rekeyed: its body stays as it
  -- is behind a header for the new key, which carries the same data key. The ids have 16 bytes, the
  -- nonces 12 and the data key 32.
  pub rekey_file-header_bytes :
      (body : Bytes)
      → length old.kek_id ≡ kek_id_len
      → length new.kek_id ≡ kek_id_len
      → length nonce ≡ nonce_len
      → length later_nonce ≡ nonce_len
      → length dek ≡ dek_len
      → bytes_eq old.kek_id new.kek_id ≡ false
      → rekey_file aes old new later_nonce true (header_bytes aes old nonce dek ++ body)
        ≡ (finished rekeyed, header_bytes aes new later_nonce dek ++ body)
  rekey_file-header_bytes body ho hn nn ln hd other =
      let before = header_bytes aes old nonce dek in
      let after = header_bytes aes new later_nonce dek in
      let size_before = length-header_bytes aes old nonce dek ho nn hd in
      let size_after = length-header_bytes aes new later_nonce dek hn ln hd in
      let header : take header_len (before ++ body) ≡ before =
        take-append header_len before body size_before in
      let rest : drop header_len (before ++ body) ≡ body =
        drop-append header_len before body size_before in
      let reads = unwrap_dek-header_bytes aes new later_nonce dek hn ln hd in
      let reread : unwrap_dek aes new (take header_len (after ++ drop header_len (before ++ body)))
          ≡ ok dek =
        ap (unwrap_dek aes new)
          (take-append header_len after (drop header_len (before ++ body)) size_after)
        ∙ reads in
      let size : length (after ++ drop header_len (before ++ body)) ≡ length (before ++ body) =
        ap (λ b. length (after ++ b)) rest
        ∙ omega
            (arith, length-append after body, length-append before body, size_before, size_after) in
      rekey_file_ok (before ++ body)
        (ap (λ h. bytes_eq (take 8 h) magic) header ∙ bytes_eq_refl magic)
        (ap (unwrap_dek aes new) header ∙ unwrap_dek-other_key ho nn hd other)
        (ap (unwrap_dek aes old) header ∙ unwrap_dek-header_bytes aes old nonce dek ho nn hd)
      ∙ rewrap_ok after (before ++ body) (header_for_dek_ok aes new later_nonce dek hn ln hd) reads
      ∙ write_rekeyed_ok after (before ++ body) reread size
      ∙ ap (λ b. (finished rekeyed, after ++ b)) rest
