-- ===== src/Rekey/Opens.antt =====
-- What a file that `rekey_file` leaves opens to.
use pcap_server.Prelude.{
  ◌≡◌, refl, sym, ap, ◌∙◌, Bool, true, false, not, Bytes, ◌++◌, length, take, drop, bytes_eq,
  bytes_eq→eq, ◌==◌, ==→eq, if◌then◌else◌, inl, inr, ◌⊎◌, arith, drop-append, suc,
}
use pcap_server.Crypto.{
  Aead, Cryptor, Result, ok, err, CryptoError, magic, header_len, unwrap_dek, header_for_dek,
  open_stream, open_chunks,
}
use pcap_server.Crypto.Layout.{open_stream_ok}
use pcap_server.Rekey.{
  rekeyed, Answer, finished, is_passed_over, write_rekeyed, rewrap, unwrap_old, rekey_file,
}

module _ (aes : Aead) (old new : Cryptor) (file : Bytes) where
  -- The same data key under the new master key, and the same body.
  record IsMoved (out : Bytes) : Type 0 where
    pub dek : Bytes
    pub under_old : unwrap_dek aes old (take header_len file) ≡ ok dek
    pub under_new : unwrap_dek aes new (take header_len out) ≡ ok dek
    pub same_body : drop header_len out ≡ drop header_len file
    pub same_size : length out ≡ length file

  data IsSafe : Answer × Bytes → Type 0 where
    kept : {a : Answer} → IsSafe (a, file)
    moved : {out : Bytes} → IsMoved out → IsSafe (finished rekeyed, out)

  IsSafe-if :
      (b : Bool) {x y : Answer × Bytes}
      → (b ≡ true → IsSafe x)
      → (b ≡ false → IsSafe y)
      → IsSafe (if b then x else y)
  IsSafe-if true hx hy = hx refl
  IsSafe-if false hx hy = hy refl

  IsSafe-result :
      (r : Result Bytes) {x : CryptoError → Answer × Bytes} {y : Bytes → Answer × Bytes}
      → ((e : CryptoError) → r ≡ err e → IsSafe (x e))
      → ((a : Bytes) → r ≡ ok a → IsSafe (y a))
      → IsSafe (elim r [ err e ↦ x e | ok a ↦ y a ])
  IsSafe-result (ok a) hx hy = hy a refl
  IsSafe-result (err e) hx hy = hx e refl

  length-header_for_dek :
      (nonce dek header : Bytes)
      → header_for_dek aes new nonce dek ≡ ok header
      → length header ≡ header_len
  unfolding header_for_dek
  length-header_for_dek nonce dek header h = ground (arith, h)

  IsSafe-write_rekeyed :
      (dek header : Bytes)
      → unwrap_dek aes old (take header_len file) ≡ ok dek
      → length header ≡ header_len
      → IsSafe (write_rekeyed aes new dek header file)
  unfolding write_rekeyed
  IsSafe-write_rekeyed dek header opened size =
      let written = header ++ drop header_len file in
      IsSafe-result (unwrap_dek aes new (take header_len written)) (λ e _. kept)
        (λ again reads.
          IsSafe-if (not (bytes_eq again dek)) (λ _. kept)
            (λ same.
              IsSafe-if (not (length written == length file)) (λ _. kept)
                (λ fits. moved (record {
                  dek = dek;
                  under_old = opened;
                  under_new = reads ∙ ap ok (bytes_eq→eq again dek (ground (arith, same)));
                  same_body = drop-append header_len header (drop header_len file) size;
                  same_size = ==→eq (length written) (length file) (ground (arith, fits));
                }))))

  IsSafe-rewrap :
      (nonce : Bytes) (apply : Bool) (dek : Bytes)
      → unwrap_dek aes old (take header_len file) ≡ ok dek
      → IsSafe (rewrap aes new nonce apply dek file)
  unfolding rewrap
  IsSafe-rewrap nonce apply dek opened =
      IsSafe-result (header_for_dek aes new nonce dek) (λ e _. kept)
        (λ header made.
          IsSafe-result (unwrap_dek aes new header) (λ e _. kept)
            (λ again _.
              IsSafe-if (not (bytes_eq again dek)) (λ _. kept)
                (λ _.
                  IsSafe-if (not apply) (λ _. kept)
                    (λ _.
                      IsSafe-write_rekeyed dek header opened
                        (length-header_for_dek nonce dek header made)))))

  IsSafe-unwrap_old :
      (nonce : Bytes) (apply : Bool) → IsSafe (unwrap_old aes old new nonce apply file)
  unfolding unwrap_old
  IsSafe-unwrap_old nonce apply =
      IsSafe-result (unwrap_dek aes old (take header_len file)) (λ e _. kept)
        (λ dek opened. IsSafe-rewrap nonce apply dek opened)

  IsSafe-rekey_file :
      (nonce : Bytes) (apply : Bool) → IsSafe (rekey_file aes old new nonce apply file)
  unfolding rekey_file
  IsSafe-rekey_file nonce apply =
      IsSafe-if (not (bytes_eq (take 8 (take header_len file)) magic)) (λ _. kept)
        (λ _.
          IsSafe-result (unwrap_dek aes new (take header_len file))
            (λ e _. IsSafe-if (is_passed_over e) (λ _. IsSafe-unwrap_old nonce apply) (λ _. kept))
            (λ dek _. kept))

  open_stream-IsMoved :
      (out : Bytes) → IsMoved out → open_stream aes new out ≡ open_stream aes old file
  open_stream-IsMoved out m =
      open_stream_ok aes new out m.dek m.under_new
      ∙ ap (λ size. open_chunks aes (suc size) m.dek 0 (drop header_len out)) m.same_size
      ∙ ap (open_chunks aes (suc (length file)) m.dek 0) m.same_body
      ∙ sym (open_stream_ok aes old file m.dek m.under_old)

  safe :
      (r : Answer × Bytes)
      → IsSafe r
      → (r.1 ≡ file)
        ⊎ ((r.0 ≡ finished rekeyed) × (open_stream aes new r.1 ≡ open_stream aes old file))
  safe r kept = inl refl
  safe r (moved {out} m) = inr (refl, open_stream-IsMoved out m)

  -- Whatever the file, the keys and the nonce: `rekey_file` leaves the file as it was, or it returns
  -- "rekeyed" and the file opens under the new key to just what it opened to under the old one, the
  -- chunks and the ending.
  pub open_stream-rekey_file :
      (nonce : Bytes) (apply : Bool)
      → ((rekey_file aes old new nonce apply file).1 ≡ file)
        ⊎ (((rekey_file aes old new nonce apply file).0 ≡ finished rekeyed)
            × (open_stream aes new (rekey_file aes old new nonce apply file).1
                ≡ open_stream aes old file))
  open_stream-rekey_file nonce apply =
      safe (rekey_file aes old new nonce apply file) (IsSafe-rekey_file nonce apply)
