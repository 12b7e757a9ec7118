-- ===== src/Vault/Migration.antt =====
-- backend/vault.py: migrate_plaintext, which seals the captures that are stored in the clear, with
-- the states of the disk that it passes through.
use pcap_server.Prelude.{
  ℕ, ◌≡◌, refl, ap, ◌∙◌, Bool, true, false, not, List, [], ◌∷◌, ◌++◌, Option, none, some, Bytes,
  bytes_eq, bytes_eq→eq, bytes_eq_refl, All, ◌⊎◌, inl, inr, length, if◌then◌else◌,
}
use pcap_server.Crypto.{
  Aead, Cryptor, Result, ok, err, seal_bytes, open_bytes, kek_id_len, nonce_len, dek_len,
}
use pcap_server.Crypto.RoundTrip.{Nonces, open_bytes-seal_bytes}

-- What is stored of one capture: `x.pcap`, `x.pcap.enc.partial` and `x.pcap.enc`.
pub record Stored : Type 0 where
  pub plain : Option Bytes
  pub partial : Option Bytes
  pub sealed : Option Bytes

-- Where OSError is raised: in seal_file, with what it left of the copy; on reading the copy; on the
-- replacement; on removing the original.
pub data Fault : Type 0 where
  nowhere reading replacing unlinking : Fault
  sealing : Option Bytes → Fault

-- What os.urandom gives for one file.
pub record Drawn : Type 0 where
  pub nonce : Bytes
  pub dek : Bytes
  pub nonces : ℕ → Bytes

-- Whether the capture counts as done, and the states of the disk, in order. A crash leaves one.
abbrev pub Moved : Type 0
Moved = Bool × List Stored

-- The handler: the copy is removed.
unfoldable pub give_up : List Stored → Stored → Moved
give_up before s = (false, before ++ (s ∷ record s { partial = none } ∷ []))

-- From the verified copy on: `tmp.replace(target)` and `path.unlink()`.
unfoldable pub swap_in : Fault → Bytes → Stored → Moved
swap_in replacing copy s = give_up [] s
swap_in unlinking copy s = give_up (s ∷ []) (record s { partial = none; sealed = some copy })
swap_in fault copy s = (
  true,
  s
      ∷ record s { partial = none; sealed = some copy }
      ∷ record s { plain = none; partial = none; sealed = some copy }
      ∷ [],
)

-- `open_bytes(tmp) != path.read_bytes()`, and its errors.
unfoldable pub verify_copy : Fault → Bytes → Bytes → Stored → Option (Result Bytes) → Moved
verify_copy fault xs copy s (some (ok ys)) =
    if not (bytes_eq ys xs) then give_up [] s else swap_in fault copy s
verify_copy fault xs copy s opened = give_up [] s

module _ (aes : Aead) (c : Cryptor) where
  -- From the copy on. `disk` is what the file system holds of what was written to it. The ValueError
  -- of header_for_dek passes through as a failure; os.urandom gives the 32 bytes that it asks for.
  unfoldable pub check_copy : (Bytes → Bytes) → Fault → Bytes → Stored → Result Bytes → Moved
  check_copy disk fault xs s (err e) = give_up [] (record s { partial = some [] })
  check_copy disk (sealing left) xs s (ok file) = give_up [] (record s { partial = left })
  check_copy disk reading xs s (ok file) = give_up [] (record s { partial = some (disk file) })
  check_copy disk fault xs s (ok file) =
      verify_copy fault xs (disk file) (record s { partial = some (disk file) })
        (open_bytes aes c (disk file))

  -- One round of `migrate_plaintext`, for a file that holds `xs`.
  unfoldable pub migrate_one : Drawn → (Bytes → Bytes) → Fault → Bytes → Stored → Moved
  migrate_one drawn disk fault xs s =
      check_copy disk fault xs s (seal_bytes aes c drawn.nonce drawn.dek drawn.nonces xs)

  -- The capture can be read: the original is there, or a sealed copy that opens to it.
  abbrev pub Readable : Bytes → Stored → Type 0
  Readable xs s =
      (s.plain ≡ some xs)
      ⊎ ((file : Bytes) × (s.sealed ≡ some file) × (open_bytes aes c file ≡ some (ok xs)))

  module _ (xs : Bytes) where
    All-give_up :
        (before : List Stored) (s : Stored)
        → All (Readable xs) before
        → s.plain ≡ some xs
        → All (Readable xs) (give_up before s).1
    unfolding give_up
    All-give_up [] s h k = (inl k, (inl k, tt))
    All-give_up (b ∷ before) s h k = (h.0, All-give_up before s h.1 k)

    All-swap_in :
        (fault : Fault) (copy : Bytes) (s : Stored)
        → s.plain ≡ some xs
        → open_bytes aes c copy ≡ some (ok xs)
        → All (Readable xs) (swap_in fault copy s).1
    unfolding swap_in
    All-swap_in nowhere copy s k e = (inl k, (inl k, (inr (copy, refl, e), tt)))
    All-swap_in reading copy s k e = (inl k, (inl k, (inr (copy, refl, e), tt)))
    All-swap_in (sealing left) copy s k e = (inl k, (inl k, (inr (copy, refl, e), tt)))
    All-swap_in replacing copy s k e = All-give_up [] s tt k
    All-swap_in unlinking copy s k e = All-give_up (s ∷ []) _ (inl k, tt) k

    All-verify_copy :
        (fault : Fault) (copy : Bytes) (s : Stored) (opened : Option (Result Bytes))
        → s.plain ≡ some xs
        → open_bytes aes c copy ≡ opened
        → All (Readable xs) (verify_copy fault xs copy s opened).1
    unfolding verify_copy
    All-verify_copy fault copy s none k e = All-give_up [] s tt k
    All-verify_copy fault copy s (some (err x)) k e = All-give_up [] s tt k
    All-verify_copy fault copy s (some (ok ys)) k e = compared (bytes_eq ys xs) refl
      where
        compared :
            (b : Bool)
            → bytes_eq ys xs ≡ b
            → All (Readable xs) (if not b then give_up [] s else swap_in fault copy s).1
        compared false other = All-give_up [] s tt k
        compared true same =
            All-swap_in fault copy s k (e ∙ ap (λ zs. some (ok zs)) (bytes_eq→eq ys xs same))

    All-check_copy :
        (disk : Bytes → Bytes) (fault : Fault) (s : Stored) (made : Result Bytes)
        → s.plain ≡ some xs
        → All (Readable xs) (check_copy disk fault xs s made).1
    unfolding check_copy
    All-check_copy disk fault s (err x) k = All-give_up [] _ tt k
    All-check_copy disk (sealing left) s (ok file) k = All-give_up [] _ tt k
    All-check_copy disk reading s (ok file) k = All-give_up [] _ tt k
    All-check_copy disk nowhere s (ok file) k = All-verify_copy nowhere _ _ _ k refl
    All-check_copy disk replacing s (ok file) k = All-verify_copy replacing _ _ _ k refl
    All-check_copy disk unlinking s (ok file) k = All-verify_copy unlinking _ _ _ k refl

-- Whatever fault there is, and whatever the disk makes of the sealed copy, the capture can be read
-- in every state that its migration passes through: a crash in any of them loses nothing.
pub All-migrate_one :
    (aes : Aead) (c : Cryptor) (drawn : Drawn) (disk : Bytes → Bytes) (fault : Fault) (xs : Bytes)
    (s : Stored)
    → s.plain ≡ some xs
    → All (Readable aes c xs) (migrate_one aes c drawn disk fault xs s).1
unfolding migrate_one
All-migrate_one aes c drawn disk fault xs s h =
    All-check_copy aes c xs disk fault s (seal_bytes aes c drawn.nonce drawn.dek drawn.nonces xs) h

-- Without a fault, on a disk that holds what was written to it, the migration of a capture is done:
-- the original is replaced by what seal_bytes makes of it, in that order, and no copy is left over.
pub migrate_one_done :
    (aes : Aead) (c : Cryptor) (drawn : Drawn) (xs file : Bytes) (s : Stored)
    → length c.kek_id ≡ kek_id_len
    → length drawn.nonce ≡ nonce_len
    → Nonces drawn.nonces
    → length drawn.dek ≡ dek_len
    → seal_bytes aes c drawn.nonce drawn.dek drawn.nonces xs ≡ ok file
    → migrate_one aes c drawn (λ written. written) Fault.nowhere xs s ≡ (
      true,
      record s { partial = some file }
          ∷ record s { partial = none; sealed = some file }
          ∷ record { plain = none; partial = none; sealed = some file }
          ∷ [],
    )
unfolding migrate_one check_copy verify_copy swap_in
migrate_one_done aes c drawn xs file s hk hn hd hl made =
    let opened =
      open_bytes-seal_bytes aes c drawn.nonce drawn.dek drawn.nonces xs file hk hn hd hl made in
    let same = bytes_eq_refl xs in rw (made, opened, same)
