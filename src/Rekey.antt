-- ===== src/Rekey.antt =====
-- backend/rekey.py: moving one sealed file from one master key to another. The run over all files
-- is in the child Run.
-- The file is its bytes. Reading and writing it succeed: the errors of the file system are outside.
pub mod Opens
pub mod Moves
pub mod Run
pub mod Again
pub mod Examples
use pcap_server.Prelude.{
  Bool, true, false, not, ◌||◌, Bytes, ◌++◌, length, take, drop, bytes_eq, ◌==◌, if◌then◌else◌,
}
use pcap_server.Crypto.{
  Aead, Cryptor, Result, ok, err, CryptoError, wrong_key, not_encrypted, magic, header_len,
  unwrap_dek, header_for_dek,
}

pub data Status : Type 0 where
  rekeyed already plaintext : Status

-- What `rekey_file` returns or raises.
pub data Answer : Type 0 where
  finished : Status → Answer
  raised : CryptoError → Answer
  not_round_tripped verification_failed size_changed : Answer

-- `except (WrongKey, NotEncrypted): pass`
abbrev pub is_passed_over : CryptoError → Bool
is_passed_over wrong_key = true
is_passed_over not_encrypted = true
is_passed_over _ = false

module _ (aes : Aead) where
  -- The copy beside the file, its verification, and the swap. The second component is the file
  -- afterwards.
  unfoldable pub write_rekeyed : Cryptor → Bytes → Bytes → Bytes → Answer × Bytes
  write_rekeyed new dek new_header file =
      let written = new_header ++ drop header_len file in
      elim (unwrap_dek aes new (take header_len written)) [
        | err e ↦ (raised e, file)
        | ok again ↦
            if not (bytes_eq again dek)
            then (verification_failed, file)
            else if not (length written == length file)
            then (size_changed, file)
            else (finished rekeyed, written)
      ]

  -- From the old key's data key on: the new header, at the nonce that os.urandom gives.
  unfoldable pub rewrap : Cryptor → Bytes → Bool → Bytes → Bytes → Answer × Bytes
  rewrap new nonce apply dek file = elim (header_for_dek aes new nonce dek) [
    | err e ↦ (raised e, file)
    | ok new_header ↦ elim (unwrap_dek aes new new_header) [
      | err e ↦ (raised e, file)
      | ok again ↦
          if not (bytes_eq again dek)
          then (not_round_tripped, file)
          else if not apply
          then (finished rekeyed, file)
          else write_rekeyed new dek new_header file
    ]
  ]

  unfoldable pub unwrap_old : Cryptor → Cryptor → Bytes → Bool → Bytes → Answer × Bytes
  unwrap_old old new nonce apply file = elim (unwrap_dek aes old (take header_len file)) [
    | err e ↦ (raised e, file)
    | ok dek ↦ rewrap new nonce apply dek file
  ]

  unfoldable pub rekey_file : Cryptor → Cryptor → Bytes → Bool → Bytes → Answer × Bytes
  rekey_file old new nonce apply file =
      let header = take header_len file in
      if not (bytes_eq (take 8 header) magic)
      then (finished plaintext, file)
      else elim (unwrap_dek aes new header) [
        | ok dek ↦ (finished already, file)
        | err e ↦ if is_passed_over e then unwrap_old old new nonce apply file else (raised e, file)
      ]
