-- ===== src/Rekey/Again.antt =====
-- A run of rekey_all that succeeds leaves nothing for a second run to do.
use pcap_server.Prelude.{
  ◌≡◌, refl, ap, ◌∙◌, subst, Bool, true, false, not, List, [], ◌∷◌, ◌++◌, Option, none, some, Bytes,
  Text, length, take, drop, bytes_eq, ◌==◌, if◌then◌else◌, any_of, Bool-cases, ◌⊎◌, inl, inr, arith,
}
use pcap_server.Crypto.{
  Aead, Cryptor, Result, ok, err, CryptoError, magic, header_len, unwrap_dek, header_for_dek,
}
use pcap_server.Rekey.{
  Status, rekeyed, already, plaintext, Answer, finished, write_rekeyed, rewrap, unwrap_old,
  rekey_file, is_passed_over,
}
use pcap_server.Rekey.Run.{
  File, Outcome, no_outcome, Run, ran, refused, enter, enter_run, rekey_each, rekey_all, same_key,
  no_sealed_files, live_writes, is_live,
}

module _ (aes : Aead) (old new : Cryptor) where
  -- The file is not sealed, or its header opens under the new key.
  abbrev Settled : Bytes → Type 0
  Settled file =
      (bytes_eq (take 8 (take header_len file)) magic ≡ false)
      ⊎ ((dek : Bytes) × (unwrap_dek aes new (take header_len file) ≡ ok dek))

  abbrev SettledIf : Answer × Bytes → Type 0
  SettledIf (finished status, file) = Settled file
  SettledIf (answer, file) = Unit

  SettledIf-if :
      (b : Bool) (x y : Answer × Bytes)
      → (b ≡ true → SettledIf x)
      → (b ≡ false → SettledIf y)
      → SettledIf (if b then x else y)
  SettledIf-if true x y f g = f refl
  SettledIf-if false x y f g = g refl

  SettledIf-result :
      (r : Result Bytes) (x : CryptoError → Answer × Bytes) (y : Bytes → Answer × Bytes)
      → ((e : CryptoError) → r ≡ err e → SettledIf (x e))
      → ((dek : Bytes) → r ≡ ok dek → SettledIf (y dek))
      → SettledIf (elim r [ err e ↦ x e | ok dek ↦ y dek ])
  SettledIf-result (ok dek) x y f g = g dek refl
  SettledIf-result (err e) x y f g = f e refl

  SettledIf-write_rekeyed :
      (dek header file : Bytes) → SettledIf (write_rekeyed aes new dek header file)
  unfolding write_rekeyed
  SettledIf-write_rekeyed dek header file =
      SettledIf-result (unwrap_dek aes new (take header_len (header ++ drop header_len file))) _ _
        (λ e found. tt)
        (λ again found.
          SettledIf-if (not (bytes_eq again dek)) _ _ (λ other. tt)
            (λ same.
              SettledIf-if (not (length (header ++ drop header_len file) == length file)) _ _
                (λ size. tt) (λ size. inr (again, found))))

  SettledIf-rewrap : (nonce dek file : Bytes) → SettledIf (rewrap aes new nonce true dek file)
  unfolding rewrap
  SettledIf-rewrap nonce dek file =
      SettledIf-result (header_for_dek aes new nonce dek) _ _ (λ e made. tt)
        (λ header made.
          SettledIf-result (unwrap_dek aes new header) _ _ (λ e found. tt)
            (λ again found.
              SettledIf-if (not (bytes_eq again dek)) _ _ (λ other. tt)
                (λ same. SettledIf-write_rekeyed dek header file)))

  SettledIf-rekey_file : (nonce file : Bytes) → SettledIf (rekey_file aes old new nonce true file)
  unfolding rekey_file unwrap_old
  SettledIf-rekey_file nonce file =
      SettledIf-if (not (bytes_eq (take 8 (take header_len file)) magic)) _ _
        (λ unsealed. inl (ground (arith, unsealed)))
        (λ sealed.
          SettledIf-result (unwrap_dek aes new (take header_len file)) _ _
            (λ e found.
              SettledIf-if (is_passed_over e) _ _
                (λ passed.
                  SettledIf-result (unwrap_dek aes old (take header_len file)) _ _ (λ e under. tt)
                    (λ dek under. SettledIf-rewrap nonce dek file))
                (λ other. tt))
            (λ dek found. inr (dek, found)))

  -- A settled file is left as it is.
  rekey_file-Settled :
      (nonce : Bytes) (apply : Bool) (file : Bytes)
      → Settled file
      → (s : Status) × (rekey_file aes old new nonce apply file ≡ (finished s, file))
        × ((s ≡ plaintext) ⊎ (s ≡ already))
  unfolding rekey_file
  rekey_file-Settled nonce apply file (inl h) = (plaintext, rw h, inl refl)
  rekey_file-Settled nonce apply file (inr (dek, h)) =
      elim (Bool-cases (bytes_eq (take 8 (take header_len file)) magic)) [
        | inl sealed ↦ (already, rw (sealed, h), inr refl)
        | inr unsealed ↦ (plaintext, rw unsealed, inl refl)
      ]

  module _ (later_nonces : Text → Bytes) (apply : Bool) where
    -- A second run in which no file is rekeyed and none fails, and which changes no file.
    abbrev pub Quiet : List File → Type 0
    Quiet files =
        (o : Outcome) × (rekey_each aes old new later_nonces apply files ≡ (some o, files))
        × (o.rekeyed_files ≡ [])
        × (o.failed_files ≡ [])

    Quiet-cons : (f : File) (fs : List File) → Settled f.content → Quiet fs → Quiet (f ∷ fs)
    unfolding rekey_each enter
    Quiet-cons f fs h (o, again, none_rekeyed, none_failed) =
        let (s, same, kind) = rekey_file-Settled (later_nonces f.name) apply f.content h in
        elim kind [
          | inl e ↦
              let whole = same ∙ ap (λ s. (finished s, f.content)) e in
              (
                record o { plaintext_files = f.name ∷ o.plaintext_files },
                rw (whole, again),
                none_rekeyed,
                none_failed,
              )
          | inr e ↦
              let whole = same ∙ ap (λ s. (finished s, f.content)) e in
              (
                record o { already_files = f.name ∷ o.already_files },
                rw (whole, again),
                none_rekeyed,
                none_failed,
              )
        ]

    -- After a run without a failure.
    abbrev QuietIf : Option Outcome × List File → Type 0
    QuietIf (none, files) = Unit
    QuietIf (some o, files) = o.failed_files ≡ [] → Quiet files

    QuietIf-enter :
        (f : File) (answer : Answer × Bytes) (later : Option Outcome × List File)
        → SettledIf answer
        → QuietIf later
        → QuietIf (enter_run f.name answer.0 later.0, record f { content = answer.1 } ∷ later.1)
    unfolding enter
    QuietIf-enter f answer (none, files) h q = tt
    QuietIf-enter f (finished rekeyed, file) (some o, files) h q = λ e. Quiet-cons _ files h (q e)
    QuietIf-enter f (finished already, file) (some o, files) h q = λ e. Quiet-cons _ files h (q e)
    QuietIf-enter f (finished plaintext, file) (some o, files) h q = λ e. Quiet-cons _ files h (q e)
    QuietIf-enter f (answer, file) (some o, files) h q = λ e. cc e

    QuietIf-if :
        (b : Bool) (files : List File) (x : Option Outcome × List File)
        → QuietIf x
        → QuietIf (if b then (none, files) else x)
    QuietIf-if true files x q = tt
    QuietIf-if false files x q = q

    QuietIf-rekey_each :
        (nonces : Text → Bytes) (files : List File)
        → QuietIf (rekey_each aes old new nonces true files)
    unfolding rekey_each
    QuietIf-rekey_each nonces [] = λ e. (no_outcome, refl, refl, refl)
    QuietIf-rekey_each nonces (f ∷ fs) = QuietIf-if _ _ _ (
        QuietIf-enter f (rekey_file aes old new (nonces f.name) true f.content)
          (rekey_each aes old new nonces true fs) (SettledIf-rekey_file (nonces f.name) f.content)
          (QuietIf-rekey_each nonces fs))

    abbrev RunIf : Run → Type 0
    RunIf (refused r) = Unit
    RunIf (ran o files) = QuietIf (o, files)

    RunIf-if :
        (b c d : Bool) (x : Run)
        → RunIf x
        → RunIf (
            if b
            then refused same_key
            else if c
            then refused no_sealed_files
            else if d
            then refused live_writes
            else x)
    RunIf-if true c d x h = tt
    RunIf-if false true d x h = tt
    RunIf-if false false true x h = tt
    RunIf-if false false false x h = h

    RunIf-rekey_all :
        (nonces : Text → Bytes) (files : List File)
        → RunIf (rekey_all aes old new nonces true files)
    unfolding rekey_all
    RunIf-rekey_all nonces files =
        let done = rekey_each aes old new nonces true files in
        RunIf-if (bytes_eq old.kek_id new.kek_id) (length files == 0) (any_of is_live files)
          (ran done.0 done.1) (QuietIf-rekey_each nonces files)

-- A run of rekey_all with --apply that reports no failure is complete: a second run over the files
-- that it left, once they count as live no more, changes none of them, rekeys none and fails on none,
-- with or without --apply.
pub rekey_all_again :
    (aes : Aead) (old new : Cryptor) (nonces later_nonces : Text → Bytes) (apply : Bool)
    (files left : List File) (o : Outcome)
    → rekey_all aes old new nonces true files ≡ ran (some o) left
    → o.failed_files ≡ []
    → Quiet aes old new later_nonces apply left
rekey_all_again aes old new nonces later_nonces apply files left o h e =
    let q =
      subst (RunIf aes old new later_nonces apply) h
        (RunIf-rekey_all aes old new later_nonces apply nonces files) in
    q e
