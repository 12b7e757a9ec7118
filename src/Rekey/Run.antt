-- ===== src/Rekey/Run.antt =====
-- backend/rekey.py: rekey_all, over the files that _targets finds.
use pcap_server.Prelude.{
  ℕ, Bool, true, false, List, [], ◌∷◌, Option, none, some, Bytes, Text, length, bytes_eq, ltb, ◌==◌,
  if◌then◌else◌, any_of,
}
use pcap_server.Crypto.{Aead, Cryptor, value_error}
use pcap_server.Rekey.{rekeyed, already, plaintext, Answer, finished, raised, rekey_file}

abbrev pub live_write_seconds : ℕ
live_write_seconds = 10

-- A sealed object: its path, the seconds since it was modified (0 where that is still to come,
-- `none` where stat raises OSError), and its bytes.
pub record File : Type 0 where
  pub name : Text
  pub age : Option ℕ
  pub content : Bytes

-- The lists of an Outcome, in the order of the run; a failure with what was raised.
pub record Outcome : Type 0 where
  pub rekeyed_files : List Text
  pub already_files : List Text
  pub plaintext_files : List Text
  pub failed_files : List (Text × Answer)

abbrev pub no_outcome : Outcome
no_outcome = record {
  rekeyed_files = [];
  already_files = [];
  plaintext_files = [];
  failed_files = [];
}

-- RekeyRefused, by its message.
pub data Refused : Type 0 where
  same_key no_sealed_files live_writes : Refused

-- A run ends with no outcome where an exception passes through it: then the files behind are as
-- they were.
pub data Run : Type 0 where
  refused : Refused → Run
  ran : Option Outcome → List File → Run

-- The entry of one file, in front of the later ones.
unfoldable pub enter : Text → Answer → Outcome → Outcome
enter name (finished rekeyed) o = record o { rekeyed_files = name ∷ o.rekeyed_files }
enter name (finished already) o = record o { already_files = name ∷ o.already_files }
enter name (finished plaintext) o = record o { plaintext_files = name ∷ o.plaintext_files }
enter name answer o = record o { failed_files = (name, answer) ∷ o.failed_files }

abbrev pub enter_run : Text → Answer → Option Outcome → Option Outcome
enter_run name answer none = none
enter_run name answer (some o) = some (enter name answer o)

-- ValueError is neither CryptoError nor OSError.
abbrev pub is_uncaught : Answer → Bool
is_uncaught (raised value_error) = true
is_uncaught _ = false

-- `_check_no_live_writes`
unfoldable pub is_live : File → Bool
is_live f = elim f.age [ none ↦ false | some seconds ↦ ltb seconds live_write_seconds ]

module _ (aes : Aead) (old new : Cryptor) where
  -- The loop of `rekey_all`, with the files afterwards. `nonces` is what os.urandom gives for each.
  unfoldable pub rekey_each : (Text → Bytes) → Bool → List File → Option Outcome × List File
  rekey_each nonces apply [] = (some no_outcome, [])
  rekey_each nonces apply (f ∷ fs) =
      let later = rekey_each nonces apply fs in
      let answer = rekey_file aes old new (nonces f.name) apply f.content in
      if is_uncaught answer.0
      then (none, record f { content = answer.1 } ∷ fs)
      else (enter_run f.name answer.0 later.0, record f { content = answer.1 } ∷ later.1)

  unfoldable pub rekey_all : (Text → Bytes) → Bool → List File → Run
  rekey_all nonces apply files =
      let done = rekey_each nonces apply files in
      if bytes_eq old.kek_id new.kek_id
      then refused same_key
      else if length files == 0
      then refused no_sealed_files
      else if any_of is_live files
      then refused live_writes
      else ran done.0 done.1
