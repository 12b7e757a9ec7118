-- ===== src/Vault.antt =====
-- backend/vault.py and the key sources of backend/crypto.py: the startup policy, and unlocking.
-- The files of the captures directory are their bytes, in the order that glob gives, and can be
-- read. The salt, which the database holds, is an argument.
pub mod Policy
pub mod Migration
pub mod Examples
use pcap_server.Prelude.{
  ℕ, ◌≡◌, Bool, true, false, not, ◌&&◌, ◌||◌, List, [], ◌∷◌, ◌++◌, Option, none, some, Bytes, Text,
  Dict, lookup, length, take, ltb, ◌==◌, bytes_eq, if◌then◌else◌,
}
use pcap_server.Anonymize.Names.{member_text}
use pcap_server.Sanitizer.Texts.{codes, encode, utf_8}
use pcap_server.Crypto.{
  Aead, Cryptor, Opened, open_stream, CryptoError, wrong_key, Ending, failed, magic,
}

-- What is outside: str.strip, str.lower and bytes.strip; `decode("ascii", errors="ignore").strip()`;
-- unhexlify and b64decode, whose errors are `none`; reading the key file, with OSError as `none`;
-- SHA-256 under kek_id, and derive_kek_from_passphrase, with UnicodeEncodeError as `none`.
pub record Outside : Type 0 where
  pub strip : Text → Text
  pub lower : Text → Text
  pub strip_bytes : Bytes → Bytes
  pub ascii_text : Bytes → Text
  pub unhexlify : Text → Option Bytes
  pub b64decode : Text → Option Bytes
  pub read_file : Text → Option Bytes
  pub kek_id : Bytes → Bytes
  pub derive_kek : Text → Bytes → Option Bytes

-- FileKeySource, EnvKeySource and PassphraseKeySource, the last with its salt and its `_kek`.
pub data KeySource : Type 0 where
  file_key env_key : Text → KeySource
  passphrase : Bytes → Option Bytes → KeySource

pub record Vault : Type 0 where
  pub source : Option KeySource
  pub cryptor : Option Cryptor
  pub allow_unencrypted : Bool

-- StartupRefused, by its message.
pub data Refusal : Type 0 where
  captures_without_key no_key key_not_loaded key_of_other_captures : Refusal

pub data Startup : Type 0 where
  refused : Refusal → Startup
  started : Vault → Startup

-- Why `unlock` raises ValueError.
pub data UnlockAnswer : Type 0 where
  unlocked not_passphrase_mode too_short not_encodable not_32_bytes does_not_open : UnlockAnswer

abbrev pub base64_key : Option Bytes → Option Bytes
base64_key none = none
base64_key (some decoded) = if length decoded == 32 then some decoded else none

-- `none` is KeyUnavailable.
unfoldable pub coerce_key : Outside → Bytes → Option Bytes
coerce_key o raw =
    let text = o.ascii_text raw in
    if length raw == 32
    then some raw
    else if length text == 64
    then elim (o.unhexlify text) [ some key ↦ some key | none ↦ base64_key (o.b64decode text) ]
    else base64_key (o.b64decode text)

-- `load`; `none` is KeyUnavailable, or the UnicodeEncodeError of a lone surrogate.
unfoldable pub load : Outside → KeySource → Option Bytes
load o (file_key path) = elim (o.read_file path) [
  | none ↦ none
  | some raw ↦ coerce_key o (o.strip_bytes raw)
]
load o (env_key value) = elim (encode utf_8 value) [ none ↦ none | some raw ↦ coerce_key o raw ]
load o (passphrase salt kek) = kek

-- `env.get(name, "")`
unfoldable pub env_get : Dict Text → Text → Text
env_get env name = elim (lookup env name) [ none ↦ [] | some value ↦ value ]

-- The source of a stripped value, where there is one.
abbrev pub named_source : (Text → KeySource) → Text → Option KeySource → Option KeySource
named_source make [] other = other
named_source make (c ∷ cs) other = some (make (c ∷ cs))

unfoldable pub resolve_key_source : Outside → Dict Text → Bytes → Option KeySource
resolve_key_source o env salt =
    let key_file = o.strip (env_get env (codes "MASTER_KEY_FILE")) in
    let env_value = o.strip (env_get env (codes "PCAP_MASTER_KEY")) in
    if bytes_eq (o.lower (o.strip (env_get env (codes "ENCRYPTION_MODE")))) (codes "passphrase")
    then some (passphrase salt none)
    else named_source file_key key_file (named_source env_key env_value none)

-- `Cryptor(kek)`; `none` is its ValueError.
unfoldable pub new_cryptor : Outside → Bytes → Option Cryptor
new_cryptor o kek =
    if length kek == 32 then some (record { kek = kek; kek_id = o.kek_id kek }) else none

-- What a stored capture says of a key. Nothing is yielded out of fuel, as there is fuel for a chunk.
pub data Probe : Type 0 where
  opens other_key damaged : Probe

-- `next(open_stream(path), b"")`, under its handlers.
abbrev pub judge_first : Opened → Probe
judge_first ([], failed wrong_key) = other_key
judge_first ([], failed e) = damaged
judge_first (chunks, ending) = opens

module _ (aes : Aead) where
  unfoldable pub probe : Cryptor → Bytes → Probe
  probe c file = judge_first (open_stream aes c file)

  -- The loop of `_key_opens_existing`.
  unfoldable pub key_opens_existing : Cryptor → List Bytes → Bool
  key_opens_existing c [] = true
  key_opens_existing c (file ∷ files) =
      let later = key_opens_existing c files in
      elim (probe c file) [ opens ↦ true | other_key ↦ false | damaged ↦ later ]

  abbrev pub has_encrypted_captures : List Bytes → Bool
  has_encrypted_captures [] = false
  has_encrypted_captures (file ∷ files) = true

  -- `_resolve` where no key is configured.
  unfoldable pub resolve_without_key : Bool → List Bytes → Startup
  resolve_without_key allow files =
      if has_encrypted_captures files
      then refused captures_without_key
      else if not allow
      then refused no_key
      else started (record { source = none; cryptor = none; allow_unencrypted = allow })

  -- `_resolve` with a key that was loaded.
  unfoldable pub resolve_with_key : Bool → KeySource → Option Cryptor → List Bytes → Startup
  resolve_with_key allow source none files = refused key_not_loaded
  resolve_with_key allow source (some c) files =
      if has_encrypted_captures files && not (key_opens_existing c files)
      then refused key_of_other_captures
      else started (record { source = some source; cryptor = some c; allow_unencrypted = allow })

  unfoldable pub resolve : Outside → Bool → Option KeySource → List Bytes → Startup
  resolve o allow none files = resolve_without_key allow files
  resolve o allow (some (passphrase salt kek)) files =
      started
        (record { source = some (passphrase salt kek); cryptor = none; allow_unencrypted = allow })
  resolve o allow (some source) files =
      resolve_with_key allow source
        (elim (load o source) [ none ↦ none | some kek ↦ new_cryptor o kek ]) files

  -- `CaptureVault.__init__`
  unfoldable pub start_vault : Outside → Dict Text → Bytes → List Bytes → Startup
  start_vault o env salt files =
      let allow =
        member_text (o.lower (env_get env (codes "ALLOW_UNENCRYPTED_CAPTURES")))
          (codes "1" ∷ codes "true" ∷ codes "yes" ∷ []) in
      resolve o allow (resolve_key_source o env salt) files

  -- `unlock` from the key that the passphrase gives: the source keeps it from then on.
  unfoldable pub try_key :
      Vault → Bytes → Bytes → Option Cryptor → List Bytes → UnlockAnswer × Vault
  try_key v salt kek none files =
      (not_32_bytes, record v { source = some (passphrase salt (some kek)) })
  try_key v salt kek (some c) files =
      if has_encrypted_captures files && not (key_opens_existing c files)
      then (does_not_open, record v { source = some (passphrase salt none) })
      else (unlocked, record v { source = some (passphrase salt (some kek)); cryptor = some c })

  unfoldable pub try_derived :
      Outside → Vault → Bytes → Option Bytes → List Bytes → UnlockAnswer × Vault
  try_derived o v salt none files = (not_encodable, v)
  try_derived o v salt (some fresh) files = try_key v salt fresh (new_cryptor o fresh) files

  unfoldable pub unlock_source :
      Outside → Vault → Option KeySource → Text → List Bytes → UnlockAnswer × Vault
  unlock_source o v (some (passphrase salt kek)) phrase files =
      if ltb (length phrase) 12
      then (too_short, v)
      else try_derived o v salt (o.derive_kek phrase salt) files
  unlock_source o v source phrase files = (not_passphrase_mode, v)

  unfoldable pub unlock : Outside → Vault → Text → List Bytes → UnlockAnswer × Vault
  unlock o v phrase files = unlock_source o v v.source phrase files
