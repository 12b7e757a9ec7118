-- ===== src/Crypto.antt =====
-- backend/crypto.py: the envelope format, sealing and opening.
-- AES-GCM, SHA-256 and os.urandom are outside: the first is a parameter with its laws, the key's
-- id is given with the key, and each random nonce is an argument.
pub mod Layout
pub mod RoundTrip
pub mod Authentic
pub mod Truncation
pub mod Sealers
pub mod Examples
use pcap_server.Prelude.{
  ℕ, zero, suc, ◌+◌, ◌-◌, ◌*◌, ◌≡◌, Bool, true, false, not, ◌||◌, List, [], ◌∷◌, ◌++◌, Option, none,
  some, Bytes, ltb, ◌==◌, length, take, drop, be_bytes, big_endian, bytes_eq, join, if◌then◌else◌,
}

abbrev pub magic : Bytes
magic = 0x50 ∷ 0x43 ∷ 0x41 ∷ 0x50 ∷ 0x45 ∷ 0x4E ∷ 0x43 ∷ 0x01 ∷ []

abbrev pub kek_id_len : ℕ
kek_id_len = 16

abbrev pub nonce_len : ℕ
nonce_len = 12

abbrev pub tag_len : ℕ
tag_len = 16

abbrev pub dek_len : ℕ
dek_len = 32

abbrev pub wrapped_dek_len : ℕ
wrapped_dek_len = dek_len + tag_len

abbrev pub header_len : ℕ
header_len = 8 + kek_id_len + nonce_len + wrapped_dek_len

abbrev pub chunk_size : ℕ
chunk_size = 64 * 1024

-- AESGCM: key, nonce, text and associated data. `none` is InvalidTag.
pub record Aead : Type 0 where
  pub encrypt : Bytes → Bytes → Bytes → Bytes → Bytes
  pub decrypt : Bytes → Bytes → Bytes → Bytes → Option Bytes
  -- The ciphertext is the text's length and a tag of 16 bytes.
  pub length-encrypt :
      (key nonce text aad : Bytes) → length (encrypt key nonce text aad) ≡ length text + tag_len
  pub decrypt-encrypt :
      (key nonce text aad : Bytes) → decrypt key nonce (encrypt key nonce text aad) aad ≡ some text
  -- The tag is a function of the rest, so nothing else carries the right one.
  pub encrypt-decrypt :
      (key nonce body aad text : Bytes)
      → decrypt key nonce body aad ≡ some text
      → body ≡ encrypt key nonce text aad

-- The exceptions: ValueError, NotEncrypted, WrongKey, and CryptoError by its message.
pub data CryptoError : Type 0 where
  value_error not_encrypted wrong_key sealer_finished : CryptoError
  no_terminator incomplete_chunk : CryptoError
  chunk_too_long failed_authentication : ℕ → CryptoError

pub data Result (A : Type 0) : Type 0 where
  ok : A → Result A
  err : CryptoError → Result A

infixl 5 ◌>>=◌
abbrev pub ◌>>=◌ : {A B : Type 0} → Result A → (A → Result B) → Result B
ok a >>= k = k a
err e >>= k = err e

-- A master key with its id, `kek_id(kek)`.
pub record Cryptor : Type 0 where
  pub kek : Bytes
  pub kek_id : Bytes

-- `data[i:i + CHUNK_SIZE] for i in range(0, len(data), CHUNK_SIZE)`, on fuel.
unfoldable pub chunks_of : ℕ → Bytes → List Bytes
chunks_of zero xs = []
chunks_of (suc k) [] = []
chunks_of (suc k) (x ∷ xs) = take chunk_size (x ∷ xs) ∷ chunks_of k (drop chunk_size (x ∷ xs))

-- `MAGIC + struct.pack(">Q", index)`. The struct.error at 2^64 chunks is left out.
abbrev pub chunk_aad : ℕ → Bytes
chunk_aad index = magic ++ be_bytes 8 index

module _ (aes : Aead) where
  -- `header_for_dek` with `_wrap_dek`, at the nonce that os.urandom gives.
  unfoldable pub header_for_dek : Cryptor → Bytes → Bytes → Result Bytes
  header_for_dek c nonce dek =
      let header =
        magic ++ (c.kek_id ++ (nonce ++ aes.encrypt c.kek nonce dek (magic ++ c.kek_id))) in
      if not (length dek == dek_len)
      then err value_error
      else if not (length header == header_len)
      then err value_error
      else ok header

  unfoldable pub unwrap_dek : Cryptor → Bytes → Result Bytes
  unwrap_dek c header =
      let file_kek_id = take kek_id_len (drop 8 header) in
      let nonce = take nonce_len (drop (8 + kek_id_len) header) in
      let wrapped = take wrapped_dek_len (drop (8 + kek_id_len + nonce_len) header) in
      if ltb (length header) header_len || not (bytes_eq (take 8 header) magic)
      then err not_encrypted
      else if not (bytes_eq file_kek_id c.kek_id)
      then err wrong_key
      else elim (aes.decrypt c.kek nonce wrapped (magic ++ file_kek_id)) [
        | none ↦ err wrong_key
        | some dek ↦ ok dek
      ]

  -- `_seal_one` at the nonce that os.urandom gives. The errors of struct and AES-GCM on a text of
  -- 2^31 bytes or more are left out.
  unfoldable pub seal_one : Bytes → Bytes → ℕ → Bytes → Bytes
  seal_one dek nonce index plaintext =
      be_bytes 4 (length plaintext) ++ (nonce ++ aes.encrypt dek nonce plaintext (chunk_aad index))

  -- The chunks of `seal_chunks` from an index on, and the terminator. `nonces` is what os.urandom
  -- gives for each index.
  unfoldable pub seal_from : (ℕ → Bytes) → Bytes → ℕ → List Bytes → List Bytes
  seal_from nonces dek index [] = seal_one dek (nonces index) index [] ∷ []
  seal_from nonces dek index ([] ∷ chunks) = seal_from nonces dek index chunks
  seal_from nonces dek index ((b ∷ bs) ∷ chunks) =
      seal_one dek (nonces index) index (b ∷ bs) ∷ seal_from nonces dek (index + 1) chunks

  -- `seal_chunks`: the data key and the header's nonce come from os.urandom too.
  unfoldable pub seal_chunks :
      Cryptor → Bytes → Bytes → (ℕ → Bytes) → List Bytes → Result (List Bytes)
  seal_chunks c nonce dek nonces chunks = do
    header ← header_for_dek c nonce dek
    ok (header ∷ seal_from nonces dek 0 chunks)

  unfoldable pub seal_bytes : Cryptor → Bytes → Bytes → (ℕ → Bytes) → Bytes → Result Bytes
  seal_bytes c nonce dek nonces xs = do
    parts ← seal_chunks c nonce dek nonces (chunks_of (length xs) xs)
    ok (join parts)

-- The state of a `Sealer`.
pub record Sealer : Type 0 where
  pub index : ℕ
  pub finished : Bool

abbrev pub new_sealer : Sealer
new_sealer = record { index = 0; finished = false }

-- How the generator `open_stream` ends; `out_of_fuel` is the model's own.
pub data Ending : Type 0 where
  clean out_of_fuel : Ending
  failed : CryptoError → Ending

-- What the generator yields before it ends, and the ending.
abbrev pub Opened : Type 0
Opened = List Bytes × Ending

abbrev pub yield_first : Bytes → Opened → Opened
yield_first chunk o = (chunk ∷ o.0, o.1)

-- `b"".join` over a generator that may raise.
abbrev pub join_opened : Opened → Option (Result Bytes)
join_opened (chunks, clean) = some (ok (join chunks))
join_opened (chunks, failed e) = some (err e)
join_opened (chunks, out_of_fuel) = none

-- What one round of the loop of `open_stream` finds: an exception, the terminator, or a chunk and
-- what is left of the file behind it.
pub data Chunk : Type 0 where
  bad : CryptoError → Chunk
  terminator : Chunk
  chunk : Bytes → Bytes → Chunk

module _ (aes : Aead) where
  -- The checks on what was read for the chunk at `index`.
  unfoldable pub judge_chunk : Bytes → ℕ → Bytes → Bytes → Bytes → Bytes → Chunk
  judge_chunk dek index length_raw nonce body later =
      let len = big_endian length_raw in
      if ltb (length length_raw) 4
      then bad no_terminator
      else if ltb chunk_size len
      then bad (chunk_too_long index)
      else if ltb (length nonce) nonce_len || ltb (length body) (len + tag_len)
      then bad incomplete_chunk
      else elim (aes.decrypt dek nonce body (chunk_aad index)) [
        | none ↦ bad (failed_authentication index)
        | some plaintext ↦ if len == 0 then terminator else chunk plaintext later
      ]

  -- The reads of one round: 4 bytes, the nonce, and the body that the length announces. What is
  -- read where the file is short is judged before it is used.
  unfoldable pub read_chunk : Bytes → ℕ → Bytes → Chunk
  read_chunk dek index rest =
      let length_raw = take 4 rest in
      let len = big_endian length_raw in
      let sealed = drop nonce_len (drop 4 rest) in
      judge_chunk dek index length_raw (take nonce_len (drop 4 rest)) (take (len + tag_len) sealed)
        (drop (len + tag_len) sealed)

  -- The loop of `open_stream` from a chunk on, over what is left of the file.
  unfoldable pub open_chunks : ℕ → Bytes → ℕ → Bytes → Opened
  open_chunks zero dek index rest = ([], out_of_fuel)
  open_chunks (suc k) dek index rest = elim (read_chunk dek index rest) [
    | bad e ↦ ([], failed e)
    | terminator ↦ ([], clean)
    | chunk plaintext later ↦ yield_first plaintext (open_chunks k dek (index + 1) later)
  ]

  unfoldable pub open_stream : Cryptor → Bytes → Opened
  open_stream c file = elim (unwrap_dek aes c (take header_len file)) [
    | err e ↦ ([], failed e)
    | ok dek ↦ open_chunks (suc (length file)) dek 0 (drop header_len file)
  ]

  -- `none` where the model ran out of fuel.
  unfoldable pub open_bytes : Cryptor → Bytes → Option (Result Bytes)
  open_bytes c file = join_opened (open_stream c file)

  -- `Sealer.seal`: nothing to seal writes nothing.
  unfoldable pub sealer_seal : Bytes → Bytes → Sealer → Bytes → Result (Bytes × Sealer)
  sealer_seal dek nonce s [] = if s.finished then err sealer_finished else ok ([], s)
  sealer_seal dek nonce s (b ∷ bs) =
      if s.finished
      then err sealer_finished
      else ok (seal_one aes dek nonce s.index (b ∷ bs), record s { index = s.index + 1 })

  -- `Sealer.finish`: the terminator.
  unfoldable pub sealer_finish : Bytes → Bytes → Sealer → Result (Bytes × Sealer)
  sealer_finish dek nonce s =
      if s.finished
      then err sealer_finished
      else ok (seal_one aes dek nonce s.index [], record s { finished = true })
