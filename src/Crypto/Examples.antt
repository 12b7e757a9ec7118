-- ===== src/Crypto/Examples.antt =====
-- A concrete cipher that meets the laws, and the theorems of the envelope at it.
use mathlib.Core.Option.{some-injective}
use pcap_server.Prelude.{
  ◌≡◌, refl, sym, ap₂, ◌∙◌, be_bytes, from_bytes_on, true, false, if◌then◌else◌, List, [], ◌∷◌,
  ◌++◌, Option, none, some, Bytes, bytes_eq, bytes_eq→eq, take, drop, take-append-drop, join, arith,
  Bool-cases, inl, inr,
}
use pcap_server.Crypto.{
  Aead, Cryptor, ok, clean, seal_one, seal_from, seal_bytes, seal_chunks, header_for_dek, chunks_of,
  open_stream, open_bytes, open_chunks, read_chunk, judge_chunk,
}
use pcap_server.Crypto.Layout.{header_bytes}
use pcap_server.Crypto.RoundTrip.{sealed_chunks, open_stream-seal_chunks, open_bytes-seal_bytes}
use pcap_server.Crypto.Authentic.{Sealed, open_chunks-Sealed}
use pcap_server.Crypto.Truncation.{Raises, open_stream_truncated}
use pcap_server.Crypto.Sealers.{sealer_run, sealer_run-eq-seal_from}

abbrev pub tag : Bytes
tag = 7 ∷ 7 ∷ 7 ∷ 7 ∷ 7 ∷ 7 ∷ 7 ∷ 7 ∷ 7 ∷ 7 ∷ 7 ∷ 7 ∷ 7 ∷ 7 ∷ 7 ∷ 7 ∷ []

-- No secrecy: a constant tag in front of the text.
abbrev pub toy_decrypt : Bytes → Option Bytes
toy_decrypt body = if bytes_eq (take 16 body) tag then some (drop 16 body) else none

pub toy_decrypt-encrypt : (text : Bytes) → toy_decrypt (tag ++ text) ≡ some text
unfolding bytes_eq
toy_decrypt-encrypt text = refl

tagged_body :
    (body text : Bytes)
    → bytes_eq (take 16 body) tag ≡ true
    → some (drop 16 body) ≡ some text
    → body ≡ tag ++ text
tagged_body body text tagged h =
    sym (take-append-drop 16 body)
    ∙ ap₂ (λ a b. a ++ b) (bytes_eq→eq (take 16 body) tag tagged) (some-injective _ _ h)

pub toy_encrypt-decrypt : (body text : Bytes) → toy_decrypt body ≡ some text → body ≡ tag ++ text
toy_encrypt-decrypt body text h = elim (Bool-cases (bytes_eq (take 16 body) tag)) [
  | inl tagged ↦ tagged_body body text tagged (rw tagged at h)
  | inr other ↦ cc (rw other at h)
]

abbrev pub toy : Aead
toy = record {
  encrypt = λ key nonce text aad. tag ++ text;
  decrypt = λ key nonce body aad. toy_decrypt body;
  length-encrypt = λ key nonce text aad. omega arith;
  decrypt-encrypt = λ key nonce text aad. toy_decrypt-encrypt text;
  encrypt-decrypt = λ key nonce body aad text. toy_encrypt-decrypt body text;
}

abbrev pub twelve : Bytes
twelve = 1 ∷ 2 ∷ 3 ∷ 4 ∷ 5 ∷ 6 ∷ 7 ∷ 8 ∷ 9 ∷ 10 ∷ 11 ∷ 12 ∷ []

abbrev pub data_key : Bytes
data_key = tag ++ tag

abbrev pub vault_key : Cryptor
vault_key = record { kek = tag ++ tag; kek_id = tag }

-- Two chunks of data and an empty one, which is not sealed.
abbrev recorded : List Bytes
recorded = (1 ∷ 2 ∷ 3 ∷ []) ∷ [] ∷ (4 ∷ []) ∷ []

abbrev sealed_parts : List Bytes
sealed_parts =
    header_bytes toy vault_key twelve data_key ∷ seal_from toy (λ _. twelve) data_key 0 recorded

seal-recorded : seal_chunks toy vault_key twelve data_key (λ _. twelve) recorded ≡ ok sealed_parts
unfolding seal_chunks header_for_dek
seal-recorded = refl

open_stream-seal_chunks_example :
    open_stream toy vault_key (join sealed_parts ++ 9 ∷ []) ≡ (sealed_chunks recorded, clean)
open_stream-seal_chunks_example =
    open_stream-seal_chunks toy vault_key twelve data_key (λ _. twelve) recorded sealed_parts
      (9 ∷ []) refl refl (λ _. refl) refl (omega arith) seal-recorded

abbrev pub small_file : Bytes
small_file =
    header_bytes toy vault_key twelve data_key
    ++ (seal_one toy data_key twelve 0 (5 ∷ 6 ∷ []) ++ (seal_one toy data_key twelve 1 [] ++ []))

pub seal-small_file :
    seal_bytes toy vault_key twelve data_key (λ _. twelve) (5 ∷ 6 ∷ []) ≡ ok small_file
unfolding seal_bytes seal_chunks header_for_dek chunks_of seal_from join
seal-small_file = refl

open_bytes-seal_bytes_example : open_bytes toy vault_key small_file ≡ some (ok (5 ∷ 6 ∷ []))
open_bytes-seal_bytes_example =
    open_bytes-seal_bytes toy vault_key twelve data_key (λ _. twelve) (5 ∷ 6 ∷ []) small_file refl
      refl (λ _. refl) refl seal-small_file

abbrev stream : Bytes
stream = 0 ∷ 0 ∷ 0 ∷ 1 ∷ (twelve ++ (tag ++ (4 ∷ 0 ∷ 0 ∷ 0 ∷ 0 ∷ (twelve ++ tag))))

open-stream : open_chunks toy 3 data_key 0 stream ≡ ((4 ∷ []) ∷ [], clean)
unfolding open_chunks read_chunk judge_chunk from_bytes_on bytes_eq
open-stream = refl

open_chunks-Sealed_example : Sealed toy data_key 0 ((4 ∷ []) ∷ []) stream
open_chunks-Sealed_example =
    open_chunks-Sealed toy data_key 3 0 stream ((4 ∷ []) ∷ []) (omega arith) open-stream

-- The file of one empty seal, its last byte cut off.
abbrev cut_file : Bytes
cut_file = header_bytes toy vault_key twelve data_key ++ (0 ∷ 0 ∷ 0 ∷ 0 ∷ (twelve ++ drop 1 tag))

seal-nothing :
    seal_chunks toy vault_key twelve data_key (λ _. twelve) []
    ≡ ok (header_bytes toy vault_key twelve data_key ∷ seal_one toy data_key twelve 0 [] ∷ [])
unfolding seal_chunks header_for_dek seal_from
seal-nothing = refl

join-nothing :
    join (header_bytes toy vault_key twelve data_key ∷ seal_one toy data_key twelve 0 [] ∷ [])
    ≡ cut_file ++ 7 ∷ []
unfolding join seal_one be_bytes
join-nothing = refl

open_stream_truncated_example : Raises (open_stream toy vault_key cut_file)
open_stream_truncated_example =
    open_stream_truncated toy data_key (λ _. twelve) (λ _. refl) vault_key twelve []
      (header_bytes toy vault_key twelve data_key ∷ seal_one toy data_key twelve 0 [] ∷ []) cut_file
      7 [] refl refl refl (omega arith) (omega arith) seal-nothing join-nothing

sealer_run-eq-seal_from_example :
    sealer_run toy data_key (λ _. twelve) (record { index = 0; finished = false }) recorded
    ≡ ok (join (seal_from toy (λ _. twelve) data_key 0 recorded))
sealer_run-eq-seal_from_example = sealer_run-eq-seal_from toy data_key (λ _. twelve) 0 recorded
