-- ===== src/Crypto/Sealers.antt =====
-- The class Sealer of backend/crypto.py next to `seal_chunks`.
use mathlib.Core.List.{append-nil}
use pcap_server.Prelude.{arith, ℕ, ◌+◌, ◌≡◌, false, List, [], ◌∷◌, ◌++◌, Bytes, join}
use pcap_server.Crypto.{
  Aead, Result, ok, err, ◌>>=◌, sealer_finished, seal_from, Sealer, sealer_seal, sealer_finish,
}

-- A producer that seals its chunks one by one and then finishes.
unfoldable pub sealer_run : Aead → Bytes → (ℕ → Bytes) → Sealer → List Bytes → Result Bytes
sealer_run aes dek nonces s [] = do r ← sealer_finish aes dek (nonces s.index) s; ok r.0
sealer_run aes dek nonces s (p ∷ ps) = do
  r ← sealer_seal aes dek (nonces s.index) s p
  rest ← sealer_run aes dek nonces r.1 ps
  ok (r.0 ++ rest)

-- From an unfinished sealer, whatever its index, the producer's writes are the stream of
-- `seal_chunks` from that index on, with its terminator.
pub sealer_run-eq-seal_from :
    (aes : Aead) (dek : Bytes) (nonces : ℕ → Bytes) (index : ℕ) (ps : List Bytes)
    → sealer_run aes dek nonces (record { index = index; finished = false }) ps
      ≡ ok (join (seal_from aes nonces dek index ps))
unfolding sealer_run sealer_seal sealer_finish seal_from join
sealer_run-eq-seal_from aes dek nonces index [] = rw append-nil
sealer_run-eq-seal_from aes dek nonces index ([] ∷ ps) =
    rw (sealer_run-eq-seal_from aes dek nonces index ps)
sealer_run-eq-seal_from aes dek nonces index ((b ∷ bs) ∷ ps) =
    rw (sealer_run-eq-seal_from aes dek nonces (index + 1) ps)

-- Once finished, a sealer refuses every further call: nothing is written behind the terminator.
pub sealer_finish_final :
    (aes : Aead) (dek nonce later_nonce plaintext out : Bytes) (s s' : Sealer)
    → sealer_finish aes dek nonce s ≡ ok (out, s')
    → (sealer_seal aes dek later_nonce s' plaintext ≡ err sealer_finished)
      × (sealer_finish aes dek later_nonce s' ≡ err sealer_finished)
unfolding sealer_seal sealer_finish
sealer_finish_final aes dek nonce later_nonce [] out s s' h = ground arith
sealer_finish_final aes dek nonce later_nonce (b ∷ bs) out s s' h = ground arith
