-- ===== src/Rekey/Examples.antt =====
-- A file of the concrete cipher, moved to a second master key.
use pcap_server.Prelude.{
  ◌≡◌, refl, true, false, ◌⊎◌, ◌++◌, List, [], ◌∷◌, some, none, Bytes, bytes_eq,
}
use pcap_server.Sanitizer.Texts.{codes}
use pcap_server.Crypto.{Cryptor, open_stream, unwrap_dek, header_for_dek}
use pcap_server.Crypto.Layout.{header_bytes}
use pcap_server.Crypto.Examples.{toy, tag, twelve, data_key, vault_key, small_file}
use pcap_server.Rekey.{rekeyed, finished, rekey_file, unwrap_old, rewrap, write_rekeyed}
use pcap_server.Rekey.Opens.{open_stream-rekey_file}
use pcap_server.Rekey.Run.{File, Outcome, ran, rekey_all, rekey_each, enter, is_live}
use pcap_server.Rekey.Again.{Quiet, rekey_all_again}
use pcap_server.Rekey.Moves.{rekey_file-header_bytes}

abbrev next_id : Bytes
next_id = 8 ∷ 8 ∷ 8 ∷ 8 ∷ 8 ∷ 8 ∷ 8 ∷ 8 ∷ 8 ∷ 8 ∷ 8 ∷ 8 ∷ 8 ∷ 8 ∷ 8 ∷ 8 ∷ []

abbrev next_key : Cryptor
next_key = record { kek = tag ++ tag; kek_id = next_id }

open_stream-rekey_file_example :
    ((rekey_file toy vault_key next_key twelve true small_file).1 ≡ small_file)
    ⊎ (((rekey_file toy vault_key next_key twelve true small_file).0 ≡ finished rekeyed)
        × (open_stream toy next_key (rekey_file toy vault_key next_key twelve true small_file).1
            ≡ open_stream toy vault_key small_file))
open_stream-rekey_file_example =
    open_stream-rekey_file toy vault_key next_key small_file twelve true

ids-differ : bytes_eq vault_key.kek_id next_key.kek_id ≡ false
unfolding bytes_eq
ids-differ = refl

rekey_file-header_bytes_example :
    rekey_file toy vault_key next_key twelve true
      (header_bytes toy vault_key twelve data_key ++ (1 ∷ 2 ∷ []))
    ≡ (finished rekeyed, header_bytes toy next_key twelve data_key ++ (1 ∷ 2 ∷ []))
rekey_file-header_bytes_example =
    rekey_file-header_bytes toy vault_key next_key twelve twelve data_key (1 ∷ 2 ∷ []) refl refl
      refl refl refl ids-differ

-- A capture under the old key and one that was never sealed.
abbrev stored : Bytes → List File
stored content =
    record { name = codes "a.pcap.enc"; age = some 60; content = content }
    ∷ record { name = codes "key"; age = none; content = 1 ∷ 2 ∷ [] }
    ∷ []

abbrev moved_file : Bytes
moved_file = header_bytes toy next_key twelve data_key ++ (1 ∷ 2 ∷ [])

abbrev moved : Outcome
moved = record {
  rekeyed_files = codes "a.pcap.enc" ∷ [];
  already_files = [];
  plaintext_files = codes "key" ∷ [];
  failed_files = [];
}

rekey_all-stored :
    rekey_all toy vault_key next_key
      (λ name. twelve)
      true
      (stored (header_bytes toy vault_key twelve data_key ++ (1 ∷ 2 ∷ [])))
    ≡ ran (some moved) (stored moved_file)
unfolding rekey_all rekey_each enter is_live bytes_eq rekey_file unwrap_dek unwrap_old rewrap
    header_for_dek write_rekeyed
rekey_all-stored = refl

rekey_all_again_example : Quiet toy vault_key next_key (λ name. twelve) false (stored moved_file)
rekey_all_again_example =
    rekey_all_again toy vault_key next_key (λ name. twelve) (λ name. twelve) false
      (stored (header_bytes toy vault_key twelve data_key ++ (1 ∷ 2 ∷ []))) (stored moved_file)
      moved rekey_all-stored refl
