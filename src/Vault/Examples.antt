-- ===== src/Vault/Examples.antt =====
-- The vault at a concrete cipher and two installations.
use pcap_server.Prelude.{◌≡◌, refl, true, false, [], ◌∷◌, ◌++◌, none, some, Text, Dict, All}
use pcap_server.Sanitizer.Texts.{codes}
use pcap_server.Crypto.Examples.{toy, tag, twelve, data_key, vault_key, small_file, seal-small_file}
use pcap_server.Vault.{Outside, Vault, file_key}
use pcap_server.Vault.Migration.{
  Stored, Drawn, unlinking, nowhere, migrate_one, Readable, All-migrate_one, migrate_one_done,
}

-- A key file that holds 32 bytes, and no decoding.
abbrev outside : Outside
outside = record {
  strip = λ t. t;
  lower = λ t. t;
  strip_bytes = λ b. b;
  ascii_text = λ b. b;
  unhexlify = λ t. none;
  b64decode = λ t. none;
  read_file = λ path. some (tag ++ tag);
  kek_id = λ kek. tag;
  derive_kek = λ phrase salt. some (tag ++ tag);
}

abbrev env : Dict Text
env = (codes "MASTER_KEY_FILE", codes "/run/secrets/key") ∷ []

-- Started with the key file, beside a capture that was sealed under its key.
abbrev with_key : Vault
with_key = record {
  source = some (file_key (codes "/run/secrets/key"));
  cryptor = some vault_key;
  allow_unencrypted = false;
}

abbrev drawn : Drawn
drawn = record { nonce = twelve; dek = data_key; nonces = λ _. twelve }

abbrev in_the_clear : Stored
in_the_clear = record { plain = some (5 ∷ 6 ∷ []); partial = none; sealed = none }

All-migrate_one_example :
    All
      (Readable toy vault_key (5 ∷ 6 ∷ []))
      (migrate_one toy vault_key drawn (λ b. b) unlinking (5 ∷ 6 ∷ []) in_the_clear).1
All-migrate_one_example =
    All-migrate_one toy vault_key drawn (λ b. b) unlinking (5 ∷ 6 ∷ []) in_the_clear refl

migrate_one_done_example :
    migrate_one toy vault_key drawn (λ b. b) nowhere (5 ∷ 6 ∷ []) in_the_clear ≡ (
      true,
      record in_the_clear { partial = some small_file }
          ∷ record in_the_clear { partial = none; sealed = some small_file }
          ∷ record { plain = none; partial = none; sealed = some small_file }
          ∷ [],
    )
migrate_one_done_example =
    migrate_one_done toy vault_key drawn (5 ∷ 6 ∷ []) small_file in_the_clear refl refl (λ _. refl)
      refl seal-small_file
