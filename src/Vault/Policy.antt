-- ===== src/Vault/Policy.antt =====
-- The startup policy of backend/vault.py fails closed, and unlocking keeps to it.
use pcap_server.Prelude.{◌≡◌, true, List, [], ◌∷◌, Option, none, some, Bytes, Text, All, Some, ◌⊎◌}
use pcap_server.Crypto.{Aead, Cryptor}
use pcap_server.Vault.{
  Outside, KeySource, passphrase, Vault, Startup, started, refused, opens, damaged, probe, unlock,
}

module _ (aes : Aead) where
  -- The key opens one of the captures, or each of them is damaged.
  abbrev pub Known : Cryptor → List Bytes → Type 0
  Known c files =
      Some (λ file. probe aes c file ≡ opens) files ⊎ All (λ file. probe aes c file ≡ damaged) files

  -- What a vault may be, beside the sealed captures that are stored.
  pub data Guarded (files : List Bytes) (v : Vault) : Type 0 where
    unencrypted :
        v.source ≡ none
        → v.cryptor ≡ none
        → v.allow_unencrypted ≡ true
        → files ≡ []
        → Guarded files v
    waiting :
        (salt : Bytes) (kek : Option Bytes)
        → v.source ≡ some (passphrase salt kek)
        → v.cryptor ≡ none
        → Guarded files v
    keyed :
        (source : KeySource) (c : Cryptor)
        → v.source ≡ some source
        → v.cryptor ≡ some c
        → Known c files
        → Guarded files v

  unfoldable pub unlock_all : Outside → List Bytes → Vault → List Text → Vault
  unlock_all o files v [] = v
  unlock_all o files v (phrase ∷ phrases) =
      unlock_all o files (unlock aes o v phrase files).1 phrases

  abbrev IfStarted : List Bytes → Startup → Type 0
  IfStarted files (refused r) = Unit
  IfStarted files (started v) = Guarded files v
