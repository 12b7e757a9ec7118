-- ===== src/Sanitizer/Summary.antt =====
-- backend/sanitizer.py: SanitizeSummary and what it counts.
use pcap_server.Prelude.{
  ℕ, ◌+◌, min, Bool, true, false, ◌&&◌, List, [], ◌∷◌, Option, none, some, ◌==◌, bytes_eq,
  if◌then◌else◌, Text, Dict,
}
use pcap_server.Framewalk.{TransportName, tcp, udp, icmp, icmpv6}
use pcap_server.Sanitizer.Texts.{codes}

-- The keys of `masked`.
pub data Masked : Type 0 where
  masked_credentials masked_usernames masked_hostnames reverse_dns_names : Masked

-- A `SanitizeSummary`, less `addresses`, which are the mapper's counts in the end. `undissected`
-- has for a transport and a port the frames and their bytes.
pub record SanitizeSummary : Type 0 where
  pub frames : ℕ
  pub masked : Masked → ℕ
  pub stripped_frames : ℕ
  pub unplaced : Dict ℕ
  pub undissected : List ((Text × ℕ) × (ℕ × ℕ))

abbrev pub empty_summary : SanitizeSummary
empty_summary = record {
  frames = 0;
  masked = λ _. 0;
  stripped_frames = 0;
  unplaced = [];
  undissected = [];
}

abbrev transport_name : TransportName → Text
transport_name tcp = codes "tcp"
transport_name udp = codes "udp"
transport_name icmp = codes "icmp"
transport_name icmpv6 = codes "icmpv6"

-- `(name, min(ports) if ports else 0)` of the ports that are not 0.
unfoldable pub undissected_key : Option (TransportName × ℕ × ℕ) → Text × ℕ
undissected_key none = (codes "other", 0)
undissected_key (some (t, sport, dport)) =
    (transport_name t, if sport == 0 then dport else if dport == 0 then sport else min sport dport)

unfoldable pub add_undissected :
    Text × ℕ → ℕ → List ((Text × ℕ) × (ℕ × ℕ)) → List ((Text × ℕ) × (ℕ × ℕ))
add_undissected key size [] = (key, (1, size)) ∷ []
add_undissected key size ((k, entry) ∷ rest) =
    let later = add_undissected key size rest in
    if bytes_eq k.0 key.0 && k.1 == key.1
    then (k, (entry.0 + 1, entry.1 + size)) ∷ rest
    else (k, entry) ∷ later

unfoldable pub note_undissected :
    Option (TransportName × ℕ × ℕ) → ℕ → SanitizeSummary → SanitizeSummary
note_undissected transport size s = record s {
  undissected = add_undissected (undissected_key transport) size s.undissected;
}

abbrev same_masked : Masked → Masked → Bool
same_masked masked_credentials masked_credentials = true
same_masked masked_usernames masked_usernames = true
same_masked masked_hostnames masked_hostnames = true
same_masked reverse_dns_names reverse_dns_names = true
same_masked _ _ = false

unfoldable pub count_masked : Masked → SanitizeSummary → SanitizeSummary
count_masked c s = record s {
  masked = λ other. if same_masked other c then s.masked other + 1 else s.masked other;
}
