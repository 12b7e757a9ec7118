-- ===== src/Sanitizer/Masks/Rounds.antt =====
-- The rounds that the first loop of `_map_dns_labels` needs.
use pcap_server.Prelude.{
  ℕ, zero, suc, ◌+◌, ◌≡◌, ◌≤◌, refl, ap, true, false, not, [], ◌∷◌, Option, none, some, Bytes, ltb,
  ◌==◌, length, get_or, bit_and, if◌then◌else◌, arith,
}
use pcap_server.Sanitizer.Masks.{Labelled, find_labels}

-- A round, given what the later rounds find.
abbrev round : Bytes → ℕ → Option Labelled → Option Labelled
round segment i later =
    let len = get_or segment i 0 in
    if not (ltb i (length segment))
    then some ([], false, i)
    else if len == 0
    then some ([], true, i)
    else if not (bit_and len 0xC0 == 0)
    then some ([], false, i)
    else if ltb (length segment) (i + 1 + len)
    then none
    else elim later [
      | none ↦ none
      | some (labels, ended, at) ↦ some ((i + 1, len) ∷ labels, ended, at)
    ]

-- With a round for each byte that is left, a further round finds nothing more.
find_labels-suc :
    (k : ℕ) (segment : Bytes) (i : ℕ)
    → length segment ≤ i + k
    → find_labels (suc k) segment i ≡ find_labels k segment i
unfolding find_labels
find_labels-suc zero segment i h =
    let over : ltb i (length segment) ≡ false = ground (arith, h) in rw over refl
find_labels-suc (suc k) segment i h =
    ap (round segment i) (find_labels-suc k segment (i + 1 + get_or segment i 0) (omega (arith, h)))
