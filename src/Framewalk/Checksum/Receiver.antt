-- ===== src/Framewalk/Checksum/Receiver.antt =====
-- What a receiver of a frame sums over a checksum, word by word, and that it is the sum which
-- `_ones_sum` stands for.
use pcap_server.Prelude.{
  IsBytes, ℕ, suc, ◌+◌, ◌-◌, ◌*◌, ◌%◌, min, ◌≡◌, refl, ap, ◌∙◌, List, [], ◌∷◌, ◌++◌, Bytes, length,
  get_or, take, drop, slice, from_bytes_on, shl-bit_or, arith, ◌==◌, if◌then◌else◌, Bool-cases, inl,
  inr, true, false,
}
use pcap_server.Framewalk.{Scope}
use pcap_server.Framewalk.Checksum.{
  ones_sum, pseudo_bytes, zero_field, covered, field_value, total_sum,
}
use pcap_server.Framewalk.Checksum.Rfc1624.{cover_sum, get_or-lt}

-- The sum of the 16-bit words, the last one filled with a zero byte.
abbrev pub word_sum : Bytes → ℕ
word_sum [] = 0
word_sum (x ∷ []) = x * 256
word_sum (x ∷ y ∷ rest) = x * 256 + y + word_sum rest

-- The pieces of the pseudo header, one after the other.
abbrev pub pseudo_header : Bytes → List (ℕ × ℕ) → Bytes
pseudo_header xs [] = []
pseudo_header xs ((p, n) ∷ rest) = slice xs p (p + n) ++ pseudo_header xs rest

-- The bytes from the scope's start to its end, or the frame's, with the checksum's two cleared.
abbrev pub cleared : Bytes → Scope → Bytes
cleared xs s =
    let whole = slice xs s.start (min s.end (length xs)) in
    let at = s.checksum_at - s.start in take at whole ++ 0 ∷ 0 ∷ drop (at + 2) whole

-- The checksum itself, and all that it covers, in one's complement: 0 where the checksum is right.
abbrev pub receiver_words : Bytes → Scope → ℕ
receiver_words xs s =
    (get_or xs s.checksum_at 0 * 256
      + get_or xs (s.checksum_at + 1) 0
      + (word_sum (cleared xs s) + word_sum (pseudo_header xs s.pseudo)))
    % 0xFFFF

-- The two bytes of the checksum are the same.
abbrev pub SameField : Bytes → Bytes → Scope → Type 0
SameField xs ys s =
    (get_or xs s.checksum_at 0 ≡ get_or ys s.checksum_at 0)
    × (get_or xs (s.checksum_at + 1) 0 ≡ get_or ys (s.checksum_at + 1) 0)

two_more : (n : ℕ) → (suc (suc n) % 2 == 0) ≡ (n % 2 == 0)
two_more n = let e : suc (suc n) % 2 ≡ n % 2 = omega arith in ap (λ k. k == 0) e

-- The padded bytes of `_ones_sum`, read as one number from `acc` on.
from_bytes_on-word_sum :
    (acc : ℕ) (xs : Bytes)
    → from_bytes_on acc (if length xs % 2 == 0 then xs else xs ++ 0 ∷ []) % 0xFFFF
      ≡ (acc + word_sum xs) % 0xFFFF
unfolding from_bytes_on
from_bytes_on-word_sum acc [] = omega arith
from_bytes_on-word_sum acc (x ∷ []) = omega arith
from_bytes_on-word_sum acc (x ∷ y ∷ rest) =
    let later = from_bytes_on-word_sum ((acc * 256 + x) * 256 + y) rest in
    elim (Bool-cases (length rest % 2 == 0)) [
      | inl even ↦
          let even_too : (length (x ∷ y ∷ rest) % 2 == 0) ≡ true = two_more (length rest) ∙ even in
          let read = rw even at later in rw even_too (omega (arith, read))
      | inr odd ↦
          let odd_too : (length (x ∷ y ∷ rest) % 2 == 0) ≡ false = two_more (length rest) ∙ odd in
          let read = rw odd at later in rw odd_too (omega (arith, read))
    ]

ones_sum-word_sum : (xs : Bytes) → ones_sum xs ≡ word_sum xs % 0xFFFF
unfolding ones_sum
ones_sum-word_sum xs = from_bytes_on-word_sum 0 xs ∙ omega arith

pseudo_bytes-pseudo_header :
    (xs : Bytes) (ps : List (ℕ × ℕ)) → pseudo_bytes xs ps ≡ pseudo_header xs ps
unfolding pseudo_bytes
pseudo_bytes-pseudo_header xs [] = refl
pseudo_bytes-pseudo_header xs ((p, n) ∷ ps) =
    ap (λ rest. slice xs p (p + n) ++ rest) (pseudo_bytes-pseudo_header xs ps)

pub field_value-get_or :
    (xs : Bytes) (at : ℕ)
    → IsBytes xs
    → field_value xs at ≡ get_or xs at 0 * 256 + get_or xs (at + 1) 0
unfolding field_value
field_value-get_or xs at h =
    omega (arith, shl-bit_or 8 (get_or xs at 0) (get_or xs (at + 1) 0) (get_or-lt xs (at + 1) h))

-- What a receiver sums beside the checksum.
cover_sum-word_sum :
    (xs : Bytes) (s : Scope)
    → cover_sum xs s ≡ (word_sum (cleared xs s) + word_sum (pseudo_header xs s.pseudo)) % 0xFFFF
unfolding total_sum covered zero_field
cover_sum-word_sum xs s =
    let pseudo = ap word_sum (pseudo_bytes-pseudo_header xs s.pseudo) in
    omega (
      arith,
      ones_sum-word_sum (cleared xs s),
      ones_sum-word_sum (pseudo_bytes xs s.pseudo),
      pseudo,
    )

pub receiver_words-eq :
    (xs : Bytes) (s : Scope) (field : ℕ)
    → field ≡ get_or xs s.checksum_at 0 * 256 + get_or xs (s.checksum_at + 1) 0
    → receiver_words xs s ≡ (field + cover_sum xs s) % 0xFFFF
receiver_words-eq xs s field h = omega (arith, h, cover_sum-word_sum xs s)
