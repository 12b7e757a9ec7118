-- ===== src/Prelude/Octets.antt =====
-- Buffers of bytes: slices, writes, and the integers that bytes spell.
use Prim.Native.Nat.{ℕ, zero, suc, ◌+◌, ◌-◌, ◌*◌, ◌/◌, ◌%◌, ◌^◌, ◌≤◌, ◌<◌}
use mathlib.Core.Path.{◌≡◌, refl, sym, ap}
use mathlib.Core.Bool.{Bool, true, false, ◌&&◌}
use mathlib.Core.List.{List, [], ◌∷◌, ◌++◌, reverse, append_assoc}
use native.Mathlib.Omega.{arith}
use pcap_server.Prelude.Elements.{All}
use pcap_server.Prelude.Tests.{◌==◌}
use pcap_server.Prelude.Lists.{length, set, take, drop, get_or}

abbrev pub Bytes : Type 0
Bytes = List ℕ

abbrev pub IsBytes : Bytes → Type 0
IsBytes = All (λ b. b < 256)

pub IsBytes-take : (n : ℕ) (xs : Bytes) → IsBytes xs → IsBytes (take n xs)
IsBytes-take zero xs h = tt
IsBytes-take (suc n) [] h = tt
IsBytes-take (suc n) (x ∷ xs) h = (h.0, IsBytes-take n xs h.1)

pub IsBytes-drop : (n : ℕ) (xs : Bytes) → IsBytes xs → IsBytes (drop n xs)
IsBytes-drop zero xs h = h
IsBytes-drop (suc n) [] h = tt
IsBytes-drop (suc n) (x ∷ xs) h = IsBytes-drop n xs h.1

pub IsBytes-get_or : (xs : Bytes) (i : ℕ) → IsBytes xs → get_or xs i 0 < 256
IsBytes-get_or [] i h = omega arith
IsBytes-get_or (x ∷ xs) zero h = h.0
IsBytes-get_or (x ∷ xs) (suc i) h = IsBytes-get_or xs i h.1

-- `int.from_bytes(bytes, "big")`, on top of the value read so far.
unfoldable pub from_bytes_on : ℕ → Bytes → ℕ
from_bytes_on acc [] = acc
from_bytes_on acc (b ∷ bs) = from_bytes_on (acc * 256 + b) bs

abbrev pub big_endian : Bytes → ℕ
big_endian bs = from_bytes_on 0 bs

abbrev pub little_endian : Bytes → ℕ
little_endian bs = big_endian (reverse bs)

-- The `k` low bytes of a number, the highest first: `struct.pack(">I", n)` for 4.
unfoldable pub be_bytes : ℕ → ℕ → Bytes
be_bytes zero n = []
be_bytes (suc k) n = n / 256 ^ k % 256 ∷ be_bytes k n

pub length-be_bytes : (k n : ℕ) → length (be_bytes k n) ≡ k
unfolding be_bytes
length-be_bytes zero n = refl
length-be_bytes (suc k) n = omega (arith, length-be_bytes k n)

pub IsBytes-be_bytes : (k n : ℕ) → IsBytes (be_bytes k n)
unfolding be_bytes
IsBytes-be_bytes zero n = tt
IsBytes-be_bytes (suc k) n = (omega arith, IsBytes-be_bytes k n)

pub big_endian-be_bytes : (n : ℕ) → n < 2 ^ 32 → big_endian (be_bytes 4 n) ≡ n
unfolding be_bytes from_bytes_on
big_endian-be_bytes n h = omega arith

pub be_bytes-big_endian :
    (xs : Bytes) → length xs ≡ 4 → IsBytes xs → be_bytes 4 (big_endian xs) ≡ xs
unfolding be_bytes from_bytes_on
be_bytes-big_endian [] h b = absurd (omega arith)
be_bytes-big_endian (p ∷ []) h b = absurd (omega arith)
be_bytes-big_endian (p ∷ q ∷ []) h b = absurd (omega arith)
be_bytes-big_endian (p ∷ q ∷ r ∷ []) h b = absurd (omega arith)
be_bytes-big_endian (p ∷ q ∷ r ∷ s ∷ []) h b = ground arith
be_bytes-big_endian (p ∷ q ∷ r ∷ s ∷ t ∷ xs) h b = absurd (omega arith)

-- `b"".join(parts)`
unfoldable pub join : List Bytes → Bytes
join [] = []
join (x ∷ xs) = x ++ join xs

pub join-append : (xs ys : List Bytes) → join (xs ++ ys) ≡ join xs ++ join ys
unfolding join
join-append [] ys = refl
join-append (x ∷ xs) ys = rw (join-append xs ys) (sym (append_assoc x (join xs) (join ys)))

-- `a == b` on bytes.
unfoldable pub bytes_eq : Bytes → Bytes → Bool
bytes_eq [] [] = true
bytes_eq [] (y ∷ ys) = false
bytes_eq (x ∷ xs) [] = false
bytes_eq (x ∷ xs) (y ∷ ys) = x == y && bytes_eq xs ys

pub bytes_eq_refl : (xs : Bytes) → bytes_eq xs xs ≡ true
unfolding bytes_eq
bytes_eq_refl [] = refl
bytes_eq_refl (x ∷ xs) = ground (arith, bytes_eq_refl xs)

pub bytes_eq→eq : (xs ys : Bytes) → bytes_eq xs ys ≡ true → xs ≡ ys
unfolding bytes_eq
bytes_eq→eq [] [] h = refl
bytes_eq→eq [] (y ∷ ys) h = cc
bytes_eq→eq (x ∷ xs) [] h = cc
bytes_eq→eq (x ∷ xs) (y ∷ ys) h = ground (arith, bytes_eq→eq xs ys)

-- `bytes[first:last]`
abbrev pub slice : Bytes → ℕ → ℕ → Bytes
slice xs first last = take (last - first) (drop first xs)

module _ (v : ℕ) where
  pub drop-set_before : (n : ℕ) (xs : Bytes) (i : ℕ) → i < n → drop n (set xs i v) ≡ drop n xs
  drop-set_before zero xs i h = elim h [ ]
  drop-set_before (suc n) [] i h = refl
  drop-set_before (suc n) (x ∷ xs) zero h = refl
  drop-set_before (suc n) (x ∷ xs) (suc i) h = drop-set_before n xs i (omega arith)

  pub take-set_after : (n : ℕ) (xs : Bytes) (i : ℕ) → n ≤ i → take n (set xs i v) ≡ take n xs
  take-set_after zero xs i h = refl
  take-set_after (suc n) [] i h = refl
  take-set_after (suc n) (x ∷ xs) zero h = absurd (omega arith)
  take-set_after (suc n) (x ∷ xs) (suc i) h = ap (◌∷◌ x) (take-set_after n xs i (omega arith))

  take-set : (n : ℕ) (xs : Bytes) (i : ℕ) → take n (set xs i v) ≡ set (take n xs) i v
  take-set zero xs i = refl
  take-set (suc n) [] i = refl
  take-set (suc n) (x ∷ xs) zero = refl
  take-set (suc n) (x ∷ xs) (suc i) = ap (◌∷◌ x) (take-set n xs i)

  drop-set : (n : ℕ) (xs : Bytes) (i j : ℕ) → n + j ≡ i → drop n (set xs i v) ≡ set (drop n xs) j v
  drop-set zero xs i j e = let e' : i ≡ j = omega arith in rw e'
  drop-set (suc n) [] i j e = refl
  drop-set (suc n) (x ∷ xs) zero j e = absurd (omega arith)
  drop-set (suc n) (x ∷ xs) (suc i) j e = drop-set n xs i j (omega arith)

  -- A write in front of a slice, behind it, or at `j` in it.
  pub slice-set_before :
      (xs : Bytes) (first last i : ℕ)
      → i < first
      → slice (set xs i v) first last ≡ slice xs first last
  slice-set_before xs first last i h = ap (take (last - first)) (drop-set_before first xs i h)

  pub slice-set :
      (xs : Bytes) (first last i j : ℕ)
      → first + j ≡ i
      → slice (set xs i v) first last ≡ set (slice xs first last) j v
  slice-set xs first last i j e =
      rw (drop-set first xs i j e) (take-set (last - first) (drop first xs) j)

  pub slice-set_after :
      (xs : Bytes) (first last i : ℕ)
      → first ≤ i
      → last ≤ i
      → slice (set xs i v) first last ≡ slice xs first last
  slice-set_after xs first last i h h' = rw (slice-set xs first last i (i - first) (omega arith)) (
      rw (← take-set (last - first) (drop first xs) (i - first))
        (take-set_after (last - first) (drop first xs) (i - first) (omega arith)))

  pub get_or-set_ne : (xs : Bytes) (i j d : ℕ) → ¬ (i ≡ j) → get_or (set xs i v) j d ≡ get_or xs j d
  get_or-set_ne [] i j d h = refl
  get_or-set_ne (x ∷ xs) zero zero d h = absurd (h refl)
  get_or-set_ne (x ∷ xs) zero (suc j) d h = refl
  get_or-set_ne (x ∷ xs) (suc i) zero d h = refl
  get_or-set_ne (x ∷ xs) (suc i) (suc j) d h = get_or-set_ne xs i j d (λ e. h (ap suc e))

  pub get_or-set_self : (xs : Bytes) (i d : ℕ) → i < length xs → get_or (set xs i v) i d ≡ v
  get_or-set_self [] i d h = elim h [ ]
  get_or-set_self (x ∷ xs) zero d h = refl
  get_or-set_self (x ∷ xs) (suc i) d h = get_or-set_self xs i d (omega arith)
