-- ===== src/Sanitizer/Rewriter/Writes.antt =====
-- A slice assignment in a frame: its length, and what it leaves alone.
use pcap_server.Prelude.{
  ℕ, zero, suc, ◌+◌, ◌-◌, ◌≡◌, ◌≤◌, ◌<◌, ◌⊎◌, inl, inr, refl, ◌∙◌, [], ◌∷◌, ◌++◌, Bytes, length,
  take, drop, get_or, arith, length-append, length-take, length-drop, get_or-append_lt,
  get_or-append_past,
}
use pcap_server.Sanitizer.Masks.{assign}

-- A place that does not contain an index.
abbrev pub Misses : ℕ → ℕ × ℕ → Type 0
Misses i place = (i < place.0) ⊎ (place.0 + place.1 ≤ i)

pub get_or-take : (n : ℕ) (xs : Bytes) (i d : ℕ) → i < n → get_or (take n xs) i d ≡ get_or xs i d
get_or-take zero xs i d h = elim h [ ]
get_or-take (suc n) [] i d h = refl
get_or-take (suc n) (x ∷ xs) zero d h = refl
get_or-take (suc n) (x ∷ xs) (suc i) d h = get_or-take n xs i d (omega arith)

pub get_or-drop :
    (n : ℕ) (xs : Bytes) (i j d : ℕ) → n + j ≡ i → get_or (drop n xs) j d ≡ get_or xs i d
get_or-drop zero xs i j d h = let e : j ≡ i = omega arith in rw e
get_or-drop (suc n) [] i j d h = refl
get_or-drop (suc n) (x ∷ xs) zero j d h = absurd (omega arith)
get_or-drop (suc n) (x ∷ xs) (suc i) j d h = get_or-drop n xs i j d (omega arith)

module _ (xs new : Bytes) (position len : ℕ) (room : position + len ≤ length xs)
    (size : length new ≡ len) where
  front : length (take position xs ++ new) ≡ position + len
  front = omega (arith, room, size, length-append (take position xs) new, length-take position xs)

  pub length-assign : length (assign xs position len new) ≡ length xs
  length-assign = omega (
    arith,
    room,
    front,
    length-append (take position xs ++ new) (drop (position + len) xs),
    length-drop (position + len) xs,
  )

  pub get_or-assign :
      (i : ℕ) → Misses i (position, len) → get_or (assign xs position len new) i 0 ≡ get_or xs i 0
  get_or-assign i (inl before) =
      let inside : i < length (take position xs ++ new) = omega (arith, front, before) in
      let first : i < length (take position xs) =
        omega (arith, before, room, length-take position xs) in
      get_or-append_lt (take position xs ++ new) (drop (position + len) xs) i 0 inside
      ∙ get_or-append_lt (take position xs) new i 0 first
      ∙ get_or-take position xs i 0 before
  get_or-assign i (inr after) =
      let gap : position + len + (i - (position + len)) ≡ i = omega (arith, after) in
      let gap' : length (take position xs ++ new) + (i - (position + len)) ≡ i =
        omega (arith, after, front) in
      get_or-append_past (take position xs ++ new) (drop (position + len) xs) i
        (i - (position + len)) 0 gap'
      ∙ get_or-drop (position + len) xs i (i - (position + len)) 0 gap
