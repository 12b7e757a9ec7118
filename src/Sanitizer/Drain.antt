-- ===== src/Sanitizer/Drain.antt =====
-- backend/sanitizer.py: `_drain`, over the chunks that a tool's stderr gives, and `check_capture`.
use pcap_server.Prelude.{
  ℕ, zero, suc, ◌-◌, ◌≡◌, ◌≤◌, refl, sym, ap, ◌∙◌, List, [], ◌∷◌, ◌++◌, Bytes, ltb, length, take,
  if◌then◌else◌, join, arith, length-take, take-append, Bool-cases, inl, inr,
}
use mathlib.Core.List.{append_assoc, append-nil}
use pcap_server.Sanitizer.{Attempt, ok, ◌>>=◌}
use pcap_server.Sanitizer.Reader.{new_reader, global_header}

-- The loop of `_drain`: `kept` is what was kept so far.
unfoldable pub drain_on : ℕ → Bytes → List Bytes → Bytes
drain_on cap kept [] = kept
drain_on cap kept (chunk ∷ rest) =
    drain_on cap (if ltb (length kept) cap then kept ++ take (cap - length kept) chunk else kept)
      rest

unfoldable pub drain : ℕ → List Bytes → Bytes
drain cap chunks = drain_on cap [] chunks

unfoldable pub check_capture : List Bytes → Attempt Unit
check_capture chunks = do opened ← global_header (new_reader chunks); ok tt

take-append_split :
    (n : ℕ) (xs ys : Bytes) → take n (xs ++ ys) ≡ take n xs ++ take (n - length xs) ys
take-append_split zero [] ys = refl
take-append_split zero (x ∷ xs) ys =
    let none_left : 0 ≡ 0 - suc (length xs) = omega arith in ap (λ k. take k ys) none_left
take-append_split (suc n) [] ys =
    let all_left : suc n ≡ suc n - 0 = omega arith in ap (λ k. take k ys) all_left
take-append_split (suc n) (x ∷ xs) ys =
    let left : n - length xs ≡ suc n - suc (length xs) = omega arith in
    ap (◌∷◌ x) (take-append_split n xs ys ∙ ap (λ k. take n xs ++ take k ys) left)

take_short : (n : ℕ) (xs : Bytes) → length xs ≤ n → take n xs ≡ xs
take_short zero [] h = refl
take_short zero (x ∷ xs) h = absurd (omega (arith, h))
take_short (suc n) [] h = refl
take_short (suc n) (x ∷ xs) h = ap (◌∷◌ x) (take_short n xs (omega (arith, h)))

take-take_append : (n : ℕ) (xs ys : Bytes) → take n (take n xs ++ ys) ≡ take n (xs ++ ys)
take-take_append zero xs ys = refl
take-take_append (suc n) [] ys = refl
take-take_append (suc n) (x ∷ xs) ys = ap (◌∷◌ x) (take-take_append n xs ys)

drain_on-take :
    (cap : ℕ) (kept : Bytes) (chunks : List Bytes)
    → length kept ≤ cap
    → drain_on cap kept chunks ≡ take cap (kept ++ join chunks)
unfolding drain_on join
drain_on-take cap kept [] h = sym (take_short cap kept h) ∙ ap (take cap) (sym (append-nil kept))
drain_on-take cap kept (chunk ∷ rest) h = elim (Bool-cases (ltb (length kept) cap)) [
  | inl room ↦
      let more = kept ++ take (cap - length kept) chunk in
      let cut : more ≡ take cap (kept ++ chunk) =
        ap (λ xs. xs ++ take (cap - length kept) chunk) (sym (take_short cap kept h))
        ∙ sym (take-append_split cap kept chunk) in
      let fits : length more ≤ cap =
        omega (arith, ap length cut, length-take cap (kept ++ chunk)) in
      rw room (
        drain_on-take cap more rest fits
        ∙ ap (λ xs. take cap (xs ++ join rest)) cut
        ∙ take-take_append cap (kept ++ chunk) (join rest)
        ∙ ap (take cap) (append_assoc kept chunk (join rest)))
  | inr full ↦
      let size : length kept ≡ cap = ground (arith, full, h) in
      rw full (
        drain_on-take cap kept rest h
        ∙ take-append cap kept (join rest) size
        ∙ sym (take-append cap kept (chunk ++ join rest) size))
]

-- What _drain returns is the start of what the tool wrote, up to the cap, however it came in chunks.
pub drain-take : (cap : ℕ) (chunks : List Bytes) → drain cap chunks ≡ take cap (join chunks)
unfolding drain
drain-take cap chunks = drain_on-take cap [] chunks (omega arith)
