-- ===== src/Anonymize/Names/Shape.antt =====
-- The length and the classes of characters of a stand-in.
use pcap_server.Prelude.{
  ℕ, zero, suc, ◌+◌, ◌≡◌, ◌≤◌, ◌<◌, refl, ap, Bool, true, false, [], ◌∷◌, ◌++◌, Bytes, ltb, length,
  be_bytes, length-append, length-take, arith, Text, Bool-cases, inl, inr,
}
use pcap_server.Anonymize.{Primitives}
use pcap_server.Anonymize.Names.{between, apply_byte, apply, extend_stream, stream, text}

abbrev is_lower : ℕ → Bool
is_lower b = between 0x61 0x7A b

abbrev is_upper : ℕ → Bool
is_upper b = between 0x41 0x5A b

abbrev is_digit : ℕ → Bool
is_digit b = between 0x30 0x39 b

-- A letter stays a letter of its case, a digit a digit, a byte of a longer character becomes a small
-- letter, and all else stays as it is.
pub record SameClass (b c : ℕ) : Type 0 where
  pub lower : is_lower b ≡ true → is_lower c ≡ true
  pub upper : is_upper b ≡ true → is_upper c ≡ true
  pub digit : is_digit b ≡ true → is_digit c ≡ true
  pub long : 0x80 ≤ b → is_lower c ≡ true
  pub other : is_lower b ≡ false → is_upper b ≡ false → is_digit b ≡ false → b < 0x80 → c ≡ b

-- The same at each place of two byte strings of one length.
abbrev pub SameShape : Bytes → Bytes → Type 0
SameShape [] [] = Unit
SameShape (b ∷ bs) (c ∷ cs) = SameClass b c × SameShape bs cs
SameShape _ _ = ⊥

SameClass-apply_byte : (b pick : ℕ) → SameClass b (apply_byte b pick)
unfolding apply_byte
SameClass-apply_byte b pick = record {
  lower = λ h. ground (arith, h);
  upper = λ h. ground (arith, h);
  digit = λ h. ground (arith, h);
  long = λ h. ground (arith, h);
  other = λ h h' h'' k. ground (arith, h, h', h'', k);
}

SameShape-apply : (bs picks : Bytes) → length picks ≡ length bs → SameShape bs (apply bs picks)
unfolding apply
SameShape-apply [] picks h = tt
SameShape-apply (b ∷ bs) [] h = absurd (omega arith)
SameShape-apply (b ∷ bs) (p ∷ ps) h =
    (SameClass-apply_byte b p, SameShape-apply bs ps (omega arith))

pub length-apply : (bs picks : Bytes) → length (apply bs picks) ≡ length bs
unfolding apply
length-apply [] picks = refl
length-apply (b ∷ bs) [] = refl
length-apply (b ∷ bs) (p ∷ ps) = ap suc (length-apply bs ps)

module _ (p : Primitives) where
  -- Each round adds 32 bytes, so that as many rounds as bytes are wanted are enough.
  length-extend_stream :
      (k : ℕ) (key seed : Bytes) (counter : ℕ) (out : Bytes) (len : ℕ)
      → len ≤ length out + k
      → len ≤ length (extend_stream p k key seed counter out len)
  unfolding extend_stream
  length-extend_stream zero key seed counter out len h = omega arith
  length-extend_stream (suc k) key seed counter out len h =
      let block = p.hmac key (seed ++ be_bytes 4 counter) in
      let grown = length-append out block in
      let size = p.length-hmac key (seed ++ be_bytes 4 counter) in
      elim (Bool-cases (ltb (length out) len)) [
        | inl short ↦ rw short (
            length-extend_stream k key seed (counter + 1) (out ++ block) len
              (omega (arith, grown, size)))
        | inr enough ↦ rw enough (ground (arith, enough))
      ]

  pub length-stream :
      (key kind : Bytes) (value : Text) (len : ℕ) → length (stream p key kind value len) ≡ len
  unfolding stream
  length-stream key kind value len =
      let seed = kind ++ 0x00 ∷ p.lower_utf8 value in
      omega (
        arith,
        length-take len (extend_stream p len key seed 0 [] len),
        length-extend_stream len key seed 0 [] len (omega arith),
      )

  -- A stand-in has the length of the original, and at each place a character of the same class, for
  -- every key, kind and value.
  pub SameShape-text :
      (key kind : Bytes) (value : Text) (template : Bytes)
      → (length (text p key kind value template) ≡ length template)
        × SameShape template (text p key kind value template)
  unfolding text
  SameShape-text key kind value template =
      let picks = stream p key kind value (length template) in
      (
        length-apply template picks,
        SameShape-apply template picks (length-stream key kind value (length template)),
      )
