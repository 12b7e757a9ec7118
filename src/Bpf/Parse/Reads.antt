-- ===== src/Bpf/Parse/Reads.antt =====
-- What a filter says of a packet, whatever the precedence of "and" and "or", and how the operators
-- outside all brackets show in a reading.
use pcap_server.Prelude.{
  ◌≡◌, refl, sym, ap, ap₂, ◌∙◌, subst, Bool, true, false, ◌||◌, ◌&&◌, List, [], ◌∷◌, ◌++◌, Text,
  arith, bytes_eq, bytes_eq→eq,
}
use pcap_server.Anonymize.Names.{member_text}
use pcap_server.Bpf.Search.{Packet}
use pcap_server.Bpf.Tokens.{
  Tokens, opening, closing, or_words, and_words, next_depth, falls, is_bracket, splits, balanced,
  drop_last, ends_closing, is_wrapped, inner,
}
use pcap_server.Bpf.Parse.Depth.{
  top, balanced-append, balanced-closing, top-append, top-wrapped, splits-next_depth,
}
use pcap_server.Bpf.Parse.Terms.{plain, not_reserved}

-- A term: no operator stands outside its brackets, which pair up, and no pair surrounds it.
abbrev pub IsLeaf : Tokens → Type 0
IsLeaf ts =
    (balanced 0 ts ≡ true)
    × (top or_words 0 ts ≡ false)
    × (top and_words 0 ts ≡ false)
    × ((is_wrapped ts && balanced 0 (inner ts)) ≡ false)

-- A packet meets the tokens, in one way of reading them.
pub data Reads {ℓ} (Term : Packet → Tokens → Type ℓ) (p : Packet) : Tokens → Type ℓ where
  term : (ts : Tokens) → IsLeaf ts → Term p ts → Reads Term p ts
  parens : (us ts : Tokens) → Reads Term p us → ts ≡ opening ∷ us ++ closing ∷ [] → Reads Term p ts
  both :
      (xs ys ts : Tokens) (op : Text)
      → Reads Term p xs
      → Reads Term p ys
      → member_text op and_words ≡ true
      → ts ≡ xs ++ op ∷ ys
      → Reads Term p ts
  either_left :
      (xs ys ts : Tokens) (op : Text)
      → Reads Term p xs
      → balanced 0 ys ≡ true
      → member_text op or_words ≡ true
      → ts ≡ xs ++ op ∷ ys
      → Reads Term p ts
  either_right :
      (xs ys ts : Tokens) (op : Text)
      → balanced 0 xs ≡ true
      → Reads Term p ys
      → member_text op or_words ≡ true
      → ts ≡ xs ++ op ∷ ys
      → Reads Term p ts

-- An operator is no bracket.
pub splits_and : (op : Text) → member_text op and_words ≡ true → splits and_words 0 op ≡ true
unfolding splits is_bracket bytes_eq
splits_and op h =
    let e = not_reserved (λ t. member_text t and_words) (opening ∷ closing ∷ []) refl op h in
    ground (arith, e, h)

pub splits_or : (op : Text) → member_text op or_words ≡ true → splits or_words 0 op ≡ true
unfolding splits is_bracket bytes_eq
splits_or op h =
    let e = not_reserved (λ t. member_text t or_words) (opening ∷ closing ∷ []) refl op h in
    ground (arith, e, h)

not_falls : (ops : List Text) (op : Text) → splits ops 0 op ≡ true → falls 0 op ≡ false
unfolding falls splits is_bracket
not_falls ops op h = ground (arith, h)

balanced-operator :
    (ops : List Text) (op : Text) (ys : Tokens)
    → splits ops 0 op ≡ true
    → balanced 0 ys ≡ true
    → balanced 0 (op ∷ ys) ≡ true
unfolding balanced falls splits is_bracket
balanced-operator ops op ys h k =
    let e = splits-next_depth ops op h in let n = not_falls ops op h in rw (e, n, k)

balanced-wrapped :
    (us : Tokens) → balanced 0 us ≡ true → balanced 0 (opening ∷ us ++ closing ∷ []) ≡ true
unfolding balanced falls next_depth bytes_eq
balanced-wrapped us h = balanced-closing 0 us h

-- An operator between balanced operands stands outside all brackets.
pub top-operator :
    (ops : List Text) (xs : Tokens) (op : Text) (ys : Tokens)
    → balanced 0 xs ≡ true
    → splits ops 0 op ≡ true
    → top ops 0 (xs ++ op ∷ ys) ≡ true
unfolding top
top-operator ops xs op ys b h =
    top-append ops 0 xs (op ∷ ys) b ∙ at_operator (top ops 0 xs) (splits ops 0 op) _ h
  where
    at_operator : (a b c : Bool) → b ≡ true → (a || (b || c)) ≡ true
    at_operator a b c k = ground (arith, k)

pub top-brackets :
    (ops : List Text) (us : Tokens)
    → balanced 0 us ≡ true
    → top ops 0 (opening ∷ us ++ closing ∷ []) ≡ false
unfolding top splits is_bracket next_depth bytes_eq
top-brackets ops us h = top-wrapped ops 0 us h

module _ {ℓ} (Term : Packet → Tokens → Type ℓ) (p : Packet) where
  pub Reads-balanced : (ts : Tokens) → Reads Term p ts → balanced 0 ts ≡ true
  Reads-balanced ts (term _ h t) = h.0
  Reads-balanced ts (parens us _ r e) =
      subst (λ zs. balanced 0 zs ≡ true) (sym e) (balanced-wrapped us (Reads-balanced us r))
  Reads-balanced ts (both xs ys _ op r s h e) =
      subst (λ zs. balanced 0 zs ≡ true) (sym e)
        (balanced-append 0 xs (op ∷ ys) (Reads-balanced xs r)
          (balanced-operator and_words op ys (splits_and op h) (Reads-balanced ys s)))
  Reads-balanced ts (either_left xs ys _ op r b h e) =
      subst (λ zs. balanced 0 zs ≡ true) (sym e)
        (balanced-append 0 xs (op ∷ ys) (Reads-balanced xs r)
          (balanced-operator or_words op ys (splits_or op h) b))
  Reads-balanced ts (either_right xs ys _ op b s h e) =
      subst (λ zs. balanced 0 zs ≡ true) (sym e)
        (balanced-append 0 xs (op ∷ ys) b
          (balanced-operator or_words op ys (splits_or op h) (Reads-balanced ys s)))

ends_closing-drop_last : (us : Tokens) → ends_closing us ≡ true → us ≡ drop_last us ++ closing ∷ []
unfolding ends_closing drop_last
ends_closing-drop_last [] k = cc k
ends_closing-drop_last (u ∷ []) k = ap (λ w. w ∷ []) (bytes_eq→eq u closing k)
ends_closing-drop_last (u ∷ v ∷ us) k = ap (◌∷◌ u) (ends_closing-drop_last (v ∷ us) k)

drop_last-append : (us : Tokens) (w : Text) → drop_last (us ++ w ∷ []) ≡ us
unfolding drop_last
drop_last-append [] w = refl
drop_last-append (u ∷ []) w = refl
drop_last-append (u ∷ v ∷ us) w = ap (◌∷◌ u) (drop_last-append (v ∷ us) w)

-- The brackets that `_strip_parens` takes off.
pub is_wrapped-inner :
    (ts : Tokens) → is_wrapped ts ≡ true → ts ≡ opening ∷ inner ts ++ closing ∷ []
unfolding is_wrapped inner
is_wrapped-inner [] h = cc h
is_wrapped-inner (t ∷ ts) h =
    ap₂ (λ w us. w ∷ us) (bytes_eq→eq t opening (ground (arith, h)))
      (ends_closing-drop_last ts (ground (arith, h)))

inner-brackets : (us : Tokens) → inner (opening ∷ us ++ closing ∷ []) ≡ us
unfolding inner
inner-brackets us = drop_last-append us closing

-- Tokens that a pair of brackets surrounds have no operator outside all brackets.
pub top-is_wrapped :
    (ops : List Text) (ts : Tokens)
    → is_wrapped ts ≡ true
    → balanced 0 (inner ts) ≡ true
    → top ops 0 ts ≡ false
top-is_wrapped ops ts h k =
    subst (λ zs. top ops 0 zs ≡ false) (sym (is_wrapped-inner ts h)) (top-brackets ops (inner ts) k)

pub plain_starts : (ts : Tokens) → plain (opening ∷ ts) ≡ true → ⊥
unfolding bytes_eq
plain_starts ts h = cc h

apart :
    (ops : List Text) (ts xs : Tokens) (op : Text) (ys : Tokens)
    → is_wrapped ts ≡ true
    → balanced 0 (inner ts) ≡ true
    → balanced 0 xs ≡ true
    → splits ops 0 op ≡ true
    → ts ≡ xs ++ op ∷ ys
    → ⊥
apart ops ts xs op ys w b c h e =
    let inside = top-is_wrapped ops ts w b in
    let outside : top ops 0 ts ≡ true =
      subst (λ zs. top ops 0 zs ≡ true) (sym e) (top-operator ops xs op ys c h) in
    cc (inside, outside)

module _ {ℓ} (Term : Packet → Tokens → Type ℓ) (p : Packet) where
  pub Reads-inner :
      (ts : Tokens)
      → is_wrapped ts ≡ true
      → balanced 0 (inner ts) ≡ true
      → Reads Term p ts
      → Reads Term p (inner ts)
  Reads-inner ts w b (term _ h t) =
      let none_around = h.3 in absurd (cc (none_around, ap₂ (◌&&◌) w b))
  Reads-inner ts w b (parens us _ r e) =
      subst (λ zs. Reads Term p zs) (sym (ap inner e ∙ inner-brackets us)) r
  Reads-inner ts w b (both xs ys _ op r s h e) =
      absurd (apart and_words ts xs op ys w b (Reads-balanced Term p xs r) (splits_and op h) e)
  Reads-inner ts w b (either_left xs ys _ op r k h e) =
      absurd (apart or_words ts xs op ys w b (Reads-balanced Term p xs r) (splits_or op h) e)
  Reads-inner ts w b (either_right xs ys _ op k s h e) =
      absurd (apart or_words ts xs op ys w b k (splits_or op h) e)
