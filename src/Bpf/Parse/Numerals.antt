-- ===== src/Bpf/Parse/Numerals.antt =====
-- What `int` and `range` make of the digits of a port term.
use pcap_server.Prelude.{
  ℕ, zero, suc, ◌+◌, ◌-◌, ◌*◌, ◌≡◌, ◌≤◌, refl, sym, ap, ap₂, ◌∙◌, subst, Bool, true, false, [], ◌∷◌,
  ◌++◌, Option, none, some, Text, arith, inl, inr, if◌then◌else◌, ◌==◌, ==→eq, member, Bool-cases,
}
use mathlib.Core.List.{append_assoc, append-nil}
use mathlib.Core.Option.{some-injective}
use pcap_server.Bpf.Parse.{is_ascii_digit, digits_value, number_of, split_dash, ports_from}
use pcap_server.Bpf.Parse.PortTerms.{IsNumeral, digit, behind}

pub taken-if {ℓ κ} :
    {A : Type ℓ} {G : Type κ} (b : Bool) (x y : Option A) (a : A)
    → (b ≡ true → x ≡ some a → G)
    → (b ≡ false → y ≡ some a → G)
    → (if b then x else y) ≡ some a
    → G
taken-if true x y a f g h = f refl h
taken-if false x y a f g h = g refl h

pub taken-bind {ℓ ι κ} :
    {A : Type ℓ} {B : Type ι} {G : Type κ} (o : Option A) (f : A → Option B) (b : B)
    → ((a : A) → o ≡ some a → f a ≡ some b → G)
    → elim o [ none ↦ none | some a ↦ f a ] ≡ some b
    → G
taken-bind none f b g h = absurd (cc h)
taken-bind (some a) f b g h = g a refl h

IsNumeral-digits_value :
    (cs u : Text) (n m : ℕ) → IsNumeral u n → digits_value n cs ≡ some m → IsNumeral (u ++ cs) m
unfolding digits_value
IsNumeral-digits_value [] u n m i h =
    subst (IsNumeral (u ++ [])) (some-injective _ _ h)
      (subst (λ z. IsNumeral z n) (sym (append-nil u)) i)
IsNumeral-digits_value (c ∷ cs) u n m i h =
    taken-if (is_ascii_digit c) _ _ m
      (λ d found.
        let e : 0x30 + (c - 0x30) ≡ c = ground (arith, d) in
        let next : IsNumeral (u ++ c ∷ []) (n * 10 + (c - 0x30)) =
          subst (λ z. IsNumeral (u ++ z ∷ []) (n * 10 + (c - 0x30))) e
            (behind u n (c - 0x30) i (ground (arith, d))) in
        subst (λ z. IsNumeral z m) (append_assoc u (c ∷ []) cs)
          (IsNumeral-digits_value cs (u ++ c ∷ []) (n * 10 + (c - 0x30)) m next found))
      (λ d found. absurd (cc found)) h

pub IsNumeral-number_of : (t : Text) (m : ℕ) → number_of t ≡ some m → IsNumeral t m
unfolding number_of digits_value
IsNumeral-number_of [] m h = absurd (cc h)
IsNumeral-number_of (c ∷ cs) m h =
    taken-if (is_ascii_digit c) _ _ m
      (λ d found.
        let e : 0x30 + (c - 0x30) ≡ c = ground (arith, d) in
        let front : c - 0x30 ≡ 0 * 10 + (c - 0x30) = omega arith in
        let first : IsNumeral (c ∷ []) (c - 0x30) =
          subst (λ z. IsNumeral (z ∷ []) (c - 0x30)) e (digit (c - 0x30) (ground (arith, d))) in
        IsNumeral-digits_value cs (c ∷ []) (0 * 10 + (c - 0x30)) m
          (subst (IsNumeral (c ∷ [])) front first) found)
      (λ d found. absurd (cc found)) h

pub append-split_dash : (t u w : Text) → split_dash t ≡ some (u, w) → t ≡ u ++ 0x2D ∷ w
unfolding split_dash
append-split_dash [] u w h = absurd (cc h)
append-split_dash (c ∷ cs) u w h = by_rest (split_dash cs) (append-split_dash cs) h
  where
    found_here :
        (c == 0x2D) ≡ true
        → ◌≡◌ {A = Option (Text × Text)} (some ([], cs)) (some (u, w))
        → c ∷ cs ≡ u ++ 0x2D ∷ w
    found_here d k =
        ap₂ (λ x xs. x ∷ xs) (==→eq c 0x2D d) refl
        ∙ ap (λ q. q.0 ++ 0x2D ∷ q.1) (some-injective _ _ k)

    by_rest :
        (o : Option (Text × Text))
        → ((low high : Text) → o ≡ some (low, high) → cs ≡ low ++ 0x2D ∷ high)
        → ◌≡◌ {A = Option (Text × Text)}
            (elim o [
              | none ↦ if c == 0x2D then some ([], cs) else none
              | some (low, high) ↦ if c == 0x2D then some ([], cs) else some (c ∷ low, high)
            ])
            (some (u, w))
        → c ∷ cs ≡ u ++ 0x2D ∷ w
    by_rest none before k =
        taken-if (c == 0x2D) _ _ (u, w) found_here (λ d found. absurd (cc found)) k
    by_rest (some (low, high)) before k =
        taken-if (c == 0x2D) _ _ (u, w) found_here
          (λ d found.
            ap (◌∷◌ c) (before low high refl)
            ∙ ap (λ q. q.0 ++ 0x2D ∷ q.1) (some-injective _ _ found))
          k

pub member-ports_from :
    (n low z : ℕ) → low ≤ z → z ≤ low + n → member z (ports_from low (suc n)) ≡ true
unfolding ports_from
member-ports_from zero low z h k = ground (arith, h, k)
member-ports_from (suc n) low z h k = elim (Bool-cases (z == low)) [
  | inl same ↦ ground (arith, same)
  | inr other ↦
      let rest = member-ports_from n (low + 1) z (ground (arith, h, other)) (omega (arith, k)) in
      ground (arith, other, rest)
]

digits_value-append :
    (u : Text) (k n d : ℕ)
    → digits_value k u ≡ some n
    → d ≤ 9
    → digits_value k (u ++ (0x30 + d) ∷ []) ≡ some (n * 10 + d)
unfolding digits_value
digits_value-append [] k n d h l =
    let is_digit : is_ascii_digit (0x30 + d) ≡ true = ground (arith, l) in
    let e : k ≡ n = some-injective _ _ h in
    let v : k * 10 + (0x30 + d - 0x30) ≡ n * 10 + d = omega (arith, e) in rw is_digit (ap some v)
digits_value-append (c ∷ cs) k n d h l =
    taken-if (is_ascii_digit c) _ _ n
      (λ e found. rw e (digits_value-append cs (k * 10 + (c - 0x30)) n d found l))
      (λ e found. absurd (cc found)) h

-- The number that digits write is the one that `int` makes of them.
pub number_of-IsNumeral : (u : Text) (n : ℕ) → IsNumeral u n → number_of u ≡ some n
unfolding number_of digits_value
number_of-IsNumeral _ _ (digit d l) =
    let is_digit : is_ascii_digit (0x30 + d) ≡ true = ground (arith, l) in
    let v : 0 * 10 + (0x30 + d - 0x30) ≡ d = omega arith in rw is_digit (ap some v)
number_of-IsNumeral _ _ (behind [] n d i l) = absurd (cc (number_of-IsNumeral [] n i))
number_of-IsNumeral _ _ (behind (c ∷ cs) n d i l) =
    digits_value-append (c ∷ cs) 0 n d (number_of-IsNumeral (c ∷ cs) n i) l
