-- ===== src/Bpf/Parse/Depth.antt =====
-- Bracket depth in the token lists of backend/bpf.py: what balances, which operators stand outside
-- all brackets, and the groups of `_split_top_level`.
use pcap_server.Prelude.{
  ℕ, suc, ◌≡◌, refl, sym, ap, ◌∙◌, subst, Bool, true, false, ◌||◌, List, [], ◌∷◌, ◌++◌, Option,
  none, some, Text, arith, bytes_eq, Bool-cases, inl, inr, if◌then◌else◌,
}
use mathlib.Core.Option.{some-injective}
use pcap_server.Bpf.Tokens.{
  Tokens, Groups, closing, next_depth, falls, is_bracket, splits, parts, add_token, split_from,
  balanced,
}

-- Whether one of the operators stands outside all brackets.
unfoldable pub top : List Text → ℕ → Tokens → Bool
top ops d [] = false
top ops d (t ∷ ts) = splits ops d t || top ops (next_depth d t) ts

-- The groups, whether the brackets balance or not.
unfoldable pub cut : List Text → ℕ → Tokens → Groups
cut ops d [] = ([], [])
cut ops d (t ∷ ts) = add_token (splits ops d t) t (cut ops (next_depth d t) ts)

pub split_from-cut :
    (ops : List Text) (d : ℕ) (ts : Tokens) (g : Groups)
    → split_from ops d ts ≡ some g
    → g ≡ cut ops d ts
unfolding split_from cut
split_from-cut ops d [] g h = ground (arith, h)
split_from-cut ops d (t ∷ ts) g h =
    step (split_from ops (next_depth d t) ts) (falls d t) (split_from-cut ops (next_depth d t) ts) h
  where
    step :
        (o : Option Groups) (over : Bool)
        → ((m : Groups) → o ≡ some m → m ≡ cut ops (next_depth d t) ts)
        → elim o [
          | none ↦ none
          | some m ↦ if over then none else some (add_token (splits ops d t) t m)
        ]
          ≡ some g
        → g ≡ add_token (splits ops d t) t (cut ops (next_depth d t) ts)
    step none over same k = cc k
    step (some m) true same k = cc k
    step (some m) false same k =
        sym (some-injective _ _ k) ∙ ap (add_token (splits ops d t) t) (same m refl)

pub balanced-later :
    (d : ℕ) (t : Text) (ts : Tokens)
    → balanced d (t ∷ ts) ≡ true
    → balanced (next_depth d t) ts ≡ true
unfolding balanced
balanced-later d t ts h = ground (arith, h)

balanced-stays : (d : ℕ) (t : Text) (ts : Tokens) → balanced d (t ∷ ts) ≡ true → falls d t ≡ false
unfolding balanced
balanced-stays d t ts h = ground (arith, h)

-- A token that does not close a bracket too many does the same one level deeper.
next_depth-suc :
    (d : ℕ) (t : Text) → falls d t ≡ false → next_depth (suc d) t ≡ suc (next_depth d t)
unfolding next_depth falls
next_depth-suc d t h = ground (arith, h)

falls-suc : (d : ℕ) (t : Text) → falls (suc d) t ≡ false
unfolding falls
falls-suc d t = ground arith

pub balanced-append :
    (d : ℕ) (xs ys : Tokens)
    → balanced d xs ≡ true
    → balanced 0 ys ≡ true
    → balanced d (xs ++ ys) ≡ true
unfolding balanced
balanced-append d [] ys h k = let e : d ≡ 0 = ground (arith, h) in rw (e, k)
balanced-append d (t ∷ ts) ys h k = ground (
  arith,
  balanced-append (next_depth d t) ts ys (balanced-later d t ts h) k,
  balanced-stays d t ts h,
)

-- A bracket closed behind balanced tokens.
pub balanced-closing :
    (d : ℕ) (us : Tokens) → balanced d us ≡ true → balanced (suc d) (us ++ closing ∷ []) ≡ true
unfolding balanced falls next_depth bytes_eq
balanced-closing d [] h = let e : d ≡ 0 = ground (arith, h) in rw e
balanced-closing d (t ∷ ts) h =
    let rest = balanced-closing (next_depth d t) ts (balanced-later d t ts h) in
    let e = next_depth-suc d t (balanced-stays d t ts h) in let f = falls-suc d t in rw (e, f, rest)

balanced-nil : (d : ℕ) → balanced d [] ≡ true → d ≡ 0
unfolding balanced
balanced-nil d h = ground (arith, h)

-- Brackets are no operators, and operators are no brackets.
or_assoc : (a b c : Bool) → (a || (b || c)) ≡ (a || b || c)
or_assoc true b c = refl
or_assoc false b c = refl

splits-closing : (ops : List Text) (d : ℕ) → splits ops d closing ≡ false
unfolding splits is_bracket bytes_eq
splits-closing ops d = refl

pub splits-suc : (ops : List Text) (d : ℕ) (t : Text) → splits ops (suc d) t ≡ false
unfolding splits
splits-suc ops d t = ground arith

pub splits-next_depth : (ops : List Text) (t : Text) → splits ops 0 t ≡ true → next_depth 0 t ≡ 0
unfolding splits next_depth is_bracket
splits-next_depth ops t h = ground (arith, h)

pub splits_depth : (ops : List Text) (d : ℕ) (t : Text) → splits ops d t ≡ true → d ≡ 0
unfolding splits
splits_depth ops d t h = ground (arith, h)

pub top-append :
    (ops : List Text) (d : ℕ) (xs ys : Tokens)
    → balanced d xs ≡ true
    → top ops d (xs ++ ys) ≡ top ops d xs || top ops 0 ys
unfolding top
top-append ops d [] ys h = let e = balanced-nil d h in ap (λ n. top ops n ys) e
top-append ops d (t ∷ ts) ys h =
    let rest = top-append ops (next_depth d t) ts ys (balanced-later d t ts h) in
    ap (λ b. splits ops d t || b) rest
    ∙ or_assoc (splits ops d t) (top ops (next_depth d t) ts) (top ops 0 ys)

-- Inside a pair of brackets nothing stands outside all brackets.
pub top-wrapped :
    (ops : List Text) (d : ℕ) (us : Tokens)
    → balanced d us ≡ true
    → top ops (suc d) (us ++ closing ∷ []) ≡ false
unfolding top
top-wrapped ops d [] h = ground (arith, splits-closing ops (suc d))
top-wrapped ops d (t ∷ ts) h =
    let rest = top-wrapped ops (next_depth d t) ts (balanced-later d t ts h) in
    let e = next_depth-suc d t (balanced-stays d t ts h) in
    let inside = splits-suc ops d t in rw (e, inside, rest)

-- Without such an operator there is one group.
pub cut_none :
    (ops : List Text) (d : ℕ) (ts : Tokens) → top ops d ts ≡ false → cut ops d ts ≡ (ts, [])
unfolding cut top add_token
cut_none ops d [] h = refl
cut_none ops d (t ∷ ts) h =
    let rest = cut_none ops (next_depth d t) ts (ground (arith, h)) in
    let stays : splits ops d t ≡ false = ground (arith, h) in rw (stays, rest)

pub top-cut_one :
    (ops : List Text) (d : ℕ) (ts : Tokens) → (cut ops d ts).1 ≡ [] → top ops d ts ≡ false
unfolding cut top add_token
top-cut_one ops d [] h = refl
top-cut_one ops d (t ∷ ts) h = elim (Bool-cases (splits ops d t)) [
  | inl yes_splits ↦ cc (yes_splits, h)
  | inr no_splits ↦
      let rest =
        top-cut_one ops (next_depth d t) ts
          (subst (λ b. (add_token b t (cut ops (next_depth d t) ts)).1 ≡ []) no_splits h) in
      rw (no_splits, rest)
]

-- A token at the front of groups that are the one groups and then others.
parts-add_token :
    (b : Bool) (t : Text) (g m : Groups) (rest : List Tokens)
    → parts g ≡ parts m ++ rest
    → parts (add_token b t g) ≡ parts (add_token b t m) ++ rest
unfolding add_token
parts-add_token true t g m rest h = ap (◌∷◌ []) h
parts-add_token false t g m rest h = ap put_first h
  where
    put_first : List Tokens → List Tokens
    put_first [] = []
    put_first (x ∷ xs) = (t ∷ x) ∷ xs

pub cut-append :
    (ops : List Text) (d : ℕ) (xs : Tokens) (op : Text) (ys : Tokens)
    → balanced d xs ≡ true
    → splits ops 0 op ≡ true
    → parts (cut ops d (xs ++ op ∷ ys))
      ≡ parts (cut ops d xs) ++ parts (cut ops (next_depth 0 op) ys)
unfolding cut add_token
cut-append ops d [] op ys h k =
    let e = balanced-nil d h in
    subst (λ n. parts (cut ops n (op ∷ ys)) ≡ [] ∷ parts (cut ops (next_depth 0 op) ys)) (sym e)
      (rw k)
cut-append ops d (t ∷ ts) op ys h k =
    let rest = cut-append ops (next_depth d t) ts op ys (balanced-later d t ts h) k in
    parts-add_token (splits ops d t) t (cut ops (next_depth d t) (ts ++ op ∷ ys))
      (cut ops (next_depth d t) ts) (parts (cut ops (next_depth 0 op) ys)) rest
