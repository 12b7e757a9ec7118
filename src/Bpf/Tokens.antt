-- ===== src/Bpf/Tokens.antt =====
-- backend/bpf.py: the tokens of a filter, and its brackets: _tokenize, _split_top_level and
-- _strip_parens. str.lower is a parameter.
use pcap_server.Prelude.{
  ℕ, zero, suc, ◌+◌, ◌-◌, Bool, false, not, ◌&&◌, ◌||◌, List, [], ◌∷◌, Option, none, some, Text,
  length, drop, leb, ◌==◌, bytes_eq, if◌then◌else◌,
}
use pcap_server.Anonymize.Names.{member_text}
use pcap_server.Sanitizer.Texts.{codes}

abbrev pub Tokens : Type 0
Tokens = List Text

abbrev pub opening : Text
opening = codes "("

abbrev pub closing : Text
closing = codes ")"

abbrev pub or_words : List Text
or_words = codes "or" ∷ codes "||" ∷ []

abbrev pub and_words : List Text
and_words = codes "and" ∷ codes "&&" ∷ []

-- What `\s` matches.
unfoldable pub is_space : ℕ → Bool
is_space c =
    leb 0x09 c && leb c 0x0D
    || leb 0x1C c && leb c 0x20
    || c == 0x85
    || c == 0xA0
    || c == 0x1680
    || leb 0x2000 c && leb c 0x200A
    || c == 0x2028
    || c == 0x2029
    || c == 0x202F
    || c == 0x205F
    || c == 0x3000

-- A word before the tokens behind it, where there is one.
unfoldable pub put_word : Text → Tokens → Tokens
put_word [] ts = ts
put_word (c ∷ cs) ts = (c ∷ cs) ∷ ts

-- The matches of `_TOKEN_RE`: the word that a text begins with, and the tokens behind it.
unfoldable pub find_tokens : Text → Text × Tokens
find_tokens [] = ([], [])
find_tokens (c ∷ cs) =
    let rest = find_tokens cs in
    if c == 0x28 || c == 0x29
    then ([], (c ∷ []) ∷ put_word rest.0 rest.1)
    else if is_space c
    then ([], put_word rest.0 rest.1)
    else (c ∷ rest.0, rest.1)

unfoldable pub tokenize : (Text → Text) → Text → Tokens
tokenize lower expr = let found = find_tokens (lower expr) in put_word found.0 found.1

-- The depth behind a token. A closing bracket at depth 0 is judged by the callers.
unfoldable pub next_depth : ℕ → Text → ℕ
next_depth d t = if bytes_eq t opening then d + 1 else if bytes_eq t closing then d - 1 else d

-- `depth < 0` behind the token.
unfoldable pub falls : ℕ → Text → Bool
falls d t = bytes_eq t closing && d == 0

unfoldable pub is_bracket : Text → Bool
is_bracket t = bytes_eq t opening || bytes_eq t closing

-- The groups of a split: the first, and the others.
abbrev pub Groups : Type 0
Groups = Tokens × List Tokens

abbrev pub parts : Groups → List Tokens
parts g = g.0 ∷ g.1

-- A token at the front of the first group, or an operator in front of it.
unfoldable pub add_token : Bool → Text → Groups → Groups
add_token at_operator t g = if at_operator then ([], parts g) else (t ∷ g.0, g.1)

-- `depth == 0 and tok in operators`, on the branch that brackets do not take.
unfoldable pub splits : List Text → ℕ → Text → Bool
splits operators d t = not (is_bracket t) && d == 0 && member_text t operators

-- The loop of `_split_top_level` from a depth on.
unfoldable pub split_from : List Text → ℕ → Tokens → Option Groups
split_from operators d [] = if not (d == 0) then none else some ([], [])
split_from operators d (t ∷ ts) = elim (split_from operators (next_depth d t) ts) [
  | none ↦ none
  | some later ↦ if falls d t then none else some (add_token (splits operators d t) t later)
]

unfoldable pub split_top_level : List Text → Tokens → Option Groups
split_top_level operators ts = split_from operators 0 ts

-- The inner loop of `_strip_parens`: whether the brackets balance, from a depth on.
unfoldable pub balanced : ℕ → Tokens → Bool
balanced d [] = d == 0
balanced d (t ∷ ts) = let later = balanced (next_depth d t) ts in if falls d t then false else later

-- `tokens[:-1]`
unfoldable pub drop_last : Tokens → Tokens
drop_last [] = []
drop_last (t ∷ []) = []
drop_last (t ∷ u ∷ ts) = t ∷ drop_last (u ∷ ts)

-- `tokens[-1] == ")"`
unfoldable pub ends_closing : Tokens → Bool
ends_closing [] = false
ends_closing (t ∷ []) = bytes_eq t closing
ends_closing (t ∷ u ∷ ts) = ends_closing (u ∷ ts)

-- `len(tokens) >= 2 and tokens[0] == "(" and tokens[-1] == ")"`
unfoldable pub is_wrapped : Tokens → Bool
is_wrapped [] = false
is_wrapped (t ∷ ts) = bytes_eq t opening && ends_closing ts

-- `tokens[1:-1]`
unfoldable pub inner : Tokens → Tokens
inner ts = drop_last (drop 1 ts)

-- The outer loop of `_strip_parens`, a round for each token.
unfoldable pub strip_rounds : ℕ → Tokens → Tokens
strip_rounds zero ts = ts
strip_rounds (suc k) ts =
    let stripped = strip_rounds k (inner ts) in
    if is_wrapped ts && balanced 0 (inner ts) then stripped else ts

unfoldable pub strip_parens : Tokens → Tokens
strip_parens ts = strip_rounds (length ts) ts
