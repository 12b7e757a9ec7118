-- ===== src/Sanitizer/Fields.antt =====
-- backend/sanitizer.py: the values json.loads gives, `_collect_fields` and `_locate`.
use pcap_server.Prelude.{
  ℕ, ◌+◌, ◌-◌, Bool, true, false, not, ◌||◌, List, [], ◌∷◌, ◌++◌, Option, none, some, Bytes, ltb,
  ◌==◌, length, take, slice, bytes_eq, if◌then◌else◌, Text,
}
use pcap_server.Sanitizer.Texts.{codes, PythonTexts, ends_with, hex}

-- A value of json.loads. A number is `whole n`, `negative n` for -1 - n, or a float, of which
-- only whether it is zero is looked at.
mutual
  pub data Json : Type 0 where
    null : Json
    boolean : Bool → Json
    whole : ℕ → Json
    negative : ℕ → Json
    float : Bool → Json
    string : Text → Json
    array : Items → Json
    object : Members → Json

  pub data Items : Type 0 where
    no_items : Items
    item : Json → Items → Items

  -- The entries of a dict, in order, with one entry for a key.
  pub data Members : Type 0 where
    no_members : Members
    member_of : Text → Json → Members → Members

-- `d.get(key)`: None is JSON's null.
abbrev pub get : Members → Text → Json
get no_members key = null
get (member_of k v rest) key = if bytes_eq key k then v else get rest key

-- `x or {}`, where what follows takes it for a dict.
abbrev pub members_of : Json → Members
members_of (object ms) = ms
members_of null = no_members
members_of (boolean b) = no_members
members_of (whole n) = no_members
members_of (negative n) = no_members
members_of (float z) = no_members
members_of (string s) = no_members
members_of (array xs) = no_members

abbrev pub text_of : Json → Option Text
text_of (string s) = some s
text_of null = none
text_of (boolean b) = none
text_of (whole n) = none
text_of (negative n) = none
text_of (float z) = none
text_of (array xs) = none
text_of (object ms) = none

-- `isinstance(x, int)`, which a bool is; `none` for what is not, and for what is negative.
abbrev pub natural_of : Json → Option ℕ
natural_of (whole n) = some n
natural_of (boolean b) = some (if b then 1 else 0)
natural_of null = none
natural_of (negative n) = none
natural_of (float z) = none
natural_of (string s) = none
natural_of (array xs) = none
natural_of (object ms) = none

-- `bool(x)`
abbrev pub truthy : Json → Bool
truthy null = false
truthy (boolean b) = b
truthy (whole n) = not (n == 0)
truthy (negative n) = true
truthy (float z) = not z
truthy (string s) = not (bytes_eq s [])
truthy (array no_items) = false
truthy (array (item x xs)) = true
truthy (object no_members) = false
truthy (object (member_of k v ms)) = true

-- What `_collect_fields` finds: a field's name, its value as shown, and its raw form.
abbrev pub Found : Type 0
Found = Text × Json × Json

-- The raw forms of a field that occurs several times, next to the values shown.
unfoldable pub pair_up : Text → Items → Items → List Found
pair_up name no_items shown = []
pair_up name (item raw raws) no_items = (name, null, raw) ∷ pair_up name raws no_items
pair_up name (item raw raws) (item x shown) = (name, x, raw) ∷ pair_up name raws shown

-- `[shown] * len(value)`
unfoldable pub repeat_for : Json → Items → Items
repeat_for x no_items = no_items
repeat_for x (item raw raws) = item x (repeat_for x raws)

unfoldable pub shown_list : Json → Items → Items
shown_list (array xs) raws = xs
shown_list null raws = repeat_for null raws
shown_list (boolean b) raws = repeat_for (boolean b) raws
shown_list (whole n) raws = repeat_for (whole n) raws
shown_list (negative n) raws = repeat_for (negative n) raws
shown_list (float z) raws = repeat_for (float z) raws
shown_list (string s) raws = repeat_for (string s) raws
shown_list (object ms) raws = repeat_for (object ms) raws

-- `shown[0] if isinstance(shown, list) and shown else shown`
unfoldable pub first_shown : Json → Json
first_shown (array (item x xs)) = x
first_shown (array no_items) = array no_items
first_shown null = null
first_shown (boolean b) = boolean b
first_shown (whole n) = whole n
first_shown (negative n) = negative n
first_shown (float z) = float z
first_shown (string s) = string s
first_shown (object ms) = object ms

-- What a key that ends in "_raw" gives.
unfoldable pub raw_fields : Text → Json → Json → List Found
raw_fields name shown (array (item (array raw) raws)) =
    pair_up name (item (array raw) raws) (shown_list shown (item (array raw) raws))
raw_fields name shown value = (name, first_shown shown, value) ∷ []

abbrev pub raw_suffix : Text
raw_suffix = codes "_raw"

-- The entries of a node, `all` being the node itself, in which values are looked up.
unfoldable mutual
  pub collect_fields : Json → List Found
  collect_fields (array xs) = collect_items xs
  collect_fields (object ms) = collect_members ms ms
  collect_fields null = []
  collect_fields (boolean b) = []
  collect_fields (whole n) = []
  collect_fields (negative n) = []
  collect_fields (float z) = []
  collect_fields (string s) = []

  pub collect_items : Items → List Found
  collect_items no_items = []
  collect_items (item x xs) = collect_fields x ++ collect_items xs

  pub collect_members : Members → Members → List Found
  collect_members all no_members = []
  collect_members all (member_of key value rest) =
      let inner = collect_fields value in
      let later = collect_members all rest in
      let name = take (length key - 4) key in
      (if ends_with key raw_suffix then raw_fields name (get all name) value else inner) ++ later

-- `_locate`, after the tests of the types: the place of the bytes, if they are there.
unfoldable pub confirm : PythonTexts → Text → ℕ → ℕ → Bool → Bytes → Option (ℕ × ℕ)
confirm py hex_value position len masked frame =
    if masked || len == 0 || ltb (length frame) (position + len)
    then none
    else if not (bytes_eq (hex (slice frame position (position + len))) (py.lower hex_value))
    then none
    else some (position, len)

unfoldable pub locate_in : PythonTexts → Json → Json → Json → Json → Bytes → Option (ℕ × ℕ)
locate_in py hex_value position len bitmask frame = elim (text_of hex_value) [
  | none ↦ none
  | some digits ↦ elim (natural_of position) [
    | none ↦ none
    | some p ↦ elim (natural_of len) [
      | none ↦ none
      | some n ↦ confirm py digits p n (truthy bitmask) frame
    ]
  ]
]

unfoldable pub locate : PythonTexts → Json → Bytes → Option (ℕ × ℕ)
locate py (array (item h (item p (item l (item b rest))))) frame = locate_in py h p l b frame
locate py raw frame = none

-- `isinstance(raw, list) and len(raw) > 2 and raw[2]`
unfoldable pub claims_bytes : Json → Bool
claims_bytes (array (item h (item p (item l rest)))) = truthy l
claims_bytes raw = false
