-- ===== src/Sanitizer/Texts.antt =====
-- What backend/sanitizer.py uses of Python's str and bytes. A str is a list of code points.
use Prim.Native.Char.{code}
use Prim.Native.String.{String}
use pcap_server.Anonymize.Names.{member_text}
use pcap_server.Prelude.{
  ℕ, zero, suc, ◌+◌, ◌-◌, ◌/◌, ◌%◌, Bool, false, ◌&&◌, ◌||◌, List, [], ◌∷◌, ◌++◌, Option, none,
  some, Bytes, ltb, leb, ◌==◌, length, take, drop, bytes_eq, if◌then◌else◌, Text,
}

-- The code points of a literal.
abbrev pub codes : String → Text
codes String.[] = []
codes (String.◌∷◌ c s) = code c ∷ codes s

-- What is taken from Python: case over all of Unicode, and the addresses that the ipaddress module
-- reads from a text, as their bytes; `none` is its ValueError.
pub record PythonTexts : Type 0 where
  pub lower : Text → Text
  pub upper : Text → Text
  pub parse_ipv4 : Text → Option Bytes
  pub parse_ipv6 : Text → Option Bytes

pub data Encoding : Type 0 where
  utf_8 utf_16_le : Encoding

-- Surrogates have no encoding.
abbrev pub is_surrogate : ℕ → Bool
is_surrogate c = leb 0xD800 c && leb c 0xDFFF

abbrev pub utf8_char : ℕ → Bytes
utf8_char c =
    if ltb c 0x80
    then c ∷ []
    else if ltb c 0x800
    then (0xC0 + c / 64) ∷ (0x80 + c % 64) ∷ []
    else if ltb c 0x10000
    then (0xE0 + c / 4096) ∷ (0x80 + c / 64 % 64) ∷ (0x80 + c % 64) ∷ []
    else (0xF0 + c / 262144) ∷ (0x80 + c / 4096 % 64) ∷ (0x80 + c / 64 % 64) ∷ (0x80 + c % 64) ∷ []

abbrev pub two_bytes_le : ℕ → Bytes
two_bytes_le n = n % 256 ∷ n / 256 ∷ []

abbrev pub utf16_char : ℕ → Bytes
utf16_char c =
    if ltb c 0x10000
    then two_bytes_le c
    else two_bytes_le (0xD800 + (c - 0x10000) / 1024)
      ++ two_bytes_le (0xDC00 + (c - 0x10000) % 1024)

abbrev pub encode_char : Encoding → ℕ → Bytes
encode_char utf_8 c = utf8_char c
encode_char utf_16_le c = utf16_char c

-- `value.encode(encoding)`; `none` is UnicodeEncodeError.
unfoldable pub encode : Encoding → Text → Option Bytes
encode encoding [] = some []
encode encoding (c ∷ cs) = elim (encode encoding cs) [
  | none ↦ none
  | some rest ↦ if is_surrogate c then none else some (encode_char encoding c ++ rest)
]

-- `xs.startswith(prefix)`, on bytes and on texts.
unfoldable pub starts_with : List ℕ → List ℕ → Bool
starts_with xs prefix = bytes_eq (take (length prefix) xs) prefix

unfoldable pub ends_with : List ℕ → List ℕ → Bool
ends_with xs suffix =
    leb (length suffix) (length xs) && bytes_eq (drop (length xs - length suffix) xs) suffix

-- `needle in xs`
unfoldable pub contains : List ℕ → List ℕ → Bool
contains needle [] = bytes_eq needle []
contains needle (x ∷ xs) = let later = contains needle xs in starts_with (x ∷ xs) needle || later

-- `xs.rfind(needle)`, with `none` for -1.
unfoldable pub rfind : Bytes → Bytes → Option ℕ
rfind [] needle = if bytes_eq needle [] then some 0 else none
rfind (x ∷ xs) needle = elim (rfind xs needle) [
  | some i ↦ some (suc i)
  | none ↦ if starts_with (x ∷ xs) needle then some 0 else none
]

-- `xs.find(bytes([b]))`, with `none` for -1.
unfoldable pub find_byte : Bytes → ℕ → Option ℕ
find_byte [] b = none
find_byte (x ∷ xs) b = elim (find_byte xs b) [
  | some i ↦ if x == b then some 0 else some (suc i)
  | none ↦ if x == b then some 0 else none
]

abbrev pub hex_digit : ℕ → ℕ
hex_digit n = if ltb n 10 then 0x30 + n else 0x57 + n

-- `xs.hex()`
unfoldable pub hex : Bytes → Text
hex [] = []
hex (b ∷ bs) = hex_digit (b / 16) ∷ hex_digit (b % 16) ∷ hex bs

-- `xs.hex(":")`
unfoldable pub hex_colons : Bytes → Text
hex_colons [] = []
hex_colons (b ∷ []) = hex_digit (b / 16) ∷ hex_digit (b % 16) ∷ []
hex_colons (b ∷ c ∷ bs) = hex_digit (b / 16) ∷ hex_digit (b % 16) ∷ 0x3A ∷ hex_colons (c ∷ bs)

-- `n` copies of a byte.
unfoldable pub fill_with : ℕ → ℕ → Bytes
fill_with zero b = []
fill_with (suc n) b = b ∷ fill_with n b

-- Whether two sets of texts meet.
unfoldable pub meets : List Text → List Text → Bool
meets [] ys = false
meets (x ∷ xs) ys = let later = meets xs ys in member_text x ys || later
