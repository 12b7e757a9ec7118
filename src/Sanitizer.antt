-- ===== src/Sanitizer.antt =====
-- backend/sanitizer.py: sanitized copies of a capture.
-- This module has what its parts share: the errors, the byte orders and the limits.
pub mod Reader
pub mod Texts
pub mod Rules
pub mod Catalog
pub mod Fields
pub mod Masks
pub mod Names
pub mod Summary
pub mod Conditions
pub mod Rewriter
pub mod Stream
pub mod Drain
pub mod Examples
pub mod Tshark
use mathlib.Core.List.{reverse}
use pcap_server.Prelude.{
  ℕ, ◌*◌, List, [], ◌∷◌, Bytes, big_endian, little_endian, be_bytes, ◌≡◌, refl, subst, Bool, true,
  false, not, if◌then◌else◌,
}

-- SanitizeError by its message, and what else can end a sanitized copy: the errors of
-- backend/framewalk.py, and `out_of_fuel`, which is the model's own.
pub data SanitizeError : Type 0 where
  too_short is_pcapng not_pcap : SanitizeError
  cannot_sanitize : ℕ → SanitizeError
  mid_header mid_record : SanitizeError
  not_a_record : ℕ → SanitizeError
  no_frame_number never_seen more_frames tshark_failed disagree : SanitizeError
  no_protocols : SanitizeError
  walk_failed out_of_fuel : SanitizeError

pub data Attempt (A : Type 0) : Type 0 where
  ok : A → Attempt A
  raised : SanitizeError → Attempt A

infixl 5 ◌>>=◌
abbrev pub ◌>>=◌ : {A B : Type 0} → Attempt A → (A → Attempt B) → Attempt B
ok a >>= k = k a
raised e >>= k = raised e

-- `P` of the result, where there is one.
abbrev pub Holds : {A : Type 0} → (A → Type 0) → Attempt A → Type 0
Holds P (ok a) = P a
Holds P (raised e) = Unit

pub Holds-bind :
    {A B : Type 0} (P : A → Type 0) (Q : B → Type 0) (x : Attempt A) (k : A → Attempt B)
    → Holds P x
    → ((a : A) → P a → Holds Q (k a))
    → Holds Q (x >>= k)
Holds-bind P Q (ok a) k h next = next a h
Holds-bind P Q (raised e) k h next = tt

-- The same where there has to be a result.
abbrev pub Gives : {A : Type 0} → (A → Type 0) → Attempt A → Type 0
Gives P (ok a) = P a
Gives P (raised e) = ⊥

pub Gives-bind :
    {A B : Type 0} (P : A → Type 0) (Q : B → Type 0) (x : Attempt A) (k : A → Attempt B)
    → Gives P x
    → ((a : A) → P a → Gives Q (k a))
    → Gives Q (x >>= k)
Gives-bind P Q (ok a) k h next = next a h
Gives-bind P Q (raised e) k h next = absurd h

pub Holds-if :
    {A : Type 0} (P : A → Type 0) (b : Bool) (x y : Attempt A)
    → (b ≡ true → Holds P x)
    → (b ≡ false → Holds P y)
    → Holds P (if b then x else y)
Holds-if P true x y hx hy = hx refl
Holds-if P false x y hx hy = hy refl

pub Holds-ok : {A : Type 0} (P : A → Type 0) (x : Attempt A) (a : A) → Holds P x → x ≡ ok a → P a
Holds-ok P x a h e = subst (Holds P) e h

pub not-false : (b : Bool) → not b ≡ false → b ≡ true
not-false true e = refl
not-false false e = cc e

pub data Endian : Type 0 where
  big little : Endian

-- `int.from_bytes(xs, endian)`
abbrev pub from_bytes : Endian → Bytes → ℕ
from_bytes big xs = big_endian xs
from_bytes little xs = little_endian xs

-- `n.to_bytes(4, endian)`
abbrev pub to_bytes_4 : Endian → ℕ → Bytes
to_bytes_4 big n = be_bytes 4 n
to_bytes_4 little n = reverse (be_bytes 4 n)

abbrev pub global_header_len : ℕ
global_header_len = 24

abbrev pub record_header_len : ℕ
record_header_len = 16

unfoldable pub max_record_bytes : ℕ
max_record_bytes = 1024 * 1024

unfoldable pub output_chunk_bytes : ℕ
output_chunk_bytes = 64 * 1024
