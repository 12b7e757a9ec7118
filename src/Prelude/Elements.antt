-- ===== src/Prelude/Elements.antt =====
-- Predicates on every element of a list, on some element, and on every pair in order.
use mathlib.Core.Path.{◌≡◌, refl}
use mathlib.Core.Bool.{Bool, true, false, ◌&&◌, ◌||◌}
use mathlib.Core.Logic.{◌⊎◌, inl, inr}
use mathlib.Core.List.{List, [], ◌∷◌, ◌++◌}
use pcap_server.Prelude.Tests.{Bool-cases}
use native.Mathlib.Omega.{arith}

abbrev pub All {ℓ κ} : {A : Type ℓ} → (A → Type κ) → List A → Type κ
All P [] = Unit
All P (x ∷ xs) = P x × All P xs

-- `R x y` for each `x` that stands before `y`.
abbrev pub Pairwise {ℓ κ} : {A : Type ℓ} → (A → A → Type κ) → List A → Type κ
Pairwise R [] = Unit
Pairwise R (x ∷ xs) = All (R x) xs × Pairwise R xs

module _ {ℓ κ} {A : Type ℓ} where
  pub All-map : (P Q : A → Type κ) (xs : List A) → ((a : A) → P a → Q a) → All P xs → All Q xs
  All-map P Q [] f h = tt
  All-map P Q (x ∷ xs) f h = (f x h.0, All-map P Q xs f h.1)

  pub All-append : (P : A → Type κ) (xs : List A) (y : A) → All P xs → P y → All P (xs ++ y ∷ [])
  All-append P [] y h p = (p, tt)
  All-append P (x ∷ xs) y h p = (h.0, All-append P xs y h.1 p)

  pub Pairwise-append :
      (R : A → A → Type κ) (xs : List A) (y : A)
      → Pairwise R xs
      → All (λ x. R x y) xs
      → Pairwise R (xs ++ y ∷ [])
  Pairwise-append R [] y h p = (tt, tt)
  Pairwise-append R (x ∷ xs) y h p = (All-append (R x) xs y h.0 p.0, Pairwise-append R xs y h.1 p.1)

  pub All-zip :
      (P Q R : A → Type κ) (xs : List A)
      → ((a : A) → P a → Q a → R a)
      → All P xs
      → All Q xs
      → All R xs
  All-zip P Q R [] f h k = tt
  All-zip P Q R (x ∷ xs) f h k = (f x h.0 k.0, All-zip P Q R xs f h.1 k.1)

pub data Some {ℓ κ} {A : Type ℓ} (P : A → Type κ) : List A → Type (ℓ ⊔ κ) where
  here : {x : A} {xs : List A} → P x → Some P (x ∷ xs)
  there : {x : A} {xs : List A} → Some P xs → Some P (x ∷ xs)

-- Python's `all` and `any` over a generator.
abbrev pub all_of {ℓ} : {A : Type ℓ} → (A → Bool) → List A → Bool
all_of p [] = true
all_of p (x ∷ xs) = p x && all_of p xs

abbrev pub any_of {ℓ} : {A : Type ℓ} → (A → Bool) → List A → Bool
any_of p [] = false
any_of p (x ∷ xs) = p x || any_of p xs

module _ {ℓ} {A : Type ℓ} (p : A → Bool) where
  pub All-all_of : (xs : List A) → all_of p xs ≡ true → All (λ x. p x ≡ true) xs
  All-all_of [] h = tt
  All-all_of (x ∷ xs) h = (ground (arith, h), All-all_of xs (ground (arith, h)))

  pub all_of-All : (xs : List A) → All (λ x. p x ≡ true) xs → all_of p xs ≡ true
  all_of-All [] h = refl
  all_of-All (x ∷ xs) h =
      let first : p x ≡ true = h.0 in let rest = all_of-All xs h.1 in rw (first, rest)

  pub any_of-Some : (xs : List A) → Some (λ x. p x ≡ true) xs → any_of p xs ≡ true
  any_of-Some [] h = elim h [ ]
  any_of-Some (x ∷ xs) (here h) = ground (arith, h)
  any_of-Some (x ∷ xs) (there h) = ground (arith, any_of-Some xs h)

  pub Some-any_of : (xs : List A) → any_of p xs ≡ true → Some (λ x. p x ≡ true) xs
  Some-any_of [] h = cc h
  Some-any_of (x ∷ xs) h = elim (Bool-cases (p x)) [
    | inl yes_p ↦ here yes_p
    | inr no_p ↦ there (Some-any_of xs (ground (arith, h, no_p)))
  ]

module _ {ℓ κ} {A : Type ℓ} where
  pub Some-map : (P Q : A → Type κ) (xs : List A) → ((a : A) → P a → Q a) → Some P xs → Some Q xs
  Some-map P Q [] f h = elim h [ ]
  Some-map P Q (x ∷ xs) f (here h) = here (f x h)
  Some-map P Q (x ∷ xs) f (there h) = there (Some-map P Q xs f h)

  pub Some-cases : (P : A → Type κ) (x : A) (xs : List A) → Some P (x ∷ xs) → P x ⊎ Some P xs
  Some-cases P x xs (here h) = inl h
  Some-cases P x xs (there s) = inr s

module _ {ℓ κ} {A : Type ℓ} (P : A → Type κ) where
  pub Some-append_left : (xs ys : List A) → Some P xs → Some P (xs ++ ys)
  Some-append_left [] ys h = elim h [ ]
  Some-append_left (x ∷ xs) ys (here h) = here h
  Some-append_left (x ∷ xs) ys (there h) = there (Some-append_left xs ys h)

  pub Some-append_right : (xs ys : List A) → Some P ys → Some P (xs ++ ys)
  Some-append_right [] ys h = h
  Some-append_right (x ∷ xs) ys h = there (Some-append_right xs ys h)

  pub All-join : (xs ys : List A) → All P xs → All P ys → All P (xs ++ ys)
  All-join [] ys h k = k
  All-join (x ∷ xs) ys h k = (h.0, All-join xs ys h.1 k)
