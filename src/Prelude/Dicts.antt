-- ===== src/Prelude/Dicts.antt =====
-- A Python dict with text keys: the pairs in the order of their insertion.
use Prim.Native.Nat.{ℕ}
use mathlib.Core.Path.{◌≡◌, refl, subst, ◌∙◌}
use mathlib.Core.Bool.{true, false}
use mathlib.Core.Option.{Option, none, some}
use mathlib.Core.Logic.{◌⊎◌, inl, inr}
use mathlib.Core.List.{List, [], ◌∷◌}
use pcap_server.Prelude.Tests.{if◌then◌else◌, Bool-cases}
use pcap_server.Prelude.Elements.{Some, here, there}
use pcap_server.Prelude.Octets.{bytes_eq, bytes_eq→eq, bytes_eq_refl}

-- The code points of a str.
abbrev pub Text : Type 0
Text = List ℕ

abbrev pub Dict : Type 0 → Type 0
Dict V = List (Text × V)

module _ {V : Type 0} where
  -- `d.get(key)`
  abbrev pub lookup : Dict V → Text → Option V
  lookup [] key = none
  lookup ((k, v) ∷ rest) key = if bytes_eq key k then some v else lookup rest key

  -- `d[key] = value`: in its place, or at the end.
  abbrev pub store : Dict V → Text → V → Dict V
  store [] key value = (key, value) ∷ []
  store ((k, v) ∷ rest) key value =
      let later = store rest key value in
      if bytes_eq key k then (k, value) ∷ rest else (k, v) ∷ later

  -- `d.pop(key, None)`
  abbrev pub remove : Dict V → Text → Dict V
  remove [] key = []
  remove ((k, v) ∷ rest) key =
      let later = remove rest key in if bytes_eq key k then later else (k, v) ∷ later

  -- `for key in keys: del d[key]`
  abbrev pub remove_all : Dict V → List Text → Dict V
  remove_all d [] = d
  remove_all d (key ∷ keys) = remove_all (remove d key) keys

  abbrev pub keys : Dict V → List Text
  keys [] = []
  keys ((k, v) ∷ rest) = k ∷ keys rest

apart_from :
    (key k other : Text)
    → bytes_eq key k ≡ true
    → bytes_eq other key ≡ false
    → bytes_eq other k ≡ false
apart_from key k other same h = subst (λ b. bytes_eq other b ≡ false) (bytes_eq→eq key k same) h

module _ {V : Type 0} where
  pub lookup-store_same : (d : Dict V) (key : Text) (v : V) → lookup (store d key v) key ≡ some v
  lookup-store_same [] key v = let e = bytes_eq_refl key in rw e
  lookup-store_same ((k, w) ∷ rest) key v = elim (Bool-cases (bytes_eq key k)) [
    | inl same ↦ rw (same, same)
    | inr other ↦ rw (other, other) (lookup-store_same rest key v)
  ]

  pub lookup-store_other :
      (d : Dict V) (key other : Text) (v : V)
      → bytes_eq other key ≡ false
      → lookup (store d key v) other ≡ lookup d other
  lookup-store_other [] key other v h = rw h
  lookup-store_other ((k, w) ∷ rest) key other v h = elim (Bool-cases (bytes_eq key k)) [
    | inl same ↦
        let differs : bytes_eq other k ≡ false = apart_from key k other same h in rw (same, differs)
    | inr apart ↦ rw (apart, lookup-store_other rest key other v h)
  ]

  pub lookup-remove_same : (d : Dict V) (key : Text) → lookup (remove d key) key ≡ none
  lookup-remove_same [] key = refl
  lookup-remove_same ((k, w) ∷ rest) key = elim (Bool-cases (bytes_eq key k)) [
    | inl same ↦ rw same (lookup-remove_same rest key)
    | inr apart ↦ rw (apart, apart) (lookup-remove_same rest key)
  ]

  pub lookup-remove_other :
      (d : Dict V) (key other : Text)
      → bytes_eq other key ≡ false
      → lookup (remove d key) other ≡ lookup d other
  lookup-remove_other [] key other h = refl
  lookup-remove_other ((k, w) ∷ rest) key other h = elim (Bool-cases (bytes_eq key k)) [
    | inl same ↦
        let differs : bytes_eq other k ≡ false = apart_from key k other same h in
        rw (same, differs) (lookup-remove_other rest key other h)
    | inr apart ↦ rw (apart, lookup-remove_other rest key other h)
  ]

  lookup-remove-none :
      (d : Dict V) (key other : Text) → lookup d other ≡ none → lookup (remove d key) other ≡ none
  lookup-remove-none d key other h = elim (Bool-cases (bytes_eq other key)) [
    | inl same ↦
        let e = bytes_eq→eq other key same in
        subst (λ k. lookup (remove d k) other ≡ none) e (lookup-remove_same d other)
    | inr apart ↦ cc (lookup-remove_other d key other apart, h)
  ]

  lookup-remove_all-none :
      (d : Dict V) (ks : List Text) (key : Text)
      → lookup d key ≡ none
      → lookup (remove_all d ks) key ≡ none
  lookup-remove_all-none d [] key h = h
  lookup-remove_all-none d (k ∷ ks) key h =
      lookup-remove_all-none (remove d k) ks key (lookup-remove-none d k key h)

  -- Deleting some keys leaves another's value, and the deleted ones have none.
  pub lookup-remove_all :
      (d : Dict V) (ks : List Text) (key : Text)
      → (lookup (remove_all d ks) key ≡ lookup d key)
        ⊎ ((Some (λ k. key ≡ k) ks) × (lookup (remove_all d ks) key ≡ none))
  lookup-remove_all d [] key = inl refl
  lookup-remove_all d (k ∷ ks) key = elim (Bool-cases (bytes_eq key k)) [
    | inl same ↦
        let e = bytes_eq→eq key k same in
        inr (
          here e,
          lookup-remove_all-none (remove d k) ks key
              (subst (λ c. lookup (remove d c) key ≡ none) e (lookup-remove_same d key)),
        )
    | inr apart ↦ elim (lookup-remove_all (remove d k) ks key) [
      | inl kept ↦ inl (kept ∙ lookup-remove_other d k key apart)
      | inr gone ↦ inr (there gone.0, gone.1)
    ]
  ]
