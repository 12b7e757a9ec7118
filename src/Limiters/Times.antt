-- ===== src/Limiters/Times.antt =====
-- The recent times of a key, under the changes that a limiter makes to its dict.
use pcap_server.Prelude.{
  ℕ, suc, ◌+◌, length, leb, if◌then◌else◌, ◌≤◌, ◌≡◌, refl, sym, ap, subst, ◌∙◌, false, List, [],
  ◌∷◌, ◌++◌, any_of, Text, Dict, keys, arith, Bool-cases, inl, inr, Some, Some-cases,
  lookup-store_same, lookup-store_other, lookup-remove_same, lookup-remove_other, lookup-remove_all,
  bytes_eq,
}
use pcap_server.Limiters.{
  or_empty, times_of, is_recent, recent, stale_keys, prune_times, keep_times,
}

-- How many of the times are not over: a time is over once `window` seconds have passed since. It is
-- counted apart from the limiters' own test.
unfoldable pub count_within : ℕ → ℕ → List ℕ → ℕ
count_within window now [] = 0
count_within window now (t ∷ ts) =
    let later = count_within window now ts in if leb (t + window) now then later else suc later

pub length-recent-count_within :
    (window now : ℕ) (ts : List ℕ) → length (recent window now ts) ≡ count_within window now ts
unfolding recent count_within
length-recent-count_within window now [] = refl
length-recent-count_within window now (t ∷ ts) =
    ground (arith, length-recent-count_within window now ts)

module _ (window : ℕ) where
  pub recent-append :
      (now : ℕ) (xs ys : List ℕ)
      → recent window now (xs ++ ys) ≡ recent window now xs ++ recent window now ys
  unfolding recent
  recent-append now [] ys = refl
  recent-append now (x ∷ xs) ys = elim (Bool-cases (is_recent window now x)) [
    | inl yes_recent ↦ rw (yes_recent, recent-append now xs ys)
    | inr too_old ↦ rw (too_old, recent-append now xs ys)
  ]

  -- Forgetting what is too old now changes nothing later.
  pub recent-recent :
      (now later : ℕ) (xs : List ℕ)
      → now ≤ later
      → recent window later (recent window now xs) ≡ recent window later xs
  unfolding recent
  recent-recent now later [] h = refl
  recent-recent now later (x ∷ xs) h = elim (Bool-cases (is_recent window now x)) [
    | inl yes_recent ↦ rw (yes_recent, recent-recent now later xs h)
    | inr too_old ↦
        let still : is_recent window later x ≡ false = ground (arith, h, too_old) in
        rw (too_old, still) (recent-recent now later xs h)
  ]

  pub recent_later :
      (now later : ℕ) (xs ys : List ℕ)
      → now ≤ later
      → recent window now xs ≡ recent window now ys
      → recent window later xs ≡ recent window later ys
  recent_later now later xs ys h e =
      sym (recent-recent now later xs h) ∙ ap (recent window later) e ∙ recent-recent now later ys h

  recent-none :
      (now : ℕ) (xs : List ℕ) → any_of (is_recent window now) xs ≡ false → recent window now xs ≡ []
  unfolding recent
  recent-none now [] h = refl
  recent-none now (x ∷ xs) h =
      let old : is_recent window now x ≡ false = ground (arith, h) in
      rw old (recent-none now xs (ground (arith, h)))

  Some-stale_keys :
      (now : ℕ) (d : Dict (List ℕ)) (ks : List Text) (key : Text)
      → Some (λ k. key ≡ k) (stale_keys window now d ks)
      → any_of (is_recent window now) (times_of d key) ≡ false
  unfolding stale_keys
  Some-stale_keys now d [] key s = elim s [ ]
  Some-stale_keys now d (k ∷ ks) key s =
      elim (Bool-cases (any_of (is_recent window now) (times_of d k))) [
        | inl used ↦ Some-stale_keys now d ks key (rw used at s)
        | inr stale ↦ elim (Some-cases _ k (stale_keys window now d ks) (rw stale at s)) [
          | inl e ↦ subst (λ i. any_of (is_recent window now) (times_of d i) ≡ false) (sym e) stale
          | inr s' ↦ Some-stale_keys now d ks key s'
        ]
      ]

  pub recent-prune_times :
      (now : ℕ) (d : Dict (List ℕ)) (key : Text)
      → recent window now (times_of (prune_times window now d) key)
        ≡ recent window now (times_of d key)
  unfolding prune_times recent
  recent-prune_times now d key = elim (lookup-remove_all d (stale_keys window now d (keys d)) key) [
    | inl kept ↦ ap (λ o. recent window now (or_empty o)) kept
    | inr gone ↦
        let old = recent-none now (times_of d key) (Some-stale_keys now d (keys d) key gone.0) in
        ap (λ o. recent window now (or_empty o)) gone.1 ∙ nothing now ∙ sym old
  ]
    where
      nothing : (t : ℕ) → recent window t [] ≡ []
      nothing t = refl

  pub recent-keep_times_same :
      (now : ℕ) (d : Dict (List ℕ)) (key : Text) (ts : List ℕ)
      → recent window now (times_of (keep_times d key ts) key) ≡ recent window now ts
  recent-keep_times_same now d key [] =
      ap (λ o. recent window now (or_empty o)) (lookup-remove_same d key)
  recent-keep_times_same now d key (t ∷ ts) =
      ap (λ o. recent window now (or_empty o)) (lookup-store_same d key (t ∷ ts))

pub times_of-keep_times_other :
    (d : Dict (List ℕ)) (key other : Text) (ts : List ℕ)
    → bytes_eq other key ≡ false
    → times_of (keep_times d key ts) other ≡ times_of d other
times_of-keep_times_other d key other [] h = ap or_empty (lookup-remove_other d key other h)
times_of-keep_times_other d key other (t ∷ ts) h =
    ap or_empty (lookup-store_other d key other (t ∷ ts) h)
