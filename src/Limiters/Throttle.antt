-- ===== src/Limiters/Throttle.antt =====
-- SlidingWindowLimiter against the plain history of what it let through.
use pcap_server.Prelude.{
  ℕ, ◌≤◌, ◌<◌, ◌≡◌, refl, sym, ap, subst, ◌∙◌, false, List, [], ◌∷◌, ◌++◌, length, leb,
  if◌then◌else◌, Text, store, arith, Bool-cases, inl, inr, length-append, ltb, lookup-store_same,
  lookup-store_other, bytes_eq, bytes_eq→eq, bytes_eq_refl,
}
use pcap_server.Limiters.{or_empty, times_of, recent, SlidingWindowLimiter, allow, prune_hits}
use pcap_server.Limiters.Times.{
  recent-append, recent-recent, recent_later, recent-prune_times, count_within,
  length-recent-count_within,
}

-- A request by a key, or the periodic clean-up.
pub data Visit : Type 0 where
  requests : Text → Visit
  cleans_up : Visit

-- A visit, with the times at which one key was let through so far.
abbrev pub visit : Text → ℕ → Visit → SlidingWindowLimiter × List ℕ → SlidingWindowLimiter × List ℕ
visit key now (requests k) (l, passed) =
    let answer = allow now k l in
    (answer.1, if bytes_eq key k then (if answer.0 then passed ++ now ∷ [] else passed) else passed)
visit key now cleans_up (l, passed) = (prune_hits now l, passed)

unfoldable pub visits :
    Text → List (ℕ × Visit) → SlidingWindowLimiter × List ℕ → SlidingWindowLimiter × List ℕ
visits key [] s = s
visits key ((now, v) ∷ rest) s = visits key rest (visit key now v s)

abbrev pub VisitsInOrder : ℕ → List (ℕ × Visit) → ℕ → Type 0
VisitsInOrder first [] last = first ≤ last
VisitsInOrder first ((now, v) ∷ rest) last = (first ≤ now) × VisitsInOrder now rest last

-- The limiter knows the key's recent passes, and they are not more than allowed.
pub record Counts (now limit : ℕ) (key : Text) (s : SlidingWindowLimiter × List ℕ) : Type 0 where
  pub same_limit : s.0.max_per_minute ≡ limit
  pub known : recent 60 now (times_of s.0.hits key) ≡ recent 60 now s.1
  pub at_most : length (recent 60 now s.1) ≤ limit

length-recent : (now : ℕ) (xs : List ℕ) → length (recent 60 now xs) ≤ length xs
unfolding recent
length-recent now [] = omega arith
length-recent now (x ∷ xs) = ground (arith, length-recent now xs)

Counts-later :
    (first now limit : ℕ) (key : Text) (s : SlidingWindowLimiter × List ℕ)
    → first ≤ now
    → Counts first limit key s
    → Counts now limit key s
Counts-later first now limit key s le h = record {
  same_limit = h.same_limit;
  known = recent_later 60 first now (times_of s.0.hits key) s.1 le h.known;
  at_most =
      let shorter = length-recent now (recent 60 first s.1) in
      let same = ap length (recent-recent 60 first now s.1 le) in
      let bound = h.at_most in omega (arith, shorter, same, bound);
}

module _ (now limit : ℕ) (key : Text) (l : SlidingWindowLimiter) (passed : List ℕ) where
  -- What is stored for the key, read back.
  recent-stored :
      (ts : List ℕ) → recent 60 now (times_of (store l.hits key ts) key) ≡ recent 60 now ts
  recent-stored ts = ap (λ o. recent 60 now (or_empty o)) (lookup-store_same l.hits key ts)

  Counts-refused :
      Counts now limit key (l, passed)
      → Counts now limit key
          (record l { hits = store l.hits key (recent 60 now (times_of l.hits key)) }, passed)
  Counts-refused h = record {
    same_limit = h.same_limit;
    known =
        recent-stored (recent 60 now (times_of l.hits key))
        ∙ recent-recent 60 now now (times_of l.hits key) (omega arith)
        ∙ h.known;
    at_most = h.at_most;
  }

  Counts-passed :
      length (recent 60 now (times_of l.hits key)) < l.max_per_minute
      → Counts now limit key (l, passed)
      → Counts now limit key (
        record l { hits = store l.hits key (recent 60 now (times_of l.hits key) ++ now ∷ []) },
        passed ++ now ∷ [],
      )
  Counts-passed room h = record {
    same_limit = h.same_limit;
    known =
        recent-stored (recent 60 now (times_of l.hits key) ++ now ∷ [])
        ∙ recent-append 60 now (recent 60 now (times_of l.hits key)) (now ∷ [])
        ∙ ap (λ ts. ts ++ recent 60 now (now ∷ []))
            (recent-recent 60 now now (times_of l.hits key) (omega arith) ∙ h.known)
        ∙ sym (recent-append 60 now passed (now ∷ []));
    at_most =
        let split = ap length (recent-append 60 now passed (now ∷ [])) in
        let sum = length-append (recent 60 now passed) (recent 60 now (now ∷ [])) in
        let one = length-recent now (now ∷ []) in
        let same = ap length h.known in
        let bound = h.same_limit in omega (arith, split, sum, one, same, bound, room);
  }

  Counts-same :
      Counts now limit key (l, passed)
      → Counts now limit key (visit key now (requests key) (l, passed))
  unfolding allow
  Counts-same h =
      let self = bytes_eq_refl key in
      elim (Bool-cases (leb l.max_per_minute (length (recent 60 now (times_of l.hits key))))) [
        | inl full ↦ rw (full, self) (Counts-refused h)
        | inr room ↦ rw (room, self) (Counts-passed (ground (arith, room)) h)
      ]

  Counts-other :
      (k : Text)
      → bytes_eq key k ≡ false
      → Counts now limit key (l, passed)
      → Counts now limit key (visit key now (requests k) (l, passed))
  unfolding allow
  Counts-other k other h =
      elim (Bool-cases (leb l.max_per_minute (length (recent 60 now (times_of l.hits k))))) [
        | inl full ↦ rw (full, other) (untouched (recent 60 now (times_of l.hits k)))
        | inr room ↦ rw (room, other) (untouched (recent 60 now (times_of l.hits k) ++ now ∷ []))
      ]
    where
      untouched :
          (ts : List ℕ) → Counts now limit key (record l { hits = store l.hits k ts }, passed)
      untouched ts = record {
        same_limit = h.same_limit;
        known =
            ap (λ o. recent 60 now (or_empty o)) (lookup-store_other l.hits k key ts other)
            ∙ h.known;
        at_most = h.at_most;
      }

  Counts-visit :
      (v : Visit)
      → Counts now limit key (l, passed)
      → Counts now limit key (visit key now v (l, passed))
  unfolding prune_hits
  Counts-visit (requests k) h = elim (Bool-cases (bytes_eq key k)) [
    | inl same ↦
        subst (λ i. Counts now limit key (visit key now (requests i) (l, passed)))
          (bytes_eq→eq key k same) (Counts-same h)
    | inr other ↦ Counts-other k other h
  ]
  Counts-visit cleans_up h = record {
    same_limit = h.same_limit;
    known = recent-prune_times 60 now l.hits key ∙ h.known;
    at_most = h.at_most;
  }

Counts-visits :
    (first last limit : ℕ) (key : Text) (vs : List (ℕ × Visit)) (s : SlidingWindowLimiter × List ℕ)
    → VisitsInOrder first vs last
    → Counts first limit key s
    → Counts last limit key (visits key vs s)
unfolding visits
Counts-visits first last limit key [] s order h = Counts-later first last limit key s order h
Counts-visits first last limit key ((now, v) ∷ rest) s order h =
    Counts-visits now last limit key rest (visit key now v s) order.1
      (Counts-visit now limit key s.0 s.1 v (Counts-later first now limit key s order.0 h))

abbrev pub fresh_window : ℕ → SlidingWindowLimiter × List ℕ
fresh_window max_per_minute = (record { max_per_minute = max_per_minute; hits = [] }, [])

Counts-fresh_window :
    (max_per_minute now : ℕ) (key : Text) (vs : List (ℕ × Visit))
    → VisitsInOrder 0 vs now
    → Counts now max_per_minute key (visits key vs (fresh_window max_per_minute))
Counts-fresh_window max_per_minute now key vs order =
    Counts-visits 0 now max_per_minute key vs (fresh_window max_per_minute) order
      (record { same_limit = refl; known = refl; at_most = omega (arith, length-recent 0 []) })

-- After any requests and clean-ups at times that do not go back, for any keys, the calls of one key
-- that were let through in the last 60 seconds are at most max_per_minute.
pub length-visits :
    (max_per_minute now : ℕ) (key : Text) (vs : List (ℕ × Visit))
    → VisitsInOrder 0 vs now
    → count_within 60 now (visits key vs (fresh_window max_per_minute)).1 ≤ max_per_minute
length-visits max_per_minute now key vs order =
    let passed = (visits key vs (fresh_window max_per_minute)).1 in
    let bound = (Counts-fresh_window max_per_minute now key vs order).at_most in
    omega (arith, bound, length-recent-count_within 60 now passed)

-- After any requests and clean-ups at times that do not go back, `allow` lets a call through just
-- when fewer than max_per_minute of the key's calls were let through in the last 60 seconds: other
-- keys and clean-ups make no difference.
pub allow-visits :
    (max_per_minute now : ℕ) (key : Text) (vs : List (ℕ × Visit))
    → VisitsInOrder 0 vs now
    → (allow now key (visits key vs (fresh_window max_per_minute)).0).0
      ≡ ltb (count_within 60 now (visits key vs (fresh_window max_per_minute)).1) max_per_minute
unfolding allow
allow-visits max_per_minute now key vs order =
    let c = Counts-fresh_window max_per_minute now key vs order in
    let l = (visits key vs (fresh_window max_per_minute)).0 in
    let passed = (visits key vs (fresh_window max_per_minute)).1 in
    let same = ap length c.known ∙ length-recent-count_within 60 now passed in
    let limit = c.same_limit in
    elim (Bool-cases (leb l.max_per_minute (length (recent 60 now (times_of l.hits key))))) [
      | inl full ↦ rw full (ground (arith, full, same, limit))
      | inr room ↦ rw room (ground (arith, room, same, limit))
    ]
