-- ===== src/Limiters/Lockout.antt =====
-- RateLimiter against the plain history of the failures.
use pcap_server.Prelude.{
  ℕ, ◌*◌, ◌≤◌, ◌≡◌, refl, sym, ap, ap₂, subst, ◌∙◌, List, [], ◌∷◌, ◌++◌, length, leb, if◌then◌else◌,
  Text, store, remove, arith, Bool-cases, inl, inr, lookup-store_same, lookup-store_other,
  lookup-remove_same, lookup-remove_other, bytes_eq, bytes_eq→eq,
}
use pcap_server.Limiters.{
  or_empty, times_of, recent, keep_times, RateLimiter, lockout_seconds, is_locked, record_failure,
  reset, prune_attempts,
}
use pcap_server.Limiters.Times.{
  recent-append, recent-recent, recent_later, recent-prune_times, recent-keep_times_same,
  count_within, length-recent-count_within, times_of-keep_times_other,
}

-- The calls that main.py makes of the limiter: a sign-in is refused or not, fails, or succeeds,
-- and the periodic clean-up.
pub data Call : Type 0 where
  asks fails succeeds : Text → Call
  cleans_up : Call

abbrev pub call : ℕ → Call → RateLimiter → RateLimiter
call now (asks key) l = (is_locked now key l).1
call now (fails key) l = record_failure now key l
call now (succeeds key) l = reset key l
call now cleans_up l = prune_attempts now l

unfoldable pub run : List (ℕ × Call) → RateLimiter → RateLimiter
run [] l = l
run ((now, c) ∷ rest) l = run rest (call now c l)

-- Every failure of a key since it last succeeded, however old.
abbrev pub remember : Text → ℕ → Call → List ℕ → List ℕ
remember key now (asks k) h = h
remember key now (fails k) h = if bytes_eq key k then h ++ now ∷ [] else h
remember key now (succeeds k) h = if bytes_eq key k then [] else h
remember key now cleans_up h = h

unfoldable pub failures : Text → List (ℕ × Call) → List ℕ → List ℕ
failures key [] h = h
failures key ((now, c) ∷ rest) h = failures key rest (remember key now c h)

-- The clock does not go back: from the first time, over the calls, to the last time.
abbrev pub InOrder : ℕ → List (ℕ × Call) → ℕ → Type 0
InOrder first [] last = first ≤ last
InOrder first ((now, c) ∷ rest) last = (first ≤ now) × InOrder now rest last

-- The limiter knows the recent ones of a key's failures.
abbrev Knows : ℕ → Text → RateLimiter → List ℕ → Type 0
Knows now key l h =
    recent (lockout_seconds l) now (times_of l.attempts key) ≡ recent (lockout_seconds l) now h

Knows-asks :
    (now : ℕ) (key k : Text) (l : RateLimiter) (h : List ℕ)
    → Knows now key l h
    → Knows now key (is_locked now k l).1 h
unfolding is_locked
Knows-asks now key k l h known = elim (Bool-cases (bytes_eq key k)) [
  | inl same ↦
      let w = lockout_seconds l in
      let e = bytes_eq→eq key k same in
      subst
        (λ i.
          recent w now
            (times_of (keep_times l.attempts i (recent w now (times_of l.attempts i))) key)
          ≡ recent w now h)
        e
        (recent-keep_times_same w now l.attempts key (recent w now (times_of l.attempts key))
          ∙ recent-recent w now now (times_of l.attempts key) (omega arith)
          ∙ known)
  | inr other ↦
      let kept =
        times_of-keep_times_other l.attempts k key
          (recent (lockout_seconds l) now (times_of l.attempts k)) other in
      ap (recent (lockout_seconds l) now) kept ∙ known
]

Knows-fails :
    (now : ℕ) (key k : Text) (l : RateLimiter) (h : List ℕ)
    → Knows now key l h
    → Knows now key (record_failure now k l) (remember key now (fails k) h)
unfolding record_failure
Knows-fails now key k l h known = elim (Bool-cases (bytes_eq key k)) [
  | inl same ↦
      let w = lockout_seconds l in
      let e = bytes_eq→eq key k same in
      rw same (
        subst
          (λ i.
            recent w now (times_of (store l.attempts i (times_of l.attempts i ++ now ∷ [])) key)
            ≡ recent w now (h ++ now ∷ []))
          e
          (ap (λ o. recent w now (or_empty o))
              (lookup-store_same l.attempts key (times_of l.attempts key ++ now ∷ []))
            ∙ recent-append w now (times_of l.attempts key) (now ∷ [])
            ∙ ap (λ ts. ts ++ recent w now (now ∷ [])) known
            ∙ sym (recent-append w now h (now ∷ []))))
  | inr other ↦
      let kept = lookup-store_other l.attempts k key (times_of l.attempts k ++ now ∷ []) other in
      rw other (ap (λ o. recent (lockout_seconds l) now (or_empty o)) kept ∙ known)
]

Knows-succeeds :
    (now : ℕ) (key k : Text) (l : RateLimiter) (h : List ℕ)
    → Knows now key l h
    → Knows now key (reset k l) (remember key now (succeeds k) h)
unfolding reset
Knows-succeeds now key k l h known = elim (Bool-cases (bytes_eq key k)) [
  | inl same ↦
      let e = bytes_eq→eq key k same in
      let gone = lookup-remove_same l.attempts key in
      rw same (
        subst
          (λ i.
            recent (lockout_seconds l) now (times_of (remove l.attempts i) key)
            ≡ recent (lockout_seconds l) now [])
          e (ap (λ o. recent (lockout_seconds l) now (or_empty o)) gone))
  | inr other ↦
      let kept = lookup-remove_other l.attempts k key other in
      rw other (ap (λ o. recent (lockout_seconds l) now (or_empty o)) kept ∙ known)
]

Knows-call :
    (now : ℕ) (key : Text) (c : Call) (l : RateLimiter) (h : List ℕ)
    → Knows now key l h
    → Knows now key (call now c l) (remember key now c h)
unfolding prune_attempts
Knows-call now key (asks k) l h known = Knows-asks now key k l h known
Knows-call now key (fails k) l h known = Knows-fails now key k l h known
Knows-call now key (succeeds k) l h known = Knows-succeeds now key k l h known
Knows-call now key cleans_up l h known =
    recent-prune_times (lockout_seconds l) now l.attempts key ∙ known

-- No call changes the limits.
SameLimits : RateLimiter → RateLimiter → Type 0
SameLimits l m = (l.max_attempts ≡ m.max_attempts) × (l.lockout_minutes ≡ m.lockout_minutes)

SameLimits-call : (now : ℕ) (c : Call) (l : RateLimiter) → SameLimits (call now c l) l
unfolding SameLimits is_locked record_failure reset prune_attempts
SameLimits-call now (asks k) l = (refl, refl)
SameLimits-call now (fails k) l = (refl, refl)
SameLimits-call now (succeeds k) l = (refl, refl)
SameLimits-call now cleans_up l = (refl, refl)

SameLimits-run : (calls : List (ℕ × Call)) (l : RateLimiter) → SameLimits (run calls l) l
unfolding SameLimits run
SameLimits-run [] l = (refl, refl)
SameLimits-run ((now, c) ∷ rest) l =
    let later = SameLimits-run rest (call now c l) in
    let first = SameLimits-call now c l in (later.0 ∙ first.0, later.1 ∙ first.1)

Knows-later :
    (first now : ℕ) (key : Text) (l : RateLimiter) (h : List ℕ)
    → first ≤ now
    → Knows first key l h
    → Knows now key l h
Knows-later first now key l h le known =
    recent_later (lockout_seconds l) first now (times_of l.attempts key) h le known

Knows-run :
    (first last : ℕ) (key : Text) (calls : List (ℕ × Call)) (l : RateLimiter) (h : List ℕ)
    → InOrder first calls last
    → Knows first key l h
    → Knows last key (run calls l) (failures key calls h)
unfolding run failures
Knows-run first last key [] l h order known = Knows-later first last key l h order known
Knows-run first last key ((now, c) ∷ rest) l h order known =
    Knows-run now last key rest (call now c l) (remember key now c h) order.1
      (Knows-call now key c l h (Knows-later first now key l h order.0 known))

abbrev pub fresh_limiter : ℕ → ℕ → RateLimiter
fresh_limiter max_attempts lockout_minutes = record {
  max_attempts = max_attempts;
  lockout_minutes = lockout_minutes;
  attempts = [];
}

-- After any calls at times that do not go back, for any keys, a key is locked just when it failed
-- at least max_attempts times in the last lockout_minutes since it last succeeded. The attempts
-- that is_locked and prune dropped on the way make no difference.
pub is_locked-run :
    (max_attempts lockout_minutes now : ℕ) (key : Text) (calls : List (ℕ × Call))
    → InOrder 0 calls now
    → (is_locked now key (run calls (fresh_limiter max_attempts lockout_minutes))).0
      ≡ leb max_attempts (count_within (lockout_minutes * 60) now (failures key calls []))
unfolding is_locked SameLimits
is_locked-run max_attempts lockout_minutes now key calls order =
    let start = fresh_limiter max_attempts lockout_minutes in
    let l = run calls start in
    let known = Knows-run 0 now key calls start [] order refl in
    let limits = SameLimits-run calls start in
    let times = failures key calls [] in
    ap₂ (λ most times. leb most (length times)) limits.0
      (known ∙ ap (λ minutes. recent (minutes * 60) now times) limits.1)
    ∙ ap (leb max_attempts) (length-recent-count_within (lockout_minutes * 60) now times)
