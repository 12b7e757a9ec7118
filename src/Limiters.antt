-- ===== src/Limiters.antt =====
-- backend/auth.py: RateLimiter and SlidingWindowLimiter.
-- The clock is an argument: time.monotonic() in a whole number of seconds. A time is after the
-- cutoff `now - window` just when `now < time + window`.
pub mod Times
pub mod Lockout
pub mod Throttle
pub mod Examples
use pcap_server.Prelude.{
  ℕ, ◌+◌, ◌*◌, ◌≡◌, Bool, true, false, List, [], ◌∷◌, ◌++◌, Option, none, some, length, ltb, leb,
  if◌then◌else◌, any_of, Text, Dict, lookup, store, remove, remove_all, keys,
}

abbrev pub or_empty : Option (List ℕ) → List ℕ
or_empty none = []
or_empty (some times) = times

-- `self._attempts.get(key, [])`
abbrev pub times_of : Dict (List ℕ) → Text → List ℕ
times_of d key = or_empty (lookup d key)

-- `t > cutoff`
abbrev pub is_recent : ℕ → ℕ → ℕ → Bool
is_recent window now time = ltb now (time + window)

-- `[t for t in times if t > cutoff]`
unfoldable pub recent : ℕ → ℕ → List ℕ → List ℕ
recent window now [] = []
recent window now (t ∷ ts) =
    let rest = recent window now ts in if is_recent window now t then t ∷ rest else rest

-- `[k for k, v in d.items() if not any(t > cutoff for t in v)]`
unfoldable pub stale_keys : ℕ → ℕ → Dict (List ℕ) → List Text → List Text
stale_keys window now d [] = []
stale_keys window now d (k ∷ ks) =
    let rest = stale_keys window now d ks in
    if any_of (is_recent window now) (times_of d k) then rest else k ∷ rest

-- Deleting these keys.
unfoldable pub prune_times : ℕ → ℕ → Dict (List ℕ) → Dict (List ℕ)
prune_times window now d = remove_all d (stale_keys window now d (keys d))

pub record RateLimiter : Type 0 where
  pub max_attempts : ℕ
  pub lockout_minutes : ℕ
  pub attempts : Dict (List ℕ)

abbrev pub lockout_seconds : RateLimiter → ℕ
lockout_seconds l = l.lockout_minutes * 60

-- What is_locked puts back: the recent attempts, or no entry.
abbrev pub keep_times : Dict (List ℕ) → Text → List ℕ → Dict (List ℕ)
keep_times d key [] = remove d key
keep_times d key (t ∷ ts) = store d key (t ∷ ts)

unfoldable pub is_locked : ℕ → Text → RateLimiter → Bool × RateLimiter
is_locked now key l =
    let fresh = recent (lockout_seconds l) now (times_of l.attempts key) in
    (leb l.max_attempts (length fresh), record l { attempts = keep_times l.attempts key fresh })

unfoldable pub record_failure : ℕ → Text → RateLimiter → RateLimiter
record_failure now key l = record l {
  attempts = store l.attempts key (times_of l.attempts key ++ now ∷ []);
}

unfoldable pub reset : Text → RateLimiter → RateLimiter
reset key l = record l { attempts = remove l.attempts key }

unfoldable pub update_lockout_config : ℕ → ℕ → RateLimiter → RateLimiter
update_lockout_config max_attempts lockout_minutes l = record l {
  max_attempts = max_attempts;
  lockout_minutes = lockout_minutes;
}

unfoldable pub prune_attempts : ℕ → RateLimiter → RateLimiter
prune_attempts now l = record l { attempts = prune_times (lockout_seconds l) now l.attempts }

pub record SlidingWindowLimiter : Type 0 where
  pub max_per_minute : ℕ
  pub hits : Dict (List ℕ)

unfoldable pub allow : ℕ → Text → SlidingWindowLimiter → Bool × SlidingWindowLimiter
allow now key l =
    let fresh = recent 60 now (times_of l.hits key) in
    if leb l.max_per_minute (length fresh)
    then (false, record l { hits = store l.hits key fresh })
    else (true, record l { hits = store l.hits key (fresh ++ now ∷ []) })

unfoldable pub update_window_config : ℕ → SlidingWindowLimiter → SlidingWindowLimiter
update_window_config max_per_minute l = record l { max_per_minute = max_per_minute }

unfoldable pub prune_hits : ℕ → SlidingWindowLimiter → SlidingWindowLimiter
prune_hits now l = record l { hits = prune_times 60 now l.hits }
