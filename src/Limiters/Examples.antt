-- ===== src/Limiters/Examples.antt =====
-- Two addresses, a lockout of two failures in one minute, and a limit of one call a minute.
use pcap_server.Prelude.{ℕ, ◌≡◌, ◌≤◌, List, [], ◌∷◌, Text, arith, leb, ltb, ◌*◌}
use pcap_server.Limiters.{allow, is_locked}
use pcap_server.Limiters.Times.{count_within}
use pcap_server.Limiters.Lockout.{
  Call, asks, fails, succeeds, cleans_up, run, failures, fresh_limiter, is_locked-run,
}
use pcap_server.Limiters.Throttle.{
  Visit, requests, visits, length-visits, allow-visits, fresh_window,
}
use pcap_server.Limiters.Throttle

abbrev alice : Text
alice = 97 ∷ []

abbrev bob : Text
bob = 98 ∷ []

-- Alice's first failure is a minute old at 65, the others are not.
abbrev sign_ins : List (ℕ × Call)
sign_ins =
    (5, fails alice)
    ∷ (10, fails bob)
    ∷ (20, asks alice)
    ∷ (30, fails alice)
    ∷ (40, succeeds bob)
    ∷ (50, fails alice)
    ∷ (65, cleans_up)
    ∷ []

is_locked-run_example :
    (is_locked 70 alice (run sign_ins (fresh_limiter 2 1))).0
    ≡ leb 2 (count_within (1 * 60) 70 (failures alice sign_ins []))
is_locked-run_example = is_locked-run 2 1 70 alice sign_ins (
  omega arith,
  (
    omega arith,
    (omega arith, (omega arith, (omega arith, (omega arith, (omega arith, omega arith))))),
  ),
)

-- The second request of a minute is refused, the one after the minute passes.
abbrev page_loads : List (ℕ × Visit)
page_loads =
    (0, requests alice)
    ∷ (30, requests alice)
    ∷ (59, Throttle.cleans_up)
    ∷ (61, requests alice)
    ∷ []

length-visits_example : count_within 60 70 (visits alice page_loads (fresh_window 1)).1 ≤ 1
length-visits_example =
    length-visits 1 70 alice page_loads
      (omega arith, (omega arith, (omega arith, (omega arith, omega arith))))

allow-visits_example :
    (allow 70 alice (visits alice page_loads (fresh_window 1)).0).0
    ≡ ltb (count_within 60 70 (visits alice page_loads (fresh_window 1)).1) 1
allow-visits_example =
    allow-visits 1 70 alice page_loads
      (omega arith, (omega arith, (omega arith, (omega arith, omega arith))))
