-- ===== src/Sanitizer/Tshark.antt =====
-- backend/sanitizer.py: _TsharkPass, which packet tshark reported for which frame.
-- What tshark prints is a list: each packet with the number that
-- `int(packet["_source"]["layers"]["frame"]["frame.number"])` gives, `none` where that raises.
-- The process's exit is a Boolean.
pub mod Matching
pub mod Complete
use pcap_server.Prelude.{
  ℕ, zero, suc, ◌+◌, Bool, true, false, not, ◌&&◌, List, [], ◌∷◌, ltb, if◌then◌else◌, Option, none,
  some,
}
use pcap_server.Sanitizer.{
  no_frame_number, never_seen, more_frames, tshark_failed, Attempt, ok, raised, ◌>>=◌,
}

pub record TsharkPass (P : Type 0) : Type 0 where
  pub packets : List (Option ℕ × P)
  pub pending : Option (ℕ × P)
  pub exhausted : Bool
  pub exited_cleanly : Bool

-- `_TsharkPass(...)`, started.
abbrev pub new_pass : {P : Type 0} → List (Option ℕ × P) → Bool → TsharkPass P
new_pass packets code = record {
  packets = packets;
  pending = none;
  exhausted = false;
  exited_cleanly = code;
}

unfoldable pub advance_on :
    {P : Type 0} → List (Option ℕ × P) → TsharkPass P → Attempt (TsharkPass P)
advance_on [] t = ok (record t { exhausted = true })
advance_on ((none, packet) ∷ packets) t = raised no_frame_number
advance_on ((some number, packet) ∷ packets) t =
    ok (record t { packets = packets; pending = some (number, packet) })

unfoldable pub advance : {P : Type 0} → TsharkPass P → Attempt (TsharkPass P)
advance t = advance_on t.packets t

-- The test and the call of `_advance` that packet_for and finish begin with.
unfoldable pub look_ahead : {P : Type 0} → Option (ℕ × P) → TsharkPass P → Attempt (TsharkPass P)
look_ahead none t = if not t.exhausted then advance t else ok t
look_ahead (some held) t = ok t

unfoldable pub answer :
    {P : Type 0} → ℕ → Option (ℕ × P) → TsharkPass P → Attempt (Option P × TsharkPass P)
answer index none t = ok (none, t)
answer index (some held) t =
    if ltb held.0 index
    then raised never_seen
    else if ltb index held.0
    then ok (none, t)
    else ok (some held.1, record t { pending = none })

unfoldable pub packet_for : {P : Type 0} → ℕ → TsharkPass P → Attempt (Option P × TsharkPass P)
packet_for index t = do ready ← look_ahead t.pending t; answer index ready.pending ready

unfoldable pub settle : {P : Type 0} → Option (ℕ × P) → TsharkPass P → Attempt Unit
settle none t = if not t.exited_cleanly then raised tshark_failed else ok tt
settle (some held) t = raised more_frames

unfoldable pub finish : {P : Type 0} → TsharkPass P → Attempt Unit
finish t = do ready ← look_ahead t.pending t; settle ready.pending ready

-- A pass over `n` frames from `index` on, as the loop over the records does it.
unfoldable pub ask_frames :
    {P : Type 0} → ℕ → ℕ → TsharkPass P → Attempt (List (Option P) × TsharkPass P)
ask_frames zero index t = ok ([], t)
ask_frames (suc n) index t = do
  first ← packet_for index t
  later ← ask_frames n (suc index) first.1
  ok (first.0 ∷ later.0, later.1)

-- The whole pass: each frame's packet, and then `finish`.
unfoldable pub run_pass : {P : Type 0} → ℕ → TsharkPass P → Attempt (List (Option P))
run_pass n t = do asked ← ask_frames n 1 t; done ← finish asked.1; ok asked.0
