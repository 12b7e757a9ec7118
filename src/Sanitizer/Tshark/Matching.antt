-- ===== src/Sanitizer/Tshark/Matching.antt =====
-- The packets a pass hands out against the packets tshark printed.
use mathlib.Core.List.{append_assoc, append-nil}
use pcap_server.Prelude.{
  ℕ, zero, suc, ◌≡◌, refl, sym, ap, ◌∙◌, Bool, true, false, not, List, [], ◌∷◌, ◌++◌, ltb, Option,
  none, some, length, arith,
}
use pcap_server.Sanitizer.{
  never_seen, tshark_failed, ok, raised, ◌>>=◌, Holds, Holds-bind, Holds-if, Holds-ok, not-false,
}
use pcap_server.Sanitizer.Tshark.{
  TsharkPass, new_pass, advance_on, advance, look_ahead, answer, packet_for, settle, finish,
  ask_frames, run_pass,
}

-- The packets of a list of answers, each with the number of its frame.
abbrev pub reported : {P : Type 0} → ℕ → List (Option P) → List (Option ℕ × P)
reported index [] = []
reported index (none ∷ answers) = reported (suc index) answers
reported index (some packet ∷ answers) = (some index, packet) ∷ reported (suc index) answers

-- What is pending and what is still to come.
abbrev pub held : {P : Type 0} → Option (ℕ × P) → List (Option ℕ × P) → List (Option ℕ × P)
held none packets = packets
held (some (number, packet)) packets = (some number, packet) ∷ packets

abbrev pub held_by : {P : Type 0} → TsharkPass P → List (Option ℕ × P)
held_by t = held t.pending t.packets

-- Nothing is left in the output of tshark once it has run out.
abbrev pub IsPass : {P : Type 0} → TsharkPass P → Type 0
IsPass t = t.exhausted ≡ true → t.packets ≡ []

-- After looking ahead nothing is lost, and with nothing pending nothing is left.
abbrev IsReady : {P : Type 0} → TsharkPass P → TsharkPass P → Type 0
IsReady t ready =
    IsPass ready × (held_by ready ≡ held_by t) × (ready.pending ≡ none → held_by t ≡ [])

pub held_none :
    {P : Type 0} (t : TsharkPass P) (packets : List (Option ℕ × P))
    → t.pending ≡ none
    → t.packets ≡ packets
    → held_by t ≡ packets
held_none t packets p e = ap (λ q. held q t.packets) p ∙ e

advance_on-IsReady :
    {P : Type 0} (packets : List (Option ℕ × P)) (t : TsharkPass P)
    → t.packets ≡ packets
    → t.pending ≡ none
    → t.exhausted ≡ false
    → Holds (IsReady t) (advance_on packets t)
unfolding advance_on
advance_on-IsReady [] t e p x = (λ _. e, refl, λ _. held_none t [] p e)
advance_on-IsReady ((none, packet) ∷ packets) t e p x = tt
advance_on-IsReady ((some number, packet) ∷ packets) t e p x =
    (λ x'. cc (x, x'), sym (held_none t ((some number, packet) ∷ packets) p e), λ q. cc q)

pub not-true : (b : Bool) → not b ≡ true → b ≡ false
not-true true e = cc e
not-true false e = refl

look_ahead-IsReady :
    {P : Type 0} (pending : Option (ℕ × P)) (t : TsharkPass P)
    → IsPass t
    → t.pending ≡ pending
    → Holds (IsReady t) (look_ahead pending t)
unfolding look_ahead advance
look_ahead-IsReady none t valid p =
    Holds-if (IsReady t) (not t.exhausted) (advance_on t.packets t) (ok t)
      (λ more. advance_on-IsReady t.packets t refl p (not-true t.exhausted more))
      (λ over. (valid, refl, λ _. held_none t [] p (valid (not-false t.exhausted over))))
look_ahead-IsReady (some pending) t valid p = (valid, refl, λ q. cc (p, q))

-- After an answer for a frame: the answer's packet came first, with the frame's number.
abbrev IsAnswered : {P : Type 0} → ℕ → TsharkPass P → Option P × TsharkPass P → Type 0
IsAnswered index t a = IsPass a.1 × (held_by t ≡ reported index (a.0 ∷ []) ++ held_by a.1)

answer-IsAnswered :
    {P : Type 0} (index : ℕ) (pending : Option (ℕ × P)) (t ready : TsharkPass P)
    → IsReady t ready
    → ready.pending ≡ pending
    → Holds (IsAnswered index t) (answer index pending ready)
unfolding answer
answer-IsAnswered index none t ready (valid, same, empty) p = (valid, sym same)
answer-IsAnswered index (some (number, packet)) t ready (valid, same, empty) p =
    Holds-if (IsAnswered index t) (ltb number index) (raised never_seen) _ (λ _. tt)
      (λ early.
        Holds-if (IsAnswered index t) (ltb index number) (ok (none, ready)) _
          (λ _. (valid, sym same))
          (λ late.
            let same_number : number ≡ index = ground (arith, early, late) in
            (
              valid,
              sym same
                  ∙ ap (λ q. held q ready.packets) p
                  ∙ ap (λ n. (some n, packet) ∷ ready.packets) same_number,
            )))

packet_for-IsAnswered :
    {P : Type 0} (index : ℕ) (t : TsharkPass P)
    → IsPass t
    → Holds (IsAnswered index t) (packet_for index t)
unfolding packet_for
packet_for-IsAnswered index t valid =
    Holds-bind (IsReady t) (IsAnswered index t) (look_ahead t.pending t)
      (λ ready. answer index ready.pending ready) (look_ahead-IsReady t.pending t valid refl)
      (λ ready h. answer-IsAnswered index ready.pending t ready h refl)

reported-append :
    {P : Type 0} (index : ℕ) (a : Option P) (answers : List (Option P))
    → reported index (a ∷ answers) ≡ reported index (a ∷ []) ++ reported (suc index) answers
reported-append index none answers = refl
reported-append index (some packet) answers = refl

-- The same for the answers to all the frames from `index` on.
abbrev AreAnswered : {P : Type 0} → ℕ → ℕ → TsharkPass P → List (Option P) × TsharkPass P → Type 0
AreAnswered n index t a =
    IsPass a.1 × (held_by t ≡ reported index a.0 ++ held_by a.1) × (length a.0 ≡ n)

ask_frames-AreAnswered :
    {P : Type 0} (n index : ℕ) (t : TsharkPass P)
    → IsPass t
    → Holds (AreAnswered n index t) (ask_frames n index t)
unfolding ask_frames
ask_frames-AreAnswered zero index t valid = (valid, refl, refl)
ask_frames-AreAnswered (suc n) index t valid =
    Holds-bind (IsAnswered index t) (AreAnswered (suc n) index t) (packet_for index t)
      (λ first. do later ← ask_frames n (suc index) first.1; ok (first.0 ∷ later.0, later.1))
      (packet_for-IsAnswered index t valid)
      (λ first (valid', taken).
        Holds-bind (AreAnswered n (suc index) first.1) (AreAnswered (suc n) index t)
          (ask_frames n (suc index) first.1) (λ later. ok (first.0 ∷ later.0, later.1))
          (ask_frames-AreAnswered n (suc index) first.1 valid')
          (λ later (valid'', taken', size). (
            valid'',
            taken
                ∙ ap (λ xs. reported index (first.0 ∷ []) ++ xs) taken'
                ∙ sym (
                    append_assoc (reported index (first.0 ∷ [])) (reported (suc index) later.0)
                      (held_by later.1))
                ∙ ap (λ xs. xs ++ held_by later.1) (sym (reported-append index first.0 later.0)),
            ap suc size,
          )))

-- `finish` goes through only with nothing left.
abbrev IsOver : {P : Type 0} → TsharkPass P → Unit {0} → Type 0
IsOver t done = held_by t ≡ []

settle-IsOver :
    {P : Type 0} (pending : Option (ℕ × P)) (t ready : TsharkPass P)
    → IsReady t ready
    → ready.pending ≡ pending
    → Holds (IsOver t) (settle pending ready)
unfolding settle
settle-IsOver none t ready h p =
    Holds-if (IsOver t) (not ready.exited_cleanly) (raised tshark_failed) (ok tt) (λ _. tt)
      (λ _. h.2 p)
settle-IsOver (some pending) t ready h p = tt

finish-IsOver : {P : Type 0} (t : TsharkPass P) → IsPass t → Holds (IsOver t) (finish t)
unfolding finish
finish-IsOver t valid =
    Holds-bind (IsReady t) (IsOver t) (look_ahead t.pending t) (λ ready. settle ready.pending ready)
      (look_ahead-IsReady t.pending t valid refl)
      (λ ready h. settle-IsOver ready.pending t ready h refl)

abbrev pub ReportedAll : {P : Type 0} → ℕ → List (Option ℕ × P) → List (Option P) → Type 0
ReportedAll n packets answers = (packets ≡ reported 1 answers) × (length answers ≡ n)

-- If a whole pass over `n` frames goes through, tshark printed just the packets that were
-- handed out, each once, in the order of the frames and under its own frame's number: no
-- packet is dropped, and none is applied to another frame.
pub run_pass-reported :
    {P : Type 0} (n : ℕ) (packets : List (Option ℕ × P)) (code : Bool) (answers : List (Option P))
    → run_pass n (new_pass packets code) ≡ ok answers
    → (packets ≡ reported 1 answers) × (length answers ≡ n)
unfolding run_pass
run_pass-reported n packets code answers e =
    let t = new_pass packets code in
    Holds-ok (ReportedAll n packets) (run_pass n t) answers
      (Holds-bind (AreAnswered n 1 t) (ReportedAll n packets) (ask_frames n 1 t)
        (λ asked. finish asked.1 >>= λ done. ok asked.0) (ask_frames-AreAnswered n 1 t (λ x. cc x))
        (λ asked (valid, taken, size).
          Holds-bind (IsOver asked.1) (ReportedAll n packets) (finish asked.1) (λ done. ok asked.0)
            (finish-IsOver asked.1 valid)
            (λ done over. (
              taken ∙ ap (λ xs. reported 1 asked.0 ++ xs) over ∙ append-nil (reported 1 asked.0),
              size,
            ))))
      e
