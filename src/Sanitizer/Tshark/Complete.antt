-- ===== src/Sanitizer/Tshark/Complete.antt =====
-- A pass goes through where tshark printed packets of the capture's frames, in order.
use pcap_server.Prelude.{
  ℕ, suc, ◌≡◌, ◌≤◌, refl, sym, ap, ◌∙◌, Bool, true, false, not, List, [], ◌∷◌, ltb, if◌then◌else◌,
  Option, none, some, length, arith, subst,
}
use pcap_server.Sanitizer.{never_seen, Attempt, ok, raised, ◌>>=◌, Gives, Gives-bind, not-false}
use pcap_server.Sanitizer.Tshark.{
  TsharkPass, new_pass, advance_on, advance, look_ahead, answer, packet_for, settle, finish,
  ask_frames, run_pass,
}
use pcap_server.Sanitizer.Tshark.Matching.{reported, held, held_by, IsPass, held_none, not-true}

-- Every packet has a number, and it is at least `low`.
abbrev Numbered : {P : Type 0} → ℕ → List (Option ℕ × P) → Type 0
Numbered low [] = Unit
Numbered low ((none, packet) ∷ packets) = ⊥
Numbered low ((some number, packet) ∷ packets) = (low ≤ number) × Numbered low packets

Numbered-le :
    {P : Type 0} (low more : ℕ) (packets : List (Option ℕ × P))
    → low ≤ more
    → Numbered more packets
    → Numbered low packets
Numbered-le low more [] h t = tt
Numbered-le low more ((none, packet) ∷ packets) h t = absurd t
Numbered-le low more ((some number, packet) ∷ packets) h t =
    (omega (arith, h, t.0), Numbered-le low more packets h t.1)

Numbered-reported :
    {P : Type 0} (index : ℕ) (answers : List (Option P)) → Numbered index (reported index answers)
Numbered-reported index [] = tt
Numbered-reported index (none ∷ answers) =
    Numbered-le index (suc index) (reported (suc index) answers) (omega arith)
      (Numbered-reported (suc index) answers)
Numbered-reported index (some packet ∷ answers) = (
  omega arith,
  Numbered-le index (suc index) (reported (suc index) answers) (omega arith)
      (Numbered-reported (suc index) answers),
)

-- A pass that exits cleanly and still has `packets` to give.
abbrev Stands : {P : Type 0} → List (Option ℕ × P) → TsharkPass P → Type 0
Stands packets t = IsPass t × (held_by t ≡ packets) × (t.exited_cleanly ≡ true)

abbrev StandsReady : {P : Type 0} → List (Option ℕ × P) → TsharkPass P → Type 0
StandsReady packets t = Stands packets t × (t.pending ≡ none → packets ≡ [])

Gives-if :
    {A : Type 0} (P : A → Type 0) (b : Bool) (x y : Attempt A)
    → (b ≡ true → Gives P x)
    → (b ≡ false → Gives P y)
    → Gives P (if b then x else y)
Gives-if P true x y hx hy = hx refl
Gives-if P false x y hx hy = hy refl

advance_on-StandsReady :
    {P : Type 0} (low : ℕ) (packets : List (Option ℕ × P)) (t : TsharkPass P)
    → Numbered low packets
    → t.packets ≡ packets
    → t.pending ≡ none
    → t.exhausted ≡ false
    → t.exited_cleanly ≡ true
    → Gives (StandsReady packets) (advance_on packets t)
unfolding advance_on
advance_on-StandsReady low [] t h e p x c = ((λ _. e, held_none t [] p e, c), λ _. refl)
advance_on-StandsReady low ((none, packet) ∷ packets) t h e p x c = absurd h
advance_on-StandsReady low ((some number, packet) ∷ packets) t h e p x c =
    ((λ x'. cc (x, x'), refl, c), λ q. cc q)

look_ahead-StandsReady :
    {P : Type 0} (low : ℕ) (pending : Option (ℕ × P)) (packets : List (Option ℕ × P))
    (t : TsharkPass P)
    → Numbered low packets
    → Stands packets t
    → t.pending ≡ pending
    → Gives (StandsReady packets) (look_ahead pending t)
unfolding look_ahead advance
look_ahead-StandsReady low none packets t h (valid, same, clean) p =
    let all_of : t.packets ≡ packets = sym (held_none t t.packets p refl) ∙ same in
    Gives-if (StandsReady packets) (not t.exhausted) (advance_on t.packets t) (ok t)
      (λ more.
        subst (λ xs. Gives (StandsReady xs) (advance_on t.packets t)) all_of
          (advance_on-StandsReady low t.packets t (subst (Numbered low) (sym all_of) h) refl p
            (not-true t.exhausted more) clean))
      (λ over. ((valid, same, clean), λ _. sym all_of ∙ valid (not-false t.exhausted over)))
look_ahead-StandsReady low (some pending) packets t h (valid, same, clean) p =
    ((valid, same, clean), λ q. cc (p, q))

-- The answer that is wanted for a frame, with the later frames' packets left.
abbrev IsAnswer : {P : Type 0} → ℕ → Option P → List (Option P) → Option P × TsharkPass P → Type 0
IsAnswer index a answers got = (got.0 ≡ a) × Stands (reported (suc index) answers) got.1

answer_none :
    {P : Type 0} (index : ℕ) (pending : Option (ℕ × P)) (answers : List (Option P))
    (ready : TsharkPass P)
    → StandsReady (reported (suc index) answers) ready
    → ready.pending ≡ pending
    → Gives (IsAnswer index none answers) (answer index pending ready)
unfolding answer
answer_none index none answers ready h p = (refl, h.0)
answer_none index (some (number, packet)) answers ready ((valid, same, clean), empty) p =
    let later : Numbered (suc index) ((some number, packet) ∷ ready.packets) =
      subst (Numbered (suc index)) (sym same ∙ ap (λ q. held q ready.packets) p)
        (Numbered-reported (suc index) answers) in
    Gives-if (IsAnswer index none answers) (ltb number index) (raised never_seen) _
      (λ early. absurd (ground (arith, early, later.0)))
      (λ _.
        Gives-if (IsAnswer index none answers) (ltb index number) (ok (none, ready)) _
          (λ _. (refl, (valid, same, clean))) (λ late. absurd (ground (arith, late, later.0))))

answer_some :
    {P : Type 0} (index : ℕ) (pending : Option (ℕ × P)) (packet : P) (answers : List (Option P))
    (ready : TsharkPass P)
    → StandsReady ((some index, packet) ∷ reported (suc index) answers) ready
    → ready.pending ≡ pending
    → Gives (IsAnswer index (some packet) answers) (answer index pending ready)
unfolding answer
answer_some index none packet answers ready (h, empty) p = absurd (cc (empty p))
answer_some index (some (number, other)) packet answers ready ((valid, same, clean), empty) p =
    let all_of : ◌≡◌ {A = List (Option ℕ × _)} ((some number, other) ∷ ready.packets)
        ((some index, packet) ∷ reported (suc index) answers) =
      sym (ap (λ q. held q ready.packets) p) ∙ same in
    let same_number : number ≡ index = cc all_of in
    let same_packet : other ≡ packet = cc all_of in
    let left : ready.packets ≡ reported (suc index) answers = cc all_of in
    Gives-if (IsAnswer index (some packet) answers) (ltb number index) (raised never_seen) _
      (λ early. absurd (ground (arith, early, same_number)))
      (λ _.
        Gives-if (IsAnswer index (some packet) answers) (ltb index number) (ok (none, ready)) _
          (λ late. absurd (ground (arith, late, same_number)))
          (λ _. (ap some same_packet, (valid, left, clean))))

answer_for :
    {P : Type 0} (index : ℕ) (a : Option P) (answers : List (Option P)) (ready : TsharkPass P)
    → StandsReady (reported index (a ∷ answers)) ready
    → Gives (IsAnswer index a answers) (answer index ready.pending ready)
answer_for index none answers ready h = answer_none index ready.pending answers ready h refl
answer_for index (some packet) answers ready h =
    answer_some index ready.pending packet answers ready h refl

packet_for-IsAnswer :
    {P : Type 0} (index : ℕ) (a : Option P) (answers : List (Option P)) (t : TsharkPass P)
    → Stands (reported index (a ∷ answers)) t
    → Gives (IsAnswer index a answers) (packet_for index t)
unfolding packet_for
packet_for-IsAnswer index a answers t h =
    Gives-bind (StandsReady (reported index (a ∷ answers))) (IsAnswer index a answers)
      (look_ahead t.pending t) (λ ready. answer index ready.pending ready)
      (look_ahead-StandsReady index t.pending (reported index (a ∷ answers)) t
        (Numbered-reported index (a ∷ answers)) h refl)
      (λ ready stands. answer_for index a answers ready stands)

ask_frames-answers :
    {P : Type 0} (index : ℕ) (answers : List (Option P)) (t : TsharkPass P)
    → Stands (reported index answers) t
    → Gives (λ asked. (asked.0 ≡ answers) × Stands [] asked.1) (ask_frames (length answers) index t)
unfolding ask_frames
ask_frames-answers index [] t h = (refl, h)
ask_frames-answers index (a ∷ answers) t h =
    Gives-bind (IsAnswer index a answers) (λ asked. (asked.0 ≡ a ∷ answers) × Stands [] asked.1)
      (packet_for index t)
      (λ first. do
        later ← ask_frames (length answers) (suc index) first.1
        ok (first.0 ∷ later.0, later.1))
      (packet_for-IsAnswer index a answers t h)
      (λ first (same, stands).
        Gives-bind (λ asked. (asked.0 ≡ answers) × Stands [] asked.1)
          (λ asked. (asked.0 ≡ a ∷ answers) × Stands [] asked.1)
          (ask_frames (length answers) (suc index) first.1)
          (λ later. ok (first.0 ∷ later.0, later.1))
          (ask_frames-answers (suc index) answers first.1 stands)
          (λ later (same', stands'). (cc (same, same'), stands')))

settle_clean :
    {P : Type 0} (pending : Option (ℕ × P)) (ready : TsharkPass P)
    → Stands [] ready
    → ready.pending ≡ pending
    → settle pending ready ≡ ok tt
unfolding settle
settle_clean none ready h p = rw h.2 refl
settle_clean (some (number, packet)) ready h p = cc (sym (ap (λ q. held q ready.packets) p) ∙ h.1)

finish_clean : {P : Type 0} (t : TsharkPass P) → Stands [] t → Gives (λ done. Unit {0}) (finish t)
unfolding finish
finish_clean t h =
    Gives-bind (StandsReady []) (λ done. Unit {0}) (look_ahead t.pending t)
      (λ ready. settle ready.pending ready) (look_ahead-StandsReady 0 t.pending [] t tt h refl)
      (λ ready stands.
        subst (Gives (λ done. Unit {0})) (sym (settle_clean ready.pending ready stands.0 refl)) tt)

Gives-ok : {A : Type 0} (x : Attempt A) (a : A) → Gives (λ got. got ≡ a) x → x ≡ ok a
Gives-ok (ok got) a h = ap ok h
Gives-ok (raised e) a h = absurd h

-- If tshark prints packets of the capture's frames, each once and in order, and exits
-- cleanly, the whole pass goes through and hands out each packet for its own frame.
pub run_pass_complete :
    {P : Type 0} (answers : List (Option P))
    → run_pass (length answers) (new_pass (reported 1 answers) true) ≡ ok answers
unfolding run_pass
run_pass_complete answers =
    let t = new_pass (reported 1 answers) true in
    Gives-ok (run_pass (length answers) t) answers (
      Gives-bind (λ asked. (asked.0 ≡ answers) × Stands [] asked.1) (λ got. got ≡ answers)
        (ask_frames (length answers) 1 t) (λ asked. finish asked.1 >>= λ done. ok asked.0)
        (ask_frames-answers 1 answers t ((λ x. cc x), refl, refl))
        (λ asked (same, stands).
          Gives-bind (λ done. Unit {0}) (λ got. got ≡ answers) (finish asked.1) (λ done. ok asked.0)
            (finish_clean asked.1 stands) (λ done _. same)))
