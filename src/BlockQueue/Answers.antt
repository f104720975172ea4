-- ===== src/BlockQueue/Answers.antt =====
-- What the consumers of 0114/ConProd.cc print.
use os_net_work_code.Base.{
  ℕ, ◌+◌, ◌≤◌, ◌≡◌, refl, ap, ◌∙◌, Bool-cases, Option, none, some, Option-cases, List, [], ◌∷◌,
  ◌++◌, get_elem?, length, if◌then◌else◌, ◌==◌, arith, inl, inr,
}
use os_net_work_code.Base.Threads.{weigh, weigh-append}
use os_net_work_code.Fifo.{
  Event, puts, gots, gots-append, Steps, done, Steps-append, Steps-order, Steps-length,
}
use os_net_work_code.BlockQueue.System.{Action, call_push, call_pop, run, spurious, start, step}
use os_net_work_code.BlockQueue.Defs.{init}
use os_net_work_code.BlockQueue.Invariant.{Inv, start-Inv}
use os_net_work_code.BlockQueue.Safety.{step-Good}
use os_net_work_code.BlockQueue.Tasks.{
  default_cap, call_task, Made, made, consumer, productor, Turn, consume, show, produce, act, wake,
  World, begun, in_hand, behind, take_hand, went, print_task, is_idle, turn, program, answers,
  Between,
}

answers-append : (ms ns : List Made) → answers (ms ++ ns) ≡ answers ms ++ answers ns
unfolding answers
answers-append [] ns = refl
answers-append (m ∷ ms) ns = ap (λ t. call_task m.0 ∷ t) (answers-append ms ns)

answers-Between : (ms : List Made) → Between 2 15 (answers ms)
unfolding answers
answers-Between [] = tt
answers-Between (m ∷ ms) = (m.1, m.2, answers-Between ms)

-- The tasks in the consumers' hands, under a weight.
abbrev pub held : (Made → ℕ) → List (ℕ × Made) → ℕ
held v hs = weigh (λ h. v h.1) hs

held-in_hand : (v : Made → ℕ) (i : ℕ) (ms : List Made) → held v (in_hand i ms) ≡ weigh v ms
unfolding weigh in_hand
held-in_hand v i [] = refl
held-in_hand v i (m ∷ ms) = ap (λ n. v m + n) (held-in_hand v i ms)

-- A thread lets its task go.
Lets : (Made → ℕ) → ℕ → Option (Made × List (ℕ × Made)) → Type 0
Lets v n none = Unit {0}
Lets v n (some (m, rest)) = n ≡ v m + held v rest

behind-Lets :
    (v : Made → ℕ) (n : ℕ) (h : ℕ × Made) (o : Option (Made × List (ℕ × Made)))
    → Lets v n o
    → Lets v (v h.1 + n) (behind h o)
unfolding Lets behind weigh
behind-Lets v n h none l = tt
behind-Lets v n h (some (m, rest)) l = omega (arith, l)

take_hand-Lets : (v : Made → ℕ) (i : ℕ) (hs : List (ℕ × Made)) → Lets v (held v hs) (take_hand i hs)
unfolding take_hand weigh
take_hand-Lets v i [] = unfold Lets in tt
take_hand-Lets v i (h ∷ hs) = elim (Bool-cases (h.0 == i)) [
  | inl y ↦ rw (y, if◌then◌else◌) (unfold Lets in refl)
  | inr n ↦
      rw (n, if◌then◌else◌) (behind-Lets v (held v hs) h (take_hand i hs) (take_hand-Lets v i hs))
]

-- What some turns come to: the queue keeps to its order, and what was got is in hand or printed.
record Follows (w : World) (o : Option (World × List (Event Made))) : Type 0 where
  after : World
  trace : List (Event Made)
  returns : o ≡ some (after, trace)
  steps : Steps default_cap w.sys.queue.bq trace after.sys.queue.bq
  conserves :
      (v : Made → ℕ)
      → weigh v (gots trace) + (held v w.hands + weigh v w.shown)
        ≡ held v after.hands + weigh v after.shown
  inv : Inv default_cap 0 0 after.sys.queue after.sys.threads

went-Follows :
    (w : World) (i : ℕ) (a : Action Made)
    → Inv default_cap 0 0 w.sys.queue w.sys.threads
    → Follows w (went w i (step w.sys a))
unfolding went
went-Follows w i a inv =
    let g = step-Good a inv in
    record {
      after = record w { sys = g.after; hands = w.hands ++ in_hand i (gots g.trace) };
      trace = g.trace;
      returns = rw (g.returns, went) refl;
      steps = g.steps;
      conserves = λ v. omega (
        arith,
        weigh-append (λ h. v h.1) w.hands (in_hand i (gots g.trace)),
        held-in_hand v i (gots g.trace),
      );
      inv = g.inv;
    }

-- The queue and its threads stay as they are.
quiet-Follows :
    (w u : World)
    → u.sys ≡ w.sys
    → ((v : Made → ℕ) → held v w.hands + weigh v w.shown ≡ held v u.hands + weigh v u.shown)
    → Inv default_cap 0 0 w.sys.queue w.sys.threads
    → Follows w (some (u, []))
unfolding gots weigh
quiet-Follows w u same keeps inv = record {
  after = u;
  trace = [];
  returns = refl;
  steps = rw same done;
  conserves = λ v. omega (arith, keeps v);
  inv = rw same inv;
}

print_task-Follows :
    (w : World) (o : Option (Made × List (ℕ × Made)))
    → ((v : Made → ℕ) → Lets v (held v w.hands) o)
    → Inv default_cap 0 0 w.sys.queue w.sys.threads
    → Follows w (some (print_task w o, []))
unfolding print_task Lets weigh
print_task-Follows w none lets inv = quiet-Follows w w refl (λ v. refl) inv
print_task-Follows w (some (m, rest)) lets inv =
    quiet-Follows w (record w { hands = rest; shown = w.shown ++ m ∷ [] }) refl
      (λ v. omega (arith, lets v, weigh-append v w.shown (m ∷ []))) inv

turn-Follows :
    (w : World) (t : Turn) → Inv default_cap 0 0 w.sys.queue w.sys.threads → Follows w (turn w t)
unfolding turn
turn-Follows w (consume second) inv = elim (Option-cases (take_hand (consumer second) w.hands)) [
  | inl e ↦ rw (turn, e) (went-Follows w (consumer second) (call_pop (consumer second)) inv)
  | inr (h, e) ↦ rw (turn, e) (quiet-Follows w w refl (λ v. refl) inv)
]
turn-Follows w (show second) inv =
    elim (Bool-cases (is_idle (get_elem? w.sys.threads (consumer second)))) [
      | inl y ↦
          rw (y, if◌then◌else◌)
            (print_task-Follows w (take_hand (consumer second) w.hands)
              (λ v. take_hand-Lets v (consumer second) w.hands) inv)
      | inr n ↦ rw (n, if◌then◌else◌) (quiet-Follows w w refl (λ v. refl) inv)
    ]
turn-Follows w (produce second r r') inv =
    went-Follows w (productor second) (call_push (productor second) (made r r')) inv
turn-Follows w (act i j) inv = went-Follows w i (run i j) inv
turn-Follows w (wake i) inv = went-Follows w i (spurious i) inv

program-Follows :
    (ts : List Turn) (w : World)
    → Inv default_cap 0 0 w.sys.queue w.sys.threads
    → Follows w (program w ts)
unfolding program
program-Follows [] w inv = quiet-Follows w w refl (λ v. refl) inv
program-Follows (t ∷ ts) w inv =
    let f = turn-Follows w t inv in
    let g = program-Follows ts f.after f.inv in
    record {
      after = g.after;
      trace = f.trace ++ g.trace;
      returns = rw (program, f.returns, g.returns) refl;
      steps = Steps-append f.steps g.steps;
      conserves = λ v. omega (
        arith,
        f.conserves v,
        g.conserves v,
        ap (weigh v) (gots-append f.trace g.trace),
        weigh-append v (gots f.trace) (gots g.trace),
      );
      inv = g.inv;
    }

-- Producers and consumers together, under every schedule: the answers of the tasks that consumers
-- have popped, in the order in which they left the queue, followed by those of the at most five
-- tasks that wait there, are the answers of the tasks pushed, in the order of the pushes.
-- Under every weight of tasks, those popped weigh as much as those that consumers have still to
-- print and those printed. All answers printed lie between 2 and 15.
pub answers_in_order :
    (turns : List Turn)
    → (w : World) × (es : List (Event Made)) × (program begun turns ≡ some (w, es))
      × (answers (puts es) ≡ answers (gots es) ++ answers w.sys.queue.bq)
      × (length w.sys.queue.bq ≤ default_cap)
      × ((v : Made → ℕ) → weigh v (gots es) ≡ held v w.hands + weigh v w.shown)
      × Between 2 15 (answers w.shown)
unfolding begun start init weigh
answers_in_order turns =
    let f = program-Follows turns begun (start-Inv {A = Made} default_cap 4) in
    (
      f.after,
      f.trace,
      f.returns,
      ap answers (Steps-order f.steps) ∙ answers-append (gots f.trace) f.after.sys.queue.bq,
      Steps-length f.steps (omega arith),
      λ v. omega (arith, f.conserves v),
      answers-Between f.after.shown,
    )
