-- ===== src/ProcessPool/First/Wires.antt =====
-- One action of a process of 1119/processPool/ProcessPool.cc, on its descriptors and on its pipe.
use mathlib.Core.List.{map-append}
use os_net_work_code.Base.{
  ℕ, zero, suc, ◌^◌, ◌≤◌, ◌<◌, ◌≡◌, refl, sym, ap, ◌∙◌, Option-cases, some, List, [], ◌∷◌, ◌++◌,
  append_assoc, append-nil, length, get_elem?, get_elem?-ne-none, arith, inl, inr, map,
}
use os_net_work_code.ProcessPool.Task.{Func, Handlers, handler_size}
use os_net_work_code.ProcessPool.Child.{
  encode, Did, ran, decode-encode, to_int-small, execute-legal,
}
use os_net_work_code.ProcessPool.Dispatch.{AllBelow, encoded, functions, in_table}
use os_net_work_code.ProcessPool.First.Defs.{
  process_num, read_end, write_end, lowest, close, create, pool, Now, at_fd, wait_command, perform,
  round, read_from, child_round,
}
use os_net_work_code.ProcessPool.First.Queues.{Queue, pop}
use os_net_work_code.Base.Tabulate.{tabulate}

pub encoded-snoc : (vs : List ℕ) (c : ℕ) → encoded (vs ++ c ∷ []) ≡ encoded vs ++ encode c
unfolding encoded
encoded-snoc [] c = append-nil (encode c)
encoded-snoc (v ∷ vs) c =
    ap (λ l. encode v ++ l) (encoded-snoc vs c)
    ∙ sym (append_assoc (encode v) (encoded vs) (encode c))

functions-snoc :
    (fs : List Func) (vs : List ℕ) (c : ℕ) (f : Func)
    → get_elem? fs c ≡ some f
    → functions fs (vs ++ c ∷ []) ≡ functions fs vs ++ f ∷ []
unfolding functions
functions-snoc fs [] c f e = rw (functions, e) refl
functions-snoc fs (v ∷ vs) c f e = elim (Option-cases (get_elem? fs v)) [
  | inl n ↦ rw (functions, n) (functions-snoc fs vs c f e)
  | inr (g, n) ↦ rw (functions, n) (ap (λ l. g ∷ l) (functions-snoc fs vs c f e))
]

-- What a child has done whose commands `vs` were run.
abbrev pub done_by : Handlers → List ℕ → List Did
done_by h vs = map ran (functions h.callbacks vs)

-- A child reads its whole pipe as commands of the table.
pub round-pop :
    (h : Handlers) (rn ws : List ℕ)
    → handler_size h < 2 ^ 31
    → AllBelow (handler_size h) ws
    → round h (wait_command (encoded ws)) (encoded ws) (done_by h rn)
      ≡ some (encoded (pop rn ws).waiting, done_by h (pop rn ws).ran)
unfolding encoded wait_command round pop encode perform
round-pop h rn [] size all = refl
round-pop h rn (v ∷ vs) size all = elim (Option-cases (get_elem? h.callbacks v)) [
  | inl e ↦ absurd (get_elem?-ne-none h.callbacks v (in_table h v all.0) e)
  | inr (f, e) ↦
      rw
        (
          decode-encode v (omega (arith, size, all.0)),
          to_int-small v (omega (arith, size, all.0)),
          round,
          perform,
          execute-legal h v f all.0 e,
          functions-snoc h.callbacks rn v f e,
          map-append,
        )
        refl
]

-- The slot of each child leads to its pipe, and so do the child's own descriptors.
pub slot_pipe :
    (k : ℕ)
    → k < process_num
    → (fd : ℕ) × (get_elem? pool.slots k ≡ some fd) × (at_fd pool.parent fd ≡ some (write_end k))
unfolding create lowest close
slot_pipe zero h = (4, refl, refl)
slot_pipe (suc zero) h = (5, refl, refl)
slot_pipe (suc (suc zero)) h = (6, refl, refl)
slot_pipe (suc (suc (suc zero))) h = (7, refl, refl)
slot_pipe (suc (suc (suc (suc zero)))) h = (8, refl, refl)
slot_pipe (suc (suc (suc (suc (suc k))))) h = absurd (omega (arith, h))

pub slots_length : length pool.slots ≡ process_num
unfolding create lowest close
slots_length = refl

pub kid_round :
    (h : Handlers) (s : Now) (k : ℕ)
    → k < process_num
    → child_round h pool s k ≡ read_from h s k (some (read_end k))
unfolding create lowest close child_round
kid_round h s zero lt = refl
kid_round h s (suc zero) lt = refl
kid_round h s (suc (suc zero)) lt = refl
kid_round h s (suc (suc (suc zero))) lt = refl
kid_round h s (suc (suc (suc (suc zero)))) lt = refl
kid_round h s (suc (suc (suc (suc (suc k))))) lt = absurd (omega (arith, lt))

pub no_kid_round :
    (h : Handlers) (s : Now) (k : ℕ) → process_num ≤ k → child_round h pool s k ≡ some s
unfolding create lowest close child_round
no_kid_round h s zero le = absurd (omega (arith, le))
no_kid_round h s (suc zero) le = absurd (omega (arith, le))
no_kid_round h s (suc (suc zero)) le = absurd (omega (arith, le))
no_kid_round h s (suc (suc (suc zero))) le = absurd (omega (arith, le))
no_kid_round h s (suc (suc (suc (suc zero)))) le = absurd (omega (arith, le))
no_kid_round h s (suc (suc (suc (suc (suc k))))) le = refl

-- The pipes and the children of which the queues are the abstract view.
unfoldable pub shown : Handlers → (ℕ → Queue) → Now
shown h c = record {
  pipes = tabulate process_num (λ k. encoded (c k).waiting);
  done = tabulate process_num (λ k. done_by h (c k).ran);
}
