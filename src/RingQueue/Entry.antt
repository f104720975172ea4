-- ===== src/RingQueue/Entry.antt =====
-- Waiting for the semaphores and taking the locks in RingQueue<T>
-- (0208/RingQueue/ringQueue.hpp), and the invariant.
use os_net_work_code.Base.{inl, inr, ℕ, ◌≡◌, List, [], length, get_elem?, some, Option, set, arith}
use os_net_work_code.Fifo.{Event, Steps, done}
use os_net_work_code.Sync.Laws.{sem_p-cases, lock-cases}
use os_net_work_code.RingQueue.Defs.{
  RingQueue, Pc, push_wait, push_lock, push_write, pop_wait, pop_lock, pop_read, move,
}
use os_net_work_code.RingQueue.System.{System, advance}
use os_net_work_code.RingQueue.Invariant.{Counts, Content, Inv, shift}

module _ {ℓ} {A : Type ℓ} where
  -- What a step of the system comes to: it is defined, and the queue follows its trace.
  pub record Good (cap : ℕ) (q : List A) (r : Option (System A × List (Event A))) : Type ℓ where
    pub after : System A
    pub trace : List (Event A)
    pub next : List A
    pub returns : r ≡ some (after, trace)
    pub steps : Steps cap q trace next
    pub inv : Inv cap after next

module _ {ℓ} {A : Type ℓ} {cap : ℕ} {s : System A} {q : List A} (inv : Inv cap s q) (i : ℕ) where
  abbrev ring : RingQueue A
  ring = s.ring

  abbrev threads : List (Pc A)
  threads = s.threads

  -- A move that puts and gets nothing, and leaves the vector and the indices' slots alone.
  pub silent :
      (p : Pc A) (r : RingQueue A) (p' : Pc A)
      → move ring p ≡ some (r, p', [])
      → Counts cap (length q) r (set threads i p')
      → Content cap r.ring_queue r.c_step r.p_step q
      → Good cap q (advance s i (move ring p))
  unfolding advance
  silent p r p' e counts content = record {
    after = record s { ring = r; threads = set threads i p' };
    trace = [];
    next = q;
    returns = rw e;
    steps = done;
    inv = record { counts = counts; content = content };
  }

  -- A move that blocks.
  pub blocked :
      (p : Pc A)
      → get_elem? threads i ≡ some p
      → move ring p ≡ some (ring, p, [])
      → Good cap q (advance s i (move ring p))
  blocked p e m =
      let sh = shift threads i p p e in
      silent p ring p m (omega (arith, inv.counts, sh)) inv.content

  pub push_wait-Good :
      (x : A)
      → get_elem? threads i ≡ some (push_wait x)
      → Good cap q (advance s i (move ring (push_wait x)))
  unfolding move
  push_wait-Good x e = elim (sem_p-cases ring.space_sem) [
    | inl (z, n) ↦ blocked (push_wait x) e (rw (n, move))
    | inr (t, z, n) ↦
        let sh = shift threads i (push_wait x) (push_lock x) e in
        silent (push_wait x) (record ring { space_sem = t }) (push_lock x) (rw (n, move))
          (omega (arith, inv.counts, sh)) inv.content
  ]

  pub pop_wait-Good :
      get_elem? threads i ≡ some pop_wait → Good cap q (advance s i (move ring pop_wait))
  unfolding move
  pop_wait-Good e = elim (sem_p-cases ring.data_sem) [
    | inl (z, n) ↦ blocked pop_wait e (rw (n, move))
    | inr (t, z, n) ↦
        let sh = shift threads i pop_wait pop_lock e in
        silent pop_wait (record ring { data_sem = t }) pop_lock (rw (n, move))
          (omega (arith, inv.counts, sh)) inv.content
  ]

  pub push_lock-Good :
      (x : A)
      → get_elem? threads i ≡ some (push_lock x)
      → Good cap q (advance s i (move ring (push_lock x)))
  unfolding move
  push_lock-Good x e = elim (lock-cases ring.p_lock) [
    | inl (z, n) ↦ blocked (push_lock x) e (rw (n, move))
    | inr (t, z, h, n) ↦
        let sh = shift threads i (push_lock x) (push_write x) e in
        silent (push_lock x) (record ring { p_lock = t }) (push_write x) (rw (n, move))
          (omega (arith, inv.counts, sh)) inv.content
  ]

  pub pop_lock-Good :
      get_elem? threads i ≡ some pop_lock → Good cap q (advance s i (move ring pop_lock))
  unfolding move
  pop_lock-Good e = elim (lock-cases ring.c_lock) [
    | inl (z, n) ↦ blocked pop_lock e (rw (n, move))
    | inr (t, z, h, n) ↦
        let sh = shift threads i pop_lock pop_read e in
        silent pop_lock (record ring { c_lock = t }) pop_read (rw (n, move))
          (omega (arith, inv.counts, sh)) inv.content
  ]
