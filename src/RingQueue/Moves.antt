-- ===== src/RingQueue/Moves.antt =====
-- Each action of a thread inside `push` or `pop` of RingQueue<T> (0208/RingQueue/ringQueue.hpp),
-- and the invariant.
use native.Mathlib.Nat.{mod-eq_of_lt}
use os_net_work_code.Base.{
  ℕ, ◌+◌, ◌%◌, ◌<◌, ◌≡◌, refl, sym, ap, ◌∙◌, List, [], ◌∷◌, ◌++◌, length, get_elem?, some, set,
  arith, length-append, length-set, lt→ltb,
}
use os_net_work_code.Base.Threads.{weigh-ge}
use os_net_work_code.Fifo.{put, got, done, enter, leave}
use os_net_work_code.Sync.{sem_v, unlock}
use os_net_work_code.Sync.Laws.{value-sem_v, held-unlock, held-le-one}
use os_net_work_code.RingQueue.Defs.{
  RingQueue, Pc, idle, push_wait, push_lock, push_write, push_wrap, push_unlock, push_post,
  pop_wait, pop_lock, pop_read, pop_wrap, pop_unlock, pop_post, write, read, move,
}
use os_net_work_code.RingQueue.System.{System, advance}
use os_net_work_code.RingQueue.Invariant.{
  at_push_write, at_push_wrap, at_pop_read, at_pop_wrap, Counts, Content, Inv, shift,
}
use os_net_work_code.RingQueue.Content.{wrap_p-Content, wrap_c-Content, write-Content, read-Content}
use os_net_work_code.RingQueue.Entry.{
  Good, silent, blocked, push_wait-Good, pop_wait-Good, push_lock-Good, pop_lock-Good,
}

module _ {ℓ} {A : Type ℓ} {cap : ℕ} {s : System A} {q : List A} (inv : Inv cap s q) (i : ℕ) where
  abbrev ring : RingQueue A
  ring = s.ring

  abbrev threads : List (Pc A)
  threads = s.threads

  -- Under the lock the producers' index is in range, and there is room for an item.
  push_write-Good :
      (x : A)
      → get_elem? threads i ≡ some (push_write x)
      → Good cap q (advance s i (move ring (push_write x)))
  unfolding move write advance
  push_write-Good x e =
      let sh = shift threads i (push_write x) push_wrap e in
      let here = weigh-ge at_push_write threads i (push_write x) e in
      let c = inv.counts in
      let lt : ring.p_step < cap = omega (arith, c, here, held-le-one ring.p_lock) in
      let short : length q < cap = omega (arith, c, here) in
      let r : RingQueue A = record ring {
        ring_queue = set ring.ring_queue ring.p_step x;
        p_step = ring.p_step + 1;
      } in
      record {
        after = record s { ring = r; threads = set threads i push_wrap };
        trace = put x ∷ [];
        next = q ++ x ∷ [];
        returns = rw (lt→ltb ring.p_step (length ring.ring_queue) (omega arith));
        steps = enter x short done;
        inv = record {
          counts = omega (
            arith,
            c,
            sh,
            here,
            length-set ring.ring_queue ring.p_step x,
            length-append q (x ∷ []),
          );
          content = write-Content x inv.content lt c.room short;
        };
      }

  -- The item read is the first of the queue.
  pop_read-Good :
      get_elem? threads i ≡ some pop_read → Good cap q (advance s i (move ring pop_read))
  unfolding move advance
  pop_read-Good e = from q inv.counts inv.content
    where
      from :
          (q' : List A)
          → Counts cap (length q') ring threads
          → Content cap ring.ring_queue ring.c_step ring.p_step q'
          → Good cap q' (advance s i (read ring))
      from [] c h = absurd (omega (arith, c, weigh-ge at_pop_read threads i pop_read e))
      from (x ∷ q') c h =
          let sh = shift threads i pop_read pop_wrap e in
          let here = weigh-ge at_pop_read threads i pop_read e in
          let lt : ring.c_step < cap = omega (arith, c, here, held-le-one ring.c_lock) in
          let first : get_elem? ring.ring_queue ring.c_step ≡ some x =
            ap (get_elem? ring.ring_queue) (sym (mod-eq_of_lt lt) ∙ ap (λ n. n % cap) (omega arith))
            ∙ h.stored 0 (omega arith) in
          record {
            after = record s {
              ring = record ring { c_step = ring.c_step + 1 };
              threads = set threads i pop_wrap;
            };
            trace = got x ∷ [];
            next = q';
            returns = rw (first, read);
            steps = leave x done;
            inv = record { counts = omega (arith, c, sh, here); content = read-Content x h lt };
          }

  push_wrap-Good :
      get_elem? threads i ≡ some push_wrap → Good cap q (advance s i (move ring push_wrap))
  unfolding move
  push_wrap-Good e =
      let sh = shift threads i push_wrap push_unlock e in
      let c = inv.counts in
      silent inv i push_wrap (record ring { p_step = ring.p_step % ring.size }) push_unlock refl
        (omega (arith, c, sh, weigh-ge at_push_wrap threads i push_wrap e))
        (rw c.size_cap (wrap_p-Content inv.content))

  pop_wrap-Good :
      get_elem? threads i ≡ some pop_wrap → Good cap q (advance s i (move ring pop_wrap))
  unfolding move
  pop_wrap-Good e =
      let sh = shift threads i pop_wrap pop_unlock e in
      let c = inv.counts in
      silent inv i pop_wrap (record ring { c_step = ring.c_step % ring.size }) pop_unlock refl
        (omega (arith, c, sh, weigh-ge at_pop_wrap threads i pop_wrap e))
        (rw c.size_cap (wrap_c-Content inv.content))

  push_unlock-Good :
      get_elem? threads i ≡ some push_unlock → Good cap q (advance s i (move ring push_unlock))
  unfolding move
  push_unlock-Good e =
      let sh = shift threads i push_unlock push_post e in
      silent inv i push_unlock (record ring { p_lock = unlock ring.p_lock }) push_post refl
        (omega (arith, inv.counts, sh, held-le-one ring.p_lock, held-unlock ring.p_lock))
        inv.content

  pop_unlock-Good :
      get_elem? threads i ≡ some pop_unlock → Good cap q (advance s i (move ring pop_unlock))
  unfolding move
  pop_unlock-Good e =
      let sh = shift threads i pop_unlock pop_post e in
      silent inv i pop_unlock (record ring { c_lock = unlock ring.c_lock }) pop_post refl
        (omega (arith, inv.counts, sh, held-le-one ring.c_lock, held-unlock ring.c_lock))
        inv.content

  push_post-Good :
      get_elem? threads i ≡ some push_post → Good cap q (advance s i (move ring push_post))
  unfolding move
  push_post-Good e =
      let sh = shift threads i push_post idle e in
      silent inv i push_post (record ring { data_sem = sem_v ring.data_sem }) idle refl
        (omega (arith, inv.counts, sh, value-sem_v ring.data_sem)) inv.content

  pop_post-Good :
      get_elem? threads i ≡ some pop_post → Good cap q (advance s i (move ring pop_post))
  unfolding move
  pop_post-Good e =
      let sh = shift threads i pop_post idle e in
      silent inv i pop_post (record ring { space_sem = sem_v ring.space_sem }) idle refl
        (omega (arith, inv.counts, sh, value-sem_v ring.space_sem)) inv.content

  -- The next action of any thread.
  pub move-Good : (p : Pc A) → get_elem? threads i ≡ some p → Good cap q (advance s i (move ring p))
  unfolding move
  move-Good idle e = blocked inv i idle e refl
  move-Good (push_wait x) e = push_wait-Good inv i x e
  move-Good (push_lock x) e = push_lock-Good inv i x e
  move-Good (push_write x) e = push_write-Good x e
  move-Good push_wrap e = push_wrap-Good e
  move-Good push_unlock e = push_unlock-Good e
  move-Good push_post e = push_post-Good e
  move-Good pop_wait e = pop_wait-Good inv i e
  move-Good pop_lock e = pop_lock-Good inv i e
  move-Good pop_read e = pop_read-Good e
  move-Good pop_wrap e = pop_wrap-Good e
  move-Good pop_unlock e = pop_unlock-Good e
  move-Good pop_post e = pop_post-Good e
