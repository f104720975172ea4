-- ===== src/Tickets/Countdown.antt =====
-- Schedules of the locked shop (0112/mythread1.cc).
use os_net_work_code.Base.{
  ℕ, zero, suc, ◌+◌, ◌<◌, ◌≡◌, refl, ap, sym, subst, ◌∙◌, true, false, Bool-cases, some, List, [],
  ◌∷◌, get_elem?, set, arith, inl, inr, Option-cases,
}
use os_net_work_code.Base.Int.{pos, pred_ℤ, positive_ℤ}
use os_net_work_code.Base.Threads.{weigh, weigh-ge, weigh-replicate}
use os_net_work_code.Sync.{unlock, held}
use os_net_work_code.Sync.Laws.{lock-cases, held-unlock, held-le-one}
use os_net_work_code.Tickets.Locked.{
  Shop, Pc, locking, testing, printing, selling, unlocking, leaving, finished, get_tickets, System,
  start, put_back, step, exec, Sold, Sold-append, at_selling, at_printing, elsewhere_inside, over,
  Inv, Shift, shift, Kept,
}

some_left : (n : ℕ) → positive_ℤ (pos n) ≡ true → 0 < n
some_left zero h = absurd (cc)
some_left (suc n) h = omega arith

none_left : (n : ℕ) → positive_ℤ (pos n) ≡ false → n ≡ 0
none_left zero h = refl
none_left (suc n) h = absurd (cc)

module _ {r : ℕ} {s : System} (inv : Inv r s.shop s.threads) (i : ℕ) where
  abbrev shop : Shop
  shop = s.shop

  abbrev ps : List Pc
  ps = s.threads

  -- An action that prints nothing.
  silent : (b : Shop) (p p' : Pc) → Inv r b (set ps i p') → Kept r (put_back s i (b, p', []))
  silent b p p' next = (r, refl, next)

  testing-Kept : get_elem? ps i ≡ some testing → Kept r (put_back s i (get_tickets shop testing))
  unfolding get_tickets
  testing-Kept e = elim (Bool-cases (positive_ℤ shop.tickets)) [
    | inl more ↦
        let sh = shift ps i testing printing e in
        let left = some_left (r + weigh at_selling ps) (ap positive_ℤ (sym inv.stock) ∙ more) in
        rw (more, get_tickets)
          (silent shop testing printing (record {
            held_by = omega (arith, inv, sh);
            stock = inv.stock ∙ ap pos (omega (arith, sh));
            enough = omega (
              arith,
              inv,
              sh,
              left,
              held-le-one shop.mtx,
              weigh-ge elsewhere_inside ps i testing e,
            );
            sold_out = omega (arith, inv, sh);
          }))
    | inr gone ↦
        let sh = shift ps i testing leaving e in
        let empty = none_left (r + weigh at_selling ps) (ap positive_ℤ (sym inv.stock) ∙ gone) in
        rw (gone, get_tickets)
          (silent shop testing leaving (record {
            held_by = omega (arith, inv, sh);
            stock = inv.stock ∙ ap pos (omega (arith, sh));
            enough = omega (arith, inv, sh);
            sold_out = omega (arith, sh, empty);
          }))
  ]

  -- The ticket printed is the one that is next.
  printing-Kept : get_elem? ps i ≡ some printing → Kept r (put_back s i (get_tickets shop printing))
  unfolding get_tickets
  printing-Kept e = from r inv
    where
      from : (q : ℕ) → Inv q shop ps → Kept q (put_back s i (shop, selling, shop.tickets ∷ []))
      from zero v = absurd (omega (arith, v, weigh-ge at_printing ps i printing e))
      from (suc q) v =
          let sh = shift ps i printing selling e in
          let here = weigh-ge at_printing ps i printing e in
          (
            q,
            (v.stock ∙ ap pos (omega (arith, v, here, held-le-one shop.mtx)), refl),
            record {
              held_by = omega (arith, v, sh);
              stock = v.stock ∙ ap pos (omega (arith, sh));
              enough = omega (arith, v, sh, here, held-le-one shop.mtx);
              sold_out = omega (arith, v, sh);
            },
          )

  selling-Kept : get_elem? ps i ≡ some selling → Kept r (put_back s i (get_tickets shop selling))
  unfolding get_tickets
  selling-Kept e =
      let sh = shift ps i selling unlocking e in
      let here = weigh-ge at_selling ps i selling e in
      let one : shop.tickets ≡ pos (suc r) =
        inv.stock ∙ ap pos (omega (arith, inv, here, held-le-one shop.mtx)) in
      silent (record shop { tickets = pred_ℤ shop.tickets }) selling unlocking
        (record {
          held_by = omega (arith, inv, sh);
          stock = ap pred_ℤ one ∙ ap pos (omega (arith, inv, sh, here, held-le-one shop.mtx));
          enough = omega (arith, inv, sh);
          sold_out = omega (arith, inv, sh, here);
        })

  -- Actions that only move the thread and the mutex.
  moved :
      (b : Shop) (p p' : Pc)
      → get_elem? ps i ≡ some p
      → b.tickets ≡ shop.tickets
      → at_selling p ≡ at_selling p'
      → at_printing p ≡ at_printing p'
      → over p ≡ over p'
      → (Shift ps i p p'
          → held b.mtx
            ≡ weigh at_printing (set ps i p')
              + weigh at_selling (set ps i p')
              + weigh elsewhere_inside (set ps i p'))
      → Kept r (put_back s i (b, p', []))
  moved b p p' e same a c o h =
      let sh = shift ps i p p' e in
      silent b p p' (record {
        held_by = h sh;
        stock = same ∙ inv.stock ∙ ap pos (omega (arith, sh));
        enough = omega (arith, inv, sh);
        sold_out = omega (arith, inv, sh);
      })

  move-Kept : (p : Pc) → get_elem? ps i ≡ some p → Kept r (put_back s i (get_tickets shop p))
  unfolding get_tickets
  move-Kept locking e = elim (lock-cases shop.mtx) [
    | inl (z, n) ↦
        rw (n, get_tickets)
          (moved shop locking locking e refl refl refl refl λ sh. omega (arith, inv))
    | inr (m, z, h, n) ↦
        rw (n, get_tickets)
          (moved (record shop { mtx = m }) locking testing e refl refl refl refl
            λ sh. omega (arith, inv, z, h))
  ]
  move-Kept testing e = testing-Kept e
  move-Kept printing e = printing-Kept e
  move-Kept selling e = selling-Kept e
  move-Kept unlocking e =
      moved (record shop { mtx = unlock shop.mtx }) unlocking locking e refl refl refl refl
        λ sh. omega (
          arith,
          inv,
          held-unlock shop.mtx,
          held-le-one shop.mtx,
          weigh-ge elsewhere_inside ps i unlocking e,
        )
  move-Kept leaving e =
      moved (record shop { mtx = unlock shop.mtx }) leaving finished e refl refl refl refl
        λ sh. omega (
          arith,
          inv,
          held-unlock shop.mtx,
          held-le-one shop.mtx,
          weigh-ge elsewhere_inside ps i leaving e,
        )
  move-Kept finished e = moved shop finished finished e refl refl refl refl λ sh. omega (arith, inv)

step-Kept : {r : ℕ} {s : System} (i : ℕ) → Inv r s.shop s.threads → Kept r (step s i)
unfolding step
step-Kept {r} {s} i inv = elim (Option-cases (get_elem? s.threads i)) [
  | inl e ↦ rw (e, step) (r, refl, inv)
  | inr (p, e) ↦ rw (e, step) (move-Kept inv i p e)
]

exec-Kept : (is : List ℕ) (r : ℕ) (s : System) → Inv r s.shop s.threads → Kept r (exec s is)
unfolding exec
exec-Kept [] r s inv = (r, refl, inv)
exec-Kept (i ∷ is) r s inv =
    let (r', sold, inv') = step-Kept {s = s} i inv in
    let (r'', sold', inv'') = exec-Kept is r' (step s i).0 inv' in
    (r'', Sold-append r r' r'' (step s i).1 (exec (step s i).0 is).1 sold sold', inv'')

start-Inv : (k n : ℕ) → Inv k (start k n).shop (start k n).threads
unfolding start
start-Inv k n = record {
  held_by =
      omega
        (arith, none_at at_selling refl, none_at at_printing refl, none_at elsewhere_inside refl);
  stock = ap pos (omega (arith, none_at at_selling refl));
  enough = omega (arith, none_at at_printing refl);
  sold_out = inl (none_at over refl);
}
  where
    none_at : (w : Pc → ℕ) → w locking ≡ 0 → weigh w (start k n).threads ≡ 0
    none_at w e = weigh-replicate w n locking e

-- Under every schedule the numbers printed are k, k - 1, k - 2 and so on: no ticket is sold twice,
-- none is left out, and none below 1 is sold.
pub countdown :
    (k n : ℕ) (is : List ℕ) → let (t, out) = exec (start k n) is in (r : ℕ) × Sold k out r
countdown k n is = let (r, sold, inv) = exec-Kept is k (start k n) (start-Inv k n) in (r, sold)

-- As soon as one thread has left its loop, all tickets from k down to 1 have been sold and the
-- counter stands at 0.
pub no_ticket_left :
    (k n : ℕ) (is : List ℕ) (i : ℕ)
    → get_elem? (exec (start k n) is).0.threads i ≡ some finished
    → Sold k (exec (start k n) is).1 0 × ((exec (start k n) is).0.shop.tickets ≡ pos 0)
no_ticket_left k n is i e =
    let (r, sold, inv) = exec-Kept is k (start k n) (start-Inv k n) in
    let here = weigh-ge over (exec (start k n) is).0.threads i finished e in
    (
      subst (λ q. Sold k (exec (start k n) is).1 q) (omega (arith, inv, here)) sold,
      inv.stock ∙ ap pos (omega (arith, inv, here)),
    )
