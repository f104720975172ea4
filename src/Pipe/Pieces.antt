-- ===== src/Pipe/Pieces.antt =====
-- What one turn at the fifo of 1126/fifo does, and many turns.
use os_net_work_code.Base.{
  ℕ, ◌+◌, ◌-◌, ◌<◌, ◌≡◌, refl, ap, ◌∙◌, sym, subst, Bool, true, false, List, [], ◌∷◌, ◌++◌,
  append_assoc, append-nil, concat, dec_lt, length, take, drop, replicate, min, Option, some, none,
  get_elem?, arith,
}
use os_net_work_code.Base.Threads.{weigh, weigh-set, weigh-append}
use os_net_work_code.Buffer.{c_string, IsText, append-IsText}
use os_net_work_code.Tcp.Service.{Read, bytes, eof, failed}
use os_net_work_code.Pipe.Fifo.{
  Child, reading, has, exited, get_message, read_fifo, System, Event, seen, Turn, act, write, close,
  put_read, show_read, child_turn, write_line, turn, exec, written, pieces, said, ends,
}
use os_net_work_code.Pipe.Events.{
  take-drop, drop-IsText, whole_front, concat-append, written-append, pieces-append, said-append,
  ends-append,
}

abbrev pub AllText : List (List ℕ) → Type 0
AllText [] = Unit {0}
AllText (l ∷ ls) = IsText l × AllText ls

-- What a child has read and has still to show, under a weight.
abbrev pub held : (List ℕ → ℕ) → Child → ℕ
held f (has (bytes b bs)) = f (c_string ((b ∷ bs) ++ replicate (128 - length (b ∷ bs)) 0))
held f c = 0

-- The client has closed the fifo, and it is empty.
abbrev pub Ended : System → Type 0
Ended s = (s.opened ≡ false) × (s.stream ≡ [])

abbrev Texts : System → Type 0
Texts s = IsText s.stream × AllText s.lines

pub record Kept (s t : System) (es : List Event) : Type 0 where
  pub order : concat (pieces es) ++ t.stream ≡ s.stream ++ concat (written es)
  pub typed : written es ++ t.lines ≡ s.lines
  pub texts : Texts t
  pub shown :
      (f : List ℕ → ℕ)
      → weigh f (pieces es) + weigh (held f) s.children
        ≡ weigh f (said es) + weigh (held f) t.children
  pub at_end : 0 < ends es → Ended t
  pub stays : Ended s → Ended t

same-Kept : (s : System) → Texts s → Kept s s []
unfolding pieces written said ends weigh
same-Kept s h = record {
  order = sym (append-nil s.stream);
  typed = refl;
  texts = h;
  shown = λ f. omega arith;
  at_end = λ e. absurd (omega (arith, e));
  stays = λ e. e;
}

put_read-Kept :
    (s : System) (i more : ℕ) (opened : Bool) (stream : List ℕ)
    → s.opened ≡ opened
    → s.stream ≡ stream
    → get_elem? s.children i ≡ some reading
    → Texts s
    → Kept s
        (put_read s i (read_fifo more opened stream)).0
        (put_read s i (read_fifo more opened stream)).1
unfolding put_read read_fifo seen pieces written said ends weigh
put_read-Kept s i more true [] o c e h = same-Kept s h
put_read-Kept s i more false [] o c e h = record {
  order = sym (append-nil s.stream ∙ c);
  typed = refl;
  texts = (tt, h.1);
  shown = λ f. omega (arith, weigh-set (held f) s.children i reading (has eof) e);
  at_end = λ k. (o, refl);
  stays = λ k. (o, refl);
}
put_read-Kept s i more opened (b ∷ bs) o c e h =
    let m = min more 126 in
    let text : IsText (b ∷ bs) = subst IsText c h.0 in
    let whole = whole_front b m bs text (omega arith) in
    record {
      order =
          ap (λ l. l ++ drop m bs) (append-nil (b ∷ take m bs))
          ∙ ap (λ l. b ∷ l) (take-drop m bs)
          ∙ sym c
          ∙ sym (append-nil s.stream);
      typed = refl;
      texts = (drop-IsText m bs text.1, h.1);
      shown = λ f. omega (
        arith,
        weigh-set (held f) s.children i reading (has (bytes b (take m bs))) e,
        ap f whole,
      );
      at_end = λ k. absurd (omega (arith, k));
      stays = λ k. absurd (not_empty (sym c ∙ k.1));
    }
  where
    not_empty : b ∷ bs ≡ [] → ⊥
    not_empty q = cc

show_read-Kept :
    (s : System) (i : ℕ) (r : Read)
    → get_elem? s.children i ≡ some (has r)
    → Texts s
    → Kept s (show_read s i (get_message r)).0 (show_read s i (get_message r)).1
unfolding show_read get_message pieces written said ends weigh
show_read-Kept s i (bytes b bs) e h = record {
  order = sym (append-nil s.stream);
  typed = refl;
  texts = h;
  shown = λ f. omega (arith, weigh-set (held f) s.children i (has (bytes b bs)) reading e);
  at_end = λ k. absurd (omega (arith, k));
  stays = λ k. k;
}
show_read-Kept s i eof e h = record {
  order = sym (append-nil s.stream);
  typed = refl;
  texts = h;
  shown = λ f. omega (arith, weigh-set (held f) s.children i (has eof) exited e);
  at_end = λ k. absurd (omega (arith, k));
  stays = λ k. k;
}
show_read-Kept s i failed e h = record {
  order = sym (append-nil s.stream);
  typed = refl;
  texts = h;
  shown = λ f. omega (arith, weigh-set (held f) s.children i (has failed) exited e);
  at_end = λ k. absurd (omega (arith, k));
  stays = λ k. k;
}

child_turn-Kept :
    (s : System) (i more : ℕ) (c : Option Child)
    → get_elem? s.children i ≡ c
    → Texts s
    → Kept s (child_turn s i more c).0 (child_turn s i more c).1
unfolding child_turn
child_turn-Kept s i more none e h = same-Kept s h
child_turn-Kept s i more (some exited) e h = same-Kept s h
child_turn-Kept s i more (some reading) e h = put_read-Kept s i more s.opened s.stream refl refl e h
child_turn-Kept s i more (some (has r)) e h = show_read-Kept s i r e h

write_line-Kept :
    (s : System) (opened : Bool) (ls : List (List ℕ))
    → s.opened ≡ opened
    → s.lines ≡ ls
    → Texts s
    → Kept s (write_line s opened ls).0 (write_line s opened ls).1
unfolding write_line pieces written said ends weigh
write_line-Kept s false ls o l h = same-Kept s h
write_line-Kept s true [] o l h = same-Kept s h
write_line-Kept s true (buffer ∷ ls) o l h =
    let texts : AllText (buffer ∷ ls) = subst AllText l h.1 in
    record {
      order = ap (λ t. s.stream ++ t) (sym (append-nil buffer));
      typed = sym l;
      texts = (append-IsText s.stream buffer h.0 texts.0, texts.1);
      shown = λ f. omega arith;
      at_end = λ k. absurd (omega (arith, k));
      stays = λ k. absurd (still_open (sym o ∙ k.0));
    }
  where
    still_open : true ≡ false → ⊥
    still_open q = cc

turn-Kept : (s : System) (t : Turn) → Texts s → Kept s (turn s t).0 (turn s t).1
unfolding turn pieces written said ends weigh
turn-Kept s (act i more) h = child_turn-Kept s i more (get_elem? s.children i) refl h
turn-Kept s write h = write_line-Kept s s.opened s.lines refl refl h
turn-Kept s close h = record {
  order = sym (append-nil s.stream);
  typed = refl;
  texts = h;
  shown = λ f. omega arith;
  at_end = λ k. absurd (omega (arith, k));
  stays = λ k. (refl, k.1);
}

then-Kept : (s t u : System) (es fs : List Event) → Kept s t es → Kept t u fs → Kept s u (es ++ fs)
then-Kept s t u es fs h k = record {
  order =
      ap (λ l. concat l ++ u.stream) (pieces-append es fs)
      ∙ ap (λ l. l ++ u.stream) (concat-append (pieces es) (pieces fs))
      ∙ append_assoc (concat (pieces es)) (concat (pieces fs)) u.stream
      ∙ ap (λ l. concat (pieces es) ++ l) k.order
      ∙ sym (append_assoc (concat (pieces es)) t.stream (concat (written fs)))
      ∙ ap (λ l. l ++ concat (written fs)) h.order
      ∙ append_assoc s.stream (concat (written es)) (concat (written fs))
      ∙ ap (λ l. s.stream ++ l) (sym (concat-append (written es) (written fs)))
      ∙ ap (λ l. s.stream ++ concat l) (sym (written-append es fs));
  typed =
      ap (λ l. l ++ u.lines) (written-append es fs)
      ∙ append_assoc (written es) (written fs) u.lines
      ∙ ap (λ l. written es ++ l) k.typed
      ∙ h.typed;
  texts = k.texts;
  shown = λ f. omega (
    arith,
    h.shown f,
    k.shown f,
    ap (weigh f) (pieces-append es fs),
    ap (weigh f) (said-append es fs),
    weigh-append f (pieces es) (pieces fs),
    weigh-append f (said es) (said fs),
  );
  at_end = λ e. elim (dec_lt 0 (ends fs)) [
    | yes late ↦ k.at_end late
    | no none_late ↦ k.stays (h.at_end (omega (arith, e, ends-append es fs, none_late)))
  ];
  stays = λ e. k.stays (h.stays e);
}

pub exec-Kept : (ts : List Turn) (s : System) → Texts s → Kept s (exec s ts).0 (exec s ts).1
unfolding exec
exec-Kept [] s h = same-Kept s h
exec-Kept (t ∷ ts) s h =
    let now = turn-Kept s t h in
    then-Kept s (turn s t).0 (exec (turn s t).0 ts).0 (turn s t).1 (exec (turn s t).0 ts).1 now
      (exec-Kept ts (turn s t).0 now.texts)
