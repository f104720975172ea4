-- ===== src/Shell/Scan.antt =====
-- `CheckRedir` of 1017/shell/myshell.c, which scans a line from its end, and the last operator.
use os_net_work_code.Base.{
  ℕ, suc, ◌+◌, ◌≡◌, refl, sym, ap, ◌∙◌, true, false, Bool-cases, Option-cases, none, some, List, [],
  ◌∷◌, ◌++◌, append_assoc, length, length-append, get_elem?, get_elem?-append_at, set, set-append,
  drop, drop-append, if◌then◌else◌, ◌==◌, arith, inl, inr, subst,
}
use os_net_work_code.Buffer.{c_string, IsText, c_string-closed, IsText-append}
use os_net_work_code.Shell.Redirect.{
  none_redir, input_redir, at_greater, scan, check_redir, reading, Cut, is_op, last_op, unsnoc,
  found, output, redirection,
}

-- No character is an operator.
abbrev pub Plain : List ℕ → Type 0
Plain [] = Unit {0}
Plain (c ∷ s) = (is_op c ≡ false) × Plain s

last_op-none : (s : List ℕ) → last_op s ≡ none → Plain s
unfolding last_op
last_op-none [] h = tt
last_op-none (c ∷ s) h = elim (Option-cases (last_op s)) [
  | inl e ↦ elim (Bool-cases (is_op c)) [
    | inl t ↦ absurd (ground arith)
    | inr f ↦ (f, last_op-none s e)
  ]
  | inr (r, e) ↦ absurd (ground arith)
]

last_op-some :
    (s : List ℕ) (r : Cut)
    → last_op s ≡ some r
    → (s ≡ r.before ++ r.op ∷ r.after) × Plain r.after × (is_op r.op ≡ true)
unfolding last_op
last_op-some [] r h = absurd (cc)
last_op-some (c ∷ s) r h = elim (Option-cases (last_op s)) [
  | inl e ↦ ground (arith, last_op-none s e)
  | inr (r', e) ↦ ground (arith, last_op-some s r' e)
]

unsnoc-none : (s : List ℕ) → unsnoc s ≡ none → s ≡ []
unfolding unsnoc
unsnoc-none [] h = refl
unsnoc-none (c ∷ s) h = ground (arith)

unsnoc-some : (s : List ℕ) (i : List ℕ) (d : ℕ) → unsnoc s ≡ some (i, d) → s ≡ i ++ d ∷ []
unfolding unsnoc
unsnoc-some [] i d h = absurd (cc)
unsnoc-some (c ∷ s) i d h = elim (Option-cases (unsnoc s)) [
  | inl e ↦ ground (arith, unsnoc-none s e)
  | inr ((i', d'), e) ↦ ground (arith, unsnoc-some s i' d' e)
]

is_op-parts : (c : ℕ) → is_op c ≡ false → ((c == b'>') ≡ false) × ((c == b'<') ≡ false)
is_op-parts c h = ground arith

scan-step :
    (line : List ℕ) (end c : ℕ)
    → get_elem? line end ≡ some c
    → is_op c ≡ false
    → scan line (suc end) ≡ scan line end
unfolding scan
scan-step line end c e h = let (a, b) = is_op-parts c h in rw (scan, e, a, b, if◌then◌else◌) refl

-- Plain characters are passed over.
scan-Plain :
    (line p q rest : List ℕ)
    → line ≡ p ++ (q ++ rest)
    → Plain q
    → scan line (length p + length q) ≡ scan line (length p)
scan-Plain line p [] rest e h = ap (scan line) (omega arith)
scan-Plain line p (c ∷ q) rest e h =
    ap (scan line) (omega (arith, step))
    ∙ scan-Plain line (p ++ c ∷ []) q rest (e ∙ sym (append_assoc p (c ∷ []) (q ++ rest))) h.1
    ∙ ap (scan line) step
    ∙ scan-step line (length p) c (rw (e) (get_elem?-append_at p c (q ++ rest))) h.0
  where
    step : length (p ++ c ∷ []) ≡ suc (length p)
    step = omega (arith, length-append p (c ∷ []))

-- A 0 stored at the end of `b`, and the text behind it.
cut-found :
    (line b : List ℕ) (op : ℕ) (a rest : List ℕ)
    → line ≡ b ++ op ∷ (a ++ 0 ∷ rest)
    → IsText b
    → IsText a
    → (c_string (set line (length b) 0) ≡ b)
      × (c_string (drop (length b + 1) (set line (length b) 0)) ≡ a)
cut-found line b op a rest e hb ha =
    let after = (ap (λ l. set l (length b) 0) e) ∙ set-append b op 0 (a ++ 0 ∷ rest) in
    (
      rw (after) (c_string-closed b (a ++ 0 ∷ rest) hb),
      rw (after, drop-append b (0 ∷ (a ++ 0 ∷ rest)) 1) (c_string-closed a rest ha),
    )

-- The same with a second operator left behind the 0.
cut_two-found :
    (line i : List ℕ) (d op : ℕ) (a rest : List ℕ)
    → line ≡ i ++ d ∷ op ∷ (a ++ 0 ∷ rest)
    → IsText i
    → IsText a
    → (c_string (set line (length i) 0) ≡ i)
      × (c_string (drop (length i + 2) (set line (length i) 0)) ≡ a)
cut_two-found line i d op a rest e hi ha =
    let after = (ap (λ l. set l (length i) 0) e) ∙ set-append i d 0 (op ∷ (a ++ 0 ∷ rest)) in
    (
      rw (after) (c_string-closed i (op ∷ (a ++ 0 ∷ rest)) hi),
      rw (after, drop-append i (0 ∷ op ∷ (a ++ 0 ∷ rest)) 2) (c_string-closed a rest ha),
    )

output-found :
    (line b : List ℕ) (op : ℕ) (a rest : List ℕ)
    → line ≡ b ++ op ∷ (a ++ 0 ∷ rest)
    → IsText b
    → IsText a
    → reading (at_greater line (length b)) ≡ output b a
unfolding at_greater output reading unsnoc
output-found line b op a rest e hb ha = elim (Option-cases (unsnoc b)) [
  | inl u ↦ rw (unsnoc-none b u) refl
  | inr ((i, d), u) ↦
      let ends = unsnoc-some b i d u in
      let size : length b ≡ suc (length i) =
        ap length ends ∙ omega (arith, length-append i (d ∷ [])) in
      let place : line ≡ i ++ d ∷ op ∷ (a ++ 0 ∷ rest) =
        e
        ∙ ap (λ l. l ++ op ∷ (a ++ 0 ∷ rest)) ends
        ∙ append_assoc i (d ∷ []) (op ∷ (a ++ 0 ∷ rest)) in
      let parts = IsText-append i (d ∷ []) (subst IsText ends hb) in
      let last : get_elem? line (length i) ≡ some d =
        ap (λ l. get_elem? l (length i)) place ∙ get_elem?-append_at i d (op ∷ (a ++ 0 ∷ rest)) in
      elim (Bool-cases (d == b'>')) [
        | inl y ↦
            let (front, back) = cut_two-found line i d op a rest place parts.0 ha in
            rw (size, output, u, at_greater, last, y, if◌then◌else◌, front, back) refl
        | inr n ↦
            let (front, back) = cut-found line b op a rest e hb ha in
            let front' = subst (λ k. c_string (set line k 0) ≡ b) size front in
            let back' : c_string (drop (length i + 2) (set line (suc (length i)) 0)) ≡ a =
              ap (λ k. c_string (drop k (set line (suc (length i)) 0))) (omega arith)
              ∙ subst (λ k. c_string (drop (k + 1) (set line k 0)) ≡ a) size back in
            rw (size, output, u, at_greater, last, n, if◌then◌else◌, front', back') refl
      ]
]

op-less : (c : ℕ) → is_op c ≡ true → (c == b'>') ≡ false → (c == b'<') ≡ true
op-less c op n = ground arith

scan-found :
    (line s : List ℕ) (r : Cut) (rest : List ℕ)
    → line ≡ s ++ 0 ∷ rest
    → s ≡ r.before ++ r.op ∷ r.after
    → Plain r.after
    → is_op r.op ≡ true
    → IsText s
    → reading (scan line (length s))
      ≡ (if r.op == b'>' then output r.before r.after else found r.before input_redir r.after)
unfolding scan reading
scan-found line s r rest e split plain op text = elim (Bool-cases (r.op == b'>')) [
  | inl y ↦
      rw (to_op, scan, at_op, y, if◌then◌else◌)
        (output-found line r.before r.op r.after rest place
          (IsText-append r.before (r.op ∷ r.after) words).0 after_text)
  | inr n ↦
      let (front, back) =
        cut-found line r.before r.op r.after rest place
          (IsText-append r.before (r.op ∷ r.after) words).0 after_text in
      rw (to_op, scan, at_op, n, less n, if◌then◌else◌, front, back) refl
]
  where
    words : IsText (r.before ++ r.op ∷ r.after)
    words = subst IsText split text

    after_text : IsText r.after
    after_text = (IsText-append r.before (r.op ∷ r.after) words).1.1

    less : (r.op == b'>') ≡ false → (r.op == b'<') ≡ true
    less n = op-less r.op op n

    place : line ≡ r.before ++ r.op ∷ (r.after ++ 0 ∷ rest)
    place = e ∙ ap (λ t. t ++ 0 ∷ rest) split ∙ append_assoc r.before (r.op ∷ r.after) (0 ∷ rest)

    at_op : get_elem? line (length r.before) ≡ some r.op
    at_op =
        ap (λ l. get_elem? l (length r.before)) place
        ∙ get_elem?-append_at r.before r.op (r.after ++ 0 ∷ rest)

    total : length s ≡ length (r.before ++ r.op ∷ []) + length r.after
    total =
        ap length split
        ∙ omega (arith, length-append r.before (r.op ∷ r.after), length-append r.before (r.op ∷ []))

    one_more : length (r.before ++ r.op ∷ []) ≡ suc (length r.before)
    one_more = omega (arith, length-append r.before (r.op ∷ []))

    to_op : scan line (length s) ≡ scan line (suc (length r.before))
    to_op =
        ap (scan line) total
        ∙ scan-Plain line (r.before ++ r.op ∷ []) r.after (0 ∷ rest)
            (place ∙ sym (append_assoc r.before (r.op ∷ []) (r.after ++ 0 ∷ rest))) plain
        ∙ ap (scan line) one_more

-- Whatever follows a text in the array, `CheckRedir` cuts it at its last operator as `redirection`
-- says.
pub check_redir_lem :
    (s rest : List ℕ) → IsText s → reading (check_redir (s ++ 0 ∷ rest)) ≡ redirection s
unfolding check_redir redirection scan reading
check_redir_lem s rest text = elim (Option-cases (last_op s)) [
  | inl e ↦
      rw (c_string-closed s rest text, redirection, e)
        (ap reading (
            ap (scan (s ++ 0 ∷ rest)) (all (length s))
            ∙ scan-Plain (s ++ 0 ∷ rest) [] s (0 ∷ rest) refl (last_op-none s e))
          ∙ nothing s rest text)
  | inr (r, e) ↦
      let (split, plain, op) = last_op-some s r e in
      rw (c_string-closed s rest text, redirection, e)
        (scan-found (s ++ 0 ∷ rest) s r rest refl split plain op text)
]
  where
    all : (n : ℕ) → n ≡ 0 + n
    all n = omega arith

    nothing :
        (s rest : List ℕ)
        → IsText s
        → reading (scan (s ++ 0 ∷ rest) 0)
          ≡ some (record { command = s; status = none_redir; file = none })
    nothing s rest text = rw (c_string-closed s rest text) refl
