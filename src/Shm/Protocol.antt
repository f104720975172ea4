-- ===== src/Shm/Protocol.antt =====
-- Schedules of the two loops of 1201/shm.
use os_net_work_code.Base.{
  ℕ, zero, suc, ◌+◌, ◌<◌, ◌≡◌, refl, sym, ap, subst, ◌∙◌, true, Bool-cases, List, [], ◌∷◌, ◌++◌,
  append_assoc, length, length-set, length-append, length-drop, drop, set, replicate,
  length-replicate, if◌then◌else◌, lt→ltb, Option, some, arith, inl, inr,
}
use os_net_work_code.Buffer.{c_string, store, fill, c_string-fill}
use os_net_work_code.Udp.Server.{same_string}
use os_net_work_code.Shm.Segment.{
  quit, Server, printing, comparing, stopped, Client, reading, cutting, left, System, start, Action,
  type, cut, look, Event, typed, printed, cut_at, client_type, client_cut, server_look, step, exec,
  Fits, latest,
}

-- How the segment stands with the client when `line` was typed last.
unfoldable Stands : List ℕ → List ℕ → Client → Type 0
Stands line shm reading = c_string shm ≡ c_string line
Stands line shm (cutting n) = c_string (set shm n 0) ≡ c_string line
Stands line shm left = (c_string shm ≡ c_string line) × (same_string (c_string shm) quit ≡ true)

abbrev Room : List ℕ → Client → Type 0
Room shm reading = Unit {0}
Room shm (cutting n) = n < length shm
Room shm left = Unit {0}

record Inv (size : ℕ) (line : List ℕ) (s : System) : Type 0 where
  whole : length s.shm ≡ size
  room : Room s.shm s.client
  stands : Stands line s.shm s.client

-- An action is possible, and keeps the invariant for the line typed last.
Kept : ℕ → List ℕ → Option (System × List Event) → Type 0
Kept size line o =
    (t : System) × (es : List Event) × (o ≡ some (t, es)) × Inv size (latest line es) t

type-Kept :
    (size : ℕ) (line0 line : List ℕ) (last : ℕ) (s : System) (c : Client)
    → s.client ≡ c
    → Inv size line0 s
    → length line + 1 < size
    → Kept size line0 (some (client_type s line last c))
unfolding Kept client_type latest Stands
type-Kept size line0 line last s reading e inv fits = (
  record s { shm = fill s.shm (line ++ (last ∷ [])); client = cutting (length line) },
  typed line ∷ [],
  refl,
  record {
    whole = omega (arith, total, fits, inv.whole);
    room = omega (arith, total, fits, inv.whole);
    stands =
        rw (append_assoc line (last ∷ []) (drop (length (line ++ (last ∷ []))) s.shm))
          (c_string-fill line (last ∷ drop (length (line ++ (last ∷ []))) s.shm) (omega arith));
  },
)
  where
    total : length (fill s.shm (line ++ (last ∷ []))) ≡ length s.shm
    total = omega (
      arith,
      fits,
      inv.whole,
      length-append (line ++ (last ∷ [])) (drop (length (line ++ (last ∷ []))) s.shm),
      length-append line (last ∷ []),
      length-drop (length (line ++ (last ∷ []))) s.shm,
    )
type-Kept size line0 line last s (cutting n) e inv fits = (s, [], refl, inv)
type-Kept size line0 line last s left e inv fits = (s, [], refl, inv)

cut-Kept :
    (size : ℕ) (line : List ℕ) (s : System) (c : Client)
    → s.client ≡ c
    → Inv size line s
    → Kept size line (client_cut s c)
unfolding Kept client_cut cut_at latest Stands store
cut-Kept size line s reading e inv = (s, [], refl, inv)
cut-Kept size line s (cutting n) e inv =
    elim (Bool-cases (same_string (c_string (set s.shm n 0)) quit)) [
      | inl y ↦ (
        record s { shm = set s.shm n 0; client = left },
        [],
        rw (client_cut, cut_at, store, lt→ltb n (length s.shm) inside, if◌then◌else◌, y) refl,
        record { whole = same; room = tt; stands = (standing, y) },
      )
      | inr f ↦ (
        record s { shm = set s.shm n 0; client = reading },
        [],
        rw (client_cut, cut_at, store, lt→ltb n (length s.shm) inside, if◌then◌else◌, f) refl,
        record { whole = same; room = tt; stands = standing },
      )
    ]
  where
    inside : n < length s.shm
    inside = subst (Room s.shm) e inv.room

    standing : c_string (set s.shm n 0) ≡ c_string line
    standing = subst (Stands line s.shm) e inv.stands

    same : length (set s.shm n 0) ≡ size
    same = length-set s.shm n 0 ∙ inv.whole
cut-Kept size line s left e inv = (s, [], refl, inv)

look-Kept :
    (size : ℕ) (line : List ℕ) (s : System) (c : Server)
    → Inv size line s
    → Kept size line (some (server_look s c))
unfolding Kept server_look latest
look-Kept size line s stopped inv = (s, [], refl, inv)
look-Kept size line s printing inv = (
  record s { server = comparing },
  printed (c_string s.shm) ∷ [],
  refl,
  record { whole = inv.whole; room = inv.room; stands = inv.stands },
)
look-Kept size line s comparing inv = (
  record s { server = if same_string (c_string s.shm) quit then stopped else printing },
  [],
  refl,
  record { whole = inv.whole; room = inv.room; stands = inv.stands },
)

step-Kept :
    (size : ℕ) (line : List ℕ) (s : System) (a : Action)
    → Inv size line s
    → Fits size (a ∷ [])
    → Kept size line (step s a)
unfolding step server_look
step-Kept size line0 s (type line last) inv fits =
    type-Kept size line0 line last s s.client refl inv fits.0
step-Kept size line s cut inv fits = cut-Kept size line s s.client refl inv
step-Kept size line s look inv fits = look-Kept size line s s.server inv

Fits-head :
    (size : ℕ) (a : Action) (as' : List Action)
    → Fits size (a ∷ as')
    → Fits size (a ∷ []) × Fits size as'
Fits-head size (type line last) as' h = ((h.0, tt), h.1)
Fits-head size cut as' h = (tt, h)
Fits-head size look as' h = (tt, h)

latest-append :
    (line : List ℕ) (es fs : List Event) → latest line (es ++ fs) ≡ latest (latest line es) fs
unfolding latest
latest-append line [] fs = refl
latest-append line (typed l ∷ es) fs = latest-append l es fs
latest-append line (printed t ∷ es) fs = latest-append line es fs

exec-Kept :
    (size : ℕ) (line : List ℕ) (s : System) (as' : List Action)
    → Inv size line s
    → Fits size as'
    → Kept size line (exec s as')
unfolding exec Kept latest
exec-Kept size line s [] inv fits = (s, [], refl, inv)
exec-Kept size line s (a ∷ as') inv fits =
    let (here, rest) = Fits-head size a as' fits in
    let (t, es, e, inv') = step-Kept size line s a inv here in
    let (u, fs, f, inv'') = exec-Kept size (latest line es) t as' inv' rest in
    (u, es ++ fs, rw (e, exec, f) refl, rw (latest-append line es fs) inv'')

c_string-zeros_only : (n : ℕ) → c_string (replicate n 0) ≡ []
unfolding c_string
c_string-zeros_only zero = refl
c_string-zeros_only (suc n) = refl

start-Inv : (size : ℕ) → Inv size [] (start size)
unfolding start Stands c_string
start-Inv size = record {
  whole = length-replicate {A = ℕ} size 0;
  room = tt;
  stands = c_string-zeros_only size;
}

-- The server compares when the segment says "quit".
quit-compare :
    (t : System)
    → t.server ≡ comparing
    → same_string (c_string t.shm) quit ≡ true
    → exec t (look ∷ []) ≡ some (record t { server = stopped }, [])
unfolding exec step server_look
quit-compare t v q = rw (exec, step, v, server_look, q, if◌then◌else◌) refl

quit-print :
    (t : System) (text : List ℕ)
    → t.server ≡ printing
    → c_string t.shm ≡ text
    → same_string (c_string t.shm) quit ≡ true
    → exec t (look ∷ look ∷ []) ≡ some (record t { server = stopped }, printed text ∷ [])
unfolding exec step server_look
quit-print t text v shown q =
    subst
      (λ c.
        exec (record t { server = c }) (look ∷ look ∷ [])
        ≡ some (record t { server = stopped }, printed text ∷ []))
      (sym v)
      (rw (q, if◌then◌else◌) (ap (λ l. some (record t { server = stopped }, printed l ∷ [])) shown))

-- On a segment of any size, for every schedule in which `read` keeps to the size that it is given,
-- nothing is written past the segment. While the client waits for a line, what the server
-- would print is the line typed last, less its last byte and up to its first 0. Once the client has
-- left its loop, that is the line on which it left, and the server's next actions take it out of its
-- loop: if it is to print, it prints that line first; if it has printed and is to compare, it stops
-- without having printed again.
pub shm_protocol :
    (size : ℕ) (as' : List Action)
    → Fits size as'
    → (t : System) × (es : List Event) × (exec (start size) as' ≡ some (t, es))
      × (t.client ≡ reading → c_string t.shm ≡ c_string (latest [] es))
      × (t.client ≡ left
          → (c_string t.shm ≡ c_string (latest [] es))
            × (t.server ≡ printing
                → exec t (look ∷ look ∷ [])
                  ≡ some (record t { server = stopped }, printed (c_string (latest [] es)) ∷ []))
            × (t.server ≡ comparing
                → exec t (look ∷ []) ≡ some (record t { server = stopped }, [])))
unfolding Kept Stands step
shm_protocol size as' fits =
    let (t, es, e, inv) = exec-Kept size [] (start size) as' (start-Inv size) fits in
    (
      t,
      es,
      e,
      λ c. subst (Stands (latest [] es) t.shm) c inv.stands,
      λ c.
          let ended = subst (Stands (latest [] es) t.shm) c inv.stands in
          (
            ended.0,
            λ v. quit-print t (c_string (latest [] es)) v ended.0 ended.1,
            λ v. quit-compare t v ended.1,
          ),
    )
