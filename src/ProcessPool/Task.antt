-- ===== src/ProcessPool/Task.antt =====
-- The table of tasks of 1119/processPool/Task.hpp.
use os_net_work_code.Base.{
  arith, ℕ, zero, suc, ◌≡◌, refl, List, [], ◌∷◌, ◌++◌, length, Option, some, none, ◌==◌, get_elem?,
  if◌then◌else◌, Bool, true, false,
}

-- The functions that can be called; the descriptions say which one they describe.
pub data Func : Type 0 where
  read_my_sql execule_url cal save : Func

pub record Described : Type 0 where
  pub number : ℕ
  pub text : Func

-- The vector `callbacks` and the map `desc`.
pub record Handlers : Type 0 where
  pub callbacks : List Func
  pub desc : List Described

unfoldable pub has_key : ℕ → List Described → Bool
has_key n [] = false
has_key n (d ∷ ds) = let rest = has_key n ds in if d.number == n then true else rest

-- `insert` keeps an entry that is there.
unfoldable pub insert : Described → List Described → List Described
insert d ds = if has_key d.number ds then ds else ds ++ (d ∷ [])

-- A description under the next number, and the function.
unfoldable pub add : Func → Handlers → Handlers
add f h = record {
  callbacks = h.callbacks ++ (f ∷ []);
  desc = insert (record { number = length h.callbacks; text = f }) h.desc;
}

unfoldable pub load : Handlers → Handlers
load h = add save (add cal (add execule_url (add read_my_sql h)))

unfoldable pub handler_size : Handlers → ℕ
handler_size h = length h.callbacks

-- Both are empty when the program starts.
abbrev pub loaded : Handlers
loaded = load (record { callbacks = []; desc = [] })

-- `desc[n]`.
unfoldable pub description : ℕ → List Described → Option Func
description n [] = none
description n (d ∷ ds) = let rest = description n ds in if d.number == n then some d.text else rest

-- After `load`, the map describes under each number the function that the vector has there, and
-- nothing under any other number.
pub load_describes : (n : ℕ) → description n loaded.desc ≡ get_elem? loaded.callbacks n
unfolding load add insert has_key description
load_describes zero = refl
load_describes (suc zero) = refl
load_describes (suc (suc zero)) = refl
load_describes (suc (suc (suc zero))) = refl
load_describes (suc (suc (suc (suc n)))) = ground arith
