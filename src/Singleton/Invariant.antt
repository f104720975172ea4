-- ===== src/Singleton/Invariant.antt =====
-- What the threads keep that want the single object (0211/threadPool.hpp,
-- xjh_multi_thread/test.cc).
use os_net_work_code.Base.{
  ℕ, zero, suc, ◌+◌, ◌≤◌, ◌≡◌, refl, Option, none, some, List, [], ◌∷◌, ◌++◌, length, get_elem?,
  set, arith, inl, inr, ◌⊎◌,
}
use os_net_work_code.Base.Threads.{weigh, weigh-set, weigh-replicate}
use os_net_work_code.Sync.{held}
use os_net_work_code.Singleton.Defs.{
  Statics, init, Pc, idle, inner_test, creating, assigning, unlocking, returning, start,
}

-- Every pointer of the list is the first object.
abbrev pub AllFirst : List (Option ℕ) → Type 0
AllFirst [] = Unit {0}
AllFirst (p ∷ ps) = (p ≡ some 0) × AllFirst ps

pub AllFirst-append : (ps qs : List (Option ℕ)) → AllFirst ps → AllFirst qs → AllFirst (ps ++ qs)
AllFirst-append [] qs h k = k
AllFirst-append (p ∷ ps) qs h k = (h.0, AllFirst-append ps qs h.1 k)

-- Whether the pointer is set, as a number.
abbrev pub is_set : Option ℕ → ℕ
is_set none = 0
is_set (some p) = 1

module _ {ℓ} {C : Type ℓ} where
  abbrev pub at_creating : Pc C → ℕ
  at_creating (creating _) = 1
  at_creating p = 0

  abbrev pub at_assigning : Pc C → ℕ
  at_assigning (assigning _) = 1
  at_assigning p = 0

  -- About to assign a pointer that is not the first object's.
  abbrev pub at_wrong : Pc C → ℕ
  at_wrong (assigning zero) = 0
  at_wrong (assigning (suc p)) = 1
  at_wrong p = 0

  abbrev pub elsewhere_inside : Pc C → ℕ
  elsewhere_inside (inner_test _) = 1
  elsewhere_inside unlocking = 1
  elsewhere_inside p = 0

  -- Past the creation, or past a test that found the pointer set.
  abbrev pub needs_set : Pc C → ℕ
  needs_set unlocking = 1
  needs_set returning = 1
  needs_set p = 0

  pub record Inv (m : Statics C) (ps : List (Pc C)) : Type ℓ where
    pub held_by :
        held m.mutex_for_pool
        ≡ weigh at_creating ps + weigh at_assigning ps + weigh elsewhere_inside ps
    pub made : length m.objects ≡ is_set m.thread_ptr + weigh at_assigning ps
    pub fresh : weigh at_creating ps + weigh at_assigning ps + is_set m.thread_ptr ≤ 1
    pub right : weigh at_wrong ps ≡ 0
    pub first : (m.thread_ptr ≡ none) ⊎ (m.thread_ptr ≡ some 0)
    pub set_before : (is_set m.thread_ptr ≡ 1) ⊎ (weigh needs_set ps ≡ 0)

  pub record Shift (ps : List (Pc C)) (i : ℕ) (p p' : Pc C) : Type ℓ where
    pub creating_moved :
        weigh at_creating (set ps i p') + at_creating p ≡ weigh at_creating ps + at_creating p'
    pub assigning_moved :
        weigh at_assigning (set ps i p') + at_assigning p ≡ weigh at_assigning ps + at_assigning p'
    pub wrong_moved : weigh at_wrong (set ps i p') + at_wrong p ≡ weigh at_wrong ps + at_wrong p'
    pub inside_moved :
        weigh elsewhere_inside (set ps i p') + elsewhere_inside p
        ≡ weigh elsewhere_inside ps + elsewhere_inside p'
    pub needs_moved :
        weigh needs_set (set ps i p') + needs_set p ≡ weigh needs_set ps + needs_set p'

  pub shift : (ps : List (Pc C)) (i : ℕ) (p p' : Pc C) → get_elem? ps i ≡ some p → Shift ps i p p'
  shift ps i p p' e = record {
    creating_moved = weigh-set at_creating ps i p p' e;
    assigning_moved = weigh-set at_assigning ps i p p' e;
    wrong_moved = weigh-set at_wrong ps i p p' e;
    inside_moved = weigh-set elsewhere_inside ps i p p' e;
    needs_moved = weigh-set needs_set ps i p p' e;
  }

  pub start-Inv : (n : ℕ) → Inv (start C n).statics (start C n).threads
  unfolding start init
  start-Inv n = record {
    held_by =
        omega (
          arith,
          none_at at_creating refl,
          none_at at_assigning refl,
          none_at elsewhere_inside refl,
        );
    made = omega (arith, none_at at_assigning refl);
    fresh = omega (arith, none_at at_creating refl, none_at at_assigning refl);
    right = none_at at_wrong refl;
    first = inl refl;
    set_before = inr (none_at needs_set refl);
  }
    where
      none_at : (w : Pc C → ℕ) → w idle ≡ 0 → weigh w (start C n).threads ≡ 0
      none_at w e = weigh-replicate w n idle e
