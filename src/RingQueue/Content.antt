-- ===== src/RingQueue/Content.antt =====
-- Items written to, read from and kept in the slots of the vector of RingQueue<T>
-- (0208/RingQueue/ringQueue.hpp).
use native.Mathlib.Nat.{mod-mod, mod-add-mod, mod-eq_of_lt, div-add-mod}
use os_net_work_code.Base.{
  ℕ, suc, ◌+◌, ◌%◌, ◌≤◌, ◌<◌, ◌≡◌, ◌≢◌, sym, ap, ◌∙◌, List, [], ◌∷◌, ◌++◌, length, get_elem?, set,
  arith, length-append, get_elem?-set_self, get_elem?-set_ne, get_elem?-append_left,
  get_elem?-append_end, dec_lt,
}
use os_net_work_code.RingQueue.Invariant.{Content}

-- Two positions less than `cap` apart are different slots.
slot-ne : (cap c k n : ℕ) → k < n → n ≤ cap → n < cap + k → (c + n) % cap ≢ (c + k) % cap
slot-ne cap c k n h g l e = grind (arith, div-add-mod (c + n) cap, div-add-mod (c + k) cap)

module _ {ℓ} {A : Type ℓ} where
  -- Wrapping an index leaves the items where they are.
  pub wrap_p-Content :
      {cap c p : ℕ} {buf : List A} {q : List A}
      → Content cap buf c p q
      → Content cap buf c (p % cap) q
  wrap_p-Content {cap} {p = p} h = record { behind = mod-mod p cap ∙ h.behind; stored = h.stored }

  pub wrap_c-Content :
      {cap c p : ℕ} {buf : List A} {q : List A}
      → Content cap buf c p q
      → Content cap buf (c % cap) p q
  wrap_c-Content {cap} {c} {q = q} h = record {
    behind = h.behind ∙ sym (mod-add-mod c cap (length q));
    stored = λ k lt. rw (mod-add-mod c cap k) (h.stored k lt);
  }

  pub write-Content :
      {cap c p : ℕ} {buf : List A} {q : List A} (x : A)
      → Content cap buf c p q
      → p < cap
      → length buf ≡ cap
      → length q < cap
      → Content cap (set buf p x) c (p + 1) (q ++ x ∷ [])
  write-Content {cap} {c} {p} {buf} {q} x h lt room short = record {
    behind =
        ap (λ n. (n + 1) % cap) place
        ∙ mod-add-mod (c + length q) cap 1
        ∙ ap (λ n. n % cap) (omega (arith, length-append q (x ∷ [])));
    stored = stored;
  }
    where
      place : p ≡ (c + length q) % cap
      place = sym (mod-eq_of_lt lt) ∙ h.behind

      stored :
          (k : ℕ)
          → k < length (q ++ x ∷ [])
          → get_elem? (set buf p x) ((c + k) % cap) ≡ get_elem? (q ++ x ∷ []) k
      stored k l = elim (dec_lt k (length q)) [
        | yes old ↦
            get_elem?-set_ne buf p ((c + k) % cap) x
              (rw place (slot-ne cap c k (length q) old (omega arith) (omega arith)))
            ∙ h.stored k old
            ∙ sym (get_elem?-append_left q (x ∷ []) k old)
        | no new ↦
            let e : k ≡ length q = omega (arith, length-append q (x ∷ [])) in
            rw (e, ← place, get_elem?-set_self buf p x (omega arith), get_elem?-append_end q x)
      ]

  pub read-Content :
      {cap c p : ℕ} {buf : List A} {q : List A} (x : A)
      → Content cap buf c p (x ∷ q)
      → c < cap
      → Content cap buf (c + 1) p q
  read-Content {cap} {c} {buf = buf} x h lt = record {
    behind = h.behind ∙ ap (λ n. n % cap) (omega arith);
    stored =
        λ k l. ap (λ n. get_elem? buf (n % cap)) (omega arith) ∙ h.stored (suc k) (omega arith);
  }
