-- ===== src/SortedMap/Indexed.antt =====
-- The index of the sorted map of pkg/collection/sortedmap.go.
use goctl.Base.{
  ℕ, ◌+◌, ◌<◌, ◌≡◌, ◌≢◌, refl, sym, ◌∙◌, arith, List, [], ◌∷◌, ◌++◌, Option, none, some,
  if◌then◌else◌,
}
use goctl.SortedMap.Defs.{
  Any, any_eq, Element, SortedMap, new, write_at, remove_at, set_kv, remove, reset,
}
use goctl.SortedMap.View.{
  any_eq_iff, find, Apart, Below, Distinct, IsIndexed, Below-mono, find-Apart,
}

-- The other keys are found where they were.
find-write_at : (j v : Any) (a : ℕ) (es : List Element) → find j (write_at a v es) ≡ find j es
unfolding find write_at
find-write_at j v a [] = refl
find-write_at j v a (e ∷ es) = ground (arith, find-write_at j v a es)

find-append :
    (j k v : Any) (n : ℕ) (es : List Element)
    → find k es ≡ none
    → find j (es ++ record { address = n; key = k; value = v } ∷ [])
      ≡ (if any_eq j k then some n else find j es)
unfolding find
find-append j k v n [] h = ground (arith, any_eq_iff j k, any_eq_iff k j)
find-append j k v n (e ∷ es) h =
    ground (arith, find-append j k v n es, any_eq_iff j k, any_eq_iff e.key k, any_eq_iff e.key j)

find-remove_at :
    (j k : Any) (a : ℕ) (es : List Element)
    → Distinct es
    → find k es ≡ some a
    → find j (remove_at a es) ≡ (if any_eq j k then none else find j es)
unfolding find remove_at
find-remove_at j k a [] d h = cc
find-remove_at j k a (e ∷ es) d h = ground (
  arith,
  find-remove_at j k a es d.2,
  any_eq_iff j k,
  any_eq_iff e.key k,
  any_eq_iff e.key j,
  find-Apart k es a e.address d.1,
)

module _ (b : ℕ) where
  Apart-write_at : (v : Any) (a : ℕ) (es : List Element) → Apart b es → Apart b (write_at a v es)
  unfolding write_at
  Apart-write_at v a [] h = tt
  Apart-write_at v a (e ∷ es) h = ground (arith, Apart-write_at v a es h.1)

  Apart-remove_at : (a : ℕ) (es : List Element) → Apart b es → Apart b (remove_at a es)
  unfolding remove_at
  Apart-remove_at a [] h = tt
  Apart-remove_at a (e ∷ es) h = ground (arith, Apart-remove_at a es h.1)

  Apart-append :
      (e : Element) (es : List Element) → e.address ≢ b → Apart b es → Apart b (es ++ e ∷ [])
  Apart-append e [] n h = (n, tt)
  Apart-append e (x ∷ es) n h = (h.0, Apart-append e es n h.1)

  Below-write_at : (v : Any) (a : ℕ) (es : List Element) → Below b es → Below b (write_at a v es)
  unfolding write_at
  Below-write_at v a [] h = tt
  Below-write_at v a (e ∷ es) h = ground (arith, Below-write_at v a es h.1)

  Below-remove_at : (a : ℕ) (es : List Element) → Below b es → Below b (remove_at a es)
  unfolding remove_at
  Below-remove_at a [] h = tt
  Below-remove_at a (e ∷ es) h = ground (arith, Below-remove_at a es h.1)

  Below-append :
      (e : Element) (es : List Element) → e.address < b → Below b es → Below b (es ++ e ∷ [])
  Below-append e [] n h = (n, tt)
  Below-append e (x ∷ es) n h = (h.0, Below-append e es n h.1)

Distinct-write_at : (v : Any) (a : ℕ) (es : List Element) → Distinct es → Distinct (write_at a v es)
unfolding write_at
Distinct-write_at v a [] d = tt
Distinct-write_at v a (e ∷ es) d = ground (
  arith,
  Distinct-write_at v a es d.2,
  find-write_at e.key v a es,
  Apart-write_at e.address v a es d.1,
)

find-remove_none :
    (j : Any) (a : ℕ) (es : List Element) → find j es ≡ none → find j (remove_at a es) ≡ none
unfolding find remove_at
find-remove_none j a [] h = refl
find-remove_none j a (e ∷ es) h = ground (arith, find-remove_none j a es)

Distinct-remove_at : (a : ℕ) (es : List Element) → Distinct es → Distinct (remove_at a es)
unfolding remove_at
Distinct-remove_at a [] d = tt
Distinct-remove_at a (e ∷ es) d = ground (
  arith,
  Distinct-remove_at a es d.2,
  find-remove_none e.key a es,
  Apart-remove_at e.address a es d.1,
)

Distinct-append :
    (k v : Any) (n : ℕ) (es : List Element)
    → find k es ≡ none
    → Below n es
    → Distinct es
    → Distinct (es ++ record { address = n; key = k; value = v } ∷ [])
unfolding find
Distinct-append k v n [] h b d = (refl, tt, tt)
Distinct-append k v n (e ∷ es) h b d = ground (
  arith,
  find-append e.key k v n es,
  any_eq_iff e.key k,
  Distinct-append k v n es,
  Apart-append e.address (record { address = n; key = k; value = v }) es,
)

-- A new map, and one that is reset, is empty and indexed.
pub new-IsIndexed : IsIndexed new
unfolding find
new-IsIndexed = record { indexed = λ k. refl; below = tt; distinct = tt }

pub reset-IsIndexed : (m : SortedMap) → IsIndexed (reset m)
unfolding find reset
reset-IsIndexed m = record { indexed = λ k. refl; below = tt; distinct = tt }

module _ (k : Any) {m : SortedMap} (w : IsIndexed m) where
  -- `SetKV` keeps a map indexed: each key leads to the address of its element, no two elements
  -- share a key or an address, and the next address is above all of them.
  pub set_kv-IsIndexed : (v : Any) → IsIndexed (set_kv k v m)
  unfolding set_kv
  set_kv-IsIndexed v = go (m.keys k) refl
    where
      go : (o : Option ℕ) → m.keys k ≡ o → IsIndexed (set_kv k v m)
      go none e =
          rw (e, set_kv)
            (record {
              indexed =
                  λ j. ground (arith, w.indexed j, w.indexed k, find-append j k v m.fresh m.kv);
              below =
                  Below-append (m.fresh + 1) _ m.kv (omega arith) (Below-mono m.fresh m.kv w.below);
              distinct =
                  Distinct-append k v m.fresh m.kv (sym (w.indexed k) ∙ e) w.below w.distinct;
            })
      go (some a) e =
          rw (e, set_kv)
            (record {
              indexed = λ j.
                  ground
                    (arith, w.indexed j, w.indexed k, find-write_at j v a m.kv, any_eq_iff j k);
              below = Below-write_at m.fresh v a m.kv w.below;
              distinct = Distinct-write_at v a m.kv w.distinct;
            })

  -- `Remove` of any key keeps an indexed map indexed.
  pub remove-IsIndexed : IsIndexed (remove k m).1
  unfolding remove
  remove-IsIndexed = go (m.keys k) refl
    where
      go : (o : Option ℕ) → m.keys k ≡ o → IsIndexed (remove k m).1
      go none e = rw (e, remove) w
      go (some a) e =
          rw (e, remove)
            (record {
              indexed = λ j. ground (
                arith,
                w.indexed j,
                find-remove_at j k a m.kv w.distinct (sym (w.indexed k) ∙ e),
              );
              below = Below-remove_at m.fresh a m.kv w.below;
              distinct = Distinct-remove_at a m.kv w.distinct;
            })
