-- ===== src/SortedMap/Refines.antt =====
-- The operations of pkg/collection/sortedmap.go on the ordered association list that a map stands
-- for.
use goctl.Base.{ℕ, ◌≡◌, refl, sym, ◌∙◌, ap, arith, List, [], ◌∷◌, Option, none, some, if◌then◌else◌}
use goctl.SortedMap.Defs.{Any, any_eq, Element, SortedMap, set_kv, get, remove, range, insert}
use goctl.SortedMap.Indexed.{set_kv-IsIndexed}
use goctl.SortedMap.View.{
  any_eq_iff, Pairs, pairs, view, lookup, assign, erase, find, IsIndexed, lookup-find-none,
  append-find-none, erase-find-none, value_at-find, write_at-find, remove_at-find,
}

lookup-assign :
    (j k v : Any) (ps : Pairs)
    → lookup j (assign k v ps) ≡ (if any_eq j k then some v else lookup j ps)
unfolding lookup assign
lookup-assign j k v [] = ground (arith, any_eq_iff j k, any_eq_iff k j)
lookup-assign j k v ((i, w) ∷ ps) =
    ground (arith, lookup-assign j k v ps, any_eq_iff j k, any_eq_iff i k, any_eq_iff i j)

module _ {m : SortedMap} (w : IsIndexed m) where
  found : (k : Any) {o : Option ℕ} → m.keys k ≡ o → find k m.kv ≡ o
  found k e = sym (w.indexed k) ∙ e

  -- On an indexed map, `SetKV` overwrites the value of the key's pair in place, or adds the pair
  -- behind the others if the key is new.
  pub view-set_kv : (k v : Any) → view (set_kv k v m) ≡ assign k v (view m)
  unfolding set_kv
  view-set_kv k v = go (m.keys k) refl
    where
      go : (o : Option ℕ) → m.keys k ≡ o → view (set_kv k v m) ≡ assign k v (view m)
      go none e = rw (e, set_kv) (append-find-none k v m.fresh m.kv (found k e))
      go (some a) e = rw (e, set_kv) (write_at-find k a v m.kv w.distinct (found k e))

  -- On an indexed map, `Get` returns the value of the key's pair, and none if no pair has the key.
  pub get-view : (k : Any) → get k m ≡ lookup k (view m)
  unfolding get
  get-view k = go (m.keys k) refl
    where
      go : (o : Option ℕ) → m.keys k ≡ o → get k m ≡ lookup k (view m)
      go none e = rw (e, get) (sym (lookup-find-none k m.kv (found k e)))
      go (some a) e = rw (e, get) (value_at-find k a m.kv w.distinct (found k e))

  -- On an indexed map, `Remove` returns the value of the key's pair, or none if there is no such
  -- pair, and takes that pair out and leaves the others in their order.
  pub remove-view :
      (k : Any) → ((remove k m).0 ≡ lookup k (view m)) × (view (remove k m).1 ≡ erase k (view m))
  unfolding remove
  remove-view k = go (m.keys k) refl
    where
      go :
          (o : Option ℕ)
          → m.keys k ≡ o
          → ((remove k m).0 ≡ lookup k (view m)) × (view (remove k m).1 ≡ erase k (view m))
      go none e =
          rw (e, remove)
            (sym (lookup-find-none k m.kv (found k e)), sym (erase-find-none k m.kv (found k e)))
      go (some a) e =
          rw (e, remove)
            (
              value_at-find k a m.kv w.distinct (found k e),
              remove_at-find k a m.kv w.distinct (found k e),
            )

-- Behind `SetKV` on an indexed map the key that is set reads as its value, and every other key
-- reads as before.
get-set_kv :
    (j k v : Any) {m : SortedMap}
    → IsIndexed m
    → get j (set_kv k v m) ≡ (if any_eq j k then some v else get j m)
get-set_kv j k v {m} w =
    get-view (set_kv-IsIndexed k w v) j ∙ rw (view-set_kv w k v, lookup-assign, get-view w j)

abbrev pub assign_all : Pairs → Pairs → Pairs
assign_all [] ps = ps
assign_all ((k, v) ∷ new_pairs) ps = assign_all new_pairs (assign k v ps)

pub range-set_kv :
    (es : List Element) {m : SortedMap}
    → IsIndexed m
    → IsIndexed (range set_kv es m) × (view (range set_kv es m) ≡ assign_all (pairs es) (view m))
unfolding range
range-set_kv [] w = (w, refl)
range-set_kv (e ∷ es) {m} w =
    let ih = range-set_kv es (set_kv-IsIndexed e.key w e.value) in
    (ih.0, ih.1 ∙ ap (assign_all (pairs es)) (view-set_kv w e.key e.value))

-- `Insert` of any map into an indexed one keeps it indexed and sets every pair of the other map, in
-- that map's order.
pub insert-view :
    (sm : SortedMap) {m : SortedMap}
    → IsIndexed m
    → IsIndexed (insert sm m) × (view (insert sm m) ≡ assign_all (view sm) (view m))
unfolding insert
insert-view sm w = range-set_kv sm.kv w
