-- ===== src/SortedMap/Copies.antt =====
-- `Copy`, `Values`, `Set` and `SetExpression` of pkg/collection/sortedmap.go.
use goctl.Base.{
  ◌≡◌, ◌≢◌, ◌⊎◌, inl, inr, refl, sym, ◌∙◌, ap, arith, true, false, List, [], ◌∷◌, ◌++◌, append-nil,
  append_assoc, none, some, Text, Bool-cases, All,
}
use goctl.SortedMap.Defs.{
  Any, text, any_eq, invalid_kvs, Element, SortedMap, set_kv, get, walk_keys, list_keys,
  read_values, list_values, copy, is_odd, set_pairs, set, contains_white_space, cut_at_equals,
  set_expression,
}
use goctl.SortedMap.Indexed.{set_kv-IsIndexed, new-IsIndexed}
use goctl.SortedMap.Refines.{get-view, view-set_kv, assign_all, range-set_kv}
use goctl.SortedMap.View.{any_eq_iff, Pairs, pairs, view, lookup, assign, find, Distinct, IsIndexed}

-- The keys of the elements are not among the pairs.
abbrev Absent : Pairs → List Element → Type 0
Absent ps = All (λ e. lookup e.key ps ≡ none)

assign-lookup-none :
    (k v : Any) (ps : Pairs) → lookup k ps ≡ none → assign k v ps ≡ ps ++ (k, v) ∷ []
unfolding lookup assign
assign-lookup-none k v [] h = refl
assign-lookup-none k v ((j, w) ∷ ps) h = ground (arith, assign-lookup-none k v ps)

lookup-append_one :
    (j k v : Any) (ps : Pairs)
    → lookup j ps ≡ none
    → any_eq k j ≡ false
    → lookup j (ps ++ (k, v) ∷ []) ≡ none
unfolding lookup
lookup-append_one j k v [] h n = ground arith
lookup-append_one j k v ((i, w) ∷ ps) h n = ground (arith, lookup-append_one j k v ps)

Absent-append :
    (k v : Any) (ps : Pairs) (es : List Element)
    → Absent ps es
    → find k es ≡ none
    → Absent (ps ++ (k, v) ∷ []) es
unfolding find
Absent-append k v ps [] a h = tt
Absent-append k v ps (e ∷ es) a h = ground (
  arith,
  Absent-append k v ps es a.1,
  lookup-append_one e.key k v ps a.0,
  any_eq_iff k e.key,
  any_eq_iff e.key k,
)

assign_all-Distinct :
    (es : List Element) (ps : Pairs)
    → Distinct es
    → Absent ps es
    → assign_all (pairs es) ps ≡ ps ++ pairs es
assign_all-Distinct [] ps d a = sym (append-nil ps)
assign_all-Distinct (e ∷ es) ps d a =
    ap (assign_all (pairs es)) (assign-lookup-none e.key e.value ps a.0)
    ∙ (assign_all-Distinct es (ps ++ (e.key, e.value) ∷ []) d.2
          (Absent-append e.key e.value ps es a.1 d.0)
        ∙ append_assoc ps ((e.key, e.value) ∷ []) (pairs es))

Absent-nil : (es : List Element) → Absent [] es
unfolding lookup
Absent-nil [] = tt
Absent-nil (e ∷ es) = (refl, Absent-nil es)

-- `Copy` of an indexed map is an indexed map with the same pairs in the same order.
pub copy-view : {m : SortedMap} → IsIndexed m → IsIndexed (copy m) × (view (copy m) ≡ view m)
unfolding copy
copy-view {m} w =
    let r = range-set_kv m.kv new-IsIndexed in
    (r.0, r.1 ∙ assign_all-Distinct m.kv [] w.distinct (Absent-nil m.kv))

abbrev pub values : Pairs → List Any
values [] = []
values ((k, v) ∷ ps) = v ∷ values ps

-- An element of a list without its key is not in front of that list's elements.
All-lookup_behind :
    (k v : Any) (es : List Element) (ps : Pairs)
    → find k es ≡ none
    → All (λ e. lookup e.key ps ≡ some e.value) es
    → All (λ e. lookup e.key ((k, v) ∷ ps) ≡ some e.value) es
unfolding find lookup
All-lookup_behind k v [] ps h a = tt
All-lookup_behind k v (e ∷ es) ps h a =
    ground (arith, All-lookup_behind k v es ps, any_eq_iff k e.key, any_eq_iff e.key k)

All-lookup :
    (es : List Element) → Distinct es → All (λ e. lookup e.key (pairs es) ≡ some e.value) es
unfolding lookup
All-lookup [] d = tt
All-lookup (e ∷ es) d = (
  ground (arith, any_eq_iff e.key e.key),
  All-lookup_behind e.key e.value es (pairs es) d.0 (All-lookup es d.2),
)

read_values-walk_keys :
    (es : List Element) (m : SortedMap)
    → All (λ e. get e.key m ≡ some e.value) es
    → read_values (walk_keys es) m ≡ some (values (pairs es))
unfolding read_values walk_keys
read_values-walk_keys [] m a = refl
read_values-walk_keys (e ∷ es) m a = ground (arith, read_values-walk_keys es m a.1)

All-get :
    (es : List Element) {m : SortedMap}
    → IsIndexed m
    → All (λ e. lookup e.key (view m) ≡ some e.value) es
    → All (λ e. get e.key m ≡ some e.value) es
All-get [] w a = tt
All-get (e ∷ es) w a = (get-view w e.key ∙ a.0, All-get es w a.1)

-- On an indexed map `Values` dereferences no nil element, and returns the values of the pairs in
-- their order.
pub list_values-view : {m : SortedMap} → IsIndexed m → list_values m ≡ some (values (view m))
unfolding list_values list_keys
list_values-view {m} w = read_values-walk_keys m.kv m (All-get m.kv w (All-lookup m.kv w.distinct))

-- The pairs of a list of items; an odd last item makes none.
abbrev pub pair_up : List Any → Pairs
pair_up (k ∷ v ∷ rest) = (k, v) ∷ pair_up rest
pair_up _ = []

set_pairs-view :
    (kvs : List Any) {m : SortedMap}
    → IsIndexed m
    → IsIndexed (set_pairs kvs m) × (view (set_pairs kvs m) ≡ assign_all (pair_up kvs) (view m))
unfolding set_pairs
set_pairs-view (k ∷ v ∷ rest) {m} w =
    let ih = set_pairs-view rest (set_kv-IsIndexed k w v) in
    (ih.0, ih.1 ∙ ap (assign_all (pair_up rest)) (view-set_kv w k v))
set_pairs-view (k ∷ []) w = (w, refl)
set_pairs-view [] w = (w, refl)

-- On an indexed map `Set` refuses an odd number of items with an error and leaves the map as it
-- was; of an even number it returns no error, keeps the map indexed and sets the pairs that the
-- items make up, in their order.
pub set-view :
    (kvs : List Any) {m : SortedMap}
    → IsIndexed m
    → ((is_odd kvs ≡ true) × ((set kvs m).0 ≡ some invalid_kvs) × ((set kvs m).1 ≡ m))
      ⊎ ((is_odd kvs ≡ false)
          × ((set kvs m).0 ≡ none)
          × IsIndexed (set kvs m).1
          × (view (set kvs m).1 ≡ assign_all (pair_up kvs) (view m)))
unfolding set
set-view kvs {m} w = elim (Bool-cases (is_odd kvs)) [
  | inl e ↦ inl (rw e (refl, refl, refl))
  | inr e ↦ inr (rw e (let p = set_pairs-view kvs w in (refl, refl, p.0, p.1)))
]

cut_at_equals-append :
    (k v : Text) → All (λ c. c ≢ b'=') k → cut_at_equals (k ++ b'=' ∷ v) ≡ some (k, v)
unfolding cut_at_equals
cut_at_equals-append [] v h = refl
cut_at_equals-append (c ∷ k) v h = ground (arith, cut_at_equals-append k v)

-- `SetExpression` of a key, an `=` and a value returns the two and sets them as strings, where the
-- key is not empty and holds no `=`, and neither of the two holds one of the blanks it looks for.
-- The value may hold an `=`.
pub set_expression-append :
    (k v : Text) (m : SortedMap)
    → All (λ c. c ≢ b'=') k
    → contains_white_space k ≡ false
    → contains_white_space v ≡ false
    → k ≢ []
    → set_expression (k ++ b'=' ∷ v) m ≡ (some (k, v), set_kv (text k) (text v) m)
unfolding set_expression
set_expression-append [] v m h a b n = absurd (n refl)
set_expression-append (c ∷ k) v m h a b n =
    rw (cut_at_equals-append (c ∷ k) v h, set_expression) (rw (a, b))
