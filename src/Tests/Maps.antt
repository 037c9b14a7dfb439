-- ===== src/Tests/Maps.antt =====
-- The sorted map of pkg/collection/sortedmap.go.
use goctl.Base.{◌≡◌, ◌⊎◌, refl, true, false, List, [], ◌∷◌, none, some, codes, arith}
use goctl.SortedMap.Copies.{
  copy-view, values, list_values-view, pair_up, set-view, set_expression-append,
}
use goctl.SortedMap.Defs.{
  Any, text, other, SortedMap, invalid_kvs, new, set_kv, get, remove, insert, copy, is_odd, set,
  list_values, contains_white_space, set_expression,
}
use goctl.SortedMap.Indexed.{new-IsIndexed, set_kv-IsIndexed, remove-IsIndexed}
use goctl.SortedMap.Refines.{view-set_kv, get-view, remove-view, assign_all, insert-view}
use goctl.SortedMap.View.{view, lookup, assign, erase, IsIndexed}

abbrev first_key : Any
first_key = text (codes "a")

abbrev second_key : Any
second_key = text (codes "b")

two_keys : SortedMap
two_keys = set_kv second_key (other 2) (set_kv first_key (other 1) new)

two_keys-IsIndexed : IsIndexed two_keys
unfolding two_keys
two_keys-IsIndexed =
    set_kv-IsIndexed second_key (set_kv-IsIndexed first_key new-IsIndexed (other 1)) (other 2)

set_kv-IsIndexed_example : IsIndexed (set_kv first_key (other 3) two_keys)
set_kv-IsIndexed_example = set_kv-IsIndexed first_key two_keys-IsIndexed (other 3)

remove-IsIndexed_example : IsIndexed (remove first_key two_keys).1
remove-IsIndexed_example = remove-IsIndexed first_key two_keys-IsIndexed

view-set_kv_example :
    view (set_kv first_key (other 3) two_keys) ≡ assign first_key (other 3) (view two_keys)
view-set_kv_example = view-set_kv two_keys-IsIndexed first_key (other 3)

get-view_example : get first_key two_keys ≡ lookup first_key (view two_keys)
get-view_example = get-view two_keys-IsIndexed first_key

remove-view_example :
    ((remove first_key two_keys).0 ≡ lookup first_key (view two_keys))
    × (view (remove first_key two_keys).1 ≡ erase first_key (view two_keys))
remove-view_example = remove-view two_keys-IsIndexed first_key

insert-view_example :
    IsIndexed (insert two_keys new)
    × (view (insert two_keys new) ≡ assign_all (view two_keys) (view new))
insert-view_example = insert-view two_keys new-IsIndexed

copy-view_example : IsIndexed (copy two_keys) × (view (copy two_keys) ≡ view two_keys)
copy-view_example = copy-view two_keys-IsIndexed

list_values-view_example : list_values two_keys ≡ some (values (view two_keys))
list_values-view_example = list_values-view two_keys-IsIndexed

abbrev three_items : List Any
three_items = first_key ∷ other 5 ∷ second_key ∷ []

set-view_example :
    ((is_odd three_items ≡ true)
      × ((set three_items two_keys).0 ≡ some invalid_kvs)
      × ((set three_items two_keys).1 ≡ two_keys))
    ⊎ ((is_odd three_items ≡ false)
        × ((set three_items two_keys).0 ≡ none)
        × IsIndexed (set three_items two_keys).1
        × (view (set three_items two_keys).1 ≡ assign_all (pair_up three_items) (view two_keys)))
set-view_example = set-view three_items two_keys-IsIndexed

set_expression-append_example :
    set_expression (codes "k=v=1") two_keys
    ≡ (some (codes "k", codes "v=1"), set_kv (text (codes "k")) (text (codes "v=1")) two_keys)
set_expression-append_example =
    set_expression-append (codes "k") (codes "v=1") two_keys (omega arith)
      (unfold contains_white_space in refl) (unfold contains_white_space in refl) (cc)
