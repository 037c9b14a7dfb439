-- ===== src/SortedMap/Defs.antt =====
-- The sorted map of pkg/collection/sortedmap.go. A list element is its address with its key and
-- value; `keys` maps a key to the address of its element.
use goctl.Base.{
  ℕ, ◌+◌, Bool, true, false, not, ◌||◌, List, [], ◌∷◌, ◌++◌, Option, none, some, Text, ◌==◌,
  if◌then◌else◌, text_eq,
}

-- Go's `any`, as far as the map tells values apart: a string or a value of another type.
pub data Any : Type 0 where
  text : Text → Any
  other : ℕ → Any

unfoldable pub any_eq : Any → Any → Bool
any_eq (text a) (text b) = text_eq a b
any_eq (other a) (other b) = a == b
any_eq _ _ = false

pub record Element : Type 0 where
  pub address : ℕ
  pub key : Any
  pub value : Any

-- `fresh` is the address of the next element that is allocated.
pub record SortedMap : Type 0 where
  pub kv : List Element
  pub keys : Any → Option ℕ
  pub fresh : ℕ

pub data Error : Type 0 where
  invalid_kv_expression invalid_kvs : Error

abbrev pub new : SortedMap
new = record { kv = []; keys = λ _. none; fresh = 0 }

-- `e.Value.(KV)[1]` at an address.
unfoldable pub value_at : ℕ → List Element → Option Any
value_at a [] = none
value_at a (e ∷ es) = if e.address == a then some e.value else value_at a es

unfoldable pub write_at : ℕ → Any → List Element → List Element
write_at a v [] = []
write_at a v (e ∷ es) = if e.address == a then record e { value = v } ∷ es else e ∷ write_at a v es

unfoldable pub remove_at : ℕ → List Element → List Element
remove_at a [] = []
remove_at a (e ∷ es) = if e.address == a then es else e ∷ remove_at a es

unfoldable pub set_kv : Any → Any → SortedMap → SortedMap
set_kv k v m = elim (m.keys k) [
  | none ↦ record m {
    kv = m.kv ++ record { address = m.fresh; key = k; value = v } ∷ [];
    keys = λ j. if any_eq j k then some m.fresh else m.keys j;
    fresh = m.fresh + 1;
  }
  | some a ↦ record m {
    kv = write_at a v m.kv;
    keys = λ j. if any_eq j k then some a else m.keys j;
  }
]

-- The loop of `Set` over the pairs.
unfoldable pub set_pairs : List Any → SortedMap → SortedMap
set_pairs (k ∷ v ∷ rest) m = set_pairs rest (set_kv k v m)
set_pairs _ m = m

unfoldable pub is_odd : List Any → Bool
is_odd [] = false
is_odd (x ∷ xs) = not (is_odd xs)

-- `Set`: nil or an error, with the map.
unfoldable pub set : List Any → SortedMap → Option Error × SortedMap
set kvs m = if is_odd kvs then (some invalid_kvs, m) else (none, set_pairs kvs m)

unfoldable pub get : Any → SortedMap → Option Any
get k m = elim (m.keys k) [ none ↦ none | some a ↦ value_at a m.kv ]

unfoldable pub get_or : Any → Any → SortedMap → Any
get_or k dft m = elim (get k m) [ none ↦ dft | some v ↦ v ]

abbrev pub as_string : Any → Option Text
as_string (text s) = some s
as_string (other n) = none

unfoldable pub get_string : Any → SortedMap → Option Text
get_string k m = elim (get k m) [ none ↦ none | some v ↦ as_string v ]

unfoldable pub get_string_or : Any → Text → SortedMap → Text
get_string_or k dft m = elim (get_string k m) [ none ↦ dft | some s ↦ s ]

unfoldable pub has_key : Any → SortedMap → Bool
has_key k m = elim (m.keys k) [ none ↦ false | some a ↦ true ]

-- `HasValue`: the walk of `RangeIf` stops at the value.
unfoldable pub walk_value : Any → List Element → Bool
walk_value v [] = false
walk_value v (e ∷ es) = any_eq v e.value || walk_value v es

unfoldable pub has_value : Any → SortedMap → Bool
has_value v m = walk_value v m.kv

unfoldable pub walk_keys : List Element → List Any
walk_keys [] = []
walk_keys (e ∷ es) = e.key ∷ walk_keys es

unfoldable pub list_keys : SortedMap → List Any
list_keys m = walk_keys m.kv

-- `values[idx] = m.keys[key].Value.(KV)[1]`; `none` would be a nil dereference.
unfoldable pub read_values : List Any → SortedMap → Option (List Any)
read_values [] m = some []
read_values (k ∷ ks) m = elim (get k m) [
  | none ↦ none
  | some v ↦ elim (read_values ks m) [ none ↦ none | some vs ↦ some (v ∷ vs) ]
]

unfoldable pub list_values : SortedMap → Option (List Any)
list_values m = read_values (list_keys m) m

-- `Range` with a function that updates a state.
unfoldable pub range {ℓ} : {S : Type ℓ} → (Any → Any → S → S) → List Element → S → S
range f [] s = s
range f (e ∷ es) s = range f es (f e.key e.value s)

unfoldable pub remove : Any → SortedMap → Option Any × SortedMap
remove k m = elim (m.keys k) [
  | none ↦ (none, m)
  | some a ↦ (
    value_at a m.kv,
    record m { kv = remove_at a m.kv; keys = λ j. if any_eq j k then none else m.keys j },
  )
]

unfoldable pub insert : SortedMap → SortedMap → SortedMap
insert sm m = range set_kv sm.kv m

unfoldable pub copy : SortedMap → SortedMap
copy m = range set_kv m.kv new

unfoldable pub reset : SortedMap → SortedMap
reset m = record m { kv = []; keys = λ _. none }

-- `stringx.ContainsWhiteSpace` of util/stringx/string.go.
unfoldable pub contains_white_space : Text → Bool
contains_white_space [] = false
contains_white_space (c ∷ s) =
    c == b'\n' || c == b'\t' || c == 12 || c == 11 || c == b' ' || contains_white_space s

-- The text before the first `=` and the text behind it; `none` where there is none.
unfoldable pub cut_at_equals : Text → Option (Text × Text)
cut_at_equals [] = none
cut_at_equals (c ∷ s) =
    let rest : Option (Text × Text) = elim (cut_at_equals s) [
      | none ↦ none
      | some (k, v) ↦ some (c ∷ k, v)
    ] in
    if c == b'=' then some ([], s) else rest

abbrev pub is_empty : Text → Bool
is_empty [] = true
is_empty (c ∷ s) = false

-- `SetExpression`: the key and value that are set, or `none` for the error.
unfoldable pub set_expression : Text → SortedMap → Option (Text × Text) × SortedMap
set_expression expression m = elim (cut_at_equals expression) [
  | none ↦ (none, m)
  | some (k, v) ↦
      if contains_white_space k || contains_white_space v || is_empty k
      then (none, m)
      else (some (k, v), set_kv (text k) (text v) m)
]
