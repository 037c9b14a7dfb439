-- ===== src/SortedMap/View.antt =====
-- The sorted map of pkg/collection/sortedmap.go as an ordered association list.
use goctl.Base.{
  ℕ, ◌+◌, ◌<◌, ◌≡◌, ◌≢◌, ◌↔◌, refl, arith, true, List, [], ◌∷◌, ◌++◌, Option, none, some,
  if◌then◌else◌, text_eq_iff,
}
use goctl.SortedMap.Defs.{
  Any, text, other, any_eq, Element, SortedMap, value_at, write_at, remove_at,
}

pub any_eq_iff : (a b : Any) → (any_eq a b ≡ true) ↔ (a ≡ b)
unfolding any_eq
any_eq_iff (text a) (text b) = ground (arith, text_eq_iff a b)
any_eq_iff (other a) (other b) = ground arith
any_eq_iff _ _ = ground arith

abbrev pub Pairs : Type 0
Pairs = List (Any × Any)

-- The operations on an association list that keeps the order of insertion.
unfoldable pub lookup : Any → Pairs → Option Any
lookup k [] = none
lookup k ((j, v) ∷ ps) = if any_eq j k then some v else lookup k ps

unfoldable pub assign : Any → Any → Pairs → Pairs
assign k v [] = (k, v) ∷ []
assign k v ((j, w) ∷ ps) = if any_eq j k then (j, v) ∷ ps else (j, w) ∷ assign k v ps

unfoldable pub erase : Any → Pairs → Pairs
erase k [] = []
erase k ((j, w) ∷ ps) = if any_eq j k then ps else (j, w) ∷ erase k ps

abbrev pub pairs : List Element → Pairs
pairs [] = []
pairs (e ∷ es) = (e.key, e.value) ∷ pairs es

abbrev pub view : SortedMap → Pairs
view m = pairs m.kv

-- The address of the element of a key.
unfoldable pub find : Any → List Element → Option ℕ
find k [] = none
find k (e ∷ es) = if any_eq e.key k then some e.address else find k es

abbrev pub Apart : ℕ → List Element → Type 0
Apart a [] = Unit
Apart a (e ∷ es) = (e.address ≢ a) × Apart a es

abbrev pub Below : ℕ → List Element → Type 0
Below n [] = Unit
Below n (e ∷ es) = (e.address < n) × Below n es

-- No two elements share a key or an address.
abbrev pub Distinct : List Element → Type 0
Distinct [] = Unit
Distinct (e ∷ es) = (find e.key es ≡ none) × Apart e.address es × Distinct es

pub record IsIndexed (m : SortedMap) : Type 0 where
  pub indexed : (k : Any) → m.keys k ≡ find k m.kv
  pub below : Below m.fresh m.kv
  pub distinct : Distinct m.kv

pub find-Apart : (k : Any) (es : List Element) (a b : ℕ) → Apart b es → find k es ≡ some a → a ≢ b
unfolding find
find-Apart k [] a b d h = cc
find-Apart k (e ∷ es) a b d h = ground (arith, find-Apart k es a b d.1)

pub Below-Apart : (n : ℕ) (es : List Element) → Below n es → Apart n es
Below-Apart n [] b = tt
Below-Apart n (e ∷ es) b = (omega (arith, b.0), Below-Apart n es b.1)

pub Below-mono : (n : ℕ) (es : List Element) → Below n es → Below (n + 1) es
Below-mono n [] b = tt
Below-mono n (e ∷ es) b = (omega (arith, b.0), Below-mono n es b.1)

pub lookup-find-none : (k : Any) (es : List Element) → find k es ≡ none → lookup k (pairs es) ≡ none
unfolding find lookup
lookup-find-none k [] h = refl
lookup-find-none k (e ∷ es) h = ground (arith, lookup-find-none k es)

-- Reading, writing and removing through the address that `find` gives.
module _ (k : Any) (a : ℕ) where
  pub value_at-find :
      (es : List Element) → Distinct es → find k es ≡ some a → value_at a es ≡ lookup k (pairs es)
  unfolding find lookup value_at
  value_at-find [] d h = cc
  value_at-find (e ∷ es) d h = ground (arith, value_at-find es d.2, find-Apart k es a e.address d.1)

  pub write_at-find :
      (v : Any) (es : List Element)
      → Distinct es
      → find k es ≡ some a
      → pairs (write_at a v es) ≡ assign k v (pairs es)
  unfolding find assign write_at
  write_at-find v [] d h = cc
  write_at-find v (e ∷ es) d h =
      ground (arith, write_at-find v es d.2, find-Apart k es a e.address d.1)

  pub remove_at-find :
      (es : List Element)
      → Distinct es
      → find k es ≡ some a
      → pairs (remove_at a es) ≡ erase k (pairs es)
  unfolding find erase remove_at
  remove_at-find [] d h = cc
  remove_at-find (e ∷ es) d h =
      ground (arith, remove_at-find es d.2, find-Apart k es a e.address d.1)

pub append-find-none :
    (k v : Any) (n : ℕ) (es : List Element)
    → find k es ≡ none
    → pairs (es ++ record { address = n; key = k; value = v } ∷ []) ≡ assign k v (pairs es)
unfolding find assign
append-find-none k v n [] h = refl
append-find-none k v n (e ∷ es) h = ground (arith, append-find-none k v n es)

pub erase-find-none :
    (k : Any) (es : List Element) → find k es ≡ none → erase k (pairs es) ≡ pairs es
unfolding find erase
erase-find-none k [] h = refl
erase-find-none k (e ∷ es) h = ground (arith, erase-find-none k es)
