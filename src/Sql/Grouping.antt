-- ===== src/Sql/Grouping.antt =====
-- The map from index names to columns that `Convert` of model/sql/model/infoschemamodel.go fills.
use goctl.Base.{
  ◌≡◌, refl, ap, ◌∙◌, Bool-cases, inl, inr, not, ◌||◌, Bool, false, List, [], ◌∷◌, ◌++◌,
  append_assoc, Option, none, some, Text, ◌==◌, text_eq, text_eq_iff, if◌then◌else◌, arith,
}
use goctl.Sql.Columns.{DbIndex, Column, Indexes, or_nil, put, group_columns}
use goctl.Sql.Names.{lookup}

-- The columns of an index, in their order.
abbrev pub in_index : Text → Option DbIndex → Bool
in_index n none = false
in_index n (some i) = text_eq i.index_name n

abbrev pub at_index : Text → List Column → List Column
at_index n [] = []
at_index n (c ∷ cs) = if in_index n c.index then c ∷ at_index n cs else at_index n cs

abbrev pub is_unique : Option DbIndex → Bool
is_unique none = false
is_unique (some i) = i.non_unique == 0

abbrev pub is_normal : Option DbIndex → Bool
is_normal none = false
is_normal (some i) = not (i.non_unique == 0)

-- Some column has an index for which a test holds.
abbrev pub some_index : (Option DbIndex → Bool) → List Column → Bool
some_index p [] = false
some_index p (c ∷ cs) = p c.index || some_index p cs

pub lookup-put :
    (n k : Text) (cs : List Column) (m : Indexes)
    → lookup n (put k cs m) ≡ (if text_eq k n then some cs else lookup n m)
unfolding lookup put
lookup-put n k cs [] = refl
lookup-put n k cs ((j, ds) ∷ m) =
    ground (arith, text_eq_iff j k, text_eq_iff j n, text_eq_iff k n, lookup-put n k cs m)

-- An entry with more columns behind it.
abbrev pub extended : Option (List Column) → List Column → Option (List Column)
extended o [] = o
extended o (c ∷ cs) = some (or_nil o ++ c ∷ cs)

extended-cons :
    (o : Option (List Column)) (c : Column) (cs : List Column)
    → extended (some (or_nil o ++ c ∷ [])) cs ≡ extended o (c ∷ cs)
extended-cons o c [] = refl
extended-cons o c (d ∷ cs) = ap some (append_assoc (or_nil o) (c ∷ []) (d ∷ cs))

extended-put :
    (n k : Text) (c : Column) (cs : List Column) (m : Indexes)
    → extended (lookup n (put k (or_nil (lookup k m) ++ c ∷ []) m)) cs
      ≡ extended (lookup n m) (if text_eq k n then c ∷ cs else cs)
extended-put n k c cs m =
    rw (lookup-put n k (or_nil (lookup k m) ++ c ∷ []) m) (elim (Bool-cases (text_eq k n)) [
      | inl e ↦ rw (e, (text_eq_iff k n).0 e) (extended-cons (lookup n m) c cs)
      | inr e ↦ rw e refl
    ])

pub lookup-group_columns :
    (n : Text) (cs : List Column) (m : Indexes)
    → lookup n (group_columns cs m) ≡ extended (lookup n m) (at_index n cs)
unfolding group_columns
lookup-group_columns n [] m = refl
lookup-group_columns n (c ∷ cs) m =
    elim c.index
      as (λ o.
        lookup {A = List Column} n (elim o [
          | none ↦ group_columns cs m
          | some i ↦
              group_columns cs (put i.index_name (or_nil (lookup i.index_name m) ++ c ∷ []) m)
        ])
        ≡ extended (lookup n m) (if in_index n o then c ∷ at_index n cs else at_index n cs)) [
          | none ↦ lookup-group_columns n cs m
          | some i ↦
              lookup-group_columns n cs
                (put i.index_name (or_nil (lookup i.index_name m) ++ c ∷ []) m)
              ∙ extended-put n i.index_name c (at_index n cs) m
        ]

-- No key has two entries.
abbrev pub Distinct : Indexes → Type 0
Distinct [] = Unit
Distinct ((k, cs) ∷ m) = (lookup k m ≡ none) × Distinct m

put-Distinct : (k : Text) (cs : List Column) (m : Indexes) → Distinct m → Distinct (put k cs m)
unfolding put
put-Distinct k cs [] d = unfold lookup in (refl, tt)
put-Distinct k cs ((j, ds) ∷ m) d =
    ground (arith, put-Distinct k cs m d.1, text_eq_iff j k, text_eq_iff k j, lookup-put j k cs m)

pub group_columns-Distinct :
    (cs : List Column) (m : Indexes) → Distinct m → Distinct (group_columns cs m)
unfolding group_columns
group_columns-Distinct [] m d = d
group_columns-Distinct (c ∷ cs) m d =
    elim c.index
      as (λ o. Distinct (elim o [
        | none ↦ group_columns cs m
        | some i ↦ group_columns cs (put i.index_name (or_nil (lookup i.index_name m) ++ c ∷ []) m)
      ])) [
        | none ↦ group_columns-Distinct cs m d
        | some i ↦
            group_columns-Distinct cs
              (put i.index_name (or_nil (lookup i.index_name m) ++ c ∷ []) m)
              (put-Distinct i.index_name (or_nil (lookup i.index_name m) ++ c ∷ []) m d)
      ]
