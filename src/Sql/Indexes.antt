-- ===== src/Sql/Indexes.antt =====
-- The indexes of a table that `Convert` of model/sql/model/infoschemamodel.go returns.
use mathlib.Core.Path.{subst}
use goctl.Base.{
  ◌≡◌, refl, sym, ap, ◌∙◌, ◌↔◌, Bool-cases, inl, inr, ◌<◌, not, ◌&&◌, Bool, true, false, List, [],
  ◌∷◌, Option, none, some, Text, text_eq, text_eq_iff, if◌then◌else◌, length, arith,
}
use goctl.Sql.Columns.{
  DbIndex, Column, ColumnData, Table, Indexes, KeyError, index_pri, or_nil, with_key, trim_comments,
  group_columns, file_column, file_columns, file_indexes, convert_with, convert,
}
use goctl.Sql.Names.{lookup}
use goctl.Sql.Grouping.{
  in_index, at_index, some_index, is_unique, is_normal, lookup-put, extended, lookup-group_columns,
  Distinct, group_columns-Distinct,
}

-- What the loop over `m` makes of the entry of an index.
module _ (p : Option DbIndex → Bool) where
  abbrev filed : Text → Option (List Column) → Option (List Column) → Option (List Column)
  filed j none o = o
  filed j (some cs) o = if not (text_eq j index_pri) && some_index p cs then some cs else o

  filed_skip :
      (n j : Text) (cs : List Column) (r o : Option (List Column))
      → (text_eq n j ≡ true → r ≡ none)
      → text_eq n index_pri ≡ true
      → filed j r o ≡ filed j (if text_eq n j then some cs else r) o
  filed_skip n j cs r o z e = elim (Bool-cases (text_eq n j)) [
    | inl h ↦
        let f : text_eq j index_pri ≡ true = rw (← (text_eq_iff n j).0 h) e in rw (h, z h, f) refl
    | inr h ↦ rw h refl
  ]

  filed_put :
      (n j : Text) (cs : List Column) (r o : Option (List Column))
      → (text_eq n j ≡ true → r ≡ none)
      → text_eq n index_pri ≡ false
      → filed j r (if text_eq n j && some_index p cs then some cs else o)
        ≡ filed j (if text_eq n j then some cs else r) o
  filed_put n j cs r o z e = elim (Bool-cases (text_eq n j)) [
    | inl h ↦
        let f : text_eq j index_pri ≡ false = rw (← (text_eq_iff n j).0 h) e in rw (h, z h, f) refl
    | inr h ↦ rw h refl
  ]

-- One of the two maps, and the test that files a column in it.
module _ (p : Option DbIndex → Bool) (at : Indexes × Indexes → Indexes)
    (step : (j n : Text) (cs : List Column) (o : Option DbIndex) (t : Indexes × Indexes)
      → lookup j (at (file_column n cs o t))
        ≡ (if text_eq n j && p o then some cs else lookup j (at t))) where
  lookup-file_columns :
      (j n : Text) (cs rest : List Column) (t : Indexes × Indexes)
      → lookup j (at (file_columns n cs rest t))
        ≡ (if text_eq n j && some_index p rest then some cs else lookup j (at t))
  unfolding file_columns
  lookup-file_columns j n cs [] t = ground arith
  lookup-file_columns j n cs (one ∷ rest) t =
      lookup-file_columns j n cs rest (file_column n cs one.index t)
      ∙ ground (arith, step j n cs one.index t)

  lookup-file_indexes :
      (j : Text) (m : Indexes) (t : Indexes × Indexes)
      → Distinct m
      → lookup j (at (file_indexes m t)) ≡ filed p j (lookup j m) (lookup j (at t))
  unfolding file_indexes lookup
  lookup-file_indexes j [] t d = refl
  lookup-file_indexes j ((n, cs) ∷ m) t d =
      let z : text_eq n j ≡ true → lookup j m ≡ none = λ h. rw (← (text_eq_iff n j).0 h) d.0 in
      elim (Bool-cases (text_eq n index_pri)) [
        | inl e ↦
            rw e (
              lookup-file_indexes j m t d.1
              ∙ filed_skip p n j cs (lookup j m) (lookup j (at t)) z e)
        | inr e ↦ rw e (
            lookup-file_indexes j m (file_columns n cs cs t) d.1
            ∙ rw (lookup-file_columns j n cs cs t)
                (filed_put p n j cs (lookup j m) (lookup j (at t)) z e))
      ]

filed_unique :
    (j n : Text) (cs : List Column) (o : Option DbIndex) (t : Indexes × Indexes)
    → lookup j (file_column n cs o t).0
      ≡ (if text_eq n j && is_unique o then some cs else lookup j t.0)
unfolding file_column
filed_unique j n cs none t = ground arith
filed_unique j n cs (some i) t = ground (arith, lookup-put j n cs t.0)

filed_normal :
    (j n : Text) (cs : List Column) (o : Option DbIndex) (t : Indexes × Indexes)
    → lookup j (file_column n cs o t).1
      ≡ (if text_eq n j && is_normal o then some cs else lookup j t.1)
unfolding file_column
filed_normal j n cs none t = ground arith
filed_normal j n cs (some i) t = ground (arith, lookup-put j n cs t.1)

trim_comments-at_index :
    (n : Text) (cs : List Column) → length (at_index n (trim_comments cs)) ≡ length (at_index n cs)
unfolding trim_comments
trim_comments-at_index n [] = refl
trim_comments-at_index n (c ∷ cs) = elim (Bool-cases (in_index n c.index)) [
  | inl e ↦ rw (e, trim_comments-at_index n cs) refl
  | inr e ↦ rw (e, trim_comments-at_index n cs) refl
]

-- The entry of an index in `m`.
grouped :
    (n : Text) (cs : List Column) → lookup n (group_columns cs []) ≡ extended none (at_index n cs)
grouped n cs = lookup-group_columns n cs [] ∙ unfold lookup in refl

or_nil-extended : (cs : List Column) → or_nil (extended none cs) ≡ cs
or_nil-extended [] = refl
or_nil-extended (c ∷ cs) = refl

-- What `Convert` does, with the columns of the primary index.
convert_at :
    (d : ColumnData)
    → convert d
      ≡ convert_with
          (record d { columns = trim_comments d.columns })
          (at_index index_pri (trim_comments d.columns))
          (group_columns (trim_comments d.columns) [])
unfolding convert
convert_at d =
    ap
      (λ ps.
        convert_with (record d { columns = trim_comments d.columns }) ps
          (group_columns (trim_comments d.columns) []))
      (ap or_nil (grouped index_pri (trim_comments d.columns))
        ∙ or_nil-extended (at_index index_pri (trim_comments d.columns)))

convert_with_errors :
    (d : ColumnData) (ps : List Column) (m : Indexes)
    → ((convert_with d ps m ≡ inl KeyError.missing_primary_key) ↔ (length ps ≡ 0))
      × ((convert_with d ps m ≡ inl KeyError.joint_primary_key) ↔ (1 < length ps))
unfolding convert_with
convert_with_errors d [] m = ground arith
convert_with_errors d (c ∷ []) m = ground arith
convert_with_errors d (c ∷ e ∷ ps) m = ground arith

-- `Convert` reports a missing primary key exactly if no column has the index `PRIMARY`, and a joint
-- primary key exactly if more than one has it; otherwise it returns a table.
pub convert_errors :
    (d : ColumnData)
    → ((convert d ≡ inl KeyError.missing_primary_key) ↔ (length (at_index index_pri d.columns) ≡ 0))
      × ((convert d ≡ inl KeyError.joint_primary_key) ↔ (1 < length (at_index index_pri d.columns)))
convert_errors d =
    rw (convert_at d, ← trim_comments-at_index index_pri d.columns)
      (convert_with_errors (record d { columns = trim_comments d.columns })
        (at_index index_pri (trim_comments d.columns)) (group_columns (trim_comments d.columns) []))

-- The entry of an index in the map of a test.
abbrev pub entry : (Option DbIndex → Bool) → Text → List Column → Option (List Column)
entry p n cs = if not (text_eq n index_pri) && some_index p cs then some cs else none

filed-extended :
    (p : Option DbIndex → Bool) (n : Text) (cs : List Column)
    → filed p n (extended none cs) none ≡ entry p n cs
filed-extended p n [] = ground arith
filed-extended p n (c ∷ cs) = refl

module _ (p : Option DbIndex → Bool) (at : Indexes × Indexes → Indexes) (at_nil : at ([], []) ≡ [])
    (step : (j n : Text) (cs : List Column) (o : Option DbIndex) (t : Indexes × Indexes)
      → lookup j (at (file_column n cs o t))
        ≡ (if text_eq n j && p o then some cs else lookup j (at t))) where
  lookup-filed :
      (n : Text) (cs : List Column)
      → lookup n (at (file_indexes (group_columns cs []) ([], []))) ≡ entry p n (at_index n cs)
  lookup-filed n cs =
      let z : lookup n (at ([], [])) ≡ none = rw at_nil (unfold lookup in refl) in
      lookup-file_indexes p at step n (group_columns cs []) ([], [])
        (group_columns-Distinct cs [] tt)
      ∙ rw (z, grouped n cs) (filed-extended p n (at_index n cs))

-- The primary key and the two maps of a table.
abbrev pub HasIndexes : Table → Type 0
HasIndexes t =
    (at_index index_pri t.columns ≡ t.primary_key ∷ [])
    × ((n : Text)
        → (lookup n t.unique_index ≡ entry is_unique n (at_index n t.columns))
          × (lookup n t.normal_index ≡ entry is_normal n (at_index n t.columns)))

convert_with-HasIndexes :
    (d : ColumnData) (ps : List Column) (t : Table)
    → ps ≡ at_index index_pri d.columns
    → convert_with d ps (group_columns d.columns []) ≡ inr t
    → (t.columns ≡ d.columns) × HasIndexes t
unfolding convert_with
convert_with-HasIndexes d [] t e h = cc
convert_with-HasIndexes d (c ∷ c' ∷ ps) t e h = cc
convert_with-HasIndexes d (c ∷ []) t e h =
    let q : with_key d c (group_columns d.columns []) ≡ t = cc in
    subst (λ t. (t.columns ≡ d.columns) × HasIndexes t) q
      (
        refl,
        (
          sym e,
          λ n. (
            lookup-filed is_unique (λ t. t.0) refl filed_unique n d.columns,
            lookup-filed is_normal (λ t. t.1) refl filed_normal n d.columns,
          ),
        ),
      )

-- Where `Convert` returns a table, its columns are the given ones with trimmed comments, its
-- primary key is the only column with the index `PRIMARY`, `UniqueIndex` has an entry exactly for
-- each other index with a column whose `NonUnique` is zero, and `NormalIndex` one exactly for each
-- other index with a column whose `NonUnique` is not: all the columns of the index, in their order.
pub convert-HasIndexes :
    (d : ColumnData) (t : Table)
    → convert d ≡ inr t
    → (t.columns ≡ trim_comments d.columns) × HasIndexes t
convert-HasIndexes d t h =
    convert_with-HasIndexes (record d { columns = trim_comments d.columns })
      (at_index index_pri (trim_comments d.columns)) t refl (sym (convert_at d) ∙ h)
