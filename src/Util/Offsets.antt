-- ===== src/Util/Offsets.antt =====
-- The offsets of `FileNamingFormat` of util/format/format.go lie in the format.
use goctl.Base.{
  ℕ, suc, ◌+◌, ◌≤◌, ◌≡◌, refl, sym, ap, ◌∙◌, inl, inr, Bool, true, false, Bool-cases, [], ◌∷◌, ◌++◌,
  Option, none, some, Text, codes, ltb, leb, ==_iff, text_eq, if◌then◌else◌, length, length-append,
  slice, arith,
}
use goctl.Util.Naming.{
  Naming, named, unsupported_format, unexpected_format, out_of_range, ◌>>=◌, starts_with, index_of,
  cut, get_style, format_at, file_naming_format,
}

starts_with-split : (p s : Text) → starts_with p s ≡ true → (rest : Text) × (s ≡ p ++ rest)
unfolding starts_with
starts_with-split [] s h = (s, refl)
starts_with-split (c ∷ p) [] h = ground arith
starts_with-split (c ∷ p) (d ∷ s) h =
    let h' : starts_with p s ≡ true = ground arith in
    let (rest, e) = starts_with-split p s h' in
    let k : c ≡ d = ground (arith, ==_iff c d) in (rest, cc)

index_of_tail :
    (p : Text) (c : ℕ) (s : Text) (i : ℕ) (o : Option ℕ)
    → starts_with p (c ∷ s) ≡ false
    → index_of p s ≡ o
    → index_of p (c ∷ s) ≡ some i
    → (j : ℕ) × (index_of p s ≡ some j) × (i ≡ suc j)
unfolding index_of
index_of_tail p c s i none e g h =
    let k : ◌≡◌ {A = Option ℕ} none (some i) = rw (e, g, index_of) at h in ground arith
index_of_tail p c s i (some j) e g h =
    let k : ◌≡◌ {A = Option ℕ} (some (suc j)) (some i) = rw (e, g, index_of) at h in
    (j, g, ground arith)

index_of_later :
    (p : Text) (c : ℕ) (s : Text) (i : ℕ)
    → starts_with p (c ∷ s) ≡ false
    → index_of p (c ∷ s) ≡ some i
    → (j : ℕ) × (index_of p s ≡ some j) × (i ≡ suc j)
unfolding index_of
index_of_later p c s i e h = index_of_tail p c s i (index_of p s) e refl h

-- What stands at the index that is found.
index_of-split :
    (p s : Text) (i : ℕ)
    → index_of p s ≡ some i
    → (before rest : Text) × (s ≡ before ++ (p ++ rest)) × (length before ≡ i)
unfolding index_of
index_of-split p [] i h = elim (Bool-cases (starts_with p [])) [
  | inl e ↦
      let k : ◌≡◌ {A = Option ℕ} (some 0) (some i) = rw e at h in
      let (rest, q) = starts_with-split p [] e in ([], rest, q, ground arith)
  | inr e ↦ let k : ◌≡◌ {A = Option ℕ} none (some i) = rw e at h in ground arith
]
index_of-split p (c ∷ s) i h = elim (Bool-cases (starts_with p (c ∷ s))) [
  | inl e ↦
      let k : ◌≡◌ {A = Option ℕ} (some 0) (some i) = rw e at h in
      let (rest, q) = starts_with-split p (c ∷ s) e in ([], rest, q, ground arith)
  | inr e ↦
      let (j, f, g) = index_of_later p c s i e h in
      let (before, rest, q, l) = index_of-split p s j f in
      (c ∷ before, rest, ap (◌∷◌ c) q, omega arith)
]

-- `GO` and `ZERO` do not overlap.
gap :
    (a b r q : Text)
    → a ++ (codes "GO" ++ r) ≡ b ++ (codes "ZERO" ++ q)
    → length a ≤ length b
    → length a + 2 ≤ length b
gap [] [] r q h l = ground arith
gap [] (x ∷ []) r q h l = ground arith
gap [] (x ∷ y ∷ b) r q h l = omega arith
gap (x ∷ a) [] r q h l = absurd (omega arith)
gap (x ∷ a) (y ∷ b) r q h l =
    let t : a ++ (codes "GO" ++ r) ≡ b ++ (codes "ZERO" ++ q) = cc in
    omega (arith, gap a b r q t (omega arith))

cut-named : (s : Text) (lo hi : ℕ) → lo ≤ hi → hi ≤ length s → (t : Text) × (cut s lo hi ≡ named t)
unfolding cut
cut-named s lo hi h k =
    let e : leb lo hi ≡ true = ground arith in
    let f : leb hi (length s) ≡ true = ground arith in (slice s lo hi, rw (e, f) refl)

-- The call does not panic.
abbrev pub InRange {ℓ} : {A : Type ℓ} → Naming A → Type 0
InRange out_of_range = ⊥
InRange (named a) = Unit
InRange unsupported_format = Unit
InRange (unexpected_format s) = Unit

InRange-bind {ℓ κ} :
    {A : Type ℓ} {B : Type κ} (m : Naming A) (f : A → Naming B)
    → InRange m
    → ((a : A) → InRange (f a))
    → InRange (m >>= f)
InRange-bind (named a) f h k = k a
InRange-bind unsupported_format f h k = tt
InRange-bind (unexpected_format s) f h k = tt
InRange-bind out_of_range f h k = absurd h

InRange-if {ℓ} :
    {A : Type ℓ} (b : Bool) (x y : Naming A) → InRange x → InRange y → InRange (if b then x else y)
InRange-if true x y h k = h
InRange-if false x y h k = k

cut-InRange : (s : Text) (lo hi : ℕ) → lo ≤ hi → hi ≤ length s → InRange (cut s lo hi)
cut-InRange s lo hi h k = let (t, e) = cut-named s lo hi h k in rw e tt

module _ (to_upper to_lower to_title : Text → Text) where
  get_style-InRange : (flag : Text) → InRange (get_style to_upper to_lower to_title flag)
  unfolding get_style
  get_style-InRange flag = InRange-if (text_eq flag (to_lower (to_lower flag))) _ _ tt (
      InRange-if (text_eq flag (to_upper (to_lower flag))) _ _ tt
        (InRange-if (text_eq flag (to_title (to_lower flag))) _ _ tt tt))

  format_at-InRange :
      (format content : Text) (i j : ℕ)
      → i + 2 ≤ j
      → j + 4 ≤ length format
      → InRange (format_at to_upper to_lower to_title format content i j)
  unfolding format_at
  format_at-InRange format content i j h k =
      InRange-bind (cut format 0 i) _ (cut-InRange format 0 i (omega arith) (omega arith)) λ _.
        InRange-bind (cut format i (i + 2)) _
          (cut-InRange format i (i + 2) (omega arith) (omega arith))
          λ flag_go.
            InRange-bind (cut format (i + 2) j) _ (cut-InRange format (i + 2) j h (omega arith))
              λ _.
                InRange-bind (cut format j (j + 4)) _ (cut-InRange format j (j + 4) (omega arith) k)
                  λ flag_zero.
                    InRange-bind (cut format (j + 4) (length format)) _
                      (cut-InRange format (j + 4) (length format) k (omega arith))
                      λ _.
                        InRange-bind (get_style to_upper to_lower to_title flag_go) _
                          (get_style-InRange flag_go)
                          λ _.
                            InRange-bind (get_style to_upper to_lower to_title flag_zero) _
                              (get_style-InRange flag_zero) λ _. tt

  file_naming_format-by_index :
      (format content : Text) (o q : Option ℕ)
      → length (to_upper format) ≤ length format
      → index_of (codes "GO") (to_upper format) ≡ o
      → index_of (codes "ZERO") (to_upper format) ≡ q
      → InRange (file_naming_format to_upper to_lower to_title format content)
  unfolding file_naming_format
  file_naming_format-by_index format content none q l e f = rw (e, file_naming_format) tt
  file_naming_format-by_index format content (some i) none l e f =
      rw (e, file_naming_format) (rw f tt)
  file_naming_format-by_index format content (some i) (some j) l e f =
      let (a, r, ea, la) = index_of-split (codes "GO") (to_upper format) i e in
      let (b, s, eb, lb) = index_of-split (codes "ZERO") (to_upper format) j f in
      elim (Bool-cases (ltb j i)) [
        | inl less ↦ rw (e, file_naming_format) (rw (f, less) tt)
        | inr more ↦
            let g : i ≤ j = ground arith in
            let far = gap a b r s (sym ea ∙ eb) (omega arith) in
            let whole = length-append b (codes "ZERO" ++ s) in
            let total = ap length eb in
            rw (e, file_naming_format)
              (rw (f, more) (format_at-InRange format content i j (omega arith) (omega arith)))
      ]

  -- On a format whose upper case has no more bytes than the format, `FileNamingFormat` does not
  -- panic: the offsets of `GO` and `ZERO` do not overlap and lie in the format.
  pub file_naming_format-InRange :
      (format content : Text)
      → length (to_upper format) ≤ length format
      → InRange (file_naming_format to_upper to_lower to_title format content)
  file_naming_format-InRange format content l =
      file_naming_format-by_index format content _ _ l refl refl
