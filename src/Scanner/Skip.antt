-- ===== src/Scanner/Skip.antt =====
-- `skipWhiteSpace` of pkg/parser/api/scanner/scanner.go: what it skips, and the lines it counts.
use goctl.Base.{
  ℕ, zero, suc, ◌+◌, ◌≤◌, ◌<◌, ◌≡◌, ◌≢◌, inl, inr, refl, ◌∙◌, true, false, [], ◌∷◌, Text, ◌==◌,
  if◌then◌else◌, arith, Bool-cases, length, slice, slice-eq-cons, slice_self, get_or-beyond,
  last_or-concat, length-append,
}
use goctl.Scanner.State.{Scanner, is_white_space, note_line, read_rune, skip_white_space, rounds}
use goctl.Scanner.Valid.{IsValid, ch-lt}

-- The newlines of a text.
abbrev pub newlines : Text → ℕ
newlines [] = 0
newlines (c ∷ cs) = (if c == b'\n' then 1 else 0) + newlines cs

abbrev pub IsBlank : Text → Type 0
IsBlank [] = Unit
IsBlank (c ∷ cs) = (is_white_space c ≡ true) × IsBlank cs

-- `t` is `s` behind a run of blanks.
pub record Skips (s t : Scanner) : Type 0 where
  pub valid : IsValid t
  pub filename : t.filename ≡ s.filename
  pub size : t.size ≡ s.size
  pub runes : t.runes ≡ s.runes
  pub behind : s.position ≤ t.position
  pub blank : IsBlank (slice s.runes s.position t.position)
  pub lines : length t.lines ≡ length s.lines + newlines (slice s.runes s.position t.position)

skip_one :
    {s : Scanner} → IsValid s → is_white_space s.ch ≡ true → IsValid (read_rune (note_line s))
unfolding read_rune note_line is_white_space
skip_one {s} v h = ground (
  arith,
  ch-lt v,
  last_or-concat s.lines (s.position + 1) 0,
  length-append s.lines ((s.position + 1) ∷ []),
  get_or-beyond s.runes s.read_position 0,
)

module _ {s : Scanner} (v : IsValid s) where
  skip_one-Skips :
      (t : Scanner) → is_white_space s.ch ≡ true → Skips (read_rune (note_line s)) t → Skips s t
  unfolding read_rune note_line
  skip_one-Skips t h k =
      let z : s.ch ≢ 0 = unfold is_white_space in ground arith in
      let e : slice s.runes s.position t.position
          ≡ s.ch ∷ slice s.runes s.read_position t.position =
        slice-eq-cons s.runes s.position t.position 0 (omega (arith, ch-lt v z, v.sized))
          (omega (arith, k.behind, v.next))
        ∙ rw (v.current, v.next) in
      record {
        valid = k.valid;
        filename = k.filename;
        size = k.size;
        runes = k.runes;
        behind = omega (arith, k.behind, v.next);
        blank = rw e (h, k.blank);
        lines = rw e (ground (arith, k.lines, length-append s.lines ((s.position + 1) ∷ [])));
      }

  Skips-refl : Skips s s
  Skips-refl =
      let e = slice_self s.runes s.position in
      record {
        valid = v;
        filename = refl;
        size = refl;
        runes = refl;
        behind = omega arith;
        blank = rw e tt;
        lines = rw e (omega arith);
      }

  pub note_line_none : is_white_space s.ch ≡ false → note_line s ≡ s
  unfolding note_line is_white_space
  note_line_none h = ground arith

-- What is skipped is blank, and a line is counted for each newline in it.
pub skip_white_space-Skips : (n : ℕ) (s : Scanner) → IsValid s → Skips s (skip_white_space n s)
unfolding skip_white_space
skip_white_space-Skips zero s v = Skips-refl v
skip_white_space-Skips (suc n) s v = elim (Bool-cases (is_white_space s.ch)) [
  | inl e ↦
      rw (e, skip_white_space)
        (skip_one-Skips v _ e (skip_white_space-Skips n (read_rune (note_line s)) (skip_one v e)))
  | inr e ↦ rw (e, skip_white_space) (rw (note_line_none v e) (Skips-refl v))
]

-- The loop ends on a rune that is not blank.
skip_white_space_stops :
    (n : ℕ) (s : Scanner)
    → IsValid s
    → s.size < n + s.position
    → is_white_space (skip_white_space n s).ch ≡ false
unfolding skip_white_space
skip_white_space_stops zero s v h =
    unfold is_white_space in ground (arith, get_or-beyond s.runes s.position 0)
skip_white_space_stops (suc n) s v h = elim (Bool-cases (is_white_space s.ch)) [
  | inl e ↦
      rw (e, skip_white_space)
        (skip_white_space_stops n (read_rune (note_line s)) (skip_one v e)
          (unfold read_rune note_line in omega (arith, v.next)))
  | inr e ↦ rw (e, skip_white_space) e
]

-- From a valid scanner, in the rounds it is given, `skipWhiteSpace` leads to a valid scanner on the
-- same input that does not stand on a blank: what lies between the two is blank, and as many lines
-- are added as there are newlines in it.
pub skip_white_space_lem :
    (s : Scanner)
    → IsValid s
    → Skips s (skip_white_space (rounds s) s)
      × (is_white_space (skip_white_space (rounds s) s).ch ≡ false)
skip_white_space_lem s v =
    (skip_white_space-Skips (rounds s) s v, skip_white_space_stops (rounds s) s v (omega arith))
