-- ===== src/Scanner/AtWord.antt =====
-- The words behind `@` and the ellipsis of pkg/parser/api/scanner/scanner.go.
use goctl.Base.{
  ℕ, suc, ◌<◌, ◌≡◌, ◌≢◌, inl, inr, refl, ◌∙◌, ap, [], ◌∷◌, Text, codes, ◌==◌, arith, Bool-cases,
  text_eq_iff, slice, slice-eq-cons, slice_self,
}
use goctl.Scanner.State.{Scanner, is_letter, read_rune, peek_rune, new_position, read_while, rounds}
use goctl.Scanner.Loops.{Outcome, OutcomeHere}
use goctl.Scanner.Next.{scan_dot}
use goctl.Scanner.Quoted.{at_word, scan_at}
use goctl.Scanner.Valid.{
  IsWithin, ch-lt, ch-read_rune, IsWithin-read_rune, IsWithin-begin, IsWithin-read_while,
}
use goctl.Scanner.WordLexeme.{new_token-Lexes}
use goctl.Scanner.Words.{scan_letter_set}
use goctl.Token.Kind.{dot}

module _ {s0 : Scanner} {bg : ℕ} where
  at_word-Outcome :
      (letters : Text) {s : Scanner}
      → IsWithin s0 (suc bg) s
      → slice s0.runes bg s.position ≡ b'@' ∷ letters
      → Outcome s0 bg (at_word bg letters s)
  unfolding at_word new_position
  at_word-Outcome letters {s} w e = ground (
    arith,
    text_eq_iff letters (codes "handler"),
    text_eq_iff letters (codes "server"),
    text_eq_iff letters (codes "doc"),
  )

module _ {s0 s : Scanner} (w : IsWithin s0 s.position s) where
  -- The text from here is the current rune and the text behind it.
  slice_here :
      (hi : ℕ)
      → s.ch ≢ 0
      → s.position < hi
      → slice s0.runes s.position hi ≡ s.ch ∷ slice s0.runes (read_rune s).position hi
  unfolding read_rune
  slice_here hi z l = rw (← w.same.runes) (
      slice-eq-cons s.runes s.position hi 0 (omega (arith, ch-lt w.valid z, w.valid.sized)) l
      ∙ rw (w.valid.current, w.valid.next))

  pub scan_at-Outcome : s.ch ≡ b'@' → peek_rune s ≢ 0 → OutcomeHere s0 s (scan_at s)
  unfolding scan_at scan_letter_set is_letter
  scan_at-Outcome h p =
      let w1 = IsWithin-begin w (ground arith) in
      let w2 = IsWithin-read_while is_letter (rounds (read_rune s)) refl w1 in
      let e =
        slice_here (read_while is_letter (rounds (read_rune s)) (read_rune s)).position
          (ground arith) w2.behind in
      elim (Bool-cases (is_letter (peek_rune s))) [
        | inl l ↦ rw l (at_word-Outcome _ w2 (rw (w2.same.runes, ← h) e))
        | inr l ↦ rw l (ground arith)
      ]

here : {s0 : Scanner} {bg : ℕ} {s : Scanner} → IsWithin s0 bg s → IsWithin s0 s.position s
here w = record { valid = w.valid; same = w.same; behind = omega arith; inside = w.inside }

-- Three runes that are not NUL are the text up to the state behind them.
slice_three :
    {s0 s : Scanner}
    → IsWithin s0 s.position s
    → s.ch ≢ 0
    → (read_rune s).ch ≢ 0
    → (read_rune (read_rune s)).ch ≢ 0
    → slice s0.runes s.position (read_rune (read_rune (read_rune s))).position
      ≡ s.ch ∷ (read_rune s).ch ∷ (read_rune (read_rune s)).ch ∷ []
slice_three {s0} {s} w a b c =
    let w1 = here (IsWithin-read_rune w a) in
    let w2 = here (IsWithin-read_rune w1 b) in
    let end = (read_rune (read_rune (read_rune s))).position in
    let l2 = (IsWithin-begin w2 c).behind in
    let l1 = (IsWithin-begin w1 b).behind in
    let l0 = (IsWithin-begin w a).behind in
    slice_here w end a (omega arith)
    ∙ ap (◌∷◌ s.ch) (
        slice_here w1 end b (omega arith)
        ∙ ap (◌∷◌ (read_rune s).ch) (
            slice_here w2 end c l2
            ∙ ap (◌∷◌ (read_rune (read_rune s)).ch) (slice_self s0.runes end)))

module _ {s0 s : Scanner} (w : IsWithin s0 s.position s) where
  pub scan_ellipsis-Outcome :
      s.ch ≡ b'.'
      → peek_rune s ≡ b'.'
      → peek_rune (read_rune s) ≡ b'.'
      → OutcomeHere s0 s (scan_dot s)
  unfolding scan_dot new_position
  scan_ellipsis-Outcome h p q =
      let c1 = ch-read_rune s ∙ p in
      let c2 = ch-read_rune (read_rune s) ∙ q in
      let w1 = IsWithin-begin w (ground arith) in
      let w2 = IsWithin-read_rune w1 (ground arith) in
      let w3 = IsWithin-read_rune w2 (ground arith) in
      let text = slice_three w (ground arith) (ground arith) (ground arith) in
      rw (p, q) (ground arith)

  -- A single dot.
  pub scan_dot_one : s.ch ≡ b'.' → peek_rune s ≢ b'.' → OutcomeHere s0 s (scan_dot s)
  unfolding scan_dot
  scan_dot_one h p = elim (Bool-cases (peek_rune s == b'.')) [
    | inl e ↦ absurd (p (ground arith))
    | inr e ↦ rw e (new_token-Lexes w dot (ground arith))
  ]

  -- Two dots: the token is the second.
  pub scan_dot_two :
      s.ch ≡ b'.'
      → peek_rune s ≡ b'.'
      → peek_rune (read_rune s) ≢ b'.'
      → Outcome s0 (read_rune s).position (scan_dot s)
  unfolding scan_dot
  scan_dot_two h p q = elim (Bool-cases (peek_rune (read_rune s) == b'.')) [
    | inl e ↦ absurd (q (ground arith))
    | inr e ↦
        rw (p, e)
          (new_token-Lexes (here (IsWithin-read_rune w (ground arith))) dot
            (ground (arith, ch-read_rune s)))
  ]
