-- ===== src/Scanner/Loops.antt =====
-- The loops over strings and documents of pkg/parser/api/scanner/scanner.go.
use goctl.Base.{ℕ, zero, suc, ◌+◌, ◌≤◌, ◌<◌, ◌≡◌, ◌≢◌, refl, arith}
use goctl.Scanner.State.{Scanner, read_rune, token_from}
use goctl.Scanner.Quoted.{
  Scan, ok, err, diverged, Mode, init_mode, document_half_open, document_open, document_half_close,
  document_close, string_open, string_close, Round, again, return, scan_loop, string_round,
  scan_string, document_round, scan_document,
}
use goctl.Scanner.Valid.{
  IsValid, SameInput, IsWithin, IsLexeme, IsWithin-read_rune, IsWithin-begin, IsLexeme-token_from,
}
use goctl.Token.Kind.{TokenType, document}

-- A call from `s0` on a token that starts at `bg`.
abbrev pub Outcome : Scanner → ℕ → Scan → Type 0
Outcome s0 bg (ok t s) = IsLexeme s0 bg t s
Outcome s0 bg (err e s) = IsValid s × SameInput s0 s × (bg ≤ s.position)
Outcome s0 bg diverged = ⊥

module _ (round : Mode → Scanner → Round) (Inv : Mode → Type 0) (s0 : Scanner) (bg : ℕ) where
  -- What a round must do: keep the mode's invariant and have a rune to read, or return an outcome.
  abbrev IsGood : Scanner → Round → Type 0
  IsGood s (again m) = Inv m × (s.ch ≢ 0)
  IsGood s (return r) = Outcome s0 bg r

  scan_loop_step :
      (n : ℕ) (m : Mode) (s : Scanner) (r : Round)
      → round m s ≡ r
      → IsGood s r
      → ((m' : Mode) → Inv m' → s.ch ≢ 0 → Outcome s0 bg (scan_loop round n m' (read_rune s)))
      → Outcome s0 bg (scan_loop round (suc n) m s)
  unfolding scan_loop
  scan_loop_step n m s (again m') e g next = rw (e, scan_loop) (next m' g.0 g.1)
  scan_loop_step n m s (return r) e g next = rw (e, scan_loop) g

  scan_loop-Outcome :
      ((m : Mode) (s : Scanner) → IsWithin s0 bg s → Inv m → IsGood s (round m s))
      → (n : ℕ) (m : Mode) (s : Scanner) → IsWithin s0 bg s
      → Inv m
      → s.size < n + s.position
      → Outcome s0 bg (scan_loop round n m s)
  scan_loop-Outcome good zero m s w i h = absurd (omega (arith, w.inside))
  scan_loop-Outcome good (suc n) m s w i h =
      scan_loop_step n m s (round m s) refl (good m s w i) λ m' i' z.
        scan_loop-Outcome good n m' (read_rune s) (IsWithin-read_rune w z) i'
          (unfold read_rune in omega (arith, w.valid.next))

abbrev StringInv : Mode → Type 0
StringInv init_mode = Unit
StringInv string_open = Unit
StringInv _ = ⊥

abbrev DocumentInv : Mode → Type 0
DocumentInv init_mode = Unit
DocumentInv document_half_open = Unit
DocumentInv document_open = Unit
DocumentInv document_half_close = Unit
DocumentInv _ = ⊥

module _ {s0 : Scanner} {bg : ℕ} where
  close-Outcome :
      (tp : TokenType) {s : Scanner}
      → IsWithin s0 bg s
      → s.ch ≢ 0
      → Outcome s0 bg (ok (token_from tp bg (read_rune s)) (read_rune s))
  close-Outcome tp w z = IsLexeme-token_from tp (IsWithin-begin w z)

  string_round-IsGood :
      (delim : ℕ) (tp : TokenType)
      → delim ≢ 0
      → (m : Mode) (s : Scanner) → IsWithin s0 bg s
      → StringInv m
      → IsGood (string_round delim tp bg) StringInv s0 bg s (string_round delim tp bg m s)
  unfolding string_round
  string_round-IsGood delim tp d init_mode s w i = ground arith
  string_round-IsGood delim tp d string_open s w i = ground (arith, close-Outcome tp w)
  string_round-IsGood delim tp d string_close s w i = absurd i
  string_round-IsGood delim tp d document_half_open s w i = absurd i
  string_round-IsGood delim tp d document_open s w i = absurd i
  string_round-IsGood delim tp d document_half_close s w i = absurd i
  string_round-IsGood delim tp d document_close s w i = absurd i

  document_round-IsGood :
      (m : Mode) (s : Scanner)
      → IsWithin s0 bg s
      → DocumentInv m
      → IsGood (document_round bg) DocumentInv s0 bg s (document_round bg m s)
  unfolding document_round
  document_round-IsGood init_mode s w i = ground arith
  document_round-IsGood document_half_open s w i = ground arith
  document_round-IsGood document_open s w i = ground arith
  document_round-IsGood document_half_close s w i = ground (arith, close-Outcome document w)
  document_round-IsGood document_close s w i = absurd i
  document_round-IsGood string_open s w i = absurd i
  document_round-IsGood string_close s w i = absurd i

abbrev pub OutcomeHere : Scanner → Scanner → Scan → Type 0
OutcomeHere s0 s r = Outcome s0 s.position r

module _ {s0 s : Scanner} (w : IsWithin s0 s.position s) where
  pub scan_string-Outcome :
      (delim : ℕ) (tp : TokenType) → delim ≢ 0 → OutcomeHere s0 s (scan_string delim tp s)
  unfolding scan_string
  scan_string-Outcome delim tp d =
      scan_loop-Outcome (string_round delim tp s.position) StringInv s0 s.position
        (string_round-IsGood delim tp d) (suc (suc s.size)) init_mode s w tt (omega arith)

  pub scan_document-Outcome : OutcomeHere s0 s (scan_document s)
  unfolding scan_document
  scan_document-Outcome =
      scan_loop-Outcome (document_round s.position) DocumentInv s0 s.position document_round-IsGood
        (suc (suc s.size)) init_mode s w tt (omega arith)
