-- ===== src/Scanner/NextToken.antt =====
-- `NextToken` of pkg/parser/api/scanner/scanner.go: the token of a call.
use goctl.Base.{
  ℕ, ◌+◌, ◌≡◌, ◌≢◌, inl, inr, refl, Bool, true, false, not, ◌&&◌, Option, none, some, ◌==◌,
  if◌then◌else◌, arith, Bool-cases,
}
use goctl.Scanner.State.{
  Scanner, is_letter, read_rune, peek_rune, new_token, position_at, skip_white_space, rounds,
}
use goctl.Scanner.AtWord.{scan_at-Outcome, scan_ellipsis-Outcome, scan_dot_one, scan_dot_two}
use goctl.Scanner.Loops.{Outcome, OutcomeHere, scan_string-Outcome, scan_document-Outcome}
use goctl.Scanner.Next.{scan_slash, scan_dot, punctuation, scan_other, scan_token, next_token}
use goctl.Scanner.Quoted.{Scan, ok, done, scan_at}
use goctl.Scanner.Skip.{skip_white_space-Skips}
use goctl.Scanner.Valid.{IsValid, IsWithin, ch-lt, IsLexeme-illegal_token, position-read_rune}
use goctl.Scanner.WordLexeme.{
  scan_ident-Lexes, scan_line_comment-Lexes, scan_int-Lexes, new_token-Lexes,
}
use goctl.Token.Defs.{eof_token, new_illegal_token}
use goctl.Token.Kind.{TokenType, quo, string, raw_string}

-- A `@` with nothing behind it.
pub record IsLoneAt (s : Scanner) : Type 0 where
  pub at : s.ch ≡ b'@'
  pub last : peek_rune s ≡ 0

-- Where the token starts: of two dots that are not followed by a third the first is dropped.
abbrev pub token_start : Scanner → ℕ
token_start s =
    if s.ch == b'.' && peek_rune s == b'.' && not (peek_rune (read_rune s) == b'.')
    then s.position + 1
    else s.position

module _ {s : Scanner} (v : IsValid s) (z : s.ch ≢ 0) where
  at_start : IsWithin s s.position s
  at_start = record {
    valid = v;
    same = record { filename = refl; size = refl; runes = refl; lines = refl };
    behind = omega arith;
    inside = omega (arith, ch-lt v z);
  }

  scan_slash-Outcome : s.ch ≡ b'/' → OutcomeHere s s (scan_slash s)
  unfolding scan_slash
  scan_slash-Outcome h = ground (
    arith,
    scan_line_comment-Lexes at_start h,
    scan_document-Outcome at_start,
    new_token-Lexes at_start quo z,
  )

  scan_other-Outcome : OutcomeHere s s (scan_other s)
  unfolding scan_other
  scan_other-Outcome =
      ground
        (arith, scan_ident-Lexes at_start, scan_int-Lexes at_start, IsLexeme-illegal_token at_start)

  scan_dot-Outcome : s.ch ≡ b'.' → Outcome s (token_start s) (scan_dot s)
  scan_dot-Outcome h = ground (
    arith,
    scan_dot_one at_start h,
    scan_dot_two at_start h,
    scan_ellipsis-Outcome at_start h,
    v.next,
    position-read_rune v,
  )

  -- Away from a dot the token starts where the scanner stands.
  start_here : (r : Scan) → s.ch ≢ b'.' → OutcomeHere s s r → Outcome s (token_start s) r
  start_here r h o = elim (Bool-cases (s.ch == b'.')) [
    | inl e ↦ absurd (h (ground arith))
    | inr e ↦ rw e o
  ]

Outcome-if :
    (s : Scanner) (k : ℕ) (p q : Scan) (b : Bool)
    → (b ≡ true → Outcome s k p)
    → (b ≡ false → Outcome s k q)
    → Outcome s k (if b then p else q)
Outcome-if s k p q true yes_case no_case = yes_case refl
Outcome-if s k p q false yes_case no_case = no_case refl

Outcome-option :
    (s : Scanner) (k : ℕ) (f : TokenType → Scan) (q : Scan) (o : Option TokenType)
    → ((tp : TokenType) → Outcome s k (f tp))
    → Outcome s k q
    → Outcome s k (elim o [ some tp ↦ f tp | none ↦ q ])
Outcome-option s k f q (some tp) some_case none_case = some_case tp
Outcome-option s k f q none some_case none_case = none_case

module _ {s : Scanner} (v : IsValid s) (z : s.ch ≢ 0) where
  scan_token-Outcome : ¬ IsLoneAt s → Outcome s (token_start s) (scan_token s)
  unfolding scan_token
  scan_token-Outcome lone =
      let w = at_start v z in
      Outcome-if s (token_start s) _ _ (s.ch == b'/')
        (λ e. start_here v z _ (ground arith) (scan_slash-Outcome v z (ground arith)))
        λ _.
          Outcome-if s (token_start s) _ _ (s.ch == b'.') (λ e. scan_dot-Outcome v z (ground arith))
            λ d.
              let here = λ (r : Scan) (o : OutcomeHere s s r). start_here v z r (ground arith) o in
              Outcome-if s (token_start s) _ _ (s.ch == b'@')
                (λ e. here _ (
                  scan_at-Outcome w (ground arith)
                    (λ p. lone (record { at = ground arith; last = p }))))
                λ _.
                  Outcome-if s (token_start s) _ _ (s.ch == b'"')
                    (λ _. here _ (scan_string-Outcome w b'"' string (ground arith)))
                    λ _.
                      Outcome-if s (token_start s) _ _ (s.ch == b'`')
                        (λ _. here _ (scan_string-Outcome w b'`' raw_string (ground arith)))
                        λ _.
                          Outcome-if s (token_start s) _ _ (s.ch == 0)
                            (λ e. absurd (z (ground arith)))
                            λ _.
                              Outcome-option s (token_start s) (λ tp. done (new_token tp s)) _
                                (punctuation s.ch)
                                (λ tp. here (done (new_token tp s)) (new_token-Lexes w tp z))
                                (here _ (scan_other-Outcome v z))

-- From a valid scanner that behind the blanks is neither at the end of the input nor at a lone `@`,
-- a call of `NextToken` returns an error, with the scanner valid, on the same input and lines and
-- not before the start of the token, or a token that starts where the blanks end (behind the first
-- of two dots with no third) and ends where the scanner then stands: unless it is illegal, its text
-- is the input between these places and its position is that of its start. The scanner stays valid,
-- on the same input and lines, and has moved behind the start of the token.
pub next_token-Outcome :
    (s : Scanner)
    → IsValid s
    → (skip_white_space (rounds s) s).ch ≢ 0
    → ¬ IsLoneAt (skip_white_space (rounds s) s)
    → Outcome
        (skip_white_space (rounds s) s)
        (token_start (skip_white_space (rounds s) s))
        (next_token s)
unfolding next_token
next_token-Outcome s v z lone =
    scan_token-Outcome (skip_white_space-Skips (rounds s) s v).valid z lone

-- At the end of the input, or at a NUL, every call returns the end-of-file token.
pub next_token-eof :
    (s : Scanner)
    → (skip_white_space (rounds s) s).ch ≡ 0
    → next_token s ≡ ok eof_token (skip_white_space (rounds s) s)
unfolding next_token scan_token
next_token-eof s h = rw (h, scan_token)

scan_token-lone_at :
    (t : Scanner) → IsLoneAt t → scan_token t ≡ ok (new_illegal_token b'@' (position_at t)) t
unfolding scan_token scan_at is_letter
scan_token-lone_at t h = simp (h.at, scan_token) (simp (h.last, scan_at))

-- A lone `@` is an illegal token that the scanner does not leave.
pub next_token-lone_at :
    (s : Scanner)
    → IsLoneAt (skip_white_space (rounds s) s)
    → let t = skip_white_space (rounds s) s in
      next_token s ≡ ok (new_illegal_token b'@' (position_at t)) t
unfolding next_token
next_token-lone_at s h = scan_token-lone_at _ h
