-- ===== src/Scanner/WordLexeme.antt =====
-- Comments, names, numbers and tokens of one rune of
-- pkg/parser/api/scanner/scanner.go.
use goctl.Base.{
  ℕ, suc, ◌+◌, ◌≡◌, ◌≢◌, refl, ◌∙◌, Bool, true, false, [], ◌∷◌, ◌==◌, arith, slice, slice-eq-cons,
  slice_self,
}
use goctl.Scanner.State.{
  Scanner, is_digit, is_identifier_letter, read_rune, new_position, new_token, read_while, rounds,
}
use goctl.Scanner.Duration.{skip_digits, is_unit, scan_int_or_duration}
use goctl.Scanner.Lexeme.{Lexes, IsLexeme-if, scan_duration-Lexes}
use goctl.Scanner.Valid.{
  IsWithin, ch-lt, ch-read_rune, IsWithin-read_rune, IsWithin-begin, IsWithin-read_while,
  IsLexeme-token_from,
}
use goctl.Scanner.Words.{is_ident_rune, in_line, end_ident, scan_ident, scan_line_comment}
use goctl.Token.Defs.{Token}
use goctl.Token.Kind.{TokenType, int, ident, key, any, comment}

module _ {s0 : Scanner} {bg : ℕ} where
  -- The loop reads its first rune, and goes on.
  IsWithin-read_while_first :
      (test : ℕ → Bool) {s : Scanner}
      → test 0 ≡ false
      → IsWithin s0 bg s
      → test s.ch ≡ true
      → IsWithin s0 (suc bg) (read_while test (rounds s) s)
  unfolding read_while
  IsWithin-read_while_first test {s} z w h =
      rw (h, read_while)
        (IsWithin-read_while test s.size z (IsWithin-begin w (λ e0. ground (arith, rw e0 at h))))

module _ {s0 : Scanner} {bg : ℕ} where
  end_ident-Lexes : {s : Scanner} → IsWithin s0 (suc bg) s → Lexes s0 bg (end_ident bg s)
  unfolding end_ident
  end_ident-Lexes {s} w =
      IsLexeme-if (s.ch == b':')
        (λ e. IsLexeme-token_from key (IsWithin-read_rune w (ground arith)))
        λ _.
          IsLexeme-if _
            (λ e. IsLexeme-token_from any (
              IsWithin-read_rune (IsWithin-read_rune w (ground arith))
                (ground (arith, ch-read_rune s))))
            λ _. IsLexeme-token_from ident w

-- The lexeme of a token that starts where the scanner stands.
abbrev pub LexesHere : Scanner → Scanner → Token × Scanner → Type 0
LexesHere s0 s r = Lexes s0 s.position r

module _ {s0 s : Scanner} (w : IsWithin s0 s.position s) where
  pub scan_ident-Lexes : is_identifier_letter s.ch ≡ true → LexesHere s0 s (scan_ident s)
  unfolding scan_ident is_ident_rune
  scan_ident-Lexes h =
      end_ident-Lexes (IsWithin-read_while_first is_ident_rune refl w (ground arith))

  pub scan_line_comment-Lexes : s.ch ≡ b'/' → LexesHere s0 s (scan_line_comment s)
  unfolding scan_line_comment in_line
  scan_line_comment-Lexes h =
      IsLexeme-token_from comment (IsWithin-read_while_first in_line refl w (ground arith))

  pub scan_int-Lexes : is_digit s.ch ≡ true → LexesHere s0 s (scan_int_or_duration s)
  unfolding scan_int_or_duration is_digit
  scan_int-Lexes h =
      let w' = IsWithin-read_while_first is_digit refl w h in
      IsLexeme-if (is_unit (skip_digits s).ch) (λ _. scan_duration-Lexes w')
        (λ _. IsLexeme-token_from int w')

  pub slice_one : s.ch ≢ 0 → slice s0.runes s.position (s.position + 1) ≡ s.ch ∷ []
  slice_one h = rw (← w.same.runes) (
      slice-eq-cons s.runes s.position (s.position + 1) 0
        (omega (arith, ch-lt w.valid h, w.valid.sized)) (omega arith)
      ∙ rw (slice_self s.runes (s.position + 1), w.valid.current))

  pub new_token-Lexes : (tp : TokenType) → s.ch ≢ 0 → LexesHere s0 s (new_token tp s)
  unfolding new_token read_rune new_position
  new_token-Lexes tp h =
      let w' = IsWithin-begin w h in
      record {
        valid = w'.valid;
        same = w'.same;
        moved = w'.behind;
        text = λ _. ground (arith, slice_one h);
        place = λ _. ground arith;
      }
