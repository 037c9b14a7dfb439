-- ===== src/Scanner/Lexeme.antt =====
-- Durations of pkg/parser/api/scanner/scanner.go: the token that each of the functions makes.
use goctl.Base.{ℕ, suc, ◌≡◌, ◌≢◌, refl, Bool, true, false, not, ◌||◌, ◌==◌, if◌then◌else◌, arith}
use goctl.Scanner.State.{Scanner, is_digit, read_rune, illegal_token, rounds}
use goctl.Scanner.Duration.{
  micro, skip_digits, scan_nanosecond, scan_microsecond, scan_millisecond, scan_millisecond_of,
  scan_second, scan_minute, scan_millisecond_or_minute, scan_hour, scan_duration,
}
use goctl.Scanner.Valid.{
  IsWithin, IsLexeme, IsWithin-read_rune, IsWithin-read_while, IsLexeme-token_from,
  IsLexeme-illegal_token,
}
use goctl.Token.Defs.{Token}
use goctl.Token.Kind.{duration}

abbrev pub Lexes : Scanner → ℕ → Token × Scanner → Type 0
Lexes s0 bg (t, s) = IsLexeme s0 bg t s

module _ {s0 : Scanner} {bg : ℕ} where
  IsWithin-skip_digits : {s : Scanner} → IsWithin s0 bg s → IsWithin s0 bg (skip_digits s)
  unfolding is_digit
  IsWithin-skip_digits {s} w = IsWithin-read_while is_digit (rounds s) refl w

module _ {s0 : Scanner} {bg : ℕ} where
  pub IsLexeme-if :
      (b : Bool) {p q : Token × Scanner}
      → (b ≡ true → Lexes s0 bg p)
      → (b ≡ false → Lexes s0 bg q)
      → Lexes s0 bg (if b then p else q)
  IsLexeme-if true h k = h refl
  IsLexeme-if false h k = k refl

  pub IsWithin-weaken : {s : Scanner} → IsWithin s0 (suc bg) s → IsWithin s0 bg s
  IsWithin-weaken w = record {
    valid = w.valid;
    same = w.same;
    behind = omega (arith, w.behind);
    inside = w.inside;
  }

  IsLexeme-illegal : {s : Scanner} → IsWithin s0 (suc bg) s → Lexes s0 bg (illegal_token s)
  IsLexeme-illegal w = IsLexeme-illegal_token (IsWithin-weaken w)

  scan_nanosecond-Lexes :
      {s : Scanner} → IsWithin s0 (suc bg) s → s.ch ≢ 0 → Lexes s0 bg (scan_nanosecond bg s)
  unfolding scan_nanosecond
  scan_nanosecond-Lexes {s} w h =
      let w1 = IsWithin-read_rune w h in
      IsLexeme-if (not ((read_rune s).ch == b's')) (λ _. IsLexeme-illegal w1)
        (λ e. IsLexeme-token_from duration (IsWithin-read_rune w1 (ground arith)))

  scan_microsecond-Lexes :
      {s : Scanner} → IsWithin s0 (suc bg) s → s.ch ≢ 0 → Lexes s0 bg (scan_microsecond bg s)
  unfolding scan_microsecond
  scan_microsecond-Lexes {s} w h =
      let w1 = IsWithin-read_rune w h in
      IsLexeme-if (not ((read_rune s).ch == b's')) (λ _. IsLexeme-illegal w1)
        λ e.
          let w2 = IsWithin-read_rune w1 (ground arith) in
          IsLexeme-if (not (is_digit (read_rune (read_rune s)).ch))
            (λ _. IsLexeme-token_from duration w2)
            λ _.
              let w3 = IsWithin-skip_digits w2 in
              IsLexeme-if (not ((skip_digits (read_rune (read_rune s))).ch == b'n'))
                (λ _. IsLexeme-illegal w3) λ e. scan_nanosecond-Lexes w3 (ground arith)

  scan_millisecond-Lexes :
      {s : Scanner} → IsWithin s0 (suc bg) s → s.ch ≢ 0 → Lexes s0 bg (scan_millisecond bg s)
  unfolding scan_millisecond
  scan_millisecond-Lexes {s} w h =
      let w1 = IsWithin-read_rune w h in
      IsLexeme-if (not (is_digit (read_rune s).ch)) (λ _. IsLexeme-token_from duration w1)
        λ _.
          let w2 = IsWithin-skip_digits w1 in
          let c = (skip_digits (read_rune s)).ch in
          IsLexeme-if (c == b'n') (λ e. scan_nanosecond-Lexes w2 (ground arith))
            λ _.
              IsLexeme-if (c == micro) (λ e. scan_microsecond-Lexes w2 (ground arith))
                λ _. IsLexeme-illegal w2

  scan_millisecond_of-Lexes :
      {s : Scanner} → IsWithin s0 (suc bg) s → s.ch ≢ 0 → Lexes s0 bg (scan_millisecond_of bg s)
  unfolding scan_millisecond_of
  scan_millisecond_of-Lexes {s} w h =
      let w1 = IsWithin-read_rune w h in
      IsLexeme-if (not ((read_rune s).ch == b's')) (λ _. IsLexeme-illegal w1)
        λ e. scan_millisecond-Lexes w1 (ground arith)

  -- Behind the digits of a second.
  scan_second-Lexes :
      {s : Scanner} → IsWithin s0 (suc bg) s → s.ch ≢ 0 → Lexes s0 bg (scan_second bg s)
  unfolding scan_second
  scan_second-Lexes {s} w h =
      let w1 = IsWithin-read_rune w h in
      IsLexeme-if (not (is_digit (read_rune s).ch)) (λ _. IsLexeme-token_from duration w1)
        λ _.
          let w2 = IsWithin-skip_digits w1 in
          let c = (skip_digits (read_rune s)).ch in
          IsLexeme-if (c == b'n') (λ e. scan_nanosecond-Lexes w2 (ground arith))
            λ _.
              IsLexeme-if (c == micro) (λ e. scan_microsecond-Lexes w2 (ground arith))
                λ _.
                  IsLexeme-if (c == b'm') (λ e. scan_millisecond_of-Lexes w2 (ground arith))
                    λ _. IsLexeme-illegal w2

  scan_minute-Lexes : {s : Scanner} → IsWithin s0 (suc bg) s → Lexes s0 bg (scan_minute bg s)
  unfolding scan_minute
  scan_minute-Lexes {s} w =
      IsLexeme-if (not (is_digit s.ch)) (λ _. IsLexeme-token_from duration w)
        λ _.
          let w2 = IsWithin-skip_digits w in
          let c = (skip_digits s).ch in
          IsLexeme-if (c == b'n') (λ e. scan_nanosecond-Lexes w2 (ground arith))
            λ _.
              IsLexeme-if (c == micro) (λ e. scan_microsecond-Lexes w2 (ground arith))
                λ _.
                  IsLexeme-if (c == b'm') (λ e. scan_millisecond_of-Lexes w2 (ground arith))
                    λ _.
                      IsLexeme-if (c == b's') (λ e. scan_second-Lexes w2 (ground arith))
                        λ _. IsLexeme-illegal w2

  scan_millisecond_or_minute-Lexes :
      {s : Scanner}
      → IsWithin s0 (suc bg) s
      → s.ch ≢ 0
      → Lexes s0 bg (scan_millisecond_or_minute bg s)
  unfolding scan_millisecond_or_minute
  scan_millisecond_or_minute-Lexes {s} w h =
      let w1 = IsWithin-read_rune w h in
      let c = (read_rune s).ch in
      IsLexeme-if (not (c == b's'))
        (λ _.
          IsLexeme-if (c == 0 || not (is_digit c)) (λ _. IsLexeme-token_from duration w1)
            (λ _. scan_minute-Lexes w1))
        (λ e. scan_millisecond-Lexes w1 (ground arith))

  scan_hour-Lexes : {s : Scanner} → IsWithin s0 (suc bg) s → s.ch ≢ 0 → Lexes s0 bg (scan_hour bg s)
  unfolding scan_hour
  scan_hour-Lexes {s} w h =
      let w1 = IsWithin-read_rune w h in
      IsLexeme-if (not (is_digit (read_rune s).ch)) (λ _. IsLexeme-token_from duration w1)
        λ _.
          let w2 = IsWithin-skip_digits w1 in
          let c = (skip_digits (read_rune s)).ch in
          IsLexeme-if (c == b'n') (λ e. scan_nanosecond-Lexes w2 (ground arith))
            λ _.
              IsLexeme-if (c == micro) (λ e. scan_microsecond-Lexes w2 (ground arith))
                λ _.
                  IsLexeme-if (c == b'm') (λ e. scan_millisecond_or_minute-Lexes w2 (ground arith))
                    λ _.
                      IsLexeme-if (c == b's') (λ e. scan_second-Lexes w2 (ground arith))
                        λ _. IsLexeme-illegal w2

  pub scan_duration-Lexes :
      {s : Scanner} → IsWithin s0 (suc bg) s → Lexes s0 bg (scan_duration bg s)
  unfolding scan_duration
  scan_duration-Lexes {s} w =
      IsLexeme-if (s.ch == b'n') (λ e. scan_nanosecond-Lexes w (ground arith))
        λ _.
          IsLexeme-if (s.ch == micro) (λ e. scan_microsecond-Lexes w (ground arith))
            λ _.
              IsLexeme-if (s.ch == b'm') (λ e. scan_millisecond_or_minute-Lexes w (ground arith))
                λ _.
                  IsLexeme-if (s.ch == b's') (λ e. scan_second-Lexes w (ground arith))
                    λ _.
                      IsLexeme-if (s.ch == b'h') (λ e. scan_hour-Lexes w (ground arith))
                        λ _. IsLexeme-illegal w
