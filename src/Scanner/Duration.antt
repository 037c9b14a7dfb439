-- ===== src/Scanner/Duration.antt =====
-- Integers and durations of pkg/parser/api/scanner/scanner.go. `bg` is the position of the first
-- digit; each function starts at the unit's first letter, `scan_minute` behind it.
use goctl.Base.{ℕ, Bool, not, ◌||◌, ◌==◌, if◌then◌else◌}
use goctl.Scanner.State.{
  Scanner, is_digit, read_rune, token_from, illegal_token, read_while, rounds,
}
use goctl.Token.Defs.{Token}
use goctl.Token.Kind.{int, duration}

abbrev pub micro : ℕ
micro = 181

abbrev pub skip_digits : Scanner → Scanner
skip_digits s = read_while is_digit (rounds s) s

unfoldable pub scan_nanosecond : ℕ → Scanner → Token × Scanner
scan_nanosecond bg s0 =
    let s = read_rune s0 in
    if not (s.ch == b's')
    then illegal_token s
    else (token_from duration bg (read_rune s), read_rune s)

unfoldable pub scan_microsecond : ℕ → Scanner → Token × Scanner
scan_microsecond bg s0 =
    let s1 = read_rune s0 in
    let s2 = read_rune s1 in
    let s3 = skip_digits s2 in
    if not (s1.ch == b's')
    then illegal_token s1
    else if not (is_digit s2.ch)
    then (token_from duration bg s2, s2)
    else if not (s3.ch == b'n')
    then illegal_token s3
    else scan_nanosecond bg s3

unfoldable pub scan_millisecond : ℕ → Scanner → Token × Scanner
scan_millisecond bg s0 =
    let s1 = read_rune s0 in
    let s2 = skip_digits s1 in
    if not (is_digit s1.ch)
    then (token_from duration bg s1, s1)
    else if s2.ch == b'n'
    then scan_nanosecond bg s2
    else if s2.ch == micro
    then scan_microsecond bg s2
    else illegal_token s2

-- The `m` after a second's or a minute's digits, which only `ms` may continue.
unfoldable pub scan_millisecond_of : ℕ → Scanner → Token × Scanner
scan_millisecond_of bg s0 =
    let s = read_rune s0 in if not (s.ch == b's') then illegal_token s else scan_millisecond bg s

unfoldable pub scan_second : ℕ → Scanner → Token × Scanner
scan_second bg s0 =
    let s1 = read_rune s0 in
    let s2 = skip_digits s1 in
    if not (is_digit s1.ch)
    then (token_from duration bg s1, s1)
    else if s2.ch == b'n'
    then scan_nanosecond bg s2
    else if s2.ch == micro
    then scan_microsecond bg s2
    else if s2.ch == b'm'
    then scan_millisecond_of bg s2
    else illegal_token s2

unfoldable pub scan_minute : ℕ → Scanner → Token × Scanner
scan_minute bg s1 =
    let s2 = skip_digits s1 in
    if not (is_digit s1.ch)
    then (token_from duration bg s1, s1)
    else if s2.ch == b'n'
    then scan_nanosecond bg s2
    else if s2.ch == micro
    then scan_microsecond bg s2
    else if s2.ch == b'm'
    then scan_millisecond_of bg s2
    else if s2.ch == b's'
    then scan_second bg s2
    else illegal_token s2

unfoldable pub scan_millisecond_or_minute : ℕ → Scanner → Token × Scanner
scan_millisecond_or_minute bg s0 =
    let s = read_rune s0 in
    if not (s.ch == b's')
    then if s.ch == 0 || not (is_digit s.ch)
      then (token_from duration bg s, s)
      else scan_minute bg s
    else scan_millisecond bg s

unfoldable pub scan_hour : ℕ → Scanner → Token × Scanner
scan_hour bg s0 =
    let s1 = read_rune s0 in
    let s2 = skip_digits s1 in
    if not (is_digit s1.ch)
    then (token_from duration bg s1, s1)
    else if s2.ch == b'n'
    then scan_nanosecond bg s2
    else if s2.ch == micro
    then scan_microsecond bg s2
    else if s2.ch == b'm'
    then scan_millisecond_or_minute bg s2
    else if s2.ch == b's'
    then scan_second bg s2
    else illegal_token s2

unfoldable pub scan_duration : ℕ → Scanner → Token × Scanner
scan_duration bg s =
    if s.ch == b'n'
    then scan_nanosecond bg s
    else if s.ch == micro
    then scan_microsecond bg s
    else if s.ch == b'm'
    then scan_millisecond_or_minute bg s
    else if s.ch == b's'
    then scan_second bg s
    else if s.ch == b'h'
    then scan_hour bg s
    else illegal_token s

unfoldable pub is_unit : ℕ → Bool
is_unit c = c == b'n' || c == micro || c == b'm' || c == b's' || c == b'h'

unfoldable pub scan_int_or_duration : Scanner → Token × Scanner
unfolding is_unit
scan_int_or_duration s0 =
    let s = skip_digits s0 in
    if is_unit s.ch then scan_duration s0.position s else (token_from int s0.position s, s)
