-- ===== src/Scanner/Valid.antt =====
-- The invariant of the scanner of pkg/parser/api/scanner/scanner.go.
use goctl.Base.{
  ℕ, zero, suc, ◌+◌, ◌≤◌, ◌<◌, ◌≡◌, ◌≢◌, inl, inr, refl, Bool, false, length, get_or, last_or,
  slice, arith, get_or-beyond, Bool-cases,
}
use goctl.Scanner.State.{
  Scanner, read_rune, peek_rune, new_position, token_from, illegal_token, read_while,
}
use goctl.Token.Defs.{Token}
use goctl.Token.Kind.{TokenType, illegal}

pub record IsValid (s : Scanner) : Type 0 where
  pub sized : s.size ≡ length s.runes
  pub next : s.read_position ≡ s.position + 1
  pub current : s.ch ≡ get_or s.runes s.position 0
  pub bounded : s.position ≤ s.size + 1
  pub has_line : 1 ≤ length s.lines
  pub line_start : last_or s.lines 0 ≤ s.position

-- `s` reads the input of `s0`, with its lines.
pub record SameInput (s0 s : Scanner) : Type 0 where
  pub filename : s.filename ≡ s0.filename
  pub size : s.size ≡ s0.size
  pub runes : s.runes ≡ s0.runes
  pub lines : s.lines ≡ s0.lines

-- `s` is a state on the way from `s0`, at or behind position `bg` and not past the end.
pub record IsWithin (s0 : Scanner) (bg : ℕ) (s : Scanner) : Type 0 where
  pub valid : IsValid s
  pub same : SameInput s0 s
  pub behind : bg ≤ s.position
  pub inside : s.position ≤ s.size

-- `t` is the token that starts at `bg` and ends where `s` stands.
pub record IsLexeme (s0 : Scanner) (bg : ℕ) (t : Token) (s : Scanner) : Type 0 where
  pub valid : IsValid s
  pub same : SameInput s0 s
  pub moved : bg < s.position
  pub text : t.type ≢ illegal → t.text ≡ slice s0.runes bg s.position
  pub place : t.type ≢ illegal → t.position ≡ new_position s0 bg

pub ch-lt : {s : Scanner} → IsValid s → s.ch ≢ 0 → s.position < s.size
ch-lt {s} v h = grind (arith, get_or-beyond s.runes s.position 0)

pub read_rune-IsValid : {s : Scanner} → IsValid s → s.position ≤ s.size → IsValid (read_rune s)
unfolding read_rune
read_rune-IsValid {s} v h = ground (arith, get_or-beyond s.runes s.read_position 0)

pub peek_rune_lem : {s : Scanner} → IsValid s → peek_rune s ≡ get_or s.runes (s.position + 1) 0
unfolding peek_rune
peek_rune_lem {s} v = ground (arith, get_or-beyond s.runes s.read_position 0)

pub ch-read_rune : (s : Scanner) → (read_rune s).ch ≡ peek_rune s
unfolding read_rune peek_rune
ch-read_rune s = refl

pub SameInput-read_rune : {s0 s : Scanner} → SameInput s0 s → SameInput s0 (read_rune s)
unfolding read_rune
SameInput-read_rune h = ground arith

pub position-read_rune : {s : Scanner} → IsValid s → (read_rune s).position ≡ s.position + 1
unfolding read_rune
position-read_rune v = v.next

module _ {s0 : Scanner} {bg : ℕ} where
  pub IsWithin-read_rune :
      {s : Scanner} → IsWithin s0 bg s → s.ch ≢ 0 → IsWithin s0 bg (read_rune s)
  unfolding read_rune
  IsWithin-read_rune {s} w h =
      let l = ch-lt w.valid h in
      record {
        valid = read_rune-IsValid w.valid (omega arith);
        same = SameInput-read_rune w.same;
        behind = omega (arith, position-read_rune w.valid);
        inside = omega (arith, position-read_rune w.valid);
      }

  -- The first rune of a token is read.
  pub IsWithin-begin :
      {s : Scanner} → IsWithin s0 bg s → s.ch ≢ 0 → IsWithin s0 (suc bg) (read_rune s)
  unfolding read_rune
  IsWithin-begin {s} w h =
      let w' = IsWithin-read_rune w h in
      record {
        valid = w'.valid;
        same = w'.same;
        behind = omega (arith, w.valid.next, w.behind);
        inside = w'.inside;
      }

  pub IsWithin-read_while :
      (test : ℕ → Bool) (n : ℕ) {s : Scanner}
      → test 0 ≡ false
      → IsWithin s0 bg s
      → IsWithin s0 bg (read_while test n s)
  unfolding read_while
  IsWithin-read_while test zero z w = w
  IsWithin-read_while test (suc n) {s} z w = elim (Bool-cases (test s.ch)) [
    | inl e ↦
        rw (e, read_while)
          (IsWithin-read_while test n z (IsWithin-read_rune w (λ e0. ground (arith, rw e0 at e))))
    | inr e ↦ rw (e, read_while) w
  ]

  pub IsLexeme-token_from :
      (tp : TokenType) {s : Scanner}
      → IsWithin s0 (suc bg) s
      → IsLexeme s0 bg (token_from tp bg s) s
  unfolding new_position
  IsLexeme-token_from tp w = ground arith

  pub IsLexeme-illegal_token :
      {s : Scanner} → IsWithin s0 bg s → IsLexeme s0 bg (illegal_token s).0 (illegal_token s).1
  unfolding illegal_token
  IsLexeme-illegal_token {s} w = record {
    valid = read_rune-IsValid w.valid w.inside;
    same = SameInput-read_rune w.same;
    moved = omega (arith, position-read_rune w.valid, w.behind);
    text = λ h. absurd (h refl);
    place = λ h. absurd (h refl);
  }
