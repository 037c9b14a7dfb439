-- ===== src/Scanner/Munch.antt =====
-- Names, strings and documents of pkg/parser/api/scanner/scanner.go, scanned from their text.
use goctl.Base.{
  ℕ, zero, suc, ◌<◌, ◌≡◌, ◌≢◌, refl, sym, ◌∙◌, true, false, [], ◌∷◌, ◌++◌, Text, codes, arith,
  text_eq_iff, length, slice, All, length-append, append_assoc,
}
use mathlib.Core.Path.{subst}
use goctl.Scanner.Ahead.{
  Ahead, first, advance, Ahead-ch, Ahead-read_rune, Ahead-advance, position-advance,
  SameInput-advance, slice-advance, read_while-advance, length-Ahead,
}
use goctl.Scanner.Quoted.{
  Scan, ok, init_mode, string_open, again, return, scan_loop, string_round, scan_string,
}
use goctl.Scanner.State.{Scanner, read_rune, new_position, token_from, rounds}
use goctl.Scanner.Valid.{SameInput}
use goctl.Scanner.Words.{is_ident_rune, end_ident, scan_ident}
use goctl.Token.Defs.{Token}
use goctl.Token.Kind.{TokenType, ident}

-- The token of type `tp` and text `text` at the current rune.
abbrev pub token_here : TokenType → Text → Scanner → Token
token_here tp text s = record { type = tp; text = text; position = new_position s s.position }

SameInput-refl : (s : Scanner) → SameInput s s
SameInput-refl s = record { filename = refl; size = refl; runes = refl; lines = refl }

module _ {s : Scanner} (ys xs : Text) (a : Ahead (ys ++ xs) s) where
  text-advance :
      slice (advance (length ys) s).runes s.position (advance (length ys) s).position ≡ ys
  text-advance =
      rw (position-advance ys xs a, (SameInput-advance (length ys) (SameInput-refl s)).runes)
        (slice-advance ys xs a)

  token_from-advance :
      (tp : TokenType) → token_from tp s.position (advance (length ys) s) ≡ token_here tp ys s
  unfolding new_position
  token_from-advance tp =
      let same = SameInput-advance (length ys) (SameInput-refl s) in
      ground (arith, text-advance, same.filename, same.lines)

end_ident-name :
    (bg : ℕ) (s : Scanner)
    → s.ch ≢ b':'
    → slice s.runes bg s.position ≢ codes "interface"
    → end_ident bg s ≡ (token_from ident bg s, s)
unfolding end_ident
end_ident-name bg s h k =
    ground (arith, text_eq_iff (slice s.runes bg s.position) (codes "interface"))

-- At a name made of letters, digits and underscores, other than `interface`, that is followed by
-- another rune that is no `:`, `scanIdent` returns the whole name as an identifier and leaves the
-- scanner behind it.
pub scan_ident-name :
    (name rest : Text) {s : Scanner}
    → Ahead (name ++ rest) s
    → All (λ c. is_ident_rune c ≡ true) name
    → is_ident_rune (first rest) ≡ false
    → first rest ≢ b':'
    → name ≢ codes "interface"
    → scan_ident s ≡ (token_here ident name s, advance (length name) s)
unfolding scan_ident
scan_ident-name name rest {s} a p q colon ne =
    let fuel : length name < rounds s =
      omega (arith, length-Ahead (name ++ rest) a, length-append name rest) in
    let e = text-advance name rest a in
    rw (read_while-advance is_ident_rune name rest (rounds s) a p q fuel) (
      end_ident-name s.position (advance (length name) s)
        (λ h. colon (sym (Ahead-ch (Ahead-advance name a)) ∙ h)) (λ h. ne (sym e ∙ h))
      ∙ rw (token_from-advance name rest a ident))

pub advance-concat :
    (ys : Text) (y : ℕ) (s : Scanner)
    → advance (length (ys ++ y ∷ [])) s ≡ read_rune (advance (length ys) s)
unfolding advance
advance-concat [] y s = refl
advance-concat (x ∷ ys) y s = advance-concat ys y (read_rune s)

-- What the loops return behind the rune at which `s` stands.
abbrev pub closed : TokenType → ℕ → Scanner → Scan
closed tp bg s = ok (token_from tp bg (read_rune s)) (read_rune s)

-- Behind `ys`, which ends in `y`, the token is `ys`.
pub closed-advance :
    (tp : TokenType) (ys rest : Text) (y : ℕ) {s : Scanner}
    → Ahead ((ys ++ y ∷ []) ++ rest) s
    → closed tp s.position (advance (length ys) s)
      ≡ ok (token_here tp (ys ++ y ∷ []) s) (advance (length (ys ++ y ∷ [])) s)
closed-advance tp ys rest y {s} a =
    rw (← advance-concat ys y s, token_from-advance (ys ++ y ∷ []) rest a tp)

-- The same, at a text that is equal to `ys ++ y ∷ []`.
pub closed_text :
    (tp : TokenType) (ys rest : Text) (y : ℕ) (text : Text) {s : Scanner}
    → ys ++ y ∷ [] ≡ text
    → Ahead (text ++ rest) s
    → closed tp s.position (advance (length ys) s)
      ≡ ok (token_here tp text s) (advance (length text) s)
closed_text tp ys rest y text {s} e =
    subst
      (λ t.
        Ahead (t ++ rest) s
        → closed tp s.position (advance (length ys) s)
          ≡ ok (token_here tp t s) (advance (length t) s))
      e (closed-advance tp ys rest y)

module _ (delim : ℕ) (tp : TokenType) (bg : ℕ) where
  string_open_round :
      (s : Scanner)
      → s.ch ≢ delim
      → s.ch ≢ 0
      → string_round delim tp bg string_open s ≡ again string_open
  unfolding string_round
  string_open_round s h k = ground arith

  string_close_round :
      (s : Scanner)
      → s.ch ≡ delim
      → string_round delim tp bg string_open s ≡ return (closed tp bg s)
  unfolding string_round
  string_close_round s h = ground arith

  string_init_round :
      (s : Scanner) → s.ch ≡ delim → string_round delim tp bg init_mode s ≡ again string_open
  unfolding string_round
  string_init_round s h = ground arith

  -- An open string is read up to its delimiter.
  string_body :
      (body rest : Text) (n : ℕ) {s : Scanner}
      → Ahead (body ++ delim ∷ rest) s
      → All (λ c. (c ≢ delim) × (c ≢ 0)) body
      → length body < n
      → scan_loop (string_round delim tp bg) n string_open s
        ≡ closed tp bg (advance (length body) s)
  unfolding scan_loop advance
  string_body body rest zero a p h = absurd (omega arith)
  string_body [] rest (suc n) {s} a p h = rw (string_close_round s (Ahead-ch a), scan_loop)
  string_body (c ∷ body) rest (suc n) {s} a p h =
      let e = sym (Ahead-ch a) in
      rw (string_open_round s (λ k. p.0.0 (e ∙ k)) (λ k. p.0.1 (e ∙ k)), scan_loop)
        (string_body body rest n (Ahead-read_rune a) p.1 (omega arith))

-- At a delimiter, a text without the delimiter and NUL and the delimiter again, `scanString`
-- returns a token with that text and both delimiters and leaves the scanner behind it.
pub scan_string-text :
    (delim : ℕ) (tp : TokenType) (body rest : Text) {s : Scanner}
    → Ahead (delim ∷ (body ++ delim ∷ rest)) s
    → All (λ c. (c ≢ delim) × (c ≢ 0)) body
    → scan_string delim tp s
      ≡ ok
          (token_here tp (delim ∷ (body ++ delim ∷ [])) s)
          (advance (length (delim ∷ (body ++ delim ∷ []))) s)
unfolding scan_string scan_loop advance
scan_string-text delim tp body rest {s} a p =
    let l : length body < suc s.size =
      omega (arith, length-Ahead _ a, length-append body (delim ∷ rest)) in
    let a' : Ahead (((delim ∷ body) ++ delim ∷ []) ++ rest) s = rw append_assoc a in
    rw (string_init_round delim tp s.position s (Ahead-ch a), scan_loop)
      (string_body delim tp s.position body rest (suc s.size) (Ahead-read_rune a) p l
        ∙ closed-advance tp (delim ∷ body) rest delim a')
