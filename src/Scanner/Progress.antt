-- ===== src/Scanner/Progress.antt =====
-- Calls of `NextToken` of pkg/parser/api/scanner/scanner.go one after the other.
use goctl.Base.{
  ℕ, ◌≤◌, ◌<◌, ◌≡◌, ◌⊎◌, inl, inr, refl, ◌∙◌, ap, false, [], ◌∷◌, some, Text, ◌==◌, arith,
  Bool-cases,
}
use goctl.Scanner.Next.{next_token, new_scanner}
use goctl.Scanner.NextToken.{
  IsLoneAt, token_start, next_token-Outcome, next_token-eof, next_token-lone_at,
}
use goctl.Scanner.Loops.{Outcome}
use goctl.Scanner.Quoted.{Scan, ok, err, diverged}
use goctl.Scanner.Skip.{Skips, skip_white_space-Skips, note_line_none}
use goctl.Scanner.State.{
  Scanner, is_white_space, read_rune, peek_rune, position_at, skip_white_space, rounds,
}
use goctl.Scanner.Valid.{IsValid}
use goctl.Token.Defs.{eof_token, new_illegal_token}
use goctl.Token.Kind.{eof, illegal}

-- A scanner on the same input as `s`, not before it.
pub record Follows (s t : Scanner) : Type 0 where
  pub valid : IsValid t
  pub runes : t.runes ≡ s.runes
  pub size : t.size ≡ s.size
  pub behind : s.position ≤ t.position

-- A call returns: a token, behind which the scanner has moved on unless the input is at its end or
-- at a lone `@`, or an error.
abbrev pub Returns : Scanner → Scan → Type 0
Returns s (ok t s') =
    Follows s s'
    × ((s.position < s'.position) ⊎ ((t.type ≡ eof) ⊎ ((t.type ≡ illegal) × IsLoneAt s')))
Returns s (err e s') = Follows s s'
Returns s diverged = ⊥

Skips-Follows : {s t : Scanner} → Skips s t → Follows s t
Skips-Follows k = record { valid = k.valid; runes = k.runes; size = k.size; behind = k.behind }

lone-cases : (s : Scanner) → IsLoneAt s ⊎ (¬ IsLoneAt s)
lone-cases s = elim (Bool-cases (s.ch == b'@')) [
  | inl a ↦ elim (Bool-cases (peek_rune s == 0)) [
    | inl b ↦ inl (record { at = ground arith; last = ground arith })
    | inr b ↦ inr (λ h. ground (arith, h.last))
  ]
  | inr a ↦ inr (λ h. ground (arith, h.at))
]

token_start-le : (s : Scanner) → s.position ≤ token_start s
token_start-le s = ground arith

Outcome-Returns :
    {s t : Scanner} (bg : ℕ) (r : Scan) → Skips s t → t.position ≤ bg → Outcome t bg r → Returns s r
Outcome-Returns bg (ok x u) k l o = (
  record {
    valid = o.valid;
    runes = o.same.runes ∙ k.runes;
    size = o.same.size ∙ k.size;
    behind = omega (arith, o.moved, k.behind);
  },
  inl (omega (arith, o.moved, k.behind)),
)
Outcome-Returns bg (err e u) k l o = record {
  valid = o.0;
  runes = o.1.runes ∙ k.runes;
  size = o.1.size ∙ k.size;
  behind = omega (arith, o.2, k.behind);
}
Outcome-Returns bg diverged k l o = o

-- From every valid scanner a call of `NextToken` returns, so that none of its loops is cut off by
-- the rounds it is given. With a token it leaves a valid scanner on the same input, further on than
-- before unless the token is the end of the input or an illegal one at a lone `@`; with an error it
-- leaves a valid scanner on the same input, not before the first.
pub next_token-Returns : (s : Scanner) → IsValid s → Returns s (next_token s)
next_token-Returns s v =
    let t = skip_white_space (rounds s) s in
    let k = skip_white_space-Skips (rounds s) s v in
    elim (Bool-cases (t.ch == 0)) [
      | inl z ↦ rw (next_token-eof s (ground arith)) (Skips-Follows k, inr (inl refl))
      | inr z ↦ elim (lone-cases t) [
        | inl a ↦ rw (next_token-lone_at s a) (Skips-Follows k, inr (inr (refl, a)))
        | inr a ↦
            Outcome-Returns (token_start t) (next_token s) k (token_start-le t)
              (next_token-Outcome s v (ground arith) a)
      ]
    ]

-- On a rune that is not blank nothing is skipped.
skip_stays :
    (s : Scanner) → IsValid s → is_white_space s.ch ≡ false → skip_white_space (rounds s) s ≡ s
unfolding skip_white_space
skip_stays s v h = rw (h, skip_white_space) (note_line_none v h)

-- At the end of the input, or at a NUL, `NextToken` returns the end-of-file token and the valid
-- scanner it was called on, so every further call returns it too.
next_token_eof_again : (s : Scanner) → IsValid s → s.ch ≡ 0 → next_token s ≡ ok eof_token s
next_token_eof_again s v h =
    let e = skip_stays s v (unfold is_white_space in ground arith) in
    next_token-eof s (ap (λ (t : Scanner). t.ch) e ∙ h) ∙ ap (ok eof_token) e

-- At a `@` with nothing behind it a valid scanner stays where it is: `NextToken` returns an illegal
-- token and the scanner it was called on, so every further call returns the same token and the end
-- of the input is never reached.
pub next_token_lone_at_again :
    (s : Scanner)
    → IsValid s
    → IsLoneAt s
    → next_token s ≡ ok (new_illegal_token b'@' (position_at s)) s
next_token_lone_at_again s v h =
    let e = skip_stays s v (unfold is_white_space in ground (arith, h.at)) in
    rw e at (next_token-lone_at s (rw e h))

-- Where `NewScanner` returns a scanner, it is valid, holds the given text, stands at its start and
-- has counted one line.
pub new_scanner-IsValid :
    (filename text : Text) {s : Scanner}
    → new_scanner filename text ≡ some s
    → IsValid s × (s.runes ≡ text) × (s.position ≡ 0) × (s.lines ≡ 0 ∷ [])
unfolding new_scanner read_rune
new_scanner-IsValid filename [] h = cc
new_scanner-IsValid filename (c ∷ cs) h = ground arith
