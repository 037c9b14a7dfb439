-- ===== src/Scanner/Document.antt =====
-- `scanDocument` of pkg/parser/api/scanner/scanner.go, from its text.
use goctl.Base.{
  ℕ, zero, suc, ◌+◌, ◌<◌, ◌≡◌, ◌≢◌, sym, ◌∙◌, [], ◌∷◌, ◌++◌, Text, arith, length, All,
  length-append, append_assoc,
}
use goctl.Scanner.Ahead.{Ahead, advance, Ahead-ch, Ahead-read_rune, length-Ahead}
use goctl.Scanner.Munch.{token_here, closed, closed_text}
use goctl.Scanner.Quoted.{
  ok, init_mode, document_half_open, document_open, document_half_close, again, return, scan_loop,
  document_round, scan_document,
}
use goctl.Scanner.State.{Scanner, read_rune}
use goctl.Token.Kind.{document}

module _ (bg : ℕ) (s : Scanner) where
  init_round : s.ch ≡ b'/' → document_round bg init_mode s ≡ again document_half_open
  unfolding document_round
  init_round h = ground arith

  half_open_round : s.ch ≡ b'*' → document_round bg document_half_open s ≡ again document_open
  unfolding document_round
  half_open_round h = ground arith

  open_round : s.ch ≢ b'*' → s.ch ≢ 0 → document_round bg document_open s ≡ again document_open
  unfolding document_round
  open_round h k = ground arith

  star_round : s.ch ≡ b'*' → document_round bg document_open s ≡ again document_half_close
  unfolding document_round
  star_round h = ground arith

  half_close_round :
      s.ch ≢ b'/' → s.ch ≢ 0 → document_round bg document_half_close s ≡ again document_half_close
  unfolding document_round
  half_close_round h k = ground arith

  close_round :
      s.ch ≡ b'/' → document_round bg document_half_close s ≡ return (closed document bg s)
  unfolding document_round
  close_round h = ground arith

module _ (bg : ℕ) where
  -- Behind a `*` the document goes on to the next `/`.
  half_close_body :
      (body rest : Text) (n : ℕ) {s : Scanner}
      → Ahead (body ++ b'/' ∷ rest) s
      → All (λ c. (c ≢ b'/') × (c ≢ 0)) body
      → length body < n
      → scan_loop (document_round bg) n document_half_close s
        ≡ closed document bg (advance (length body) s)
  unfolding scan_loop advance
  half_close_body body rest zero a p h = absurd (omega arith)
  half_close_body [] rest (suc n) {s} a p h = rw (close_round bg s (Ahead-ch a), scan_loop)
  half_close_body (c ∷ body) rest (suc n) {s} a p h =
      let e = sym (Ahead-ch a) in
      rw (half_close_round bg s (λ k. p.0.0 (e ∙ k)) (λ k. p.0.1 (e ∙ k)), scan_loop)
        (half_close_body body rest n (Ahead-read_rune a) p.1 (omega arith))

  -- In an open document the first `*` is looked for.
  open_body :
      (body tail rest : Text) (n : ℕ) {s : Scanner}
      → Ahead (body ++ b'*' ∷ (tail ++ b'/' ∷ rest)) s
      → All (λ c. (c ≢ b'*') × (c ≢ 0)) body
      → All (λ c. (c ≢ b'/') × (c ≢ 0)) tail
      → suc (length body + length tail) < n
      → scan_loop (document_round bg) n document_open s
        ≡ closed document bg (advance (length (body ++ b'*' ∷ tail)) s)
  unfolding scan_loop advance
  open_body body tail rest zero a p q h = absurd (omega arith)
  open_body [] tail rest (suc n) {s} a p q h =
      rw (star_round bg s (Ahead-ch a), scan_loop)
        (half_close_body tail rest n (Ahead-read_rune a) q (omega arith))
  open_body (c ∷ body) tail rest (suc n) {s} a p q h =
      let e = sym (Ahead-ch a) in
      rw (open_round bg s (λ k. p.0.0 (e ∙ k)) (λ k. p.0.1 (e ∙ k)), scan_loop)
        (open_body body tail rest n (Ahead-read_rune a) p.1 q (omega arith))

-- The text of a document: a first `*` behind `body`, then `tail` up to a `/`.
abbrev pub document_text : Text → Text → Text
document_text body tail = b'/' ∷ b'*' ∷ (body ++ b'*' ∷ (tail ++ b'/' ∷ []))

-- At a text that begins with `/*`, then runs without `*` and NUL up to a `*`, then runs without `/`
-- and NUL up to a `/`, `scanDocument` returns a document token with the text up to that `/` and
-- leaves the scanner behind it. The runs are arbitrary: the `*` need not stand directly before the
-- `/`.
pub scan_document-text :
    (body tail rest : Text) {s : Scanner}
    → Ahead (document_text body tail ++ rest) s
    → All (λ c. (c ≢ b'*') × (c ≢ 0)) body
    → All (λ c. (c ≢ b'/') × (c ≢ 0)) tail
    → scan_document s
      ≡ ok
          (token_here document (document_text body tail) s)
          (advance (length (document_text body tail)) s)
unfolding scan_document scan_loop advance
scan_document-text body tail rest {s} a p q =
    let inner = body ++ b'*' ∷ tail in
    let shape : b'/' ∷ b'*' ∷ (inner ++ b'/' ∷ []) ≡ document_text body tail = rw append_assoc in
    let a1 : Ahead (b'/' ∷ b'*' ∷ (body ++ b'*' ∷ (tail ++ b'/' ∷ rest))) s =
      simp append_assoc at a in
    let l : suc (length body + length tail) < s.size = omega (
      arith,
      length-Ahead _ a1,
      length-append body (b'*' ∷ (tail ++ b'/' ∷ rest)),
      length-append tail (b'/' ∷ rest),
    ) in
    rw (init_round s.position s (Ahead-ch a1), scan_loop)
      (rw (half_open_round s.position (read_rune s) (Ahead-ch (Ahead-read_rune a1)), scan_loop)
        (open_body s.position body tail rest s.size (Ahead-read_rune (Ahead-read_rune a1)) p q l
          ∙ closed_text document (b'/' ∷ b'*' ∷ inner) rest b'/' (document_text body tail) shape a))
