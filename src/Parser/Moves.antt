-- ===== src/Parser/Moves.antt =====
-- What the moves over tokens of pkg/parser/api/parser/parser.go read.
use goctl.Base.{
  ℕ, zero, suc, ◌+◌, ◌<◌, ◌≡◌, refl, inl, inr, Bool, true, false, not, ◌&&◌, ◌||◌, List, [], ◌∷◌,
  ◌++◌, Option, none, some, ◌==◌, if◌then◌else◌, arith, Bool-cases,
}
use goctl.Parser.Measure.{
  distance, weight, left, After, Takes, Takes-pure, Takes-crash, Takes-fail_with, Takes-gets,
  Takes-if, Takes-option, Takes-set_head_comments, Takes-append_stmts, Takes-put_node, After-bind,
  After-widen, Takes-bind, Takes-eat, Takes-weaken,
}
use goctl.Parser.State.{
  Expected, kind, word, syntax_error, Parser, pure, crash, fail_with, gets, node_of, ◌>>=◌,
}
use goctl.Parser.Tokens.{
  matches, matches_any, expect_peek, fail_ident, refuse_keyword, advance, advance_if,
  refuse_comment,
}
use goctl.Token.Defs.{Token, fork}
use goctl.Token.Kind.{ident}
use goctl.Token.Tables.{lookup_keyword, type_string}
use goctl.Parser.Advance.{advance-After}

pub advance-Takes : {k : ℕ} → Takes k k advance
advance-Takes {k} = record { at = λ p v h. advance-After k p v (omega arith) }

pub expect_peek-Takes : {k : ℕ} (es : List Expected) → Takes k k (expect_peek es)
unfolding expect_peek
expect_peek-Takes es =
    Takes-bind (Takes-gets _)
      λ p. Takes-if (matches_any es p.peek) (Takes-pure tt) (Takes-fail_with _)

pub advance_if-Takes : {k : ℕ} (es : List Expected) → Takes k k (advance_if es)
unfolding advance_if
advance_if-Takes es = Takes-bind (expect_peek-Takes es) λ _. advance-Takes

-- Token types that the scanner does not return for ever.
abbrev pub all_real : List Expected → Bool
all_real [] = true
all_real (kind t ∷ es) = weight t == 1 && all_real es
all_real (word s ∷ es) = false

pub matches_any-weight :
    (es : List Expected) (tok : Token)
    → all_real es ≡ true
    → matches_any es tok ≡ true
    → weight tok.type ≡ 1
unfolding matches_any matches
matches_any-weight [] tok a h = cc
matches_any-weight (kind t ∷ es) tok a h = ground (arith, matches_any-weight es tok)
matches_any-weight (word s ∷ es) tok a h = cc

-- Moving over a token that is one of `es` reads it.
pub advance_if-Eats :
    {k : ℕ} (es : List Expected) → all_real es ≡ true → Takes (suc k) k (advance_if es)
unfolding advance_if expect_peek gets ◌>>=◌ pure fail_with
advance_if-Eats {k} es a = record {
  at = λ p v h. elim (Bool-cases (matches_any es p.peek)) [
    | inl e ↦
        rw (e, After)
          (After-widen (suc k) k k (advance p) (omega arith)
            (advance-After k p v (omega (arith, matches_any-weight es p.peek a e))))
    | inr e ↦ rw (e, After) (v, h)
  ];
}

pub fail_ident-Takes :
    {A : Type 0} {j k : ℕ} (tok : Token) (es : List Expected)
    → Takes j k (fail_ident {A = A} tok es)
unfolding fail_ident
fail_ident-Takes tok es = Takes-fail_with _

pub refuse_keyword-Takes : {k : ℕ} → Takes k k refuse_keyword
unfolding refuse_keyword
refuse_keyword-Takes = Takes-bind (Takes-gets _) λ tok.
    Takes-option (lookup_keyword tok.text) (λ tp. fail_ident (fork tok tp) (kind ident ∷ []))
      (pure tt) (λ tp. fail_ident-Takes _ _) (Takes-pure tt)

comment-Takes :
    {k : ℕ} (cs : List Token) (p : Parser) (es : List Expected)
    → Takes k k (elim cs [
      | [] ↦ pure tt
      | c ∷ cs ↦ fail_with (syntax_error p.peek.position es (type_string c.type))
    ])
comment-Takes [] p es = Takes-pure tt
comment-Takes (c ∷ cs) p es = Takes-fail_with _

pub refuse_comment-Takes : {k : ℕ} (es : List Expected) → Takes k k (refuse_comment es)
unfolding refuse_comment
refuse_comment-Takes es = Takes-bind (Takes-gets _) λ p.
    Takes-option (node_of p.cur p.nodes) _ crash (λ n. comment-Takes n.leading_comments p es)
      Takes-crash

pub ruleset move_rules = (
  refl, Takes-pure, Takes-crash, Takes-fail_with, Takes-gets, Takes-if, Takes-set_head_comments,
  Takes-append_stmts, Takes-put_node, Takes-eat, Takes-bind, advance-Takes, expect_peek-Takes,
  advance_if-Eats, advance_if-Takes, fail_ident-Takes, refuse_keyword-Takes, refuse_comment-Takes,
  Takes-weaken,
)

-- The rules that keep a bound, for code that reads on by any amount.
pub ruleset keep_rules = (
  Takes-pure, Takes-crash, Takes-fail_with, Takes-gets, Takes-if, Takes-bind, advance-Takes,
  expect_peek-Takes, advance_if-Takes, fail_ident-Takes, refuse_keyword-Takes,
)
