-- ===== src/Parser/TokenReports.antt =====
-- The moves over tokens of pkg/parser/api/parser/parser.go: the errors.

use goctl.Base.{ℕ, zero, suc, List, [], ◌∷◌, Option, none, some}
use goctl.Parser.Reports.{
  Reports, report_rules, Reports-pure, Reports-fuel, Reports-crash, Reports-fail_with, Reports-bind,
  Reports-gets, Reports-put_node,
}
use goctl.Parser.State.{
  Expected, kind, scan_error, syntax_error, Parser, M, pure, crash, out_of_fuel, fail_with,
  put_node, set_scanner, set_peek, node_of, ◌>>◌,
}
use goctl.Parser.Tokens.{
  expect_peek, fail_ident, refuse_keyword, scan_peek, skip_comments, make_node, set_leading,
  advance, advance_if, refuse_comment,
}
use goctl.Scanner.Next.{next_token}
use goctl.Scanner.Quoted
use goctl.Scanner.Quoted.{Scan}
use goctl.Token.Defs.{Token, error_token, fork}
use goctl.Token.Kind.{ident}
use goctl.Token.Tables.{lookup_keyword, type_string}

pub expect_peek-Reports : (es : List Expected) → Reports (expect_peek es)
unfolding expect_peek
expect_peek-Reports es = search report_rules depth 12

pub fail_ident-Reports :
    {A : Type 0} (tok : Token) (es : List Expected) → Reports (fail_ident {A = A} tok es)
unfolding fail_ident
fail_ident-Reports tok es = search report_rules depth 12

pub by_option :
    {A B : Type 0} (m : Option B) (f : B → M A) (n : M A)
    → ((b : B) → Reports (f b))
    → Reports n
    → Reports (elim m [ none ↦ n | some b ↦ f b ])
by_option (some b) f n r s = r b
by_option none f n r s = s

pub refuse_keyword-Reports : Reports refuse_keyword
unfolding refuse_keyword
refuse_keyword-Reports = Reports-bind (Reports-gets _) λ tok.
    by_option (lookup_keyword tok.text) (λ tp. fail_ident (fork tok tp) (kind ident ∷ [])) (pure tt)
      (λ tp. fail_ident-Reports _ _) (Reports-pure tt)

scan-Reports :
    (r : Scan)
    → Reports (elim r [
      | Quoted.ok t s ↦ (do set_scanner s; set_peek t)
      | Quoted.err e s ↦ (do set_scanner s; set_peek error_token; fail_with (scan_error e))
      | Quoted.diverged ↦ out_of_fuel
    ])
scan-Reports (Quoted.ok t s) = search report_rules depth 12
scan-Reports (Quoted.err e s) = search report_rules depth 12
scan-Reports Quoted.diverged = Reports-fuel

pub scan_peek-Reports : Reports scan_peek
unfolding scan_peek
scan_peek-Reports = Reports-bind (Reports-gets _) λ p. scan-Reports (next_token p.scanner)

pub skip_comments-Reports :
    (n : ℕ) (l : Option ℕ) (leading : List Token) → Reports (skip_comments n l leading)
unfolding skip_comments
skip_comments-Reports zero l leading = Reports-fuel
skip_comments-Reports (suc n) l leading =
    let ih = skip_comments-Reports n l in search (report_rules, scan_peek-Reports, ih) depth 12

make_node-Reports : Reports make_node
unfolding make_node
make_node-Reports = search report_rules depth 12

set_leading-Reports : (cs : List Token) → Reports (set_leading cs)
unfolding set_leading
set_leading-Reports [] = Reports-pure tt
set_leading-Reports (c ∷ cs) = Reports-bind (Reports-gets _) λ p.
    by_option (node_of p.cur p.nodes) (λ n. put_node p.cur (record n { leading_comments = c ∷ cs }))
      crash (λ n. Reports-put_node _ _) Reports-crash

pub advance-Reports : Reports advance
unfolding advance
advance-Reports =
    search
      (
        report_rules, make_node-Reports, scan_peek-Reports, skip_comments-Reports,
        set_leading-Reports,
      )
      depth 16

pub advance_if-Reports : (es : List Expected) → Reports (advance_if es)
unfolding advance_if
advance_if-Reports es = Reports-bind (expect_peek-Reports es) λ _. advance-Reports

comment-Reports :
    (cs : List Token) (p : Parser) (es : List Expected)
    → Reports (elim cs [
      | [] ↦ pure tt
      | c ∷ cs ↦ fail_with (syntax_error p.peek.position es (type_string c.type))
    ])
comment-Reports [] p es = Reports-pure tt
comment-Reports (c ∷ cs) p es = Reports-fail_with _

pub refuse_comment-Reports : (es : List Expected) → Reports (refuse_comment es)
unfolding refuse_comment
refuse_comment-Reports es = Reports-bind (Reports-gets _) λ p.
    by_option (node_of p.cur p.nodes) _ crash (λ n. comment-Reports n.leading_comments p es)
      Reports-crash

pub ruleset token_rules = (
  report_rules, expect_peek-Reports, fail_ident-Reports, refuse_keyword-Reports, advance-Reports,
  advance_if-Reports, refuse_comment-Reports,
)
