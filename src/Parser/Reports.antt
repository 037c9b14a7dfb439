-- ===== src/Parser/Reports.antt =====
-- What the calls of pkg/parser/api/parser/parser.go do to the list of errors.
use goctl.Base.{
  ◌≡◌, refl, sym, ◌∙◌, Bool, true, false, List, [], ◌∷◌, ◌++◌, append-nil, append_assoc,
  if◌then◌else◌,
}
use goctl.Ast.{TokenNode, Stmt}
use goctl.Parser.State.{
  ParseError, Parser, Result, done, fail, panic, diverged, M, pure, out_of_fuel, crash, fail_with,
  gets, set_scanner, set_cur, set_peek, set_head_comments, append_stmts, put_node, ◌>>=◌,
}
use goctl.Scanner.State.{Scanner}
use goctl.Token.Defs.{Token}

-- The errors of a state begin with those of an earlier one.
pub record Extends (old new : List ParseError) : Type 0 where
  pub added : List ParseError
  pub all : new ≡ old ++ added

-- There is one more at least.
pub record ExtendsMore (old new : List ParseError) : Type 0 where
  pub first : ParseError
  pub others : List ParseError
  pub all : new ≡ old ++ first ∷ others

abbrev pub Good : {A : Type 0} → Parser → Result A → Type 0
Good p (done a q) = Extends p.errors q.errors
Good p (fail q) = ExtendsMore p.errors q.errors
Good p panic = Unit
Good p diverged = Unit

pub record Reports {A : Type 0} (m : M A) : Type 0 where
  pub at : (p : Parser) → Good p (m p)

Extends-refl : (a : List ParseError) → Extends a a
Extends-refl a = record { added = []; all = sym (append-nil a) }

Extends-trans : {a b c : List ParseError} → Extends a b → Extends b c → Extends a c
Extends-trans {a} r s = record {
  added = r.added ++ s.added;
  all = s.all ∙ rw (r.all) (append_assoc a r.added s.added);
}

more :
    {a c : List ParseError} (xs : List ParseError) (y : ParseError) (ys : List ParseError)
    → c ≡ a ++ (xs ++ y ∷ ys)
    → ExtendsMore a c
more [] y ys e = record { first = y; others = ys; all = e }
more (x ∷ xs) y ys e = record { first = x; others = xs ++ y ∷ ys; all = e }

ExtendsMore-trans : {a b c : List ParseError} → Extends a b → ExtendsMore b c → ExtendsMore a c
ExtendsMore-trans {a} {b} {c} r s =
    more r.added s.first s.others (s.all ∙ rw (r.all) (append_assoc a r.added (s.first ∷ s.others)))

module _ {A : Type 0} where
  pub Reports-pure : (a : A) → Reports (pure a)
  unfolding pure
  Reports-pure a = record { at = λ p. Extends-refl p.errors }

  pub Reports-fuel : Reports (out_of_fuel {A = A})
  unfolding out_of_fuel
  Reports-fuel = record { at = λ p. tt }

  pub Reports-crash : Reports (crash {A = A})
  unfolding crash
  Reports-crash = record { at = λ p. tt }

  pub Reports-fail_with : (e : ParseError) → Reports (fail_with {A = A} e)
  unfolding fail_with
  Reports-fail_with e = record { at = λ p. record { first = e; others = []; all = refl } }

  pub Reports-gets : (f : Parser → A) → Reports (gets f)
  unfolding gets
  Reports-gets f = record { at = λ p. Extends-refl p.errors }

  pub Reports-if : (b : Bool) {m n : M A} → Reports m → Reports n → Reports (if b then m else n)
  Reports-if true r s = r
  Reports-if false r s = s

pub Reports-set_scanner : (s : Scanner) → Reports (set_scanner s)
unfolding set_scanner
Reports-set_scanner s = record { at = λ p. Extends-refl p.errors }

pub Reports-set_cur : (t : Token) → Reports (set_cur t)
unfolding set_cur
Reports-set_cur t = record { at = λ p. Extends-refl p.errors }

pub Reports-set_peek : (t : Token) → Reports (set_peek t)
unfolding set_peek
Reports-set_peek t = record { at = λ p. Extends-refl p.errors }

pub Reports-set_head_comments : (cs : List Token) → Reports (set_head_comments cs)
unfolding set_head_comments
Reports-set_head_comments cs = record { at = λ p. Extends-refl p.errors }

pub Reports-append_stmts : (ss : List Stmt) → Reports (append_stmts ss)
unfolding append_stmts
Reports-append_stmts ss = record { at = λ p. Extends-refl p.errors }

pub Reports-put_node : (t : Token) (n : TokenNode) → Reports (put_node t n)
unfolding put_node
Reports-put_node t n = record { at = λ p. Extends-refl p.errors }

Good-trans :
    {B : Type 0} (p q : Parser) (r : Result B) → Extends p.errors q.errors → Good q r → Good p r
Good-trans p q (done b u) e g = Extends-trans e g
Good-trans p q (fail u) e g = ExtendsMore-trans e g
Good-trans p q panic e g = tt
Good-trans p q diverged e g = tt

module _ {A B : Type 0} where
  pub Reports-bind :
      {m : M A} {f : A → M B} → Reports m → ((a : A) → Reports (f a)) → Reports (m >>= f)
  unfolding ◌>>=◌
  Reports-bind {m} {f} r k = record { at = λ p. go p (m p) (r.at p) }
    where
      go :
          (p : Parser) (x : Result A)
          → Good p x
          → Good p
              (elim x [ done a q ↦ f a q | fail q ↦ fail q | panic ↦ panic | diverged ↦ diverged ])
      go p (done a q) g = Good-trans p q (f a q) g ((k a).at q)
      go p (fail q) g = g
      go p panic g = tt
      go p diverged g = tt

pub ruleset report_rules = (
  Reports-pure, Reports-fuel, Reports-crash, Reports-fail_with, Reports-gets, Reports-if,
  Reports-set_scanner, Reports-set_cur, Reports-set_peek, Reports-set_head_comments,
  Reports-append_stmts, Reports-put_node, Reports-bind,
)
