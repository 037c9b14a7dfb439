-- ===== src/Parser/Measure.antt =====
-- What is left to read for the parser of pkg/parser/api/parser/parser.go.
use goctl.Base.{
  ℕ, zero, suc, ◌+◌, ◌-◌, ◌≤◌, ◌<◌, Bool, true, false, List, Option, none, some, ◌==◌,
  if◌then◌else◌, arith,
}
use goctl.Parser.State.{
  ParseError, Parser, Result, done, fail, panic, diverged, M, pure, crash, fail_with, gets,
  set_head_comments, append_stmts, put_node, ◌>>=◌,
}
use goctl.Ast.{TokenNode, Stmt}
use goctl.Scanner.State.{Scanner}
use goctl.Scanner.Valid.{IsValid}
use goctl.Token.Defs.{Token}
use goctl.Token.Kind.{TokenType, error, eof, illegal}

abbrev pub distance : Scanner → ℕ
distance s = s.size + 1 - s.position

-- The next token counts, unless it is one that may come again.
abbrev pub weight : TokenType → ℕ
weight t = if t == eof then 0 else if t == illegal then 0 else if t == error then 0 else 1

abbrev pub left : Parser → ℕ
left p = distance p.scanner + weight p.peek.type

-- The result is not cut off, and what it leaves is below `k`, or below `j` where it is nil.
abbrev pub After : {A : Type 0} → ℕ → ℕ → Result A → Type 0
After j k (done a q) = IsValid q.scanner × (left q < k)
After j k (fail q) = IsValid q.scanner × (left q < j)
After j k panic = Unit
After j k diverged = ⊥

-- From a state with less than `j` left, `m` ends with less than `k` left.
pub record Takes {A : Type 0} (j k : ℕ) (m : M A) : Type 0 where
  pub at : (p : Parser) → IsValid p.scanner → left p < j → After j k (m p)

module _ {A : Type 0} where
  -- No state has less than nothing left.
  pub Takes-none : (k : ℕ) (m : M A) → Takes zero k m
  Takes-none k m = record { at = λ p v h. absurd (omega arith) }

  pub Takes-pure : {k : ℕ} (a : A) → Takes k k (pure a)
  unfolding pure
  Takes-pure a = record { at = λ p v h. (v, h) }

  pub Takes-crash : {j k : ℕ} → Takes j k (crash {A = A})
  unfolding crash
  Takes-crash = record { at = λ p v h. tt }

  pub Takes-fail_with : {j k : ℕ} (e : ParseError) → Takes j k (fail_with {A = A} e)
  unfolding fail_with
  Takes-fail_with e = record { at = λ p v h. (v, h) }

  pub Takes-gets : {k : ℕ} (f : Parser → A) → Takes k k (gets f)
  unfolding gets
  Takes-gets f = record { at = λ p v h. (v, h) }

  pub Takes-if :
      (b : Bool) {j k : ℕ} {m n : M A} → Takes j k m → Takes j k n → Takes j k (if b then m else n)
  Takes-if true r s = r
  Takes-if false r s = s

  pub Takes-option :
      {B : Type 0} {j k : ℕ} (o : Option B) (f : B → M A) (n : M A)
      → ((b : B) → Takes j k (f b))
      → Takes j k n
      → Takes j k (elim o [ none ↦ n | some b ↦ f b ])
  Takes-option (some b) f n r s = r b
  Takes-option none f n r s = s

pub Takes-set_head_comments : {k : ℕ} (cs : List Token) → Takes k k (set_head_comments cs)
unfolding set_head_comments
Takes-set_head_comments cs = record { at = λ p v h. (v, h) }

pub Takes-append_stmts : {k : ℕ} (ss : List Stmt) → Takes k k (append_stmts ss)
unfolding append_stmts
Takes-append_stmts ss = record { at = λ p v h. (v, h) }

pub Takes-put_node : {k : ℕ} (t : Token) (n : TokenNode) → Takes k k (put_node t n)
unfolding put_node
Takes-put_node t n = record { at = λ p v h. (v, h) }

pub After-widen : {A : Type 0} (i j k : ℕ) (r : Result A) → j ≤ i → After j k r → After i k r
After-widen i j k (done a q) l g = g
After-widen i j k (fail q) l g = (g.0, omega (arith, g.1))
After-widen i j k panic l g = tt
After-widen i j k diverged l g = g

module _ {A B : Type 0} (m : M A) (f : A → M B) where
  pub After-bind :
      (i j k : ℕ) (p : Parser)
      → After i j (m p)
      → ((a : A) (q : Parser) → IsValid q.scanner → left q < j → After i k (f a q))
      → After i k ((m >>= f) p)
  unfolding ◌>>=◌
  After-bind i j k p g r = go (m p) g
    where
      go :
          (x : Result A)
          → After i j x
          → After i k
              (elim x [ done a q ↦ f a q | fail q ↦ fail q | panic ↦ panic | diverged ↦ diverged ])
      go (done a q) g = r a q g.0 g.1
      go (fail q) g = g
      go panic g = tt
      go diverged g = g

module _ {A B : Type 0} {m : M A} {f : A → M B} where
  -- The first call keeps the bound.
  pub Takes-bind : {j k : ℕ} → Takes j j m → ((a : A) → Takes j k (f a)) → Takes j k (m >>= f)
  Takes-bind {j} {k} r s = record {
    at = λ p v h. After-bind m f j j k p (r.at p v h) λ a q w l. (s a).at q w l;
  }

  -- The first call reads a token.
  pub Takes-eat :
      {k : ℕ} → Takes (suc k) k m → ((a : A) → Takes k k (f a)) → Takes (suc k) k (m >>= f)
  Takes-eat {k} r s = record {
    at = λ p v h.
        After-bind m f (suc k) k k p (r.at p v h)
          λ a q w l. After-widen (suc k) k k (f a q) (omega arith) ((s a).at q w l);
  }

pub After-mono : {A : Type 0} (j k : ℕ) (r : Result A) → After j k r → After j (suc k) r
After-mono j k (done a q) g = (g.0, omega (arith, g.1))
After-mono j k (fail q) g = g
After-mono j k panic g = tt
After-mono j k diverged g = g

-- What reads a token keeps the bound.
pub Takes-weaken : {A : Type 0} {k : ℕ} {m : M A} → Takes (suc k) k m → Takes (suc k) (suc k) m
Takes-weaken {k = k} {m} r = record { at = λ p v h. After-mono (suc k) k (m p) (r.at p v h) }
