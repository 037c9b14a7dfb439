-- ===== src/Parser/Advance.antt =====
-- `nextToken` of pkg/parser/api/parser/parser.go: what it reads.
use goctl.Base.{
  ℕ, zero, suc, ◌+◌, ◌<◌, ◌≡◌, inl, inr, Bool, true, false, ◌&&◌, ◌||◌, List, [], ◌∷◌, ◌++◌, Option,
  none, some, ◌==◌, if◌then◌else◌, arith, Bool-cases,
}
use goctl.Ast.{TokenNode}
use goctl.Parser.Measure.{
  distance, weight, left, After, Takes, Takes-pure, Takes-crash, Takes-gets, Takes-option,
  Takes-put_node, After-bind, After-widen, Takes-bind,
}
use goctl.Parser.State.{
  scan_error, Parser, M, pure, crash, fail_with, gets, put_node, set_scanner, set_head_comments,
  set_cur, append_stmts, set_peek, out_of_fuel, node_of, ◌>>=◌, ◌>>◌,
}
use goctl.Parser.Tokens.{scan_peek, skip_comments, same_line, make_node, set_leading, advance}
use goctl.Scanner.Next.{next_token}
use goctl.Scanner.Progress.{Returns, next_token-Returns}
use goctl.Scanner.Quoted as Quoted
use goctl.Scanner.State.{Scanner}
use goctl.Scanner.Valid.{IsValid}
use goctl.Token.Defs.{Token, error_token, is_valid, line}
use goctl.Token.Kind.{eof, comment, document}

-- Behind a token, what is left is at most what the scanner had to read.
left_behind :
    (t : Token) (s s' : Scanner) (k : ℕ)
    → Returns s (Quoted.ok t s')
    → distance s < k
    → distance s' + weight t.type < k
left_behind t s s' k (f, inl l) h = ground (arith, f.valid.bounded, f.size)
left_behind t s s' k (f, inr (inl e)) h = ground (arith, f.behind, f.size)
left_behind t s s' k (f, inr (inr (e, a))) h = ground (arith, f.behind, f.size)

scan_peek-After :
    (k : ℕ) (p : Parser) → IsValid p.scanner → distance p.scanner < k → After k k (scan_peek p)
unfolding scan_peek gets ◌>>=◌ set_scanner set_peek fail_with out_of_fuel
scan_peek-After k p v h = go (next_token p.scanner) (next_token-Returns p.scanner v)
  where
    go :
        (r : Quoted.Scan)
        → Returns p.scanner r
        → (let m : M (Unit {0}) = elim r [
          | Quoted.ok t s ↦ (do set_scanner s; set_peek t)
          | Quoted.err e s ↦ (do set_scanner s; set_peek error_token; fail_with (scan_error e))
          | Quoted.diverged ↦ out_of_fuel
        ] in
            After k k (m p))
    go (Quoted.ok t s) g = (g.0.valid, left_behind t p.scanner s k g h)
    go (Quoted.err e s) g = (g.valid, ground (arith, g.behind, g.size))
    go Quoted.diverged g = g

-- What is left is the weight of the next token and what the scanner has to read.
left-comment_lt :
    (k : ℕ) (p : Parser)
    → (p.peek.type == comment || p.peek.type == document) ≡ true
    → left p < suc k
    → distance p.scanner < k
left-comment_lt k p e h = ground arith

After-if :
    {A : Type 0} (k : ℕ) (b : Bool) (m n : M A) (p : Parser)
    → After k k (m p)
    → After k k (n p)
    → After k k ((if b then m else n) p)
After-if k true m n p r s = r
After-if k false m n p r s = s

-- The bound on a token is the distance, and on an error any that is above it.
scan_close :
    (k : ℕ) (p : Parser)
    → IsValid p.scanner
    → distance p.scanner < k
    → After k (suc (distance p.scanner)) (scan_peek p)
scan_close k p v h =
    After-widen k (suc (distance p.scanner)) (suc (distance p.scanner)) (scan_peek p) (omega arith)
      (scan_peek-After (suc (distance p.scanner)) p v (omega arith))

-- Scanning once more, in front of an action that ends.
scan_on :
    (n k : ℕ) (f : M (List Token)) (p : Parser)
    → IsValid p.scanner
    → distance p.scanner < n
    → distance p.scanner < k
    → ((q : Parser) → IsValid q.scanner → left q < n → left q < k → After k k (f q))
    → After k k ((scan_peek >> f) p)
scan_on n k f p v h g r =
    After-bind scan_peek (λ _. f) k (suc (distance p.scanner)) k p (scan_close k p v g)
      λ a q w b. r q w (omega (arith, b)) (omega (arith, b))

skip_comments-After :
    (n k : ℕ) (l : Option ℕ) (leading : List Token) (p : Parser)
    → IsValid p.scanner
    → left p < n
    → left p < k
    → After k k (skip_comments n l leading p)
unfolding skip_comments gets ◌>>=◌ pure set_head_comments
skip_comments-After zero k l leading p v h g = absurd (omega arith)
skip_comments-After (suc n) k l leading p v h g =
    elim (Bool-cases (p.peek.type == comment || p.peek.type == document)) [
      | inl e ↦
          let h' = left-comment_lt n p e h in
          let g' : distance p.scanner < k = omega arith in
          let noted : Parser = record p {
            head_comment_group = p.head_comment_group ++ p.peek ∷ [];
          } in
          let again = skip_comments n l (leading ++ p.peek ∷ []) in
          rw e (
            After-if k (same_line l p.peek) (scan_peek >> again)
              (set_head_comments noted.head_comment_group
                >> (scan_peek >> skip_comments n l leading))
              p (scan_on n k again p v h' g' (skip_comments-After n k l _))
              (scan_on n k (skip_comments n l leading) noted v h' g'
                (skip_comments-After n k l leading)))
      | inr e ↦ rw e (v, g)
    ]

set_leading-Takes : {k : ℕ} (cs : List Token) → Takes k k (set_leading cs)
unfolding set_leading
set_leading-Takes [] = Takes-pure tt
set_leading-Takes (c ∷ cs) = Takes-bind (Takes-gets _) λ p.
    Takes-option (node_of p.cur p.nodes)
      (λ n. put_node p.cur (record n { leading_comments = c ∷ cs })) crash (λ n. Takes-put_node _ _)
      Takes-crash

-- The part of `advance` that reads on.
read_on :
    (n k : ℕ) (l : Option ℕ) (p : Parser)
    → IsValid p.scanner
    → distance p.scanner < n
    → distance p.scanner < k
    → After k k ((scan_peek >> (skip_comments n l [] >>= set_leading)) p)
read_on n k l p v h g =
    After-bind scan_peek _ k (suc (distance p.scanner)) k p (scan_close k p v g) λ a q w b.
      After-bind (skip_comments n l []) set_leading k k k q
        (skip_comments-After n k l [] q w (omega (arith, b)) (omega (arith, b)))
        λ ts u x y. (set_leading-Takes ts).at u x y

-- `nextToken` leaves at most what the scanner had to read.
pub advance-After :
    (k : ℕ) (p : Parser) → IsValid p.scanner → distance p.scanner < k → After k k (advance p)
unfolding advance make_node gets ◌>>=◌ pure set_head_comments set_cur append_stmts put_node
advance-After k p v h = elim (Bool-cases (is_valid p.peek && p.peek.type == eof)) [
  | inl e ↦ rw e (v, ground arith)
  | inr e ↦
      let fuel : distance p.scanner < suc (suc p.scanner.size) = omega arith in
      let moved : Parser = record p { cur = p.peek } in
      let node : TokenNode = record {
        token = p.peek;
        head_comments = p.head_comment_group;
        leading_comments = [];
      } in
      let made : Parser = record moved {
        nodes = (p.peek, node) ∷ p.nodes;
        head_comment_group = [];
      } in
      rw e (elim (Bool-cases (is_valid p.peek)) [
        | inl d ↦ rw d (read_on (suc (suc p.scanner.size)) k (some (line p.peek)) made v fuel h)
        | inr d ↦ rw d (read_on (suc (suc p.scanner.size)) k none moved v fuel h)
      ])
]
