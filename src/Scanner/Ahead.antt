-- ===== src/Scanner/Ahead.antt =====
-- The input that a scanner of pkg/parser/api/scanner/scanner.go has ahead, and reading on in it.
use goctl.Base.{
  ℕ, zero, suc, ◌+◌, ◌≤◌, ◌<◌, ◌≡◌, refl, ◌∙◌, ap, Bool, true, false, [], ◌∷◌, ◌++◌, Text, arith,
  length, get_or, drop, slice, drop-eq-cons, length-drop_cons, slice-eq_of_drop, length-drop-le,
  All,
}
use goctl.Scanner.State.{Scanner, read_rune, read_while}
use goctl.Scanner.Valid.{
  IsValid, SameInput, read_rune-IsValid, SameInput-read_rune, position-read_rune,
}

-- `xs` is what is left of the input, the current rune included.
pub record Ahead (xs : Text) (s : Scanner) : Type 0 where
  pub valid : IsValid s
  pub rest : drop s.position s.runes ≡ xs

unfoldable pub advance : ℕ → Scanner → Scanner
advance zero s = s
advance (suc n) s = advance n (read_rune s)

-- The first rune ahead, or NUL.
abbrev pub first : Text → ℕ
first [] = 0
first (c ∷ cs) = c

get_or-drop : (xs : Text) (i : ℕ) → get_or xs i 0 ≡ first (drop i xs)
get_or-drop [] zero = refl
get_or-drop [] (suc i) = refl
get_or-drop (x ∷ xs) zero = refl
get_or-drop (x ∷ xs) (suc i) = get_or-drop xs i

pub Ahead-ch : {xs : Text} {s : Scanner} → Ahead xs s → s.ch ≡ first xs
Ahead-ch {xs} {s} a = a.valid.current ∙ get_or-drop s.runes s.position ∙ ap first a.rest

Ahead-inside : {c : ℕ} {xs : Text} {s : Scanner} → Ahead (c ∷ xs) s → s.position < s.size
Ahead-inside {c} {xs} {s} a =
    omega (arith, length-drop_cons s.runes xs s.position c a.rest, a.valid.sized)

pub Ahead-read_rune : {c : ℕ} {xs : Text} {s : Scanner} → Ahead (c ∷ xs) s → Ahead xs (read_rune s)
unfolding read_rune
Ahead-read_rune {c} {xs} {s} a =
    let l = Ahead-inside a in
    let l' : s.position < length s.runes = omega (arith, l, a.valid.sized) in
    let e : s.read_position ≡ suc s.position = omega (arith, a.valid.next) in
    record {
      valid = read_rune-IsValid a.valid (omega arith);
      rest = rw e (cc (drop-eq-cons s.runes s.position 0 l', a.rest));
    }

pub Ahead-advance :
    (ys : Text) {xs : Text} {s : Scanner} → Ahead (ys ++ xs) s → Ahead xs (advance (length ys) s)
unfolding advance
Ahead-advance [] a = a
Ahead-advance (y ∷ ys) a = Ahead-advance ys (Ahead-read_rune a)

pub position-advance :
    (ys xs : Text) {s : Scanner}
    → Ahead (ys ++ xs) s
    → (advance (length ys) s).position ≡ s.position + length ys
unfolding advance
position-advance [] xs a = omega arith
position-advance (y ∷ ys) xs a =
    omega (arith, position-advance ys xs (Ahead-read_rune a), position-read_rune a.valid)

pub SameInput-advance : (n : ℕ) {s0 s : Scanner} → SameInput s0 s → SameInput s0 (advance n s)
unfolding advance
SameInput-advance zero h = h
SameInput-advance (suc n) h = SameInput-advance n (SameInput-read_rune h)

-- The text from here to behind `ys`.
pub slice-advance :
    (ys xs : Text) {s : Scanner}
    → Ahead (ys ++ xs) s
    → slice s.runes s.position (s.position + length ys) ≡ ys
slice-advance ys xs {s} a = slice-eq_of_drop s.runes ys xs s.position a.rest

-- The loop reads the runes that pass its test, and stops before one that does not.
pub read_while-advance :
    (test : ℕ → Bool) (ys xs : Text) (n : ℕ) {s : Scanner}
    → Ahead (ys ++ xs) s
    → All (λ c. test c ≡ true) ys
    → test (first xs) ≡ false
    → length ys < n
    → read_while test n s ≡ advance (length ys) s
unfolding read_while advance
read_while-advance test ys xs zero a p q h = absurd (omega arith)
read_while-advance test [] xs (suc n) {s} a p q h =
    let t : test s.ch ≡ false = ap test (Ahead-ch a) ∙ q in rw (t, read_while)
read_while-advance test (y ∷ ys) xs (suc n) {s} a p q h =
    let t : test s.ch ≡ true = ap test (Ahead-ch a) ∙ p.0 in
    rw (t, read_while) (read_while-advance test ys xs n (Ahead-read_rune a) p.1 q (omega arith))

-- No more runes are ahead than the input has.
pub length-Ahead : (xs : Text) {s : Scanner} → Ahead xs s → length xs ≤ s.size
length-Ahead xs {s} a = rw (← a.rest, a.valid.sized) (length-drop-le s.runes s.position)
