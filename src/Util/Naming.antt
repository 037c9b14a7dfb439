-- ===== src/Util/Naming.antt =====
-- `FileNamingFormat` of util/format/format.go. `strings.ToUpper`, `strings.ToLower` and
-- `strings.Title` are parameters. Formats, styled pieces and results are the bytes of their strings,
-- since the code takes byte offsets; the content of `split` is the runes that `ReadRune` returns.
use goctl.Ast.Nodes.{join}
use goctl.Base.{
  ℕ, suc, ◌+◌, Bool, true, false, ◌&&◌, List, [], ◌∷◌, ◌++◌, Option, none, some, Text, codes, ltb,
  leb, ◌==◌, text_eq, if◌then◌else◌, length, slice,
}
use goctl.Util.Utf8.{write_pieces}

pub data Style : Type 0 where
  title lower upper : Style

-- A call returns a value, `ErrNamingFormat`, the error of `getStyle`, or panics at an index out of
-- range.
pub data Naming {ℓ} (A : Type ℓ) : Type ℓ where
  named : A → Naming A
  unsupported_format : Naming A
  unexpected_format : Text → Naming A
  out_of_range : Naming A

infixl 5 ◌>>=◌
abbrev pub ◌>>=◌ {ℓ κ} : {A : Type ℓ} {B : Type κ} → Naming A → (A → Naming B) → Naming B
named a >>= f = f a
unsupported_format >>= f = unsupported_format
unexpected_format s >>= f = unexpected_format s
out_of_range >>= f = out_of_range

unfoldable pub starts_with : Text → Text → Bool
starts_with [] s = true
starts_with (c ∷ p) [] = false
starts_with (c ∷ p) (d ∷ s) = c == d && starts_with p s

-- `strings.Index`; none is -1.
unfoldable pub index_of : Text → Text → Option ℕ
unfolding starts_with
index_of p [] = if starts_with p [] then some 0 else none
index_of p (c ∷ s) =
    let rest = index_of p s in
    if starts_with p (c ∷ s) then some 0 else elim rest [ none ↦ none | some i ↦ some (suc i) ]

-- Go's `s[lo:hi]`, on bytes.
unfoldable pub cut : Text → ℕ → ℕ → Naming Text
cut s lo hi = if leb lo hi && leb hi (length s) then named (slice s lo hi) else out_of_range

abbrev pub flush : Text → List Text → List Text
flush [] list = list
flush (c ∷ buffer) list = (c ∷ buffer) ∷ list

abbrev pub is_upper : ℕ → Bool
is_upper r = leb b'A' r && leb r b'Z'

-- `split`, with its buffer.
unfoldable pub split_loop : Text → Text → List Text
split_loop [] buffer = flush buffer []
split_loop (r ∷ s) buffer =
    let at_underscore = flush buffer (split_loop s []) in
    let at_upper = flush buffer (split_loop s (r ∷ [])) in
    let rest = split_loop s (buffer ++ r ∷ []) in
    if r == b'_' then at_underscore else (if is_upper r then at_upper else rest)

unfoldable pub split : Text → List Text
unfolding split_loop
split content = split_loop content []

module _ (to_upper to_lower to_title : Text → Text) where
  unfoldable pub get_style : Text → Naming Style
  unfolding text_eq
  get_style flag =
      let low = to_lower flag in
      if text_eq flag (to_lower low)
      then named lower
      else if text_eq flag (to_upper low)
      then named upper
      else if text_eq flag (to_title low)
      then named title
      else unexpected_format flag

  unfoldable pub transfer_to : Text → Style → Text
  transfer_to s upper = to_upper s
  transfer_to s lower = to_lower s
  transfer_to s title = to_title s

  unfoldable pub transfer_all : Style → List Text → List Text
  unfolding transfer_to
  transfer_all z [] = []
  transfer_all z (s ∷ ss) = transfer_to s z ∷ transfer_all z ss

  -- The loop of `doFormat`: the first piece in the style of `go`, the others in that of `zero`.
  unfoldable pub transfer_pieces : Style → Style → List Text → List Text
  unfolding transfer_to transfer_all
  transfer_pieces g z [] = []
  transfer_pieces g z (s ∷ ss) = transfer_to s g ∷ transfer_all z ss

  unfoldable pub do_format : Text → Text → Text → Style → Style → Text → Text
  unfolding split write_pieces transfer_pieces join
  do_format before through after g z content =
      before ++ (join through (transfer_pieces g z (write_pieces (split content))) ++ after)

  unfoldable pub format_at : Text → Text → ℕ → ℕ → Naming Text
  unfolding cut get_style do_format
  format_at format content i j = do
    before ← cut format 0 i
    flag_go ← cut format i (i + 2)
    through ← cut format (i + 2) j
    flag_zero ← cut format j (j + 4)
    after ← cut format (j + 4) (length format)
    go_style ← get_style flag_go
    zero_style ← get_style flag_zero
    named (do_format before through after go_style zero_style content)

  unfoldable pub file_naming_format : Text → Text → Naming Text
  unfolding index_of format_at
  file_naming_format format content = elim (index_of (codes "GO") (to_upper format)) [
    | none ↦ unsupported_format
    | some i ↦ elim (index_of (codes "ZERO") (to_upper format)) [
      | none ↦ unsupported_format
      | some j ↦ if ltb j i then unsupported_format else format_at format content i j
    ]
  ]
