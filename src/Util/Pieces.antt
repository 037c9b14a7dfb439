-- ===== src/Util/Pieces.antt =====
-- The pieces into which `split` of util/format/format.go cuts a name.
use goctl.Base.{
  ℕ, ◌≡◌, refl, ap, ◌∙◌, inl, inr, Bool, true, false, not, ◌&&◌, Bool-cases, List, [], ◌∷◌, ◌++◌,
  append_assoc, Text, All, ◌==◌, if◌then◌else◌,
}
use goctl.Util.Naming.{flush, is_upper, split_loop, split}

abbrev pub is_plain : ℕ → Bool
is_plain c = not (c == b'_') && not (is_upper c)

-- A piece is not empty; no underscore is in it, and no capital but at its head.
abbrev pub IsPiece : Text → Type 0
IsPiece [] = ⊥
IsPiece (r ∷ s) = ((r == b'_') ≡ false) × All (λ c. is_plain c ≡ true) s

abbrev pub concat_all : List Text → Text
concat_all [] = []
concat_all (s ∷ ss) = s ++ concat_all ss

abbrev pub without_underscores : Text → Text
without_underscores [] = []
without_underscores (c ∷ s) = if c == b'_' then without_underscores s else c ∷ without_underscores s

concat_all-flush :
    (buffer : Text) (ss : List Text) → concat_all (flush buffer ss) ≡ buffer ++ concat_all ss
concat_all-flush [] ss = refl
concat_all-flush (c ∷ buffer) ss = refl

concat_all-split_loop :
    (s buffer : Text) → concat_all (split_loop s buffer) ≡ buffer ++ without_underscores s
unfolding split_loop
concat_all-split_loop [] buffer = concat_all-flush buffer []
concat_all-split_loop (r ∷ s) buffer = elim (Bool-cases (r == b'_')) [
  | inl e ↦ rw e (
      concat_all-flush buffer (split_loop s [])
      ∙ ap (λ x. buffer ++ x) (concat_all-split_loop s []))
  | inr e ↦ elim (Bool-cases (is_upper r)) [
    | inl f ↦
        rw (e, f)
          (concat_all-flush buffer (split_loop s (r ∷ []))
            ∙ ap (λ x. buffer ++ x) (concat_all-split_loop s (r ∷ [])))
    | inr f ↦
        rw (e, f)
          (concat_all-split_loop s (buffer ++ r ∷ [])
            ∙ append_assoc buffer (r ∷ []) (without_underscores s))
  ]
]

-- The buffer holds nothing or the beginning of a piece.
abbrev IsBuffer : Text → Type 0
IsBuffer [] = Unit
IsBuffer (r ∷ s) = IsPiece (r ∷ s)

flush-IsPiece :
    (buffer : Text) (ss : List Text)
    → IsBuffer buffer
    → All IsPiece ss
    → All IsPiece (flush buffer ss)
flush-IsPiece [] ss h k = k
flush-IsPiece (r ∷ s) ss h k = (h, k)

All-concat :
    (s : Text) (c : ℕ)
    → All (λ x. is_plain x ≡ true) s
    → is_plain c ≡ true
    → All (λ x. is_plain x ≡ true) (s ++ c ∷ [])
All-concat [] c h k = (k, tt)
All-concat (x ∷ s) c h k = (h.0, All-concat s c h.1 k)

IsBuffer-concat :
    (buffer : Text) (c : ℕ)
    → IsBuffer buffer
    → (c == b'_') ≡ false
    → is_upper c ≡ false
    → IsBuffer (buffer ++ c ∷ [])
IsBuffer-concat [] c h e f = (e, tt)
IsBuffer-concat (r ∷ s) c h e f = (h.0, All-concat s c h.1 (rw (e, f) refl))

split_loop-IsPiece : (s buffer : Text) → IsBuffer buffer → All IsPiece (split_loop s buffer)
unfolding split_loop
split_loop-IsPiece [] buffer h = flush-IsPiece buffer [] h tt
split_loop-IsPiece (r ∷ s) buffer h = elim (Bool-cases (r == b'_')) [
  | inl e ↦ rw e (flush-IsPiece buffer (split_loop s []) h (split_loop-IsPiece s [] tt))
  | inr e ↦ elim (Bool-cases (is_upper r)) [
    | inl f ↦
        rw (e, f)
          (flush-IsPiece buffer (split_loop s (r ∷ [])) h (split_loop-IsPiece s (r ∷ []) (e, tt)))
    | inr f ↦ rw (e, f) (split_loop-IsPiece s (buffer ++ r ∷ []) (IsBuffer-concat buffer r h e f))
  ]
]

-- No piece of `split` is empty or has an underscore, and no piece has a capital letter of ASCII but
-- at its head; joined, the pieces are the content without its underscores.
pub split-IsPiece :
    (content : Text)
    → All IsPiece (split content) × (concat_all (split content) ≡ without_underscores content)
unfolding split
split-IsPiece content = (split_loop-IsPiece content [] tt, concat_all-split_loop content [])
