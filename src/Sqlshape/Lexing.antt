-- ===== src/Sqlshape/Lexing.antt =====
-- What a round of Canonical's loop, internal/sqlshape/signature.go, makes of a token that stands before a space.
use gstop.Base.{
  ℕ, zero, suc, ◌≡◌, ◌⊎◌, inl, inr, refl, Bool, true, false, [], ◌∷◌, ◌++◌, map, ◌==◌, if-elim,
  arith, not, Bool-cases, All,
}
use gstop.Sqlshape.{
  Bytes, is_space, is_digit, is_word_start, is_word_part, lower, next, take_while, drop_while,
  quoted, has_prefix, emits, scan_operator, operators, mark, double_quote, step, tokens,
}

-- A token alone is read as itself, to the end of the text.
abbrev pub Final : Bytes → Type 0
Final [] = ⊥
Final (c ∷ t) = step c t ≡ emits (c ∷ t) []

-- ... and so it is before a space.
abbrev pub Closed : Bytes → Type 0
Closed [] = ⊥
Closed (c ∷ t) = (u : Bytes) → step c (t ++ b' ' ∷ u) ≡ emits (c ∷ t) (b' ' ∷ u)

pub tokens-nil : (fuel : ℕ) → tokens fuel [] ≡ []
unfolding tokens
tokens-nil zero = refl
tokens-nil (suc fuel) = refl

pub mark-Final : Final mark
unfolding step is_space
mark-Final = refl

pub mark-Closed : Closed mark
unfolding step is_space
mark-Closed u = refl

pub quoted_again :
    (flag : Bool) (s : Bytes)
    → quoted double_quote flag (quoted double_quote flag s).0 ≡ ((quoted double_quote flag s).0, [])
unfolding quoted
quoted_again flag [] = refl
quoted_again false (c ∷ s) =
    λ i. (c ∷ (quoted_again (c == double_quote) s i).0, (quoted_again (c == double_quote) s i).1)
quoted_again true (c ∷ s) =
    let ih = quoted_again false s in
    elim (Bool-cases (c == double_quote)) [
      | inl e ↦ rw e (rw e (λ i. (c ∷ (ih i).0, (ih i).1)))
      | inr e ↦ rw e refl
    ]

pub quoted_before_space :
    (flag : Bool) (s : Bytes)
    → ((quoted double_quote flag s).1 ≡ [])
      ⊎ ((u : Bytes)
          → quoted double_quote flag ((quoted double_quote flag s).0 ++ b' ' ∷ u)
            ≡ ((quoted double_quote flag s).0, b' ' ∷ u))
unfolding quoted
quoted_before_space flag [] = inl refl
quoted_before_space false (c ∷ s) = elim (quoted_before_space (c == double_quote) s) [
  | inl e ↦ inl e
  | inr e ↦ inr (λ u i. (c ∷ (e u i).0, (e u i).1))
]
quoted_before_space true (c ∷ s) = elim (Bool-cases (c == double_quote)) [
  | inl e ↦ elim (quoted_before_space false s) [
    | inl h ↦ inl (rw e h)
    | inr h ↦ inr (λ u. rw e (rw e (λ i. (c ∷ (h u i).0, (h u i).1))))
  ]
  | inr e ↦ inr (λ u. rw e refl)
]

-- Bytes that are parts of a word, and not capital letters.
unfoldable pub IsLowerPart : ℕ → Type 0
IsLowerPart c = (is_word_part c ≡ true) × (lower c ≡ c)

lower-IsLowerPart : (c : ℕ) → is_word_part c ≡ true → IsLowerPart (lower c)
unfolding IsLowerPart is_word_part is_word_start is_digit lower
lower-IsLowerPart c h = ground arith

pub word-IsLowerPart : (s : Bytes) → All IsLowerPart (map lower (take_while is_word_part s))
unfolding take_while
word-IsLowerPart [] = tt
word-IsLowerPart (c ∷ s) =
    if-elim (λ (w : Bytes). All IsLowerPart (map lower w)) (is_word_part c)
      (c ∷ take_while is_word_part s) [] (λ e. (lower-IsLowerPart c e, word-IsLowerPart s))
      (λ e. tt)

-- A word of such bytes is read whole, to the end or to a space.
pub whole_word :
    (w u : Bytes)
    → All IsLowerPart w
    → next is_word_part u ≡ false
    → (map lower (take_while is_word_part (w ++ u)) ≡ w) × (drop_while is_word_part (w ++ u) ≡ u)
unfolding take_while drop_while IsLowerPart next
whole_word [] [] a n = (refl, refl)
whole_word [] (d ∷ u) a n = (rw n refl, rw n refl)
whole_word (c ∷ w) u a n =
    let ih = whole_word w u a.1 n in (rw (a.0.0) (λ i. (a.0.1 i) ∷ (ih.0 i)), rw (a.0.0) ih.1)

-- A round at a byte that starts a word.
pub step-word :
    (c : ℕ) (s : Bytes)
    → is_word_start c ≡ true
    → step c s ≡ emits (map lower (c ∷ take_while is_word_part s)) (drop_while is_word_part s)
unfolding step is_space is_digit is_word_start
step-word c s h = ground arith

-- No operator of more than one byte begins with this byte and a space, or with it alone.
pub scan_operator-single :
    (c : ℕ) (u : Bytes)
    → next (λ d. not (d == b' ')) u ≡ false
    → scan_operator operators c u ≡ emits (c ∷ []) u
unfolding scan_operator has_prefix next
scan_operator-single c [] h = ground arith
scan_operator-single c (d ∷ u) h = ground arith
