-- ===== src/Sqlshape/Shapes.antt =====
-- Canonical of internal/sqlshape/signature.go on texts that are put together from pieces.
use gstop.Base.{
  ℕ, zero, suc, ◌≤◌, ◌≡◌, refl, Bool, true, false, ◌||◌, not, List, [], ◌∷◌, ◌++◌, map, length,
  Option, none, some, ◌==◌, arith, ap, ◌∙◌, sym, subst, Bool-cases, inl, inr, All, length-append,
}
use gstop.Sqlshape.{
  Bytes, is_space, is_digit, is_word_start, is_word_part, lower, next, take_while, drop_while,
  skip_line, skip_block, skip_exponent, skip_sign, quoted, skip_number, has_prefix, scan_operator,
  Step, skips, emits, mark, quote, double_quote, step, tokens, join, canonical,
}
use gstop.Sqlshape.Lexing.{tokens-nil, step-word}
use gstop.Sqlshape.Symbols.{and_false}
use gstop.Sqlshape.Bytes.{is_blank-eq, digit-eq, letter-eq, word_byte-eq, small-eq, step-symbol}
use gstop.Sqlshape.Pieces.{
  Piece, blank, line_comment, block_comment, semicolon, text, name, placeholder, numbered, named,
  number, scientific, word, operator, symbol, Sign, unsigned, plus, minus, Operator, text_arrow,
  arrow, text_path, path, cast, assign, concat, at_least, at_most, differs, not_equal, escape,
  sign_bytes, operator_first, operator_others, first, others, print, IsOpen, digit, letter,
  AreDigits, AreDecimals, word_byte, IsValid, joins, AreApart, shape, add_shape, shapes,
}

append_assoc : (a b c : Bytes) → (a ++ b) ++ c ≡ a ++ (b ++ c)
append_assoc [] b c = refl
append_assoc (x ∷ a) b c = ap (λ v. x ∷ v) (append_assoc a b c)

drop_while-All :
    (p : ℕ → Bool) (w u : Bytes)
    → All (λ c. p c ≡ true) w
    → next p u ≡ false
    → drop_while p (w ++ u) ≡ u
unfolding drop_while next
drop_while-All p [] [] a n = refl
drop_while-All p [] (d ∷ u) a n = rw n refl
drop_while-All p (c ∷ w) u a n = rw (a.0) (drop_while-All p w u a.1 n)

take_while-All :
    (p : ℕ → Bool) (w u : Bytes)
    → All (λ c. p c ≡ true) w
    → next p u ≡ false
    → take_while p (w ++ u) ≡ w
unfolding take_while next
take_while-All p [] [] a n = refl
take_while-All p [] (d ∷ u) a n = rw n refl
take_while-All p (c ∷ w) u a n = rw (a.0) (ap (λ v. c ∷ v) (take_while-All p w u a.1 n))

skip_line-comment :
    (t u : Bytes)
    → All (λ c. (c == 10) ≡ false) t
    → next (λ d. not (d == 10)) u ≡ false
    → skip_line (t ++ u) ≡ u
unfolding skip_line next
skip_line-comment [] [] a n = refl
skip_line-comment [] (d ∷ u) a n = ground arith
skip_line-comment (c ∷ t) u a n = rw (a.0) (skip_line-comment t u a.1 n)

skip_block-comment : (t u : Bytes) → IsOpen t → skip_block (t ++ b'*' ∷ b'/' ∷ u) ≡ u
unfolding skip_block
skip_block-comment [] u o = refl
skip_block-comment (c ∷ []) u o = rw (and_false (c == b'*')) refl
skip_block-comment (c ∷ (d ∷ t)) u o = rw (o.0) (skip_block-comment (d ∷ t) u o.1)

quoted-closed : (q : ℕ) (u : Bytes) → next (λ d. d == q) u ≡ false → quoted q true u ≡ ([], u)
unfolding quoted next
quoted-closed q [] n = refl
quoted-closed q (d ∷ u) n = rw n refl

-- A quoted text is read to its closing quote.
quoted-escape :
    (q : ℕ) (v u : Bytes)
    → (q == q) ≡ true
    → next (λ d. d == q) u ≡ false
    → quoted q false (escape q v ++ q ∷ u) ≡ (escape q v ++ q ∷ [], u)
unfolding quoted escape
quoted-escape q [] u e n = let k = quoted-closed q u n in rw e (λ i. (q ∷ (k i).0, (k i).1))
quoted-escape q (c ∷ v) u e n =
    let ih = quoted-escape q v u e n in
    elim (Bool-cases (c == q)) [
      | inl h ↦ rw h (rw e (rw e (λ i. (q ∷ q ∷ (ih i).0, (ih i).1))))
      | inr h ↦ rw h (rw h (λ i. (c ∷ (ih i).0, (ih i).1)))
    ]

-- The classes of bytes, carried over to the lexer's.
digits : (ds : Bytes) → AreDigits ds → All (λ c. is_digit c ≡ true) ds
digits ds a = subst (λ (f : ℕ → Bool). All (λ c. f c ≡ true) ds) digit-eq a

decimals : (ds : Bytes) → AreDecimals ds → All (λ c. (is_digit c || c == b'.') ≡ true) ds
decimals ds a = subst (λ (f : ℕ → Bool). All (λ c. (f c || c == b'.') ≡ true) ds) digit-eq a

word_bytes : (w : Bytes) → All (λ c. word_byte c ≡ true) w → All (λ c. is_word_part c ≡ true) w
word_bytes w a = subst (λ (f : ℕ → Bool). All (λ c. f c ≡ true) w) word_byte-eq a

is_digit_of : (d : ℕ) → digit d ≡ true → is_digit d ≡ true
is_digit_of d h = subst (λ (f : ℕ → Bool). f d ≡ true) digit-eq h

digits_end : (u : Bytes) → next digit u ≡ false → next is_digit u ≡ false
digits_end u n = subst (λ f. next f u ≡ false) digit-eq n

word_ends : (u : Bytes) → next word_byte u ≡ false → next is_word_part u ≡ false
word_ends u n = subst (λ f. next f u ≡ false) word_byte-eq n

starts_word : (c : ℕ) → letter c ≡ true → is_word_start c ≡ true
starts_word c h = sym (letter-eq c) ∙ h

digit-no_sign : (e : ℕ) → is_digit e ≡ true → (e == b'+' || e == b'-') ≡ false
unfolding is_digit
digit-no_sign e h = ground arith

-- The digits of an exponent are read to their end.
skip_exponent-digits :
    (s : Sign) (e : ℕ) (es u : Bytes)
    → All (λ c. is_digit c ≡ true) (e ∷ es)
    → next is_digit u ≡ false
    → drop_while is_digit (skip_sign ((sign_bytes s ++ e ∷ es) ++ u)) ≡ u
unfolding skip_sign
skip_exponent-digits unsigned e es u a n =
    rw (digit-no_sign e a.0) (drop_while-All is_digit (e ∷ es) u a n)
skip_exponent-digits plus e es u a n = drop_while-All is_digit (e ∷ es) u a n
skip_exponent-digits minus e es u a n = drop_while-All is_digit (e ∷ es) u a n

advance : Option Bytes → Bytes → Step
advance none r = skips r
advance (some t) r = emits t r

step-number : (d : ℕ) (s : Bytes) → is_digit d ≡ true → step d s ≡ emits mark (skip_number (d ∷ s))
unfolding step is_space is_digit
step-number d s h = ground arith

e_no_dot : (is_digit b'e' || b'e' == b'.') ≡ false
unfolding is_digit
e_no_dot = refl

digit-decimal : (d : ℕ) → is_digit d ≡ true → (is_digit d || d == b'.') ≡ true
digit-decimal d h = rw h refl

-- A number ends before a byte that is no digit, no dot and no exponent.
number_ends :
    (u : Bytes)
    → next (λ d. digit d || d == b'.' || (d == b'e' || d == b'E')) u ≡ false
    → (next (λ c. is_digit c || c == b'.') u ≡ false) × (skip_exponent u ≡ u)
unfolding next skip_exponent is_digit
number_ends [] n = (refl, refl)
number_ends (d ∷ u) n = (ground arith, ground arith)

skip_number-decimals :
    (d : ℕ) (ds u : Bytes)
    → is_digit d ≡ true
    → All (λ c. (is_digit c || c == b'.') ≡ true) ds
    → next (λ d. digit d || d == b'.' || (d == b'e' || d == b'E')) u ≡ false
    → skip_number (d ∷ (ds ++ u)) ≡ u
unfolding skip_number
skip_number-decimals d ds u h a n =
    let k = number_ends u n in
    ap skip_exponent
      (drop_while-All (λ c. is_digit c || c == b'.') (d ∷ ds) u (digit-decimal d h, a) k.0)
    ∙ k.1

skip_number-scientific :
    (d : ℕ) (ds : Bytes) (s : Sign) (e : ℕ) (es u : Bytes)
    → is_digit d ≡ true
    → All (λ c. (is_digit c || c == b'.') ≡ true) ds
    → All (λ c. is_digit c ≡ true) (e ∷ es)
    → next is_digit u ≡ false
    → skip_number (d ∷ (ds ++ b'e' ∷ ((sign_bytes s ++ e ∷ es) ++ u))) ≡ u
unfolding skip_number skip_exponent next
skip_number-scientific d ds s e es u h a b n =
    ap skip_exponent (
      drop_while-All (λ c. is_digit c || c == b'.') (d ∷ ds)
        (b'e' ∷ ((sign_bytes s ++ e ∷ es) ++ u)) (digit-decimal d h, a) e_no_dot)
    ∙ skip_exponent-digits s e es u b n

step-blank : (c : ℕ) (s : Bytes) → is_space c ≡ true → step c s ≡ skips s
unfolding step
step-blank c s h = rw h refl

step-semicolon : (s : Bytes) → step b';' s ≡ skips s
unfolding step is_space is_digit is_word_start
step-semicolon s = refl

step-operator :
    (o : Operator) (u : Bytes)
    → next (joins (operator o)) u ≡ false
    → step (operator_first o) (operator_others o ++ u)
      ≡ emits (operator_first o ∷ operator_others o) u
unfolding step is_space is_digit is_word_start scan_operator has_prefix next
step-operator text_arrow u n = refl
step-operator arrow [] n = refl
step-operator arrow (d ∷ u) n = ground arith
step-operator text_path u n = refl
step-operator path [] n = refl
step-operator path (d ∷ u) n = ground arith
step-operator cast u n = refl
step-operator assign u n = refl
step-operator concat u n = refl
step-operator at_least u n = refl
step-operator at_most u n = refl
step-operator differs u n = refl
step-operator not_equal u n = refl

-- A round at a valid piece takes it whole, and no more.
step-piece :
    (p : Piece) (u : Bytes)
    → IsValid p
    → next (joins p) u ≡ false
    → step (first p) (others p ++ u) ≡ advance (shape p) u
unfolding step is_space next advance
step-piece (blank c) u v n = step-blank c u (sym (is_blank-eq c) ∙ v)
step-piece (line_comment t) u v n = ap skips (skip_line-comment t u v n)
step-piece (block_comment t) u v n =
    ap (λ s. skips (skip_block s)) (append_assoc t (b'*' ∷ b'/' ∷ []) u)
    ∙ ap skips (skip_block-comment t u v)
step-piece semicolon u v n = step-semicolon u
step-piece (text t) u v n =
    ap (λ s. emits mark (quoted quote false s).1) (append_assoc (escape quote t) (quote ∷ []) u)
    ∙ ap (λ (r : Bytes × Bytes). emits mark r.1) (quoted-escape quote t u refl n)
step-piece (name t) u v n =
    ap (λ s. emits (double_quote ∷ (quoted double_quote false s).0) (quoted double_quote false s).1)
      (append_assoc (escape double_quote t) (double_quote ∷ []) u)
    ∙ ap (λ (r : Bytes × Bytes). emits (double_quote ∷ r.0) r.1)
        (quoted-escape double_quote t u refl n)
step-piece placeholder u v n = refl
step-piece (numbered d ds) u v n =
    rw (is_digit_of d v.0)
      (ap (emits mark) (drop_while-All is_digit ds u (digits ds v.1) (digits_end u n)))
step-piece (named c w) u v n =
    rw (starts_word c v.0)
      (ap (emits mark) (drop_while-All is_word_part w u (word_bytes w v.1) (word_ends u n)))
step-piece (number d ds) u v n =
    step-number d (ds ++ u) (is_digit_of d v.0)
    ∙ ap (emits mark) (skip_number-decimals d ds u (is_digit_of d v.0) (decimals ds v.1) n)
step-piece (scientific d ds s e es) u v n =
    ap (step d) (append_assoc ds (b'e' ∷ (sign_bytes s ++ e ∷ es)) u)
    ∙ step-number d (ds ++ b'e' ∷ ((sign_bytes s ++ e ∷ es) ++ u)) (is_digit_of d v.0)
    ∙ ap (emits mark) (
        skip_number-scientific d ds s e es u (is_digit_of d v.0) (decimals ds v.1)
          (digits (e ∷ es) (v.2, v.3)) (digits_end u n))
step-piece (word c w) u v n =
    let a = word_bytes w v.1 in
    let k = word_ends u n in
    step-word c (w ++ u) (starts_word c v.0)
    ∙ (λ i.
        emits (map lower (c ∷ take_while-All is_word_part w u a k i))
          (drop_while-All is_word_part w u a k i))
    ∙ ap (λ (f : ℕ → ℕ). emits (map f (c ∷ w)) u) (sym small-eq)
step-piece (operator o) u v n = step-operator o u n
step-piece (symbol c) u v n = step-symbol c u v n

-- A round at a piece.
tokens-piece :
    (fuel c : ℕ) (s : Bytes) (t : Option Bytes) (u : Bytes)
    → step c s ≡ advance t u
    → tokens (suc fuel) (c ∷ s) ≡ add_shape t (tokens fuel u)
unfolding tokens advance
tokens-piece fuel c s none u e = rw (e, tokens) refl
tokens-piece fuel c s (some t) u e = rw (e, tokens) refl

AreApart-next :
    (p : Piece) (ps : List Piece)
    → AreApart (p ∷ ps)
    → (next (joins p) (print ps) ≡ false) × AreApart ps
unfolding print next
AreApart-next p [] a = (refl, tt)
AreApart-next p (q ∷ ps) a = a

tokens-print :
    (ps : List Piece) (fuel : ℕ)
    → All IsValid ps
    → AreApart ps
    → length (print ps) ≤ fuel
    → tokens fuel (print ps) ≡ shapes ps
unfolding print shapes
tokens-print [] fuel v a h = tokens-nil fuel
tokens-print (p ∷ ps) zero v a h = absurd (omega (arith, h))
tokens-print (p ∷ ps) (suc fuel) v a h =
    let (n, b) = AreApart-next p ps a in
    tokens-piece fuel (first p) (others p ++ print ps) (shape p) (print ps)
      (step-piece p (print ps) v.0 n)
    ∙ ap (add_shape (shape p))
        (tokens-print ps fuel v.1 b (omega (arith, h, length-append (others p) (print ps))))

-- The canonical form of a text that is put together from valid pieces, none of which is joined by the
-- byte after it, is that of their shapes: the values, the binds, the blanks, the comments, the
-- semicolons and the case of the words make no difference, and every other token stands in it, in
-- order. Pieces may stand next to each other with nothing between them.
pub canonical-print :
    (ps : List Piece) → All IsValid ps → AreApart ps → canonical (print ps) ≡ join (shapes ps)
unfolding canonical
canonical-print ps v a = ap join (tokens-print ps (length (print ps)) v a (omega arith))
