-- ===== src/Sqlshape/Relexing.antt =====
-- Canonical of internal/sqlshape/signature.go, applied to what it made.
use gstop.Base.{
  ℕ, zero, suc, ◌≤◌, ◌≡◌, ◌⊎◌, inl, inr, refl, true, false, ◌&&◌, ◌||◌, List, [], ◌∷◌, ◌++◌, map,
  length, ◌==◌, if-elim, arith, ap, ◌∙◌, sym, subst, All, length-append,
}
use gstop.Sqlshape.{
  Bytes, is_space, is_digit, is_word_start, is_word_part, lower, next, take_while, drop_while,
  quoted, has_prefix, drop_bytes, Step, skips, emits, scan_operator, operators, mark, quote,
  double_quote, step, tokens, join, canonical,
}
use gstop.Sqlshape.Lexing.{
  tokens-nil, Final, Closed, mark-Final, mark-Closed, quoted_again, quoted_before_space,
  word-IsLowerPart, whole_word, step-word,
}
use gstop.Sqlshape.Fuel.{tokens_enough}
use gstop.Sqlshape.Symbols.{IsPlain, plain-Final, plain-Closed, operators-Final, no_part}

-- The token of a round is read as itself, alone and before a space, or it ends the text.
abbrev Good : Step → Type 0
Good (skips r) = Unit
Good (emits t r) = Final t × (Closed t ⊎ (r ≡ []))

scan_operator-Good :
    (os : List Bytes) (c : ℕ) (s : Bytes)
    → All (λ o. Final o × Closed o) os
    → IsPlain c
    → Good (scan_operator os c s)
unfolding scan_operator
scan_operator-Good [] c s a p = (plain-Final c p, inl (plain-Closed c p))
scan_operator-Good (o ∷ os) c s a p =
    if-elim Good (has_prefix o (c ∷ s)) (emits o (drop_bytes o (c ∷ s))) (scan_operator os c s)
      (λ _. (a.0.0, inl a.0.1)) (λ _. scan_operator-Good os c s a.1 p)

quoted-Good :
    (s : Bytes)
    → Good (emits (double_quote ∷ (quoted double_quote false s).0) (quoted double_quote false s).1)
unfolding step is_space
quoted-Good s =
    let q = quoted_again false s in
    (
      λ i. emits (double_quote ∷ (q i).0) (q i).1,
      elim (quoted_before_space false s) [
        | inl e ↦ inr e
        | inr h ↦ inl (λ u i. emits (double_quote ∷ (h u i).0) (h u i).1)
      ],
    )

lower-word_start : (c : ℕ) → is_word_start c ≡ true → is_word_start (lower c) ≡ true
unfolding is_word_start lower
lower-word_start c h = ground arith

lower-lower : (c : ℕ) → lower (lower c) ≡ lower c
unfolding lower
lower-lower c = ground arith

append_nil : (w : Bytes) → w ++ [] ≡ w
append_nil [] = refl
append_nil (c ∷ w) = ap (λ v. c ∷ v) (append_nil w)

word-Good :
    (c : ℕ) (s r : Bytes)
    → is_word_start c ≡ true
    → Good (emits (map lower (c ∷ take_while is_word_part s)) r)
unfolding next
word-Good c s r h =
    let w = map lower (take_while is_word_part s) in
    let a = word-IsLowerPart s in
    let first = step-word (lower c) w (lower-word_start c h) in
    let e = whole_word w [] a refl in
    let l = lower-lower c in
    (
      first ∙ (λ i.
          emits
            (l i ∷ (ap (λ v. map lower (take_while is_word_part v)) (sym (append_nil w)) ∙ e.0) i)
            ((ap (drop_while is_word_part) (sym (append_nil w)) ∙ e.1) i)),
      inl (λ u.
          let f = whole_word w (b' ' ∷ u) a no_part in
          step-word (lower c) (w ++ b' ' ∷ u) (lower-word_start c h)
          ∙ (λ i. emits (l i ∷ f.0 i) (f.1 i))),
    )

-- A bind value or a number gives a mark.
mark-Good : (r : Bytes) → Good (emits mark r)
mark-Good r = (mark-Final, inl mark-Closed)

step-Good : (c : ℕ) (s : Bytes) → Good (step c s)
unfolding step IsPlain
step-Good c s =
    if-elim Good (is_space c) _ _ (λ _. tt)
      (λ sp.
        if-elim Good (c == b'-' && next (λ d. d == b'-') s) _ _ (λ _. tt)
          (λ _.
            if-elim Good (c == b'/' && next (λ d. d == b'*') s) _ _ (λ _. tt)
              (λ _.
                if-elim Good (c == quote) _ _ (λ _. mark-Good _)
                  (λ q.
                    if-elim Good (c == double_quote) _ _
                      (λ e.
                        let k : c ≡ double_quote = ground arith in
                        subst
                          (λ d. Good (
                            emits (d ∷ (quoted double_quote false s).0)
                              (quoted double_quote false s).1))
                          (sym k) (quoted-Good s))
                      (λ dq.
                        if-elim Good (c == b'?') _ _ (λ _. mark-Good _)
                          (λ m.
                            if-elim Good (c == b'$' && next is_digit s) _ _ (λ _. mark-Good _)
                              (λ _.
                                if-elim Good (c == b':' && next is_word_start s) _ _
                                  (λ _. mark-Good _)
                                  (λ _.
                                    if-elim Good (is_digit c || c == b'.' && next is_digit s) _ _
                                      (λ _. mark-Good _)
                                      (λ n.
                                        if-elim Good (is_word_start c) _ _ (λ w. word-Good c s _ w)
                                          (λ w.
                                            if-elim Good (c == b';') _ _ (λ _. tt)
                                              (λ z.
                                                let d : is_digit c ≡ false = ground arith in
                                                scan_operator-Good operators c s operators-Final
                                                  (sp, q, dq, m, d, w, z))))))))))))

-- Each token is read as itself, and all but the last before a space, too.
Chain : List Bytes → Type 0
Chain [] = Unit
Chain (t ∷ ts) = Final t × (Closed t ⊎ (ts ≡ [])) × Chain ts

tokens-Chain : (fuel : ℕ) (s : Bytes) → Chain (tokens fuel s)
unfolding tokens Chain
tokens-Chain zero s = tt
tokens-Chain (suc fuel) [] = tt
tokens-Chain (suc fuel) (c ∷ s) = by_step (step c s) (step-Good c s) (tokens-Chain fuel)
  where
    by_step :
        (st : Step)
        → Good st
        → ((r : Bytes) → Chain (tokens fuel r))
        → Chain (elim st as (λ _. List Bytes) [
          | skips r ↦ tokens fuel r
          | emits t r ↦ t ∷ tokens fuel r
        ])
    by_step (skips r) g ih = ih r
    by_step (emits t r) g ih =
        (g.0, elim g.1 [ inl h ↦ inl h | inr e ↦ inr (ap (tokens fuel) e ∙ tokens-nil fuel) ], ih r)

-- A round that appends a token, and one at a space.
tokens-emits :
    (fuel c : ℕ) (s t r : Bytes)
    → step c s ≡ emits t r
    → tokens (suc fuel) (c ∷ s) ≡ t ∷ tokens fuel r
unfolding tokens
tokens-emits fuel c s t r e = rw (e, tokens) refl

tokens-space : (fuel : ℕ) (s : Bytes) → tokens (suc fuel) (b' ' ∷ s) ≡ tokens fuel s
unfolding tokens step is_space
tokens-space fuel s = refl

tokens-join :
    (ts : List Bytes) (fuel : ℕ) → Chain ts → length (join ts) ≤ fuel → tokens fuel (join ts) ≡ ts
unfolding join Chain
tokens-join [] fuel c h = tokens-nil fuel
tokens-join ([] ∷ ts) fuel c h = absurd c.0
tokens-join ((b ∷ t) ∷ []) zero c h = absurd (omega (arith, h))
tokens-join ((b ∷ t) ∷ []) (suc fuel) c h =
    tokens-emits fuel b t (b ∷ t) [] c.0 ∙ ap (λ us. (b ∷ t) ∷ us) (tokens-nil fuel)
tokens-join ((b ∷ t) ∷ (u ∷ ts)) zero c h = absurd (omega (arith, h))
tokens-join ((b ∷ t) ∷ (u ∷ ts)) (suc zero) c h =
    absurd (omega (arith, h, length-append t (b' ' ∷ join (u ∷ ts))))
tokens-join ((b ∷ t) ∷ (u ∷ ts)) (suc (suc fuel)) c h = elim c.1 [
  | inl k ↦
      tokens-emits (suc fuel) b (t ++ b' ' ∷ join (u ∷ ts)) (b ∷ t) (b' ' ∷ join (u ∷ ts))
        (k (join (u ∷ ts)))
      ∙ ap (λ us. (b ∷ t) ∷ us)
          (tokens-space fuel (join (u ∷ ts))
            ∙ tokens-join (u ∷ ts) fuel c.2
                (omega (arith, h, length-append t (b' ' ∷ join (u ∷ ts)))))
  | inr e ↦ absurd (let q : ⊥ = cc in q)
]

-- Canonical changes nothing of what it made: its result is its own canonical form. One round of its
-- loop for each byte is enough: with any more the joined tokens are the same.
pub canonical-canonical :
    (sql : Bytes) (fuel : ℕ)
    → length sql ≤ fuel
    → (canonical (canonical sql) ≡ canonical sql) × (canonical sql ≡ join (tokens fuel sql))
unfolding canonical
canonical-canonical sql fuel h = (
  ap join (
      tokens-join (tokens (length sql) sql) (length (canonical sql)) (tokens-Chain (length sql) sql)
        (omega arith)),
  ap join (tokens_enough (length sql) fuel sql (omega arith) h),
)
