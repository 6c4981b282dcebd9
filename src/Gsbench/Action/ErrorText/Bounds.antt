-- ===== src/Gsbench/Action/ErrorText/Bounds.antt =====
-- What journalSafeErrorText of internal/gsbench/action.go can return.
use Prim.Native.Char.{Char}
use Prim.Native.String.{String}
use text.Mathlib.Text.{◌==◌ as str_eq}
use mathlib.Core.List.{reverse, reverse-cons}
use gstop.Base.{
  ℕ, zero, suc, ◌≤◌, ◌≡◌, refl, ap, ◌⊎◌, inl, inr, Bool, false, List, [], ◌∷◌, leb, take, length,
  All, All-append, length-append, length-take, arith, Bool-cases,
}
use gstop.Gsbench.Action.Secrets.{GoText, contains_credential, fields, flush}
use gstop.Gsbench.Action.ErrorText.{
  chars, of_chars, join, truncate, redacted, separates, journal_safe_error_text,
  journal_error_max_runes,
}

chars-of_chars : (cs : List Char) → chars (of_chars cs) ≡ cs
chars-of_chars [] = refl
chars-of_chars (c ∷ cs) = ap (◌∷◌ c) (chars-of_chars cs)

length-truncate : (cs : List Char) → length (truncate cs) ≤ 512
unfolding truncate
length-truncate cs = elim (Bool-cases (leb (length cs) journal_error_max_runes)) [
  | inl e ↦ rw e (ground arith)
  | inr e ↦ rw e (omega (arith, length-append (take 511 cs) ("…" ∷ []), length-take 511 cs))
]

-- A character that the journal may keep: no separator, or one that it puts in itself.
abbrev pub IsKept : (Char → Bool) → Char → Type 0
IsKept sep c = (sep c ≡ false) ⊎ (c ≡ " ") ⊎ (c ≡ "…")

All-reverse {ℓ κ} : {A : Type ℓ} (P : A → Type κ) (xs : List A) → All P xs → All P (reverse xs)
All-reverse P [] h = h
All-reverse P (x ∷ xs) h =
    rw reverse-cons (All-append P (reverse xs) (x ∷ []) (All-reverse P xs h.1) (h.0, tt))

All-take {ℓ κ} : {A : Type ℓ} (P : A → Type κ) (n : ℕ) (xs : List A) → All P xs → All P (take n xs)
All-take P zero xs h = tt
All-take P (suc n) [] h = tt
All-take P (suc n) (x ∷ xs) h = (h.0, All-take P n xs h.1)

module _ (sep : Char → Bool) where
  flush-IsKept :
      (word : List Char) (rest : List (List Char))
      → All (IsKept sep) word
      → All (All (IsKept sep)) rest
      → All (All (IsKept sep)) (flush word rest)
  flush-IsKept [] rest h k = k
  flush-IsKept (c ∷ word) rest h k = (All-reverse (IsKept sep) (c ∷ word) h, k)

  fields-IsKept :
      (word cs : List Char) → All (IsKept sep) word → All (All (IsKept sep)) (fields sep word cs)
  unfolding fields
  fields-IsKept word [] h = flush-IsKept word [] h tt
  fields-IsKept word (c ∷ cs) h = elim (Bool-cases (sep c)) [
    | inl e ↦ rw e (flush-IsKept word (fields sep [] cs) h (fields-IsKept [] cs tt))
    | inr e ↦ rw e (fields-IsKept (c ∷ word) cs (inl e, h))
  ]

  join-IsKept : (ws : List (List Char)) → All (All (IsKept sep)) ws → All (IsKept sep) (join " " ws)
  join-IsKept [] h = tt
  join-IsKept (w ∷ []) h = h.0
  join-IsKept (w ∷ v ∷ ws) h =
      All-append (IsKept sep) w (" " ∷ join " " (v ∷ ws)) h.0
        (inr (inl refl), join-IsKept (v ∷ ws) h.1)

  truncate-IsKept : (cs : List Char) → All (IsKept sep) cs → All (IsKept sep) (truncate cs)
  unfolding truncate
  truncate-IsKept cs h = elim (Bool-cases (leb (length cs) journal_error_max_runes)) [
    | inl e ↦ rw e h
    | inr e ↦ rw e (
        All-append (IsKept sep) (take 511 cs) ("…" ∷ []) (All-take (IsKept sep) 511 cs h)
          (inr (inr refl), tt))
  ]

-- The text that the journal stores for an error is the redaction notice, or at most 512 characters,
-- none of them a control character or white space but for the blanks and the ellipsis that
-- journalSafeErrorText puts in.
pub journal_safe_error_text_bounds :
    (go : GoText) (value : String)
    → let stored = journal_safe_error_text go value in
      (stored ≡ redacted)
      ⊎ ((length (chars stored) ≤ 512) × All (IsKept (separates go)) (chars stored))
unfolding journal_safe_error_text
journal_safe_error_text_bounds go value = elim (Bool-cases (str_eq (go.trim_space value) "")) [
  | inl e ↦ rw e (inr (omega arith, tt))
  | inr e ↦ rw e (elim (Bool-cases (contains_credential go (go.trim_space value))) [
    | inl c ↦ rw c (inl refl)
    | inr c ↦
        let words = join " " (fields (separates go) [] (chars (go.trim_space value))) in
        rw (c, chars-of_chars)
          (inr (
            length-truncate words,
            truncate-IsKept (separates go) words (
                join-IsKept (separates go) (fields (separates go) [] (chars (go.trim_space value)))
                  (fields-IsKept (separates go) [] (chars (go.trim_space value)) tt)),
          ))
  ])
]
