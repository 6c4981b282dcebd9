-- ===== src/Gsbench/Action/ErrorText.antt =====
-- journalSafeErrorText of internal/gsbench/action.go: what the journal keeps of an error's text.
pub mod Bounds
use Prim.Native.Char.{Char, code}
use Prim.Native.String.{String}
use text.Mathlib.Text.{◌==◌ as str_eq}
use gstop.Base.{ℕ, Bool, ◌||◌, List, [], ◌∷◌, ◌++◌, leb, if◌then◌else◌, take, length}
use gstop.Gsbench.Action.Secrets.{GoText, contains_credential, fields}

abbrev pub chars : String → List Char
chars String.[] = []
chars (String.◌∷◌ c s) = c ∷ chars s

abbrev pub of_chars : List Char → String
of_chars [] = String.[]
of_chars (c ∷ cs) = String.◌∷◌ c (of_chars cs)

-- strings.Join(words, " ")
abbrev pub join : Char → List (List Char) → List Char
join sep [] = []
join sep (w ∷ []) = w
join sep (w ∷ v ∷ ws) = w ++ (sep ∷ join sep (v ∷ ws))

abbrev pub journal_error_max_runes : ℕ
journal_error_max_runes = 512

-- The cut after 511 runes and the ellipsis.
unfoldable pub truncate : List Char → List Char
truncate cs = if leb (length cs) journal_error_max_runes then cs else take 511 cs ++ ("…" ∷ [])

abbrev pub redacted : String
redacted = "journal error details redacted"

module _ (go : GoText) where
  open go use {trim_space, is_control, is_space}

  unfoldable pub separates : Char → Bool
  separates c = is_control (code c) || is_space (code c)

  unfoldable pub journal_safe_error_text : String → String
  unfolding truncate separates fields
  journal_safe_error_text value =
      let trimmed = trim_space value in
      if str_eq trimmed ""
      then ""
      else if contains_credential go trimmed
      then redacted
      else of_chars (truncate (join " " (fields separates [] (chars trimmed))))
