-- ===== src/Config/Lines.antt =====
-- How internal/config/parse.go reads the lines of a file into a tree. Opening and scanning the file is
-- not modelled: the lines are given.
use gstop.Base.{
  ℕ, suc, ◌+◌, ◌-◌, ◌||◌, not, List, [], ◌∷◌, ◌++◌, Option, none, some, length, take, drop, ltb,
  ◌==◌, if◌then◌else◌,
}
use gstop.Config.Keys.{Bytes, Value, Tree, empty, set_path}
use gstop.Config.Values.{GoStrings, starts_with, ends_with, index_byte, parse_value}

-- The errors, with the number of the line.
pub data LoadError : Type 0 where
  malformed_header empty_header outside_section no_option : ℕ → LoadError

pub data Loaded (A : Type 0) : Type 0 where
  loaded : A → Loaded A
  failed : LoadError → Loaded A

-- strings.Split(key, "."), which has a first part always
unfoldable pub split : Bytes → Bytes × List Bytes
split [] = ([], [])
split (c ∷ s) = let (f, rest) = split s in if c == b'.' then ([], f ∷ rest) else (c ∷ f, rest)

unfoldable pub set_dotted : {F : Type 0} → Bytes → Value F → Tree F → Tree F
set_dotted key v t = let (s, ss) = split key in set_path s ss v t

-- The first delimiter: the earlier one of both.
unfoldable pub delimiter : Option ℕ → Option ℕ → Option ℕ
delimiter none colon = colon
delimiter (some eq) none = some eq
delimiter (some eq) (some colon) = if ltb colon eq then some colon else some eq

module _ {F : Type 0} (go : GoStrings F) where
  unfoldable pub cut : Bytes → Option ℕ → Option (Bytes × Bytes)
  cut line none = none
  cut line (some i) =
      if i == 0 then none else some (go.trim_space (take i line), go.trim_space (drop (i + 1) line))

  unfoldable pub split_option : Bytes → Option (Bytes × Bytes)
  split_option line = cut line (delimiter (index_byte b'=' line) (index_byte b':' line))

  -- An option of the section, as the code sets it.
  unfoldable pub add_option : ℕ → Bytes → Tree F → Option (Bytes × Bytes) → Loaded (Tree F)
  add_option n section t none = failed (no_option n)
  add_option n section t (some (key, raw)) =
      loaded (set_dotted (section ++ b'.' ∷ go.to_lower key) (parse_value go raw) t)

  unfoldable pub read_header : ℕ → Bytes → Loaded Bytes
  read_header n line =
      let section = go.trim_space (take (length line - 2) (drop 1 line)) in
      if not (ends_with b']' line)
      then failed (malformed_header n)
      else if length section == 0
      then failed (empty_header n)
      else loaded section

  abbrev pub with_section : Tree F → Loaded Bytes → Loaded (Option Bytes × Tree F)
  with_section t (loaded section) = loaded (some section, t)
  with_section t (failed e) = failed e

  abbrev pub with_tree : Option Bytes → Loaded (Tree F) → Loaded (Option Bytes × Tree F)
  with_tree section (loaded t) = loaded (section, t)
  with_tree section (failed e) = failed e

  unfoldable pub read_option : ℕ → Option Bytes → Tree F → Bytes → Loaded (Option Bytes × Tree F)
  read_option n none t line = failed (outside_section n)
  read_option n (some section) t line =
      with_tree (some section) (add_option n section t (split_option line))

  unfoldable pub read_line : ℕ → Option Bytes → Tree F → Bytes → Loaded (Option Bytes × Tree F)
  read_line n section t raw =
      let line = go.trim_space raw in
      if length line == 0 || starts_with b'#' line || starts_with b';' line
      then loaded (section, t)
      else if starts_with b'[' line
      then with_section t (read_header n line)
      else read_option n section t line

  unfoldable pub load_lines : ℕ → Option Bytes → Tree F → List Bytes → Loaded (Tree F)
  load_lines n section t [] = loaded t
  load_lines n section t (line ∷ lines) = elim (read_line (suc n) section t line) [
    | failed e ↦ failed e
    | loaded (next, u) ↦ load_lines (suc n) next u lines
  ]

  unfoldable pub load_file : List Bytes → Loaded (Tree F)
  load_file lines = load_lines 0 none empty lines
