-- ===== src/Config/Examples.antt =====
-- Tests and an instance for the configuration.
use gstop.Base.{ℕ, ◌≡◌, refl, List, [], ◌∷◌, none, some, ◌⊎◌, inl, inr}
use gstop.Config.{
  Args, of_interval, of_user, main_word, interval_word, log_interval_word, word, override,
  apply_overrides, int_from, clamp, main_get, post_process, load,
}
use gstop.Config.Keys.{
  Bytes, same_bytes, pos, ltℤ, int, text, table, Tree, empty, entry, find, put, get, set_path,
}
use gstop.Config.Values.{
  GoStrings, starts_with, ends_with, index_byte, all_digits, is_digits, digits_value, parse_int,
  as_int, parse_value, is_quoted, word_value, is_decimal, without_dot, contains,
}
use gstop.Config.Lines.{
  loaded, failed, malformed_header, split, set_dotted, delimiter, cut, split_option, add_option,
  read_header, read_option, read_line, load_lines, load_file,
}
use gstop.Config.Loading.{IsClamped, IsLowered, get-load}

-- Texts without space at their ends or capitals, and whole numbers.
abbrev plain : GoStrings ℕ
plain = record {
  trim_space = λ s. s;
  to_lower = λ s. s;
  parse_float = λ s. none;
  truncate = λ n. pos n;
}

-- [main], then user=a and log_interval:5
abbrev lines : List Bytes
lines =
    (b'[' ∷ b'm' ∷ b'a' ∷ b'i' ∷ b'n' ∷ b']' ∷ [])
    ∷ (b'u' ∷ b's' ∷ b'e' ∷ b'r' ∷ b'=' ∷ b'a' ∷ [])
    ∷ (b'l' ∷ b'o' ∷ b'g' ∷ b'_' ∷ b'i' ∷ b'n' ∷ b't' ∷ b'e' ∷ b'r' ∷ b'v' ∷ b'a' ∷ b'l' ∷ b':'
        ∷ b'5' ∷ [])
    ∷ []

abbrev args : Args
args = record {
  interval = some (pos 9);
  log_interval = none;
  user = some (b'b' ∷ []);
  port = none;
  database = none;
  daemon = none;
}

abbrev result : Tree ℕ
result =
    entry main_word
      (table (
        entry (word of_user) (text (b'b' ∷ []))
          (entry log_interval_word (int (pos 5)) (entry interval_word (int (pos 5)) empty))))
      empty

loads : load plain lines args (of_user ∷ of_interval ∷ []) ≡ loaded result
unfolding load load_file load_lines read_line read_option read_header split_option cut delimiter
    add_option set_dotted split starts_with ends_with index_byte parse_value is_quoted is_digits
    all_digits parse_int digits_value word_value is_decimal without_dot contains as_int same_bytes
    find put get set_path override apply_overrides int_from clamp post_process ltℤ
loads = refl

refuses : load plain ((b'[' ∷ b'm' ∷ []) ∷ []) args [] ≡ failed (malformed_header 1)
unfolding load load_file load_lines read_line read_header starts_with ends_with
refuses = refl

get-load_example :
    ((main_get interval_word result ≡ some (int (pos 9)))
      ⊎ ((of_interval ≡ of_interval) × IsLowered plain result))
    × IsClamped plain result
unfolding override
get-load_example =
    get-load plain lines args (of_user ∷ of_interval ∷ []) result of_interval (int (pos 9)) loads
      refl (inr (inl refl))
