-- ===== src/Gsbench/Action/Samples.antt =====
-- Inputs for the tests: a small stand-in for Go's text functions, and two actions.
use text.Mathlib.Text.{◌==◌ as str_eq}
use gstop.Base.{◌+◌, false, ◌&&◌, ◌||◌, [], none, some, ltb, leb, ◌==◌, if◌then◌else◌}
use gstop.Gsbench.Action.{Action, sql_mutation, open_gauss, applied}
use gstop.Gsbench.Action.Secrets.{GoText, object, end, member, string}

abbrev pub ascii_text : GoText
ascii_text = record {
  trim_space = λ s. s;
  match_string = λ p s. str_eq s "password=x";
  unmarshal =
      λ s. if str_eq s "{sql}" then some (object (member "sql" (string "ANALYZE t") end)) else none;
  unmarshal_sql = λ s.
      if str_eq s "{sql}"
      then some (record {
        sql = "ANALYZE t";
        session_sql = [];
        expected = "";
        comparison = "";
        skip_inverse_when_restored = false;
      })
      else none;
  is_upper = λ c. leb b'A' c && leb c b'Z';
  is_lower = λ c. leb b'a' c && leb c b'z';
  is_letter = λ c. (leb b'a' c && leb c b'z') || (leb b'A' c && leb c b'Z');
  is_digit = λ c. leb b'0' c && leb c b'9';
  is_control = λ c. ltb c 32;
  is_space = λ c. c == 32;
  to_lower = λ c. if leb b'A' c && leb c b'Z' then c + 32 else c;
}

abbrev pub index_drop : Action
index_drop = record {
  sequence = 1;
  run_id = "r1";
  scenario_code = 601;
  kind = sql_mutation;
  target_product = open_gauss;
  target = "plan_data";
  node = "";
  original = "";
  forward = "{sql}";
  inverse = "{sql}";
  verify = "";
  state = applied;
  last_error = "";
  legacy_sql = false;
}
