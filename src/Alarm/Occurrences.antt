-- ===== src/Alarm/Occurrences.antt =====
-- The occurrences that the alarm of internal/alarm/alarm.go keeps of a key: fewer than the report
-- threshold, whatever is called.
use gstop.Base.{
  ℕ, ◌+◌, ◌*◌, ◌<◌, String, Bool, true, false, List, [], ◌∷◌, Option, none, some, length, arith,
  if-elim, leb,
}
use gstop.Base.Maps.{Map, put, erase}
use gstop.Alarm.{
  Windows, Alarm, should_report, count_occurrence, clean_expired_keys, observed, drop_expired,
  drop_idle, entries,
}
use gstop.Alarm.Cleaning.{some-last}
use gstop.Alarm.Spacing.{History, Call, asks, cleans, call, run_calls}

abbrev pub Few : Windows → Map (List ℕ) → Type 0
Few w m = (key : String) → length (entries (m key)) < w.report_count

module _ (w : Windows) (positive : 0 < w.report_count) where
  put-Few :
      (m : Map (List ℕ)) (key : String) (ts : List ℕ)
      → length ts < w.report_count
      → Few w m
      → Few w (put key ts m)
  unfolding put
  put-Few m key ts h k j = ground (arith, k j)

  erase-Few : (m : Map (List ℕ)) (key : String) → Few w m → Few w (erase key m)
  unfolding erase
  erase-Few m key k j = ground (arith, k j, positive)

  count_occurrence-Few :
      (a : Alarm) (key : String) (now : ℕ) (kept : List ℕ)
      → Few w a.occurrences
      → Few w (count_occurrence w a key now kept).1.occurrences
  unfolding count_occurrence
  count_occurrence-Few a key now kept k =
      if-elim (λ (r : Bool × Alarm). Few w r.1.occurrences) (leb w.report_count (length kept))
        (
          true,
          record {
            last_reported = put key now a.last_reported;
            occurrences = erase key a.occurrences;
          },
        )
        (false, record a { occurrences = put key kept a.occurrences })
        (λ e. erase-Few a.occurrences key k) (λ e. put-Few a.occurrences key kept (ground arith) k)

  should_report-Few :
      (a : Alarm) (key : String) (check : Bool) (now : ℕ)
      → Few w a.occurrences
      → Few w (should_report w a key check now).1.occurrences
  unfolding should_report
  should_report-Few a key check now k j =
      ground (arith, k j, count_occurrence-Few a key now (observed w (a.occurrences key) now) k j)

  drop_idle-few :
      (expire now : ℕ) (o : Option (List ℕ))
      → length (entries o) < w.report_count
      → length (entries (drop_idle expire now o)) < w.report_count
  unfolding drop_idle drop_expired
  drop_idle-few expire now none h = h
  drop_idle-few expire now (some []) h = h
  drop_idle-few expire now (some (t ∷ ts)) h =
      rw ((some-last t ts).1, length, entries, drop_idle) ground (arith, positive)

  clean_expired_keys-Few :
      (a : Alarm) (now : ℕ) → Few w a.occurrences → Few w (clean_expired_keys w a now).occurrences
  unfolding clean_expired_keys
  clean_expired_keys-Few a now k key =
      drop_idle-few (2 * w.suppression) now (a.occurrences key) (k key)

  call-Few :
      (h : History) (c : Call) → Few w h.alarm.occurrences → Few w (call w h c).alarm.occurrences
  unfolding call
  call-Few h (asks key check t) k = should_report-Few h.alarm key check (h.now + t) k
  call-Few h (cleans t) k = clean_expired_keys-Few h.alarm (h.now + t) k

-- Where the report threshold is positive: whatever calls are made from any alarm that keeps fewer
-- occurrences of every key than the threshold, it still does after them.
pub run_calls-Few :
    (w : Windows)
    → 0 < w.report_count
    → (h : History) (cs : List Call) → Few w h.alarm.occurrences
    → Few w (run_calls w h cs).alarm.occurrences
unfolding run_calls
run_calls-Few w p h [] k = k
run_calls-Few w p h (c ∷ cs) k = run_calls-Few w p (call w h c) cs (call-Few w p h c k)
