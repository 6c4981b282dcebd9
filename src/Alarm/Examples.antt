-- ===== src/Alarm/Examples.antt =====
-- Tests and instances for the alarm.
use gstop.Base.{◌≡◌, refl, true, false, List, [], ◌∷◌, arith}
use gstop.Base.Maps.{put, erase, empty}
use gstop.Alarm.{
  Windows, Alarm, new, should_report, count_occurrence, suppressed, observed, drop_expired,
  clean_expired_keys,
}
use gstop.Alarm.Spacing.{Call, asks, cleans, call, run_calls, start, Spaced, run_calls-Spaced}
use gstop.Alarm.Occurrences.{Few, run_calls-Few}
use gstop.Alarm.Cleaning.{should_report-clean_expired_keys}

-- Two occurrences within ten units report; a report silences the key for twenty.
abbrev windows : Windows
windows = record { observation = 10; suppression = 20; report_count = 2 }

abbrev calls : List Call
calls =
    asks "lag" true 1
    ∷ asks "lag" true 4
    ∷ asks "lag" false 5
    ∷ asks "disk" false 1
    ∷ cleans 50
    ∷ asks "lag" false 0
    ∷ []

-- The second occurrence reports at 5, the third is suppressed, the last reports at 61.
reports_of_calls :
    (run_calls windows start calls).reports
    ≡ record { key = "lag"; time = 61 }
      ∷ record { key = "disk"; time = 11 }
      ∷ record { key = "lag"; time = 5 }
      ∷ []
unfolding run_calls call should_report count_occurrence suppressed observed put erase
    clean_expired_keys drop_expired empty
reports_of_calls = refl

run_calls-Spaced_example : Spaced windows (run_calls windows start calls).reports
run_calls-Spaced_example = run_calls-Spaced windows calls

run_calls-Few_example : Few windows (run_calls windows start calls).alarm.occurrences
unfolding empty
run_calls-Few_example = run_calls-Few windows (omega arith) start calls (λ key. omega arith)

abbrev one_seen : Alarm
one_seen = record new { occurrences = put "lag" (3 ∷ []) new.occurrences }

should_report-clean_expired_keys_example :
    (should_report windows (clean_expired_keys windows one_seen 9) "lag" true 9).0
    ≡ (should_report windows one_seen "lag" true 9).0
unfolding put
should_report-clean_expired_keys_example =
    should_report-clean_expired_keys windows one_seen "lag" true 9 (omega arith) (omega arith)
