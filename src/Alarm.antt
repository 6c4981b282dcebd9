-- ===== src/Alarm.antt =====
-- The alarm of internal/alarm/alarm.go: which occurrences are reported. A time is a number of
-- nanoseconds, `now.Sub(t) < w` is written `now < t + w`, and both windows are not negative. The
-- alarm file and the configuration that the windows are read from are not modelled.
mod Spacing
mod Occurrences
mod Cleaning
mod Examples
use gstop.Base.{
  ℕ, ◌+◌, ◌*◌, String, Bool, true, false, ◌&&◌, not, List, [], ◌∷◌, ◌++◌, Option, none, some, ltb,
  leb, length, if◌then◌else◌, keep,
}
use gstop.Base.Maps.{Map, put, erase, empty}

pub record Windows : Type 0 where
  pub observation : ℕ
  pub suppression : ℕ
  pub report_count : ℕ

pub record Alarm : Type 0 where
  pub last_reported : Map ℕ
  pub occurrences : Map (List ℕ)

abbrev pub new : Alarm
new = record { last_reported = empty; occurrences = empty }

-- The entries of a missing key are those of an empty slice.
abbrev pub entries : Option (List ℕ) → List ℕ
entries none = []
entries (some ts) = ts

unfoldable pub suppressed : Windows → Option ℕ → ℕ → Bool
suppressed w none now = false
suppressed w (some last) now = ltb now (last + w.suppression)

-- The occurrences inside the observation window, this one last.
unfoldable pub observed : Windows → Option (List ℕ) → ℕ → List ℕ
observed w ts now = keep (λ t. leb now (t + w.observation)) (entries ts) ++ now ∷ []

unfoldable pub count_occurrence : Windows → Alarm → String → ℕ → List ℕ → Bool × Alarm
count_occurrence w a key now kept =
    if leb w.report_count (length kept)
    then (
      true,
      record { last_reported = put key now a.last_reported; occurrences = erase key a.occurrences },
    )
    else (false, record a { occurrences = put key kept a.occurrences })

unfoldable pub should_report : Windows → Alarm → String → Bool → ℕ → Bool × Alarm
should_report w a key check_consecutive now =
    if suppressed w (a.last_reported key) now
    then (false, a)
    else if not check_consecutive
    then (true, record a { last_reported = put key now a.last_reported })
    else count_occurrence w a key now (observed w (a.occurrences key) now)

abbrev pub last : List ℕ → Option ℕ
last [] = none
last (t ∷ []) = some t
last (t ∷ u ∷ ts) = last (u ∷ ts)

-- The loops of CleanExpiredKeys, at one key of the two maps.
unfoldable pub drop_expired : ℕ → ℕ → Option ℕ → Option ℕ
drop_expired expire now none = none
drop_expired expire now (some t) = if ltb (t + expire) now then none else some t

unfoldable pub drop_idle : ℕ → ℕ → Option (List ℕ) → Option (List ℕ)
drop_idle expire now none = none
drop_idle expire now (some ts) = elim (drop_expired expire now (last ts)) [
  | none ↦ none
  | some t ↦ some ts
]

unfoldable pub clean_expired_keys : Windows → Alarm → ℕ → Alarm
clean_expired_keys w a now = record {
  last_reported = λ key. drop_expired (2 * w.suppression) now (a.last_reported key);
  occurrences = λ key. drop_idle (2 * w.suppression) now (a.occurrences key);
}
