-- ===== src/Alarm/Spacing.antt =====
-- Any history of the alarm of internal/alarm/alarm.go: its reports of one key keep their distance.
use text.Mathlib.Text.{◌==◌ as str_eq}
use gstop.Base.{
  ℕ, ◌+◌, ◌*◌, ◌≤◌, ◌≡◌, ◌⊎◌, inl, inr, String, Bool, true, false, List, [], ◌∷◌, Option, none,
  some, All, arith, if-elim, sym, subst,
}
use gstop.Base.Maps.{Map, put, put_self}
use gstop.Alarm.{
  Windows, Alarm, should_report, count_occurrence, clean_expired_keys, suppressed, drop_expired,
  new,
}

pub record Report : Type 0 where
  pub key : String
  pub time : ℕ

-- A call of ShouldReport, or of CleanExpiredKeys, after so much time.
pub data Call : Type 0 where
  asks : String → Bool → ℕ → Call
  cleans : ℕ → Call

-- The clock, the alarm, and its reports so far, the latest first.
pub record History : Type 0 where
  pub now : ℕ
  pub alarm : Alarm
  pub reports : List Report

abbrev logged : String → ℕ → List Report → Bool → List Report
logged key now rs true = record { key = key; time = now } ∷ rs
logged key now rs false = rs

unfoldable pub call : Windows → History → Call → History
call w h (asks key check t) =
    let r = should_report w h.alarm key check (h.now + t) in
    record { now = h.now + t; alarm = r.1; reports = logged key (h.now + t) h.reports r.0 }
call w h (cleans t) = record h { now = h.now + t; alarm = clean_expired_keys w h.alarm (h.now + t) }

unfoldable pub run_calls : Windows → History → List Call → History
run_calls w h [] = h
run_calls w h (c ∷ cs) = run_calls w (call w h c) cs

abbrev pub start : History
start = record { now = 0; alarm = new; reports = [] }

abbrev pub Apart : Windows → Report → Report → Type 0
Apart w r e = e.key ≡ r.key → e.time + w.suppression ≤ r.time

-- Each two reports of one key are at least the suppression window apart.
abbrev pub Spaced : Windows → List Report → Type 0
Spaced w [] = Unit
Spaced w (r ∷ rs) = All (Apart w r) rs × Spaced w rs

-- A past report is remembered, or so old that it no longer counts.
abbrev Remembered : Windows → ℕ → Option ℕ → ℕ → Type 0
Remembered w now none time = time + w.suppression ≤ now
Remembered w now (some t) time = time ≤ t

abbrev Known : Windows → ℕ → Alarm → Report → Type 0
Known w now a e = Remembered w now (a.last_reported e.key) e.time × (e.time ≤ now)

module _ (w : Windows) where
  All-map :
      (P Q : Report → Type 0)
      → ((e : Report) → P e → Q e)
      → (rs : List Report) → All P rs
      → All Q rs
  All-map P Q f [] h = tt
  All-map P Q f (r ∷ rs) h = (f r h.0, All-map P Q f rs h.1)

  later :
      (now t : ℕ) (o : Option ℕ) (time : ℕ)
      → Remembered w now o time
      → Remembered w (now + t) o time
  later now t none time h = ground arith
  later now t (some u) time h = h

  -- Nothing that is not suppressed was reported within the window.
  awake :
      (now : ℕ) (o : Option ℕ) (time : ℕ)
      → suppressed w o now ≡ false
      → Remembered w now o time
      → time + w.suppression ≤ now
  unfolding suppressed
  awake now none time s h = h
  awake now (some u) time s h = ground arith

  expired :
      (now : ℕ) (o : Option ℕ) (time : ℕ)
      → Remembered w now o time
      → time ≤ now
      → Remembered w now (drop_expired (2 * w.suppression) now o) time
  unfolding drop_expired
  expired now none time h k = h
  expired now (some u) time h k = ground arith

  remembers :
      (now t : ℕ) (key : String) (m : Map ℕ) (e : Report)
      → Remembered w now (m e.key) e.time
      → e.time ≤ now
      → Remembered w (now + t) (put key (now + t) m e.key) e.time
  unfolding put
  remembers now t key m e h k =
      if-elim (λ o. Remembered w (now + t) o e.time) (str_eq key e.key) (some (now + t)) (m e.key)
        (λ p. omega (arith, k)) (λ p. later now t (m e.key) e.time h)

  -- What one call of ShouldReport changes of what was reported last.
  should_report-cases :
      (a : Alarm) (key : String) (check : Bool) (now : ℕ)
      → (((should_report w a key check now).0 ≡ false)
          × ((should_report w a key check now).1.last_reported ≡ a.last_reported))
        ⊎ (((should_report w a key check now).0 ≡ true)
            × (suppressed w (a.last_reported key) now ≡ false)
            × ((should_report w a key check now).1.last_reported ≡ put key now a.last_reported))
  unfolding should_report count_occurrence
  should_report-cases a key check now = ground arith

  abbrev pub IsSound : History → Type 0
  IsSound h = Spaced w h.reports × All (Known w h.now h.alarm) h.reports

  unreported :
      (h : History) (t : ℕ) (a : Alarm)
      → h.alarm.last_reported ≡ a.last_reported
      → IsSound h
      → IsSound (record { now = h.now + t; alarm = a; reports = h.reports })
  unreported h t a q s = (
    s.0,
    All-map (Known w h.now h.alarm) (Known w (h.now + t) a)
        (λ e k. (
          subst (λ m. Remembered w (h.now + t) (m e.key) e.time) q
              (later h.now t (h.alarm.last_reported e.key) e.time k.0),
          omega (arith, k.1),
        ))
        h.reports s.1,
  )

  apart :
      (h : History) (key : String) (t : ℕ)
      → suppressed w (h.alarm.last_reported key) (h.now + t) ≡ false
      → (e : Report) → Known w h.now h.alarm e
      → Apart w (record { key = key; time = h.now + t }) e
  apart h key t s e k q = awake (h.now + t) (h.alarm.last_reported key) e.time s (
      later h.now t (h.alarm.last_reported key) e.time
        (subst (λ j. Remembered w h.now (h.alarm.last_reported j) e.time) q k.0))

  reported :
      (h : History) (key : String) (t : ℕ) (a : Alarm)
      → suppressed w (h.alarm.last_reported key) (h.now + t) ≡ false
      → put key (h.now + t) h.alarm.last_reported ≡ a.last_reported
      → IsSound h
      → IsSound (record {
        now = h.now + t;
        alarm = a;
        reports = record { key = key; time = h.now + t } ∷ h.reports;
      })
  reported h key t a u q s = (
    (
      All-map (Known w h.now h.alarm) (Apart w (record { key = key; time = h.now + t }))
          (apart h key t u) h.reports s.1,
      s.0,
    ),
    (
      (
        subst (λ m. Remembered w (h.now + t) (m key) (h.now + t)) q
            (subst (λ o. Remembered w (h.now + t) o (h.now + t))
              (sym (put_self key (h.now + t) h.alarm.last_reported)) (omega arith)),
        omega arith,
      ),
      All-map (Known w h.now h.alarm) (Known w (h.now + t) a)
          (λ e k. (
            subst (λ m. Remembered w (h.now + t) (m e.key) e.time) q
                (remembers h.now t key h.alarm.last_reported e k.0 k.1),
            omega (arith, k.1),
          ))
          h.reports s.1,
    ),
  )

  asked :
      (h : History) (key : String) (t : ℕ) (b : Bool) (a : Alarm)
      → ((b ≡ false) × (a.last_reported ≡ h.alarm.last_reported))
        ⊎ ((b ≡ true)
            × (suppressed w (h.alarm.last_reported key) (h.now + t) ≡ false)
            × (a.last_reported ≡ put key (h.now + t) h.alarm.last_reported))
      → IsSound h
      → IsSound
          (record { now = h.now + t; alarm = a; reports = logged key (h.now + t) h.reports b })
  asked h key t false a (inl q) s = unreported h t a (sym q.1) s
  asked h key t true a (inl q) s = cc
  asked h key t true a (inr q) s = reported h key t a q.1 (sym q.2) s
  asked h key t false a (inr q) s = cc

  call-IsSound : (h : History) (c : Call) → IsSound h → IsSound (call w h c)
  unfolding call clean_expired_keys
  call-IsSound h (asks key check t) s =
      asked h key t (should_report w h.alarm key check (h.now + t)).0
        (should_report w h.alarm key check (h.now + t)).1
        (should_report-cases h.alarm key check (h.now + t)) s
  call-IsSound h (cleans t) s = (
    s.0,
    All-map (Known w h.now h.alarm) (Known w (h.now + t) (clean_expired_keys w h.alarm (h.now + t)))
        (λ e k. (
          expired (h.now + t) (h.alarm.last_reported e.key) e.time
              (later h.now t (h.alarm.last_reported e.key) e.time k.0) (omega (arith, k.1)),
          omega (arith, k.1),
        ))
        h.reports s.1,
  )

  run_calls-IsSound : (h : History) (cs : List Call) → IsSound h → IsSound (run_calls w h cs)
  unfolding run_calls
  run_calls-IsSound h [] s = s
  run_calls-IsSound h (c ∷ cs) s = run_calls-IsSound (call w h c) cs (call-IsSound h c s)

-- Whatever calls ShouldReport and CleanExpiredKeys of a new alarm get, of any keys, at times that do
-- not go back: two reports of one key are at least the suppression window apart.
pub run_calls-Spaced : (w : Windows) (cs : List Call) → Spaced w (run_calls w start cs).reports
run_calls-Spaced w cs = (run_calls-IsSound w start cs (tt, tt)).0
