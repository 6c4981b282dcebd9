-- ===== src/Alarm/Cleaning.antt =====
-- CleanExpiredKeys of internal/alarm/alarm.go bounds the memory and changes no answer.
use gstop.Base.{
  ℕ, ◌+◌, ◌*◌, ◌≤◌, ◌<◌, ◌≡◌, refl, String, Bool, List, [], ◌∷◌, Option, none, some, arith, leb,
  keep,
}
use gstop.Alarm.{
  Windows, Alarm, should_report, count_occurrence, clean_expired_keys, suppressed, observed,
  drop_expired, drop_idle, last, entries,
}

-- The clock never went back, so that a slice is in the order of its times, none after now.
abbrev pub Ordered : ℕ → List ℕ → Type 0
Ordered now [] = Unit
Ordered now (t ∷ []) = t ≤ now
Ordered now (t ∷ u ∷ ts) = (t ≤ u) × Ordered now (u ∷ ts)

le-last : (now l t : ℕ) (ts : List ℕ) → Ordered now (t ∷ ts) → last (t ∷ ts) ≡ some l → t ≤ l
le-last now l t [] o p = ground arith
le-last now l t (u ∷ ts) o p = omega (arith, o.0, le-last now l u ts o.1 p)

pub some-last : (t : ℕ) (ts : List ℕ) → (l : ℕ) × (last (t ∷ ts) ≡ some l)
some-last t [] = (t, refl)
some-last t (u ∷ ts) = some-last u ts

module _ (w : Windows) where
  suppressed-drop_expired :
      (now : ℕ) (o : Option ℕ)
      → suppressed w (drop_expired (2 * w.suppression) now o) now ≡ suppressed w o now
  unfolding suppressed drop_expired
  suppressed-drop_expired now none = refl
  suppressed-drop_expired now (some t) = ground arith

  -- Where the last is too old, so is every one.
  keep-none :
      (now expire l : ℕ) (ts : List ℕ)
      → w.observation ≤ expire
      → Ordered now ts
      → last ts ≡ some l
      → l + expire < now
      → keep (λ t. leb now (t + w.observation)) ts ≡ []
  keep-none now expire l [] h o p q = refl
  keep-none now expire l (t ∷ []) h o p q = ground arith
  keep-none now expire l (t ∷ u ∷ ts) h o p q =
      ground (arith, keep-none now expire l (u ∷ ts) h o.1 p q, le-last now l t (u ∷ ts) o p)

  observed-last :
      (now l : ℕ) (ts : List ℕ)
      → w.observation ≤ 2 * w.suppression
      → Ordered now ts
      → last ts ≡ some l
      → observed w (drop_idle (2 * w.suppression) now (some ts)) now ≡ observed w (some ts) now
  unfolding observed drop_idle drop_expired
  observed-last now l ts h k p =
      rw (p, drop_idle) ground (arith, keep-none now (2 * w.suppression) l ts h k p)

  observed-drop_idle :
      (now : ℕ) (o : Option (List ℕ))
      → w.observation ≤ 2 * w.suppression
      → Ordered now (entries o)
      → observed w (drop_idle (2 * w.suppression) now o) now ≡ observed w o now
  unfolding observed drop_idle drop_expired
  observed-drop_idle now none h k = refl
  observed-drop_idle now (some []) h k = refl
  observed-drop_idle now (some (t ∷ ts)) h k =
      observed-last now (some-last t ts).0 (t ∷ ts) h k (some-last t ts).1

-- A call of CleanExpiredKeys changes no answer that ShouldReport gives at the same time, where the
-- observation window is at most twice the suppression window and the clock never went back.
pub should_report-clean_expired_keys :
    (w : Windows) (a : Alarm) (key : String) (check : Bool) (now : ℕ)
    → w.observation ≤ 2 * w.suppression
    → Ordered now (entries (a.occurrences key))
    → (should_report w (clean_expired_keys w a now) key check now).0
      ≡ (should_report w a key check now).0
unfolding should_report count_occurrence clean_expired_keys
should_report-clean_expired_keys w a key check now h k = ground (
  arith,
  suppressed-drop_expired w now (a.last_reported key),
  observed-drop_idle w now (a.occurrences key) h k,
)
