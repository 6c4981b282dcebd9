-- ===== src/Health/Throttle.antt =====
-- How long an answer of internal/health/health.go holds, whatever is called meanwhile.
use text.Mathlib.Text.{◌==◌ as str_eq}
use gstop.Base.{
  ℕ, ◌+◌, ◌*◌, ◌≤◌, ◌<◌, ◌≡◌, String, Bool, true, false, List, [], ◌∷◌, Option, none, some, arith,
  if-elim, subst, sym,
}
use gstop.Base.Maps.{Map, put, put_self}
use gstop.Health.{
  Health, HealthConfig, update_cpu_usage, commit_memory_refresh, update_refresh_time,
  can_refresh_memory, should_refresh_memory, second, elapsed,
}

-- The calls that change the state; the number is the time since the call before.
pub data Call (F : Type 0) : Type 0 where
  cpu : F → Call F
  refreshes commits : String → ℕ → Call F
  beats : ℕ → Call F

unfoldable pub call :
    {F : Type 0} → (F → F → Bool) → HealthConfig F → Health F → ℕ → Call F → Health F × ℕ
call at_least cfg h now (cpu u) = (update_cpu_usage h u, now)
call at_least cfg h now (refreshes key t) =
    ((should_refresh_memory at_least cfg h key (now + t)).1, now + t)
call at_least cfg h now (commits key t) = (commit_memory_refresh h key (now + t), now + t)
call at_least cfg h now (beats t) = (update_refresh_time h (now + t), now + t)

unfoldable pub run_calls :
    {F : Type 0} → (F → F → Bool) → HealthConfig F → Health F → ℕ → List (Call F) → Health F × ℕ
run_calls at_least cfg h now [] = (h, now)
run_calls at_least cfg h now (c ∷ cs) =
    let r = call at_least cfg h now c in run_calls at_least cfg r.0 r.1 cs

-- The recorded time is there and not before `from`.
abbrev pub Since : ℕ → Option ℕ → Type 0
Since from none = ⊥
Since from (some t) = from ≤ t

module _ {F : Type 0} (at_least : F → F → Bool) (cfg : HealthConfig F) where
  put-Since :
      (m : Map ℕ) (key j : String) (from now : ℕ)
      → from ≤ now
      → Since from (m j)
      → Since from (put key now m j)
  unfolding put
  put-Since m key j from now h k =
      if-elim (Since from) (str_eq key j) (some now) (m j) (λ e. h) (λ e. k)

  refreshed-Since :
      (h : Health F) (key j : String) (from now : ℕ)
      → from ≤ now
      → Since from (h.last_mem_ref j)
      → Since from ((should_refresh_memory at_least cfg h key now).1.last_mem_ref j)
  unfolding should_refresh_memory commit_memory_refresh
  refreshed-Since h key j from now l k =
      if-elim (λ (r : Bool × Health F). Since from (r.1.last_mem_ref j))
        (can_refresh_memory at_least cfg h key now)
        (true, record h { last_mem_ref = put key now h.last_mem_ref }) (false, h)
        (λ e. put-Since h.last_mem_ref key j from now l k) (λ e. k)

  call-Since :
      (h : Health F) (j : String) (from now : ℕ) (c : Call F)
      → from ≤ now
      → Since from (h.last_mem_ref j)
      → Since from ((call at_least cfg h now c).0.last_mem_ref j)
        × (from ≤ (call at_least cfg h now c).1)
  unfolding call update_cpu_usage update_refresh_time commit_memory_refresh
  call-Since h j from now (cpu u) l k = (k, l)
  call-Since h j from now (refreshes key t) l k =
      (refreshed-Since h key j from (now + t) (omega arith) k, omega arith)
  call-Since h j from now (commits key t) l k =
      (put-Since h.last_mem_ref key j from (now + t) (omega arith) k, omega arith)
  call-Since h j from now (beats t) l k = (k, omega arith)

  run_calls-Since :
      (h : Health F) (j : String) (from now : ℕ) (cs : List (Call F))
      → from ≤ now
      → Since from (h.last_mem_ref j)
      → Since from ((run_calls at_least cfg h now cs).0.last_mem_ref j)
  unfolding run_calls
  run_calls-Since h j from now [] l k = k
  run_calls-Since h j from now (c ∷ cs) l k =
      let r = call-Since h j from now c l k in
      run_calls-Since (call at_least cfg h now c).0 j from (call at_least cfg h now c).1 cs r.1 r.0

  not_elapsed :
      (interval from now : ℕ) (o : Option ℕ)
      → Since from o
      → now < from + interval
      → elapsed interval o now ≡ false
  unfolding elapsed
  not_elapsed interval from now none k l = absurd k
  not_elapsed interval from now (some t) k l = ground arith

  throttled :
      (h : Health F) (key : String) (from now : ℕ)
      → Since from (h.last_mem_ref key)
      → now < from + cfg.dynamic_mem_interval * second
      → can_refresh_memory at_least cfg h key now ≡ false
  unfolding can_refresh_memory
  throttled h key from now k l =
      ground
        (arith, not_elapsed (cfg.dynamic_mem_interval * second) from now (h.last_mem_ref key) k l)

  committed :
      (h : Health F) (key : String) (now : ℕ)
      → (should_refresh_memory at_least cfg h key now).0 ≡ true
      → Since now ((should_refresh_memory at_least cfg h key now).1.last_mem_ref key)
  unfolding should_refresh_memory commit_memory_refresh
  committed h key now e =
      if-elim (λ (r : Bool × Health F). r.0 ≡ true → Since now (r.1.last_mem_ref key))
        (can_refresh_memory at_least cfg h key now)
        (true, record h { last_mem_ref = put key now h.last_mem_ref }) (false, h)
        (λ p q. subst (Since now) (sym (put_self key now h.last_mem_ref)) (omega arith)) (λ p q. cc)
        e

-- Once ShouldRefreshMemory allowed a key, no calls of any keys make CanRefreshMemory allow it again
-- before the interval has passed since.
pub should_refresh_memory-can_refresh_memory :
    {F : Type 0} (at_least : F → F → Bool) (cfg : HealthConfig F) (h : Health F) (key : String)
    (now later : ℕ) (cs : List (Call F))
    → (should_refresh_memory at_least cfg h key now).0 ≡ true
    → later < now + cfg.dynamic_mem_interval * second
    → can_refresh_memory at_least cfg
        (run_calls at_least cfg (should_refresh_memory at_least cfg h key now).1 now cs).0
        key
        later
      ≡ false
should_refresh_memory-can_refresh_memory at_least cfg h key now later cs e l =
    throttled at_least cfg
      (run_calls at_least cfg (should_refresh_memory at_least cfg h key now).1 now cs).0 key now
      later
      (run_calls-Since at_least cfg (should_refresh_memory at_least cfg h key now).1 key now now cs
        (omega arith) (committed at_least cfg h key now e))
      l
