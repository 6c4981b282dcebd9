-- ===== src/Health/Heartbeat.antt =====
-- When ShouldExit of internal/health/health.go lets the process go.
use gstop.Base.{
  ℕ, ◌+◌, ◌≤◌, ◌≡◌, ◌↔◌, refl, ◌∙◌, ap, String, Bool, true, List, [], ◌∷◌, Option, none, some,
  arith,
}
use gstop.Base.Maps.{put}
use gstop.Health.{
  Health, HealthConfig, update_cpu_usage, commit_memory_refresh, update_refresh_time, should_exit,
  should_refresh_memory, exit_grace_period,
}
use gstop.Health.Throttle.{Call, cpu, refreshes, commits, beats, call, run_calls}

-- The time of the last heartbeat after the calls, given the one before them.
unfoldable pub last_beat : {F : Type 0} → ℕ → Option ℕ → List (Call F) → Option ℕ
last_beat now beat [] = beat
last_beat now beat (cpu u ∷ cs) = last_beat now beat cs
last_beat now beat (refreshes key t ∷ cs) = last_beat (now + t) beat cs
last_beat now beat (commits key t ∷ cs) = last_beat (now + t) beat cs
last_beat now beat (beats t ∷ cs) = last_beat (now + t) (some (now + t)) cs

-- There was a heartbeat, and it is the grace period ago.
abbrev pub IsStalled : ℕ → Option ℕ → Type 0
IsStalled now none = ⊥
IsStalled now (some beat) = beat + exit_grace_period ≤ now

module _ {F : Type 0} (at_least : F → F → Bool) (cfg : HealthConfig F) where
  refreshed_beat :
      (h : Health F) (key : String) (now : ℕ)
      → (should_refresh_memory at_least cfg h key now).1.last_refresh ≡ h.last_refresh
  unfolding should_refresh_memory commit_memory_refresh
  refreshed_beat h key now = ground arith

  run_calls_beat :
      (h : Health F) (now : ℕ) (cs : List (Call F))
      → (run_calls at_least cfg h now cs).0.last_refresh ≡ last_beat now h.last_refresh cs
  unfolding run_calls call last_beat update_cpu_usage update_refresh_time commit_memory_refresh
  run_calls_beat h now [] = refl
  run_calls_beat h now (cpu u ∷ cs) = run_calls_beat (record h { last_cpu_usage = u }) now cs
  run_calls_beat h now (refreshes key t ∷ cs) =
      run_calls_beat (should_refresh_memory at_least cfg h key (now + t)).1 (now + t) cs
      ∙ ap (λ (b : Option ℕ). last_beat (now + t) b cs) (refreshed_beat h key (now + t))
  run_calls_beat h now (commits key t ∷ cs) =
      run_calls_beat (record h { last_mem_ref = put key (now + t) h.last_mem_ref }) (now + t) cs
  run_calls_beat h now (beats t ∷ cs) =
      run_calls_beat (record h { last_refresh = some (now + t) }) (now + t) cs

  stalled :
      (h : Health F) (beat : Option ℕ) (later : ℕ)
      → h.last_refresh ≡ beat
      → (should_exit h later ≡ true) ↔ IsStalled later beat
  unfolding should_exit
  stalled h none later e = rw e (λ q. absurd (let k : ⊥ = cc in k), λ k. absurd k)
  stalled h (some b) later e = rw e (λ q. ground arith, λ k. ground arith)

-- Whatever is called before, ShouldExit answers true exactly where a refresh was recorded and the last
-- one is five minutes ago or more.
pub should_exit-IsStalled :
    {F : Type 0} (at_least : F → F → Bool) (cfg : HealthConfig F) (h : Health F) (now later : ℕ)
    (cs : List (Call F))
    → (should_exit (run_calls at_least cfg h now cs).0 later ≡ true)
      ↔ IsStalled later (last_beat now h.last_refresh cs)
should_exit-IsStalled at_least cfg h now later cs =
    stalled at_least cfg (run_calls at_least cfg h now cs).0 (last_beat now h.last_refresh cs) later
      (run_calls_beat at_least cfg h now cs)
