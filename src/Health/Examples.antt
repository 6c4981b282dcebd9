-- ===== src/Health/Examples.antt =====
-- Tests and instances for the throttles, with whole percentages for the CPU usage.
use gstop.Base.{◌↔◌, ℕ, ◌≡◌, refl, leb, true, false, [], ◌∷◌, none, arith, ◌*◌}
use gstop.Base.Maps.{empty}
use gstop.Health.{
  Health, HealthConfig, should_refresh_memory, can_refresh_memory, second, should_exit,
  update_refresh_time, elapsed,
}
use gstop.Health.Heartbeat.{IsStalled, last_beat, should_exit-IsStalled}
use gstop.Health.Throttle.{
  cpu, refreshes, beats, run_calls, should_refresh_memory-can_refresh_memory,
}

abbrev config : HealthConfig ℕ
config = record { dynamic_mem_cpu_thresh = 50; dynamic_mem_interval = 60 }

abbrev quiet : Health ℕ
quiet = record { last_cpu_usage = 20; last_mem_ref = empty; last_refresh = none }

no_exit_before_a_refresh : should_exit quiet (1000 * second) ≡ false
unfolding should_exit
no_exit_before_a_refresh = refl

exits_after_the_grace_period : should_exit (update_refresh_time quiet 0) (300 * second) ≡ true
unfolding should_exit update_refresh_time
exits_after_the_grace_period = refl

should_refresh_memory-can_refresh_memory_example :
    can_refresh_memory
      (λ a b. leb b a)
      config
      (run_calls
        (λ a b. leb b a)
        config
        (should_refresh_memory (λ a b. leb b a) config quiet "heap" 5).1
        5
        (cpu 30 ∷ refreshes "heap" 4 ∷ beats 3 ∷ [])).0
      "heap"
      (30 * second)
    ≡ false
unfolding should_refresh_memory can_refresh_memory elapsed empty
should_refresh_memory-can_refresh_memory_example =
    should_refresh_memory-can_refresh_memory (λ a b. leb b a) config quiet "heap" 5 (30 * second)
      (cpu 30 ∷ refreshes "heap" 4 ∷ beats 3 ∷ []) refl (omega arith)

should_exit-IsStalled_example :
    (should_exit
        (run_calls (λ a b. leb b a) config quiet 0 (beats 3 ∷ cpu 30 ∷ [])).0
        (400 * second)
      ≡ true)
    ↔ IsStalled (400 * second) (last_beat {F = ℕ} 0 none (beats 3 ∷ cpu 30 ∷ []))
should_exit-IsStalled_example =
    should_exit-IsStalled (λ a b. leb b a) config quiet 0 (400 * second) (beats 3 ∷ cpu 30 ∷ [])
