-- ===== src/Health.antt =====
-- The throttles and the heartbeat of internal/health/health.go. A time is a number of nanoseconds,
-- and `now.Sub(t) >= w` is written `t + w <= now`. The CPU usage is a float64: its type and its
-- comparison are parameters. A negative interval behaves as the interval 0 of the model.
mod Throttle
mod Heartbeat
mod Examples
use gstop.Base.{ℕ, ◌+◌, ◌*◌, String, Bool, true, false, Option, none, some, leb, if◌then◌else◌}
use gstop.Base.Maps.{Map, put}

pub record HealthConfig (F : Type 0) : Type 0 where
  pub dynamic_mem_cpu_thresh : F
  pub dynamic_mem_interval : ℕ

pub record Health (F : Type 0) : Type 0 where
  pub last_cpu_usage : F
  pub last_mem_ref : Map ℕ
  pub last_refresh : Option ℕ

abbrev pub second : ℕ
second = 1000000000

abbrev pub exit_grace_period : ℕ
exit_grace_period = 300 * second

unfoldable pub update_cpu_usage : {F : Type 0} → Health F → F → Health F
update_cpu_usage h cpu = record h { last_cpu_usage = cpu }

unfoldable pub commit_memory_refresh : {F : Type 0} → Health F → String → ℕ → Health F
commit_memory_refresh h key now = record h { last_mem_ref = put key now h.last_mem_ref }

unfoldable pub update_refresh_time : {F : Type 0} → Health F → ℕ → Health F
update_refresh_time h now = record h { last_refresh = some now }

-- Nothing was recorded yet, or long enough ago.
unfoldable pub elapsed : ℕ → Option ℕ → ℕ → Bool
elapsed interval none now = true
elapsed interval (some last) now = leb (last + interval) now

unfoldable pub should_exit : {F : Type 0} → Health F → ℕ → Bool
should_exit h now = elim h.last_refresh [
  | none ↦ false
  | some last ↦ leb (last + exit_grace_period) now
]

module _ {F : Type 0} (at_least : F → F → Bool) (cfg : HealthConfig F) where
  unfoldable pub can_refresh_memory : Health F → String → ℕ → Bool
  can_refresh_memory h key now =
      if at_least h.last_cpu_usage cfg.dynamic_mem_cpu_thresh
      then false
      else elapsed (cfg.dynamic_mem_interval * second) (h.last_mem_ref key) now

  unfoldable pub should_refresh_memory : Health F → String → ℕ → Bool × Health F
  should_refresh_memory h key now =
      if can_refresh_memory h key now then (true, commit_memory_refresh h key now) else (false, h)
