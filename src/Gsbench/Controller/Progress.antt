-- ===== src/Gsbench/Controller/Progress.antt =====
-- What holds of `run`, for Run and RunUntil of internal/gsbench/controller.go, over every run.
use gstop.Base.{
  ℕ, suc, ◌+◌, ◌≤◌, ◌<◌, ◌≡◌, Bool, true, false, List, [], ◌∷◌, All, length, arith, inr, if-elim,
  ◌⊎◌,
}
use gstop.Gsbench.Controller.Config.{
  FloatOps, ControllerConfig, normalized_controller_config, normalized-IsNormal,
}
use gstop.Gsbench.Controller.Step.{Command, hold, request, finish, control_step}
use gstop.Gsbench.Controller.Run.{Tick, Run, end_round, obey, sampled, run_round, run_rounds, start}
use gstop.Gsbench.Controller.Bounds.{IsBounded, Within, control_step-Good}

-- The range of workers.
abbrev pub InRange : {F : Type 0} → ControllerConfig F → ℕ → Type 0
InRange cfg n = (cfg.min_workers ≤ n) × (n ≤ cfg.max_workers)

record IsRegular {F : Type 0} (cfg : ControllerConfig F) (r : Run F) : Type 0 where
  workers_in_range : InRange cfg r.workers
  targets_in_range : All (InRange cfg) r.targets
  bounded : IsBounded cfg r.loop

module _ {F : Type 0} (fl : FloatOps F) (cfg : ControllerConfig F) (continuous : Bool) where
  end_round-IsRegular :
      (r : Run F) (interrupted : Bool)
      → IsRegular cfg r
      → IsRegular cfg (end_round fl cfg continuous r interrupted)
  unfolding end_round
  end_round-IsRegular r interrupted g = ground arith

  obey-IsRegular :
      (r : Run F) (tick : Tick F) (c : Command)
      → Within cfg c
      → IsRegular cfg r
      → IsRegular cfg (obey fl cfg continuous r tick c)
  unfolding obey
  obey-IsRegular r tick hold w g = end_round-IsRegular r tick.interrupted g
  obey-IsRegular r tick finish w g = ground arith
  obey-IsRegular r tick (request n) w g = ground arith

  sampled-IsRegular :
      (r : Run F) (tick : Tick F)
      → IsRegular cfg r
      → IsRegular cfg (sampled fl cfg continuous r tick)
  unfolding sampled
  sampled-IsRegular r tick g =
      let good =
        control_step-Good fl cfg continuous r.loop tick.sample r.workers g.workers_in_range.0
          g.workers_in_range.1 g.bounded in
      ground (
        arith,
        good,
        obey-IsRegular
            (record r {
              samples = suc r.samples;
              loop = (control_step fl cfg continuous r.loop tick.sample r.workers).0;
            })
            tick (control_step fl cfg continuous r.loop tick.sample r.workers).1 good.1,
      )

  run_round-IsRegular :
      (r : Run F) (tick : Tick F)
      → IsRegular cfg r
      → IsRegular cfg (run_round fl cfg continuous r tick)
  unfolding run_round
  run_round-IsRegular r tick g = ground (arith, sampled-IsRegular r tick g)

  run_rounds-IsRegular :
      (r : Run F) (ticks : List (Tick F))
      → IsRegular cfg r
      → IsRegular cfg (run_rounds fl cfg continuous r ticks)
  unfolding run_rounds
  run_rounds-IsRegular r [] g = g
  run_rounds-IsRegular r (tick ∷ ticks) g =
      if-elim (IsRegular cfg) r.returned r
        (run_rounds fl cfg continuous (run_round fl cfg continuous r tick) ticks) (λ e. g)
        (λ e.
          run_rounds-IsRegular (run_round fl cfg continuous r tick) ticks
            (run_round-IsRegular r tick g))

-- With the settings that the controller normalises, every target that Run or RunUntil sets lies
-- between the least and the greatest number of workers, whatever the samples, the errors of the
-- actuator and the arithmetic of float64 are; so does the actuator's target in the end.
pub run_rounds-InRange :
    {F : Type 0} (fl : FloatOps F) (settings : ControllerConfig F) (continuous : Bool)
    (ticks : List (Tick F))
    → let cfg = normalized_controller_config fl settings in
      let r = run_rounds fl cfg continuous (start fl cfg continuous fl.zero_f) ticks in
      All (InRange cfg) r.targets × InRange cfg r.workers
unfolding start
run_rounds-InRange fl settings continuous ticks =
    let cfg = normalized_controller_config fl settings in
    let normal = normalized-IsNormal fl settings in
    let g =
      run_rounds-IsRegular fl cfg continuous (start fl cfg continuous fl.zero_f) ticks
        (ground (arith, normal)) in
    (g.targets_in_range, g.workers_in_range)

-- A round of Run that does not return has counted its sample, within the budget.
round_counts :
    {F : Type 0} (fl : FloatOps F) (cfg : ControllerConfig F) (r : Run F) (tick : Tick F)
    → let s = run_round fl cfg false r tick in
      (s.returned ≡ true) ⊎ ((s.samples ≡ suc r.samples) × (s.samples < cfg.max_samples))
unfolding run_round sampled obey
round_counts fl cfg r tick = ground arith

rounds_end :
    {F : Type 0} (fl : FloatOps F) (cfg : ControllerConfig F) (r : Run F) (ticks : List (Tick F))
    → (r.returned ≡ true)
      ⊎ ((r.samples < cfg.max_samples) × (cfg.max_samples ≤ r.samples + length ticks))
    → (run_rounds fl cfg false r ticks).returned ≡ true
unfolding run_rounds
rounds_end fl cfg r [] pending = ground arith
rounds_end fl cfg r (tick ∷ ticks) pending =
    ground
      (arith, round_counts fl cfg r tick, rounds_end fl cfg (run_round fl cfg false r tick) ticks)

-- Run returns after at most MaxSamples rounds.
pub run_rounds_return :
    {F : Type 0} (fl : FloatOps F) (settings : ControllerConfig F) (ticks : List (Tick F))
    → let cfg = normalized_controller_config fl settings in
      cfg.max_samples ≤ length ticks
      → (run_rounds fl cfg false (start fl cfg false fl.zero_f) ticks).returned ≡ true
unfolding start
run_rounds_return fl settings ticks h =
    let cfg = normalized_controller_config fl settings in
    let normal = normalized-IsNormal fl settings in
    rounds_end fl cfg (start fl cfg false fl.zero_f) ticks (inr (omega (arith, normal)))
