-- ===== src/Gsbench/Controller/Run.antt =====
-- The loops of the controller, internal/gsbench/controller.go: `run`, for Run and RunUntil, and
-- RunToMinimum. What a round meets outside the controller is a `Tick`: the state of the context, the
-- sample, and the answer of SetTarget. The actuator's Target is the last target that it accepted.
use gstop.Base.{
  ℕ, suc, ◌+◌, String, Bool, true, false, ◌&&◌, not, List, [], ◌∷◌, Option, none, some, ltb, leb,
  if◌then◌else◌, min,
}
use gstop.Gsbench.Controller.Config.{FloatOps, ControllerConfig, Sample, actuator_ramp_adjustment}
use gstop.Gsbench.Controller.Step.{Loop, Command, hold, request, finish, no_direction, control_step}

pub record Tick (F : Type 0) : Type 0 where
  -- ctx.Err() at the head of the round
  pub cancelled : Bool
  pub sample : Sample F
  -- the error of SetTarget, if the round calls it
  pub refusal : Option String
  -- ctx.Err() at the end of the round, or during the wait
  pub interrupted : Bool

-- Why the loop has returned.
pub data RunError : Type 0 where
  context_done execution_errors metric_unavailable : RunError
  sample_error actuator_error : String → RunError

pub record Run (F : Type 0) : Type 0 where
  pub loop : Loop F
  -- the actuator's target
  pub workers : ℕ
  pub samples : ℕ
  pub error : Option RunError
  pub returned : Bool
  -- the accepted targets, last first
  pub targets : List ℕ

module _ {F : Type 0} where
  abbrev pub returns : Run F → Option RunError → Run F
  returns r e = record r { error = e; returned = true }

  -- The sample errors, in the order of the tests.
  abbrev pub failure : Sample F → Option RunError
  failure x = elim x.err [
    | some e ↦ some (sample_error e)
    | none ↦ if ltb 0 x.errors then some execution_errors else none
  ]

  abbrev pub accept : Run F → ℕ → Run F
  accept r n = record r { workers = n; targets = n ∷ r.targets }

module _ {F : Type 0} (fl : FloatOps F) (cfg : ControllerConfig F) (continuous : Bool) where
  -- The end of a round that has not returned.
  unfoldable pub end_round : Run F → Bool → Run F
  end_round r interrupted =
      if not continuous && leb cfg.max_samples r.samples
      then returns r none
      else if interrupted
      then returns r (if continuous then none else some context_done)
      else r

  unfoldable pub obey : Run F → Tick F → Command → Run F
  unfolding end_round
  obey r tick hold = end_round r tick.interrupted
  obey r tick finish = returns r none
  obey r tick (request n) = elim tick.refusal [
    | some e ↦ returns r (some (actuator_error e))
    | none ↦ end_round (accept r n) tick.interrupted
  ]

  unfoldable pub sampled : Run F → Tick F → Run F
  sampled r tick =
      let (loop, command) = control_step fl cfg continuous r.loop tick.sample r.workers in
      let counted = record r { samples = suc r.samples } in
      elim (failure tick.sample) [
        | some e ↦ returns counted (some e)
        | none ↦ obey (record counted { loop = loop }) tick command
      ]

  -- One round of the loop.
  unfoldable pub run_round : Run F → Tick F → Run F
  run_round r tick =
      if tick.cancelled
      then returns r (if continuous then none else some context_done)
      else sampled r tick

  unfoldable pub run_rounds : Run F → List (Tick F) → Run F
  run_rounds r [] = r
  run_rounds r (tick ∷ ticks) =
      let rest = run_rounds (run_round r tick) ticks in if r.returned then r else rest

  -- The loop after the first SetTarget.
  unfoldable pub start : F → Run F
  start zero_value = record {
    loop = record {
      in_band = 0;
      ceiling_samples = 0;
      have_reachable = false;
      lower_target = 0;
      upper_target = 0;
      have_lower_target = false;
      have_upper_target = false;
      settled = false;
      settled_values = [];
      band_observations = 0;
      adjustment_cooldown = 0;
      pending_direction = no_direction;
      pending_samples = 0;
      reached = false;
      ceiling = false;
      measured = false;
      actual = zero_value;
      last_successful = zero_value;
      reachable_max = zero_value;
    };
    workers = cfg.min_workers;
    samples = 0;
    error = none;
    returned = false;
    targets = cfg.min_workers ∷ [];
  }

-- The state of RunToMinimum.
pub record Climb (F : Type 0) : Type 0 where
  pub consecutive : ℕ
  pub reached : Bool
  pub ceiling : Bool
  pub measured : Bool
  pub reachable_max : F
  pub workers : ℕ
  pub samples : ℕ
  pub error : Option RunError
  pub returned : Bool
  pub targets : List ℕ

module _ {F : Type 0} (fl : FloatOps F) (cfg : ControllerConfig F) where
  abbrev stops : Climb F → Option RunError → Climb F
  stops c e = record c { error = e; returned = true }

  -- minimumTargetSampleError
  abbrev pub minimum_target_sample_error : Sample F → Option RunError
  minimum_target_sample_error x = elim (failure x) [
    | some e ↦ some e
    | none ↦ if x.available then none else some metric_unavailable
  ]

  -- The wait at the end of a round.
  abbrev wait : Climb F → Bool → Climb F
  wait c interrupted = if interrupted then stops c (some context_done) else c

  unfoldable pub climb_step : Climb F → Tick F → Climb F
  climb_step c tick =
      let value = tick.sample.value in
      let n = suc c.consecutive in
      let next =
        min cfg.max_workers (c.workers + actuator_ramp_adjustment fl cfg true value c.workers) in
      if fl.le_f cfg.target value
      then (if leb cfg.required_samples n
          then record c { consecutive = n; reached = true; returned = true }
          else wait (record c { consecutive = n }) tick.interrupted)
      else if leb cfg.max_workers c.workers
      then record c { consecutive = 0; ceiling = true; returned = true }
      else elim tick.refusal [
        | some e ↦ stops (record c { consecutive = 0 }) (some (actuator_error e))
        | none ↦
            wait (record c { consecutive = 0; workers = next; targets = next ∷ c.targets })
              tick.interrupted
      ]

  unfoldable pub climb_round : Climb F → Tick F → Climb F
  climb_round c tick =
      let value = tick.sample.value in
      let counted = record c { samples = suc c.samples } in
      if tick.cancelled
      then stops c (some context_done)
      else elim (minimum_target_sample_error tick.sample) [
        | some e ↦ stops counted (some e)
        | none ↦
            climb_step
              (record counted {
                measured = true;
                reachable_max = if fl.lt_f c.reachable_max value then value else c.reachable_max;
              })
              tick
      ]

  unfoldable pub run_to_minimum : Climb F → List (Tick F) → Climb F
  run_to_minimum c [] = c
  run_to_minimum c (tick ∷ ticks) =
      let rest = run_to_minimum (climb_round c tick) ticks in if c.returned then c else rest
