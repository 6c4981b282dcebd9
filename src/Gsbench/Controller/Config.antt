-- ===== src/Gsbench/Controller/Config.antt =====
-- The settings of the controller and the size of an adjustment, internal/gsbench/controller.go.
-- An int field is a number: each test on it is of the form `<= 0` or `> 0`, where a negative value
-- reads as 0. float64 is a type with the operations of `FloatOps`, of which no law is used.
use gstop.Base.{
  ℕ, ◌+◌, ◌-◌, ◌*◌, ◌/◌, ◌≤◌, String, Bool, ◌||◌, not, Option, ltb, ◌==◌, if◌then◌else◌, min, max,
  arith,
}

pub record FloatOps (F : Type 0) : Type 0 where
  pub zero_f : F
  pub two_f : F
  pub of_int : ℕ → F
  pub add : F → F → F
  pub sub : F → F → F
  pub mul : F → F → F
  pub div : F → F → F
  pub abs : F → F
  pub le_f : F → F → Bool
  pub lt_f : F → F → Bool
  -- int(math.Ceil(x)), with 0 for what is negative
  pub ceil_int : F → ℕ

-- type ControllerConfig
pub record ControllerConfig (F : Type 0) : Type 0 where
  pub target : F
  pub tolerance : F
  pub min_workers : ℕ
  pub max_workers : ℕ
  pub step : ℕ
  pub exploration_step : ℕ
  pub settled_step : ℕ
  pub required_samples : ℕ
  pub required_adjustment_samples : ℕ
  pub required_settling_samples : ℕ
  pub adjustment_cooldown_samples : ℕ
  pub max_samples : ℕ
  pub interval : ℕ

-- type Sample
pub record Sample (F : Type 0) : Type 0 where
  pub value : F
  pub available : Bool
  pub errors : ℕ
  pub err : Option String

-- time.Second
abbrev pub second : ℕ
second = 1_000_000_000

abbrev default : ℕ → ℕ → ℕ
default n d = if n == 0 then d else n

module _ {F : Type 0} (fl : FloatOps F) where
  unfoldable pub normalized_controller_config : ControllerConfig F → ControllerConfig F
  normalized_controller_config cfg =
      let low = default cfg.min_workers 1 in
      let high = if ltb cfg.max_workers low then low else cfg.max_workers in
      let samples = default cfg.required_samples 3 in
      record cfg {
        min_workers = low;
        max_workers = high;
        step = default cfg.step (max 1 ((high - low + 9) / 10));
        required_samples = samples;
        required_adjustment_samples = default cfg.required_adjustment_samples 1;
        required_settling_samples = default cfg.required_settling_samples 1;
        max_samples = default cfg.max_samples (max samples (high * 4));
        interval = default cfg.interval second;
        tolerance = if fl.le_f cfg.tolerance fl.zero_f then fl.two_f else cfg.tolerance;
      }

  unfoldable pub actuator_ramp_adjustment : ControllerConfig F → Bool → F → ℕ → ℕ
  actuator_ramp_adjustment cfg available value current =
      let step = max 1 cfg.step in
      if not available || fl.le_f cfg.target fl.zero_f || fl.le_f value fl.zero_f
      then max 1 (min step (default cfg.exploration_step step))
      else let deviation = fl.div (fl.abs (fl.sub cfg.target value)) cfg.target in
        let base = min step (max 1 current) in
        max 1 (min step (fl.ceil_int (fl.mul (fl.of_int base) deviation)))

  unfoldable pub worker_ramp_adjustment : ControllerConfig F → Bool → F → ℕ
  unfolding actuator_ramp_adjustment
  worker_ramp_adjustment cfg available value =
      actuator_ramp_adjustment cfg available value (max 1 cfg.step)

  -- Normalised settings have a range of workers and positive counts.
  pub record IsNormal (cfg : ControllerConfig F) : Type 0 where
    pub low_positive : 1 ≤ cfg.min_workers
    pub ordered : cfg.min_workers ≤ cfg.max_workers
    pub step_positive : 1 ≤ cfg.step
    pub samples_positive : 1 ≤ cfg.required_samples
    pub adjustment_positive : 1 ≤ cfg.required_adjustment_samples
    pub settling_positive : 1 ≤ cfg.required_settling_samples
    pub budget_positive : 1 ≤ cfg.max_samples

  pub normalized-IsNormal : (cfg : ControllerConfig F) → IsNormal (normalized_controller_config cfg)
  unfolding normalized_controller_config
  normalized-IsNormal cfg = ground arith

  -- An adjustment is at least one worker and at most one step.
  pub actuator_ramp_adjustment_bounds :
      (cfg : ControllerConfig F) (available : Bool) (value : F) (current : ℕ)
      → let n = actuator_ramp_adjustment cfg available value current in
        (1 ≤ n) × (n ≤ max 1 cfg.step)
  unfolding actuator_ramp_adjustment
  actuator_ramp_adjustment_bounds cfg available value current = ground arith
