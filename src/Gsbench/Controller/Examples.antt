-- ===== src/Gsbench/Controller/Examples.antt =====
-- Tests and instances for the controller, over whole numbers in place of float64.
use gstop.Base.{
  ℕ, ◌+◌, ◌-◌, ◌*◌, ◌/◌, ◌≡◌, refl, true, false, List, [], ◌∷◌, none, All, ltb, leb, arith,
}
use gstop.Gsbench.Controller.Config.{
  FloatOps, ControllerConfig, normalized_controller_config, actuator_ramp_adjustment,
}
use gstop.Gsbench.Controller.Step.{control_step, measure, inside_band, outside_band, searching_low}
use gstop.Gsbench.Controller.Run.{Tick, run_rounds, run_round, sampled, obey, start, run_to_minimum}
use gstop.Gsbench.Controller.Progress.{InRange, run_rounds-InRange, run_rounds_return}
use gstop.Gsbench.Controller.Climbing.{HasClimbed, climb_start, run_to_minimum-HasClimbed}

abbrev whole : FloatOps ℕ
whole = record {
  zero_f = 0;
  two_f = 2;
  of_int = λ n. n;
  add = λ a b. a + b;
  sub = λ a b. (a - b) + (b - a);
  mul = λ a b. a * b / 100;
  div = λ a b. a * 100 / b;
  abs = λ a. a;
  le_f = leb;
  lt_f = ltb;
  ceil_int = λ a. a;
}

abbrev settings : ControllerConfig ℕ
settings = record {
  target = 70;
  tolerance = 5;
  min_workers = 1;
  max_workers = 8;
  step = 4;
  exploration_step = 2;
  settled_step = 0;
  required_samples = 2;
  required_adjustment_samples = 1;
  required_settling_samples = 1;
  adjustment_cooldown_samples = 0;
  max_samples = 3;
  interval = 1;
}

abbrev tick : ℕ → Tick ℕ
tick v = record {
  cancelled = false;
  sample = record { value = v; available = true; errors = 0; err = none };
  refusal = none;
  interrupted = false;
}

abbrev rising : List (Tick ℕ)
rising = tick 20 ∷ tick 70 ∷ tick 71 ∷ []

settings_normal : normalized_controller_config whole settings ≡ settings
unfolding normalized_controller_config
settings_normal = refl

ramps_and_reaches :
    (run_rounds whole settings false (start whole settings false 0) rising).targets ≡ 3 ∷ 1 ∷ []
unfolding run_rounds run_round sampled obey start control_step measure inside_band outside_band
    searching_low actuator_ramp_adjustment
ramps_and_reaches = refl

run_rounds-InRange_example :
    let cfg = normalized_controller_config whole settings in
    let r = run_rounds whole cfg true (start whole cfg true 0) rising in
    All (InRange cfg) r.targets × InRange cfg r.workers
run_rounds-InRange_example = run_rounds-InRange whole settings true rising

run_rounds_return_example :
    let cfg = normalized_controller_config whole settings in
    (run_rounds whole cfg false (start whole cfg false 0) rising).returned ≡ true
unfolding normalized_controller_config
run_rounds_return_example = run_rounds_return whole settings rising (omega arith)

run_to_minimum-HasClimbed_example :
    let cfg = normalized_controller_config whole settings in
    HasClimbed whole cfg rising (run_to_minimum whole cfg (climb_start whole cfg) rising)
run_to_minimum-HasClimbed_example = run_to_minimum-HasClimbed whole settings rising
