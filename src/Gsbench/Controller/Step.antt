-- ===== src/Gsbench/Controller/Step.antt =====
-- One round of the loop of Controller.run, internal/gsbench/controller.go, from a sample to what is
-- done with the worker target.
use gstop.Base.{
  ℕ, suc, ◌+◌, ◌-◌, ◌*◌, ◌/◌, Bool, true, false, ◌&&◌, ◌||◌, not, List, [], ◌∷◌, ◌++◌, none, some,
  ltb, leb, ◌==◌, if◌then◌else◌, min, max, length, drop, get_elem?,
}
use gstop.Gsbench.Controller.Config.{FloatOps, ControllerConfig, Sample, actuator_ramp_adjustment}

pub data Direction : Type 0 where
  no_direction upward downward : Direction

abbrev pub same_direction : Direction → Direction → Bool
same_direction no_direction no_direction = true
same_direction upward upward = true
same_direction downward downward = true
same_direction _ _ = false

-- The variables of the loop, and the parts of its ControlResult that it sets.
pub record Loop (F : Type 0) : Type 0 where
  pub in_band : ℕ
  pub ceiling_samples : ℕ
  pub have_reachable : Bool
  pub lower_target : ℕ
  pub upper_target : ℕ
  pub have_lower_target : Bool
  pub have_upper_target : Bool
  pub settled : Bool
  pub settled_values : List F
  pub band_observations : ℕ
  pub adjustment_cooldown : ℕ
  pub pending_direction : Direction
  pub pending_samples : ℕ
  pub reached : Bool
  pub ceiling : Bool
  pub measured : Bool
  pub actual : F
  pub last_successful : F
  pub reachable_max : F

-- What the round asks for: nothing, a worker target, or the return of the result.
pub data Command : Type 0 where
  hold : Command
  request : ℕ → Command
  finish : Command

module _ {F : Type 0} where
  abbrev pub reset_pending_adjustment : Loop F → Loop F
  reset_pending_adjustment s = record s { pending_direction = no_direction; pending_samples = 0 }

  -- adjustmentConfirmed, with the loop that it leaves.
  unfoldable pub adjustment_confirmed : ControllerConfig F → Direction → Loop F → Loop F × Bool
  adjustment_confirmed cfg direction s =
      let seen =
        suc (if same_direction direction s.pending_direction then s.pending_samples else 0) in
      if ltb seen cfg.required_adjustment_samples
      then (record s { pending_direction = direction; pending_samples = seen }, false)
      else (reset_pending_adjustment s, true)

  -- A sample at the worker ceiling: the result, after enough of them.
  unfoldable pub at_ceiling : ControllerConfig F → Loop F → Loop F × Command
  at_ceiling cfg s =
      let n = suc s.ceiling_samples in
      if leb cfg.required_samples n
      then (record s { ceiling_samples = n; ceiling = true }, finish)
      else (record s { ceiling_samples = n }, hold)

module _ {F : Type 0} (fl : FloatOps F) where
  open fl use {zero_f, two_f, add, sub, div, abs, le_f, lt_f}

  abbrev insert_value : F → List F → List F
  insert_value x [] = x ∷ []
  insert_value x (y ∷ ys) = if lt_f y x then y ∷ insert_value x ys else x ∷ y ∷ ys

  -- sort.Float64s
  abbrev sort_values : List F → List F
  sort_values [] = []
  sort_values (x ∷ xs) = insert_value x (sort_values xs)

  abbrev value_at : List F → ℕ → F
  value_at l i = elim (get_elem? l i) [ none ↦ zero_f | some x ↦ x ]

  unfoldable pub median_control_value : List F → F
  median_control_value values =
      let ordered = sort_values values in
      let middle = length ordered / 2 in
      if length values == 0
      then zero_f
      else if length ordered == 2 * middle + 1
      then value_at ordered middle
      else div (add (value_at ordered (middle - 1)) (value_at ordered middle)) two_f

  module _ (cfg : ControllerConfig F) (continuous : Bool) where
    ramp : Bool → F → ℕ → ℕ
    ramp = actuator_ramp_adjustment fl cfg

    -- A sample without a value.
    unfoldable pub unavailable : Loop F → Sample F → ℕ → Loop F × Command
    unfolding ramp at_ceiling
    unavailable loop sample current =
        let s = record (reset_pending_adjustment loop) {
          in_band = 0;
          band_observations = 0;
          settled_values = [];
          reached = if continuous then false else loop.reached;
        } in
        if leb cfg.max_workers current then at_ceiling cfg s else (
          record s { ceiling_samples = 0; band_observations = 0 },
          request (min cfg.max_workers (current + ramp false sample.value current)),
        )

    -- A sample in the band of the target.
    unfoldable pub inside_band : Loop F → Sample F → Loop F × Command
    inside_band loop sample =
        let n = suc loop.in_band in
        let s = record (reset_pending_adjustment loop) { in_band = n; ceiling_samples = 0 } in
        let observed = suc loop.band_observations in
        let settling = ltb 0 cfg.settled_step && not loop.settled in
        let t =
          if settling
          then (if leb cfg.required_settling_samples observed
              then record s {
                band_observations = observed;
                settled = true;
                settled_values = sample.value ∷ [];
                have_lower_target = false;
                have_upper_target = false;
              }
              else record s { band_observations = observed })
          else s in
        if leb cfg.required_samples n
        then (record t { reached = true }, (if continuous then hold else finish))
        else (t, hold)

    -- Below the band, after the controller has settled.
    unfoldable pub settled_low : Loop F → Bool → F → ℕ → Loop F × Command
    unfolding ramp adjustment_confirmed at_ceiling
    settled_low s cooling control current =
        let (t, confirmed) = adjustment_confirmed cfg upward s in
        let adjustment = min cfg.settled_step (ramp true control current) in
        if cooling
        then (record (reset_pending_adjustment s) { ceiling_samples = 0 }, hold)
        else if leb cfg.max_workers current
        then at_ceiling cfg (reset_pending_adjustment s)
        else if confirmed
        then (
          record t { ceiling_samples = 0; adjustment_cooldown = cfg.adjustment_cooldown_samples },
          request (min cfg.max_workers (current + max 1 adjustment)),
        )
        else (t, hold)

    -- Below the band, while the target is still searched for.
    unfoldable pub searching_low : Loop F → F → ℕ → Loop F × Command
    unfolding ramp adjustment_confirmed at_ceiling
    searching_low loop control current =
        let same_upper = loop.have_upper_target && (current == loop.upper_target) in
        let s = record loop {
          have_upper_target = loop.have_upper_target && not (ltb loop.upper_target current);
          lower_target =
              if not loop.have_lower_target || ltb loop.lower_target current
              then current
              else loop.lower_target;
          have_lower_target = true;
        } in
        let (t, confirmed) = adjustment_confirmed cfg upward s in
        let up = record t { ceiling_samples = 0; band_observations = 0 } in
        let adjustment = ramp true control current in
        let explored =
          if ltb 0 cfg.exploration_step
          then max adjustment (min cfg.step cfg.exploration_step)
          else adjustment in
        if leb cfg.max_workers current
        then at_ceiling cfg (reset_pending_adjustment s)
        else if not confirmed
        then (t, hold)
        else if s.have_upper_target && ltb current s.upper_target
        then (up, request (current + max 1 ((s.upper_target - current) / 2)))
        else if same_upper
        then (
          record up { have_upper_target = false },
          request (min cfg.max_workers (current + adjustment)),
        )
        else (up, request (min cfg.max_workers (current + explored)))

    -- Above the band, after the controller has settled.
    unfoldable pub settled_high : Loop F → Bool → F → ℕ → Loop F × Command
    unfolding ramp adjustment_confirmed
    settled_high loop cooling control current =
        let s = record loop { ceiling_samples = 0 } in
        let (t, confirmed) = adjustment_confirmed cfg downward s in
        let adjustment = min cfg.settled_step (ramp true control current) in
        if cooling
        then (reset_pending_adjustment s, hold)
        else if confirmed
        then (
          record t { adjustment_cooldown = cfg.adjustment_cooldown_samples },
          request (max cfg.min_workers (current - max 1 adjustment)),
        )
        else (t, hold)

    -- Above the band, while the target is still searched for.
    unfoldable pub searching_high : Loop F → F → ℕ → Loop F × Command
    unfolding ramp adjustment_confirmed
    searching_high loop control current =
        let same_lower = loop.have_lower_target && (current == loop.lower_target) in
        let s = record loop {
          have_lower_target = loop.have_lower_target && not (ltb current loop.lower_target);
          upper_target =
              if not loop.have_upper_target || ltb current loop.upper_target
              then current
              else loop.upper_target;
          have_upper_target = true;
          ceiling_samples = 0;
        } in
        let (t, confirmed) = adjustment_confirmed cfg downward s in
        let down = record t { band_observations = 0 } in
        if not confirmed
        then (t, hold)
        else if s.have_lower_target && ltb s.lower_target current
        then (down, request (s.lower_target + (current - s.lower_target) / 2))
        else if same_lower
        then (
          record down { have_lower_target = false },
          request (max cfg.min_workers (current - ramp true control current)),
        )
        else (down, request (max cfg.min_workers (current / 2)))

    -- A sample outside the band.
    unfoldable pub outside_band : Loop F → Bool → F → ℕ → Loop F × Command
    outside_band loop cooling control current =
        let s = record loop { in_band = 0; reached = if continuous then false else loop.reached } in
        if lt_f control cfg.target
        then (if s.settled
            then settled_low s cooling control current
            else searching_low s control current)
        else if lt_f cfg.target control && ltb cfg.min_workers current
        then (if s.settled
            then settled_high s cooling control current
            else searching_high s control current)
        else (record (reset_pending_adjustment s) { ceiling_samples = 0 }, hold)

    -- The last three values since the controller has settled.
    abbrev last_three : List F → List F
    last_three l = drop (length l - 3) l

    -- A sample with a value.
    unfoldable pub measure : Loop F → Sample F → ℕ → Loop F × Command
    measure loop sample current =
        let higher = not loop.have_reachable || lt_f loop.reachable_max sample.value in
        let values =
          if loop.settled
          then last_three (loop.settled_values ++ sample.value ∷ [])
          else loop.settled_values in
        let control = if loop.settled then median_control_value values else sample.value in
        let cooling = loop.settled && ltb 0 loop.adjustment_cooldown in
        let s = record loop {
          measured = true;
          actual = sample.value;
          last_successful = sample.value;
          reachable_max = if higher then sample.value else loop.reachable_max;
          have_reachable = true;
          settled_values = values;
          adjustment_cooldown =
              if cooling then loop.adjustment_cooldown - 1 else loop.adjustment_cooldown;
        } in
        if le_f (abs (sub control cfg.target)) cfg.tolerance
        then inside_band s sample
        else outside_band s cooling control current

    unfoldable pub control_step : Loop F → Sample F → ℕ → Loop F × Command
    control_step loop sample current =
        if sample.available then measure loop sample current else unavailable loop sample current
