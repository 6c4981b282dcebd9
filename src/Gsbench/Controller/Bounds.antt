-- ===== src/Gsbench/Controller/Bounds.antt =====
-- The worker targets that the controller of internal/gsbench/controller.go asks for.
use gstop.Base.{ℕ, ◌≤◌, ◌≡◌, Bool, true, false, arith, if◌then◌else◌, if-elim}
use gstop.Gsbench.Controller.Config.{FloatOps, ControllerConfig, Sample}
use gstop.Gsbench.Controller.Step.{
  Loop, Command, hold, request, finish, unavailable, inside_band, settled_low, searching_low,
  settled_high, searching_high, outside_band, measure, control_step,
}

-- The bounds of the search lie in the range of workers.
pub record IsBounded {F : Type 0} (cfg : ControllerConfig F) (s : Loop F) : Type 0 where
  pub lower :
      s.have_lower_target ≡ true
      → (cfg.min_workers ≤ s.lower_target) × (s.lower_target ≤ cfg.max_workers)
  pub upper :
      s.have_upper_target ≡ true
      → (cfg.min_workers ≤ s.upper_target) × (s.upper_target ≤ cfg.max_workers)

-- What a command asks for lies in the range of workers.
abbrev pub Within : {F : Type 0} → ControllerConfig F → Command → Type 0
Within cfg (request n) = (cfg.min_workers ≤ n) × (n ≤ cfg.max_workers)
Within cfg hold = Unit
Within cfg finish = Unit

abbrev pub Good : {F : Type 0} → ControllerConfig F → Loop F × Command → Type 0
Good cfg r = IsBounded cfg r.0 × Within cfg r.1

module _ {F : Type 0} (fl : FloatOps F) (cfg : ControllerConfig F) (continuous : Bool) where
  unavailable-Good :
      (s : Loop F) (x : Sample F) (current : ℕ)
      → cfg.min_workers ≤ current
      → current ≤ cfg.max_workers
      → IsBounded cfg s
      → Good cfg (unavailable fl cfg continuous s x current)
  unfolding unavailable
  unavailable-Good s x current l h b = ground arith

  inside_band-Good :
      (s : Loop F) (x : Sample F) → IsBounded cfg s → Good cfg (inside_band fl cfg continuous s x)
  unfolding inside_band
  inside_band-Good s x b = ground arith

  settled_low-Good :
      (s : Loop F) (cooling : Bool) (v : F) (current : ℕ)
      → cfg.min_workers ≤ current
      → current ≤ cfg.max_workers
      → IsBounded cfg s
      → Good cfg (settled_low fl cfg continuous s cooling v current)
  unfolding settled_low
  settled_low-Good s cooling v current l h b = ground arith

  searching_low-Good :
      (s : Loop F) (v : F) (current : ℕ)
      → cfg.min_workers ≤ current
      → current ≤ cfg.max_workers
      → IsBounded cfg s
      → Good cfg (searching_low fl cfg continuous s v current)
  unfolding searching_low
  searching_low-Good s v current l h b = ground arith

  settled_high-Good :
      (s : Loop F) (cooling : Bool) (v : F) (current : ℕ)
      → cfg.min_workers ≤ current
      → current ≤ cfg.max_workers
      → IsBounded cfg s
      → Good cfg (settled_high fl cfg continuous s cooling v current)
  unfolding settled_high
  settled_high-Good s cooling v current l h b = ground arith

  searching_high-Good :
      (s : Loop F) (v : F) (current : ℕ)
      → cfg.min_workers ≤ current
      → current ≤ cfg.max_workers
      → IsBounded cfg s
      → Good cfg (searching_high fl cfg continuous s v current)
  unfolding searching_high
  searching_high-Good s v current l h b = ground arith

  outside_band-Good :
      (s : Loop F) (cooling : Bool) (v : F) (current : ℕ)
      → cfg.min_workers ≤ current
      → current ≤ cfg.max_workers
      → IsBounded cfg s
      → Good cfg (outside_band fl cfg continuous s cooling v current)
  unfolding outside_band
  outside_band-Good s cooling v current l h b =
      let t : Loop F = record s {
        in_band = 0;
        reached = if continuous then false else s.reached;
      } in
      let bt : IsBounded cfg t = record { lower = b.lower; upper = b.upper } in
      ground (
        arith,
        settled_low-Good t cooling v current l h bt,
        searching_low-Good t v current l h bt,
        settled_high-Good t cooling v current l h bt,
        searching_high-Good t v current l h bt,
      )

  measure-Good :
      (s : Loop F) (x : Sample F) (current : ℕ)
      → cfg.min_workers ≤ current
      → current ≤ cfg.max_workers
      → IsBounded cfg s
      → Good cfg (measure fl cfg continuous s x current)
  unfolding measure
  measure-Good s x current l h b = measured _ _ _ (record { lower = b.lower; upper = b.upper })
    where
      measured :
          (t : Loop F) (cooling : Bool) (control : F)
          → IsBounded cfg t
          → Good cfg (
              if fl.le_f (fl.abs (fl.sub control cfg.target)) cfg.tolerance
              then inside_band fl cfg continuous t x
              else outside_band fl cfg continuous t cooling control current)
      measured t cooling control bt =
          ground
            (arith, inside_band-Good t x bt, outside_band-Good t cooling control current l h bt)

  -- From a worker count in the range, a round keeps the bounds of its search in the range, and the
  -- target that it asks for, if any, lies in the range.
  pub control_step-Good :
      (s : Loop F) (x : Sample F) (current : ℕ)
      → cfg.min_workers ≤ current
      → current ≤ cfg.max_workers
      → IsBounded cfg s
      → Good cfg (control_step fl cfg continuous s x current)
  unfolding control_step
  control_step-Good s x current l h b =
      if-elim (Good cfg) x.available (measure fl cfg continuous s x current)
        (unavailable fl cfg continuous s x current) (λ e. measure-Good s x current l h b)
        (λ e. unavailable-Good s x current l h b)
