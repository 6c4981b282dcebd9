-- ===== src/Gsbench/Controller/Climbing.antt =====
-- What holds of RunToMinimum, internal/gsbench/controller.go, over every run.
use gstop.Base.{
  ℕ, zero, suc, ◌+◌, ◌≤◌, ◌≡◌, refl, true, false, List, [], ◌∷◌, none, All, arith, inl, inr,
  if-elim, ◌⊎◌, ◌∙◌, sym, subst,
}
use gstop.Gsbench.Controller.Config.{
  FloatOps, ControllerConfig, normalized_controller_config, normalized-IsNormal,
}
use gstop.Gsbench.Controller.Run.{Tick, Climb, climb_step, climb_round, run_to_minimum}

-- A list of targets, last first, in which none is below an earlier one.
abbrev pub IsRising : List ℕ → Type 0
IsRising [] = Unit
IsRising (n ∷ ns) = All (λ m. m ≤ n) ns × IsRising ns

-- The first rounds, last first, before others.
abbrev pub last_first : {F : Type 0} → ℕ → List (Tick F) → List (Tick F) → List (Tick F)
last_first zero ticks h = h
last_first (suc k) [] h = h
last_first (suc k) (t ∷ ticks) h = last_first k ticks (t ∷ h)

-- The last n samples are all at or over the target.
abbrev pub Streak : {F : Type 0} → FloatOps F → ControllerConfig F → ℕ → List (Tick F) → Type 0
Streak fl cfg zero h = Unit
Streak fl cfg (suc n) [] = ⊥
Streak fl cfg (suc n) (t ∷ h) = (fl.le_f cfg.target t.sample.value ≡ true) × Streak fl cfg n h

-- What RunToMinimum has made of the rounds.
pub record HasClimbed {F : Type 0} (fl : FloatOps F) (cfg : ControllerConfig F)
    (ticks : List (Tick F)) (d : Climb F) : Type 0 where
  pub rising : IsRising d.targets
  pub highest : All (λ n. n ≤ d.workers) d.targets
  pub grown : cfg.min_workers ≤ d.workers
  pub capped : d.workers ≤ cfg.max_workers
  pub exhausted : d.ceiling ≡ true → cfg.max_workers ≤ d.workers
  pub confirmed :
      d.reached ≡ true → Streak fl cfg cfg.required_samples (last_first d.samples ticks [])

raised : (m n : ℕ) (ns : List ℕ) → m ≤ n → All (λ k. k ≤ m) ns → All (λ k. k ≤ n) ns
raised m n [] h a = tt
raised m n (k ∷ ns) h a = (omega (arith, h, a.0), raised m n ns h a.1)

module _ {F : Type 0} (fl : FloatOps F) (cfg : ControllerConfig F) where
  Streak-le : (m n : ℕ) (h : List (Tick F)) → m ≤ n → Streak fl cfg n h → Streak fl cfg m h
  Streak-le zero n h le s = tt
  Streak-le (suc m) zero h le s = absurd (omega (arith, le))
  Streak-le (suc m) (suc n) [] le s = absurd s
  Streak-le (suc m) (suc n) (t ∷ h) le s = (s.0, Streak-le m n h (omega (arith, le)) s.1)

  -- The targets of a climb that goes on or has returned.
  record IsClimb (c : Climb F) : Type 0 where
    targets_rise : IsRising c.targets
    targets_below : All (λ n. n ≤ c.workers) c.targets
    above_least : cfg.min_workers ≤ c.workers
    below_greatest : c.workers ≤ cfg.max_workers
    at_ceiling : c.ceiling ≡ true → cfg.max_workers ≤ c.workers

  -- A round leaves the targets, or adds one that is no lower.
  climb_round-targets :
      (c : Climb F) (tick : Tick F)
      → c.workers ≤ cfg.max_workers
      → (c.ceiling ≡ true → cfg.max_workers ≤ c.workers)
      → let d = climb_round fl cfg c tick in
        (((d.workers ≡ c.workers) × (d.targets ≡ c.targets))
          ⊎ ((c.workers ≤ d.workers)
              × (d.workers ≤ cfg.max_workers)
              × (d.targets ≡ d.workers ∷ c.targets)))
        × (d.ceiling ≡ true → cfg.max_workers ≤ d.workers)
  unfolding climb_round climb_step
  climb_round-targets c tick h g = ground arith

  climb_round-IsClimb :
      (c : Climb F) (tick : Tick F) → IsClimb c → IsClimb (climb_round fl cfg c tick)
  climb_round-IsClimb c tick g =
      let d = climb_round fl cfg c tick in
      let t = climb_round-targets c tick g.below_greatest g.at_ceiling in
      elim t.0 [
        | inl (w, e) ↦ record {
          targets_rise = subst IsRising (sym e) g.targets_rise;
          targets_below =
              subst (All (λ n. n ≤ d.workers)) (sym e)
                (raised c.workers d.workers c.targets (omega (arith, w)) g.targets_below);
          above_least = omega (arith, w, g.above_least);
          below_greatest = omega (arith, w, g.below_greatest);
          at_ceiling = t.1;
        }
        | inr (w, m, e) ↦
            let below = raised c.workers d.workers c.targets w g.targets_below in
            record {
              targets_rise = subst IsRising (sym e) (below, g.targets_rise);
              targets_below = subst (All (λ n. n ≤ d.workers)) (sym e) (omega arith, below);
              above_least = omega (arith, w, g.above_least);
              below_greatest = m;
              at_ceiling = t.1;
            }
      ]

  run_to_minimum-IsClimb :
      (c : Climb F) (ticks : List (Tick F)) → IsClimb c → IsClimb (run_to_minimum fl cfg c ticks)
  unfolding run_to_minimum
  run_to_minimum-IsClimb c [] g = g
  run_to_minimum-IsClimb c (tick ∷ ticks) g =
      if-elim IsClimb c.returned c (run_to_minimum fl cfg (climb_round fl cfg c tick) ticks)
        (λ e. g)
        (λ e.
          run_to_minimum-IsClimb (climb_round fl cfg c tick) ticks (climb_round-IsClimb c tick g))

  -- A round ends the climb before the target, adds a good sample, or starts to count again.
  climb_round-cases :
      (c : Climb F) (tick : Tick F)
      → c.reached ≡ false
      → let d = climb_round fl cfg c tick in
        ((d.returned ≡ true)
          × (d.reached ≡ false)
          × ((d.samples ≡ c.samples) ⊎ (d.samples ≡ suc c.samples)))
        ⊎ (((d.samples ≡ suc c.samples)
              × (fl.le_f cfg.target tick.sample.value ≡ true)
              × (d.consecutive ≡ suc c.consecutive)
              × (d.reached ≡ true → cfg.required_samples ≤ d.consecutive)
              × (d.returned ≡ false → d.reached ≡ false))
            ⊎ ((d.samples ≡ suc c.samples) × (d.consecutive ≡ 0) × (d.reached ≡ false)))
  unfolding climb_round climb_step
  climb_round-cases c tick n = ground arith

  run_to_minimum-returned :
      (c : Climb F) (ticks : List (Tick F)) → c.returned ≡ true → run_to_minimum fl cfg c ticks ≡ c
  unfolding run_to_minimum
  run_to_minimum-returned c [] h = refl
  run_to_minimum-returned c (tick ∷ ticks) h = rw h refl

  abbrev Confirms : Climb F → List (Tick F) → List (Tick F) → Climb F → Type 0
  Confirms c ticks h d =
      (k : ℕ) × (d.samples ≡ c.samples + k)
      × (d.reached ≡ true → Streak fl cfg cfg.required_samples (last_first k ticks h))

  run_to_minimum-Confirms :
      (c : Climb F) (ticks h : List (Tick F))
      → (c.reached ≡ true → Streak fl cfg cfg.required_samples h)
      → (c.returned ≡ false → Streak fl cfg c.consecutive h × (c.reached ≡ false))
      → Confirms c ticks h (run_to_minimum fl cfg c ticks)
  unfolding run_to_minimum
  run_to_minimum-Confirms c [] h done going = (0, omega arith, done)
  run_to_minimum-Confirms c (tick ∷ ticks) h done going =
      let d = climb_round fl cfg c tick in
      if-elim (Confirms c (tick ∷ ticks) h) c.returned c (run_to_minimum fl cfg d ticks)
        (λ e. (0, omega arith, done))
        (λ e. elim (climb_round-cases c tick (going e).1) [
          | inl (r, n, s) ↦
              subst (Confirms c (tick ∷ ticks) h) (sym (run_to_minimum-returned d ticks r))
                (ended d n s)
          | inr (inl g) ↦
              let streak : Streak fl cfg d.consecutive (tick ∷ h) =
                subst (λ n. Streak fl cfg n (tick ∷ h)) (sym g.2) (g.1, (going e).0) in
              later d (run_to_minimum fl cfg d ticks) g.0 (
                run_to_minimum-Confirms d ticks (tick ∷ h)
                  (λ q. Streak-le cfg.required_samples d.consecutive (tick ∷ h) (g.3 q) streak)
                  (λ q. (streak, g.4 q)))
          | inr (inr g) ↦ later d (run_to_minimum fl cfg d ticks) g.0 (
              run_to_minimum-Confirms d ticks (tick ∷ h) (λ q. absurd (clash d g.2 q))
                (λ q. (subst (λ n. Streak fl cfg n (tick ∷ h)) (sym g.1) tt, g.2)))
        ])
    where
      clash : (d : Climb F) → d.reached ≡ false → d.reached ≡ true → ⊥
      clash d n q = cc

      ended :
          (d : Climb F)
          → d.reached ≡ false
          → (d.samples ≡ c.samples) ⊎ (d.samples ≡ suc c.samples)
          → Confirms c (tick ∷ ticks) h d
      ended d n (inl s) = (0, omega (arith, s), λ q. absurd (clash d n q))
      ended d n (inr s) = (1, omega (arith, s), λ q. absurd (clash d n q))

      later :
          (d e : Climb F)
          → d.samples ≡ suc c.samples
          → Confirms d ticks (tick ∷ h) e
          → Confirms c (tick ∷ ticks) h e
      later d e s (k, q, f) = (suc k, omega (arith, s, q), f)

zero_add : (n : ℕ) → 0 + n ≡ n
zero_add n = omega arith

-- The state after the first SetTarget.
abbrev pub climb_start : {F : Type 0} → FloatOps F → ControllerConfig F → Climb F
climb_start fl cfg = record {
  consecutive = 0;
  reached = false;
  ceiling = false;
  measured = false;
  reachable_max = fl.zero_f;
  workers = cfg.min_workers;
  samples = 0;
  error = none;
  returned = false;
  targets = cfg.min_workers ∷ [];
}

-- From its first target on, RunToMinimum sets no target below one that it set before, and none over the
-- greatest number of workers; it says that the target is reached only if the required number of
-- samples that it has read last are all at or over the target, and it says that the ceiling is met
-- only at the greatest number of workers.
pub run_to_minimum-HasClimbed :
    {F : Type 0} (fl : FloatOps F) (settings : ControllerConfig F) (ticks : List (Tick F))
    → let cfg = normalized_controller_config fl settings in
      HasClimbed fl cfg ticks (run_to_minimum fl cfg (climb_start fl cfg) ticks)
run_to_minimum-HasClimbed fl settings ticks =
    let cfg = normalized_controller_config fl settings in
    let normal = normalized-IsNormal fl settings in
    let d = run_to_minimum fl cfg (climb_start fl cfg) ticks in
    let g = run_to_minimum-IsClimb fl cfg (climb_start fl cfg) ticks (ground (arith, normal)) in
    let (k, s, f) =
      run_to_minimum-Confirms fl cfg (climb_start fl cfg) ticks []
        (λ e. absurd (let q : ⊥ = cc in q)) (λ e. (tt, refl)) in
    record {
      rising = g.targets_rise;
      highest = g.targets_below;
      grown = g.above_least;
      capped = g.below_greatest;
      exhausted = g.at_ceiling;
      confirmed = λ e.
          subst (λ n. Streak fl cfg cfg.required_samples (last_first n ticks []))
            (sym (s ∙ zero_add k)) (f e);
    }
