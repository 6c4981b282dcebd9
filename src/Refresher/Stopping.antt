-- ===== src/Refresher/Stopping.antt =====
-- What Stop of internal/app/refresher.go waits for comes, and nothing runs after it.
use gstop.Base.{
  ℕ, zero, suc, ◌+◌, ◌*◌, ◌≤◌, ◌<◌, ◌≡◌, refl, true, false, List, [], ◌∷◌, arith, ◌⊎◌, inl, inr,
  Bool-cases,
}
use gstop.Refresher.{
  Refresher, Slot, idle, collecting, closing, trigger_idle, run_after_refresh_async, collected,
  pause, resume, request_stop, Moves, here, there, Step, tick, woken, pauses, resumes, stops,
  collects, clears, leaves, hook_clears, hook_leaves, Steps, rest, next, IsDone,
}
use gstop.Refresher.Counters.{busy, flag, IsConsistent, Step-IsConsistent}

-- The steps that the goroutines have still to make.
abbrev pub weight : List Slot → ℕ
weight [] = 0
weight (idle ∷ ss) = weight ss
weight (collecting ∷ ss) = 3 + weight ss
weight (closing ∷ ss) = 2 + weight ss

abbrev pub load : Refresher → ℕ
load r = weight r.slots + r.leaving_slots + (2 * flag r.emergency_busy + r.leaving_hooks)

weight_closing : {ss ts : List Slot} → Moves collecting closing ss ts → weight ss ≡ suc (weight ts)
weight_closing here = omega arith
weight_closing (there {s = idle} m) = weight_closing m
weight_closing (there {s = collecting} m) = omega (arith, weight_closing m)
weight_closing (there {s = closing} m) = omega (arith, weight_closing m)

weight_idle : {ss ts : List Slot} → Moves closing idle ss ts → weight ss ≡ 2 + weight ts
weight_idle here = refl
weight_idle (there {s = idle} m) = weight_idle m
weight_idle (there {s = collecting} m) = omega (arith, weight_idle m)
weight_idle (there {s = closing} m) = omega (arith, weight_idle m)

-- Once stopped, a refresher stays stopped and takes on no work and no hook.
stopped_load :
    {r s : Refresher}
    → Step r s
    → r.stopped ≡ true
    → (s.stopped ≡ true) × (load s ≤ load r) × (s.work ≤ r.work) × (s.hooks ≤ r.hooks)
unfolding trigger_idle pause resume request_stop collected run_after_refresh_async
stopped_load tick e = ground arith
stopped_load (woken w) e = ground arith
stopped_load pauses e = ground arith
stopped_load resumes e = ground arith
stopped_load stops e = ground arith
stopped_load (collects success m) e = ground (arith, weight_closing m)
stopped_load (clears m) e = ground (arith, weight_idle m)
stopped_load (leaves p q) e = ground arith
stopped_load (hook_clears p) e = ground arith
stopped_load (hook_leaves p q) e = ground arith

-- After Stop has returned no slot is busy, no hook runs, and none ever will.
pub Steps-IsDone :
    {r s : Refresher}
    → Steps r s
    → IsConsistent r
    → IsDone r
    → IsDone s × (busy s.slots ≡ 0) × (s.emergency_busy ≡ false)
Steps-IsDone rest c d = (d, ground arith, ground arith)
Steps-IsDone (next p ps) c d =
    let l = stopped_load p d.is_stopped in
    Steps-IsDone ps (Step-IsConsistent p c) (record {
      is_stopped = l.0;
      no_work = omega (arith, l.2, d.no_work);
      no_hooks = omega (arith, l.3, d.no_hooks);
    })

-- A busy slot has a step.
data Running (ss : List Slot) : Type 0 where
  to_close : {ts : List Slot} → Moves collecting closing ss ts → Running ss
  to_clear : {ts : List Slot} → Moves closing idle ss ts → Running ss
  quiet : busy ss ≡ 0 → Running ss

running : (ss : List Slot) → Running ss
running [] = quiet refl
running (idle ∷ ss) = beside (running ss)
  where
    beside : Running ss → Running (idle ∷ ss)
    beside (to_close m) = to_close (there m)
    beside (to_clear m) = to_clear (there m)
    beside (quiet e) = quiet e
running (collecting ∷ ss) = to_close here
running (closing ∷ ss) = to_clear here

abbrev Progress : Refresher → Type 0
Progress r = IsDone r ⊎ ((s : Refresher) × Step r s × (load s < load r))

Nat-cases : (n : ℕ) → (n ≡ 0) ⊎ ((m : ℕ) × (n ≡ suc m))
Nat-cases zero = inl refl
Nat-cases (suc m) = inr (m, refl)

module _ (r : Refresher) (c : IsConsistent r) (e : r.stopped ≡ true) where
  hooks-Progress : r.leaving_slots ≡ 0 → busy r.slots ≡ 0 → Progress r
  hooks-Progress l q = elim (Bool-cases r.emergency_busy) [
    | inl b ↦ inr (_, hook_clears b, ground arith)
    | inr b ↦ elim (Nat-cases r.leaving_hooks) [
      | inl z ↦ inl (record {
        is_stopped = e;
        no_work = omega (arith, c.work_counts);
        no_hooks = ground (arith, c.hooks_count);
      })
      | inr z ↦
          let h : r.hooks ≡ suc z.0 = ground (arith, c.hooks_count) in
          inr (_, hook_leaves z.1 h, ground arith)
    ]
  ]

  quiet-Progress : busy r.slots ≡ 0 → Progress r
  quiet-Progress q = elim (Nat-cases r.leaving_slots) [
    | inl z ↦ hooks-Progress z q
    | inr z ↦
        let h : r.work ≡ suc z.0 = omega (arith, c.work_counts) in
        inr (_, leaves z.1 h, ground arith)
  ]

  progress : Progress r
  unfolding collected
  progress = elim (running r.slots) [
    | to_close m ↦ inr (_, collects false m, omega (arith, weight_closing m))
    | to_clear m ↦ inr (_, clears m, omega (arith, weight_idle m))
    | quiet q ↦ quiet-Progress q
  ]

abbrev pub CanFinish : Refresher → Type 0
CanFinish r = (s : Refresher) × Steps r s × IsDone s

finishes :
    (fuel : ℕ) (r : Refresher) → load r ≤ fuel → IsConsistent r → r.stopped ≡ true → CanFinish r
finishes zero r l c e = elim (progress r c e) [
  | inl d ↦ (r, rest, d)
  | inr q ↦ absurd (let h : ⊥ = omega (arith, q.2) in h)
]
finishes (suc fuel) r l c e = elim (progress r c e) [
  | inl d ↦ (r, rest, d)
  | inr q ↦
      let f =
        finishes fuel q.0 (omega (arith, q.2)) (Step-IsConsistent q.1 c) (stopped_load q.1 e).0 in
      (f.0, next q.1 f.1, f.2)
]

-- From every consistent stopped state the goroutines' own steps lead to one where Stop returns: it
-- never waits for a counter that nothing lowers.
pub stopped-CanFinish : (r : Refresher) → IsConsistent r → r.stopped ≡ true → CanFinish r
stopped-CanFinish r c e = finishes (load r) r (omega arith) c e
