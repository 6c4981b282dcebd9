-- ===== src/Refresher/Counters.antt =====
-- The wait groups of internal/app/refresher.go count what runs.
use gstop.Base.{zero, suc, ℕ, suc, ◌+◌, ◌≡◌, refl, Bool, true, false, List, [], ◌∷◌, arith}
use gstop.Refresher.{
  idle_slots, set_after_refresh, new, Refresher, Slot, idle, collecting, closing, launch,
  launch_all, launched, trigger_idle, run_after_refresh_async, collected, pause, resume,
  request_stop, Moves, here, there, Step, tick, woken, pauses, resumes, stops, collects, clears,
  leaves, hook_clears, hook_leaves, Steps, rest, next,
}

abbrev pub flag : Bool → ℕ
flag true = 1
flag false = 0

abbrev pub busy : List Slot → ℕ
busy [] = 0
busy (idle ∷ ss) = busy ss
busy (collecting ∷ ss) = suc (busy ss)
busy (closing ∷ ss) = suc (busy ss)

-- workWG counts the busy slots and those about to call Done, afterWG the hooks likewise, and the
-- root context is cancelled exactly where the refresher is stopped.
pub record IsConsistent (r : Refresher) : Type 0 where
  pub work_counts : r.work ≡ busy r.slots + r.leaving_slots
  pub hooks_count : r.hooks ≡ flag r.emergency_busy + r.leaving_hooks
  pub cancels : r.cancelled ≡ r.stopped

busy-launch_all : (ss : List Slot) → busy (launch_all ss) ≡ busy ss + launched ss
unfolding launch_all launched launch
busy-launch_all [] = refl
busy-launch_all (idle ∷ ss) = omega (arith, busy-launch_all ss)
busy-launch_all (collecting ∷ ss) = omega (arith, busy-launch_all ss)
busy-launch_all (closing ∷ ss) = omega (arith, busy-launch_all ss)

pub busy_closing : {ss ts : List Slot} → Moves collecting closing ss ts → busy ts ≡ busy ss
busy_closing here = refl
busy_closing (there {s = idle} m) = busy_closing m
busy_closing (there {s = collecting} m) = omega (arith, busy_closing m)
busy_closing (there {s = closing} m) = omega (arith, busy_closing m)

pub busy_idle : {ss ts : List Slot} → Moves closing idle ss ts → busy ss ≡ suc (busy ts)
busy_idle here = refl
busy_idle (there {s = idle} m) = busy_idle m
busy_idle (there {s = collecting} m) = omega (arith, busy_idle m)
busy_idle (there {s = closing} m) = omega (arith, busy_idle m)

trigger_idle-IsConsistent : (r : Refresher) → IsConsistent r → IsConsistent (trigger_idle r)
unfolding trigger_idle
trigger_idle-IsConsistent r c = ground (arith, busy-launch_all r.slots)

collected-IsConsistent :
    (success : Bool) (r : Refresher) (ss : List Slot)
    → busy ss ≡ busy r.slots
    → IsConsistent r
    → IsConsistent (record (collected success r) { slots = ss })
unfolding collected run_after_refresh_async
collected-IsConsistent success r ss e c = ground arith

pub Step-IsConsistent : {r s : Refresher} → Step r s → IsConsistent r → IsConsistent s
unfolding pause resume request_stop
Step-IsConsistent {r = r} tick c = trigger_idle-IsConsistent r c
Step-IsConsistent {r = r} (woken e) c =
    trigger_idle-IsConsistent (record r { wake = false }) (ground arith)
Step-IsConsistent pauses c = ground arith
Step-IsConsistent resumes c = ground arith
Step-IsConsistent stops c = ground arith
Step-IsConsistent {r = r} (collects {ss = ss} success m) c =
    collected-IsConsistent success r ss (busy_closing m) c
Step-IsConsistent (clears m) c = ground (arith, busy_idle m)
Step-IsConsistent (leaves p q) c = ground arith
Step-IsConsistent (hook_clears p) c = ground arith
Step-IsConsistent (hook_leaves p q) c = ground arith

busy-idle_slots : (n : ℕ) → busy (idle_slots n) ≡ 0
busy-idle_slots zero = refl
busy-idle_slots (suc n) = busy-idle_slots n

pub new-IsConsistent : (n : ℕ) → IsConsistent (set_after_refresh (new n))
new-IsConsistent n = record {
  work_counts = omega (arith, busy-idle_slots n);
  hooks_count = refl;
  cancels = refl;
}

-- In every state that steps reach from a consistent one, workWG counts the busy slots and those about
-- to call Done, afterWG the running hook and those about to call Done, and the root context is
-- cancelled exactly where the refresher is stopped.
pub Steps-IsConsistent : {r s : Refresher} → Steps r s → IsConsistent r → IsConsistent s
Steps-IsConsistent rest c = c
Steps-IsConsistent (next p ps) c = Steps-IsConsistent ps (Step-IsConsistent p c)
