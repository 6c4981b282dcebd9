-- ===== src/Refresher.antt =====
-- The refresh scheduler of internal/app/refresher.go as a step relation: every critical section of
-- the code, and every atomic change of a flag or a wait group outside one, is a step. What a monitor
-- collects and the cadence of the ticker are not modelled: a tick may come at any time.
mod Counters
mod Stopping
mod Examples
use gstop.Base.{ℕ, zero, suc, ◌+◌, Bool, true, false, ◌||◌, not, List, [], ◌∷◌, if◌then◌else◌, ◌≡◌}

-- A slot is busy in both states but `idle`: its goroutine collects, or has yet to clear the flag.
pub data Slot : Type 0 where
  idle collecting closing : Slot

pub record Refresher : Type 0 where
  pub slots : List Slot
  pub paused : Bool
  pub stopped : Bool
  pub cancelled : Bool
  pub wake : Bool
  -- The counters of workWG and afterWG.
  pub work : ℕ
  pub hooks : ℕ
  pub emergency_busy : Bool
  -- The goroutines that have cleared their flag and not yet called Done.
  pub leaving_slots : ℕ
  pub leaving_hooks : ℕ
  pub has_hook : Bool

-- One idle slot for each monitor.
abbrev pub idle_slots : ℕ → List Slot
idle_slots zero = []
idle_slots (suc n) = idle ∷ idle_slots n

abbrev pub new : ℕ → Refresher
new monitors = record {
  slots = idle_slots monitors;
  paused = false;
  stopped = false;
  cancelled = false;
  wake = false;
  work = 0;
  hooks = 0;
  emergency_busy = false;
  leaving_slots = 0;
  leaving_hooks = 0;
  has_hook = false;
}

abbrev pub set_after_refresh : Refresher → Refresher
set_after_refresh r = record r { has_hook = true }

-- One slot of the loop of triggerIdle: CompareAndSwap of its flag.
unfoldable pub launch : Slot → Slot
launch idle = collecting
launch collecting = collecting
launch closing = closing

abbrev pub launches : Slot → ℕ
launches idle = 1
launches collecting = 0
launches closing = 0

unfoldable pub launch_all : List Slot → List Slot
launch_all [] = []
launch_all (s ∷ ss) = launch s ∷ launch_all ss

unfoldable pub launched : List Slot → ℕ
launched [] = 0
launched (s ∷ ss) = launches s + launched ss

unfoldable pub trigger_idle : Refresher → Refresher
trigger_idle r =
    if r.stopped || r.paused
    then r
    else record r { slots = launch_all r.slots; work = r.work + launched r.slots }

unfoldable pub run_after_refresh_async : Refresher → Refresher
run_after_refresh_async r =
    if not r.has_hook
    then r
    else if r.stopped || r.emergency_busy
    then r
    else record r { emergency_busy = true; hooks = suc r.hooks }

-- The end of a collection in refreshSlot, which succeeded or not.
unfoldable pub collected : Bool → Refresher → Refresher
collected success r = if success then run_after_refresh_async r else r

unfoldable pub pause : Refresher → Refresher
pause r = record r { paused = true }

unfoldable pub resume : Refresher → Refresher
resume r = if r.stopped then r else record r { paused = false; wake = true }

unfoldable pub request_stop : Refresher → Refresher
request_stop r = if r.stopped then r else record r { stopped = true; cancelled = true }

-- Stop returns where both counters are 0.
pub record IsDone (r : Refresher) : Type 0 where
  pub is_stopped : r.stopped ≡ true
  pub no_work : r.work ≡ 0
  pub no_hooks : r.hooks ≡ 0

-- One slot moves from a state to another.
pub data Moves (from to : Slot) : List Slot → List Slot → Type 0 where
  here : {ss : List Slot} → Moves from to (from ∷ ss) (to ∷ ss)
  there : {s : Slot} {ss ts : List Slot} → Moves from to ss ts → Moves from to (s ∷ ss) (s ∷ ts)

pub data Step (r : Refresher) : Refresher → Type 0 where
  -- A tick, or RefreshOnce.
  tick : Step r (trigger_idle r)
  woken : r.wake ≡ true → Step r (trigger_idle (record r { wake = false }))
  pauses : Step r (pause r)
  resumes : Step r (resume r)
  stops : Step r (request_stop r)
  collects :
      {ss : List Slot} (success : Bool)
      → Moves collecting closing r.slots ss
      → Step r (record (collected success r) { slots = ss })
  clears :
      {ss : List Slot}
      → Moves closing idle r.slots ss
      → Step r (record r { slots = ss; leaving_slots = suc r.leaving_slots })
  -- workWG.Done
  leaves :
      {n m : ℕ}
      → r.leaving_slots ≡ suc n
      → r.work ≡ suc m
      → Step r (record r { leaving_slots = n; work = m })
  hook_clears :
      r.emergency_busy ≡ true
      → Step r (record r { emergency_busy = false; leaving_hooks = suc r.leaving_hooks })
  -- afterWG.Done
  hook_leaves :
      {n m : ℕ}
      → r.leaving_hooks ≡ suc n
      → r.hooks ≡ suc m
      → Step r (record r { leaving_hooks = n; hooks = m })

pub data Steps : Refresher → Refresher → Type 0 where
  rest : {r : Refresher} → Steps r r
  next : {r s t : Refresher} → Step r s → Steps s t → Steps r t
