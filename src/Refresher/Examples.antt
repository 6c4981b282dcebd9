-- ===== src/Refresher/Examples.antt =====
-- Tests and instances for the refresher.
use gstop.Base.{◌≡◌, refl, true, false, [], ◌∷◌}
use gstop.Refresher.{
  Refresher, set_after_refresh, collecting, new, trigger_idle, launch, launch_all, launched,
  request_stop, Steps, rest, next, tick, stops, IsDone,
}
use gstop.Refresher.Counters.{IsConsistent, new-IsConsistent, Steps-IsConsistent, busy}
use gstop.Refresher.Stopping.{CanFinish, stopped-CanFinish, Steps-IsDone}

abbrev two_slots : Refresher
two_slots = set_after_refresh (new 2)

abbrev ticked : Refresher
ticked = record two_slots { slots = collecting ∷ collecting ∷ []; work = 2 }

two_slots-IsConsistent : IsConsistent two_slots
two_slots-IsConsistent = new-IsConsistent 2

ticked_once : trigger_idle two_slots ≡ ticked
unfolding trigger_idle launch launch_all launched
ticked_once = refl

abbrev stopping : Refresher
stopping = record ticked { stopped = true; cancelled = true }

stopped_after_a_tick : Steps two_slots (request_stop (trigger_idle two_slots))
stopped_after_a_tick = next tick (next stops rest)

Steps-IsConsistent_example : IsConsistent (request_stop (trigger_idle two_slots))
Steps-IsConsistent_example = Steps-IsConsistent stopped_after_a_tick two_slots-IsConsistent

stopping-IsConsistent : IsConsistent stopping
stopping-IsConsistent = record { work_counts = refl; hooks_count = refl; cancels = refl }

stopped-CanFinish_example : CanFinish stopping
stopped-CanFinish_example = stopped-CanFinish stopping stopping-IsConsistent refl

abbrev finished : Refresher
finished = record two_slots { stopped = true; cancelled = true }

Steps-IsDone_example :
    IsDone (trigger_idle finished)
    × (busy (trigger_idle finished).slots ≡ 0)
    × ((trigger_idle finished).emergency_busy ≡ false)
Steps-IsDone_example =
    Steps-IsDone (next tick rest)
      (record { work_counts = refl; hooks_count = refl; cancels = refl })
      (record { is_stopped = refl; no_work = refl; no_hooks = refl })
