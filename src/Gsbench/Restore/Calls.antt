-- ===== src/Gsbench/Restore/Calls.antt =====
-- What Restore of internal/gsbench/restore.go calls, with what is recorded of it, and its errors.
use gstop.Base.{ℕ, String, Bool, List, [], ◌∷◌, ◌++◌, Option, none, some}
use gstop.Gsbench.Action.{Action}
use gstop.Gsbench.Journal.{push}

-- type Outcome; `unset_outcome` is the empty string.
pub data Outcome : Type 0 where
  success completed_with_warnings unverified not_applicable degraded : Outcome
  not_implemented failed restore_failed unset_outcome : Outcome

pub data RestoreStage : Type 0 where
  sessions external_control configuration database : RestoreStage

abbrev pub Call : Type 0 → Type 0
Call W = W → Option String × W

-- RestoreCoordinatorBackend, with the optional ReconcileRestoredActions, the lock, and the test
-- isPlanChangeCode on the catalog of the scenarios.
pub record Coordinator (W : Type 0) : Type 0 where
  pub mark_restore_requested : String → Call W
  pub stop_tagged_sessions : String → Call W
  pub restore_group : List Action → Call W
  pub repair_baseline : Call W
  pub reconcile_restored_actions : Option (List Action → Call W)
  pub redetect_topology : Call W
  pub verify_restore : List String → List Action → Call W
  pub mark_restore_outcome : String → Outcome → Call W
  pub release : Call W
  pub is_plan_change_code : ℕ → Bool

pub record RestoreRequest (W : Type 0) : Type 0 where
  pub completed_outcome : Outcome
  pub after_success : Option (Call W)

-- A call with its answer.
pub data Event : Type 0 where
  requested stopped : String → Option String → Event
  group_restored : String → RestoreStage → Option String → Event
  repaired reconciled redetected verified completed released : Option String → Event
  marked : String → Outcome → Option String → Event

-- The wrapped errors of the summary.
pub data RestoreError : Type 0 where
  request_failed stop_failed : String → String → RestoreError
  group_failed : String → RestoreStage → String → RestoreError
  repair_failed reconcile_failed redetect_failed verify_failed complete_failed release_failed :
      String → RestoreError
  mark_failed reconcile_mark_failed : String → Outcome → String → RestoreError

pub record RestoreSummary : Type 0 where
  pub outcome : Outcome
  pub has_failed : Bool
  pub errors : List RestoreError
  pub restore_lock_released : Bool

abbrev pub R : Type 0 → Type 0 → Type 0
R W A = W → A × List Event × W

infixl 5 ◌>>=◌
abbrev pub ◌>>=◌ : {W A B : Type 0} → R W A → (A → R W B) → R W B
◌>>=◌ m f w = let (a, l, v) = m w in let (b, k, u) = f a v in (b, l ++ k, u)

abbrev pub pure : {W A : Type 0} → A → R W A
pure a w = (a, [], w)

-- A call, with what is recorded of it.
abbrev pub calls : {W : Type 0} → (Option String → Event) → Call W → R W (Option String)
calls note f w = let (r, v) = f w in (r, note r ∷ [], v)

abbrev pub wrap : (String → RestoreError) → Option String → Option RestoreError
wrap f none = none
wrap f (some e) = some (f e)

abbrev pub listed : Option RestoreError → List RestoreError
listed e = push e []
