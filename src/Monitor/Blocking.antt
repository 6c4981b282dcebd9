-- ===== src/Monitor/Blocking.antt =====
-- The BLK column and the deadlock report of internal/monitor/session_block.go. A cell is the number
-- that sInt64 reads in it, or `none`; the alarm and the log lines are not modelled, and the order in
-- which Go goes over the map is an argument.
pub mod Reports
pub mod Complete
use gstop.Base.{
  ℕ, Bool, true, false, ◌&&◌, not, List, [], ◌∷◌, ◌++◌, Option, none, some, ◌==◌, if◌then◌else◌,
}
use gstop.Monitor.Deadlocks.{
  but_last, lookup, contains, Walk, out_of_fuel, no_cycle, cycle, find_cycle,
}

pub data Role : Type 0 where
  no_role lock_holder lock_waiter lock_holder_waiter : Role

pub record Session : Type 0 where
  pub pid : Option ℕ
  pub blocker : Option ℕ
  pub blk : Role

unfoldable pub new_blocker_pid_set : List (Option ℕ) → List ℕ
new_blocker_pid_set [] = []
new_blocker_pid_set (none ∷ values) = new_blocker_pid_set values
new_blocker_pid_set (some id ∷ values) = id ∷ new_blocker_pid_set values

unfoldable pub holds : List ℕ → Option ℕ → Bool
holds blockers none = false
holds blockers (some id) = contains id blockers

unfoldable pub block_role : Option ℕ → Option ℕ → List ℕ → Role
block_role pid none blockers = if holds blockers pid then lock_holder else no_role
block_role pid (some b) blockers = if holds blockers pid then lock_holder_waiter else lock_waiter

-- m[k] = v
unfoldable pub set : ℕ → ℕ → List (ℕ × ℕ) → List (ℕ × ℕ)
set k v [] = (k, v) ∷ []
set k v ((j, u) ∷ m) = if k == j then (k, v) ∷ m else (j, u) ∷ set k v m

unfoldable pub record_edge : Option ℕ → Option ℕ → List (ℕ × ℕ) → List (ℕ × ℕ)
record_edge (some p) (some b) edges = if not (p == b) then set p b edges else edges
record_edge none blocker edges = edges
record_edge (some p) none edges = edges

unfoldable pub classify_row : Session → List ℕ → List (ℕ × ℕ) → Session × List (ℕ × ℕ)
classify_row row blockers edges =
    let role = block_role row.pid row.blocker blockers in
    (
      record row { blk = role },
      elim role [
        | lock_waiter ↦ record_edge row.pid row.blocker edges
        | lock_holder_waiter ↦ record_edge row.pid row.blocker edges
        | _ ↦ edges
      ],
    )

unfoldable pub classify_rows : List Session → List ℕ → List (ℕ × ℕ) → List Session × List (ℕ × ℕ)
classify_rows [] blockers edges = ([], edges)
classify_rows (row ∷ rows) blockers edges =
    let r = classify_row row blockers edges in
    let rest = classify_rows rows blockers r.1 in (r.0 ∷ rest.0, rest.1)

-- The deadlocks found so far, and visitedAll, after one key of the map.
unfoldable pub add_deadlock : Walk → List (List ℕ) × List ℕ → List (List ℕ) × List ℕ
add_deadlock (cycle ns) (deadlocks, visited) = (deadlocks ++ ns ∷ [], but_last ns ++ visited)
add_deadlock no_cycle r = r
add_deadlock out_of_fuel r = r

unfoldable pub visit_key : List (ℕ × ℕ) → ℕ → List (List ℕ) × List ℕ → List (List ℕ) × List ℕ
visit_key edges pid r = if contains pid r.1 then r else add_deadlock (find_cycle pid edges r.1) r

unfoldable pub visit_keys : List ℕ → List (ℕ × ℕ) → List (List ℕ) × List ℕ → List (List ℕ) × List ℕ
visit_keys [] edges r = r
visit_keys (pid ∷ pids) edges r = visit_keys pids edges (visit_key edges pid r)

-- The deadlocks that logDeadlocks logs, where Go goes over the keys in this order.
unfoldable pub log_deadlocks : List ℕ → List (ℕ × ℕ) → List (List ℕ)
log_deadlocks order edges = (visit_keys order edges ([], [])).0
