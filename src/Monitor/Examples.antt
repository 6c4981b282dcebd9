-- ===== src/Monitor/Examples.antt =====
-- Tests and instances for the session monitor.
use gstop.Base.{ℕ, String, ◌≡◌, refl, true, [], ◌∷◌, List, none, some, All}
use gstop.Monitor.Deadlocks.{
  find_cycle, walk, look, lookup, contains, cycle, no_cycle, reconstruct_cycle, max_step,
  nodes_from, node_at,
}
use gstop.Monitor.Deadlocks.Cycles.{IsCycle}
use gstop.Monitor.Deadlocks.Fuel.{Right, find_cycle-Right}
use gstop.Monitor.Blocking.{
  Session, no_role, log_deadlocks, visit_keys, visit_key, add_deadlock, classify_rows, classify_row,
  record_edge, block_role, holds, set,
}
use gstop.Monitor.Blocking.Complete.{members, log_deadlocks-Escapes}
use gstop.Monitor.Deadlocks.Fuel.{Escapes}
use gstop.Monitor.Blocking.Reports.{FromRow, log_deadlocks-IsCycle, classify_rows-FromRow}
use gstop.Monitor.LockTree.{LockRow, truth, string, ordered_lock_tags}
use gstop.Monitor.LockTree.Grouping.{Distinct, records_of, tagged, ordered_lock_tags-Distinct}

-- 1 waits for 2, and 2, 3 and 4 wait for each other in a ring; 9 waits for the idle 8.
abbrev edges : List (ℕ × ℕ)
edges = (1, 2) ∷ (2, 3) ∷ (3, 4) ∷ (4, 2) ∷ (9, 8) ∷ []

ring_found : find_cycle 1 edges [] ≡ cycle (2 ∷ 3 ∷ 4 ∷ 2 ∷ [])
unfolding find_cycle walk look lookup contains reconstruct_cycle max_step nodes_from node_at
ring_found = refl

idle_blocker : find_cycle 9 edges [] ≡ no_cycle
unfolding find_cycle walk look lookup contains
idle_blocker = refl

ring_logged_once : log_deadlocks (9 ∷ 1 ∷ 3 ∷ []) edges ≡ (2 ∷ 3 ∷ 4 ∷ 2 ∷ []) ∷ []
unfolding log_deadlocks visit_keys visit_key add_deadlock find_cycle walk look lookup contains
    reconstruct_cycle max_step nodes_from node_at
ring_logged_once = refl

find_cycle-Right_example : Right edges [] 1 (find_cycle 1 edges [])
find_cycle-Right_example = find_cycle-Right 1 edges []

log_deadlocks-IsCycle_example : All (IsCycle edges) (log_deadlocks (9 ∷ 1 ∷ 3 ∷ []) edges)
log_deadlocks-IsCycle_example = log_deadlocks-IsCycle (9 ∷ 1 ∷ 3 ∷ []) edges

abbrev sessions : List Session
sessions =
    record { pid = some 5; blocker = none; blk = no_role }
    ∷ record { pid = some 6; blocker = some 5; blk = no_role }
    ∷ []

classify_rows-FromRow_example : FromRow 6 5 sessions
unfolding classify_rows classify_row record_edge block_role holds set lookup contains
classify_rows-FromRow_example = classify_rows-FromRow 6 5 sessions (5 ∷ []) refl

abbrev held : LockRow
held = record {
  lock_tag = "t1";
  type_column = "relation";
  pid_column = some 5;
  session_column = some 50;
  mode_column = "ExclusiveLock";
  granted_column = truth true;
}

abbrev awaited : LockRow
awaited = record held { pid_column = some 6; granted_column = string "f" }

ordered_lock_tags-Distinct_example :
    Distinct (ordered_lock_tags (held ∷ awaited ∷ []))
    × ((tag : String)
        → records_of tag (ordered_lock_tags (held ∷ awaited ∷ []))
          ≡ tagged tag (held ∷ awaited ∷ []))
ordered_lock_tags-Distinct_example = ordered_lock_tags-Distinct (held ∷ awaited ∷ [])

log_deadlocks-Escapes_example :
    All (Escapes edges (members (log_deadlocks (9 ∷ 1 ∷ 3 ∷ []) edges))) (9 ∷ 1 ∷ 3 ∷ [])
log_deadlocks-Escapes_example = log_deadlocks-Escapes (9 ∷ 1 ∷ 3 ∷ []) edges
