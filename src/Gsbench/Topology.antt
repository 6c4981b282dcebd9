-- ===== src/Gsbench/Topology.antt =====
-- The lock chains of scenario 501, internal/gsbench/lock_topology.go. A SQL statement that updates a
-- row of lock_targets is the number of the row, and a waiter's tag is its branch and depth; the
-- holder's tag is `none`. The loops have fuel: a branch has a waiter at least.
mod Rows
mod Chains
mod Waiting
mod Examples
use gstop.Base.{
  ℕ, zero, suc, ◌+◌, ◌-◌, ◌*◌, ◌/◌, min, Bool, true, false, List, [], ◌∷◌, ◌++◌, Option, none, some,
  ltb, leb, length, if◌then◌else◌, ◌||◌,
}

abbrev pub Tag : Type 0
Tag = Option (ℕ × ℕ)

pub record Waiter : Type 0 where
  pub tag : Tag
  pub setup_row : ℕ
  pub wait_row : ℕ
  pub blocker_tag : Tag
  pub branch : ℕ
  pub depth : ℕ

pub record Edge : Type 0 where
  pub blocker : Tag
  pub waiter : Tag
  pub edge_branch : ℕ
  pub edge_depth : ℕ

pub record Definition : Type 0 where
  pub holder_rows : List ℕ
  pub branch_lengths : List ℕ
  pub waiters : List Waiter
  pub edges : List Edge

pub data ConfigError : Type 0 where
  too_few_sessions bad_depth sessions_below_chain : ConfigError
  not_enough_rows : ℕ → ConfigError

pub data Configured : Type 0 where
  refused : ConfigError → Configured
  configured : Definition → Configured

abbrev pub lock_target_rows : ℕ
lock_target_rows = 10000

unfoldable pub row_chain_required_rows : ℕ → ℕ → ℕ
row_chain_required_rows sessions depth =
    let waiters = sessions - 1 in
    let branches = ((waiters + depth) - 1) / depth in waiters + branches

-- A waiter holds its own row and waits for its blocker's.
unfoldable pub add_waiter : ℕ → ℕ → ℕ → Tag → ℕ → Definition → Definition
add_waiter branch depth blocker_row blocker_tag row d = record d {
  waiters =
      d.waiters
      ++ record {
        tag = some (branch, depth);
        setup_row = row;
        wait_row = blocker_row;
        blocker_tag = blocker_tag;
        branch = branch;
        depth = depth;
      }
        ∷ [];
  edges =
      d.edges
      ++ record {
        blocker = blocker_tag;
        waiter = some (branch, depth);
        edge_branch = branch;
        edge_depth = depth;
      }
        ∷ [];
}

-- The inner loop: the waiters of a branch from a depth on, the next free row and the definition.
unfoldable pub add_waiters : ℕ → ℕ → ℕ → ℕ → Tag → ℕ → Definition → ℕ × Definition
add_waiters zero branch depth blocker_row blocker_tag next_row d = (next_row, d)
add_waiters (suc count) branch depth blocker_row blocker_tag next_row d =
    add_waiters count branch (suc depth) next_row (some (branch, depth)) (suc next_row)
      (add_waiter branch depth blocker_row blocker_tag next_row d)

-- The root row of a branch and its length are recorded before its waiters.
unfoldable pub start_branch : ℕ → ℕ → Definition → Definition
start_branch root_row branch_length d = record d {
  holder_rows = d.holder_rows ++ root_row ∷ [];
  branch_lengths = d.branch_lengths ++ branch_length ∷ [];
}

-- The outer loop, while waiters remain.
unfoldable pub add_branches : ℕ → ℕ → ℕ → ℕ → ℕ → Definition → ℕ × Definition
add_branches zero branch remaining max_depth next_row d = (next_row, d)
add_branches (suc fuel) branch zero max_depth next_row d = (next_row, d)
add_branches (suc fuel) branch (suc remaining) max_depth next_row d =
    let branch_length = min max_depth (suc remaining) in
    let r =
      add_waiters branch_length branch 1 next_row none (suc next_row)
        (start_branch next_row branch_length d) in
    add_branches fuel (suc branch) (suc remaining - branch_length) max_depth r.0 r.1

abbrev pub no_waiters : Definition
no_waiters = record { holder_rows = []; branch_lengths = []; waiters = []; edges = [] }

-- The first row that no statement uses, and the definition.
unfoldable pub configure_row_chain_waiters : ℕ → ℕ → ℕ × Definition
configure_row_chain_waiters sessions max_depth =
    add_branches (sessions - 1) 1 (sessions - 1) max_depth 1 no_waiters

-- configureLockDefinition for scenario 501, whose names are valid.
unfoldable pub configure_row_chain : ℕ → ℕ → Configured
configure_row_chain sessions depth =
    if ltb sessions 2
    then refused too_few_sessions
    else if ltb depth 1 || ltb 5 depth
    then refused bad_depth
    else if ltb sessions (depth + 1)
    then refused sessions_below_chain
    else if ltb lock_target_rows (row_chain_required_rows sessions depth)
    then refused (not_enough_rows (row_chain_required_rows sessions depth))
    else configured (configure_row_chain_waiters sessions depth).1
