-- ===== src/Monitor/Blocking/Reports.antt =====
-- What the deadlock report of internal/monitor/session_block.go lists, and the edges it reads.
use gstop.Base.{
  ℕ, ◌≡◌, ◌≢◌, List, [], ◌∷◌, Option, none, some, ◌==◌, arith, if-elim, All, All-append, ◌⊎◌, inl,
  inr, Bool-cases,
}
use gstop.Monitor.Deadlocks.{lookup, contains, Walk, out_of_fuel, no_cycle, cycle, find_cycle}
use gstop.Monitor.Deadlocks.Cycles.{IsCycle}
use gstop.Monitor.Deadlocks.Fuel.{Right, find_cycle-Right}
use gstop.Monitor.Blocking.{
  Session, Role, no_role, lock_holder, lock_waiter, lock_holder_waiter, block_role, set,
  record_edge, classify_row, classify_rows, add_deadlock, visit_key, visit_keys, log_deadlocks,
}

module _ (edges : List (ℕ × ℕ)) where
  add_deadlock-IsCycle :
      (start : ℕ) (found : List ℕ) (w : Walk) (r : List (List ℕ) × List ℕ)
      → Right edges found start w
      → All (IsCycle edges) r.0
      → All (IsCycle edges) (add_deadlock w r).0
  unfolding add_deadlock
  add_deadlock-IsCycle start found out_of_fuel r h k = k
  add_deadlock-IsCycle start found no_cycle r h k = k
  add_deadlock-IsCycle start found (cycle ns) r h k =
      All-append (IsCycle edges) r.0 (ns ∷ []) k (h.0, tt)

  visit_keys-IsCycle :
      (order : List ℕ) (r : List (List ℕ) × List ℕ)
      → All (IsCycle edges) r.0
      → All (IsCycle edges) (visit_keys order edges r).0
  unfolding visit_keys visit_key
  visit_keys-IsCycle [] r k = k
  visit_keys-IsCycle (pid ∷ pids) r k = visit_keys-IsCycle pids (visit_key edges pid r) (
      if-elim (λ (s : List (List ℕ) × List ℕ). All (IsCycle edges) s.0) (contains pid r.1) r
        (add_deadlock (find_cycle pid edges r.1) r) (λ e. k)
        (λ e.
          add_deadlock-IsCycle pid r.1 (find_cycle pid edges r.1) r (find_cycle-Right pid edges r.1)
            k))

-- Every deadlock that logDeadlocks logs is one, in whatever order Go goes over the map.
pub log_deadlocks-IsCycle :
    (order : List ℕ) (edges : List (ℕ × ℕ)) → All (IsCycle edges) (log_deadlocks order edges)
unfolding log_deadlocks
log_deadlocks-IsCycle order edges = visit_keys-IsCycle edges order ([], []) tt

-- An edge of the map comes from a session that waits for another one.
abbrev Waits : ℕ → ℕ → Option ℕ → Option ℕ → Type 0
Waits p b pid blocker = (pid ≡ some p) × (blocker ≡ some b) × (p ≢ b)

abbrev pub FromRow : ℕ → ℕ → List Session → Type 0
FromRow p b [] = ⊥
FromRow p b (row ∷ rows) = Waits p b row.pid row.blocker ⊎ FromRow p b rows

lookup-set :
    (p b k v : ℕ) (m : List (ℕ × ℕ))
    → lookup p (set k v m) ≡ some b
    → ((p ≡ k) × (b ≡ v)) ⊎ (lookup p m ≡ some b)
unfolding lookup set
lookup-set p b k v [] e = ground arith
lookup-set p b k v ((j, u) ∷ m) e = elim (Bool-cases (k == j)) [
  | inl q ↦ elim (Bool-cases (p == k)) [
    | inl t ↦ inl (ground arith, ground arith)
    | inr t ↦ inr (ground arith)
  ]
  | inr q ↦ elim (Bool-cases (p == j)) [
    | inl t ↦ inr (ground arith)
    | inr t ↦ elim (lookup-set p b k v m (ground arith)) [
      | inl h ↦ inl h
      | inr h ↦ inr (ground arith)
    ]
  ]
]

record_edge_cases :
    (p b : ℕ) (pid blocker : Option ℕ) (m : List (ℕ × ℕ))
    → lookup p (record_edge pid blocker m) ≡ some b
    → Waits p b pid blocker ⊎ (lookup p m ≡ some b)
unfolding record_edge
record_edge_cases p b none blocker m e = inr e
record_edge_cases p b (some q) none m e = inr e
record_edge_cases p b (some q) (some c) m e = elim (Bool-cases (q == c)) [
  | inl t ↦ inr (ground arith)
  | inr t ↦ elim (lookup-set p b q c m (ground arith)) [
    | inl h ↦ inl (ground arith, ground arith, ground arith)
    | inr h ↦ inr h
  ]
]

classify_row_cases :
    (p b : ℕ) (row : Session) (blockers : List ℕ) (m : List (ℕ × ℕ))
    → lookup p (classify_row row blockers m).1 ≡ some b
    → Waits p b row.pid row.blocker ⊎ (lookup p m ≡ some b)
unfolding classify_row
classify_row_cases p b row blockers m e = by_role (block_role row.pid row.blocker blockers) e
  where
    by_role :
        (role : Role)
        → lookup p (elim role [
          | lock_waiter ↦ record_edge row.pid row.blocker m
          | lock_holder_waiter ↦ record_edge row.pid row.blocker m
          | _ ↦ m
        ])
          ≡ some b
        → Waits p b row.pid row.blocker ⊎ (lookup p m ≡ some b)
    by_role no_role h = inr h
    by_role lock_holder h = inr h
    by_role lock_waiter h = record_edge_cases p b row.pid row.blocker m h
    by_role lock_holder_waiter h = record_edge_cases p b row.pid row.blocker m h

classify_rows_cases :
    (p b : ℕ) (rows : List Session) (blockers : List ℕ) (m : List (ℕ × ℕ))
    → lookup p (classify_rows rows blockers m).1 ≡ some b
    → FromRow p b rows ⊎ (lookup p m ≡ some b)
unfolding classify_rows
classify_rows_cases p b [] blockers m e = inr e
classify_rows_cases p b (row ∷ rows) blockers m e =
    elim (classify_rows_cases p b rows blockers (classify_row row blockers m).1 e) [
      | inl h ↦ inl (inr h)
      | inr h ↦ elim (classify_row_cases p b row blockers m h) [
        | inl k ↦ inl (inl k)
        | inr k ↦ inr k
      ]
    ]

-- Every edge that the deadlock search reads is a row whose session waits for another session.
pub classify_rows-FromRow :
    (p b : ℕ) (rows : List Session) (blockers : List ℕ)
    → lookup p (classify_rows rows blockers []).1 ≡ some b
    → FromRow p b rows
unfolding lookup
classify_rows-FromRow p b rows blockers e = elim (classify_rows_cases p b rows blockers [] e) [
  | inl h ↦ h
  | inr h ↦ absurd (let q : ⊥ = cc in q)
]
