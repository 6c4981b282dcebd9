-- ===== src/Gsbench/Topology/Chains.antt =====
-- Who waits for whom, and for which row, in the chains of internal/gsbench/lock_topology.go.
use gstop.Base.{
  ℕ, zero, suc, ◌+◌, ◌-◌, ◌≤◌, ◌≡◌, min, List, [], ◌∷◌, ◌++◌, arith, ◌==◌, if◌then◌else◌, none,
  some, ltb, leb, ◌&&◌,
}
use gstop.Gsbench.Topology.{
  add_waiter, Tag, Waiter, Definition, add_waiters, start_branch, add_branches, no_waiters,
  configure_row_chain_waiters,
}

-- How often a row stands among the rows, and among those that the waiters lock first.
unfoldable pub count : ℕ → List ℕ → ℕ
count r [] = 0
count r (x ∷ xs) = (if r == x then 1 else 0) + count r xs

unfoldable pub count_setup : ℕ → List Waiter → ℕ
count_setup r [] = 0
count_setup r (w ∷ ws) = (if r == w.setup_row then 1 else 0) + count_setup r ws

count-append : (r : ℕ) (xs ys : List ℕ) → count r (xs ++ ys) ≡ count r xs + count r ys
unfolding count
count-append r [] ys = omega arith
count-append r (x ∷ xs) ys = omega (arith, count-append r xs ys)

count_setup-append :
    (r : ℕ) (xs ys : List Waiter) → count_setup r (xs ++ ys) ≡ count_setup r xs + count_setup r ys
unfolding count_setup
count_setup-append r [] ys = omega arith
count_setup-append r (x ∷ xs) ys = omega (arith, count_setup-append r xs ys)

-- How often a row is locked before anyone waits.
abbrev pub locks : ℕ → Definition → ℕ
locks r d = count r d.holder_rows + count_setup r d.waiters

abbrev pub UsesBelow : ℕ → Definition → Type 0
UsesBelow next d = (r : ℕ) → locks r d ≡ (if leb 1 r && ltb r next then 1 else 0)

add_waiter-UsesBelow :
    (branch depth blocker_row : ℕ) (tag : Tag) (next : ℕ) (d : Definition)
    → 1 ≤ next
    → UsesBelow next d
    → UsesBelow (suc next) (add_waiter branch depth blocker_row tag next d)
unfolding add_waiter count_setup
add_waiter-UsesBelow branch depth blocker_row tag next d h u r = ground (
  arith,
  u r,
  count_setup-append r d.waiters (
      record {
        tag = some (branch, depth);
        setup_row = next;
        wait_row = blocker_row;
        blocker_tag = tag;
        branch = branch;
        depth = depth;
      }
      ∷ []),
)

start_branch-UsesBelow :
    (next branch_length : ℕ) (d : Definition)
    → 1 ≤ next
    → UsesBelow next d
    → UsesBelow (suc next) (start_branch next branch_length d)
unfolding start_branch count
start_branch-UsesBelow next branch_length d h u r =
    ground (arith, u r, count-append r d.holder_rows (next ∷ []))

abbrev Used : ℕ × Definition → Type 0
Used r = (1 ≤ r.0) × UsesBelow r.0 r.1

add_waiters-Used :
    (count branch depth blocker_row : ℕ) (tag : Tag) (next : ℕ) (d : Definition)
    → 1 ≤ next
    → UsesBelow next d
    → Used (add_waiters count branch depth blocker_row tag next d)
unfolding add_waiters
add_waiters-Used zero branch depth blocker_row tag next d h u = (h, u)
add_waiters-Used (suc count) branch depth blocker_row tag next d h u =
    add_waiters-Used count branch (suc depth) next (some (branch, depth)) (suc next)
      (add_waiter branch depth blocker_row tag next d) (omega arith)
      (add_waiter-UsesBelow branch depth blocker_row tag next d h u)

add_branches-Used :
    (fuel branch remaining depth next : ℕ) (d : Definition)
    → 1 ≤ next
    → UsesBelow next d
    → Used (add_branches fuel branch remaining depth next d)
unfolding add_branches
add_branches-Used zero branch remaining depth next d h u = (h, u)
add_branches-Used (suc fuel) branch zero depth next d h u = (h, u)
add_branches-Used (suc fuel) branch (suc n) depth next d h u =
    let b = start_branch next (min depth (suc n)) d in
    let r = add_waiters (min depth (suc n)) branch 1 next none (suc next) b in
    let k =
      add_waiters-Used (min depth (suc n)) branch 1 next none (suc next) b (omega arith)
        (start_branch-UsesBelow next (min depth (suc n)) d h u) in
    add_branches-Used fuel (suc branch) (suc n - min depth (suc n)) depth r.0 r.1 k.0 k.1

-- Every row from 1 to the last is locked exactly once before the waiting begins, by the holder or by
-- one waiter, and no other row is locked.
pub configure_row_chain_waiters-UsesBelow :
    (sessions depth : ℕ)
    → UsesBelow
        (configure_row_chain_waiters sessions depth).0
        (configure_row_chain_waiters sessions depth).1
unfolding configure_row_chain_waiters count count_setup
configure_row_chain_waiters-UsesBelow sessions depth =
    (add_branches-Used (sessions - 1) 1 (sessions - 1) depth 1 no_waiters (omega arith)
      (λ r. ground arith)).1
