-- ===== src/Gsbench/Topology/Rows.antt =====
-- How many rows and waiters the chains of internal/gsbench/lock_topology.go have.
use native.Mathlib.Nat.{add-div_right, div-eq_of_lt-le, div-eq_of_lt}
use gstop.Base.{
  ℕ, zero, suc, ◌+◌, ◌-◌, ◌/◌, ◌≤◌, ◌<◌, ◌≡◌, min, [], ◌∷◌, arith, length, length-append, inl, inr,
  none, some, leb, ap, Bool-cases,
}
use gstop.Gsbench.Topology.{
  add_waiter, Tag, Definition, row_chain_required_rows, add_waiters, start_branch, add_branches,
  no_waiters, configure_row_chain_waiters,
}

add_waiters-row :
    (count branch depth blocker_row : ℕ) (tag : Tag) (next : ℕ) (d : Definition)
    → (add_waiters count branch depth blocker_row tag next d).0 ≡ next + count
unfolding add_waiters
add_waiters-row zero branch depth blocker_row tag next d = omega arith
add_waiters-row (suc count) branch depth blocker_row tag next d = omega (
  arith,
  add_waiters-row count branch (suc depth) next (some (branch, depth)) (suc next)
      (add_waiter branch depth blocker_row tag next d),
)

-- How many branches a number of waiters takes.
abbrev branches : ℕ → ℕ → ℕ
branches waiters depth = ((waiters + depth) - 1) / depth

branches_zero : (depth : ℕ) → 0 < depth → branches 0 depth ≡ 0
branches_zero depth h = div-eq_of_lt {n = (0 + depth) - 1} {m = depth} (omega arith)

branches-suc :
    (n depth : ℕ)
    → 0 < depth
    → branches (suc n) depth ≡ suc (branches (suc n - min depth (suc n)) depth)
branches-suc n depth h = elim (Bool-cases (leb depth (suc n))) [
  | inl c ↦
      let left : (suc n + depth) - 1 ≡ n + depth = omega arith in
      let right : ((suc n - min depth (suc n)) + depth) - 1 ≡ n = ground arith in
      omega (arith, ap (λ x. x / depth) left, ap (λ x. x / depth) right, add-div_right n h)
  | inr c ↦
      let left : ((suc n + depth) - 1) / depth ≡ 1 =
        div-eq_of_lt-le depth {m = (suc n + depth) - 1} (ground arith) (ground arith) in
      let right : ((suc n - min depth (suc n)) + depth) - 1 ≡ depth - 1 = ground arith in
      omega (
        arith,
        left,
        ap (λ x. x / depth) right,
        div-eq_of_lt {n = depth - 1} {m = depth} (omega arith),
      )
]

add_branches-row :
    (fuel branch remaining depth next : ℕ) (d : Definition)
    → remaining ≤ fuel
    → 0 < depth
    → (add_branches fuel branch remaining depth next d).0
      ≡ next + (remaining + branches remaining depth)
unfolding add_branches
add_branches-row zero branch zero depth next d l h = omega (arith, branches_zero depth h)
add_branches-row zero branch (suc n) depth next d l h = elim l [ ]
add_branches-row (suc fuel) branch zero depth next d l h = omega (arith, branches_zero depth h)
add_branches-row (suc fuel) branch (suc n) depth next d l h = omega (
  arith,
  branches-suc n depth h,
  add_waiters-row (min depth (suc n)) branch 1 next none (suc next)
      (start_branch next (min depth (suc n)) d),
  add_branches-row fuel (suc branch) (suc n - min depth (suc n)) depth
      (add_waiters (min depth (suc n)) branch 1 next none (suc next)
        (start_branch next (min depth (suc n)) d)).0
      (add_waiters (min depth (suc n)) branch 1 next none (suc next)
        (start_branch next (min depth (suc n)) d)).1
      (omega arith) h,
)

length-add_waiters :
    (count branch depth blocker_row : ℕ) (tag : Tag) (next : ℕ) (d : Definition)
    → length (add_waiters count branch depth blocker_row tag next d).1.waiters
      ≡ length d.waiters + count
unfolding add_waiters add_waiter
length-add_waiters zero branch depth blocker_row tag next d = omega arith
length-add_waiters (suc count) branch depth blocker_row tag next d = omega (
  arith,
  length-append d.waiters (
      record {
        tag = some (branch, depth);
        setup_row = next;
        wait_row = blocker_row;
        blocker_tag = tag;
        branch = branch;
        depth = depth;
      }
      ∷ []),
  length-add_waiters count branch (suc depth) next (some (branch, depth)) (suc next)
      (add_waiter branch depth blocker_row tag next d),
)

length-add_branches :
    (fuel branch remaining depth next : ℕ) (d : Definition)
    → remaining ≤ fuel
    → 0 < depth
    → length (add_branches fuel branch remaining depth next d).1.waiters
      ≡ length d.waiters + remaining
unfolding add_branches start_branch
length-add_branches zero branch zero depth next d l h = omega arith
length-add_branches zero branch (suc n) depth next d l h = elim l [ ]
length-add_branches (suc fuel) branch zero depth next d l h = omega arith
length-add_branches (suc fuel) branch (suc n) depth next d l h =
    let r =
      add_waiters (min depth (suc n)) branch 1 next none (suc next)
        (start_branch next (min depth (suc n)) d) in
    omega (
      arith,
      length-add_waiters (min depth (suc n)) branch 1 next none (suc next)
          (start_branch next (min depth (suc n)) d),
      length-add_branches fuel (suc branch) (suc n - min depth (suc n)) depth r.0 r.1 (omega arith)
          h,
    )

-- For a depth of one or more, the chains have one waiter for each session but the holder's, and the
-- first row that they leave unused is the one after those that rowChainRequiredRows counts.
pub configure_row_chain_waiters-row :
    (sessions depth : ℕ)
    → 0 < depth
    → ((configure_row_chain_waiters sessions depth).0
        ≡ suc (row_chain_required_rows sessions depth))
      × (length (configure_row_chain_waiters sessions depth).1.waiters ≡ sessions - 1)
unfolding configure_row_chain_waiters row_chain_required_rows
configure_row_chain_waiters-row sessions depth h = (
  omega
      (arith, add_branches-row (sessions - 1) 1 (sessions - 1) depth 1 no_waiters (omega arith) h),
  omega (
    arith,
    length-add_branches (sessions - 1) 1 (sessions - 1) depth 1 no_waiters (omega arith) h,
  ),
)
