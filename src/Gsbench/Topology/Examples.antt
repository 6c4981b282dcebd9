-- ===== src/Gsbench/Topology/Examples.antt =====
-- Tests and instances for the lock chains.
use gstop.Base.{◌≡◌, refl, suc, [], ◌∷◌, arith, length, All}
use gstop.Gsbench.Topology.{
  configure_row_chain_waiters, row_chain_required_rows, add_branches, add_waiters, add_waiter,
  start_branch, configure_row_chain, refused, not_enough_rows, sessions_below_chain,
}
use gstop.Gsbench.Topology.Rows.{configure_row_chain_waiters-row}
use gstop.Gsbench.Topology.Chains.{UsesBelow, configure_row_chain_waiters-UsesBelow}
use gstop.Gsbench.Topology.Waiting.{Waits, configure_row_chain_waiters-Waits}

-- Five waiters in branches of two, two and one take eight rows, of which the holder has 1, 4 and 7.
rows_of_the_holder : (configure_row_chain_waiters 6 2).1.holder_rows ≡ 1 ∷ 4 ∷ 7 ∷ []
unfolding configure_row_chain_waiters add_branches add_waiters add_waiter start_branch
rows_of_the_holder = refl

too_many_rows : configure_row_chain 9000 1 ≡ refused (not_enough_rows 17998)
unfolding configure_row_chain row_chain_required_rows
too_many_rows = refl

chain_too_long : configure_row_chain 3 3 ≡ refused sessions_below_chain
unfolding configure_row_chain
chain_too_long = refl

configure_row_chain_waiters-row_example :
    ((configure_row_chain_waiters 6 2).0 ≡ suc (row_chain_required_rows 6 2))
    × (length (configure_row_chain_waiters 6 2).1.waiters ≡ 5)
configure_row_chain_waiters-row_example = configure_row_chain_waiters-row 6 2 (omega arith)

configure_row_chain_waiters-UsesBelow_example :
    UsesBelow (configure_row_chain_waiters 6 2).0 (configure_row_chain_waiters 6 2).1
configure_row_chain_waiters-UsesBelow_example = configure_row_chain_waiters-UsesBelow 6 2

configure_row_chain_waiters-Waits_example :
    All (Waits (configure_row_chain_waiters 6 2).1) (configure_row_chain_waiters 6 2).1.waiters
configure_row_chain_waiters-Waits_example = configure_row_chain_waiters-Waits 6 2
