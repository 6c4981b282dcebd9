-- ===== src/Monitor/Deadlocks.antt =====
-- findCycle and reconstructCycle of internal/monitor/session_block.go. A session's int64 is a
-- number, and a map a list of its entries. The walk has fuel, one more than the edges.
pub mod Cycles
pub mod Fuel
use gstop.Base.{
  ℕ, zero, suc, ◌+◌, ◌-◌, max, Bool, true, false, List, [], ◌∷◌, ◌++◌, Option, none, some, ◌==◌,
  leb, length, if◌then◌else◌,
}

-- m[k]
unfoldable pub lookup : ℕ → List (ℕ × ℕ) → Option ℕ
lookup k [] = none
lookup k ((j, v) ∷ m) = if k == j then some v else lookup k m

unfoldable pub contains : ℕ → List ℕ → Bool
contains k [] = false
contains k (j ∷ js) = if k == j then true else contains k js

-- byStep[idx]: a step is given to one node.
unfoldable pub node_at : ℕ → List (ℕ × ℕ) → Option ℕ
node_at idx [] = none
node_at idx ((n, i) ∷ v) = if idx == i then some n else node_at idx v

-- The loop that finds maxStep.
unfoldable pub max_step : ℕ → List (ℕ × ℕ) → ℕ
max_step start [] = start
max_step start ((n, i) ∷ v) = if leb start i then max i (max_step start v) else max_step start v

abbrev pub add_node : Option ℕ → List ℕ → List ℕ
add_node none ns = ns
add_node (some n) ns = n ∷ ns

-- The loop from idx over so many steps.
unfoldable pub nodes_from : ℕ → ℕ → List (ℕ × ℕ) → List ℕ
nodes_from idx zero v = []
nodes_from idx (suc count) v = add_node (node_at idx v) (nodes_from (suc idx) count v)

abbrev pub close : List ℕ → List ℕ
close [] = []
close (n ∷ ns) = n ∷ ns ++ n ∷ []

unfoldable pub reconstruct_cycle : List (ℕ × ℕ) → ℕ → List ℕ
reconstruct_cycle v start = close (nodes_from start (suc (max_step start v) - start) v)

-- cycle[:len(cycle)-1]
abbrev pub but_last : List ℕ → List ℕ
but_last [] = []
but_last (n ∷ []) = []
but_last (n ∷ m ∷ ns) = n ∷ but_last (m ∷ ns)

pub data Walk : Type 0 where
  out_of_fuel no_cycle : Walk
  cycle : List ℕ → Walk

-- One round of the loop: what ends it, or the walk from the next node.
unfoldable pub look : List ℕ → List (ℕ × ℕ) → ℕ → Option ℕ → Option ℕ → (ℕ → Walk) → Walk
look visited_all visited current none seen go = no_cycle
look visited_all visited current (some next) (some start) go =
    cycle (reconstruct_cycle visited start)
look visited_all visited current (some next) none go =
    if contains current visited_all then no_cycle else go next

unfoldable pub walk : ℕ → List (ℕ × ℕ) → List ℕ → ℕ → ℕ → List (ℕ × ℕ) → Walk
walk zero edges visited_all current step visited = out_of_fuel
walk (suc fuel) edges visited_all current step visited =
    look visited_all visited current (lookup current edges) (lookup current visited)
      (λ next. walk fuel edges visited_all next (suc step) ((current, step) ∷ visited))

unfoldable pub find_cycle : ℕ → List (ℕ × ℕ) → List ℕ → Walk
find_cycle start edges visited_all = walk (suc (length edges)) edges visited_all start 0 []
