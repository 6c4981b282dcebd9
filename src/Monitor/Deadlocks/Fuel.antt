-- ===== src/Monitor/Deadlocks/Fuel.antt =====
-- The walk of findCycle, internal/monitor/session_block.go, ends and answers rightly.
use gstop.Base.{
  ap, ◌++◌, ℕ, zero, suc, ◌+◌, ◌≤◌, ◌<◌, ◌≡◌, refl, ◌∙◌, true, false, List, [], ◌∷◌, Option, none,
  some, ◌==◌, if◌then◌else◌, arith, Bool-cases, inl, inr, length, if-elim,
}
use gstop.Monitor.Deadlocks.{
  but_last, reconstruct_cycle, lookup, contains, Walk, out_of_fuel, no_cycle, cycle, look, walk,
  find_cycle,
}
use gstop.Monitor.Deadlocks.Cycles.{Trail, IsCycle, IsCycleFrom, reconstruct_cycle-IsCycleFrom}

-- The session's chain of blockers leaves the graph, or comes to a session of a deadlock already found.
pub data Escapes (edges : List (ℕ × ℕ)) (found : List ℕ) : ℕ → Type 0 where
  outside : {n : ℕ} → lookup n edges ≡ none → Escapes edges found n
  known : {n : ℕ} → contains n found ≡ true → Escapes edges found n
  onward : {n m : ℕ} → lookup n edges ≡ some m → Escapes edges found m → Escapes edges found n

abbrev pub Right : List (ℕ × ℕ) → List ℕ → ℕ → Walk → Type 0
Right edges found start out_of_fuel = ⊥
Right edges found start no_cycle = Escapes edges found start
Right edges found start (cycle ns) = IsCycle edges ns × Escapes edges (but_last ns) start

-- No node is visited twice.
abbrev Fresh : List (ℕ × ℕ) → Type 0
Fresh [] = Unit
Fresh ((n, i) ∷ v) = (lookup n v ≡ none) × Fresh v

abbrev Covered : List (ℕ × ℕ) → List (ℕ × ℕ) → Type 0
Covered edges [] = Unit
Covered edges ((n, i) ∷ v) = ((m : ℕ) × (lookup n edges ≡ some m)) × Covered edges v

unfoldable remove : ℕ → List (ℕ × ℕ) → List (ℕ × ℕ)
remove k [] = []
remove k ((j, v) ∷ m) = if k == j then m else (j, v) ∷ remove k m

length-remove :
    (k v : ℕ) (m : List (ℕ × ℕ)) → lookup k m ≡ some v → length m ≡ suc (length (remove k m))
unfolding lookup remove
length-remove k v [] e = absurd (let h : ⊥ = cc in h)
length-remove k v ((j, u) ∷ m) e = elim (Bool-cases (k == j)) [
  | inl q ↦ ground arith
  | inr q ↦ ground (arith, length-remove k v m (ground arith))
]

lookup-remove : (k n : ℕ) (m : List (ℕ × ℕ)) → (n == k) ≡ false → lookup n (remove k m) ≡ lookup n m
unfolding lookup remove
lookup-remove k n [] h = refl
lookup-remove k n ((j, u) ∷ m) h = ground (arith, lookup-remove k n m h)

Covered-remove :
    (k : ℕ) (edges v : List (ℕ × ℕ))
    → lookup k v ≡ none
    → Covered edges v
    → Covered (remove k edges) v
unfolding lookup
Covered-remove k edges [] h c = tt
Covered-remove k edges ((n, i) ∷ v) h c =
    let q : (n == k) ≡ false = ground arith in
    let l : lookup k v ≡ none = ground arith in
    ((c.0.0, lookup-remove k n edges q ∙ c.0.1), Covered-remove k edges v l c.1)

-- The walk visits no more nodes than there are edges.
length-Fresh-le : (v edges : List (ℕ × ℕ)) → Fresh v → Covered edges v → length v ≤ length edges
length-Fresh-le [] edges f c = omega arith
length-Fresh-le ((n, i) ∷ v) edges f c =
    let r = length-remove n c.0.0 edges c.0.1 in
    omega (arith, r, length-Fresh-le v (remove n edges) f.1 (Covered-remove n edges v f.0 c.1))

Trail-Covered :
    (edges : List (ℕ × ℕ)) (current : ℕ) (v : List (ℕ × ℕ)) (step : ℕ)
    → Trail edges current v step
    → Covered edges v
Trail-Covered edges current [] step t = tt
Trail-Covered edges current ((n, i) ∷ v) step t = ((current, t.1), Trail-Covered edges n v i t.2)

module _ (edges : List (ℕ × ℕ)) (found : List ℕ) where
  back :
      (current next : ℕ) (r : Walk)
      → lookup current edges ≡ some next
      → Right edges found next r
      → Right edges found current r
  back current next out_of_fuel e h = h
  back current next no_cycle e h = onward e h
  back current next (cycle ns) e h = (h.0, onward e h.1)

  but_last-append : (n m : ℕ) (ns : List ℕ) → but_last (n ∷ ns ++ m ∷ []) ≡ n ∷ ns
  but_last-append n m [] = refl
  but_last-append n m (k ∷ ns) = ap (λ (js : List ℕ). n ∷ js) (but_last-append k m ns)

  cycle-Right :
      (current : ℕ) (ns : List ℕ)
      → IsCycleFrom edges ns current
      → Right edges found current (cycle ns)
  unfolding contains
  cycle-Right current ns c =
      let e : but_last ns ≡ current ∷ c.0 = ap but_last c.1 ∙ but_last-append current current c.0 in
      ((current, c), known (ap (contains current) e ∙ ground arith))

  look-Right :
      (current step : ℕ) (v : List (ℕ × ℕ)) (to seen : Option ℕ) (go : ℕ → Walk)
      → Trail edges current v step
      → lookup current edges ≡ to
      → lookup current v ≡ seen
      → ((next : ℕ)
          → lookup current edges ≡ some next
          → lookup current v ≡ none
          → Right edges found next (go next))
      → Right edges found current (look found v current to seen go)
  unfolding look
  look-Right current step v none seen go t e q h = outside e
  look-Right current step v (some next) (some start) go t e q h =
      cycle-Right current (reconstruct_cycle v start)
        (reconstruct_cycle-IsCycleFrom edges current v step start t q)
  look-Right current step v (some next) none go t e q h =
      if-elim (Right edges found current) (contains current found) no_cycle (go next) (λ k. known k)
        (λ k. back current next (go next) e (h next e q))

  walk-Right :
      (fuel current step : ℕ) (v : List (ℕ × ℕ))
      → Trail edges current v step
      → Fresh v
      → length edges < fuel + length v
      → Right edges found current (walk fuel edges found current step v)
  unfolding walk
  walk-Right zero current step v t f l =
      omega (arith, length-Fresh-le v edges f (Trail-Covered edges current v step t))
  walk-Right (suc fuel) current step v t f l =
      look-Right current step v (lookup current edges) (lookup current v)
        (λ next. walk fuel edges found next (suc step) ((current, step) ∷ v)) t refl refl
        (λ next e q.
          walk-Right fuel next (suc step) ((current, step) ∷ v) (refl, e, t) (q, f) (omega arith))

-- findCycle always ends within the fuel. Where it returns nodes, each is blocked by the next, the
-- first stands at the end again, and the blockers of the session lead to them or out of the graph;
-- where it returns nil, they lead out of the graph or to a session of a deadlock already found.
pub find_cycle-Right :
    (start : ℕ) (edges : List (ℕ × ℕ)) (found : List ℕ)
    → Right edges found start (find_cycle start edges found)
unfolding find_cycle
find_cycle-Right start edges found =
    walk-Right edges found (suc (length edges)) start 0 [] refl tt (omega arith)
