-- ===== src/Monitor/Deadlocks/Cycles.antt =====
-- What reconstructCycle of internal/monitor/session_block.go makes of a walk along the edges.
use gstop.Base.{
  sym, ℕ, zero, suc, ◌+◌, ◌-◌, ◌≤◌, ◌<◌, ◌≡◌, refl, ◌∙◌, subst, List, [], ◌∷◌, ◌++◌, Option, some,
  ◌==◌, if◌then◌else◌, arith, Bool-cases, inl, inr, ap,
}
use gstop.Monitor.Deadlocks.{lookup, node_at, max_step, nodes_from, close, reconstruct_cycle}

-- The visited nodes, latest first, with their steps: the latest leads to `current`.
abbrev pub Trail : List (ℕ × ℕ) → ℕ → List (ℕ × ℕ) → ℕ → Type 0
Trail edges current [] step = step ≡ 0
Trail edges current ((n, i) ∷ v) step =
    (step ≡ suc i) × (lookup n edges ≡ some current) × Trail edges n v i

-- Every node waits for the next one, and the last one for `end`.
abbrev pub Linked : List (ℕ × ℕ) → List ℕ → ℕ → Type 0
Linked edges [] end = Unit
Linked edges (n ∷ []) end = lookup n edges ≡ some end
Linked edges (n ∷ m ∷ ns) end = (lookup n edges ≡ some m) × Linked edges (m ∷ ns) end

-- The node at the start of a cycle stands at its end again.
abbrev pub IsCycleFrom : List (ℕ × ℕ) → List ℕ → ℕ → Type 0
IsCycleFrom edges ns n = (rest : List ℕ) × (ns ≡ n ∷ rest ++ n ∷ []) × Linked edges (n ∷ rest) n

abbrev pub IsCycle : List (ℕ × ℕ) → List ℕ → Type 0
IsCycle edges ns = (n : ℕ) × IsCycleFrom edges ns n

-- The node of a step, where that of the last step is `current`.
unfoldable at : ℕ → ℕ → List (ℕ × ℕ) → ℕ → Option ℕ
at current step v idx = if idx == step then some current else node_at idx v

module _ (edges : List (ℕ × ℕ)) where
  next_node :
      (current : ℕ) (v : List (ℕ × ℕ)) (step idx : ℕ)
      → Trail edges current v step
      → idx < step
      → (n : ℕ) × (node_at idx v ≡ some n) × (lookup n edges ≡ at current step v (suc idx))
  unfolding node_at at
  next_node current [] step idx t l = absurd (let h : ⊥ = omega (arith, t) in h)
  next_node current ((n, i) ∷ v) step idx t l = elim (Bool-cases (idx == i)) [
    | inl e ↦ (n, ground arith, ground arith)
    | inr e ↦
        let r = next_node n v i idx t.2 (ground arith) in
        (r.0, ground (arith, r.1), ground (arith, r.2))
  ]

  max_step-le :
      (current : ℕ) (v : List (ℕ × ℕ)) (step start bound : ℕ)
      → Trail edges current v step
      → start ≤ bound
      → step ≤ suc bound
      → max_step start v ≤ bound
  unfolding max_step
  max_step-le current [] step start bound t l k = l
  max_step-le current ((n, i) ∷ v) step start bound t l k =
      ground (arith, max_step-le n v i start bound t.2 l (omega (arith, t.0)))

  max_step_last :
      (current : ℕ) (v : List (ℕ × ℕ)) (step start : ℕ)
      → Trail edges current v step
      → start < step
      → suc (max_step start v) ≡ step
  unfolding max_step
  max_step_last current [] step start t l = omega (arith, t)
  max_step_last current ((n, i) ∷ v) step start t l =
      ground (arith, max_step-le n v i start i t.2 (omega (arith, t.0)) (omega arith))

  lookup-node_at :
      (current : ℕ) (v : List (ℕ × ℕ)) (step n idx : ℕ)
      → Trail edges current v step
      → lookup n v ≡ some idx
      → (idx < step) × (node_at idx v ≡ some n)
  unfolding lookup node_at
  lookup-node_at current [] step n idx t e = absurd (let h : ⊥ = cc in h)
  lookup-node_at current ((m, i) ∷ v) step n idx t e = elim (Bool-cases (n == m)) [
    | inl q ↦ (ground arith, ground arith)
    | inr q ↦
        let r = lookup-node_at m v i n idx t.2 (ground arith) in
        (omega (arith, t.0, r.0), ground (arith, r.0, r.1))
  ]

  nodes_from-Linked :
      (current : ℕ) (v : List (ℕ × ℕ)) (step idx count : ℕ)
      → Trail edges current v step
      → idx + suc count ≡ step
      → (n : ℕ) × (ns : List ℕ) × (nodes_from idx (suc count) v ≡ n ∷ ns)
        × (node_at idx v ≡ some n)
        × Linked edges (n ∷ ns) current
  unfolding nodes_from at
  nodes_from-Linked current v step idx zero t e =
      let r = next_node current v step idx t (omega arith) in
      (r.0, [], rw (r.1) refl, r.1, ground (arith, r.2))
  nodes_from-Linked current v step idx (suc count) t e =
      let r = next_node current v step idx t (omega arith) in
      let s = nodes_from-Linked current v step (suc idx) count t (omega arith) in
      (r.0, s.0 ∷ s.1, rw (r.1, s.2) refl, r.1, (ground (arith, r.2, s.3), s.4))

  -- A node that the walk has visited closes a cycle.
  pub reconstruct_cycle-IsCycleFrom :
      (current : ℕ) (v : List (ℕ × ℕ)) (step start : ℕ)
      → Trail edges current v step
      → lookup current v ≡ some start
      → IsCycleFrom edges (reconstruct_cycle v start) current
  unfolding reconstruct_cycle
  reconstruct_cycle-IsCycleFrom current v step start t e =
      let p = lookup-node_at current v step current start t e in
      let q = max_step_last current v step start t p.0 in
      let r = nodes_from-Linked current v step start (step - suc start) t (omega (arith, p.0)) in
      let c : suc (max_step start v) - start ≡ suc (step - suc start) = omega (arith, q, p.0) in
      let h : current ≡ r.0 = ground (arith, p.1, r.3) in
      subst (IsCycleFrom edges (reconstruct_cycle v start)) (sym h) (
        r.1,
        ap (λ n. close (nodes_from start n v)) c ∙ ap close r.2,
        subst (Linked edges (r.0 ∷ r.1)) h r.4,
      )
