-- ===== src/Monitor/Blocking/Complete.antt =====
-- The deadlock report of internal/monitor/session_block.go misses no session.
use gstop.Base.{ℕ, ◌≡◌, true, List, [], ◌∷◌, ◌++◌, arith, if-elim, All, ◌⊎◌, inl, inr}
use gstop.Monitor.Deadlocks.{but_last, contains, Walk, out_of_fuel, no_cycle, cycle, find_cycle}
use gstop.Monitor.Deadlocks.Fuel.{Escapes, outside, known, onward, Right, find_cycle-Right}
use gstop.Monitor.Blocking.{add_deadlock, visit_key, visit_keys, log_deadlocks}

abbrev Grows : List ℕ → List ℕ → Type 0
Grows found more = (k : ℕ) → contains k found ≡ true → contains k more ≡ true

contains-append_left :
    (k : ℕ) (xs ys : List ℕ) → contains k xs ≡ true → contains k (xs ++ ys) ≡ true
unfolding contains
contains-append_left k [] ys h = absurd (let q : ⊥ = cc in q)
contains-append_left k (x ∷ xs) ys h = grind (arith, contains-append_left k xs ys)

contains-append_right :
    (k : ℕ) (xs ys : List ℕ) → contains k ys ≡ true → contains k (xs ++ ys) ≡ true
unfolding contains
contains-append_right k [] ys h = h
contains-append_right k (x ∷ xs) ys h = ground (arith, contains-append_right k xs ys h)

contains-append-cases :
    (k : ℕ) (xs ys : List ℕ)
    → contains k (xs ++ ys) ≡ true
    → (contains k xs ≡ true) ⊎ (contains k ys ≡ true)
unfolding contains
contains-append-cases k [] ys h = inr h
contains-append-cases k (x ∷ xs) ys h = ground (arith, contains-append-cases k xs ys)

module _ (edges : List (ℕ × ℕ)) where
  Escapes-Grows :
      (found more : List ℕ)
      → Grows found more
      → {n : ℕ} → Escapes edges found n
      → Escapes edges more n
  Escapes-Grows found more g (outside e) = outside e
  Escapes-Grows found more g {n = n} (known e) = known (g n e)
  Escapes-Grows found more g (onward e p) = onward e (Escapes-Grows found more g p)

  add_deadlock-Grows : (w : Walk) (r : List (List ℕ) × List ℕ) → Grows r.1 (add_deadlock w r).1
  unfolding add_deadlock
  add_deadlock-Grows out_of_fuel r k h = h
  add_deadlock-Grows no_cycle r k h = h
  add_deadlock-Grows (cycle ns) r k h = contains-append_right k (but_last ns) r.1 h

  add_deadlock-Escapes :
      (n : ℕ) (w : Walk) (r : List (List ℕ) × List ℕ)
      → Right edges r.1 n w
      → Escapes edges (add_deadlock w r).1 n
  unfolding add_deadlock
  add_deadlock-Escapes n out_of_fuel r h = absurd h
  add_deadlock-Escapes n no_cycle r h = h
  add_deadlock-Escapes n (cycle ns) r h =
      Escapes-Grows (but_last ns) (but_last ns ++ r.1)
        (λ k q. contains-append_left k (but_last ns) r.1 q) h.1

  visit_key-Grows : (n : ℕ) (r : List (List ℕ) × List ℕ) → Grows r.1 (visit_key edges n r).1
  unfolding visit_key
  visit_key-Grows n r =
      if-elim (λ (s : List (List ℕ) × List ℕ). Grows r.1 s.1) (contains n r.1) r
        (add_deadlock (find_cycle n edges r.1) r) (λ e k h. h)
        (λ e. add_deadlock-Grows (find_cycle n edges r.1) r)

  visit_key-Escapes : (n : ℕ) (r : List (List ℕ) × List ℕ) → Escapes edges (visit_key edges n r).1 n
  unfolding visit_key
  visit_key-Escapes n r =
      if-elim (λ (s : List (List ℕ) × List ℕ). Escapes edges s.1 n) (contains n r.1) r
        (add_deadlock (find_cycle n edges r.1) r) (λ e. known e)
        (λ e. add_deadlock-Escapes n (find_cycle n edges r.1) r (find_cycle-Right n edges r.1))

  visit_keys-Grows :
      (order : List ℕ) (r : List (List ℕ) × List ℕ) → Grows r.1 (visit_keys order edges r).1
  unfolding visit_keys
  visit_keys-Grows [] r k h = h
  visit_keys-Grows (n ∷ ns) r k h =
      visit_keys-Grows ns (visit_key edges n r) k (visit_key-Grows n r k h)

  visit-All :
      (order : List ℕ) (r : List (List ℕ) × List ℕ)
      → All (Escapes edges (visit_keys order edges r).1) order
  unfolding visit_keys
  visit-All [] r = tt
  visit-All (n ∷ ns) r =
      let s = visit_key edges n r in
      (
        Escapes-Grows s.1 (visit_keys ns edges s).1 (visit_keys-Grows ns s) (visit_key-Escapes n r),
        visit-All ns s,
      )

all-Grows :
    (edges : List (ℕ × ℕ)) (found more : List ℕ)
    → Grows found more
    → (order : List ℕ) → All (Escapes edges found) order
    → All (Escapes edges more) order
all-Grows edges found more g [] a = tt
all-Grows edges found more g (n ∷ ns) a =
    (Escapes-Grows edges found more g a.0, all-Grows edges found more g ns a.1)

-- The sessions of the deadlocks.
unfoldable pub members : List (List ℕ) → List ℕ
members [] = []
members (ns ∷ deadlocks) = ns ++ members deadlocks

members-append :
    (k : ℕ) (ds : List (List ℕ)) (ns : List ℕ)
    → (contains k (members ds) ≡ true) ⊎ (contains k ns ≡ true)
    → contains k (members (ds ++ ns ∷ [])) ≡ true
unfolding members contains
members-append k [] ns (inl h) = absurd (let q : ⊥ = cc in q)
members-append k [] ns (inr h) = contains-append_left k ns [] h
members-append k (m ∷ ds) ns (inr h) =
    contains-append_right k m (members (ds ++ ns ∷ [])) (members-append k ds ns (inr h))
members-append k (m ∷ ds) ns (inl h) = elim (contains-append-cases k m (members ds) h) [
  | inl e ↦ contains-append_left k m (members (ds ++ ns ∷ [])) e
  | inr e ↦ contains-append_right k m (members (ds ++ ns ∷ [])) (members-append k ds ns (inl e))
]

contains-but_last : (k : ℕ) (ns : List ℕ) → contains k (but_last ns) ≡ true → contains k ns ≡ true
unfolding contains
contains-but_last k [] h = h
contains-but_last k (n ∷ []) h = absurd (let q : ⊥ = cc in q)
contains-but_last k (n ∷ (m ∷ ns)) h = ground (arith, contains-but_last k (m ∷ ns))

-- Every session that counts as visited stands in a deadlock that was found.
abbrev IsListed : List (List ℕ) × List ℕ → Type 0
IsListed r = Grows r.1 (members r.0)

module _ (edges : List (ℕ × ℕ)) where
  add_deadlock-IsListed :
      (w : Walk) (r : List (List ℕ) × List ℕ) → IsListed r → IsListed (add_deadlock w r)
  unfolding add_deadlock
  add_deadlock-IsListed out_of_fuel r h = h
  add_deadlock-IsListed no_cycle r h = h
  add_deadlock-IsListed (cycle ns) r h = λ k q. elim (contains-append-cases k (but_last ns) r.1 q) [
    | inl e ↦ members-append k r.0 ns (inr (contains-but_last k ns e))
    | inr e ↦ members-append k r.0 ns (inl (h k e))
  ]

  visit_keys-IsListed :
      (order : List ℕ) (r : List (List ℕ) × List ℕ)
      → IsListed r
      → IsListed (visit_keys order edges r)
  unfolding visit_keys visit_key
  visit_keys-IsListed [] r h = h
  visit_keys-IsListed (n ∷ ns) r h = visit_keys-IsListed ns (visit_key edges n r) (
      if-elim IsListed (contains n r.1) r (add_deadlock (find_cycle n edges r.1) r) (λ e. h)
        (λ e. add_deadlock-IsListed (find_cycle n edges r.1) r h))

-- In whatever order logDeadlocks goes over the keys, the blockers of each of them lead out of the graph
-- or to a session of a deadlock that it reports: no deadlock that a key's session waits for is missed.
pub log_deadlocks-Escapes :
    (order : List ℕ) (edges : List (ℕ × ℕ))
    → All (Escapes edges (members (log_deadlocks order edges))) order
unfolding log_deadlocks members
log_deadlocks-Escapes order edges =
    let r = visit_keys order edges ([], []) in
    all-Grows edges r.1 (members r.0) (visit_keys-IsListed edges order ([], []) (λ k h. h)) order
      (visit-All edges order ([], []))
