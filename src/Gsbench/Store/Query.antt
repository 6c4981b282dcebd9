-- ===== src/Gsbench/Store/Query.antt =====
-- The query of Pending, internal/gsbench/sqlstore.go: which rows it finds.
use text.Mathlib.Text.{◌==◌ as str_eq}
use text.Mathlib.TextEquality.{eq_iff}
use gstop.Base.{
  ℕ, ◌≡◌, refl, String, false, ◌&&◌, not, List, [], ◌∷◌, Option, none, some, leb, if◌then◌else◌,
  arith, if-elim, ◌∙◌, sym, ap, subst,
}
use gstop.Gsbench.Action.{restored}
use gstop.Gsbench.Store.{Row, matches, same_state, pending_rows, insert_by_id}
use gstop.Gsbench.Store.Keys.{find, Unique}

abbrev pub only_pending : Option Row → Option Row
only_pending none = none
only_pending (some r) = if same_state r.state restored then none else some r

find-insert_by_id :
    (r : Row) (rows : List Row) (run : String) (id : ℕ)
    → find r.run_id r.action_id rows ≡ none
    → find run id (insert_by_id r rows) ≡ (if matches run id r then some r else find run id rows)
unfolding find matches
find-insert_by_id r [] run id h = refl
find-insert_by_id r (s ∷ rows) run id h = ground (
  arith,
  eq_iff r.run_id run,
  eq_iff s.run_id run,
  eq_iff s.run_id r.run_id,
  find-insert_by_id r rows run id,
)

insert_by_id-Unique :
    (r : Row) (rows : List Row)
    → find r.run_id r.action_id rows ≡ none
    → Unique rows
    → Unique (insert_by_id r rows)
unfolding find matches
insert_by_id-Unique r [] h u = (refl, tt)
insert_by_id-Unique r (s ∷ rows) h u = ground (
  arith,
  eq_iff s.run_id r.run_id,
  eq_iff r.run_id s.run_id,
  find-insert_by_id r rows s.run_id s.action_id,
  insert_by_id-Unique r rows,
)

-- Pending's query finds a row of the run exactly where the table has it and it is not restored.
pub find-pending_rows :
    (run : String) (id : ℕ) (rows : List Row)
    → Unique rows
    → find run id (pending_rows run rows) ≡ only_pending (find run id rows)
unfolding pending_rows find matches
find-pending_rows run id [] u = refl
find-pending_rows run id (r ∷ rows) u =
    let k = λ (e : r.run_id ≡ run).
      subst
        (λ q. find q r.action_id (pending_rows run rows) ≡ only_pending (find q r.action_id rows))
        (sym e) (find-pending_rows run r.action_id rows u.1) in
    let l = find-pending_rows run id rows u.1 in found (λ e. k e ∙ ap only_pending u.0) l
  where
    found :
        (r.run_id ≡ run → find r.run_id r.action_id (pending_rows run rows) ≡ none)
        → find run id (pending_rows run rows) ≡ only_pending (find run id rows)
        → find run id (pending_rows run (r ∷ rows)) ≡ only_pending (find run id (r ∷ rows))
    found k l =
        ground
          (arith, eq_iff r.run_id run, find-insert_by_id r (pending_rows run rows) run id, k, l)

pub pending_rows-Unique :
    (run : String) (rows : List Row) → Unique rows → Unique (pending_rows run rows)
unfolding pending_rows
pending_rows-Unique run [] u = tt
pending_rows-Unique run (r ∷ rows) u =
    if-elim Unique (str_eq r.run_id run && not (same_state r.state restored))
      (insert_by_id r (pending_rows run rows)) (pending_rows run rows)
      (λ e.
        let q : r.run_id ≡ run = ground (arith, eq_iff r.run_id run) in
        insert_by_id-Unique r (pending_rows run rows)
          (subst (λ s. find r.run_id r.action_id (pending_rows s rows) ≡ none) q
            (find-pending_rows r.run_id r.action_id rows u.1 ∙ ap only_pending u.0))
          (pending_rows-Unique run rows u.1))
      (λ e. pending_rows-Unique run rows u.1)

-- Each row is of the run, and not restored.
abbrev pub Left : String → List Row → Type 0
Left run [] = Unit
Left run (r ∷ rows) = (r.run_id ≡ run) × (same_state r.state restored ≡ false) × Left run rows

insert_by_id-Left :
    (run : String) (r : Row) (rows : List Row)
    → r.run_id ≡ run
    → same_state r.state restored ≡ false
    → Left run rows
    → Left run (insert_by_id r rows)
insert_by_id-Left run r [] q n l = (q, n, l)
insert_by_id-Left run r (s ∷ rows) q n l =
    if-elim (Left run) (leb r.action_id s.action_id) (r ∷ s ∷ rows) (s ∷ insert_by_id r rows)
      (λ _. (q, n, l)) (λ _. (l.0, l.1, insert_by_id-Left run r rows q n l.2))

pub pending_rows-Left : (run : String) (rows : List Row) → Left run (pending_rows run rows)
unfolding pending_rows
pending_rows-Left run [] = tt
pending_rows-Left run (r ∷ rows) =
    if-elim (Left run) (str_eq r.run_id run && not (same_state r.state restored))
      (insert_by_id r (pending_rows run rows)) (pending_rows run rows)
      (λ e.
        insert_by_id-Left run r (pending_rows run rows) (ground (arith, eq_iff r.run_id run))
          (ground arith) (pending_rows-Left run rows))
      (λ e. pending_rows-Left run rows)
