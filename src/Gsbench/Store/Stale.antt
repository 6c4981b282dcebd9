-- ===== src/Gsbench/Store/Stale.antt =====
-- StaleRuns of internal/gsbench/sqlstore.go: the runs that have something to restore. The order of two
-- texts is the database's.
use text.Mathlib.Text.{◌==◌ as str_eq}
use text.Mathlib.TextEquality.{eq_iff}
use gstop.Base.{
  ◌≡◌, ◌≢◌, refl, String, Bool, false, ◌&&◌, ◌||◌, not, List, [], ◌∷◌, leb, if◌then◌else◌, if-elim,
  arith,
}
use gstop.Gsbench.Action.{restored}
use gstop.Gsbench.Store.{Row, same_state, pending_rows, insert_by_id}

unfoldable pub is_listed : String → List String → Bool
is_listed run [] = false
is_listed run (r ∷ runs) = str_eq run r || is_listed run runs

unfoldable pub insert_run : (String → String → Bool) → String → List String → List String
insert_run before r [] = r ∷ []
insert_run before r (s ∷ runs) =
    let rest = insert_run before r runs in if before r s then r ∷ s ∷ runs else s ∷ rest

-- SELECT DISTINCT run_id WHERE state<>$1 ORDER BY run_id
unfoldable pub stale_runs : (String → String → Bool) → List Row → List String
stale_runs before [] = []
stale_runs before (r ∷ rows) =
    let rest = stale_runs before rows in
    if same_state r.state restored || is_listed r.run_id rest
    then rest
    else insert_run before r.run_id rest

is_listed-insert_run :
    (before : String → String → Bool) (run r : String) (runs : List String)
    → is_listed run (insert_run before r runs) ≡ (str_eq run r || is_listed run runs)
unfolding is_listed insert_run
is_listed-insert_run before run r [] = refl
is_listed-insert_run before run r (s ∷ runs) =
    ground (arith, is_listed-insert_run before run r runs)

insert_by_id-not-nil : (r : Row) (rows : List Row) → insert_by_id r rows ≢ []
insert_by_id-not-nil r [] = λ h. (let q : ⊥ = cc in q)
insert_by_id-not-nil r (s ∷ rows) =
    if-elim (λ l. l ≢ []) (leb r.action_id s.action_id) (r ∷ s ∷ rows) (s ∷ insert_by_id r rows)
      (λ _ h. (let q : ⊥ = cc in q)) (λ _ h. (let q : ⊥ = cc in q))

pending_rows-cons :
    (run : String) (r : Row) (rows : List Row)
    → pending_rows run (r ∷ rows) ≡ []
    → ((str_eq r.run_id run && not (same_state r.state restored)) ≡ false)
      × (pending_rows run rows ≡ [])
unfolding pending_rows
pending_rows-cons run r rows =
    if-elim
      (λ l.
        l ≡ []
        → ((str_eq r.run_id run && not (same_state r.state restored)) ≡ false)
          × (pending_rows run rows ≡ []))
      (str_eq r.run_id run && not (same_state r.state restored))
      (insert_by_id r (pending_rows run rows)) (pending_rows run rows)
      (λ e h. absurd (insert_by_id-not-nil r (pending_rows run rows) h)) (λ e h. (e, h))

-- A run without a pending row is not stale.
pub is_listed-stale_runs :
    (before : String → String → Bool) (run : String) (rows : List Row)
    → pending_rows run rows ≡ []
    → is_listed run (stale_runs before rows) ≡ false
unfolding is_listed stale_runs
is_listed-stale_runs before run [] h = refl
is_listed-stale_runs before run (r ∷ rows) h =
    let (e, k) = pending_rows-cons run r rows h in
    let ih = is_listed-stale_runs before run rows k in
    ground (
      arith,
      e,
      eq_iff run r.run_id,
      eq_iff r.run_id run,
      ih,
      is_listed-insert_run before run r.run_id (stale_runs before rows),
    )
