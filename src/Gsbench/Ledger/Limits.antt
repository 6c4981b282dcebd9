-- ===== src/Gsbench/Ledger/Limits.antt =====
-- The size of the recovery ledger of internal/gsbench/recovery_ledger.go.
use gstop.Base.{◌≤◌, ◌≡◌, List, [], ◌∷◌, ◌++◌, Option, none, some, length, length-append, arith}
use gstop.Gsbench.Action.{Action}
use gstop.Gsbench.Ledger.{
  find, replace, Checked, ok, err, update_existing, put_stored, put_found, append_stored,
  replace_stored, record_limit, count_limit,
}
use gstop.Gsbench.Ledger.Identity.{length-sort, length-replace}

length-append_stored :
    (stored : Action) (l k : List Action) → append_stored stored l ≡ ok k → length k ≤ record_limit
length-append_stored stored l k h =
    ground (arith, length-sort (l ++ stored ∷ []), length-append l (stored ∷ []))

length-replace_stored :
    (r : Checked Action) (l k : List Action) → replace_stored r l ≡ ok k → length k ≡ length l
length-replace_stored (err e) l k h = absurd (cc)
length-replace_stored (ok y) l k h = ground (arith, length-sort (replace y l), length-replace y l)

length-put_found :
    (stored : Action) (l k : List Action) (o : Option Action)
    → length l ≤ record_limit
    → put_found stored l o ≡ ok k
    → length k ≤ record_limit
length-put_found stored l k none n h = length-append_stored stored l k h
length-put_found stored l k (some x) n h =
    omega (arith, length-replace_stored (update_existing x stored) l k h)

-- Put never lets the file outgrow its 256 actions.
pub length-put_stored-le :
    (stored : Action) (l k : List Action)
    → length l ≤ record_limit
    → put_stored stored l ≡ ok k
    → length k ≤ record_limit
unfolding put_stored
length-put_stored-le stored l k n h =
    length-put_found stored l k (find stored.run_id stored.target l) n h

-- A full file refuses a new identity, and nothing else.
pub put_stored-full :
    (stored : Action) (l : List Action)
    → length l ≡ record_limit
    → find stored.run_id stored.target l ≡ none
    → put_stored stored l ≡ err count_limit
unfolding put_stored
put_stored-full stored l n h = rw h (ground arith)
