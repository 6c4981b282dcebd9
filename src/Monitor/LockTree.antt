-- ===== src/Monitor/LockTree.antt =====
-- The lock records of internal/monitor/session_blocktree.go: a granted cell, the groups by lock tag,
-- and the holder of a group. A row of pg_lock_status is its tag and its record; the drawing of the
-- tree and the queries are not modelled.
pub mod Grouping
use text.Mathlib.Text.{◌==◌ as str_eq}
use gstop.Base.{
  ℕ, String, Bool, true, false, ◌||◌, not, List, [], ◌∷◌, ◌++◌, Option, none, some, if◌then◌else◌,
}

-- A cell of the driver, as far as isGranted tells the types apart.
pub data Cell : Type 0 where
  truth : Bool → Cell
  string bytes : String → Cell
  other_cell : Cell

unfoldable pub is_granted : Cell → Bool
is_granted (truth x) = x
is_granted (string x) = str_eq x "t" || str_eq x "true" || str_eq x "True"
is_granted (bytes x) = str_eq x "t" || str_eq x "true"
is_granted other_cell = false

pub record LockRecord : Type 0 where
  pub lock_type : String
  pub pid : Option ℕ
  pub session_id : Option ℕ
  pub mode : String
  pub granted : Bool

pub record LockRow : Type 0 where
  pub lock_tag : String
  pub type_column : String
  pub pid_column : Option ℕ
  pub session_column : Option ℕ
  pub mode_column : String
  pub granted_column : Cell

unfoldable pub to_lock_record : LockRow → LockRecord
to_lock_record row = record {
  lock_type = row.type_column;
  pid = row.pid_column;
  session_id = row.session_column;
  mode = row.mode_column;
  granted = is_granted row.granted_column;
}

pub record TaggedRecords : Type 0 where
  pub tag : String
  pub records : List LockRecord

-- The record joins its tag's group, or starts one behind the others.
unfoldable pub add_record : String → LockRecord → List TaggedRecords → List TaggedRecords
add_record tag rec [] = record { tag = tag; records = rec ∷ [] } ∷ []
add_record tag rec (g ∷ gs) =
    if str_eq tag g.tag
    then record g { records = g.records ++ rec ∷ [] } ∷ gs
    else g ∷ add_record tag rec gs

unfoldable pub group_rows : List LockRow → List TaggedRecords → List TaggedRecords
group_rows [] groups = groups
group_rows (row ∷ rows) groups =
    group_rows rows (add_record row.lock_tag (to_lock_record row) groups)

unfoldable pub ordered_lock_tags : List LockRow → List TaggedRecords
ordered_lock_tags rows = group_rows rows []

-- The granted record that comes last, and whether one waits.
unfoldable pub scan_holder : List LockRecord → Option LockRecord × Bool → Option LockRecord × Bool
scan_holder [] r = r
scan_holder (rec ∷ recs) (holder, blocks_others) =
    if not rec.granted
    then scan_holder recs (holder, true)
    else scan_holder recs (some rec, blocks_others)

unfoldable pub split_holder : List LockRecord → Option LockRecord × Bool
split_holder records = scan_holder records (none, false)
