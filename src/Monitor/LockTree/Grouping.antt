-- ===== src/Monitor/LockTree/Grouping.antt =====
-- The groups of internal/monitor/session_blocktree.go hold every row once, in the order of the rows.
use text.Mathlib.Text.{◌==◌ as str_eq}
use text.Mathlib.TextEquality.{eq_iff}
use mathlib.Core.List.{append_assoc, append-nil}
use gstop.Base.{
  String, Bool, true, false, List, [], ◌∷◌, ◌++◌, if◌then◌else◌, ◌≡◌, refl, arith, if-elim, inl,
  inr, ◌⊎◌, ap, sym, ◌∙◌,
}
use gstop.Monitor.LockTree.{
  LockRecord, LockRow, TaggedRecords, to_lock_record, add_record, group_rows, ordered_lock_tags,
}

-- The records of a tag's group; none where there is no group.
unfoldable pub records_of : String → List TaggedRecords → List LockRecord
records_of tag [] = []
records_of tag (g ∷ gs) = if str_eq tag g.tag then g.records else records_of tag gs

-- The records of the rows with a tag, in order.
unfoldable pub tagged : String → List LockRow → List LockRecord
tagged tag [] = []
tagged tag (row ∷ rows) =
    let rest = tagged tag rows in
    if str_eq tag row.lock_tag then to_lock_record row ∷ rest else rest

records_of-add_record :
    (tag key : String) (rec : LockRecord) (groups : List TaggedRecords)
    → records_of tag (add_record key rec groups)
      ≡ (if str_eq tag key then records_of tag groups ++ rec ∷ [] else records_of tag groups)
unfolding records_of add_record
records_of-add_record tag key rec [] = ground (arith, eq_iff tag key)
records_of-add_record tag key rec (g ∷ gs) = ground (
  arith,
  eq_iff tag key,
  eq_iff tag g.tag,
  eq_iff key g.tag,
  records_of-add_record tag key rec gs,
)

group_rows-records_of :
    (tag : String) (rows : List LockRow) (groups : List TaggedRecords)
    → records_of tag (group_rows rows groups) ≡ records_of tag groups ++ tagged tag rows
unfolding group_rows tagged
group_rows-records_of tag [] groups = sym (append-nil (records_of tag groups))
group_rows-records_of tag (row ∷ rows) groups =
    group_rows-records_of tag rows (add_record row.lock_tag (to_lock_record row) groups)
    ∙ ap (λ (rs : List LockRecord). rs ++ tagged tag rows)
        (records_of-add_record tag row.lock_tag (to_lock_record row) groups)
    ∙ joined (str_eq tag row.lock_tag)
  where
    joined :
        (b : Bool)
        → (if b then records_of tag groups ++ to_lock_record row ∷ [] else records_of tag groups)
            ++ tagged tag rows
          ≡ records_of tag groups
            ++ (if b then to_lock_record row ∷ tagged tag rows else tagged tag rows)
    joined true = append_assoc (records_of tag groups) (to_lock_record row ∷ []) (tagged tag rows)
    joined false = refl

abbrev HasTag : String → List TaggedRecords → Type 0
HasTag tag [] = ⊥
HasTag tag (g ∷ gs) = (str_eq tag g.tag ≡ true) ⊎ HasTag tag gs

-- No two groups have one tag.
abbrev pub Distinct : List TaggedRecords → Type 0
Distinct [] = Unit
Distinct (g ∷ gs) = (HasTag g.tag gs → ⊥) × Distinct gs

HasTag-add_record :
    (tag key : String) (rec : LockRecord) (groups : List TaggedRecords)
    → HasTag tag (add_record key rec groups)
    → (str_eq tag key ≡ true) ⊎ HasTag tag groups
unfolding add_record
HasTag-add_record tag key rec [] h = h
HasTag-add_record tag key rec (g ∷ gs) h =
    if-elim
      (λ (gs' : List TaggedRecords). HasTag tag gs' → (str_eq tag key ≡ true) ⊎ HasTag tag (g ∷ gs))
      (str_eq key g.tag) (record g { records = g.records ++ rec ∷ [] } ∷ gs)
      (g ∷ add_record key rec gs) (λ e h. inr h)
      (λ e h. elim h [
        | inl q ↦ inr (inl q)
        | inr q ↦ elim (HasTag-add_record tag key rec gs q) [ inl p ↦ inl p | inr p ↦ inr (inr p) ]
      ])
      h

add_record-Distinct :
    (key : String) (rec : LockRecord) (groups : List TaggedRecords)
    → Distinct groups
    → Distinct (add_record key rec groups)
unfolding add_record
add_record-Distinct key rec [] d = (λ h. h, tt)
add_record-Distinct key rec (g ∷ gs) d =
    if-elim Distinct (str_eq key g.tag) (record g { records = g.records ++ rec ∷ [] } ∷ gs)
      (g ∷ add_record key rec gs) (λ e. d)
      (λ e. (
        λ h. elim (HasTag-add_record g.tag key rec gs h) [
          | inl p ↦ absurd (let q : ⊥ = ground (arith, eq_iff key g.tag, eq_iff g.tag key) in q)
          | inr p ↦ d.0 p
        ],
        add_record-Distinct key rec gs d.1,
      ))

group_rows-Distinct :
    (rows : List LockRow) (groups : List TaggedRecords)
    → Distinct groups
    → Distinct (group_rows rows groups)
unfolding group_rows
group_rows-Distinct [] groups d = d
group_rows-Distinct (row ∷ rows) groups d =
    group_rows-Distinct rows (add_record row.lock_tag (to_lock_record row) groups)
      (add_record-Distinct row.lock_tag (to_lock_record row) groups d)

-- orderedLockTags makes one group a tag, and the group holds the records of exactly the rows with
-- the tag, in their order.
pub ordered_lock_tags-Distinct :
    (rows : List LockRow)
    → Distinct (ordered_lock_tags rows)
      × ((tag : String) → records_of tag (ordered_lock_tags rows) ≡ tagged tag rows)
unfolding ordered_lock_tags records_of
ordered_lock_tags-Distinct rows =
    (group_rows-Distinct rows [] tt, λ tag. group_rows-records_of tag rows [])
