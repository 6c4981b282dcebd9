-- ===== src/Gsbench/Topology/Waiting.antt =====
-- What each waiter of internal/gsbench/lock_topology.go waits for.
use mathlib.Core.Logic.{Lift}
use gstop.Base.{
  ℕ, zero, suc, ◌-◌, ◌≡◌, refl, min, List, [], ◌∷◌, ◌++◌, ◌⊎◌, inl, inr, none, some, All,
  All-append,
}
use gstop.Gsbench.Topology.{
  add_waiter, Tag, Waiter, Definition, add_waiters, start_branch, add_branches, no_waiters,
  configure_row_chain_waiters,
}

abbrev pub Member {ℓ} : {A : Type ℓ} → A → List A → Type ℓ
Member x [] = Lift {0, ℓ} ⊥
Member x (y ∷ ys) = (y ≡ x) ⊎ Member x ys

module _ {ℓ} {A : Type ℓ} where
  Member-append : (x : A) (xs ys : List A) → Member x xs → Member x (xs ++ ys)
  Member-append x [] ys m = absurd m.lower
  Member-append x (z ∷ xs) ys (inl e) = inl e
  Member-append x (z ∷ xs) ys (inr m) = inr (Member-append x xs ys m)

  Member-last : (x : A) (xs : List A) → Member x (xs ++ x ∷ [])
  Member-last x [] = inl refl
  Member-last x (y ∷ xs) = inr (Member-last x xs)

-- A waiter at this place of a branch finds the row locked: by the holder, or by the waiter before it.
abbrev pub Source : Definition → ℕ → ℕ → ℕ → Tag → Type 0
Source d branch depth row tag =
    ((tag ≡ none) × (depth ≡ 1) × Member row d.holder_rows)
    ⊎ ((b : Waiter) × Member b d.waiters
        × (b.tag ≡ tag)
        × (b.setup_row ≡ row)
        × (b.branch ≡ branch)
        × (depth ≡ suc b.depth))

abbrev pub Waits : Definition → Waiter → Type 0
Waits d w = Source d w.branch w.depth w.wait_row w.blocker_tag

-- The second definition only adds to the first.
record Extends (d e : Definition) : Type 0 where
  more_waiters : (w : Waiter) → Member w d.waiters → Member w e.waiters
  more_rows : (r : ℕ) → Member r d.holder_rows → Member r e.holder_rows

Source-Extends :
    (d e : Definition) (branch depth row : ℕ) (tag : Tag)
    → Extends d e
    → Source d branch depth row tag
    → Source e branch depth row tag
Source-Extends d e branch depth row tag x (inl h) = inl (h.0, h.1, x.more_rows row h.2)
Source-Extends d e branch depth row tag x (inr h) =
    inr (h.0, x.more_waiters h.0 h.1, h.2, h.3, h.4, h.5)

Waits-Extends :
    (d e : Definition) (ws : List Waiter) → Extends d e → All (Waits d) ws → All (Waits e) ws
Waits-Extends d e [] x a = tt
Waits-Extends d e (w ∷ ws) x a =
    (Source-Extends d e w.branch w.depth w.wait_row w.blocker_tag x a.0, Waits-Extends d e ws x a.1)

start_branch-Extends : (row len : ℕ) (d : Definition) → Extends d (start_branch row len d)
unfolding start_branch
start_branch-Extends row len d = record {
  more_waiters = λ w m. m;
  more_rows = λ r m. Member-append r d.holder_rows (row ∷ []) m;
}

module _ (branch depth row : ℕ) (tag : Tag) (next : ℕ) (d : Definition) where
  abbrev added : Waiter
  added = record {
    tag = some (branch, depth);
    setup_row = next;
    wait_row = row;
    blocker_tag = tag;
    branch = branch;
    depth = depth;
  }

  add_waiter-Extends : Extends d (add_waiter branch depth row tag next d)
  unfolding add_waiter
  add_waiter-Extends = record {
    more_waiters = λ w m. Member-append w d.waiters (added ∷ []) m;
    more_rows = λ r m. m;
  }

  add_waiter-Waits :
      Source d branch depth row tag
      → All (Waits d) d.waiters
      → All
          (Waits (add_waiter branch depth row tag next d))
          (add_waiter branch depth row tag next d).waiters
  unfolding add_waiter
  add_waiter-Waits s a =
      let e = add_waiter branch depth row tag next d in
      All-append (Waits e) d.waiters (added ∷ []) (Waits-Extends d e d.waiters add_waiter-Extends a)
        (Source-Extends d e branch depth row tag add_waiter-Extends s, tt)

  add_waiter-Source :
      Source (add_waiter branch depth row tag next d) branch (suc depth) next (some (branch, depth))
  unfolding add_waiter
  add_waiter-Source = inr (added, Member-last added d.waiters, refl, refl, refl, refl)

add_waiters-Waits :
    (count branch depth row : ℕ) (tag : Tag) (next : ℕ) (d : Definition)
    → Source d branch depth row tag
    → All (Waits d) d.waiters
    → All
        (Waits (add_waiters count branch depth row tag next d).1)
        (add_waiters count branch depth row tag next d).1.waiters
unfolding add_waiters
add_waiters-Waits zero branch depth row tag next d s a = a
add_waiters-Waits (suc count) branch depth row tag next d s a =
    add_waiters-Waits count branch (suc depth) next (some (branch, depth)) (suc next)
      (add_waiter branch depth row tag next d) (add_waiter-Source branch depth row tag next d)
      (add_waiter-Waits branch depth row tag next d s a)

start_branch-Waits :
    (row len : ℕ) (d : Definition)
    → All (Waits d) d.waiters
    → All (Waits (start_branch row len d)) (start_branch row len d).waiters
unfolding start_branch
start_branch-Waits row len d a =
    Waits-Extends d (start_branch row len d) d.waiters (start_branch-Extends row len d) a

start_branch-Source :
    (row len branch : ℕ) (d : Definition) → Source (start_branch row len d) branch 1 row none
unfolding start_branch
start_branch-Source row len branch d = inl (refl, refl, Member-last row d.holder_rows)

add_branches-Waits :
    (fuel branch remaining depth next : ℕ) (d : Definition)
    → All (Waits d) d.waiters
    → All
        (Waits (add_branches fuel branch remaining depth next d).1)
        (add_branches fuel branch remaining depth next d).1.waiters
unfolding add_branches
add_branches-Waits zero branch remaining depth next d a = a
add_branches-Waits (suc fuel) branch zero depth next d a = a
add_branches-Waits (suc fuel) branch (suc n) depth next d a =
    let b = start_branch next (min depth (suc n)) d in
    let r = add_waiters (min depth (suc n)) branch 1 next none (suc next) b in
    add_branches-Waits fuel (suc branch) (suc n - min depth (suc n)) depth r.0 r.1 (
      add_waiters-Waits (min depth (suc n)) branch 1 next none (suc next) b
        (start_branch-Source next (min depth (suc n)) branch d)
        (start_branch-Waits next (min depth (suc n)) d a))

-- Each waiter of the chains waits for a row that its blocker locks: the first of a branch for a row of
-- the holder, each other for the row of the waiter one level above it in its branch.
pub configure_row_chain_waiters-Waits :
    (sessions depth : ℕ)
    → All
        (Waits (configure_row_chain_waiters sessions depth).1)
        (configure_row_chain_waiters sessions depth).1.waiters
unfolding configure_row_chain_waiters
configure_row_chain_waiters-Waits sessions depth =
    add_branches-Waits (sessions - 1) 1 (sessions - 1) depth 1 no_waiters tt
