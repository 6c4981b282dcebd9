-- ===== src/Config/Keys.antt =====
-- The tree of internal/config/config.go: Get, With and setPath. A dotted key is the list of its
-- segments, a first one and the others; a map is a list of entries, each key once.
use gstop.Base.{
  ℕ, ◌≡◌, refl, Bool, true, false, ◌&&◌, List, [], ◌∷◌, Option, none, some, ltb, ◌==◌,
  if◌then◌else◌, arith, ap, ◌∙◌, sym, ◌⊎◌, inl, inr, ◌↔◌,
}

abbrev pub Bytes : Type 0
Bytes = List ℕ

unfoldable pub same_bytes : Bytes → Bytes → Bool
same_bytes [] [] = true
same_bytes (a ∷ s) (b ∷ t) = (a == b) && same_bytes s t
same_bytes _ _ = false

-- int64 and int
pub data ℤ : Type 0 where
  pos : ℕ → ℤ
  negsuc : ℕ → ℤ

unfoldable pub ltℤ : ℤ → ℤ → Bool
ltℤ (pos m) (pos n) = ltb m n
ltℤ (pos m) (negsuc n) = false
ltℤ (negsuc m) (pos n) = true
ltℤ (negsuc m) (negsuc n) = ltb n m

mutual
  pub data Value (F : Type 0) : Type 0 where
    int : ℤ → Value F
    float : F → Value F
    bool : Bool → Value F
    text : Bytes → Value F
    table : Tree F → Value F

  pub data Tree (F : Type 0) : Type 0 where
    empty : Tree F
    entry : Bytes → Value F → Tree F → Tree F

-- The entries of a value; one that is no map has none.
abbrev pub entries : {F : Type 0} → Value F → Tree F
entries (int n) = empty
entries (float x) = empty
entries (bool b) = empty
entries (text s) = empty
entries (table t) = t

abbrev pub entries_of : {F : Type 0} → Option (Value F) → Tree F
entries_of none = empty
entries_of (some v) = entries v

abbrev pub bind : {A B : Type 0} → Option A → (A → Option B) → Option B
bind none f = none
bind (some a) f = f a

unfoldable pub find : {F : Type 0} → Bytes → Tree F → Option (Value F)
find k empty = none
find k (entry j v t) = let rest = find k t in if same_bytes k j then some v else rest

unfoldable pub put : {F : Type 0} → Bytes → Value F → Tree F → Tree F
put k v empty = entry k v empty
put k v (entry j w t) =
    let rest = put k v t in if same_bytes k j then entry j v t else entry j w rest

unfoldable pub get : {F : Type 0} → List Bytes → Value F → Option (Value F)
get [] v = some v
get (s ∷ ss) v = bind (find s (entries v)) (get ss)

unfoldable pub set_path : {F : Type 0} → Bytes → List Bytes → Value F → Tree F → Tree F
set_path s [] v t = put s v t
set_path s (r ∷ rs) v t = put s (table (set_path r rs v (entries_of (find s t)))) t

-- Neither key is a part of the other: they part at some segment.
abbrev pub Diverge : Bytes → List Bytes → Bytes → List Bytes → Type 0
Diverge a [] b bs = same_bytes b a ≡ false
Diverge a (x ∷ xs) b [] = same_bytes b a ≡ false
Diverge a (x ∷ xs) b (y ∷ ys) =
    (same_bytes b a ≡ false) ⊎ ((same_bytes b a ≡ true) × Diverge x xs y ys)

pub same_bytes_iff : (a b : Bytes) → (same_bytes a b ≡ true) ↔ (a ≡ b)
unfolding same_bytes
same_bytes_iff [] [] = ground arith
same_bytes_iff [] (b ∷ t) = ground arith
same_bytes_iff (a ∷ s) [] = ground arith
same_bytes_iff (a ∷ s) (b ∷ t) = ground (arith, same_bytes_iff s t)

find-put :
    {F : Type 0} (k j : Bytes) (v : Value F) (t : Tree F)
    → find k (put j v t) ≡ (if same_bytes k j then some v else find k t)
unfolding find put
find-put k j v empty = refl
find-put k j v (entry i w t) =
    ground (arith, same_bytes_iff k j, same_bytes_iff k i, same_bytes_iff j i, find-put k j v t)

find-put_same : {F : Type 0} (s : Bytes) (v : Value F) (t : Tree F) → find s (put s v t) ≡ some v
find-put_same s v t = rw (find-put s s v t, (same_bytes_iff s s).1 refl) refl

-- What setPath has set is what Get returns, and keys that part from it keep their values.
pub get-set_path :
    {F : Type 0} (s : Bytes) (ss : List Bytes) (v : Value F) (t : Tree F)
    → get (s ∷ ss) (table (set_path s ss v t)) ≡ some v
unfolding get set_path
get-set_path s [] v t = rw (find-put_same s v t) refl
get-set_path s (r ∷ rs) v t =
    rw (find-put_same s (table (set_path r rs v (entries_of (find s t)))) t)
      (get-set_path r rs v (entries_of (find s t)))

get-entries_of :
    {F : Type 0} (l : Bytes) (ls : List Bytes) (o : Option (Value F))
    → get (l ∷ ls) (table (entries_of o)) ≡ bind o (get (l ∷ ls))
unfolding get find
get-entries_of l ls none = refl
get-entries_of l ls (some v) = refl

pub get-set_path_other :
    {F : Type 0} (s : Bytes) (ss : List Bytes) (v : Value F) (t : Tree F) (k : Bytes)
    (ks : List Bytes)
    → Diverge s ss k ks
    → get (k ∷ ks) (table (set_path s ss v t)) ≡ get (k ∷ ks) (table t)
unfolding get set_path
get-set_path_other s [] v t k ks d = rw (find-put k s v t, d) refl
get-set_path_other s (r ∷ rs) v t k [] d =
    rw (find-put k s (table (set_path r rs v (entries_of (find s t)))) t, d) refl
get-set_path_other s (r ∷ rs) v t k (l ∷ ls) (inl n) =
    rw (find-put k s (table (set_path r rs v (entries_of (find s t)))) t, n) refl
get-set_path_other s (r ∷ rs) v t k (l ∷ ls) (inr (e, d)) =
    rw (find-put k s (table (set_path r rs v (entries_of (find s t)))) t, e)
      (get-set_path_other r rs v (entries_of (find s t)) l ls d
        ∙ get-entries_of l ls (find s t)
        ∙ ap (λ q. bind (find q t) (get (l ∷ ls))) (sym ((same_bytes_iff k s).0 e)))
