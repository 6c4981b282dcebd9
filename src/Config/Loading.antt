-- ===== src/Config/Loading.antt =====
-- What Load of internal/config/config.go makes of the command line and of the intervals.
use gstop.Base.{
  ◌≡◌, refl, Bool, true, false, ◌&&◌, not, List, [], ◌∷◌, Option, none, some, if-elim, arith, ap,
  ◌∙◌, subst, sym, ◌⊎◌, inl, inr,
}
use gstop.Config.{
  Args, Argument, of_interval, main_word, interval_word, log_interval_word, word, override,
  set_override, apply_overrides, int_from, clamp, main_get, post_process, finish, load,
}
use gstop.Config.Keys.{
  Bytes, same_bytes, ℤ, pos, ltℤ, Value, int, Tree, set_path, get-set_path, get-set_path_other,
}
use gstop.Config.Values.{GoStrings}
use gstop.Config.Lines.{Loaded, loaded, failed, load_file}

abbrev pub Member : Argument → List Argument → Type 0
Member x [] = ⊥
Member x (y ∷ order) = (x ≡ y) ⊎ Member x order

words_apart : (x y : Argument) → (x ≡ y) ⊎ (same_bytes (word y) (word x) ≡ false)
unfolding same_bytes
words_apart x y = ground arith

same_main : same_bytes main_word main_word ≡ true
unfolding same_bytes
same_main = refl

-- An option of the section main, before and after another one is set.
get-set_other :
    {F : Type 0} (o p : Bytes) (v : Value F) (t : Tree F)
    → same_bytes p o ≡ false
    → main_get p (set_path main_word (o ∷ []) v t) ≡ main_get p t
get-set_other o p v t n =
    get-set_path_other main_word (o ∷ []) v t main_word (p ∷ []) (inr (same_main, n))

module _ {F : Type 0} (a : Args) (y : Argument) (v : Value F) (e : override a y ≡ some v) where
  get-set_override :
      (x : Argument) (t : Tree F)
      → y ≡ x
      → main_get (word y) (set_override x (override a x) t) ≡ some v
  get-set_override x t q =
      subst (λ z. main_get (word y) (set_override z (override a z) t) ≡ some v) q
        (rw e (get-set_path main_word (word y ∷ []) v t))

  get-set_override_other :
      (x : Argument) (o : Option (Value F)) (t : Tree F)
      → same_bytes (word y) (word x) ≡ false
      → main_get (word y) t ≡ some v
      → main_get (word y) (set_override x o t) ≡ some v
  get-set_override_other x none t n h = h
  get-set_override_other x (some w) t n h = get-set_other (word x) (word y) w t n ∙ h

  set_override-kept :
      (x : Argument) (t : Tree F)
      → main_get (word y) t ≡ some v
      → main_get (word y) (set_override x (override a x) t) ≡ some v
  set_override-kept x t h = elim (words_apart x y) [
    | inl q ↦ get-set_override x t (sym q)
    | inr n ↦ get-set_override_other x (override a x) t n h
  ]

  apply_overrides-kept :
      (order : List Argument) (t : Tree F)
      → main_get (word y) t ≡ some v
      → main_get (word y) (apply_overrides a order t) ≡ some v
  unfolding apply_overrides
  apply_overrides-kept [] t h = h
  apply_overrides-kept (x ∷ order) t h =
      apply_overrides-kept order (set_override x (override a x) t) (set_override-kept x t h)

  get-apply_overrides :
      (order : List Argument) (t : Tree F)
      → Member y order
      → main_get (word y) (apply_overrides a order t) ≡ some v
  unfolding apply_overrides
  get-apply_overrides [] t m = absurd m
  get-apply_overrides (x ∷ order) t (inl q) =
      apply_overrides-kept order (set_override x (override a x) t) (get-set_override x t q)
  get-apply_overrides (x ∷ order) t (inr m) =
      get-apply_overrides order (set_override x (override a x) t) m

-- A positive main.log_interval is at least main.interval, where both are numbers.
abbrev pub in_order : Option ℤ → Option ℤ → Bool
in_order (some interval) (some log_interval) =
    not (ltℤ (pos 0) log_interval && ltℤ log_interval interval)
in_order (some interval) none = true
in_order none log_interval = true

abbrev pub IsClamped : {F : Type 0} → GoStrings F → Tree F → Type 0
IsClamped go t =
    in_order (int_from go (main_get interval_word t)) (int_from go (main_get log_interval_word t))
    ≡ true

-- main.interval holds what main.log_interval says.
abbrev pub IsLowered : {F : Type 0} → GoStrings F → Tree F → Type 0
IsLowered {F = F} go t =
    (n : ℤ) × (int_from go (main_get log_interval_word t) ≡ some n)
    × (main_get interval_word t ≡ some (int n))

ltℤ_irrefl : (n : ℤ) → ltℤ n n ≡ false
unfolding ltℤ
ltℤ_irrefl n = ground arith

not_and_false : (b : Bool) → not (b && false) ≡ true
not_and_false true = refl
not_and_false false = refl

log_apart : same_bytes log_interval_word interval_word ≡ false
unfolding same_bytes
log_apart = refl

module _ {F : Type 0} (go : GoStrings F) where
  lowered :
      (n : ℤ) (t : Tree F)
      → int_from go (main_get log_interval_word t) ≡ some n
      → let u = set_path main_word (interval_word ∷ []) (int n) t in IsClamped go u × IsLowered go u
  unfolding int_from
  lowered n t h =
      let own = get-set_path main_word (interval_word ∷ []) (int n) t in
      let log =
        ap (int_from go) (get-set_other interval_word log_interval_word (int n) t log_apart) ∙ h in
      (rw (own, log) (rw (ltℤ_irrefl n) (not_and_false (ltℤ (pos 0) n))), (n, log, own))

  clamp-IsClamped :
      (i l : Option ℤ) (t : Tree F)
      → int_from go (main_get interval_word t) ≡ i
      → int_from go (main_get log_interval_word t) ≡ l
      → IsClamped go (clamp i l t) × ((clamp i l t ≡ t) ⊎ IsLowered go (clamp i l t))
  unfolding clamp
  clamp-IsClamped none l t p q = (rw (p) refl, inl refl)
  clamp-IsClamped (some i) none t p q = (rw (p, q) refl, inl refl)
  clamp-IsClamped (some i) (some n) t p q =
      if-elim (λ u. IsClamped go u × ((u ≡ t) ⊎ IsLowered go u)) (ltℤ (pos 0) n && ltℤ n i)
        (set_path main_word (interval_word ∷ []) (int n) t) t
        (λ e. let k = lowered n t q in (k.0, inr k.1)) (λ e. (rw (p, q) (rw e refl), inl refl))

  clamp-other :
      (i l : Option ℤ) (o : Bytes) (t : Tree F)
      → same_bytes o interval_word ≡ false
      → main_get o (clamp i l t) ≡ main_get o t
  unfolding clamp
  clamp-other none l o t n = refl
  clamp-other (some i) none o t n = refl
  clamp-other (some i) (some m) o t n =
      if-elim (λ u. main_get o u ≡ main_get o t) (ltℤ (pos 0) m && ltℤ m i)
        (set_path main_word (interval_word ∷ []) (int m) t) t
        (λ e. get-set_other interval_word o (int m) t n) (λ e. refl)

  -- An option that clamp may lower is the interval.
  post_process-kept :
      (y : Argument) (v : Value F) (t : Tree F)
      → main_get (word y) t ≡ some v
      → (main_get (word y) (post_process go t) ≡ some v)
        ⊎ ((y ≡ of_interval) × IsLowered go (post_process go t))
  unfolding post_process
  post_process-kept y v t h =
      let i = int_from go (main_get interval_word t) in
      let l = int_from go (main_get log_interval_word t) in
      elim (words_apart of_interval y) [
        | inr n ↦ inl (clamp-other i l (word y) t n ∙ h)
        | inl q ↦ elim ((clamp-IsClamped i l t refl refl).1) [
          | inl e ↦ inl (ap (main_get (word y)) e ∙ h)
          | inr k ↦ inr (sym q, k)
        ]
      ]

load-steps :
    {F : Type 0} (go : GoStrings F) (lines : List Bytes) (a : Args) (order : List Argument)
    (t : Tree F)
    → load go lines a order ≡ loaded t
    → (file : Tree F) × (t ≡ post_process go (apply_overrides a order file))
unfolding load
load-steps {F} go lines a order t h = by_file (load_file go lines) h
  where
    by_file :
        (r : Loaded (Tree F))
        → finish go a order r ≡ loaded t
        → (file : Tree F) × (t ≡ post_process go (apply_overrides a order file))
    by_file (loaded file) e = (file, cc)
    by_file (failed e) h = absurd (let q : ⊥ = cc in q)

-- After Load, a supplied argument of the command line is what Get returns for its key, whatever the
-- file says and in whatever order Go ranges over the map of the overrides, and only main.interval may
-- be another: then it is main.log_interval. A positive main.log_interval is never below main.interval.
pub get-load :
    {F : Type 0} (go : GoStrings F) (lines : List Bytes) (a : Args) (order : List Argument)
    (t : Tree F) (y : Argument) (v : Value F)
    → load go lines a order ≡ loaded t
    → override a y ≡ some v
    → Member y order
    → ((main_get (word y) t ≡ some v) ⊎ ((y ≡ of_interval) × IsLowered go t)) × IsClamped go t
unfolding post_process
get-load go lines a order t y v h e m =
    let (file, q) = load-steps go lines a order t h in
    let u = apply_overrides a order file in
    let k = get-apply_overrides a y v e order file m in
    subst
      (λ s.
        ((main_get (word y) s ≡ some v) ⊎ ((y ≡ of_interval) × IsLowered go s)) × IsClamped go s)
      (sym q)
      (
        post_process-kept go y v u k,
        (clamp-IsClamped go (int_from go (main_get interval_word u))
            (int_from go (main_get log_interval_word u)) u refl refl).0,
      )
