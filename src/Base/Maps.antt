-- ===== src/Base/Maps.antt =====
-- Go maps from strings, as functions: a missing key is `none`.
use text.Mathlib.Text.{◌==◌ as str_eq}
use text.Mathlib.TextEquality.{eq_iff}
use gstop.Base.{String, Option, none, some, ◌≡◌, ◌≢◌, if◌then◌else◌, arith}

abbrev pub Map {ℓ} : Type ℓ → Type ℓ
Map V = String → Option V

module _ {ℓ} {V : Type ℓ} where
  unfoldable pub empty : Map V
  empty k = none

  unfoldable pub put : String → V → Map V → Map V
  put k v m j = if str_eq k j then some v else m j

  unfoldable pub erase : String → Map V → Map V
  erase k m j = if str_eq k j then none else m j

  pub put_self : (k : String) (v : V) (m : Map V) → put k v m k ≡ some v
  unfolding put
  put_self k v m = ground (arith, eq_iff k k)

  pub put_ne : (k j : String) (v : V) (m : Map V) → k ≢ j → put k v m j ≡ m j
  unfolding put
  put_ne k j v m h = ground (arith, eq_iff k j)

  pub erase_self : (k : String) (m : Map V) → erase k m k ≡ none
  unfolding erase
  erase_self k m = ground (arith, eq_iff k k)

  pub erase_ne : (k j : String) (m : Map V) → k ≢ j → erase k m j ≡ m j
  unfolding erase
  erase_ne k j m h = ground (arith, eq_iff k j)
