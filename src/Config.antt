-- ===== src/Config.antt =====
-- The configuration of gstop, internal/config: Load on the lines of a file, the overrides of the
-- command line and the clamp of main.interval.
pub mod Keys
pub mod Values
pub mod Lines
mod Loading
mod Examples
use gstop.Base.{ℕ, Bool, true, false, ◌&&◌, List, [], ◌∷◌, Option, none, some, if◌then◌else◌}
use Keys.{Bytes, ℤ, pos, ltℤ, Value, int, float, bool, text, table, Tree, get, set_path}
use Values.{GoStrings}
use Lines.{Loaded, loaded, failed, set_dotted, load_file}

pub record Args : Type 0 where
  pub interval : Option ℤ
  pub log_interval : Option ℤ
  pub user : Option Bytes
  pub port : Option ℤ
  pub database : Option Bytes
  pub daemon : Option Bool

-- The fields of Args that override a key, and the last segment of their keys.
pub data Argument : Type 0 where
  of_interval of_log_interval of_user of_port of_database of_daemon : Argument

abbrev pub main_word : Bytes
main_word = b'm' ∷ b'a' ∷ b'i' ∷ b'n' ∷ []

abbrev pub interval_word : Bytes
interval_word = b'i' ∷ b'n' ∷ b't' ∷ b'e' ∷ b'r' ∷ b'v' ∷ b'a' ∷ b'l' ∷ []

abbrev pub log_interval_word : Bytes
log_interval_word =
    b'l' ∷ b'o' ∷ b'g' ∷ b'_' ∷ b'i' ∷ b'n' ∷ b't' ∷ b'e' ∷ b'r' ∷ b'v' ∷ b'a' ∷ b'l' ∷ []

abbrev pub word : Argument → Bytes
word of_interval = interval_word
word of_log_interval = log_interval_word
word of_user = b'u' ∷ b's' ∷ b'e' ∷ b'r' ∷ []
word of_port = b'p' ∷ b'o' ∷ b'r' ∷ b't' ∷ []
word of_database = b'd' ∷ b'a' ∷ b't' ∷ b'a' ∷ b'b' ∷ b'a' ∷ b's' ∷ b'e' ∷ []
word of_daemon = b'd' ∷ b'a' ∷ b'e' ∷ b'm' ∷ b'o' ∷ b'n' ∷ []

abbrev pub as_value : {A F : Type 0} → (A → Value F) → Option A → Option (Value F)
as_value f none = none
as_value f (some a) = some (f a)

-- What the map of the overrides holds under the key of an argument.
unfoldable pub override : {F : Type 0} → Args → Argument → Option (Value F)
override a of_interval = as_value int a.interval
override a of_log_interval = as_value int a.log_interval
override a of_user = as_value text a.user
override a of_port = as_value int a.port
override a of_database = as_value text a.database
override a of_daemon = as_value bool a.daemon

abbrev pub set_override : {F : Type 0} → Argument → Option (Value F) → Tree F → Tree F
set_override x none t = t
set_override x (some v) t = set_path main_word (word x ∷ []) v t

-- The loop over the map, in the order in which Go ranges over it.
unfoldable pub apply_overrides : {F : Type 0} → Args → List Argument → Tree F → Tree F
apply_overrides a [] t = t
apply_overrides a (x ∷ order) t = apply_overrides a order (set_override x (override a x) t)

unfoldable pub int_from : {F : Type 0} → GoStrings F → Option (Value F) → Option ℤ
int_from go (some (int n)) = some n
int_from go (some (float x)) = some (go.truncate x)
int_from go _ = none

unfoldable pub clamp : {F : Type 0} → Option ℤ → Option ℤ → Tree F → Tree F
clamp (some interval) (some log_interval) t =
    if ltℤ (pos 0) log_interval && ltℤ log_interval interval
    then set_path main_word (interval_word ∷ []) (int log_interval) t
    else t
clamp (some interval) none t = t
clamp none log_interval t = t

abbrev pub main_get : {F : Type 0} → Bytes → Tree F → Option (Value F)
main_get option t = get (main_word ∷ option ∷ []) (table t)

unfoldable pub post_process : {F : Type 0} → GoStrings F → Tree F → Tree F
post_process go t =
    clamp (int_from go (main_get interval_word t)) (int_from go (main_get log_interval_word t)) t

abbrev pub finish :
    {F : Type 0} → GoStrings F → Args → List Argument → Loaded (Tree F) → Loaded (Tree F)
finish go a order (loaded t) = loaded (post_process go (apply_overrides a order t))
finish go a order (failed e) = failed e

unfoldable pub load :
    {F : Type 0} → GoStrings F → List Bytes → Args → List Argument → Loaded (Tree F)
load go lines a order = finish go a order (load_file go lines)
