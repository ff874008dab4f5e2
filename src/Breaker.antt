-- ===== src/Breaker.antt =====
-- cb.go: the breaker, its parts and the primitive accesses to them. The objects that entries share with the
-- breaker (states, limiters) live in a store, and a pointer is an index into it; a nil pointer is an index
-- that is not there. updateLock is held over each of the sections below.
pub mod Transition
pub mod Enter
pub mod Exit
pub mod Updates
pub mod Panics
pub mod Sound
pub mod Returns
pub mod Calls
pub mod Exits
pub mod Decided
pub mod Opening
pub mod Blocking
pub mod Admission
pub mod Session
pub mod Updating
pub mod Serving
pub mod Running
pub mod Protecting
pub mod Edges
pub mod Automatic
pub mod Entries
pub mod Runs
pub mod Moves
use j_circuit_breaker.Base.{
  ℕ, List, [], ◌∷◌, ◌++◌, Option, none, some, get_elem?, set, length, Bool, if◌then◌else◌,
}
use j_circuit_breaker.Config.{Setting}
use j_circuit_breaker.State.{StateObject}
use j_circuit_breaker.Limiter.{Limiter}
use j_circuit_breaker.Events.{Name, Effect}

pub record Breaker : Type 0 where
  pub name : Name
  pub setting : Setting
  pub state : ℕ
  pub concurrency_limiter : ℕ
  pub listener : Option ℕ
  pub states : List StateObject
  pub limiters : List Limiter
  pub effects : List Effect

-- Code that reads and writes the breaker; `none` is a panic.
abbrev pub M : Type 0 → Type 0
M A = Breaker → Option (A × Breaker)

infixl 5 ◌>>=◌ ◌>>◌
abbrev pub ◌>>=◌ : {A B : Type 0} → M A → (A → M B) → M B
◌>>=◌ m f b = elim (m b) [ none ↦ none | some (a, b') ↦ f a b' ]

abbrev pub ◌>>◌ : {B : Type 0} → M (Unit {0}) → M B → M B
◌>>◌ m k b = elim (m b) [ none ↦ none | some (_, b') ↦ k b' ]

abbrev pub return : {A : Type 0} → A → M A
return a b = some (a, b)

abbrev pub lift : {A : Type 0} → Option A → M A
lift none b = none
lift (some a) b = some (a, b)

abbrev pub get : M Breaker
get b = some (b, b)

abbrev pub put : Breaker → M (Unit {0})
put b' b = some (tt, b')

unfoldable pub load_state : ℕ → M StateObject
load_state p b = lift (get_elem? b.states p) b

unfoldable pub store_state : ℕ → StateObject → M (Unit {0})
store_state p o b = some (tt, record b { states = set b.states p o })

unfoldable pub load_limiter : ℕ → M Limiter
load_limiter p b = lift (get_elem? b.limiters p) b

unfoldable pub store_limiter : ℕ → Limiter → M (Unit {0})
store_limiter p l b = some (tt, record b { limiters = set b.limiters p l })

unfoldable pub perform : List Effect → M (Unit {0})
perform es b = some (tt, record b { effects = b.effects ++ es })

abbrev pub when : Bool → M (Unit {0}) → M (Unit {0})
when c m = if c then m else return tt
