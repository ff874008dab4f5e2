-- ===== src/Registry.antt =====
-- circuitbreaker.go and newCircuitBreaker of cb.go: the breakers by name. `breakers` holds every breaker
-- that was made, and a pointer is an index into it; `names` is breakersSyncMap. A Go map that is iterated
-- is a list of its entries, in the order in which the iteration meets them.
pub mod Lookup
pub mod Updated
pub mod Batch
pub mod Names
pub mod History
pub mod Serving
pub mod Clearing
use j_circuit_breaker.Base.{
  ℕ, Bool, true, false, ◌&&◌, ◌||◌, leb, ◌==◌, List, [], ◌∷◌, ◌++◌, Option, none, some, get_elem?,
  set, length, ◌>>=◌, if◌then◌else◌,
}
use j_circuit_breaker.Constants.{Err, circuit, err_breaker_not_found}
use j_circuit_breaker.Config.{Config, Setting, is_valid_config, new_default_config}
use j_circuit_breaker.Clock.{Clock}
use j_circuit_breaker.Events.{Name}
use j_circuit_breaker.Breaker.{Breaker, M}
use j_circuit_breaker.Breaker.Transition.{
  update_setting, update_config, force_open as cb_force_open, force_close as cb_force_close,
  reset as cb_reset,
}

pub record Registry : Type 0 where
  pub breakers : List Breaker
  pub names : List (Name × ℕ)

pub data Result {ℓ} (A : Type ℓ) : Type ℓ where
  ok : A → Result A
  err : Err → Result A

-- The zero value of Config.
abbrev pub zero_config : Config
zero_config = record {
  error_percent_threshold = 0;
  timeout_percent_threshold = 0;
  timeout_threshold = 0;
  minimum_number_of_calls = 0;
  number_of_calls_in_semi_open_state = 0;
  wait_duration_in_open_state = 0;
  max_concurrent_calls = 0;
  max_wait_duration_millis = 0;
  sliding_window_size = 0;
  use_cached_time = false;
  metric_config = record { is_disabled = false };
}

-- `&CircuitBreaker{name: name}`: the other fields have their zero values.
unfoldable pub zero_breaker : Name → Breaker
zero_breaker name = record {
  name = name;
  setting = record { config = zero_config; checkers = [] };
  state = 0;
  concurrency_limiter = 0;
  listener = none;
  states = [];
  limiters = [];
  effects = [];
}

abbrev pub or_new_default : Option Config → Config
or_new_default none = new_default_config
or_new_default (some c) = c

unfoldable pub new_circuit_breaker : Name → Option Config → Clock → Result Breaker
unfolding zero_breaker
new_circuit_breaker name config clock =
    let c = or_new_default config in
    elim (is_valid_config (some c)) [
      | some e ↦ err e
      | none ↦ ok (update_setting c clock (zero_breaker name))
    ]

unfoldable pub same_name : Name → Name → Bool
same_name [] [] = true
same_name [] (_ ∷ _) = false
same_name (_ ∷ _) [] = false
same_name (a ∷ as') (b ∷ bs) = a == b && same_name as' bs

-- breakersSyncMap.Load
unfoldable pub load : Name → List (Name × ℕ) → Option ℕ
unfolding same_name
load name [] = none
load name ((k, p) ∷ m) = if same_name k name then some p else load name m

-- unicode.IsSpace, by which strings.TrimSpace trims.
unfoldable pub is_space : ℕ → Bool
is_space c =
    leb 9 c && leb c 13
    || c == 32
    || c == 0x85
    || c == 0xa0
    || c == 0x1680
    || leb 0x2000 c && leb c 0x200a
    || c == 0x2028
    || c == 0x2029
    || c == 0x202f
    || c == 0x205f
    || c == 0x3000

-- len(strings.TrimSpace(name)) == 0
unfoldable pub is_blank : Name → Bool
unfolding is_space
is_blank [] = true
is_blank (c ∷ cs) = is_space c && is_blank cs

abbrev allocate : Breaker → Registry → Registry
allocate b r = record r { breakers = r.breakers ++ b ∷ [] }

-- breakersSyncMap.LoadOrStore with a breaker that was just made: the pointer that is in the map after it.
unfoldable pub load_or_store : Name → Breaker → Registry → ℕ × Registry
load_or_store name b r = elim (load name r.names) [
  | some p ↦ (p, allocate b r)
  | none ↦ (
    length r.breakers,
    record r { breakers = r.breakers ++ b ∷ []; names = (name, length r.breakers) ∷ r.names },
  )
]

-- The part of Get after its Load found nothing. Other callers may have changed the registry since then.
unfoldable pub get_missing : Name → Option Config → Clock → Registry → Result ℕ × Registry
get_missing name config clock r = elim (new_circuit_breaker name config clock) [
  | err e ↦ (err e, r)
  | ok b ↦ let (p, r') = load_or_store name b r in (ok p, r')
]

abbrev made : Result Breaker → Registry → Result ℕ × Registry
made (err e) r = (err e, r)
made (ok b) r = (ok (length r.breakers), allocate b r)

unfoldable pub get : Name → Option Config → Clock → Registry → Result ℕ × Registry
unfolding is_blank
get name config clock r =
    if is_blank name
    then made (new_circuit_breaker name config clock) r
    else elim (load name r.names) [ some p ↦ (ok p, r) | none ↦ get_missing name config clock r ]

unfoldable pub get_existing : Name → Registry → Option ℕ
get_existing name r = load name r.names

-- A method is called through a pointer; `none` is a panic.
unfoldable pub on_breaker {ℓ} :
    {A : Type ℓ} → ℕ → (Breaker → Option (A × Breaker)) → Registry → Option (A × Registry)
on_breaker p m r = do
  b ← get_elem? r.breakers p
  (a, b') ← m b
  some (a, record r { breakers = set r.breakers p b' })

-- The functions that look a breaker up, and return ErrBreakerNotFound or nil.
unfoldable pub by_name : Name → M (Unit {0}) → Registry → Option (Option Err × Registry)
unfolding on_breaker
by_name name m r = elim (load name r.names) [
  | none ↦ some (some (circuit err_breaker_not_found), r)
  | some p ↦ on_breaker p m r >>= λ (_, r'). some (none, r')
]

unfoldable pub force_open : Name → Clock → Registry → Option (Option Err × Registry)
unfolding by_name
force_open name clock = by_name name (cb_force_open clock)

unfoldable pub force_close : Name → Clock → Registry → Option (Option Err × Registry)
unfolding by_name
force_close name clock = by_name name (cb_force_close clock)

unfoldable pub reset : Name → Clock → Registry → Option (Option Err × Registry)
unfolding by_name
reset name clock = by_name name (cb_reset clock)

unfoldable pub update_config_of :
    Name → Option Config → Clock → Registry → Option (Option Err × Registry)
unfolding on_breaker
update_config_of name config clock r = elim (load name r.names) [
  | none ↦ some (some (circuit err_breaker_not_found), r)
  | some p ↦ on_breaker p (λ b. some (update_config config clock b)) r
]

-- The errors that UpdateConfigs makes, each with the breaker's name in front.
pub data BatchError : Type 0 where
  breaker_not_found : Name → BatchError
  config_error : Name → Err → BatchError

-- The first loop of UpdateConfigs.
unfoldable pub check_all : List (Name × Option Config) → Registry → Option BatchError
check_all [] r = none
check_all ((k, v) ∷ m) r = elim (load k r.names) [
  | none ↦ some (breaker_not_found k)
  | some _ ↦ elim (is_valid_config v) [ some e ↦ some (config_error k e) | none ↦ check_all m r ]
]

-- The second loop; a nil pointer or config would be a panic.
unfoldable pub update_all : List (Name × Option Config) → Clock → Registry → Option Registry
update_all [] clock r = some r
update_all ((k, v) ∷ m) clock r = do
  p ← load k r.names
  c ← v
  b ← get_elem? r.breakers p
  update_all m clock (record r { breakers = set r.breakers p (update_setting c clock b) })

unfoldable pub update_configs :
    List (Name × Option Config) → Clock → Registry → Option (Option BatchError × Registry)
update_configs m clock r = elim (check_all m r) [
  | some e ↦ some (some e, r)
  | none ↦ update_all m clock r >>= λ r'. some (none, r')
]

-- breakersSyncMap.Delete
unfoldable pub delete : Name → List (Name × ℕ) → List (Name × ℕ)
delete name [] = []
delete name ((k, p) ∷ m) = if same_name k name then delete name m else (k, p) ∷ delete name m

-- The iteration of resetBreakers, over the entries that the map had at first.
unfoldable pub reset_all : List (Name × ℕ) → Clock → Registry → Option Registry
unfolding on_breaker
reset_all [] clock r = some r
reset_all ((k, p) ∷ m) clock r = do
  (_, r') ← on_breaker p (cb_reset clock) r
  reset_all m clock (record r' { names = delete k r'.names })

unfoldable pub reset_breakers : Clock → Registry → Option Registry
reset_breakers clock r = reset_all r.names clock r
