-- ===== src/Tests/Named.antt =====
-- circuitbreaker.go on concrete inputs.
use j_circuit_breaker.Base.{ℕ, ◌≡◌, refl, arith, List, [], ◌∷◌, Option, some, none, false, ◌⊎◌, All}
use j_circuit_breaker.Config.{Config, is_valid_config, new_default_config}
use j_circuit_breaker.Clock.{Clock}
use j_circuit_breaker.Events.{Name}
use j_circuit_breaker.Registry.{
  Registry, ok, get, get_missing, get_existing, is_blank, load, same_name, new_circuit_breaker,
  load_or_store, check_all, update_configs, BatchError,
}
use j_circuit_breaker.Registry.Lookup.{get_missing_race}
use j_circuit_breaker.Registry.History.{
  Call, gets, stores, forces_open, updates, updates_all, step, run, get-get,
}
use j_circuit_breaker.Registry.Updated.{Updated}
use j_circuit_breaker.Registry.Batch.{
  IsValid, Below, Sound, TellsSome, update_configs-all_or_nothing,
}

abbrev at_hundred : Clock
at_hundred = record { now_in_ms = 100000; monotonic_nanos = 7000000000; wall_nanos = 100000000000 }

abbrev fresh : Registry
fresh = record { breakers = []; names = [] }

-- "db"
abbrev db : Name
db = 100 ∷ 98 ∷ []

-- The batch changes the breaker's setting.
abbrev brisk : Config
brisk = record new_default_config { minimum_number_of_calls = 1 }

abbrev batch : List (Name × Option Config)
batch = (db, some brisk) ∷ []

abbrev after_first : Registry
after_first = (get db none at_hundred fresh).1

-- The first call of Get makes a breaker and stores it.
first_get : get db none at_hundred fresh ≡ (ok 0, after_first)
unfolding get get_missing load new_circuit_breaker load_or_store is_valid_config new_default_config
first_get = refl

named : is_blank db ≡ false
unfolding is_blank
named = refl

-- "x"
abbrev other : Name
other = 120 ∷ []

-- Other calls, also a Get by another name.
abbrev calls : List (Call × Clock)
calls =
    (gets other none, at_hundred)
    ∷ (forces_open db, at_hundred)
    ∷ (updates db (some brisk), at_hundred)
    ∷ (stores db none, at_hundred)
    ∷ (updates_all batch, at_hundred)
    ∷ []

abbrev or_fresh : Option Registry → Registry
or_fresh none = fresh
or_fresh (some r) = r

abbrev after_calls : Registry
after_calls = or_fresh (run after_first calls)

calls_return : run after_first calls ≡ some after_calls
unfolding run step j_circuit_breaker.Breaker.load_state j_circuit_breaker.Breaker.store_state
    j_circuit_breaker.Breaker.load_limiter j_circuit_breaker.Breaker.store_limiter
    j_circuit_breaker.Breaker.perform j_circuit_breaker.Breaker.Transition.update_config
    j_circuit_breaker.Breaker.Transition.update_setting
    j_circuit_breaker.Breaker.Transition.change_state
    j_circuit_breaker.Breaker.Transition.get_state_snapshot
    j_circuit_breaker.Breaker.Transition.limiter_count j_circuit_breaker.Breaker.Transition.notify
    j_circuit_breaker.Breaker.Transition.on_request_complete
    j_circuit_breaker.Breaker.Transition.outcome_of j_circuit_breaker.Breaker.Transition.transition
    j_circuit_breaker.Breaker.Transition.force_open j_circuit_breaker.Config.is_valid_config
    j_circuit_breaker.Config.is_equal j_circuit_breaker.Config.fill_defaults_and_get_setting
    j_circuit_breaker.Config.new_default_config j_circuit_breaker.Registry.force_open
    j_circuit_breaker.Registry.by_name j_circuit_breaker.Registry.on_breaker
    j_circuit_breaker.Registry.update_config_of j_circuit_breaker.Registry.update_configs
    j_circuit_breaker.Registry.check_all j_circuit_breaker.Registry.update_all
    j_circuit_breaker.Registry.load j_circuit_breaker.Registry.get
    j_circuit_breaker.Registry.get_missing j_circuit_breaker.Registry.load_or_store
    j_circuit_breaker.Registry.is_blank j_circuit_breaker.Registry.same_name
    j_circuit_breaker.Registry.new_circuit_breaker j_circuit_breaker.Registry.zero_breaker
    j_circuit_breaker.State.new_closed_state j_circuit_breaker.State.get_window_snapshot
    j_circuit_breaker.State.new_state_instance j_circuit_breaker.State.checks_max_concurrency
    j_circuit_breaker.State.mode_type j_circuit_breaker.Limiter.new_concurrency_limiter
    j_circuit_breaker.Clock.unix_now j_circuit_breaker.Clock.current_time
    j_circuit_breaker.Clock.current_cached_time_seconds j_circuit_breaker.Constants.is_forced
    j_circuit_breaker.Constants.same_state j_circuit_breaker.Constants.valid_automatic
    j_circuit_breaker.Window.Metric.get_snapshot j_circuit_breaker.Window.Time.get_snapshot
    j_circuit_breaker.Window.Time.new_time_window j_circuit_breaker.Window.Time.fill_buckets
    j_circuit_breaker.Window.Time.move_by j_circuit_breaker.Window.new_snapshot
    j_circuit_breaker.Window.add j_circuit_breaker.Events.set_breaker_state_metric
    j_circuit_breaker.Events.set_thresholds_metrics
    j_circuit_breaker.Events.set_window_snapshot_metrics
    j_circuit_breaker.Events.add_request_total_metric
calls_return = refl

get-get_example :
    (get db (some new_default_config) at_hundred after_calls ≡ (ok 0, after_calls))
    × (get_existing db after_calls ≡ some 0)
get-get_example =
    get-get db none (some new_default_config) at_hundred at_hundred fresh after_first after_calls 0
      calls named first_get calls_return

abbrev after_race : Registry
after_race = (get_missing db none at_hundred after_first).1

won : get_missing db none at_hundred fresh ≡ (ok 0, after_first)
unfolding get get_missing load new_circuit_breaker load_or_store is_valid_config new_default_config
won = refl

lost : get_missing db none at_hundred after_first ≡ (ok 0, after_race)
unfolding get get_missing load new_circuit_breaker load_or_store is_valid_config new_default_config
    same_name
lost = refl

get_missing_race_example : ◌≡◌ {A = ℕ} 0 0
get_missing_race_example =
    get_missing_race db none none at_hundred at_hundred fresh after_first after_race 0 0 won lost

after_first-IsValid : IsValid after_first
unfolding IsValid Below get get_missing load new_circuit_breaker load_or_store is_valid_config
    new_default_config
after_first-IsValid = ground arith

update_configs-all_or_nothing_example :
    ((e : BatchError) × (update_configs batch at_hundred after_first ≡ some (some e, after_first))
      × TellsSome after_first batch e)
    ⊎ ((r' : Registry) × (update_configs batch at_hundred after_first ≡ some (none, r'))
        × All (Sound after_first) batch
        × Updated batch after_first r'
        × (r'.names ≡ after_first.names)
        × IsValid r')
update_configs-all_or_nothing_example =
    update_configs-all_or_nothing batch at_hundred after_first after_first-IsValid
