-- ===== src/Tests/States.antt =====
-- state.go on concrete inputs.
use j_circuit_breaker.Base.{◌≡◌, refl, true, false, some, none, if◌then◌else◌, leb, ◌&&◌, not}
use j_circuit_breaker.Constants.{semi_open, wait_in_open_elapsed, valid_automatic, is_forced}
use j_circuit_breaker.Config.{new_default_config, Setting, fill_defaults_and_get_setting}
use j_circuit_breaker.Clock.{Clock, Timer, try_receive}
use j_circuit_breaker.Window.{WindowSnapshot, empty_snapshot}
use j_circuit_breaker.State.{open_mode, decide, mode_type, on_request_start}
use j_circuit_breaker.State.Decisions.{decide_allowed, open_asks_once}

abbrev default_setting : Setting
default_setting = fill_defaults_and_get_setting new_default_config

abbrev failing : WindowSnapshot
failing = record empty_snapshot { total_count = 20; error_count = 15; error_percent = 75 }

abbrev at_hundred : Clock
at_hundred = record { now_in_ms = 100000; monotonic_nanos = 7000000000; wall_nanos = 100000000000 }

abbrev at_ninety : Clock
at_ninety = record { now_in_ms = 90000; monotonic_nanos = 2000000000; wall_nanos = 90000000000 }

abbrev five_seconds : Timer
five_seconds = record { when = 5000000000; received = false }

fired :
    (decide (open_mode five_seconds) empty_snapshot on_request_start at_hundred).0
    ≡ some (semi_open, wait_in_open_elapsed)
unfolding decide try_receive
fired = refl

decide_allowed_example :
    (valid_automatic (mode_type (open_mode five_seconds)) semi_open ≡ true)
    × (is_forced wait_in_open_elapsed ≡ false)
    × (mode_type (decide (open_mode five_seconds) empty_snapshot on_request_start at_hundred).1
        ≡ mode_type (open_mode five_seconds))
decide_allowed_example =
    decide_allowed (open_mode five_seconds) empty_snapshot on_request_start at_hundred semi_open
      wait_in_open_elapsed fired

open_asks_once_example :
    let (d, m) = decide (open_mode five_seconds) empty_snapshot on_request_start at_ninety in
    let fires =
      λ (k : Clock). not five_seconds.received && leb five_seconds.when k.monotonic_nanos in
    (d ≡ (if fires at_ninety then some (semi_open, wait_in_open_elapsed) else none))
    × ((decide m empty_snapshot on_request_start at_hundred).0 ≡ (
        if fires at_hundred && not (fires at_ninety)
        then some (semi_open, wait_in_open_elapsed)
        else none))
open_asks_once_example =
    open_asks_once five_seconds empty_snapshot empty_snapshot at_ninety at_hundred
