-- ===== src/Tests/Settings.antt =====
-- config.go and health_checker.go on concrete inputs.
use j_circuit_breaker.Base.{◌≡◌, refl, arith, true, false, some, none, if◌then◌else◌, ◌^◌, ◌-◌, ◌↔◌}
use j_circuit_breaker.Constants.{
  error_threshold_exceeded, timeout_threshold_exceeded, invalid_transition,
}
use j_circuit_breaker.Config.{
  Config, new_default_config, is_valid_config, filled, is_thresholds_exceed,
  fill_defaults_and_get_setting,
}
use j_circuit_breaker.Config.Defaults.{
  Fits, IsUsable, filled-IsUsable, InRange, is_valid_config_iff,
}
use j_circuit_breaker.Config.Thresholds.{
  errors_exceeded, timeouts_exceeded, is_thresholds_exceed_lem,
}
use j_circuit_breaker.Window.{WindowSnapshot, empty_snapshot}

-- A negative percentage switches the error check off.
abbrev errors_off : Config
errors_off = record new_default_config { error_percent_threshold = 2 ^ 64 - 1 }

errors_off-Fits : Fits errors_off
unfolding new_default_config
errors_off-Fits = record {
  error_percent = omega arith;
  timeout_percent = omega arith;
  timeout = omega arith;
  minimum = omega arith;
  semi_open = omega arith;
  wait = omega arith;
  concurrent = omega arith;
  max_wait = omega arith;
  window = omega arith;
}

errors_off_valid : is_valid_config (some errors_off) ≡ none
unfolding is_valid_config new_default_config
errors_off_valid = refl

filled-IsUsable_example : IsUsable (filled errors_off)
filled-IsUsable_example = filled-IsUsable errors_off errors_off-Fits errors_off_valid

is_valid_config_iff_example : (is_valid_config (some errors_off) ≡ none) ↔ InRange errors_off
is_valid_config_iff_example = is_valid_config_iff errors_off errors_off-Fits

abbrev half_failed : WindowSnapshot
half_failed = record empty_snapshot { total_count = 20; error_count = 10; error_percent = 50 }

is_thresholds_exceed_lem_example :
    is_thresholds_exceed (fill_defaults_and_get_setting new_default_config) half_failed ≡ (
      if errors_exceeded new_default_config half_failed
      then (true, error_threshold_exceeded)
      else if timeouts_exceeded new_default_config half_failed
      then (true, timeout_threshold_exceeded)
      else (false, invalid_transition))
is_thresholds_exceed_lem_example = is_thresholds_exceed_lem new_default_config half_failed
