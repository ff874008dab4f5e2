-- ===== src/Config/Thresholds.antt =====
-- health_checker.go: when a snapshot exceeds the thresholds of a breaker's setting.
use j_circuit_breaker.Base.{
  ◌≡◌, Bool, true, false, ◌&&◌, ◌||◌, not, slt64, sle64, ◌==◌, arith, if◌then◌else◌,
}
use j_circuit_breaker.Constants.{
  error_threshold_exceeded, timeout_threshold_exceeded, invalid_transition,
}
use j_circuit_breaker.Config.{Config, filled, fill_defaults_and_get_setting, is_thresholds_exceed}
use j_circuit_breaker.Window.{WindowSnapshot}

-- Error checking is on for a positive threshold, and for 0 unless timeouts are checked instead.
pub errors_checked : Config → Bool
errors_checked c =
    slt64 0 c.error_percent_threshold
    || (c.error_percent_threshold == 0 && not (slt64 0 c.timeout_percent_threshold))

pub timeouts_checked : Config → Bool
timeouts_checked c = slt64 0 c.timeout_percent_threshold

pub errors_exceeded : Config → WindowSnapshot → Bool
errors_exceeded c w = errors_checked c && sle64 (filled c).error_percent_threshold w.error_percent

pub timeouts_exceeded : Config → WindowSnapshot → Bool
timeouts_exceeded c w =
    timeouts_checked c && sle64 (filled c).timeout_percent_threshold w.timeout_percent

-- The thresholds of a breaker are exceeded by a snapshot exactly when the error percentage reaches the
-- threshold in use and errors are checked, or the timeout percentage does and timeouts are checked; the
-- reason names the errors if both do.
pub is_thresholds_exceed_lem :
    (c : Config) (w : WindowSnapshot)
    → is_thresholds_exceed (fill_defaults_and_get_setting c) w ≡ (
        if errors_exceeded c w
        then (true, error_threshold_exceeded)
        else if timeouts_exceeded c w
        then (true, timeout_threshold_exceeded)
        else (false, invalid_transition))
unfolding is_thresholds_exceed fill_defaults_and_get_setting errors_exceeded timeouts_exceeded
    errors_checked timeouts_checked
is_thresholds_exceed_lem c w = ground arith
