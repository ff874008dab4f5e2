-- ===== src/Breaker/Updates.antt =====
-- UpdateConfig of cb.go: which updates change a breaker.
use j_circuit_breaker.Base.{
  ◌≡◌, refl, sym, ap, ◌∙◌, true, some, none, arith, slt64, Bool-cases, inl, inr,
}
use j_circuit_breaker.Config.{
  Config, is_equal, is_valid_config, filled, fill_defaults_and_get_setting,
}
use j_circuit_breaker.Config.Defaults.{is_equal_iff, filled_disabled}
use j_circuit_breaker.Clock.{Clock}
use j_circuit_breaker.Breaker.{Breaker}
use j_circuit_breaker.Breaker.Transition.{update_setting, update_config}

is_equal_refl : (c : Config) → is_equal c c ≡ true
is_equal_refl c = (is_equal_iff c c).1 refl

update_setting_equal :
    (c : Config) (clock : Clock) (b : Breaker)
    → is_equal (fill_defaults_and_get_setting c).config b.setting.config ≡ true
    → update_setting c clock b ≡ b
unfolding update_setting
update_setting_equal c clock b e = ground (arith, e)

update_setting_config :
    (c : Config) (clock : Clock) (b : Breaker)
    → (update_setting c clock b).setting.config ≡ (fill_defaults_and_get_setting c).config
unfolding update_setting
update_setting_config c clock b =
    elim (Bool-cases (is_equal (fill_defaults_and_get_setting c).config b.setting.config)) [
      | inl e ↦
          ground
            (arith, e, (is_equal_iff (fill_defaults_and_get_setting c).config b.setting.config).0 e)
      | inr e ↦ ground (arith, e)
    ]

-- Once a breaker was given a setting, to give it a configuration with the same values again changes
-- nothing, at any time: the state, its window and the limiter stay.
pub update_setting_again :
    (c : Config) (clock clock' : Clock) (b : Breaker)
    → update_setting c clock' (update_setting c clock b) ≡ update_setting c clock b
update_setting_again c clock clock' b =
    update_setting_equal c clock' (update_setting c clock b)
      ((is_equal_iff _ _).1 (sym (update_setting_config c clock b)))

-- On a breaker that was set up with the default error threshold, an accepted UpdateConfig that does nothing but
-- switch the error check off returns nil and changes nothing: the breaker goes on checking errors.
pub update_config_disabled :
    (c : Config) (clock : Clock) (b : Breaker)
    → slt64 c.error_percent_threshold 0 ≡ true
    → is_valid_config (some c) ≡ none
    → b.setting ≡ fill_defaults_and_get_setting (record c { error_percent_threshold = 50 })
    → update_config (some c) clock b ≡ (none, b)
unfolding update_config fill_defaults_and_get_setting
update_config_disabled c clock b off valid set_up =
    let same : filled c ≡ b.setting.config =
      (filled_disabled c off).0 ∙ sym (ap (λ s. s.config) set_up) in
    let equal = (is_equal_iff (filled c) b.setting.config).1 same in
    ap (λ v. elim v [ some e ↦ (some e, b) | none ↦ (none, update_setting c clock b) ]) valid
    ∙ ap (λ u. (none, u)) (update_setting_equal c clock b equal)
