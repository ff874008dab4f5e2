-- ===== src/Options.antt =====
-- option.go: the options of EnterWithContext and ProtectWithContext. An option object of the pool is reset
-- when it is taken out, so it is a new record here.
use j_circuit_breaker.Base.{ℕ, List, [], ◌∷◌, Option, none}
use j_circuit_breaker.Constants.{Err}

-- A FallbackFunc, without its effects: the error that it returns (`none` is nil).
abbrev pub FallbackFunc : Type 0
FallbackFunc = Err → Option Err

pub record Options : Type 0 where
  pub amplify_factor : ℕ
  pub fallback_func : Option FallbackFunc

-- newOption, which resets what the pool gives.
unfoldable pub new_option : Options
new_option = record { amplify_factor = 1; fallback_func = none }

pub data ProtectOption : Type 0 where
  with_amplifying_factor : ℕ → ProtectOption
  with_fallback_function : Option FallbackFunc → ProtectOption

unfoldable pub apply_protect_option : Options → ProtectOption → Options
apply_protect_option o (with_amplifying_factor factor) = record o { amplify_factor = factor }
apply_protect_option o (with_fallback_function f) = record o { fallback_func = f }

unfoldable pub apply_all : Options → List ProtectOption → Options
apply_all o [] = o
apply_all o (p ∷ ps) = apply_all (apply_protect_option o p) ps

-- The one EntryOption is WithAmplifyingFactor.
pub data EntryOption : Type 0 where
  entry_amplifying_factor : ℕ → EntryOption

unfoldable pub apply_entry_options : Options → List EntryOption → Options
apply_entry_options o [] = o
apply_entry_options o (entry_amplifying_factor factor ∷ es) =
    apply_entry_options (record o { amplify_factor = factor }) es
