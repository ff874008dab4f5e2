-- ===== src/Registry/History.antt =====
-- Calls of the functions of circuitbreaker.go, and of methods of the breakers, in any order: what becomes of the names.
-- resetBreakers, which takes all names away, is not among them.
use j_circuit_breaker.Base.{
  ℕ, ◌≡◌, refl, sym, ap, ap₂, ◌∙◌, true, false, List, [], ◌∷◌, Option, none, some, arith,
  Bool-cases, Option-cases, inl, inr, subst,
}
use j_circuit_breaker.Config.{Config}
use j_circuit_breaker.Clock.{Clock}
use j_circuit_breaker.Events.{Name}
use j_circuit_breaker.Breaker.{M}
use j_circuit_breaker.Registry.{
  Registry, ok, same_name, load, is_blank, get_missing, get, get_existing, on_breaker, force_open,
  force_close, reset, update_config_of, update_configs,
}
use j_circuit_breaker.Registry.Lookup.{load-get_missing}
use j_circuit_breaker.Registry.Names.{
  after, Grown, get_missing-Grown, get-Grown, on_breaker-names, by_name-names,
  update_config_of-names, update_configs-names,
}

-- `stores` is the rest of a Get whose Load had found nothing, `works` any method that a caller calls through a pointer.
pub data Call : Type 0 where
  gets stores : Name → Option Config → Call
  forces_open forces_closed resets : Name → Call
  updates : Name → Option Config → Call
  updates_all : List (Name × Option Config) → Call
  works : ℕ → M (Unit {0}) → Call

unfoldable pub step : Registry → Call → Clock → Option Registry
step r (gets name config) clock = some (get name config clock r).1
step r (stores name config) clock = some (get_missing name config clock r).1
step r (forces_open name) clock = after (force_open name clock r)
step r (forces_closed name) clock = after (force_close name clock r)
step r (resets name) clock = after (reset name clock r)
step r (updates name config) clock = after (update_config_of name config clock r)
step r (updates_all m) clock = after (update_configs m clock r)
step r (works p m) clock = after (on_breaker p m r)

-- `none` is a panic.
unfoldable pub run : Registry → List (Call × Clock) → Option Registry
run r [] = some r
run r ((call, clock) ∷ calls) = elim (step r call clock) [ none ↦ none | some r' ↦ run r' calls ]

step-Grown :
    (r r' : Registry) (call : Call) (clock : Clock) → step r call clock ≡ some r' → Grown r r'
unfolding step force_open force_close reset
step-Grown r r' (gets name config) clock h =
    let same : (get name config clock r).1 ≡ r' = cc in
    subst (Grown r) same (get-Grown name config clock r)
step-Grown r r' (stores name config) clock h =
    let same : (get_missing name config clock r).1 ≡ r' = cc in
    subst (Grown r) same (get_missing-Grown name config clock r)
step-Grown r r' (forces_open name) clock h = inl (by_name-names name _ r r' h)
step-Grown r r' (forces_closed name) clock h = inl (by_name-names name _ r r' h)
step-Grown r r' (resets name) clock h = inl (by_name-names name _ r r' h)
step-Grown r r' (updates name config) clock h =
    inl (update_config_of-names name config clock r r' h)
step-Grown r r' (updates_all m) clock h = inl (update_configs-names m clock r r' h)
step-Grown r r' (works p m) clock h = elim (Option-cases (on_breaker p m r)) [
  | inl f ↦ absurd (ground (arith, f, h))
  | inr ((u, r₁), f) ↦
      let same : r₁ ≡ r' = ground (arith, f, h) in
      subst (Grown r) same (inl (on_breaker-names p m r r₁ u f))
]

same_name_eq : (j k : Name) → same_name j k ≡ true → j ≡ k
unfolding same_name
same_name_eq [] [] h = refl
same_name_eq [] (c ∷ k) h = cc
same_name_eq (c ∷ j) [] h = cc
same_name_eq (c ∷ j) (d ∷ k) h =
    let heads : c ≡ d = ground (arith, h) in ap₂ ◌∷◌ heads (same_name_eq j k (ground (arith, h)))

Grown-load :
    (r r' : Registry) (name : Name) (p : ℕ)
    → Grown r r'
    → load name r.names ≡ some p
    → load name r'.names ≡ some p
unfolding load
Grown-load r r' name p (inl same) e = ap (load name) same ∙ e
Grown-load r r' name p (inr (k, q, fresh, same)) e = elim (Bool-cases (same_name k name)) [
  | inl t ↦
      let none_there : load name r.names ≡ none =
        subst (λ n. load n r.names ≡ none) (same_name_eq k name t) fresh in
      absurd (ground (arith, none_there, e))
  | inr t ↦ ap (load name) same ∙ ground (arith, t, e)
]

run-load :
    (calls : List (Call × Clock)) (r r' : Registry) (name : Name) (p : ℕ)
    → run r calls ≡ some r'
    → load name r.names ≡ some p
    → load name r'.names ≡ some p
unfolding run
run-load [] r r' name p h e =
    let same : r ≡ r' = cc in ap (λ (s : Registry). load name s.names) (sym same) ∙ e
run-load ((call, clock) ∷ calls) r r' name p h e = elim (Option-cases (step r call clock)) [
  | inl f ↦ absurd (ground (arith, f, h))
  | inr (r₁, f) ↦
      run-load calls r₁ r' name p (ground (arith, f, h))
        (Grown-load r r₁ name p (step-Grown r r₁ call clock f) e)
]

load-get :
    (name : Name) (config : Option Config) (clock : Clock) (r r' : Registry) (p : ℕ)
    → is_blank name ≡ false
    → get name config clock r ≡ (ok p, r')
    → load name r'.names ≡ some p
unfolding get
load-get name config clock r r' p named h = elim (Option-cases (load name r.names)) [
  | inl e ↦ load-get_missing name config clock r r' p (ground (arith, e, h, named))
  | inr (q, e) ↦ ground (arith, e, h, named)
]

-- Once Get has returned a breaker for a name that is not blank, and after any calls that follow it and
-- do not panic, of Get by any names (also the rest of a Get whose Load had found nothing), ForceOpen,
-- ForceClose, Reset, UpdateConfig, UpdateConfigs and methods of the breakers, Get by that name returns
-- the same breaker, whatever the configuration, and changes nothing, and GetExisting returns it too.
pub get-get :
    (name : Name) (config config' : Option Config) (clock clock' : Clock) (r r₁ r₂ : Registry)
    (p : ℕ) (calls : List (Call × Clock))
    → is_blank name ≡ false
    → get name config clock r ≡ (ok p, r₁)
    → run r₁ calls ≡ some r₂
    → (get name config' clock' r₂ ≡ (ok p, r₂)) × (get_existing name r₂ ≡ some p)
unfolding get get_existing
get-get name config config' clock clock' r r₁ r₂ p calls named h runs =
    let stored = run-load calls r₁ r₂ name p runs (load-get name config clock r r₁ p named h) in
    (ground (arith, named, stored), stored)
