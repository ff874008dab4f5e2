-- ===== src/Registry/Names.antt =====
-- What each function of circuitbreaker.go but resetBreakers does to the names of the registry.
use j_circuit_breaker.Base.{
  ℕ, ◌≡◌, sym, List, [], ◌∷◌, Option, none, some, arith, Bool-cases, Option-cases, inl, inr, ◌⊎◌,
  subst, get_elem?, length, set,
}
use j_circuit_breaker.Config.{Config}
use j_circuit_breaker.Clock.{Clock}
use j_circuit_breaker.Events.{Name}
use j_circuit_breaker.Breaker.{Breaker, M}
use j_circuit_breaker.Breaker.Transition.{update_setting, update_config}
use j_circuit_breaker.Registry.{
  Registry, Result, new_circuit_breaker, load, is_blank, load_or_store, get_missing, get,
  on_breaker, by_name, update_config_of, check_all, update_all, update_configs,
}
use j_circuit_breaker.Registry.Lookup.{Result-cases}

abbrev pub after {ℓ} : {A : Type ℓ} → Option (A × Registry) → Option Registry
after none = none
after (some (a, r)) = some r

-- The names are the same, or a new one has come.
abbrev pub Grown : Registry → Registry → Type 0
Grown r r' =
    (r'.names ≡ r.names)
    ⊎ ((k : Name) × (q : ℕ) × (load k r.names ≡ none) × (r'.names ≡ (k, q) ∷ r.names))

pub get_missing-Grown :
    (name : Name) (config : Option Config) (clock : Clock) (r : Registry)
    → Grown r (get_missing name config clock r).1
unfolding get_missing load_or_store
get_missing-Grown name config clock r =
    elim (Result-cases (new_circuit_breaker name config clock)) [
      | inl (e, q) ↦ inl (ground (arith, q))
      | inr (b, q) ↦ elim (Option-cases (load name r.names)) [
        | inl e ↦ inr (name, length r.breakers, e, ground (arith, q, e))
        | inr (p, e) ↦ inl (ground (arith, q, e))
      ]
    ]

pub get-Grown :
    (name : Name) (config : Option Config) (clock : Clock) (r : Registry)
    → Grown r (get name config clock r).1
unfolding get
get-Grown name config clock r = elim (Bool-cases (is_blank name)) [
  | inl e ↦ elim (Result-cases (new_circuit_breaker name config clock)) [
    | inl (x, q) ↦ inl (ground (arith, e, q))
    | inr (b, q) ↦ inl (ground (arith, e, q))
  ]
  | inr e ↦ elim (Option-cases (load name r.names)) [
    | inl f ↦
        let same : get name config clock r ≡ get_missing name config clock r =
          ground (arith, e, f) in
        subst (λ (x : Result ℕ × Registry). Grown r x.1) (sym same)
          (get_missing-Grown name config clock r)
    | inr (p, f) ↦ inl (ground (arith, e, f))
  ]
]

pub on_breaker-names {ℓ} :
    {A : Type ℓ} (p : ℕ) (m : Breaker → Option (A × Breaker)) (r r' : Registry) (a : A)
    → on_breaker p m r ≡ some (a, r')
    → r'.names ≡ r.names
unfolding on_breaker
on_breaker-names p m r r' a h = elim (Option-cases (get_elem? r.breakers p)) [
  | inl e ↦ absurd (ground (arith, e, h))
  | inr (b, e) ↦ elim (Option-cases (m b)) [
    | inl f ↦ absurd (ground (arith, e, f, h))
    | inr ((c, b'), f) ↦ ground (arith, e, f, h)
  ]
]

pub by_name-names :
    (name : Name) (m : M (Unit {0})) (r r' : Registry)
    → after (by_name name m r) ≡ some r'
    → r'.names ≡ r.names
unfolding by_name
by_name-names name m r r' h = elim (Option-cases (load name r.names)) [
  | inl e ↦ ground (arith, e, h)
  | inr (p, e) ↦ elim (Option-cases (on_breaker p m r)) [
    | inl f ↦ absurd (ground (arith, e, f, h))
    | inr ((u, r₁), f) ↦
        let same : r₁ ≡ r' = ground (arith, e, f, h) in
        subst (λ (s : Registry). s.names ≡ r.names) same (on_breaker-names p m r r₁ u f)
  ]
]

pub update_config_of-names :
    (name : Name) (config : Option Config) (clock : Clock) (r r' : Registry)
    → after (update_config_of name config clock r) ≡ some r'
    → r'.names ≡ r.names
unfolding update_config_of
update_config_of-names name config clock r r' h = elim (Option-cases (load name r.names)) [
  | inl e ↦ ground (arith, e, h)
  | inr (p, e) ↦ elim (Option-cases (on_breaker p (λ b. some (update_config config clock b)) r)) [
    | inl f ↦ absurd (ground (arith, e, f, h))
    | inr ((x, r₁), f) ↦
        let same : r₁ ≡ r' = ground (arith, e, f, h) in
        subst (λ (s : Registry). s.names ≡ r.names) same
          (on_breaker-names p (λ b. some (update_config config clock b)) r r₁ x f)
  ]
]

update_all-names :
    (m : List (Name × Option Config)) (clock : Clock) (r r' : Registry)
    → update_all m clock r ≡ some r'
    → r'.names ≡ r.names
unfolding update_all
update_all-names [] clock r r' h = ground (arith, h)
update_all-names ((k, none) ∷ m) clock r r' h = elim (Option-cases (load k r.names)) [
  | inl e ↦ absurd (ground (arith, e, h))
  | inr (p, e) ↦ absurd (ground (arith, e, h))
]
update_all-names ((k, some c) ∷ m) clock r r' h = elim (Option-cases (load k r.names)) [
  | inl e ↦ absurd (ground (arith, e, h))
  | inr (p, e) ↦ elim (Option-cases (get_elem? r.breakers p)) [
    | inl f ↦ absurd (ground (arith, e, f, h))
    | inr (b, f) ↦
        update_all-names m clock
          (record r { breakers = set r.breakers p (update_setting c clock b) }) r'
          (ground (arith, e, f, h))
  ]
]

pub update_configs-names :
    (m : List (Name × Option Config)) (clock : Clock) (r r' : Registry)
    → after (update_configs m clock r) ≡ some r'
    → r'.names ≡ r.names
unfolding update_configs
update_configs-names m clock r r' h = elim (Option-cases (check_all m r)) [
  | inr (x, e) ↦ ground (arith, e, h)
  | inl e ↦ elim (Option-cases (update_all m clock r)) [
    | inl f ↦ absurd (ground (arith, e, f, h))
    | inr (r₁, f) ↦
        let same : r₁ ≡ r' = ground (arith, e, f, h) in
        subst (λ (s : Registry). s.names ≡ r.names) same (update_all-names m clock r r₁ f)
  ]
]
