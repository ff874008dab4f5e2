-- ===== src/Registry/Lookup.antt =====
-- Get and the lookups by name.
use j_circuit_breaker.Base.{
  ℕ, ◌≡◌, refl, true, [], ◌∷◌, Option, some, arith, Option-cases, inl, inr, ◌⊎◌,
}
use j_circuit_breaker.Constants.{Err}
use j_circuit_breaker.Config.{Config}
use j_circuit_breaker.Clock.{Clock}
use j_circuit_breaker.Events.{Name}
use j_circuit_breaker.Breaker.{Breaker}
use j_circuit_breaker.Registry.{
  Registry, Result, ok, err, new_circuit_breaker, same_name, load, load_or_store, get_missing,
}

pub same_name_refl : (n : Name) → same_name n n ≡ true
unfolding same_name
same_name_refl [] = refl
same_name_refl (c ∷ cs) = ground (arith, same_name_refl cs)

load-load_or_store :
    (name : Name) (b : Breaker) (r : Registry)
    → load name (load_or_store name b r).1.names ≡ some (load_or_store name b r).0
unfolding load_or_store load
load-load_or_store name b r = elim (Option-cases (load name r.names)) [
  | inl e ↦ rw (e, load_or_store) (rw (same_name_refl name))
  | inr (p, e) ↦ rw (e, load_or_store) e
]

pub Result-cases {ℓ} :
    {A : Type ℓ} (x : Result A) → ((e : Err) × (x ≡ err e)) ⊎ ((a : A) × (x ≡ ok a))
Result-cases (ok a) = inr (a, refl)
Result-cases (err e) = inl (e, refl)

-- What get_missing returns is under the name afterwards.
pub load-get_missing :
    (name : Name) (config : Option Config) (clock : Clock) (r r' : Registry) (p : ℕ)
    → get_missing name config clock r ≡ (ok p, r')
    → load name r'.names ≡ some p
unfolding get_missing
load-get_missing name config clock r r' p h =
    elim (Result-cases (new_circuit_breaker name config clock)) [
      | inl (e, q) ↦ ground (arith, q, h)
      | inr (b, q) ↦ ground (arith, q, h, load-load_or_store name b r)
    ]

-- Callers that race to create a breaker get the same one: after one call of Get has stored a breaker under
-- the name, another whose Load had found nothing before that gets the breaker that was stored.
pub get_missing_race :
    (name : Name) (config config' : Option Config) (clock clock' : Clock) (r r₁ r₂ : Registry)
    (p q : ℕ)
    → get_missing name config clock r ≡ (ok p, r₁)
    → get_missing name config' clock' r₁ ≡ (ok q, r₂)
    → q ≡ p
unfolding get_missing load_or_store
get_missing_race name config config' clock clock' r r₁ r₂ p q first second =
    let stored = load-get_missing name config clock r r₁ p first in
    elim (Result-cases (new_circuit_breaker name config' clock')) [
      | inl (e, c) ↦ ground (arith, c, second)
      | inr (b, c) ↦ ground (arith, c, second, stored)
    ]
