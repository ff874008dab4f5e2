-- ===== src/Registry/Batch.antt =====
-- UpdateConfigs: every pointer of the names leads to a breaker, and the batch is all or nothing.
use j_circuit_breaker.Base.{
  ℕ, ◌≡◌, refl, sym, ◌∙◌, List, [], ◌∷◌, Option, none, some, arith, Option-cases, inl, inr, suc,
  subst, get_elem?-below, length-set, length, set, ◌<◌, ◌⊎◌, All,
}
use j_circuit_breaker.Config.{Config, is_valid_config}
use j_circuit_breaker.Clock.{Clock}
use j_circuit_breaker.Events.{Name}
use j_circuit_breaker.Breaker.Transition.{update_setting}
use j_circuit_breaker.Registry.Updated.{Updated, update_all-Updated}
use j_circuit_breaker.Registry.{
  Registry, load, BatchError, breaker_not_found, config_error, check_all, update_all,
  update_configs,
}

-- Every pointer under a name is below the number of breakers.
unfoldable pub Below : List (Name × ℕ) → ℕ → Type 0
Below [] n = Unit
Below ((_, p) ∷ m) n = (p < n) × Below m n

Below-suc : (m : List (Name × ℕ)) (n : ℕ) → Below m n → Below m (suc n)
unfolding Below
Below-suc [] n h = tt
Below-suc ((k, p) ∷ m) n h = (omega (arith, h.0), Below-suc m n h.1)

load-Below :
    (name : Name) (m : List (Name × ℕ)) (n p : ℕ) → Below m n → load name m ≡ some p → p < n
unfolding Below load
load-Below name [] n p h e = ground (arith, e)
load-Below name ((k, q) ∷ m) n p h e = ground (arith, h.0, e, load-Below name m n p h.1)

-- The state of a registry whose pointers lead to breakers.
unfoldable pub IsValid : Registry → Type 0
IsValid r = Below r.names (length r.breakers)

-- The first loop reads the names and nothing else.
check_all-names :
    (m : List (Name × Option Config)) (r r' : Registry)
    → r'.names ≡ r.names
    → check_all m r' ≡ check_all m r
unfolding check_all
check_all-names [] r r' same = refl
check_all-names ((k, v) ∷ m) r r' same = ground (arith, same, check_all-names m r r' same)

-- What a first loop without an error says of the first entry and of the rest.
check_all-first :
    (k : Name) (v : Option Config) (m : List (Name × Option Config)) (r : Registry)
    → check_all ((k, v) ∷ m) r ≡ none
    → ((p : ℕ) × (load k r.names ≡ some p)) × ((c : Config) × (v ≡ some c)) × (check_all m r ≡ none)
unfolding check_all is_valid_config
check_all-first k none m r h = absurd (elim (Option-cases (load k r.names)) [
  | inl e ↦ ground (arith, e, h)
  | inr (p, e) ↦ ground (arith, e, h)
])
check_all-first k (some c) m r h = elim (Option-cases (load k r.names)) [
  | inl e ↦ absurd (ground (arith, e, h))
  | inr (p, e) ↦ ((p, e), (c, refl), ground (arith, e, h))
]

-- With every name present and every config valid, the second loop goes through, and keeps the names.
update_all-check_all :
    (m : List (Name × Option Config)) (clock : Clock) (r : Registry)
    → IsValid r
    → check_all m r ≡ none
    → (r' : Registry) × (update_all m clock r ≡ some r')
      × (r'.names ≡ r.names)
      × (length r'.breakers ≡ length r.breakers)
unfolding update_all IsValid
update_all-check_all [] clock r valid h = (r, refl, refl, refl)
update_all-check_all ((k, v) ∷ m) clock r valid h =
    let ((p, e), (c, q), rest) = check_all-first k v m r h in
    let (b, at) =
      get_elem?-below r.breakers p (load-Below k r.names (length r.breakers) p valid e) in
    let b' = update_setting c clock b in
    let r₁ : Registry = record r { breakers = set r.breakers p b' } in
    let same_length = length-set r.breakers p b' in
    let valid₁ : IsValid r₁ = subst (λ n. Below r.names n) (sym same_length) valid in
    let (r', goes, names', length') =
      update_all-check_all m clock r₁ valid₁ (check_all-names m r r₁ refl ∙ rest) in
    (r', rw (e, q, at) goes, names', length' ∙ same_length)

-- An entry of the map that is in order: its name is there, and its config is valid.
abbrev pub Sound : Registry → Name × Option Config → Type 0
Sound r (k, v) = ((p : ℕ) × (load k r.names ≡ some p)) × (is_valid_config v ≡ none)

-- What an error says of an entry.
unfoldable pub Tells : Registry → Name × Option Config → BatchError → Type 0
Tells r (k, v) (breaker_not_found n) = (n ≡ k) × (load k r.names ≡ none)
Tells r (k, v) (config_error n e) = (n ≡ k) × (is_valid_config v ≡ some e)

-- Some entry of the map is the one that the error tells of.
abbrev pub TellsSome : Registry → List (Name × Option Config) → BatchError → Type 0
TellsSome r [] e = ⊥
TellsSome r (x ∷ m) e = Tells r x e ⊎ TellsSome r m e

check_all-Sound :
    (m : List (Name × Option Config)) (r : Registry) → check_all m r ≡ none → All (Sound r) m
unfolding check_all
check_all-Sound [] r h = tt
check_all-Sound ((k, v) ∷ m) r h = elim (Option-cases (load k r.names)) [
  | inl e ↦ absurd (ground (arith, e, h))
  | inr (p, e) ↦ elim (Option-cases (is_valid_config v)) [
    | inl f ↦ (((p, e), f), check_all-Sound m r (ground (arith, e, f, h)))
    | inr (x, f) ↦ absurd (ground (arith, e, f, h))
  ]
]

check_all-TellsSome :
    (m : List (Name × Option Config)) (r : Registry) (x : BatchError)
    → check_all m r ≡ some x
    → TellsSome r m x
unfolding check_all Tells
check_all-TellsSome [] r x h = absurd (ground (arith, h))
check_all-TellsSome ((k, v) ∷ m) r x h = elim (Option-cases (load k r.names)) [
  | inl e ↦
      let same : breaker_not_found k ≡ x = ground (arith, e, h) in
      inl (subst (Tells r (k, v)) same (refl, e))
  | inr (p, e) ↦ elim (Option-cases (is_valid_config v)) [
    | inl f ↦ inr (check_all-TellsSome m r x (ground (arith, e, f, h)))
    | inr (y, f) ↦
        let same : config_error k y ≡ x = ground (arith, e, f, h) in
        inl (subst (Tells r (k, v)) same (refl, f))
  ]
]

-- In a registry whose names lead to breakers, UpdateConfigs returns without a panic, for every map and
-- order of its entries. Either the registry is as it was, and the error tells of an entry whose name
-- is not there, or whose config IsValidConfig refuses with the error that is told; or the result is
-- nil, and then every entry's name is there and its config is accepted, the breaker under each of
-- these names has the filled configuration of an entry whose name leads to it, every other breaker is
-- as before, and the names are as before and lead to breakers.
pub update_configs-all_or_nothing :
    (m : List (Name × Option Config)) (clock : Clock) (r : Registry)
    → IsValid r
    → ((e : BatchError) × (update_configs m clock r ≡ some (some e, r)) × TellsSome r m e)
      ⊎ ((r' : Registry) × (update_configs m clock r ≡ some (none, r'))
          × All (Sound r) m
          × Updated m r r'
          × (r'.names ≡ r.names)
          × IsValid r')
unfolding update_configs IsValid
update_configs-all_or_nothing m clock r valid = elim (Option-cases (check_all m r)) [
  | inl h ↦
      let (r', goes, names', length') = update_all-check_all m clock r valid h in
      let kept = subst (λ n. Below r.names n) (sym length') valid in
      inr (
        r',
        ground (arith, h, goes),
        check_all-Sound m r h,
        update_all-Updated m clock r r' goes,
        names',
        subst (λ ns. Below ns (length r'.breakers)) (sym names') kept,
      )
  | inr (e, h) ↦ inl (e, ground (arith, h), check_all-TellsSome m r e h)
]
