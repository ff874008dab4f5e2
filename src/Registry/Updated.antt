-- ===== src/Registry/Updated.antt =====
-- The second loop of UpdateConfigs (circuitbreaker.go): which breakers it changes, and to what.
use j_circuit_breaker.Base.{
  ℕ, ◌≡◌, ◌≢◌, refl, sym, ap, ◌∙◌, List, [], ◌∷◌, Option, none, some, arith, Bool-cases,
  Option-cases, inl, inr, ◌⊎◌, subst, get_elem?, get_elem?-lt, get_elem?-set_self, get_elem?-set_ne,
  set, All, All-mono,
}
use j_circuit_breaker.Config.{Config, is_equal, fill_defaults_and_get_setting}
use j_circuit_breaker.Config.Defaults.{is_equal_iff}
use j_circuit_breaker.Clock.{Clock}
use j_circuit_breaker.Events.{Name}
use j_circuit_breaker.Breaker.{Breaker}
use j_circuit_breaker.Breaker.Transition.{update_setting}
use j_circuit_breaker.Registry.{Registry, load, update_all}

-- Equal or not, the breaker has the filled configuration afterwards.
update_setting-config :
    (c : Config) (clock : Clock) (b : Breaker)
    → (update_setting c clock b).setting.config ≡ (fill_defaults_and_get_setting c).config
unfolding update_setting
update_setting-config c clock b =
    let s = fill_defaults_and_get_setting c in
    elim (Bool-cases (is_equal s.config b.setting.config)) [
      | inl e ↦ rw (e, update_setting) (sym ((is_equal_iff s.config b.setting.config).0 e))
      | inr e ↦ rw (e, update_setting) refl
    ]

-- The breaker at `p` has the filled configuration of an entry of the map whose name leads to `p`.
abbrev pub Takes : List (Name × ℕ) → List (Name × Option Config) → ℕ → Breaker → Type 0
Takes names [] p b = ⊥
Takes names ((k, v) ∷ m) p b =
    ((c : Config) × (v ≡ some c)
      × (load k names ≡ some p)
      × (b.setting.config ≡ (fill_defaults_and_get_setting c).config))
    ⊎ Takes names m p b

abbrev pub TakesAt : List (Name × ℕ) → List (Name × Option Config) → List Breaker → ℕ → Type 0
TakesAt names m bs p = (b : Breaker) × (get_elem? bs p ≡ some b) × Takes names m p b

abbrev pub EntryTakes :
    List (Name × ℕ) → List (Name × Option Config) → List Breaker → Name × Option Config → Type 0
EntryTakes names m bs (k, v) = (p : ℕ) × (load k names ≡ some p) × TakesAt names m bs p

-- The breaker under each name of the map has taken a configuration, and a breaker that has not is as before.
pub record Updated (m : List (Name × Option Config)) (r r' : Registry) : Type 0 where
  pub entries : All (EntryTakes r.names m r'.breakers) m
  pub others :
      (p : ℕ) → (get_elem? r'.breakers p ≡ get_elem? r.breakers p) ⊎ TakesAt r.names m r'.breakers p

split : (p q : ℕ) → (p ≡ q) ⊎ (p ≢ q)
split p q = ground arith

Updated-cons :
    (k : Name) (c : Config) (m : List (Name × Option Config)) (clock : Clock) (r r' : Registry)
    (p : ℕ) (b : Breaker)
    → load k r.names ≡ some p
    → get_elem? r.breakers p ≡ some b
    → Updated m (record r { breakers = set r.breakers p (update_setting c clock b) }) r'
    → Updated ((k, some c) ∷ m) r r'
Updated-cons k c m clock r r' p b e at u =
    let b' = update_setting c clock b in
    let inside = get_elem?-lt r.breakers p b at in
    let first : TakesAt r.names ((k, some c) ∷ m) r'.breakers p = elim (u.others p) [
      | inl kept ↦ (
        b',
        kept ∙ get_elem?-set_self r.breakers p b' inside,
        inl (c, refl, e, update_setting-config c clock b),
      )
      | inr (d, at', takes) ↦ (d, at', inr takes)
    ] in
    record {
      entries = (
        (p, e, first),
        All-mono (EntryTakes r.names m r'.breakers)
            (EntryTakes r.names ((k, some c) ∷ m) r'.breakers) m
            (λ (j, v) (q, f, (d, at', takes)). (q, f, (d, at', inr takes))) u.entries,
      );
      others = λ q. elim (split p q) [
        | inl same ↦ inr (subst (TakesAt r.names ((k, some c) ∷ m) r'.breakers) same first)
        | inr other ↦ elim (u.others q) [
          | inl kept ↦ inl (kept ∙ get_elem?-set_ne r.breakers b' other)
          | inr (d, at', takes) ↦ inr (d, at', inr takes)
        ]
      ];
    }

pub update_all-Updated :
    (m : List (Name × Option Config)) (clock : Clock) (r r' : Registry)
    → update_all m clock r ≡ some r'
    → Updated m r r'
unfolding update_all
update_all-Updated [] clock r r' h =
    let same : r ≡ r' = cc in
    record {
      entries = tt;
      others = λ p. inl (ap (λ (s : Registry). get_elem? s.breakers p) (sym same));
    }
update_all-Updated ((k, none) ∷ m) clock r r' h = elim (Option-cases (load k r.names)) [
  | inl e ↦ absurd (ground (arith, e, h))
  | inr (p, e) ↦ absurd (ground (arith, e, h))
]
update_all-Updated ((k, some c) ∷ m) clock r r' h = elim (Option-cases (load k r.names)) [
  | inl e ↦ absurd (ground (arith, e, h))
  | inr (p, e) ↦ elim (Option-cases (get_elem? r.breakers p)) [
    | inl f ↦ absurd (ground (arith, e, f, h))
    | inr (b, f) ↦ Updated-cons k c m clock r r' p b e f (
        update_all-Updated m clock
          (record r { breakers = set r.breakers p (update_setting c clock b) }) r'
          (ground (arith, e, f, h)))
  ]
]
