-- ===== src/Window/Ring.antt =====
-- An array whose entries are recycled in turn, read from the oldest entry to the latest: what the two
-- windows of window.go have in common.
use mathlib.Core.List.{append_assoc}
use j_circuit_breaker.Base.{
  ℕ, zero, suc, ◌+◌, ◌%◌, ◌<◌, ◌≡◌, refl, sym, ap, ◌∙◌, ◌⊎◌, inl, inr, List, [], ◌∷◌, ◌++◌, some,
  arith, length, get_elem?, set, take, drop,
}

module _ {ℓ} {A : Type ℓ} where
  -- The entries of `xs`, oldest first, where the latest is at `e`.
  abbrev pub ring : ℕ → List A → List A
  ring e xs = drop (suc e) xs ++ take (suc e) xs

  drop_at :
      (xs : List A) (i : ℕ)
      → i < length xs
      → (x : A) × (get_elem? xs i ≡ some x) × (drop i xs ≡ x ∷ drop (suc i) xs)
  drop_at [] i h = elim h [ ]
  drop_at (x ∷ xs) zero h = (x, refl, refl)
  drop_at (x ∷ xs) (suc i) h = drop_at xs i (omega arith)

  drop-set : (xs : List A) (i : ℕ) (v : A) → drop (suc i) (set xs i v) ≡ drop (suc i) xs
  drop-set [] i v = refl
  drop-set (x ∷ xs) zero v = refl
  drop-set (x ∷ xs) (suc i) v = drop-set xs i v

  take-set :
      (xs : List A) (i : ℕ) (v : A)
      → i < length xs
      → take (suc i) (set xs i v) ≡ take i xs ++ v ∷ []
  take-set [] i v h = elim h [ ]
  take-set (x ∷ xs) zero v h = refl
  take-set (x ∷ xs) (suc i) v h = ap (λ t. x ∷ t) (take-set xs i v (omega arith))

  take_at :
      (xs : List A) (i : ℕ) {x : A}
      → get_elem? xs i ≡ some x
      → take (suc i) xs ≡ take i xs ++ x ∷ []
  take_at [] i e = ground arith
  take_at (y ∷ xs) zero e = ground arith
  take_at (y ∷ xs) (suc i) e = ap (λ t. y ∷ t) (take_at xs i e)

  pub drop-length : (xs : List A) (n : ℕ) → n ≡ length xs → drop n xs ≡ []
  drop-length [] zero e = refl
  drop-length [] (suc n) e = refl
  drop-length (x ∷ xs) zero e = absurd (omega arith)
  drop-length (x ∷ xs) (suc n) e = drop-length xs n (omega arith)

  pub take-length : (xs : List A) (n : ℕ) → n ≡ length xs → take n xs ≡ xs
  take-length [] zero e = refl
  take-length [] (suc n) e = refl
  take-length (x ∷ xs) zero e = absurd (omega arith)
  take-length (x ∷ xs) (suc n) e = ap (λ t. x ∷ t) (take-length xs n (omega arith))

  -- What a step of the latest entry to the next index does: the oldest entry, which stands there,
  -- makes place for the new one.
  pub record Steps (e i : ℕ) (xs : List A) : Type ℓ where
    pub oldest : A
    pub others : List A
    pub stands_at : get_elem? xs i ≡ some oldest
    pub split : ring e xs ≡ oldest ∷ others
    pub written : (v : A) → ring i (set xs i v) ≡ others ++ v ∷ []

  step_inside : (xs : List A) (e : ℕ) → suc e < length xs → Steps e (suc e) xs
  step_inside xs e h =
      let (x, at, d) = drop_at xs (suc e) h in
      record {
        oldest = x;
        others = drop (suc (suc e)) xs ++ take (suc e) xs;
        stands_at = at;
        split = ap (λ t. t ++ take (suc e) xs) d;
        written = λ v.
            rw (drop-set xs (suc e) v, take-set xs (suc e) v h)
              (sym (append_assoc (drop (suc (suc e)) xs) (take (suc e) xs) (v ∷ [])));
      }

  step_round : (xs : List A) (e : ℕ) → suc e ≡ length xs → Steps e 0 xs
  step_round [] e h = absurd (omega arith)
  step_round (x ∷ xs) e h = record {
    oldest = x;
    others = xs;
    stands_at = refl;
    split = rw (drop-length xs e (omega arith), take-length xs e (omega arith)) refl;
    written = λ v. refl;
  }

  pub step_lem : (xs : List A) (e i : ℕ) → e < length xs → i ≡ (e + 1) % length xs → Steps e i xs
  step_lem xs e i h q = elim (cases xs e h) [
    | inl p ↦ subst_index (sym (q ∙ inside p)) (step_inside xs e p)
    | inr p ↦ subst_index (sym (q ∙ round p)) (step_round xs e p)
  ]
    where
      cases : (xs : List A) (e : ℕ) → e < length xs → (suc e < length xs) ⊎ (suc e ≡ length xs)
      cases xs e h = omega arith

      inside : suc e < length xs → (e + 1) % length xs ≡ suc e
      inside p = grind arith

      round : suc e ≡ length xs → (e + 1) % length xs ≡ 0
      round p = grind arith

      subst_index : {j k : ℕ} → j ≡ k → Steps e j xs → Steps e k xs
      subst_index p s = rw p at s

  -- What a write to the latest entry does.
  pub record Latest (e : ℕ) (xs : List A) : Type ℓ where
    pub latest : A
    pub others : List A
    pub stands_at : get_elem? xs e ≡ some latest
    pub split : ring e xs ≡ others ++ latest ∷ []
    pub written : (v : A) → ring e (set xs e v) ≡ others ++ v ∷ []

  pub latest_lem : (xs : List A) (e : ℕ) → e < length xs → Latest e xs
  latest_lem xs e h =
      let (x, at, d) = drop_at xs e h in
      record {
        latest = x;
        others = drop (suc e) xs ++ take e xs;
        stands_at = at;
        split = rw (take_at xs e at) (sym (append_assoc (drop (suc e) xs) (take e xs) (x ∷ [])));
        written = λ v.
            rw (drop-set xs e v, take-set xs e v h)
              (sym (append_assoc (drop (suc e) xs) (take e xs) (v ∷ [])));
      }
