-- ===== src/Tables/Laws.antt =====
-- Lookups after emplace and after an assignment.
use at_jit.Prelude.{
  none-some, some-none, ◌≡◌, refl, sym, ◌∙◌, Bool, true, false, none, some, List, [], ◌∷◌, ◌++◌,
  Bool-cases, Option-cases, ◌⊎◌, some-injective, inl, inr,
}
use mathlib.Core.Bool.{false≢true}
use at_jit.Tables.{find_key, has_key, emplace, assign_key}

-- The test of keys is symmetric and transitive; a key need not equal itself.
pub record IsKeyTest {ℓ} {K : Type ℓ} (eq : K → K → Bool) : Type ℓ where
  pub eq_flip : (a b : K) → eq a b ≡ true → eq b a ≡ true
  pub eq_chain : (a b c : K) → eq a b ≡ true → eq b c ≡ true → eq a c ≡ true

module _ {ℓ} {K : Type ℓ} (eq : K → K → Bool) (laws : IsKeyTest eq) where
  open laws use {eq_flip, eq_chain}

  -- Equal keys are tested alike.
  pub eq-same : (j a b : K) → eq a b ≡ true → eq j a ≡ eq j b
  eq-same j a b h = elim (Bool-cases (eq j a)) [
    | inl e ↦ e ∙ sym (eq_chain j a b e h)
    | inr e ↦ elim (Bool-cases (eq j b)) [
      | inl e' ↦ absurd (false≢true (sym e ∙ eq_chain j b a e' (eq_flip a b h)))
      | inr e' ↦ e ∙ sym e'
    ]
  ]

module _ {ℓ κ} {K : Type ℓ} {V : Type κ} (eq : K → K → Bool) (laws : IsKeyTest eq) where
  pub find_key-same :
      (m : List (K × V)) (a b : K) → eq a b ≡ true → find_key eq m a ≡ find_key eq m b
  unfolding find_key
  find_key-same [] a b h = refl
  find_key-same ((j, v) ∷ m) a b h = rw (eq-same eq laws j a b h, find_key-same m a b h) refl

  pub find_key-new :
      (m : List (K × V)) (k j : K) (v : V)
      → eq k j ≡ true
      → find_key eq m j ≡ none
      → find_key eq (m ++ (k, v) ∷ []) j ≡ some v
  unfolding find_key
  find_key-new [] k j v same h = rw same refl
  find_key-new ((i, w) ∷ m) k j v same h = elim (Bool-cases (eq i j)) [
    | inl e ↦ absurd (some-none (rw e at h))
    | inr e ↦ rw e (find_key-new m k j v same (rw e at h))
  ]

  find_key-front :
      (m xs : List (K × V)) (j : K) (w : V)
      → find_key eq m j ≡ some w
      → find_key eq (m ++ xs) j ≡ some w
  unfolding find_key
  find_key-front [] xs j w h = absurd (none-some h)
  find_key-front ((i, u) ∷ m) xs j w h = elim (Bool-cases (eq i j)) [
    | inl e ↦ rw e (rw e at h)
    | inr e ↦ rw e (find_key-front m xs j w (rw e at h))
  ]

  pub find_key-behind :
      (m : List (K × V)) (k j : K) (v : V)
      → eq k j ≡ false
      → find_key eq (m ++ (k, v) ∷ []) j ≡ find_key eq m j
  unfolding find_key
  find_key-behind [] k j v h = rw h refl
  find_key-behind ((i, w) ∷ m) k j v h = rw (find_key-behind m k j v h) refl

  pub find_key-assigned :
      (m : List (K × V)) (k : K) (v w : V)
      → find_key eq m k ≡ some w
      → find_key eq (assign_key eq m k v) k ≡ some v
  unfolding find_key assign_key
  find_key-assigned [] k v w h = absurd (none-some h)
  find_key-assigned ((j, u) ∷ m) k v w h = elim (Bool-cases (eq j k)) [
    | inl e ↦ rw (e, e) refl
    | inr e ↦ rw (e, e) (find_key-assigned m k v w (rw e at h))
  ]

  pub find_key-other :
      (m : List (K × V)) (k j : K) (v : V)
      → eq k j ≡ false
      → find_key eq (assign_key eq m k v) j ≡ find_key eq m j
  unfolding find_key assign_key
  find_key-other [] k j v h = refl
  find_key-other ((i, u) ∷ m) k j v h = elim (Bool-cases (eq i k)) [
    | inl e ↦ elim (Bool-cases (eq i j)) [
      | inl e' ↦ absurd (false≢true (sym h ∙ laws.eq_chain k i j (laws.eq_flip i k e) e'))
      | inr e' ↦ rw (e, e') refl
    ]
    | inr e ↦ rw (e, find_key-other m k j v h) refl
  ]

  pub emplace-hit :
      (m : List (K × V)) (k : K) (v w : V)
      → find_key eq m k ≡ some w
      → emplace eq m k v ≡ (false, m)
  unfolding emplace has_key
  emplace-hit m k v w h = rw (emplace, has_key, h) refl

  pub emplace-miss :
      (m : List (K × V)) (k : K) (v : V)
      → find_key eq m k ≡ none
      → emplace eq m k v ≡ (true, m ++ (k, v) ∷ [])
  unfolding emplace has_key
  emplace-miss m k v h = rw (emplace, has_key, h) refl

  -- An entry that is there stays.
  pub emplace-stays :
      (m : List (K × V)) (k j : K) (v w : V)
      → find_key eq m j ≡ some w
      → find_key eq (emplace eq m k v).1 j ≡ some w
  emplace-stays m k j v w h = elim (Option-cases (find_key eq m k)) [
    | inl e ↦ rw (emplace-miss m k v e) (find_key-front m ((k, v) ∷ []) j w h)
    | inr (u, e) ↦ rw (emplace-hit m k v u e) h
  ]

  pub emplace-there :
      (m : List (K × V)) (k : K) (v : V)
      → eq k k ≡ true
      → (w : V) × (find_key eq (emplace eq m k v).1 k ≡ some w)
  emplace-there m k v self = elim (Option-cases (find_key eq m k)) [
    | inl e ↦ rw (emplace-miss m k v e) (v, find_key-new m k k v self e)
    | inr (u, e) ↦ rw (emplace-hit m k v u e) (u, e)
  ]

  -- What is found after emplace was found before, or is the new value.
  pub emplace-cases :
      (m : List (K × V)) (k j : K) (v w : V)
      → find_key eq (emplace eq m k v).1 j ≡ some w
      → (find_key eq m j ≡ some w) ⊎ (w ≡ v)
  emplace-cases m k j v w h = elim (Option-cases (find_key eq m k)) [
    | inr (u, e) ↦ inl (rw (emplace-hit m k v u e) at h)
    | inl e ↦ elim (Bool-cases (eq k j)) [
      | inr differ ↦ inl (sym (find_key-behind m k j v differ) ∙ (rw (emplace-miss m k v e) at h))
      | inl same ↦
          let last = find_key-new m k j v same (sym (find_key-same m k j same) ∙ e) in
          inr (some-injective (sym (rw (emplace-miss m k v e) at h) ∙ last))
    ]
  ]

  pub has_key-found :
      (m : List (K × V)) (k : K) (w : V) → find_key eq m k ≡ some w → has_key eq m k ≡ true
  unfolding has_key
  has_key-found m k w e = rw (has_key, e) refl
