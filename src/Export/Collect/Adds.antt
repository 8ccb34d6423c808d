-- ===== src/Export/Collect/Adds.antt =====
-- What each of the three steps marks.
use at_jit.Prelude.{
  ℕ, Bool, true, false, List, [], ◌∷◌, if◌then◌else◌, ◌==◌, ◌≡◌, ◌↔◌, ◌⊎◌, inl, inr, refl,
  Bool-cases, ==_iff,
}
use at_jit.Export.Collect.{jit_section, is_jit, Sections, set_section, mark_all}

-- One of the elements has the property.
abbrev pub Any {ℓ} : {A : Type ℓ} → (A → Type 0) → List A → Type 0
Any P [] = ⊥
Any P (x ∷ xs) = P x ⊎ Any P xs

-- Exactly the objects with the property are marked in addition.
abbrev pub Adds : (Ty : Type 0) → (ℕ → Type 0) → Sections Ty → Sections Ty → Type 0
Adds Ty P sec sec' = (k : ℕ) → (is_jit (sec' k) ≡ true) ↔ ((is_jit (sec k) ≡ true) ⊎ P k)

module _ (Ty : Type 0) where
  pub Adds-none : (sec : Sections Ty) → Adds Ty (λ k. ⊥) sec sec
  Adds-none sec k = (inl, λ h. elim h [ inl j ↦ j | inr e ↦ absurd e ])

  pub Adds-trans :
      (P Q : ℕ → Type 0) (a b c : Sections Ty)
      → Adds Ty P a b
      → Adds Ty Q b c
      → Adds Ty (λ k. P k ⊎ Q k) a c
  Adds-trans P Q a b c p q k = (
    λ h. elim ((q k).0 h) [
      | inl j ↦ elim ((p k).0 j) [ inl i ↦ inl i | inr x ↦ inr (inl x) ]
      | inr y ↦ inr (inr y)
    ],
    λ h. elim h [
      | inl i ↦ (q k).1 (inl ((p k).1 (inl i)))
      | inr r ↦ elim r [ inl x ↦ (q k).1 (inl ((p k).1 (inr x))) | inr y ↦ (q k).1 (inr y) ]
    ],
  )

  pub Adds-iff :
      (P Q : ℕ → Type 0) (a b : Sections Ty) → ((k : ℕ) → P k ↔ Q k) → Adds Ty P a b → Adds Ty Q a b
  Adds-iff P Q a b e p k = (
    λ h. elim ((p k).0 h) [ inl i ↦ inl i | inr x ↦ inr ((e k).0 x) ],
    λ h. elim h [ inl i ↦ (p k).1 (inl i) | inr y ↦ (p k).1 (inr ((e k).1 y)) ],
  )

  -- A mark, if a test holds
  pub Adds-set :
      (b : Bool) (k : ℕ) (sec : Sections Ty)
      → Adds Ty
          (λ j. (b ≡ true) × (k ≡ j))
          sec
          (if b then set_section Ty k jit_section sec else sec)
  Adds-set false k sec j = (inl, λ h. elim h [ inl i ↦ i | inr (e, f) ↦ absurd (cc) ])
  Adds-set true k sec j = elim (Bool-cases (k == j)) [
    | inl same ↦ rw same (λ h. inr (refl, (==_iff k j).0 same), λ h. refl)
    | inr other ↦ rw other (
      inl,
      λ h. elim h [
        | inl i ↦ i
        | inr (e, f) ↦ let same : (k == j) ≡ true = (==_iff k j).1 f in absurd (cc)
      ],
    )
  ]

  pub mark_all-Adds :
      (test : ℕ → Bool) (ks : List ℕ) (sec : Sections Ty)
      → Adds Ty (λ j. Any (λ k. (test k ≡ true) × (k ≡ j)) ks) sec (mark_all Ty test ks sec)
  unfolding mark_all
  mark_all-Adds test [] sec = Adds-none sec
  mark_all-Adds test (k ∷ ks) sec =
      Adds-trans _ _ sec _ _ (Adds-set (test k) k sec) (mark_all-Adds test ks _)
