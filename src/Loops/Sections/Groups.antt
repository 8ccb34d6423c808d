-- ===== src/Loops/Sections/Groups.antt =====
-- The groups that analyzeSections makes.
use at_jit.Prelude.{
  ℕ, ◌<◌, ◌≡◌, refl, sym, ap, ◌∙◌, subst, Option, none, some, List, [], ◌∷◌, ◌++◌, length, ltb,
  ltb→lt, All,
}
use mathlib.Core.List.{append_assoc, append-nil}
use at_jit.Prelude.Partial.{if-cases}
use at_jit.Loops.Sections.{
  LoopKnob, Kids, knob, no_kids, kid, Dims, group, section_walk, section_next, section_kids,
  analyze_sections,
}

-- The elements of the first list are in the second one, in the same order.
pub data Sublist {ℓ} {A : Type ℓ} : List A → List A → Type ℓ where
  end : Sublist [] []
  skip : {xs ys : List A} {y : A} → Sublist xs ys → Sublist xs (y ∷ ys)
  take_it : {xs ys : List A} {y : A} → Sublist xs ys → Sublist (y ∷ xs) (y ∷ ys)

-- The loops with a section size, with their sizes, each before the loops inside it
abbrev pub sized : ℕ → Option ℕ → Dims
sized name none = []
sized name (some sz) = (name, sz) ∷ []

unfoldable mutual
  pub preorder : LoopKnob → Dims
  preorder (knob name depth ls kids) = sized name ls.section ++ preorder_kids kids

  pub preorder_kids : Kids → Dims
  preorder_kids no_kids = []
  preorder_kids (kid k ks) = preorder k ++ preorder_kids ks

-- All the groups, one after the other
pub joined : List Dims → Dims
joined [] = []
joined (d ∷ ds) = d ++ joined ds

Sublist-refl {ℓ} : {A : Type ℓ} (xs : List A) → Sublist xs xs
Sublist-refl [] = end
Sublist-refl (x ∷ xs) = take_it (Sublist-refl xs)

Sublist-append {ℓ} :
    {A : Type ℓ} {us vs xs ys : List A}
    → Sublist us xs
    → Sublist vs ys
    → Sublist (us ++ vs) (xs ++ ys)
Sublist-append end q = q
Sublist-append (skip p) q = skip (Sublist-append p q)
Sublist-append (take_it p) q = take_it (Sublist-append p q)

Sublist-nil {ℓ} : {A : Type ℓ} (xs : List A) → Sublist [] xs
Sublist-nil [] = end
Sublist-nil (x ∷ xs) = skip (Sublist-nil xs)

joined-append : (a b : List Dims) → joined (a ++ b) ≡ joined a ++ joined b
unfolding joined
joined-append [] b = refl
joined-append (d ∷ a) b =
    ap (λ l. d ++ l) (joined-append a b) ∙ sym (append_assoc d (joined a) (joined b))

group-Sublist : (dims : Dims) → Sublist (joined (group dims)) dims
unfolding group joined
group-Sublist dims =
    if-cases (λ l. Sublist (joined l) dims) (ltb 1 (length dims)) (dims ∷ []) []
      (λ e. subst (λ l. Sublist l dims) (sym (append-nil dims)) (Sublist-refl dims))
      (λ e. Sublist-nil dims)

-- A group, then the groups of the rest
after_group :
    (dims : Dims) (gs : List Dims) (rest : Dims)
    → Sublist (joined gs) rest
    → Sublist (joined (group dims ++ gs)) (dims ++ rest)
after_group dims gs rest h =
    subst (λ l. Sublist l (dims ++ rest)) (sym (joined-append (group dims) gs))
      (Sublist-append (group-Sublist dims) h)

both_kids :
    (a b : List Dims) (xs ys : Dims)
    → Sublist (joined a) xs
    → Sublist (joined b) ys
    → Sublist (joined (a ++ b)) (xs ++ ys)
both_kids a b xs ys p q =
    subst (λ l. Sublist l (xs ++ ys)) (sym (joined-append a b)) (Sublist-append p q)

mutual
  unfolding section_walk section_next section_kids preorder preorder_kids joined

  walk-Sublist :
      (dims : Dims) (k : LoopKnob) → Sublist (joined (section_walk dims k)) (dims ++ preorder k)
  walk-Sublist dims (knob name depth ls kids) = next-Sublist dims name ls.section kids

  next-Sublist :
      (dims : Dims) (name : ℕ) (sec : Option ℕ) (kids : Kids)
      → Sublist
          (joined (section_next dims name sec kids))
          (dims ++ (sized name sec ++ preorder_kids kids))
  next-Sublist dims name none no_kids = after_group dims [] [] end
  next-Sublist dims name none (kid k ks) =
      after_group dims (section_walk [] k ++ section_kids ks) (preorder k ++ preorder_kids ks) (
        both_kids (section_walk [] k) (section_kids ks) (preorder k) (preorder_kids ks)
          (walk-Sublist [] k) (kids-Sublist ks))
  next-Sublist dims name (some sz) no_kids =
      subst (Sublist _) (append_assoc dims ((name, sz) ∷ []) [])
        (after_group (dims ++ (name, sz) ∷ []) [] [] end)
  next-Sublist dims name (some sz) (kid k no_kids) =
      subst (Sublist _)
        (append_assoc dims ((name, sz) ∷ []) (preorder k)
          ∙ ap (λ l. dims ++ ((name, sz) ∷ l)) (sym (append-nil (preorder k))))
        (walk-Sublist (dims ++ (name, sz) ∷ []) k)
  next-Sublist dims name (some sz) (kid k (kid k' ks)) =
      subst (Sublist _)
        (append_assoc dims ((name, sz) ∷ []) (preorder k ++ (preorder k' ++ preorder_kids ks)))
        (after_group (dims ++ (name, sz) ∷ [])
          (section_walk [] k ++ (section_walk [] k' ++ section_kids ks))
          (preorder k ++ (preorder k' ++ preorder_kids ks))
          (both_kids (section_walk [] k) (section_walk [] k' ++ section_kids ks) (preorder k)
            (preorder k' ++ preorder_kids ks) (walk-Sublist [] k)
            (both_kids (section_walk [] k') (section_kids ks) (preorder k') (preorder_kids ks)
              (walk-Sublist [] k') (kids-Sublist ks))))

  kids-Sublist : (ks : Kids) → Sublist (joined (section_kids ks)) (preorder_kids ks)
  kids-Sublist no_kids = end
  kids-Sublist (kid k ks) =
      both_kids (section_walk [] k) (section_kids ks) (preorder k) (preorder_kids ks)
        (walk-Sublist [] k) (kids-Sublist ks)

abbrev Nested : List Dims → Type 0
Nested gs = All (λ d. 1 < length d) gs

Nested-append : (a b : List Dims) → Nested a → Nested b → Nested (a ++ b)
Nested-append [] b p q = q
Nested-append (x ∷ a) b (h, p) q = (h, Nested-append a b p q)

group-Nested : (dims : Dims) → Nested (group dims)
unfolding group
group-Nested dims =
    if-cases Nested (ltb 1 (length dims)) (dims ∷ []) [] (λ e. (ltb→lt 1 (length dims) e, tt))
      (λ e. tt)

mutual
  unfolding section_walk section_next section_kids

  walk-Nested : (dims : Dims) (k : LoopKnob) → Nested (section_walk dims k)
  walk-Nested dims (knob name depth ls kids) = next-Nested dims name ls.section kids

  next-Nested :
      (dims : Dims) (name : ℕ) (sec : Option ℕ) (kids : Kids)
      → Nested (section_next dims name sec kids)
  next-Nested dims name none no_kids = Nested-append (group dims) [] (group-Nested dims) tt
  next-Nested dims name none (kid k ks) =
      Nested-append (group dims) (section_walk [] k ++ section_kids ks) (group-Nested dims)
        (Nested-append (section_walk [] k) (section_kids ks) (walk-Nested [] k) (kids-Nested ks))
  next-Nested dims name (some sz) no_kids =
      Nested-append (group (dims ++ (name, sz) ∷ [])) [] (group-Nested (dims ++ (name, sz) ∷ [])) tt
  next-Nested dims name (some sz) (kid k no_kids) = walk-Nested (dims ++ (name, sz) ∷ []) k
  next-Nested dims name (some sz) (kid k (kid k' ks)) =
      Nested-append (group (dims ++ (name, sz) ∷ []))
        (section_walk [] k ++ (section_walk [] k' ++ section_kids ks))
        (group-Nested (dims ++ (name, sz) ∷ []))
        (Nested-append (section_walk [] k) (section_walk [] k' ++ section_kids ks)
          (walk-Nested [] k)
          (Nested-append (section_walk [] k') (section_kids ks) (walk-Nested [] k')
            (kids-Nested ks)))

  kids-Nested : (ks : Kids) → Nested (section_kids ks)
  kids-Nested no_kids = tt
  kids-Nested (kid k ks) =
      Nested-append (section_walk [] k) (section_kids ks) (walk-Nested [] k) (kids-Nested ks)

-- analyzeSections makes groups of at least two loops. One after the other, the groups are a part, in the same
-- order, of the loops that have a section size, with their sizes, from the outside in: no group names a loop
-- without a size, and each loop stands in them at most once.
pub analyze_sections-groups :
    (k : LoopKnob)
    → All (λ d. 1 < length d) (analyze_sections k)
      × Sublist (joined (analyze_sections k)) (preorder k)
unfolding analyze_sections
analyze_sections-groups k = (walk-Nested [] k, walk-Sublist [] k)
