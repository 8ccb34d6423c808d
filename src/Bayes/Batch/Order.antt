-- ===== src/Bayes/Batch/Order.antt =====
-- The batch stays in order, full, and made of predictions.
use Prim.Native.Nat.{min, max}
use at_jit.Prelude.{
  ℕ, suc, ◌+◌, ◌≡◌, refl, sym, ap, ◌∙◌, Bool, true, false, Option, none, some, List, [], ◌∷◌,
  length, if◌then◌else◌, ltb, All, subst, inl, inr, Bool-cases, arith,
}
use at_jit.Prelude.Partial.{◌>>=◌, if-elim, if-cases}
use at_jit.Bayes.Batch.{
  insert_key, erase_upper_bound, consider, choose_from, choose_batch, batch_sz,
}

-- The order of the predicted times: asymmetric, and negatively transitive.
unfoldable pub IsOrder : {F : Type 0} → (F → F → Bool) → Type 0
IsOrder {F} lt =
    ((a b : F) → lt a b ≡ true → lt b a ≡ false)
    × ((a b c : F) → lt b a ≡ false → lt c b ≡ false → lt c a ≡ false)

module _ {F : Type 0} (lt : F → F → Bool) where
  irreflexive : IsOrder lt → (x : F) → lt x x ≡ false
  unfolding IsOrder
  irreflexive o x = elim (Bool-cases (lt x x)) [ inl e ↦ o.0 x x e | inr e ↦ e ]

  -- No element of the list is below x.
  abbrev pub Below : ℕ × F → List (ℕ × F) → Type 0
  Below x xs = All (λ y. lt y.1 x.1 ≡ false) xs

  unfoldable pub IsSorted : List (ℕ × F) → Type 0
  IsSorted [] = Unit
  IsSorted (x ∷ xs) = Below x xs × IsSorted xs

  Below-insert :
      (x cur : ℕ × F) (xs : List (ℕ × F))
      → lt cur.1 x.1 ≡ false
      → Below x xs
      → Below x (insert_key lt cur xs)
  unfolding insert_key
  Below-insert x cur [] h b = (h, tt)
  Below-insert x cur (y ∷ ys) h (hy, b) =
      if-elim (λ l. Below x l) (lt cur.1 y.1) (cur ∷ y ∷ ys) (y ∷ insert_key lt cur ys) (h, (hy, b))
        (hy, Below-insert x cur ys h b)

  Below-mono :
      IsOrder lt → (x y : ℕ × F) (xs : List (ℕ × F)) → lt y.1 x.1 ≡ false → Below y xs → Below x xs
  unfolding IsOrder
  Below-mono o x y [] h b = tt
  Below-mono o x y (z ∷ xs) h (hz, b) = (o.1 x.1 y.1 z.1 h hz, Below-mono o x y xs h b)

  IsSorted-insert :
      IsOrder lt → (cur : ℕ × F) (xs : List (ℕ × F)) → IsSorted xs → IsSorted (insert_key lt cur xs)
  unfolding insert_key IsSorted IsOrder
  IsSorted-insert o cur [] h = (tt, tt)
  IsSorted-insert o cur (x ∷ xs) (b, s) = elim (Bool-cases (lt cur.1 x.1)) [
    | inl e ↦ rw e ((o.0 cur.1 x.1 e, Below-mono o cur x xs (o.0 cur.1 x.1 e) b), (b, s))
    | inr e ↦ rw e (Below-insert x cur xs e b, IsSorted-insert o cur xs s)
  ]

  length-insert :
      (cur : ℕ × F) (xs : List (ℕ × F)) → length (insert_key lt cur xs) ≡ suc (length xs)
  unfolding insert_key
  length-insert cur [] = refl
  length-insert cur (x ∷ xs) =
      if-elim (λ (l : List (ℕ × F)). length l ≡ suc (suc (length xs))) (lt cur.1 x.1) (cur ∷ x ∷ xs)
        (x ∷ insert_key lt cur xs) refl (ap suc (length-insert cur xs))

  -- What erase leaves: in order, one element less, and nothing that was not there. Where there is no upper
  -- bound, no element is greater.
  Erased : ℕ × F → List (ℕ × F) → Option (List (ℕ × F)) → Type 0
  Erased cur xs none = All (λ y. lt cur.1 y.1 ≡ false) xs
  Erased cur xs (some ys) =
      (length xs ≡ suc (length ys))
      × ((z : ℕ × F) → Below z xs → Below z ys)
      × ((z : ℕ × F) → lt cur.1 z.1 ≡ false → Below z ys → Below z xs)
      × (IsSorted xs → IsSorted ys)

  Erased-cons :
      (cur x : ℕ × F) (xs : List (ℕ × F)) (o : Option (List (ℕ × F)))
      → lt cur.1 x.1 ≡ false
      → Erased cur xs o
      → Erased cur (x ∷ xs) (o >>= λ ys. some (x ∷ ys))
  unfolding Erased IsSorted
  Erased-cons cur x xs none e h = (e, h)
  Erased-cons cur x xs (some ys) e (l, b, b', s) =
      (ap suc l, (λ z d. (d.0, b z d.1)), (λ z h d. (d.0, b' z h d.1)), λ d. (b x d.0, s d.1))

  erase-Erased :
      IsOrder lt → (cur : ℕ × F) (xs : List (ℕ × F)) → Erased cur xs (erase_upper_bound lt cur xs)
  unfolding erase_upper_bound Erased IsOrder IsSorted
  erase-Erased o cur [] = tt
  erase-Erased o cur (x ∷ xs) =
      if-cases (Erased cur (x ∷ xs)) (lt cur.1 x.1) (some xs)
        (erase_upper_bound lt cur xs >>= λ ys. some (x ∷ ys))
        (λ e. (refl, (λ z b. b.1), (λ z h b. (o.1 z.1 cur.1 x.1 h (o.0 cur.1 x.1 e), b)), λ s. s.1))
        (λ e. Erased-cons cur x xs (erase_upper_bound lt cur xs) e (erase-Erased o cur xs))

  -- Below what is inserted, and below the rest.
  Below-insert_inv :
      (z cur : ℕ × F) (xs : List (ℕ × F))
      → Below z (insert_key lt cur xs)
      → Below z xs × (lt cur.1 z.1 ≡ false)
  unfolding insert_key
  Below-insert_inv z cur [] = λ b. (tt, b.0)
  Below-insert_inv z cur (x ∷ xs) =
      if-elim (λ l. Below z l → Below z (x ∷ xs) × (lt cur.1 z.1 ≡ false)) (lt cur.1 x.1)
        (cur ∷ x ∷ xs) (x ∷ insert_key lt cur xs) (λ b. (b.1, b.0))
        (λ b. let (bs, h) = Below-insert_inv z cur xs b.1 in ((b.0, bs), h))

  -- What the body of the loop does to a batch: it stays in order, it grows until it is full, and what is below all
  -- of the new batch is below all of the old one and not above the prediction.
  pub Considered : List (ℕ × F) → ℕ × F → List (ℕ × F) → Type 0
  Considered best cur best' =
      (IsSorted best → IsSorted best')
      × (length best' ≡ (if ltb (length best) batch_sz then suc (length best) else length best))
      × ((z : ℕ × F) → Below z best' → Below z best × (lt cur.1 z.1 ≡ false))

  consider_full :
      IsOrder lt
      → (best : List (ℕ × F)) (cur : ℕ × F) → ltb (length best) batch_sz ≡ false
      → (o : Option (List (ℕ × F))) → Erased cur best o
      → Considered best cur (elim o [ none ↦ best | some rest ↦ insert_key lt cur rest ])
  unfolding Considered Erased IsOrder
  consider_full o [] cur e r h = absurd (ground arith)
  consider_full o (x ∷ best) cur e none h =
      ((λ s. s), rw e refl, λ z b. (b, o.1 z.1 x.1 cur.1 b.0 h.0))
  consider_full o (x ∷ best) cur e (some ys) (l, b, b', s) = (
    (λ d. IsSorted-insert o cur ys (s d)),
    rw e (length-insert cur ys ∙ sym l),
    λ z d. let (d', h) = Below-insert_inv z cur ys d in (b' z h d', h),
  )

  pub consider-Considered :
      IsOrder lt → (best : List (ℕ × F)) (cur : ℕ × F) → Considered best cur (consider lt best cur)
  unfolding consider Considered
  consider-Considered o best cur =
      if-cases (Considered best cur) (ltb (length best) batch_sz) (insert_key lt cur best) _
        (λ e. (
          IsSorted-insert o cur best,
          rw e (length-insert cur best),
          λ z d. Below-insert_inv z cur best d,
        ))
        (λ e. consider_full o best cur e (erase_upper_bound lt cur best) (erase-Erased o cur best))

  -- All of the loop's invariant.
  Chosen : List (ℕ × F) → List F → List (ℕ × F) → Type 0
  Chosen best out best' =
      (IsSorted best → IsSorted best')
      × (length best' ≡ min (max (length best) batch_sz) (length best + length out))
      × ((z : ℕ × F) → Below z best' → Below z best × All (λ p. lt p z.1 ≡ false) out)

  choose_from-Chosen :
      IsOrder lt
      → (best : List (ℕ × F)) (i : ℕ) (out : List F) → Chosen best out (choose_from lt best i out)
  unfolding choose_from Chosen Considered
  choose_from-Chosen o best i [] = ((λ s. s), omega arith, λ z b. (b, tt))
  choose_from-Chosen o best i (p ∷ out) =
      let (s, l, b) = consider-Considered o best (i, p) in
      let (s', l', b') = choose_from-Chosen o (consider lt best (i, p)) (suc i) out in
      (
        (λ d. s' (s d)),
        ground arith,
        λ z d. let (d', ds) = b' z d in let (d'', h) = b z d' in (d'', (h, ds)),
      )

  -- For a strict weak order of the predicted times, and at least one prediction: the batch is in order, it has five
  -- configurations or all of them where there are fewer, and no prediction is below that of its first.
  pub choose_batch-best :
      IsOrder lt
      → (p : F) (out : List F)
      → (x : ℕ × F) × (xs : List (ℕ × F)) × (choose_batch lt (p ∷ out) ≡ x ∷ xs)
        × IsSorted (x ∷ xs)
        × (length (x ∷ xs) ≡ min batch_sz (suc (length out)))
        × All (λ q. lt q x.1 ≡ false) (p ∷ out)
  unfolding choose_batch Chosen IsSorted IsOrder
  choose_batch-best o p out = pick (choose_batch lt (p ∷ out)) refl
    where
      pick :
          (l : List (ℕ × F))
          → choose_batch lt (p ∷ out) ≡ l
          → (x : ℕ × F) × (xs : List (ℕ × F)) × (choose_batch lt (p ∷ out) ≡ x ∷ xs)
            × IsSorted (x ∷ xs)
            × (length (x ∷ xs) ≡ min batch_sz (suc (length out)))
            × All (λ q. lt q x.1 ≡ false) (p ∷ out)
      pick [] e =
          let (s, l, b) = choose_from-Chosen o [] 0 (p ∷ out) in
          let empty : length (choose_batch lt (p ∷ out)) ≡ 0 = ap length e in absurd (ground arith)
      pick (x ∷ xs) e =
          let (s, l, b) = choose_from-Chosen o [] 0 (p ∷ out) in
          let sorted : IsSorted (x ∷ xs) = subst IsSorted e (s tt) in
          let full : length (x ∷ xs) ≡ min batch_sz (suc (length out)) =
            sym (ap length e) ∙ at_most_five in
          (x, xs, e, sorted, full, (b x (subst (Below x) (sym e) (irreflexive o x.1, sorted.0))).1)
        where
          at_most_five : length (choose_batch lt (p ∷ out)) ≡ min batch_sz (suc (length out))
          at_most_five = let (s, l, b) = choose_from-Chosen o [] 0 (p ∷ out) in ground arith
