-- ===== src/Bayes/Batch/Lowest.antt =====
-- Which predictions the batch is made of: its indices, and what a run of ever lower predictions does to it.
use at_jit.Prelude.{
  ℕ, suc, ◌≡◌, refl, sym, subst, ap, ◌∙◌, Bool, true, Option, none, some, List, [], ◌∷◌, ◌++◌,
  length, ltb, All, inl, inr, Bool-cases, get_elem?, arith, length-append,
}
use mathlib.Core.Bool.{false≢true}
use mathlib.Core.List.{append_assoc}
use at_jit.Prelude.Partial.{◌>>=◌, if-elim}
use at_jit.Bayes.Batch.{
  insert_key, erase_upper_bound, consider, choose_from, choose_batch, batch_sz,
}
use at_jit.Bayes.Batch.Order.{IsOrder, IsSorted, Below}

get_elem?-append {ℓ} :
    {A : Type ℓ} (xs : List A) (y : A) (ys : List A) → get_elem? (xs ++ y ∷ ys) (length xs) ≡ some y
get_elem?-append [] y ys = refl
get_elem?-append (x ∷ xs) y ys = get_elem?-append xs y ys

module _ {F : Type 0} (lt : F → F → Bool) where
  insert-All :
      (P : ℕ × F → Type 0) (cur : ℕ × F) (xs : List (ℕ × F))
      → P cur
      → All P xs
      → All P (insert_key lt cur xs)
  unfolding insert_key
  insert-All P cur [] p h = (p, tt)
  insert-All P cur (x ∷ xs) p h =
      if-elim (All P) (lt cur.1 x.1) (cur ∷ x ∷ xs) (x ∷ insert_key lt cur xs) (p, h)
        (h.0, insert-All P cur xs p h.1)

  AllLeft : (ℕ × F → Type 0) → Option (List (ℕ × F)) → Type 0
  AllLeft P none = Unit
  AllLeft P (some xs) = All P xs

  AllLeft-cons :
      (P : ℕ × F → Type 0) (x : ℕ × F) (o : Option (List (ℕ × F)))
      → P x
      → AllLeft P o
      → AllLeft P (o >>= λ ys. some (x ∷ ys))
  unfolding AllLeft
  AllLeft-cons P x none p h = tt
  AllLeft-cons P x (some ys) p h = (p, h)

  erase-All :
      (P : ℕ × F → Type 0) (cur : ℕ × F) (xs : List (ℕ × F))
      → All P xs
      → AllLeft P (erase_upper_bound lt cur xs)
  unfolding erase_upper_bound AllLeft
  erase-All P cur [] h = tt
  erase-All P cur (x ∷ xs) h =
      if-elim (AllLeft P) (lt cur.1 x.1) (some xs)
        (erase_upper_bound lt cur xs >>= λ ys. some (x ∷ ys)) h.1
        (AllLeft-cons P x (erase_upper_bound lt cur xs) h.0 (erase-All P cur xs h.1))

  replace-All :
      (P : ℕ × F → Type 0) (cur : ℕ × F) (best : List (ℕ × F)) (o : Option (List (ℕ × F)))
      → P cur
      → All P best
      → AllLeft P o
      → All P (elim o [ none ↦ best | some rest ↦ insert_key lt cur rest ])
  unfolding AllLeft
  replace-All P cur best none p h h' = h
  replace-All P cur best (some rest) p h h' = insert-All P cur rest p h'

  consider-All :
      (P : ℕ × F → Type 0) (best : List (ℕ × F)) (cur : ℕ × F)
      → P cur
      → All P best
      → All P (consider lt best cur)
  unfolding consider
  consider-All P best cur p h =
      if-elim (All P) (ltb (length best) batch_sz) (insert_key lt cur best) _
        (insert-All P cur best p h)
        (replace-All P cur best (erase_upper_bound lt cur best) p h (erase-All P cur best h))

  choose_from-indices :
      (best : List (ℕ × F)) (done out : List F)
      → All (λ e. get_elem? (done ++ out) e.0 ≡ some e.1) best
      → All (λ e. get_elem? (done ++ out) e.0 ≡ some e.1) (choose_from lt best (length done) out)
  unfolding choose_from
  choose_from-indices best done [] h = h
  choose_from-indices best done (p ∷ out) h =
      let P = λ (e : ℕ × F). get_elem? (done ++ p ∷ out) e.0 ≡ some e.1 in
      let q : (done ++ p ∷ []) ++ out ≡ done ++ p ∷ out = append_assoc done (p ∷ []) out in
      let l : length (done ++ p ∷ []) ≡ suc (length done) =
        omega (arith, length-append done (p ∷ [])) in
      let next = consider-All P best (length done, p) (get_elem?-append done p out) h in
      subst
        (λ all.
          All (λ (e : ℕ × F). get_elem? all e.0 ≡ some e.1)
            (choose_from lt (consider lt best (length done, p)) (suc (length done)) out))
        q
        (subst
          (λ n.
            All (λ (e : ℕ × F). get_elem? ((done ++ p ∷ []) ++ out) e.0 ≡ some e.1)
              (choose_from lt (consider lt best (length done, p)) n out))
          l
          (choose_from-indices (consider lt best (length done, p)) (done ++ p ∷ []) out (
            subst
              (λ all.
                All (λ (e : ℕ × F). get_elem? all e.0 ≡ some e.1)
                  (consider lt best (length done, p)))
              (sym q) next)))

  -- Every entry of the batch is a prediction with its own index: the configurations that are
  -- taken for it are there, and are the ones that were predicted.
  pub choose_batch-indices :
      (out : List F) → All (λ e. get_elem? out e.0 ≡ some e.1) (choose_batch lt out)
  unfolding choose_batch
  choose_batch-indices out = choose_from-indices [] [] out tt

  -- Each prediction is lower than the one before.
  unfoldable pub Descends : F → List F → Type 0
  Descends b [] = Unit
  Descends b (p ∷ out) = (lt p b ≡ true) × Descends p out

  insert_front :
      (cur : ℕ × F) (rest : List (ℕ × F))
      → All (λ y. lt cur.1 y.1 ≡ true) rest
      → insert_key lt cur rest ≡ cur ∷ rest
  unfolding insert_key
  insert_front cur [] h = refl
  insert_front cur (y ∷ ys) h = rw h.0

  Above :
      IsOrder lt
      → (cur b : ℕ × F) (rest : List (ℕ × F)) → lt cur.1 b.1 ≡ true
      → Below lt b rest
      → All (λ y. lt cur.1 y.1 ≡ true) rest
  unfolding IsOrder
  Above o cur b [] h d = tt
  Above o cur b (y ∷ ys) h d = (
    elim (Bool-cases (lt cur.1 y.1)) [
      | inl e ↦ e
      | inr e ↦ absurd (false≢true (sym (o.1 b.1 y.1 cur.1 d.0 e) ∙ h))
    ],
    Above o cur b ys h d.1,
  )

  Above-Below :
      IsOrder lt
      → (cur : ℕ × F) (rest : List (ℕ × F)) → All (λ y. lt cur.1 y.1 ≡ true) rest
      → Below lt cur rest
  unfolding IsOrder
  Above-Below o cur [] h = tt
  Above-Below o cur (y ∷ ys) h = (o.0 cur.1 y.1 h.0, Above-Below o cur ys h.1)

  consider-lower :
      (cur b : ℕ × F) (rest : List (ℕ × F))
      → suc (length rest) ≡ batch_sz
      → lt cur.1 b.1 ≡ true
      → All (λ y. lt cur.1 y.1 ≡ true) rest
      → consider lt (b ∷ rest) cur ≡ cur ∷ rest
  unfolding consider erase_upper_bound
  consider-lower cur b rest l h a = rw (l, h) (insert_front cur rest a)

  -- On a full batch, a run of predictions that are lower and lower replaces only the lowest element: the other four
  -- stay, however many better predictions come.
  pub choose_from-keeps :
      IsOrder lt
      → (b : ℕ × F) (rest : List (ℕ × F)) (i : ℕ) (out : List F) → IsSorted lt (b ∷ rest)
      → suc (length rest) ≡ batch_sz
      → Descends b.1 out
      → (x : ℕ × F) × (choose_from lt (b ∷ rest) i out ≡ x ∷ rest)
  unfolding choose_from Descends IsSorted
  choose_from-keeps o b rest i [] s l d = (b, refl)
  choose_from-keeps o b rest i (p ∷ out) s l d =
      let above = Above o (i, p) b rest d.0 s.0 in
      let stays = Above-Below o (i, p) rest above in
      let (x, e) = choose_from-keeps o (i, p) rest (suc i) out (stays, s.1) l d.1 in
      (
        x,
        ap (λ best. choose_from lt best (suc i) out) (consider-lower (i, p) b rest l d.0 above) ∙ e,
      )
