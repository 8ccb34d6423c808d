-- ===== src/Bayes/Columns/Blocks.antt =====
-- The stores of Bayes.Columns, taken apart: what is in front of the cells that are written, and what is behind.
use at_jit.Prelude.{
  ℕ, suc, ◌≡◌, refl, ap, ◌∙◌, Option, none, some, List, [], ◌∷◌, ◌++◌, length, arith, lt→ltb,
  length-set, ◌<◌,
}
use at_jit.Prelude.Partial.{◌>>=◌, Succeeds}
use at_jit.Bayes.Columns.{store, store_all}

-- The result with a list in front.
abbrev pub behind {ℓ} : {A : Type ℓ} → List A → Option (List A) → Option (List A)
behind pre m = m >>= λ xs. some (pre ++ xs)

module _ {ℓ} {A : Type ℓ} where
  pub >>=-behind :
      (pre : List A) (m : Option (List A)) (f g : List A → Option (List A))
      → ((a : List A) → f (pre ++ a) ≡ behind pre (g a))
      → (behind pre m >>= f) ≡ behind pre (m >>= g)
  >>=-behind pre none f g h = refl
  >>=-behind pre (some a) f g h = h a

  pub behind-behind :
      (x : A) (pre : List A) (m : Option (List A))
      → behind (x ∷ []) (behind pre m) ≡ behind (x ∷ pre) m
  behind-behind x pre none = refl
  behind-behind x pre (some a) = refl

  pub behind-nil : (m : Option (List A)) → m ≡ behind [] m
  behind-nil none = refl
  behind-nil (some a) = refl

  pub store-suc :
      (x : A) (mem : List A) (i : ℕ) (v : A)
      → store (x ∷ mem) (suc i) v ≡ behind (x ∷ []) (store mem i v)
  unfolding store
  store-suc x mem i v = ground arith

  store-zero : (x : A) (mem : List A) (v : A) → store (x ∷ mem) 0 v ≡ some (v ∷ mem)
  unfolding store
  store-zero x mem v = ground arith

  pub store_all-suc :
      (x : A) (mem : List A) (i : ℕ) (vs : List A)
      → store_all (x ∷ mem) (suc i) vs ≡ behind (x ∷ []) (store_all mem i vs)
  unfolding store_all
  store_all-suc x mem i [] = refl
  store_all-suc x mem i (v ∷ vs) = rw (
    store-suc x mem i v,
    >>=-behind (x ∷ []) (store mem i v) (λ m. store_all m (suc (suc i)) vs)
        (λ m. store_all m (suc i) vs) (λ m. store_all-suc x m (suc i) vs),
  )

  -- As many cells as are written are replaced.
  pub store_all-at_zero :
      (old post vs : List A)
      → length old ≡ length vs
      → store_all (old ++ post) 0 vs ≡ some (vs ++ post)
  unfolding store_all
  store_all-at_zero [] post [] e = refl
  store_all-at_zero (x ∷ old) post [] e = absurd (omega arith)
  store_all-at_zero [] post (v ∷ vs) e = absurd (omega arith)
  store_all-at_zero (x ∷ old) post (v ∷ vs) e =
      ap (λ o. o >>= λ m. store_all m 1 vs) (store-zero x (old ++ post) v)
      ∙ store_all-suc v (old ++ post) 0 vs
      ∙ ap (behind (v ∷ [])) (store_all-at_zero old post vs (omega arith))

  -- A writer that only shifts when a cell is put in front shifts by every list in front.
  pub shifted :
      (f : List A → ℕ → Option (List A))
      → ((x : A) (mem : List A) (i : ℕ) → f (x ∷ mem) (suc i) ≡ behind (x ∷ []) (f mem i))
      → (pre mem : List A) → f (pre ++ mem) (length pre) ≡ behind pre (f mem 0)
  shifted f h [] mem = behind-nil (f mem 0)
  shifted f h (x ∷ pre) mem =
      h x (pre ++ mem) (length pre)
      ∙ ap (behind (x ∷ [])) (shifted f h pre mem)
      ∙ behind-behind x pre (f mem 0)

  pub store_all-behind :
      (pre old post vs : List A)
      → length old ≡ length vs
      → store_all (pre ++ (old ++ post)) (length pre) vs ≡ some (pre ++ (vs ++ post))
  store_all-behind pre old post vs e =
      shifted (λ mem i. store_all mem i vs) (λ x mem i. store_all-suc x mem i vs) pre (old ++ post)
      ∙ ap (behind pre) (store_all-at_zero old post vs e)

  pub store-Succeeds :
      (mem : List A) (i : ℕ) (v : A)
      → i < length mem
      → Succeeds (λ m. length m ≡ length mem) (store mem i v)
  unfolding store
  store-Succeeds mem i v h = rw (lt→ltb i (length mem) h) (length-set mem i v)
