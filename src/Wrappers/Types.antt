-- ===== src/Wrappers/Types.antt =====
-- The wrapper's parameter types: no access is out of bounds, and each type is that of the first use.
use at_jit.Prelude.{
  ℕ, zero, suc, ◌+◌, ◌%◌, ◌^◌, ◌<◌, ◌≤◌, Bool, true, false, Option, none, some, List, [], ◌∷◌,
  length, get_elem?, set, replicate, if◌then◌else◌, leb, ◌==◌, ◌≡◌, refl, sym, subst, ◌∙◌, ap,
  arith, All, ==_iff, Bool-cases, inl, inr, length-set, get_elem?-set_self, get_elem?-set_ne,
  length-replicate, some-injective, ◌⊎◌,
}
use at_jit.Prelude.Partial.{Succeeds, Succeeds-mono}
use at_jit.Context.Interfaces.{Hashes}
use at_jit.Context.{Argument, forward}
use at_jit.Wrappers.{get_new_arg_count, fill, wrapper_types}

abbrev pub or_else {ℓ} : {A : Type ℓ} → Option A → Option A → Option A
or_else none o = o
or_else (some a) o = some a

true_is_not_false : {b : Bool} → b ≡ true → b ≡ false → ⊥
true_is_not_false t f = ground arith

module _ (h : Hashes) where
  -- The placeholder's index plus one fits in 32 bits.
  abbrev pub Small : Argument h → Type 0
  Small (forward k) = k + 1 < 2 ^ 32
  Small _ = Unit

  -- The placeholder has a slot.
  abbrev pub Fits : ℕ → Argument h → Type 0
  Fits n (forward k) = k < n
  Fits n _ = Unit

  abbrev larger : ℕ → ℕ → ℕ
  larger n m = if leb n m then m else n

  larger-bounds : (n m : ℕ) → (n ≤ larger n m) × (m ≤ larger n m)
  larger-bounds n m = ground arith

  get_new_arg_count-grows : (xs : List (Argument h)) (m : ℕ) → m ≤ get_new_arg_count h xs m
  unfolding get_new_arg_count
  get_new_arg_count-grows [] m = omega arith
  get_new_arg_count-grows (forward k ∷ xs) m = omega (
    arith,
    get_new_arg_count-grows xs (larger ((k + 1) % 2 ^ 32) m),
    (larger-bounds ((k + 1) % 2 ^ 32) m).1,
  )
  get_new_arg_count-grows (x ∷ xs) m = get_new_arg_count-grows xs m

  pub get_new_arg_count-Fits :
      (xs : List (Argument h)) (m : ℕ) → All Small xs → All (Fits (get_new_arg_count h xs m)) xs
  unfolding get_new_arg_count
  get_new_arg_count-Fits [] m s = tt
  get_new_arg_count-Fits (forward k ∷ xs) m (small, s) = (
    omega (
      arith,
      get_new_arg_count-grows xs (larger ((k + 1) % 2 ^ 32) m),
      (larger-bounds ((k + 1) % 2 ^ 32) m).0,
    ),
    get_new_arg_count-Fits xs (larger ((k + 1) % 2 ^ 32) m) s,
  )
  get_new_arg_count-Fits (x ∷ xs) m (small, s) = (tt, get_new_arg_count-Fits xs m s)

  module _ {Ty : Type 0} where
    -- The type of the first argument that forwards placeholder n.
    abbrev pub first_use : ℕ → List (Argument h) → List Ty → Option Ty
    first_use n [] ts = none
    first_use n (x ∷ xs) [] = none
    first_use n (forward k ∷ xs) (t ∷ ts) = if k == n then some t else first_use n xs ts
    first_use n (_ ∷ xs) (t ∷ ts) = first_use n xs ts

    -- Every slot keeps its type, or gets that of the first use.
    abbrev pub Filled : List (Argument h) → List Ty → List (Option Ty) → List (Option Ty) → Type 0
    Filled xs ts slots r =
        (n : ℕ) (o : Option Ty)
        → get_elem? slots n ≡ some o
        → get_elem? r n ≡ some (or_else o (first_use n xs ts))

    or_else-none : (o : Option Ty) → o ≡ or_else o none
    or_else-none none = refl
    or_else-none (some t) = refl

    -- The first use of k fills the empty slot, and the later uses find it filled.
    pub Filled-set :
        (k : ℕ) (t : Ty) (xs : List (Argument h)) (ts : List Ty) (slots r : List (Option Ty))
        → k < length slots
        → get_elem? slots k ≡ some none
        → Filled xs ts (set slots k (some t)) r
        → Filled (forward k ∷ xs) (t ∷ ts) slots r
    Filled-set k t xs ts slots r lt empty rest n o e = elim (Bool-cases (k == n)) [
      | inl same ↦
          let at : k ≡ n = (==_iff k n).0 same in
          let missing : o ≡ none = some-injective (sym e ∙ ap (get_elem? slots) (sym at) ∙ empty) in
          rw (missing, same)
            (ap (get_elem? r) (sym at) ∙ rest k (some t) (get_elem?-set_self slots k (some t) lt))
      | inr other ↦ rw other (
          rest n o (
            get_elem?-set_ne slots k n (some t) (λ at. true_is_not_false ((==_iff k n).1 at) other)
            ∙ e))
    ]

    pub Filled-keep :
        (k : ℕ) (t u : Ty) (xs : List (Argument h)) (ts : List Ty) (slots r : List (Option Ty))
        → get_elem? slots k ≡ some (some u)
        → Filled xs ts slots r
        → Filled (forward k ∷ xs) (t ∷ ts) slots r
    Filled-keep k t u xs ts slots r full rest n o e = elim (Bool-cases (k == n)) [
      | inl same ↦
          let at : k ≡ n = (==_iff k n).0 same in
          let there : o ≡ some u = some-injective (sym e ∙ ap (get_elem? slots) (sym at) ∙ full) in
          rw there (ap (get_elem? r) (sym at) ∙ rest k (some u) full)
      | inr other ↦ rw other (rest n o e)
    ]

    pub slot_cases :
        (slots : List (Option Ty)) (k : ℕ)
        → k < length slots
        → (get_elem? slots k ≡ some none) ⊎ ((u : Ty) × (get_elem? slots k ≡ some (some u)))
    slot_cases [] k lt = absurd (omega arith)
    slot_cases (none ∷ slots) zero lt = inl refl
    slot_cases (some u ∷ slots) zero lt = inr (u, refl)
    slot_cases (s ∷ slots) (suc k) lt = slot_cases slots k (omega arith)

    pub fill_lem :
        (xs : List (Argument h)) (ts : List Ty) (slots : List (Option Ty))
        → length xs ≤ length ts
        → All (Fits (length slots)) xs
        → Succeeds (Filled xs ts slots) (fill h xs ts slots)
    unfolding fill
    fill_lem [] ts slots len f = λ n o e. e ∙ ap some (or_else-none o)
    fill_lem (x ∷ xs) [] slots len f = absurd (omega arith)
    fill_lem (forward k ∷ xs) (t ∷ ts) slots len (in_, f) = elim (slot_cases slots k in_) [
      | inl empty ↦
          rw (Succeeds, empty)
            (Succeeds-mono _ _ (fill h xs ts (set slots k (some t)))
              (λ r rest. Filled-set k t xs ts slots r in_ empty rest)
              (fill_lem xs ts (set slots k (some t)) (omega arith)
                (subst (λ n. All (Fits n) xs) (sym (length-set slots k (some t))) f)))
      | inr (u, full) ↦
          rw (Succeeds, full)
            (Succeeds-mono _ _ (fill h xs ts slots)
              (λ r rest. Filled-keep k t u xs ts slots r full rest)
              (fill_lem xs ts slots (omega arith) f))
    ]
    fill_lem (x ∷ xs) (t ∷ ts) slots len (in_, f) = fill_lem xs ts slots (omega arith) f

    pub get_elem?-replicate :
        (m n : ℕ) (o : Option Ty) → n < m → get_elem? (replicate m o) n ≡ some o
    get_elem?-replicate zero n o lt = absurd (omega arith)
    get_elem?-replicate (suc m) zero o lt = refl
    get_elem?-replicate (suc m) (suc n) o lt = get_elem?-replicate m n o (omega arith)

    -- Where the function has a parameter for each argument, and the indexes are below 2^32 - 1, GetWrapperTy
    -- accesses nothing out of bounds, and gives each placeholder below the count the type of the first
    -- parameter that it is forwarded to: a null pointer where it is forwarded to none.
    pub wrapper_types-first :
        (xs : List (Argument h)) (ts : List Ty)
        → length xs ≤ length ts
        → All Small xs
        → Succeeds
            (λ r. (n : ℕ) → n < get_new_arg_count h xs 0 → get_elem? r n ≡ some (first_use n xs ts))
            (wrapper_types h xs ts)
    unfolding wrapper_types
    wrapper_types-first xs ts len small =
        Succeeds-mono _ _ (fill h xs ts (replicate (get_new_arg_count h xs 0) none))
          (λ r rest n lt. rest n none (get_elem?-replicate (get_new_arg_count h xs 0) n none lt))
          (fill_lem xs ts (replicate (get_new_arg_count h xs 0) none) len (
            subst (λ n. All (Fits n) xs) (sym (length-replicate (get_new_arg_count h xs 0) none))
              (get_new_arg_count-Fits xs 0 small)))
