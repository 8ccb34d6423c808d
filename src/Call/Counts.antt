-- ===== src/Call/Counts.antt =====
-- The placeholders of a call and of its context, read as the same list of slots: how many there are, and where each is
-- used first.
use at_jit.Prelude.{
  ℕ, ◌+◌, ◌%◌, ◌^◌, ◌<◌, Option, none, some, List, [], ◌∷◌, map, if◌then◌else◌, ltb, leb, ◌==◌, ◌≡◌,
  refl, sym, ap, ◌∙◌, arith, All,
}
use at_jit.Context.Interfaces.{Hashes}
use at_jit.Context.{Argument, forward, int, float, ptr, struct, module_of, int_range}
use at_jit.Wrappers.{get_new_arg_count}
use at_jit.Wrappers.Types.{first_use, Small}
use at_jit.Call.{Arg, placeholder, wrapper, knob, value, option, max_placeholder}
use at_jit.Call.Slots.{slot_of, slot_of_arg, SmallArg}
use at_jit.Call.Params.{as_argument}

-- The type at the first slot that holds placeholder n
first_in {ℓ} : {Ty : Type ℓ} → ℕ → List (Option ℕ) → List Ty → Option Ty
first_in n [] ts = none
first_in n (o ∷ os) [] = none
first_in n (none ∷ os) (t ∷ ts) = first_in n os ts
first_in n (some k ∷ os) (t ∷ ts) = if k == n then some t else first_in n os ts

-- One more than the largest placeholder, and m at least
pub count_in : List (Option ℕ) → ℕ → ℕ
count_in [] m = m
count_in (none ∷ os) m = count_in os m
count_in (some k ∷ os) m = count_in os (if leb (k + 1) m then m else k + 1)

unfoldable pub SmallSlot : Option ℕ → Type 0
SmallSlot none = Unit
SmallSlot (some k) = k + 1 < 2 ^ 32

module _ (h : Hashes) (Ty : Type 0) where
  first_use-in :
      (n : ℕ) (xs : List (Argument h)) (ts : List Ty)
      → first_use h n xs ts ≡ first_in n (map (slot_of h) xs) ts
  unfolding first_in
  first_use-in n [] ts = refl
  first_use-in n (forward k ∷ xs) [] = refl
  first_use-in n (forward k ∷ xs) (t ∷ ts) =
      ap (λ r. if k == n then some t else r) (first_use-in n xs ts)
  first_use-in n (int z ∷ xs) [] = refl
  first_use-in n (int z ∷ xs) (t ∷ ts) = first_use-in n xs ts
  first_use-in n (float z ∷ xs) [] = refl
  first_use-in n (float z ∷ xs) (t ∷ ts) = first_use-in n xs ts
  first_use-in n (ptr z ∷ xs) [] = refl
  first_use-in n (ptr z ∷ xs) (t ∷ ts) = first_use-in n xs ts
  first_use-in n (struct z ∷ xs) [] = refl
  first_use-in n (struct z ∷ xs) (t ∷ ts) = first_use-in n xs ts
  first_use-in n (module_of z ∷ xs) [] = refl
  first_use-in n (module_of z ∷ xs) (t ∷ ts) = first_use-in n xs ts
  first_use-in n (int_range z ∷ xs) [] = refl
  first_use-in n (int_range z ∷ xs) (t ∷ ts) = first_use-in n xs ts

  pub get_new_arg_count-in :
      (xs : List (Argument h)) (m : ℕ)
      → All SmallSlot (map (slot_of h) xs)
      → get_new_arg_count h xs m ≡ count_in (map (slot_of h) xs) m
  unfolding get_new_arg_count count_in SmallSlot
  get_new_arg_count-in [] m s = refl
  get_new_arg_count-in (forward k ∷ xs) m (small, s) =
      let fits : (k + 1) % 2 ^ 32 ≡ k + 1 = omega arith in
      rw fits (get_new_arg_count-in xs (if leb (k + 1) m then m else k + 1) s)
  get_new_arg_count-in (int z ∷ xs) m (small, s) = get_new_arg_count-in xs m s
  get_new_arg_count-in (float z ∷ xs) m (small, s) = get_new_arg_count-in xs m s
  get_new_arg_count-in (ptr z ∷ xs) m (small, s) = get_new_arg_count-in xs m s
  get_new_arg_count-in (struct z ∷ xs) m (small, s) = get_new_arg_count-in xs m s
  get_new_arg_count-in (module_of z ∷ xs) m (small, s) = get_new_arg_count-in xs m s
  get_new_arg_count-in (int_range z ∷ xs) m (small, s) = get_new_arg_count-in xs m s

  same_larger :
      (k m : ℕ) → (if ltb (k + 1) m then m else k + 1) ≡ (if leb (k + 1) m then m else k + 1)
  same_larger k m = ground arith

  pub max_placeholder-in :
      (al : List (Arg h Ty)) (m : ℕ)
      → max_placeholder h Ty al m ≡ count_in (map (slot_of_arg h Ty) al) m
  unfolding max_placeholder count_in
  max_placeholder-in [] m = refl
  max_placeholder-in (placeholder s k ∷ al) m =
      rw (same_larger k m) (max_placeholder-in al (if leb (k + 1) m then m else k + 1))
  max_placeholder-in (wrapper t f ∷ al) m = max_placeholder-in al m
  max_placeholder-in (knob r ∷ al) m = max_placeholder-in al m
  max_placeholder-in (value v ∷ al) m = max_placeholder-in al m
  max_placeholder-in (option o v ∷ al) m = max_placeholder-in al m

  slots-as_argument :
      (al : List (Arg h Ty))
      → map (slot_of h) (map (as_argument h Ty) al) ≡ map (slot_of_arg h Ty) al
  slots-as_argument [] = refl
  slots-as_argument (placeholder s k ∷ al) = ap (λ l. some k ∷ l) (slots-as_argument al)
  slots-as_argument (wrapper t f ∷ al) = ap (λ l. none ∷ l) (slots-as_argument al)
  slots-as_argument (knob r ∷ al) = ap (λ l. none ∷ l) (slots-as_argument al)
  slots-as_argument (value v ∷ al) = ap (λ l. none ∷ l) (slots-as_argument al)
  slots-as_argument (option o v ∷ al) = ap (λ l. none ∷ l) (slots-as_argument al)

  pub small_slots :
      (al : List (Arg h Ty)) → All (SmallArg h Ty) al → All SmallSlot (map (slot_of_arg h Ty) al)
  unfolding SmallSlot
  small_slots [] s = tt
  small_slots (placeholder s k ∷ al) (small, smalls) = (small, small_slots al smalls)
  small_slots (wrapper t f ∷ al) (small, smalls) = (tt, small_slots al smalls)
  small_slots (knob r ∷ al) (small, smalls) = (tt, small_slots al smalls)
  small_slots (value v ∷ al) (small, smalls) = (tt, small_slots al smalls)
  small_slots (option o v ∷ al) (small, smalls) = (tt, small_slots al smalls)

  pub All-Small : (xs : List (Argument h)) → All SmallSlot (map (slot_of h) xs) → All (Small h) xs
  unfolding SmallSlot
  All-Small [] s = tt
  All-Small (forward k ∷ xs) (small, s) = (small, All-Small xs s)
  All-Small (int z ∷ xs) (small, s) = (tt, All-Small xs s)
  All-Small (float z ∷ xs) (small, s) = (tt, All-Small xs s)
  All-Small (ptr z ∷ xs) (small, s) = (tt, All-Small xs s)
  All-Small (struct z ∷ xs) (small, s) = (tt, All-Small xs s)
  All-Small (module_of z ∷ xs) (small, s) = (tt, All-Small xs s)
  All-Small (int_range z ∷ xs) (small, s) = (tt, All-Small xs s)

  pub same_first :
      (k : ℕ) (bound : List (Arg h Ty)) (xs : List (Argument h)) (ps : List Ty)
      → map (slot_of h) xs ≡ map (slot_of_arg h Ty) bound
      → first_use h k xs ps ≡ first_use h k (map (as_argument h Ty) bound) ps
  same_first k bound xs ps slots =
      first_use-in k xs ps
      ∙ ap (λ os. first_in k os ps) (slots ∙ sym (slots-as_argument bound))
      ∙ sym (first_use-in k (map (as_argument h Ty) bound) ps)
