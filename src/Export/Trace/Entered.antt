-- ===== src/Export/Trace/Entered.antt =====
-- What entering a call does to the sets of the tracer.
use at_jit.Prelude.{
  ℕ, zero, suc, ◌+◌, ◌<◌, ◌≤◌, Bool, true, false, ◌&&◌, ◌||◌, List, [], ◌∷◌, if◌then◌else◌, ◌==◌,
  ◌≡◌, inl, inr, refl, sym, ap, subst, ◌∙◌, arith, All, Bool-cases, ==_iff, ==_refl,
}
use at_jit.Export.Referenced.{mem}
use at_jit.Export.Trace.Flows.{Occurs}
use at_jit.Export.Trace.{
  Code, TraceCall, loaded, stored, Sets, traced_value, has_call, is_object, add_object, enter,
}

pub All-Occurs :
    (P : TraceCall → Type 0) (cs : List TraceCall) (c : TraceCall) → All P cs → Occurs c cs → P c
All-Occurs P [] c h o = absurd o
All-Occurs P (d ∷ ds) c (p, h) (inl e) = subst P e p
All-Occurs P (d ∷ ds) c (p, h) (inr o) = All-Occurs P ds c h o

pub Occurs-All :
    (P : TraceCall → Type 0) (cs : List TraceCall)
    → ((c : TraceCall) → Occurs c cs → P c)
    → All P cs
Occurs-All P [] h = tt
Occurs-All P (c ∷ cs) h = (h c (inl refl), Occurs-All P cs λ d o. h d (inr o))

-- How many of the values below n are not in a set
unfoldable pub missing : ℕ → List ℕ → ℕ
missing zero vs = 0
missing (suc n) vs = (if mem n vs then 0 else 1) + missing n vs

pub missing-none : (n : ℕ) → missing n [] ≡ n
unfolding missing
missing-none zero = refl
missing-none (suc n) = omega (arith, missing-none n)

pub missing_sub :
    (n : ℕ) (vs ws : List ℕ)
    → ((v : ℕ) → mem v vs ≡ true → mem v ws ≡ true)
    → missing n ws ≤ missing n vs
unfolding missing
missing_sub zero vs ws sub = omega arith
missing_sub (suc n) vs ws sub = elim (Bool-cases (mem n vs)) [
  | inl old ↦ rw (old, sub n old) (omega (arith, missing_sub n vs ws sub))
  | inr new ↦ rw new (ground (arith, missing_sub n vs ws sub))
]

missing_above : (n v : ℕ) (vs : List ℕ) → n ≤ v → missing n (v ∷ vs) ≡ missing n vs
unfolding missing
missing_above zero v vs h = refl
missing_above (suc n) v vs h =
    let ne : (v == n) ≡ false = ground arith in
    let below : n ≤ v = omega arith in
    rw ne (ap (λ w. (if mem n vs then 0 else 1) + w) (missing_above n v vs below))

missing_new :
    (n v : ℕ) (vs : List ℕ) → v < n → mem v vs ≡ false → missing n (v ∷ vs) + 1 ≡ missing n vs
unfolding missing
missing_new zero v vs h new = absurd (omega arith)
missing_new (suc n) v vs h new = elim (Bool-cases (v == n)) [
  | inl same ↦
      let e : v ≡ n = (==_iff v n).0 same in
      let new' : mem n vs ≡ false = subst (λ k. mem k vs ≡ false) e new in
      let above : missing n (v ∷ vs) ≡ missing n vs = missing_above n v vs (omega arith) in
      rw (same, new') (omega (arith, above))
  | inr other ↦ let lt : v < n = ground arith in rw other (omega (arith, missing_new n v vs lt new))
]

unfoldable pub same_call : TraceCall → TraceCall → Bool
same_call (loaded v) (loaded w) = v == w
same_call (stored v) (stored w) = v == w
same_call _ _ = false

pub same_call-≡ : (c d : TraceCall) → same_call c d ≡ true → c ≡ d
unfolding same_call
same_call-≡ (loaded v) (loaded w) e = ap loaded ((==_iff v w).0 e)
same_call-≡ (stored v) (stored w) e = ap stored ((==_iff v w).0 e)
same_call-≡ (loaded v) (stored w) e = absurd (cc)
same_call-≡ (stored v) (loaded w) e = absurd (cc)

pub same_call_refl : (c : TraceCall) → same_call c c ≡ true
unfolding same_call
same_call_refl (loaded v) = ==_refl v
same_call_refl (stored v) = ==_refl v

-- The calls with values below n that are not entered
unfoldable pub unseen : ℕ → Sets → ℕ
unseen n s = missing n s.loaded_values + missing n s.stored_values

module _ (g : Code) where
  pub has_call-enter :
      (c d : TraceCall) (s : Sets) → has_call d (enter g c s) ≡ (same_call c d || has_call d s)
  unfolding enter same_call
  has_call-enter (loaded v) (loaded w) s = refl
  has_call-enter (stored v) (stored w) s = refl
  has_call-enter (loaded v) (stored w) s = refl
  has_call-enter (stored v) (loaded w) s = refl

  pub unseen-enter :
      (n : ℕ) (c : TraceCall) (s : Sets)
      → traced_value c < n
      → has_call c s ≡ false
      → unseen n (enter g c s) + 1 ≡ unseen n s
  unfolding unseen enter
  unseen-enter n (loaded v) s h new = omega (arith, missing_new n v s.loaded_values h new)
  unseen-enter n (stored v) s h new = omega (arith, missing_new n v s.stored_values h new)

  -- Which objects there are, for the values that were entered
  abbrev pub Objects : Sets → Type 0
  Objects s =
      (o : ℕ)
      → mem o s.objects
        ≡ (is_object (g.class o) && (mem o s.loaded_values || mem o s.stored_values))

  mem-add_object :
      (b : Bool) (v o : ℕ) (objects : List ℕ)
      → mem o (if b then v ∷ objects else objects) ≡ (b && v == o || mem o objects)
  mem-add_object true v o objects = refl
  mem-add_object false v o objects = refl

  -- Boolean facts on an object that is entered: whether it is one (b), and whether it is in each set (l, m)
  at_object : (b l m e : Bool) → e ≡ true → (b && e || b && (l || m)) ≡ (b && ((e || l) || m))
  at_object b l m e q = ground arith

  off_object : (b b' l m e : Bool) → e ≡ false → (b' && e || b && (l || m)) ≡ (b && ((e || l) || m))
  off_object b b' l m e q = ground arith

  swap_sets : (b l m : Bool) → (b && (l || m)) ≡ (b && (m || l))
  swap_sets b l m = ground arith

  added :
      (v o : ℕ) (objects : List ℕ) (l m : Bool)
      → mem o objects ≡ (is_object (g.class o) && (l || m))
      → mem o (add_object (g.class v) v objects) ≡ (is_object (g.class o) && ((v == o || l) || m))
  added v o objects l m e =
      mem-add_object (is_object (g.class v)) v o objects
      ∙ ap (λ b. is_object (g.class v) && v == o || b) e
      ∙ elim (Bool-cases (v == o)) [
        | inl same ↦
            subst
              (λ k.
                (is_object (g.class k) && v == o || is_object (g.class o) && (l || m))
                ≡ (is_object (g.class o) && ((v == o || l) || m)))
              (sym ((==_iff v o).0 same)) (at_object (is_object (g.class o)) l m (v == o) same)
        | inr other ↦ off_object (is_object (g.class o)) (is_object (g.class v)) l m (v == o) other
      ]

  pub Objects-enter : (c : TraceCall) (s : Sets) → Objects s → Objects (enter g c s)
  unfolding enter
  Objects-enter (loaded v) s h o =
      added v o s.objects (mem o s.loaded_values) (mem o s.stored_values) (h o)
  Objects-enter (stored v) s h o =
      added v o s.objects (mem o s.stored_values) (mem o s.loaded_values)
        (h o ∙ swap_sets (is_object (g.class o)) (mem o s.loaded_values) (mem o s.stored_values))
      ∙ swap_sets (is_object (g.class o)) (v == o || mem o s.stored_values) (mem o s.loaded_values)
