-- ===== src/Export/Trace/Flows.antt =====
-- The calls that the tracer's functions make, rule by rule.
use at_jit.Prelude.{
  ℕ, Option, none, some, List, [], ◌∷◌, map, ◌≡◌, ◌⊎◌, inl, inr, refl, sym, ap, subst,
}
use at_jit.Export.Trace.{
  Class, phi, select, alloca, get_element_ptr, bit_cast, constant_cast, global_variable,
  global_function, constant_array, memcpy, store, other_value, Code, TraceCall, loaded, stored,
  loaded_calls, stored_calls, calls,
}

abbrev pub Occurs : {A : Type 0} → A → List A → Type 0
Occurs c [] = ⊥
Occurs c (d ∷ ds) = (d ≡ c) ⊎ Occurs c ds

Occurs-map : {A : Type 0} (f : ℕ → A) (v : ℕ) (vs : List ℕ) → Occurs v vs → Occurs (f v) (map f vs)
Occurs-map f v [] o = absurd o
Occurs-map f v (w ∷ vs) (inl e) = inl (ap f e)
Occurs-map f v (w ∷ vs) (inr o) = inr (Occurs-map f v vs o)

map-Occurs :
    {A : Type 0} (P : A → Type 0) (f : ℕ → A) (vs : List ℕ) (c : A)
    → ((v : ℕ) → Occurs v vs → P (f v))
    → Occurs c (map f vs)
    → P c
map-Occurs P f [] c h o = absurd o
map-Occurs P f (v ∷ vs) c h (inl e) = subst P e (h v (inl refl))
map-Occurs P f (v ∷ vs) c h (inr o) = map-Occurs P f vs c (λ w i. h w (inr i)) o

module _ (g : Code) where
  -- What a value that is loaded may come from, and what may be stored through a value
  pub data Flows : TraceCall → TraceCall → Type 0 where
    phi_value :
        {v w : ℕ} {vs : List ℕ} → g.class v ≡ phi vs → Occurs w vs → Flows (loaded v) (loaded w)
    true_value : {v t f : ℕ} → g.class v ≡ select t f → Flows (loaded v) (loaded t)
    false_value : {v t f : ℕ} → g.class v ≡ select t f → Flows (loaded v) (loaded f)
    stack_slot : {v : ℕ} → g.class v ≡ alloca → Flows (loaded v) (stored v)
    address : {v p : ℕ} → g.class v ≡ get_element_ptr p → Flows (loaded v) (loaded p)
    cast : {v p : ℕ} → g.class v ≡ bit_cast p → Flows (loaded v) (loaded p)
    constant : {v p : ℕ} → g.class v ≡ constant_cast p → Flows (loaded v) (loaded p)
    initializer : {v p : ℕ} → g.class v ≡ global_variable (some p) → Flows (loaded v) (loaded p)
    global_slot :
        {v : ℕ} {i : Option ℕ} → g.class v ≡ global_variable i → Flows (loaded v) (stored v)
    element :
        {v w : ℕ} {vs : List ℕ}
        → g.class v ≡ constant_array vs
        → Occurs w vs
        → Flows (loaded v) (loaded w)
    copied : {v p : ℕ} → g.class v ≡ memcpy p → Flows (stored v) (loaded p)
    stored_value : {v p : ℕ} → g.class v ≡ store p → Flows (stored v) (loaded p)
    slot_user : {v u : ℕ} → g.class v ≡ alloca → Occurs u (g.users v) → Flows (stored v) (stored u)
    address_user :
        {v p u : ℕ}
        → g.class v ≡ get_element_ptr p
        → Occurs u (g.users v)
        → Flows (stored v) (stored u)
    cast_user :
        {v p u : ℕ} → g.class v ≡ bit_cast p → Occurs u (g.users v) → Flows (stored v) (stored u)

  of_loaded :
      (k : Class) (v : ℕ) (d : TraceCall)
      → g.class v ≡ k
      → Occurs d (loaded_calls k v)
      → Flows (loaded v) d
  of_loaded (phi vs) v d e o = map-Occurs (Flows (loaded v)) loaded vs d (λ w i. phi_value e i) o
  of_loaded (select t f) v d e (inl p) = subst (Flows (loaded v)) p (true_value e)
  of_loaded (select t f) v d e (inr (inl p)) = subst (Flows (loaded v)) p (false_value e)
  of_loaded (select t f) v d e (inr (inr o)) = absurd o
  of_loaded alloca v d e (inl p) = subst (Flows (loaded v)) p (stack_slot e)
  of_loaded alloca v d e (inr o) = absurd o
  of_loaded (get_element_ptr q) v d e (inl p) = subst (Flows (loaded v)) p (address e)
  of_loaded (get_element_ptr q) v d e (inr o) = absurd o
  of_loaded (bit_cast q) v d e (inl p) = subst (Flows (loaded v)) p (cast e)
  of_loaded (bit_cast q) v d e (inr o) = absurd o
  of_loaded (constant_cast q) v d e (inl p) = subst (Flows (loaded v)) p (constant e)
  of_loaded (constant_cast q) v d e (inr o) = absurd o
  of_loaded (global_variable none) v d e (inl p) = subst (Flows (loaded v)) p (global_slot e)
  of_loaded (global_variable none) v d e (inr o) = absurd o
  of_loaded (global_variable (some i)) v d e (inl p) = subst (Flows (loaded v)) p (initializer e)
  of_loaded (global_variable (some i)) v d e (inr (inl p)) =
      subst (Flows (loaded v)) p (global_slot e)
  of_loaded (global_variable (some i)) v d e (inr (inr o)) = absurd o
  of_loaded global_function v d e o = absurd o
  of_loaded (constant_array vs) v d e o =
      map-Occurs (Flows (loaded v)) loaded vs d (λ w i. element e i) o
  of_loaded (memcpy q) v d e o = absurd o
  of_loaded (store q) v d e o = absurd o
  of_loaded other_value v d e o = absurd o

  of_stored :
      (k : Class) (v : ℕ) (d : TraceCall)
      → g.class v ≡ k
      → Occurs d (stored_calls k (g.users v))
      → Flows (stored v) d
  of_stored (phi vs) v d e o = absurd o
  of_stored (select t f) v d e o = absurd o
  of_stored alloca v d e o =
      map-Occurs (Flows (stored v)) stored (g.users v) d (λ u i. slot_user e i) o
  of_stored (get_element_ptr q) v d e o =
      map-Occurs (Flows (stored v)) stored (g.users v) d (λ u i. address_user e i) o
  of_stored (bit_cast q) v d e o =
      map-Occurs (Flows (stored v)) stored (g.users v) d (λ u i. cast_user e i) o
  of_stored (constant_cast q) v d e o = absurd o
  of_stored (global_variable i) v d e o = absurd o
  of_stored global_function v d e o = absurd o
  of_stored (constant_array vs) v d e o = absurd o
  of_stored (memcpy q) v d e (inl p) = subst (Flows (stored v)) p (copied e)
  of_stored (memcpy q) v d e (inr o) = absurd o
  of_stored (store q) v d e (inl p) = subst (Flows (stored v)) p (stored_value e)
  of_stored (store q) v d e (inr o) = absurd o
  of_stored other_value v d e o = absurd o

  pub calls-Flows : (c d : TraceCall) → Occurs d (calls g c) → Flows c d
  unfolding calls
  calls-Flows (loaded v) d o = of_loaded (g.class v) v d refl o
  calls-Flows (stored v) d o = of_stored (g.class v) v d refl o

  at_loaded :
      (k : Class) (v : ℕ) (d : TraceCall)
      → g.class v ≡ k
      → Occurs d (loaded_calls k v)
      → Occurs d (calls g (loaded v))
  unfolding calls
  at_loaded k v d e o = subst (λ k'. Occurs d (loaded_calls k' v)) (sym e) o

  at_stored :
      (k : Class) (v : ℕ) (d : TraceCall)
      → g.class v ≡ k
      → Occurs d (stored_calls k (g.users v))
      → Occurs d (calls g (stored v))
  unfolding calls
  at_stored k v d e o = subst (λ k'. Occurs d (stored_calls k' (g.users v))) (sym e) o

  slot_call :
      (i : Option ℕ) (v : ℕ)
      → g.class v ≡ global_variable i
      → Occurs (stored v) (calls g (loaded v))
  slot_call none v e = at_loaded _ v _ e (inl refl)
  slot_call (some i) v e = at_loaded _ v _ e (inr (inl refl))

  pub Flows-calls : (c d : TraceCall) → Flows c d → Occurs d (calls g c)
  Flows-calls c d (phi_value {v} {w} {vs} e i) = at_loaded _ v _ e (Occurs-map loaded w vs i)
  Flows-calls c d (true_value {v} e) = at_loaded _ v _ e (inl refl)
  Flows-calls c d (false_value {v} e) = at_loaded _ v _ e (inr (inl refl))
  Flows-calls c d (stack_slot {v} e) = at_loaded _ v _ e (inl refl)
  Flows-calls c d (address {v} e) = at_loaded _ v _ e (inl refl)
  Flows-calls c d (cast {v} e) = at_loaded _ v _ e (inl refl)
  Flows-calls c d (constant {v} e) = at_loaded _ v _ e (inl refl)
  Flows-calls c d (initializer {v} e) = at_loaded _ v _ e (inl refl)
  Flows-calls c d (global_slot {v} {i} e) = slot_call i v e
  Flows-calls c d (element {v} {w} {vs} e i) = at_loaded _ v _ e (Occurs-map loaded w vs i)
  Flows-calls c d (copied {v} e) = at_stored _ v _ e (inl refl)
  Flows-calls c d (stored_value {v} e) = at_stored _ v _ e (inl refl)
  Flows-calls c d (slot_user {v} {u} e i) = at_stored _ v _ e (Occurs-map stored u (g.users v) i)
  Flows-calls c d (address_user {v} {p} {u} e i) =
      at_stored _ v _ e (Occurs-map stored u (g.users v) i)
  Flows-calls c d (cast_user {v} {p} {u} e i) =
      at_stored _ v _ e (Occurs-map stored u (g.users v) i)
