-- ===== src/Export/Collect/Steps.antt =====
-- What the steps of collectObjectsToJIT mark.
use at_jit.Prelude.{ℕ, ◌<◌, Bool, true, ◌&&◌, List, [], ◌∷◌, ◌≡◌, ◌↔◌, ◌⊎◌, inl, inr, arith, All}
use at_jit.Prelude.Partial.{Succeeds, Succeeds-mono, >>=-Succeeds}
use at_jit.Export.Referenced.{mem}
use at_jit.Export.Trace.{Sets, TraceCall, loaded, stored, traced_value, tracer, is_object}
use at_jit.Export.Trace.Flows.{Flows}
use at_jit.Export.Trace.Found.{Reach, Found, tracer-Found}
use at_jit.Export.Collect.{
  User, call_site, cast_user, other_user, Module, TypeOps, Sections, all_objects, is_constant,
  deduce_args, deduce_users, users_of, deduce_each,
}
use at_jit.Export.Collect.Adds.{Any, Adds, Adds-none, Adds-trans, Adds-iff, mark_all-Adds}

pub Any-iff {ℓ} :
    {A : Type ℓ} (P Q : A → Type 0) (ks : List A) → ((k : A) → P k ↔ Q k) → Any P ks ↔ Any Q ks
Any-iff P Q [] e = (λ h. h, λ h. h)
Any-iff P Q (k ∷ ks) e =
    let rest = Any-iff P Q ks e in
    (
      λ h. elim h [ inl p ↦ inl ((e k).0 p) | inr r ↦ inr (rest.0 r) ],
      λ h. elim h [ inl q ↦ inl ((e k).1 q) | inr r ↦ inr (rest.1 r) ],
    )

module _ (Ty : Type 0) (ops : TypeOps Ty) (m : Module Ty) where
  -- The object k is constant, and a trace from the value a reaches it.
  abbrev pub Aliases : ℕ → ℕ → Type 0
  Aliases a k =
      (is_constant Ty ops m (m.object k).shape ≡ true)
      × (is_object (m.code.class (m.object k).value) ≡ true)
      × (Reach m.code (loaded a) (loaded (m.object k).value)
          ⊎ Reach m.code (loaded a) (stored (m.object k).value))

  -- The object is one of the module's, and one of the arguments aliases it.
  abbrev pub AliasedBy : List ℕ → ℕ → Type 0
  AliasedBy args k = Any (λ a. Any (λ j. Aliases a j × (j ≡ k)) (all_objects Ty ops m)) args

  abbrev pub AliasedByUser : ℕ → User → Type 0
  AliasedByUser k (call_site args) = AliasedBy args k
  AliasedByUser k _ = ⊥

  -- A call of one of the functions has an argument that aliases the object.
  abbrev pub Deduced : List ℕ → ℕ → Type 0
  Deduced fs k = Any (λ f. Any (AliasedByUser k) (users_of Ty ops m (m.object f).shape)) fs

  -- The values of arguments are values of the module.
  abbrev pub ArgsBelow : User → Type 0
  ArgsBelow (call_site args) = All (λ a. a < m.values) args
  ArgsBelow _ = Unit

  two : (a b : Bool) → ((a && b) ≡ true) ↔ ((a ≡ true) × (b ≡ true))
  two a b = (λ h. ground arith, λ (p, q). ground arith)

  module _
      (closed : (c d : TraceCall)
        → traced_value c < m.values
        → Flows m.code c d
        → traced_value d < m.values) where
    -- The marks of one argument
    Aliases-Found :
        (a : ℕ) (s : Sets)
        → Found m.code a s
        → (j : ℕ)
        → ((is_constant Ty ops m (m.object j).shape && mem (m.object j).value s.objects) ≡ true)
          ↔ Aliases a j
    Aliases-Found a s found j =
        let both =
          two (is_constant Ty ops m (m.object j).shape) (mem (m.object j).value s.objects) in
        (
          λ h. let (c, o) = both.0 h in let (i, r) = (found (m.object j).value).0 o in (c, i, r),
          λ (c, i, r). both.1 (c, (found (m.object j).value).1 (i, r)),
        )

    deduce_args-Adds :
        (args : List ℕ) (sec : Sections Ty)
        → All (λ a. a < m.values) args
        → Succeeds (Adds Ty (AliasedBy args) sec) (deduce_args Ty ops m args sec)
    unfolding deduce_args
    deduce_args-Adds [] sec below = Adds-none Ty sec
    deduce_args-Adds (a ∷ args) sec (lt, below) =
        >>=-Succeeds _ (tracer m.code m.values a) _ (tracer-Found m.code m.values a closed lt)
          λ s found.
            Succeeds-mono _ _ (deduce_args Ty ops m args _)
              (λ sec' added.
                Adds-trans Ty _ _ sec _ sec'
                  (Adds-iff Ty _ _ sec _
                    (λ k. Any-iff _ _ (all_objects Ty ops m) λ j.
                      let e = Aliases-Found a s found j in
                      (λ (t, p). (e.0 t, p), λ (t, p). (e.1 t, p)))
                    (mark_all-Adds Ty _ (all_objects Ty ops m) sec))
                  added)
              (deduce_args-Adds args _ below)

    deduce_users-Adds :
        (us : List User) (sec : Sections Ty)
        → All ArgsBelow us
        → Succeeds (Adds Ty (λ k. Any (AliasedByUser k) us) sec) (deduce_users Ty ops m us sec)
    unfolding deduce_users
    deduce_users-Adds [] sec below = Adds-none Ty sec
    deduce_users-Adds (call_site args ∷ us) sec (lt, below) =
        >>=-Succeeds _ (deduce_args Ty ops m args sec) _ (deduce_args-Adds args sec lt) λ a first.
          Succeeds-mono _ _ (deduce_users Ty ops m us a)
            (λ b rest. Adds-trans Ty _ _ sec a b first rest) (deduce_users-Adds us a below)
    deduce_users-Adds (cast_user bs ∷ us) sec (lt, below) =
        Succeeds-mono _ _ (deduce_users Ty ops m us sec)
          (λ b rest. Adds-trans Ty _ _ sec sec b (Adds-none Ty sec) rest)
          (deduce_users-Adds us sec below)
    deduce_users-Adds (other_user ∷ us) sec (lt, below) =
        Succeeds-mono _ _ (deduce_users Ty ops m us sec)
          (λ b rest. Adds-trans Ty _ _ sec sec b (Adds-none Ty sec) rest)
          (deduce_users-Adds us sec below)

    pub deduce_each-Adds :
        (fs : List ℕ) (sec : Sections Ty)
        → ((f : ℕ) → All ArgsBelow (users_of Ty ops m (m.object f).shape))
        → Succeeds (Adds Ty (Deduced fs) sec) (deduce_each Ty ops m fs sec)
    unfolding deduce_each
    deduce_each-Adds [] sec below = Adds-none Ty sec
    deduce_each-Adds (f ∷ fs) sec below =
        >>=-Succeeds _ (deduce_users Ty ops m (users_of Ty ops m (m.object f).shape) sec) _
          (deduce_users-Adds (users_of Ty ops m (m.object f).shape) sec (below f))
          λ a first.
            Succeeds-mono _ _ (deduce_each Ty ops m fs a)
              (λ b rest. Adds-trans Ty _ _ sec a b first rest) (deduce_each-Adds fs a below)
