-- ===== src/Export/Collect/Methods.antt =====
-- What deduceVirtualMethodsToJIT marks.
use at_jit.Prelude.{
  ℕ, ◌<◌, Bool, true, false, not, ◌&&◌, ◌||◌, Option, none, some, List, [], ◌∷◌, length,
  if◌then◌else◌, ◌==◌, ◌≡◌, ◌↔◌, ◌⊎◌, inl, inr, refl, sym, ap, ◌∙◌, arith, All, some-injective,
}
use at_jit.Prelude.Partial.{Succeeds, Succeeds-if, Succeeds-mono, >>=-Succeeds}
use at_jit.Export.Collect.{
  jit_section, is_jit, User, FunctionType, Module, TypeOps, Sections, set_section, all_objects,
  users_of, overload_of, mark_overloads, mark_method, mark_entries, entries_of, type_of,
  mark_tables, may_be_overload, overload_params, counts_type, mem_type, loaded_types,
  instructions_of,
}
use at_jit.Export.Collect.Adds.{Any, Adds, Adds-none, Adds-trans, Adds-iff, Adds-set}
use at_jit.Export.Collect.Steps.{Any-iff}

with_value : (m : Option Bool) → Succeeds (λ b. Unit {0}) m → Succeeds (λ b. m ≡ some b) m
with_value none h = absurd h
with_value (some b) h = refl

module _ (Ty : Type 0) (ops : TypeOps Ty) (m : Module Ty) where
  -- The type of a function that has a parameter
  abbrev pub HasParam : Option Ty → Type 0
  HasParam none = Unit
  HasParam (some t) = 0 < length (ops.function_type t).params

  overload_params-Succeeds :
      (ts us : List Ty) (users : List User)
      → 0 < length ts
      → (length ts == length us) ≡ true
      → Succeeds (λ b. Unit {0}) (overload_params Ty ops m ts us users)
  overload_params-Succeeds [] us users h e = absurd (omega arith)
  overload_params-Succeeds (t ∷ ts) [] users h e = absurd (ground arith)
  overload_params-Succeeds (t ∷ ts) (u ∷ us) users h e = tt

  may_be_overload-Succeeds :
      (o f : FunctionType Ty) (users : List User)
      → 0 < length f.params
      → Succeeds (λ b. Unit {0}) (may_be_overload Ty ops m o f users)
  unfolding may_be_overload
  may_be_overload-Succeeds o f users h =
      Succeeds-if _ (not (ops.eq_type f.result o.result)) _ _ (λ _. tt)
        λ _.
          Succeeds-if _ (not (length f.params == length o.params)) _ _ (λ _. tt)
            λ same.
              Succeeds-if _ o.vararg _ _ (λ _. tt)
                λ _.
                  overload_params-Succeeds f.params o.params users h
                    (positive (length f.params == length o.params) same)
    where
      positive : (b : Bool) → not b ≡ false → b ≡ true
      positive b e = ground arith

  by_type :
      (o : Option Ty) (f k : ℕ) (t : Ty) (users : List User)
      → 0 < length (ops.function_type t).params
      → Succeeds
          (λ b. Unit {0})
          (elim o [
            | none ↦ some false
            | some u ↦
                if k == f
                then some false
                else may_be_overload Ty ops m (ops.function_type u) (ops.function_type t) users
          ])
  by_type none f k t users h = tt
  by_type (some u) f k t users h =
      Succeeds-if _ (k == f) _ _ (λ _. tt)
        λ _. may_be_overload-Succeeds (ops.function_type u) (ops.function_type t) users h

  overload_of-Succeeds :
      (f : ℕ) (t : Ty) (users : List User) (k : ℕ)
      → 0 < length (ops.function_type t).params
      → Succeeds (λ b. Unit {0}) (overload_of Ty ops m f t users k)
  unfolding overload_of
  overload_of-Succeeds f t users k h = by_type (type_of Ty ops m (m.object k).shape) f k t users h

  -- The object is one that mayBeOverload accepts.
  abbrev pub Overloads : ℕ → Ty → List User → List ℕ → ℕ → Type 0
  Overloads f t users ks j = Any (λ k. (overload_of Ty ops m f t users k ≡ some true) × (k ≡ j)) ks

  mark_overloads-Adds :
      (f : ℕ) (t : Ty) (users : List User) (ks : List ℕ) (sec : Sections Ty)
      → 0 < length (ops.function_type t).params
      → Succeeds (Adds Ty (Overloads f t users ks) sec) (mark_overloads Ty ops m f t users ks sec)
  unfolding mark_overloads
  mark_overloads-Adds f t users [] sec h = Adds-none Ty sec
  mark_overloads-Adds f t users (k ∷ ks) sec h =
      >>=-Succeeds _ (overload_of Ty ops m f t users k) _
        (with_value (overload_of Ty ops m f t users k) (overload_of-Succeeds f t users k h))
        λ b e.
          Succeeds-mono _ _ (mark_overloads Ty ops m f t users ks _)
            (λ sec' rest.
              Adds-trans Ty _ _ sec _ sec'
                (Adds-iff Ty _ _ sec _
                  (λ j. (λ (b', p). (e ∙ ap some b', p), λ (o, p). (some-injective (sym e ∙ o), p)))
                  (Adds-set Ty b k sec))
                rest)
            (mark_overloads-Adds f t users ks _ h)

  -- What a function in a virtual table marks: itself and its overloads, where its type is one that is loaded
  abbrev pub MarkedBy : (Ty → Type 0) → Option Ty → ℕ → ℕ → Type 0
  MarkedBy Loaded none f j = ⊥
  MarkedBy Loaded (some t) f j =
      Loaded t
      × ((f ≡ j) ⊎ Overloads f t (users_of Ty ops m (m.object f).shape) (all_objects Ty ops m) j)

  by_method :
      (types : Ty → Bool) (o : Option Ty) (f : ℕ) (sec : Sections Ty)
      → HasParam o
      → Succeeds (Adds Ty (MarkedBy (λ t. types t ≡ true) o f) sec) (elim o [
        | none ↦ some sec
        | some t ↦
            if types t
            then mark_overloads Ty ops m f t
                (users_of Ty ops m (m.object f).shape)
                (all_objects Ty ops m)
                (set_section Ty f jit_section sec)
            else some sec
      ])
  by_method types none f sec h = Adds-none Ty sec
  by_method types (some t) f sec h =
      let users = users_of Ty ops m (m.object f).shape in
      Succeeds-if _ (types t) _ _
        (λ held.
          Succeeds-mono _ _
            (mark_overloads Ty ops m f t users (all_objects Ty ops m)
              (set_section Ty f jit_section sec))
            (λ sec' rest.
              Adds-iff Ty _ _ sec sec'
                (λ j. (
                  λ x. (held, elim x [ inl (r, p) ↦ inl p | inr q ↦ inr q ]),
                  λ (y, x). elim x [ inl p ↦ inl (refl, p) | inr q ↦ inr q ],
                ))
                (Adds-trans Ty _ _ sec _ sec' (Adds-set Ty true f sec) rest))
            (mark_overloads-Adds f t users (all_objects Ty ops m) (set_section Ty f jit_section sec)
              h))
        λ no.
          Adds-iff Ty _ _ sec sec (λ j. (λ x. absurd x, λ (held, x). absurd (cc)))
            (Adds-none Ty sec)

  -- What an element of a virtual table, and a whole table, mark
  abbrev pub MarkedByEntry : (Ty → Type 0) → ℕ → Option ℕ → Type 0
  MarkedByEntry Loaded j none = ⊥
  MarkedByEntry Loaded j (some f) = MarkedBy Loaded (type_of Ty ops m (m.object f).shape) f j

  abbrev pub MarkedByTables : (Ty → Type 0) → List ℕ → ℕ → Type 0
  MarkedByTables Loaded ks j =
      Any (λ k. Any (MarkedByEntry Loaded j) (entries_of Ty ops m (m.object k).shape)) ks

  -- An element that is a function has a parameter.
  abbrev pub EntryHasParam : Option ℕ → Type 0
  EntryHasParam none = Unit
  EntryHasParam (some f) = HasParam (type_of Ty ops m (m.object f).shape)

  mark_entries-Adds :
      (types : Ty → Bool) (es : List (Option ℕ)) (sec : Sections Ty)
      → All EntryHasParam es
      → Succeeds
          (Adds Ty (λ j. Any (MarkedByEntry (λ t. types t ≡ true) j) es) sec)
          (mark_entries Ty ops m types es sec)
  unfolding mark_entries mark_method
  mark_entries-Adds types [] sec h = Adds-none Ty sec
  mark_entries-Adds types (none ∷ es) sec (h, hs) =
      Succeeds-mono _ _ (mark_entries Ty ops m types es sec)
        (λ sec' rest. Adds-trans Ty _ _ sec sec sec' (Adds-none Ty sec) rest)
        (mark_entries-Adds types es sec hs)
  mark_entries-Adds types (some f ∷ es) sec (h, hs) =
      >>=-Succeeds _ (mark_method Ty ops m types f sec) _
        (by_method types (type_of Ty ops m (m.object f).shape) f sec h)
        λ a first.
          Succeeds-mono _ _ (mark_entries Ty ops m types es a)
            (λ b rest. Adds-trans Ty _ _ sec a b first rest) (mark_entries-Adds types es a hs)

  pub mark_tables-Adds :
      (types : Ty → Bool) (ks : List ℕ) (sec : Sections Ty)
      → ((k : ℕ) → All EntryHasParam (entries_of Ty ops m (m.object k).shape))
      → Succeeds
          (Adds Ty (MarkedByTables (λ t. types t ≡ true) ks) sec)
          (mark_tables Ty ops m types ks sec)
  unfolding mark_tables
  mark_tables-Adds types [] sec h = Adds-none Ty sec
  mark_tables-Adds types (k ∷ ks) sec h =
      >>=-Succeeds _ (mark_entries Ty ops m types (entries_of Ty ops m (m.object k).shape) sec) _
        (mark_entries-Adds types (entries_of Ty ops m (m.object k).shape) sec (h k))
        λ a first.
          Succeeds-mono _ _ (mark_tables Ty ops m types ks a)
            (λ b rest. Adds-trans Ty _ _ sec a b first rest) (mark_tables-Adds types ks a h)

  -- A function with the property loads the type from a virtual table.
  abbrev pub LoadedBy : (ℕ → Type 0) → List ℕ → Ty → Type 0
  LoadedBy Marked ks t =
      Any
        (λ f.
          Marked f
          × (mem_type Ty ops m t
                (loaded_types Ty ops m (instructions_of Ty ops m (m.object f).shape))
              ≡ true))
        ks

  counts_type-LoadedBy :
      (sec : Sections Ty) (ks : List ℕ) (t : Ty)
      → (counts_type Ty ops m sec ks t ≡ true) ↔ LoadedBy (λ f. is_jit (sec f) ≡ true) ks t
  unfolding counts_type
  counts_type-LoadedBy sec [] t = (λ h. absurd (cc), λ h. absurd h)
  counts_type-LoadedBy sec (k ∷ ks) t =
      either (is_jit (sec k))
        (mem_type Ty ops m t (loaded_types Ty ops m (instructions_of Ty ops m (m.object k).shape)))
        (counts_type Ty ops m sec ks t) (counts_type-LoadedBy sec ks t)
    where
      either :
          {Rest : Type 0} (a b c : Bool)
          → (c ≡ true) ↔ Rest
          → ((a && b || c) ≡ true) ↔ (((a ≡ true) × (b ≡ true)) ⊎ Rest)
      either true true c e = (λ h. inl (refl, refl), λ h. refl)
      either true false c e =
          (λ h. inr (e.0 h), λ h. elim h [ inl (p, q) ↦ absurd (cc) | inr r ↦ e.1 r ])
      either false b c e =
          (λ h. inr (e.0 h), λ h. elim h [ inl (p, q) ↦ absurd (cc) | inr r ↦ e.1 r ])

  MarkedBy-iff :
      (P Q : Ty → Type 0) (o : Option Ty) (f j : ℕ)
      → ((t : Ty) → P t ↔ Q t)
      → MarkedBy P o f j ↔ MarkedBy Q o f j
  MarkedBy-iff P Q none f j e = (λ h. h, λ h. h)
  MarkedBy-iff P Q (some t) f j e = (λ (p, x). ((e t).0 p, x), λ (q, x). ((e t).1 q, x))

  MarkedByTables-iff :
      (P Q : Ty → Type 0) (ks : List ℕ) (j : ℕ)
      → ((t : Ty) → P t ↔ Q t)
      → MarkedByTables P ks j ↔ MarkedByTables Q ks j
  MarkedByTables-iff P Q ks j e =
      Any-iff _ _ ks λ k. Any-iff _ _ (entries_of Ty ops m (m.object k).shape) (by_entry e)
    where
      by_entry : ((t : Ty) → P t ↔ Q t) → (x : Option ℕ) → MarkedByEntry P j x ↔ MarkedByEntry Q j x
      by_entry e none = (λ h. h, λ h. h)
      by_entry e (some f) = MarkedBy-iff P Q (type_of Ty ops m (m.object f).shape) f j e

  -- The types that count, by what marks the functions
  pub tables_iff :
      (sec : Sections Ty) (Marked : ℕ → Type 0) (ks : List ℕ) (j : ℕ)
      → ((f : ℕ) → (is_jit (sec f) ≡ true) ↔ Marked f)
      → MarkedByTables (λ t. counts_type Ty ops m sec ks t ≡ true) ks j
        ↔ MarkedByTables (LoadedBy Marked ks) ks j
  tables_iff sec Marked ks j e = MarkedByTables-iff _ _ ks j λ t.
      let counted = counts_type-LoadedBy sec ks t in
      let same =
        Any-iff
          (λ f.
            (is_jit (sec f) ≡ true)
            × (mem_type Ty ops m t
                  (loaded_types Ty ops m (instructions_of Ty ops m (m.object f).shape))
                ≡ true))
          (λ f.
            Marked f
            × (mem_type Ty ops m t
                  (loaded_types Ty ops m (instructions_of Ty ops m (m.object f).shape))
                ≡ true))
          ks λ f. (λ (p, x). ((e f).0 p, x), λ (q, x). ((e f).1 q, x)) in
      (λ h. same.0 (counted.0 h), λ h. counted.1 (same.1 h))
