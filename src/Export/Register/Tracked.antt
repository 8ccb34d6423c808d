-- ===== src/Export/Register/Tracked.antt =====
-- The registrations of the pass, and what the tracker of the running program has of them.
use at_jit.Prelude.{
  ℕ, zero, suc, ◌+◌, ◌^◌, ◌<◌, Bool, false, Option, none, some, List, [], ◌∷◌, length,
  length-append, get_elem?, ◌==◌, ◌≡◌, refl, sym, subst, ◌∙◌, arith, All, ==_refl, none-some,
  some-injective,
}
use at_jit.Prelude.Partial.{Succeeds, >>=-Succeeds, Succeeds-mono}
use at_jit.Tables.{find_key}
use at_jit.Tables.Laws.{IsKeyTest, find_key-new, find_key-behind, emplace-miss, emplace-stays}
use at_jit.Tables.Bitcode.{FunctionInfo, BitcodeTracker, register_function, register_all}
use at_jit.Export.Register.{
  ExportedObject, ByteArray, write_module_to_global, embed_bitcode, register_bitcode,
}

==-IsKeyTest : IsKeyTest ◌==◌
==-IsKeyTest = record { eq_flip = λ a b h. ground arith; eq_chain = λ a b c h h'. ground arith }

module _ (Name : Type 0) (eq_name : Name → Name → Bool) where
  -- What the tracker has for an address
  abbrev pub info_at : BitcodeTracker Name eq_name → ℕ → Option (FunctionInfo Name eq_name)
  info_at t a = find_key ◌==◌ t.functions a

  -- No two objects have one address.
  abbrev pub Distinct {ℓ} : {V : Type ℓ} → List (ℕ × V) → Type 0
  Distinct [] = Unit
  Distinct ((a, v) ∷ rs) = All (λ r. (a == r.0) ≡ false) rs × Distinct rs

  register_all-stays :
      (rs : List (ℕ × FunctionInfo Name eq_name)) (t : BitcodeTracker Name eq_name) (a : ℕ)
      (w : FunctionInfo Name eq_name)
      → info_at t a ≡ some w
      → info_at (register_all Name eq_name t rs) a ≡ some w
  unfolding register_all register_function
  register_all-stays [] t a w h = h
  register_all-stays ((b, info) ∷ rs) t a w h =
      register_all-stays rs (register_function Name eq_name t b info) a w
        (emplace-stays ◌==◌ ==-IsKeyTest t.functions b a info w h)

  -- A new address gets its entry, and the others stay new.
  fresh_after :
      (rs : List (ℕ × FunctionInfo Name eq_name)) (t : BitcodeTracker Name eq_name) (a : ℕ)
      (info : FunctionInfo Name eq_name)
      → info_at t a ≡ none
      → All (λ r. (a == r.0) ≡ false) rs
      → All (λ r. info_at t r.0 ≡ none) rs
      → All (λ r. info_at (register_function Name eq_name t a info) r.0 ≡ none) rs
  unfolding register_function
  fresh_after [] t a info new apart fresh = tt
  fresh_after (r ∷ rs) t a info new (ne, apart) (h, fresh) = (
    rw (emplace-miss ◌==◌ ==-IsKeyTest t.functions a info new)
        (find_key-behind ◌==◌ ==-IsKeyTest t.functions a r.0 info ne ∙ h),
    fresh_after rs t a info new apart fresh,
  )

  register_all-Found :
      (rs : List (ℕ × FunctionInfo Name eq_name)) (t : BitcodeTracker Name eq_name)
      → Distinct rs
      → All (λ r. info_at t r.0 ≡ none) rs
      → All (λ r. info_at (register_all Name eq_name t rs) r.0 ≡ some r.1) rs
  unfolding register_all register_function
  register_all-Found [] t distinct fresh = tt
  register_all-Found ((a, info) ∷ rs) t (apart, distinct) (new, fresh) = (
    register_all-stays rs (register_function Name eq_name t a info) a info (
        rw (emplace-miss ◌==◌ ==-IsKeyTest t.functions a info new)
          (find_key-new ◌==◌ ==-IsKeyTest t.functions a a info (==_refl a) new)),
    register_all-Found rs (register_function Name eq_name t a info) distinct
        (fresh_after rs t a info new apart fresh),
  )

  module _ (gm : ℕ) (place : ℕ → ℕ) (bitcode : ExportedObject Name eq_name → List ℕ) where
    -- One registration for each object, from the i-th on: its address and name, the table, and the whole bitcode
    -- without the zero behind it.
    abbrev pub Registers :
        ℕ → List (ExportedObject Name eq_name) → List (ℕ × FunctionInfo Name eq_name) → Type 0
    Registers i [] rs = rs ≡ []
    Registers i (o ∷ os) [] = ⊥
    Registers i (o ∷ os) ((a, info) ∷ rs) =
        (a ≡ o.address)
        × (info.name ≡ o.name)
        × (info.globals ≡ gm)
        × (info.bitcode ≡ place i)
        × (info.bitcode_len ≡ length (bitcode o))
        × Registers (suc i) os rs

    abbrev pub Apart : List (ExportedObject Name eq_name) → Type 0
    Apart [] = Unit
    Apart (o ∷ os) = All (λ o'. (o.address == o'.address) ≡ false) os × Apart os

    -- The i-th array and those behind it are those of the objects.
    abbrev Embedded :
        ℕ → List (ExportedObject Name eq_name) → List (ByteArray Name eq_name) → Type 0
    Embedded i os bs =
        (k : ℕ) (o : ExportedObject Name eq_name)
        → get_elem? os k ≡ some o
        → get_elem? bs (i + k)
          ≡ some (write_module_to_global Name eq_name (place (i + k)) (bitcode o))

    embed_bitcode-Embedded :
        (i j k : ℕ) (os : List (ExportedObject Name eq_name)) (o : ExportedObject Name eq_name)
        → j ≡ i + k
        → get_elem? os k ≡ some o
        → get_elem? (embed_bitcode Name eq_name place bitcode i os) k
          ≡ some (write_module_to_global Name eq_name (place j) (bitcode o))
    unfolding embed_bitcode
    embed_bitcode-Embedded i j k [] o e at = absurd (none-some at)
    embed_bitcode-Embedded i j zero (o' ∷ os) o e at =
        let here : j ≡ i = omega (arith, e) in rw (here, some-injective at) refl
    embed_bitcode-Embedded i j (suc k) (o' ∷ os) o e at =
        embed_bitcode-Embedded (suc i) j k os o (omega (arith, e)) at

    register_bitcode-Registers :
        (i : ℕ) (os : List (ExportedObject Name eq_name)) (bs : List (ByteArray Name eq_name))
        → All (λ o. length (bitcode o) < 2 ^ 64) os
        → Embedded i os bs
        → Succeeds (Registers i os) (register_bitcode Name eq_name gm i os bs)
    unfolding register_bitcode write_module_to_global
    register_bitcode-Registers i [] bs fits embedded = refl
    register_bitcode-Registers i (o ∷ os) bs (fit, fits) embedded =
        let at : get_elem? bs i ≡ some (write_module_to_global Name eq_name (place i) (bitcode o)) =
          subst
            (λ j. get_elem? bs j ≡ some (write_module_to_global Name eq_name (place j) (bitcode o)))
            (omega arith) (embedded 0 o refl) in
        let long = length-append (bitcode o) (0 ∷ []) in
        rw at (
          >>=-Succeeds _ (register_bitcode Name eq_name gm (suc i) os bs) _
            (register_bitcode-Registers (suc i) os bs fits λ k o' at'.
              subst
                (λ j.
                  get_elem? bs j
                  ≡ some (write_module_to_global Name eq_name (place j) (bitcode o')))
                (omega arith) (embedded (suc k) o' at'))
            λ rs registers. (refl, refl, refl, refl, omega (arith, fit, long), registers))

    -- What holds of the objects' addresses holds of the registrations'.
    Registers-All :
        (P : ℕ → Type 0) (i : ℕ) (os : List (ExportedObject Name eq_name))
        (rs : List (ℕ × FunctionInfo Name eq_name))
        → Registers i os rs
        → All (λ o. P o.address) os
        → All (λ r. P r.0) rs
    Registers-All P i [] rs r h = rw r tt
    Registers-All P i (o ∷ os) [] r h = absurd r
    Registers-All P i (o ∷ os) ((a, info) ∷ rs) (at, n, g, b, l, r) (p, h) =
        (subst P (sym at) p, Registers-All P (suc i) os rs r h)

    Registers-Distinct :
        (i : ℕ) (os : List (ExportedObject Name eq_name))
        (rs : List (ℕ × FunctionInfo Name eq_name))
        → Registers i os rs
        → Apart os
        → Distinct rs
    Registers-Distinct i [] rs r apart = rw r tt
    Registers-Distinct i (o ∷ os) [] r apart = absurd r
    Registers-Distinct i (o ∷ os) ((a, info) ∷ rs) (at, n, g, b, l, r) (apart, aparts) = (
      subst (λ c. All (λ q. (c == q.0) ≡ false) rs) (sym at)
          (Registers-All (λ c. (o.address == c) ≡ false) (suc i) os rs r apart),
      Registers-Distinct (suc i) os rs r aparts,
    )

    -- Take exported objects that have different addresses, are shorter than 2^64 bytes as bitcode, and are not
    -- registered yet. The constructor that the pass makes registers each of them once, under its name, with the table
    -- of the local variables and with exactly the bytes that were embedded for it; and after it ran, the tracker has
    -- that entry for the object's address.
    pub register_bitcode-tracked :
        (os : List (ExportedObject Name eq_name)) (t : BitcodeTracker Name eq_name)
        → All (λ o. length (bitcode o) < 2 ^ 64) os
        → Apart os
        → All (λ o. info_at t o.address ≡ none) os
        → Succeeds
            (λ rs.
              Registers 0 os rs
              × All (λ r. info_at (register_all Name eq_name t rs) r.0 ≡ some r.1) rs)
            (register_bitcode Name eq_name gm 0 os (embed_bitcode Name eq_name place bitcode 0 os))
    register_bitcode-tracked os t fits apart fresh =
        Succeeds-mono _ _
          (register_bitcode Name eq_name gm 0 os (embed_bitcode Name eq_name place bitcode 0 os))
          (λ rs r. (
            r,
            register_all-Found rs t (Registers-Distinct 0 os rs r apart)
                (Registers-All (λ a. info_at t a ≡ none) 0 os rs r fresh),
          ))
          (register_bitcode-Registers 0 os (embed_bitcode Name eq_name place bitcode 0 os) fits
            λ k o at.
              subst
                (λ j.
                  get_elem? (embed_bitcode Name eq_name place bitcode 0 os) j
                  ≡ some (write_module_to_global Name eq_name (place (0 + k)) (bitcode o)))
                (omega arith) (embed_bitcode-Embedded 0 (0 + k) k os o refl at))
