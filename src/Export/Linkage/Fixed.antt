-- ===== src/Export/Linkage/Fixed.antt =====
-- After fixLinkages: what each value is, and that a second run changes nothing.
use at_jit.Prelude.{ℕ, suc, Bool, true, false, some, List, [], ◌∷◌, ◌==◌, ◌≡◌, refl, All}
use at_jit.Prelude.Partial.{Succeeds, >>=-Succeeds}
use at_jit.Export.Linkage.{
  Visibility, default_visibility, hidden_visibility, protected_visibility, Linkage,
  external_linkage, private_linkage, other_linkage, Form, variable, function, alias, GlobalValue,
  privatize, fix_form, fix_linkage, fix_linkages,
}

-- A value that the assertion accepts
abbrev pub NoAlias : GlobalValue → Type 0
NoAlias v = elim v.form [ alias ↦ v.intrinsic ≡ true | _ ↦ Unit {0} ]

-- What fixing makes of a value of each form
abbrev pub FixedForm : Bool → GlobalValue → GlobalValue → Form → Type 0
FixedForm is_entry v w (variable init) =
    (w.form ≡ variable false) × (w.visibility ≡ default_visibility) × (w.linkage ≡ external_linkage)
FixedForm true v w (function declaration no_inline) =
    (w.form ≡ function declaration false) × (w.visibility ≡ v.visibility) × (w.linkage ≡ v.linkage)
FixedForm false v w (function true no_inline) =
    (w.form ≡ function true false) × (w.visibility ≡ v.visibility) × (w.linkage ≡ v.linkage)
FixedForm false v w (function false no_inline) =
    (w.form ≡ function false false)
    × (w.visibility ≡ default_visibility)
    × (w.linkage ≡ private_linkage)
FixedForm is_entry v w alias = ⊥

-- An intrinsic stays as it is, and any other value is fixed by its form; a second run changes nothing.
abbrev pub Fixed : Bool → GlobalValue → GlobalValue → Type 0
Fixed is_entry v w =
    (v.intrinsic ≡ true → w ≡ v)
    × (v.intrinsic ≡ false → FixedForm is_entry v w v.form)
    × (fix_linkage is_entry w ≡ some w)

abbrev value_of : Bool → Form → Visibility → Linkage → GlobalValue
value_of i f vis link = record { intrinsic = i; form = f; visibility = vis; linkage = link }

no_intrinsic : {A : Type 0} → false ≡ true → A
no_intrinsic e = absurd (cc)

Fixed-fields :
    (e i : Bool) (f : Form) (vis : Visibility) (link : Linkage)
    → NoAlias (value_of i f vis link)
    → Succeeds (Fixed e (value_of i f vis link)) (fix_linkage e (value_of i f vis link))
unfolding fix_linkage fix_form privatize
Fixed-fields e true f vis link h = (λ u. refl, λ u. absurd (cc), refl)
Fixed-fields e false alias vis link h = absurd (cc)
Fixed-fields e false (variable b) vis link h = (no_intrinsic, λ u. (refl, refl, refl), refl)
Fixed-fields true false (function d n) vis link h = (no_intrinsic, λ u. (refl, refl, refl), refl)
Fixed-fields false false (function true n) vis link h =
    (no_intrinsic, λ u. (refl, refl, refl), refl)
Fixed-fields false false (function false n) default_visibility external_linkage h =
    (no_intrinsic, λ u. (refl, refl, refl), refl)
Fixed-fields false false (function false n) default_visibility private_linkage h =
    (no_intrinsic, λ u. (refl, refl, refl), refl)
Fixed-fields false false (function false n) default_visibility other_linkage h =
    (no_intrinsic, λ u. (refl, refl, refl), refl)
Fixed-fields false false (function false n) hidden_visibility external_linkage h =
    (no_intrinsic, λ u. (refl, refl, refl), refl)
Fixed-fields false false (function false n) hidden_visibility private_linkage h =
    (no_intrinsic, λ u. (refl, refl, refl), refl)
Fixed-fields false false (function false n) hidden_visibility other_linkage h =
    (no_intrinsic, λ u. (refl, refl, refl), refl)
Fixed-fields false false (function false n) protected_visibility external_linkage h =
    (no_intrinsic, λ u. (refl, refl, refl), refl)
Fixed-fields false false (function false n) protected_visibility private_linkage h =
    (no_intrinsic, λ u. (refl, refl, refl), refl)
Fixed-fields false false (function false n) protected_visibility other_linkage h =
    (no_intrinsic, λ u. (refl, refl, refl), refl)

-- A value of the list is fixed, by its place; `entry` is the entry's index.
abbrev pub AllFixed : ℕ → ℕ → List GlobalValue → List GlobalValue → Type 0
AllFixed entry i [] ws = ws ≡ []
AllFixed entry i (v ∷ vs) [] = ⊥
AllFixed entry i (v ∷ vs) (w ∷ ws) = Fixed (i == entry) v w × AllFixed entry (suc i) vs ws

AllFixed-from :
    (entry i : ℕ) (vs : List GlobalValue)
    → All NoAlias vs
    → Succeeds
        (λ ws. AllFixed entry i vs ws × (fix_linkages entry i ws ≡ some ws))
        (fix_linkages entry i vs)
unfolding fix_linkages
AllFixed-from entry i [] h = (refl, refl)
AllFixed-from entry i (v ∷ vs) (h, hs) =
    >>=-Succeeds _ (fix_linkage (i == entry) v) _
      (Fixed-fields (i == entry) v.intrinsic v.form v.visibility v.linkage h)
      λ w fixed.
        >>=-Succeeds _ (fix_linkages entry (suc i) vs) _ (AllFixed-from entry (suc i) vs hs)
          λ ws (all, again). ((fixed, all), rw (fixed.2, again) refl)

-- In a module without aliases, fixLinkages passes its assertion. LLVM's own values stay as they are. Of the others, a
-- variable becomes an external declaration with default visibility; a function loses NoInline; a function that is
-- defined and is not the entry becomes private with default visibility, and the entry and the declarations keep
-- their linkage and visibility. A second run changes nothing.
pub fix_linkages-AllFixed :
    (entry : ℕ) (vs : List GlobalValue)
    → All NoAlias vs
    → Succeeds
        (λ ws. AllFixed entry 0 vs ws × (fix_linkages entry 0 ws ≡ some ws))
        (fix_linkages entry 0 vs)
fix_linkages-AllFixed entry vs h = AllFixed-from entry 0 vs h
