-- ===== src/Export/Linkage/Tests.antt =====
-- Tests of fixLinkages.
use at_jit.Prelude.{true, false, some, List, [], ◌∷◌, ◌≡◌, refl}
use at_jit.Prelude.Partial.{Succeeds}
use at_jit.Export.Linkage.{
  default_visibility, hidden_visibility, external_linkage, private_linkage, other_linkage, variable,
  function, alias, GlobalValue, fix_linkages,
}
use at_jit.Export.Linkage.Fixed.{AllFixed, fix_linkages-AllFixed}

-- The entry, a variable, a function that is hidden, and one that is only declared
abbrev small_values : List GlobalValue
small_values =
    record {
      intrinsic = false;
      form = function false true;
      visibility = default_visibility;
      linkage = other_linkage;
    }
    ∷ record {
      intrinsic = false;
      form = variable true;
      visibility = hidden_visibility;
      linkage = private_linkage;
    }
    ∷ record {
      intrinsic = false;
      form = function false false;
      visibility = hidden_visibility;
      linkage = external_linkage;
    }
    ∷ record {
      intrinsic = true;
      form = alias;
      visibility = default_visibility;
      linkage = external_linkage;
    }
    ∷ []

fix_linkages-AllFixed_example :
    Succeeds
      (λ ws. AllFixed 0 0 small_values ws × (fix_linkages 0 0 ws ≡ some ws))
      (fix_linkages 0 0 small_values)
fix_linkages-AllFixed_example = fix_linkages-AllFixed 0 small_values (tt, (tt, (tt, (refl, tt))))
