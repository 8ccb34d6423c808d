-- ===== src/Export/Linkage.antt =====
-- fixLinkages: the embedded module keeps the entry, makes the other functions private, and leaves the variables to be
-- found in the running program.
pub mod Fixed
mod Tests
use at_jit.Prelude.{
  ℕ, suc, Bool, true, false, not, ◌&&◌, ◌||◌, Option, none, some, List, [], ◌∷◌, if◌then◌else◌,
  ◌==◌,
}
use at_jit.Prelude.Partial.{◌>>=◌}

-- LLVM's enumerations, as far as the code names their members
pub data Visibility : Type 0 where
  default_visibility hidden_visibility protected_visibility : Visibility

pub data Linkage : Type 0 where
  external_linkage private_linkage other_linkage : Linkage

pub data Form : Type 0 where
  -- whether it has an initializer
  variable : Bool → Form
  -- whether it is a declaration, and whether it has the attribute NoInline
  function : Bool → Bool → Form
  alias : Form

-- `intrinsic` tells that the name starts with "llvm.".
pub record GlobalValue : Type 0 where
  pub intrinsic : Bool
  pub form : Form
  pub visibility : Visibility
  pub linkage : Linkage

abbrev pub is_default : Visibility → Bool
is_default default_visibility = true
is_default _ = false

abbrev pub is_private : Linkage → Bool
is_private private_linkage = true
is_private _ = false

-- What becomes of a function's visibility and linkage, where it is not the entry
pub privatize : GlobalValue → Bool → GlobalValue
privatize v declaration =
    if not declaration && (not (is_default v.visibility) || not (is_private v.linkage))
    then record v { visibility = default_visibility; linkage = private_linkage }
    else v

-- The body of the loop, by the value's form; `none` is the failed assertion.
pub fix_form : Bool → GlobalValue → Form → Option GlobalValue
fix_form is_entry v (variable init) = some (record v {
  form = variable false;
  visibility = default_visibility;
  linkage = external_linkage;
})
fix_form is_entry v (function declaration no_inline) =
    let w = record v { form = function declaration false } in
    some (if is_entry then w else privatize w declaration)
fix_form is_entry v alias = none

pub fix_linkage : Bool → GlobalValue → Option GlobalValue
fix_linkage is_entry v = if v.intrinsic then some v else fix_form is_entry v v.form

-- fixLinkages on the values from the i-th on, where the entry has its index
pub fix_linkages : ℕ → ℕ → List GlobalValue → Option (List GlobalValue)
fix_linkages entry i [] = some []
fix_linkages entry i (v ∷ vs) = do
  v' ← fix_linkage (i == entry) v
  vs' ← fix_linkages entry (suc i) vs
  some (v' ∷ vs')
