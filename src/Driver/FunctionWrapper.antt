-- ===== src/Driver/FunctionWrapper.antt =====
-- include/easy/function_wrapper.h: FunctionWrapperBase, a compiled function with its feedback
-- object, or the null object. Pointers are addresses; `none` is a null pointer.
use at_jit.Prelude.{
  ℕ, Bool, true, false, not, ◌&&◌, ◌||◌, Option, none, some, ◌≡◌, refl, arith, if◌then◌else◌,
}

pub record Wrapper : Type 0 where
  pub fun : Option ℕ
  pub fb : Option ℕ
  pub no_init : Bool

-- A run of the driver ends with a value, by a failed `assert`, by a null dereference, or inside a call: a CHECK of
-- updateStats fails, or recompile() ends the program.
pub data Outcome {ℓ} (A : Type ℓ) : Type ℓ where
  ok : A → Outcome A
  assert_failed : Outcome A
  null_deref : Outcome A
  check_failed : Outcome A
  recompile_failed : Outcome A

infixl 5 ◌>>=◌
abbrev pub ◌>>=◌ {ℓ κ} : {A : Type ℓ} {B : Type κ} → Outcome A → (A → Outcome B) → Outcome B
ok a >>= f = f a
assert_failed >>= f = assert_failed
null_deref >>= f = null_deref
check_failed >>= f = check_failed
recompile_failed >>= f = recompile_failed

-- The run ends with a value that satisfies `P`, or a CHECK fails and then `C`, or recompile() ends the program and
-- then `R`. No assertion fails, and no null pointer is read.
abbrev pub Ends {ℓ} : (C R : Type 0) → {A : Type ℓ} → (A → Type 0) → Outcome A → Type 0
Ends C R P (ok a) = P a
Ends C R P assert_failed = ⊥
Ends C R P null_deref = ⊥
Ends C R P check_failed = C
Ends C R P recompile_failed = R

-- The run ends with a value, and the value satisfies `P`.
abbrev pub Returns {ℓ} : {A : Type ℓ} → (A → Type 0) → Outcome A → Type 0
Returns P m = Ends ⊥ ⊥ P m

pub >>=-Ends {ℓ κ} :
    (C R : Type 0) {A : Type ℓ} {B : Type κ} {P : A → Type 0} (Q : B → Type 0) (m : Outcome A)
    (f : A → Outcome B)
    → Ends C R P m
    → ((a : A) → P a → Ends C R Q (f a))
    → Ends C R Q (m >>= f)
>>=-Ends C R Q (ok a) f p next = next a p
>>=-Ends C R Q assert_failed f p next = absurd p
>>=-Ends C R Q null_deref f p next = absurd p
>>=-Ends C R Q check_failed f p next = p
>>=-Ends C R Q recompile_failed f p next = p

-- The default constructor.
abbrev pub null_wrapper : Wrapper
null_wrapper = record { fun = none; fb = none; no_init = true }

-- The constructor from a function and its feedback.
abbrev pub wrap : ℕ → ℕ → Wrapper
wrap f b = record { fun = some f; fb = some b; no_init = false }

abbrev pub is_empty : Wrapper → Bool
is_empty w = w.no_init

abbrev deref : Option ℕ → Outcome ℕ
deref none = null_deref
deref (some b) = ok b

abbrev pub get_feedback : Wrapper → Outcome ℕ
get_feedback w = deref w.fb

abbrev is_set : Option ℕ → Bool
is_set none = false
is_set (some b) = true

-- A version that can be called and measured.
abbrev pub ready : Wrapper → Bool
ready w = not w.no_init && (is_set w.fun && is_set w.fb)

-- The null object, or a version that can be called and measured.
abbrev pub usable : Wrapper → Bool
usable w = w.no_init || ready w

pub Ends-mono {ℓ} :
    (C C' R R' : Type 0) {A : Type ℓ} (P Q : A → Type 0) (m : Outcome A)
    → (C → C')
    → (R → R')
    → ((a : A) → P a → Q a)
    → Ends C R P m
    → Ends C' R' Q m
Ends-mono C C' R R' P Q (ok a) c r h p = h a p
Ends-mono C C' R R' P Q assert_failed c r h p = absurd p
Ends-mono C C' R R' P Q null_deref c r h p = absurd p
Ends-mono C C' R R' P Q check_failed c r h p = c p
Ends-mono C C' R R' P Q recompile_failed c r h p = r p

-- A version that can be called has a feedback object.
pub get_feedback-Ends :
    (C R : Type 0) (w : Wrapper) → ready w ≡ true → Ends C R (λ b. w.fb ≡ some b) (get_feedback w)
get_feedback-Ends C R w h = ground arith

pub Ends-if {ℓ} :
    (C R : Type 0) {A : Type ℓ} (P : A → Type 0) (b : Bool) (x y : Outcome A)
    → (b ≡ true → Ends C R P x)
    → (b ≡ false → Ends C R P y)
    → Ends C R P (if b then x else y)
Ends-if C R P true x y hx hy = hx refl
Ends-if C R P false x y hx hy = hy refl

-- If the run ends with a value, the value satisfies `P`; if recompile() ends the program, then `S`.
abbrev pub IfEnds {ℓ} : (S : Type 0) → {A : Type ℓ} → (A → Type 0) → Outcome A → Type 0
IfEnds S P (ok a) = P a
IfEnds S P assert_failed = Unit
IfEnds S P null_deref = Unit
IfEnds S P check_failed = Unit
IfEnds S P recompile_failed = S

pub >>=-IfEnds {ℓ κ} :
    (S : Type 0) {A : Type ℓ} {B : Type κ} {P : A → Type 0} (Q : B → Type 0) (m : Outcome A)
    (f : A → Outcome B)
    → IfEnds S P m
    → ((a : A) → P a → IfEnds S Q (f a))
    → IfEnds S Q (m >>= f)
>>=-IfEnds S Q (ok a) f p next = next a p
>>=-IfEnds S Q assert_failed f p next = tt
>>=-IfEnds S Q null_deref f p next = tt
>>=-IfEnds S Q check_failed f p next = tt
>>=-IfEnds S Q recompile_failed f p next = p

pub IfEnds-if {ℓ} :
    (S : Type 0) {A : Type ℓ} (P : A → Type 0) (b : Bool) (x y : Outcome A)
    → (b ≡ true → IfEnds S P x)
    → (b ≡ false → IfEnds S P y)
    → IfEnds S P (if b then x else y)
IfEnds-if S P true x y hx hy = hx refl
IfEnds-if S P false x y hx hy = hy refl

pub Ends-IfEnds {ℓ} :
    (C R S : Type 0) {A : Type ℓ} (P Q : A → Type 0) (m : Outcome A)
    → Ends C R P m
    → IfEnds S Q m
    → Ends C (R × S) (λ a. P a × Q a) m
Ends-IfEnds C R S P Q (ok a) p q = (p, q)
Ends-IfEnds C R S P Q assert_failed p q = absurd p
Ends-IfEnds C R S P Q null_deref p q = absurd p
Ends-IfEnds C R S P Q check_failed p q = p
Ends-IfEnds C R S P Q recompile_failed p q = (p, q)

-- What never calls recompile() has no such end.
pub IfEnds-weaken {ℓ} :
    (S : Type 0) {A : Type ℓ} (P Q : A → Type 0) (m : Outcome A)
    → ((a : A) → P a → Q a)
    → IfEnds ⊥ P m
    → IfEnds S Q m
IfEnds-weaken S P Q (ok a) h p = h a p
IfEnds-weaken S P Q assert_failed h p = tt
IfEnds-weaken S P Q null_deref h p = tt
IfEnds-weaken S P Q check_failed h p = tt
IfEnds-weaken S P Q recompile_failed h p = absurd p

pub IfEnds-any {ℓ} : {A : Type ℓ} (m : Outcome A) → IfEnds Unit (λ a. Unit) m
IfEnds-any (ok a) = tt
IfEnds-any assert_failed = tt
IfEnds-any null_deref = tt
IfEnds-any check_failed = tt
IfEnds-any recompile_failed = tt

pub get_feedback-IfEnds : (S : Type 0) (w : Wrapper) → IfEnds S (λ b. Unit) (get_feedback w)
get_feedback-IfEnds S w = by_pointer w.fb
  where
    by_pointer : (o : Option ℕ) → IfEnds S (λ b. Unit) (deref o)
    by_pointer none = tt
    by_pointer (some b) = tt
