-- ===== src/Prelude/Partial.antt =====
-- Code that may stop at a failed assertion or by an exception: `none`.
use mathlib.Core.Path.{◌≡◌, refl, subst}
use mathlib.Core.Bool.{Bool, true, false}
use mathlib.Core.Option.{Option, none, some}
use at_jit.Prelude.Tests.{if◌then◌else◌}
use at_jit.Prelude.Lists.{some-injective, none-some}

infixl 5 ◌>>=◌ ◌>>◌
abbrev pub ◌>>=◌ {ℓ κ} : {A : Type ℓ} {B : Type κ} → Option A → (A → Option B) → Option B
none >>= f = none
some a >>= f = f a

abbrev pub ◌>>◌ {ℓ} : {B : Type ℓ} → Option (Unit {0}) → Option B → Option B
m >> k = m >>= λ _. k

-- `assert`: the program stops where the test fails.
abbrev pub assert : Bool → Option (Unit {0})
assert true = some tt
assert false = none

-- The code does not stop, and its result satisfies `P`.
abbrev pub Succeeds {ℓ} : {A : Type ℓ} → (A → Type 0) → Option A → Type 0
Succeeds P none = ⊥
Succeeds P (some a) = P a

pub >>=-Succeeds {ℓ κ} :
    {A : Type ℓ} {B : Type κ} {P : A → Type 0} (Q : B → Type 0) (m : Option A) (f : A → Option B)
    → Succeeds P m
    → ((a : A) → P a → Succeeds Q (f a))
    → Succeeds Q (m >>= f)
>>=-Succeeds Q (some a) f p next = next a p
>>=-Succeeds Q none f p next = absurd p

pub Succeeds-if {ℓ} :
    {A : Type ℓ} (P : A → Type 0) (b : Bool) (x y : Option A)
    → (b ≡ true → Succeeds P x)
    → (b ≡ false → Succeeds P y)
    → Succeeds P (if b then x else y)
Succeeds-if P true x y hx hy = hx refl
Succeeds-if P false x y hx hy = hy refl

pub Succeeds-mono {ℓ} :
    {A : Type ℓ} (P Q : A → Type 0) (m : Option A)
    → ((a : A) → P a → Q a)
    → Succeeds P m
    → Succeeds Q m
Succeeds-mono P Q (some a) h p = h a p
Succeeds-mono P Q none h p = absurd p

pub Succeeds-both {ℓ} :
    {A : Type ℓ} {P Q R : A → Type 0} (m : Option A)
    → ((a : A) → P a → Q a → R a)
    → Succeeds P m
    → Succeeds Q m
    → Succeeds R m
Succeeds-both (some a) f p q = f a p q
Succeeds-both none f p q = absurd p

pub if-elim {ℓ κ} :
    {A : Type ℓ} (P : A → Type κ) (b : Bool) (x y : A) → P x → P y → P (if b then x else y)
if-elim P true x y p q = p
if-elim P false x y p q = q

-- Where the code does not stop, its result satisfies `P`.
abbrev pub IfSome {ℓ} : {A : Type ℓ} → (A → Type 0) → Option A → Type 0
IfSome P none = Unit
IfSome P (some a) = P a

pub IfSome-if {ℓ} :
    {A : Type ℓ} (P : A → Type 0) (b : Bool) (x y : Option A)
    → (b ≡ true → IfSome P x)
    → (b ≡ false → IfSome P y)
    → IfSome P (if b then x else y)
IfSome-if P true x y hx hy = hx refl
IfSome-if P false x y hx hy = hy refl

pub IfSome-map {ℓ κ} :
    {A : Type ℓ} {B : Type κ} (P : B → Type 0) (m : Option A) (f : A → B)
    → ((a : A) → P (f a))
    → IfSome P (m >>= λ a. some (f a))
IfSome-map P none f h = tt
IfSome-map P (some a) f h = h a

-- The branch that is taken, with the test's result.
pub if-cases {ℓ κ} :
    {A : Type ℓ} (P : A → Type κ) (b : Bool) (x y : A)
    → (b ≡ true → P x)
    → (b ≡ false → P y)
    → P (if b then x else y)
if-cases P true x y hx hy = hx refl
if-cases P false x y hx hy = hy refl

-- A property of the result of code that begins with code that does not stop.
pub after-Succeeds {ℓ κ ι} :
    {A : Type ℓ} {B : Type κ} {P : A → Type 0} (R : Option B → Type ι) (m : Option A)
    (f : A → Option B)
    → Succeeds P m
    → ((a : A) → P a → R (f a))
    → R (m >>= f)
after-Succeeds R (some a) f p next = next a p
after-Succeeds R none f p next = absurd p

pub after-result {ℓ κ} :
    {A : Type ℓ} {P : A → Type 0} (R : Option A → Type κ) (m : Option A)
    → Succeeds P m
    → ((a : A) → P a → R (some a))
    → R m
after-result R (some a) p next = next a p
after-result R none p next = absurd p

pub >>=-IfSome {ℓ κ} :
    {A : Type ℓ} {B : Type κ} {P : A → Type 0} (Q : B → Type 0) (m : Option A) (f : A → Option B)
    → IfSome P m
    → ((a : A) → P a → IfSome Q (f a))
    → IfSome Q (m >>= f)
>>=-IfSome Q (some a) f p next = next a p
>>=-IfSome Q none f p next = tt

pub IfSome-at {ℓ} :
    {A : Type ℓ} (P : A → Type 0) (m : Option A) (a : A) → m ≡ some a → IfSome P m → P a
IfSome-at P (some b) a e p = subst P (some-injective e) p
IfSome-at P none a e p = absurd (none-some e)

pub IfSome-always {ℓ} : {A : Type ℓ} (m : Option A) → IfSome (λ _. Unit {0}) m
IfSome-always (some a) = tt
IfSome-always none = tt

pub IfSome-mono {ℓ} :
    {A : Type ℓ} (P Q : A → Type 0) (m : Option A) → ((a : A) → P a → Q a) → IfSome P m → IfSome Q m
IfSome-mono P Q (some a) h p = h a p
IfSome-mono P Q none h p = tt

pub Succeeds-value {ℓ} :
    {A : Type ℓ} (P : A → Type 0) (m : Option A) → Succeeds P m → (a : A) × (m ≡ some a) × P a
Succeeds-value P (some a) p = (a, refl, p)
Succeeds-value P none p = absurd p

pub Succeeds-and {ℓ} :
    {A : Type ℓ} (P Q : A → Type 0) (m : Option A)
    → Succeeds P m
    → IfSome Q m
    → Succeeds (λ a. P a × Q a) m
Succeeds-and P Q (some a) p q = (p, q)
Succeeds-and P Q none p q = absurd p

-- Code behind an assertion
pub IfSome-assert {ℓ} :
    {A : Type ℓ} (P : A → Type 0) (b : Bool) (m : Option A) → IfSome P m → IfSome P (assert b >> m)
IfSome-assert P true m p = p
IfSome-assert P false m p = tt
