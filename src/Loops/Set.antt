-- ===== src/Loops/Set.antt =====
-- What is found in the operands after an update.
use at_jit.Prelude.{
  ◌≡◌, refl, ap, ap₂, ◌∙◌, Bool, true, false, ◌&&◌, ◌||◌, Option, none, some, List, [], ◌∷◌, ◌++◌,
  if◌then◌else◌, ◌==◌, ==_iff, Bool-cases, inl, inr, arith,
}
use mathlib.Core.Bool.{false≢true}
use at_jit.Prelude.Partial.{if-cases}
use at_jit.Loops.{
  MdStrings, Leaf, Operand, str, int, other, node, leaf, eq_leaf, eq_leaves, eq_operand, contains,
  insert_op, insert_all, matches_loop_option, remove_option,
}

-- The first operand with the property
unfoldable pub find {ℓ} : {A : Type ℓ} → (A → Bool) → List A → Option A
find p [] = none
find p (x ∷ xs) = if p x then some x else find p xs

-- The first of two answers
abbrev pub or_else {ℓ} : {A : Type ℓ} → Option A → Option A → Option A
or_else none b = b
or_else (some a) b = some a

pub find-append {ℓ} :
    {A : Type ℓ} (p : A → Bool) (xs ys : List A)
    → find p (xs ++ ys) ≡ or_else (find p xs) (find p ys)
unfolding find
find-append p [] ys = refl
find-append p (x ∷ xs) ys = elim (Bool-cases (p x)) [
  | inl e ↦ rw e refl
  | inr e ↦ rw e (find-append p xs ys)
]

or_false : {a b : Bool} → a ≡ false → (a || b) ≡ true → b ≡ true
or_false {a} {b} e h = ground arith

pub or_else-none {ℓ} : {A : Type ℓ} (o : Option A) → o ≡ or_else o none
or_else-none none = refl
or_else-none (some a) = refl

or_else_assoc {ℓ} :
    {A : Type ℓ} (a b c : Option A) → or_else (or_else a b) c ≡ or_else a (or_else b c)
or_else_assoc none b c = refl
or_else_assoc (some a) b c = refl

and_true : (a b : Bool) → (a && b) ≡ true → (a ≡ true) × (b ≡ true)
and_true a b h = ground arith

first_or {ℓ} :
    {A : Type ℓ} (b : Bool) (x : A) (o : Option A)
    → or_else (if b then some x else none) o ≡ (if b then some x else o)
first_or true x o = refl
first_or false x o = refl

module _ (strs : MdStrings) where
  open strs use {Str, eq_str, eq_str_iff}

  eq_leaf_sound : (a b : Leaf strs) → eq_leaf strs a b ≡ true → a ≡ b
  unfolding eq_leaf
  eq_leaf_sound (str a) (str b) h = ap str ((eq_str_iff a b).0 h)
  eq_leaf_sound (int w a) (int v b) h =
      let (p, q) = and_true (w == v) (a == b) h in ap₂ int ((==_iff w v).0 p) ((==_iff a b).0 q)
  eq_leaf_sound (other a) (other b) h = ap other ((==_iff a b).0 h)
  eq_leaf_sound (str a) (int v b) h = absurd (false≢true h)
  eq_leaf_sound (str a) (other b) h = absurd (false≢true h)
  eq_leaf_sound (int w a) (str b) h = absurd (false≢true h)
  eq_leaf_sound (int w a) (other b) h = absurd (false≢true h)
  eq_leaf_sound (other a) (str b) h = absurd (false≢true h)
  eq_leaf_sound (other a) (int v b) h = absurd (false≢true h)

  eq_leaves_sound : (xs ys : List (Leaf strs)) → eq_leaves strs xs ys ≡ true → xs ≡ ys
  unfolding eq_leaves
  eq_leaves_sound [] [] h = refl
  eq_leaves_sound [] (b ∷ ys) h = absurd (false≢true h)
  eq_leaves_sound (a ∷ xs) [] h = absurd (false≢true h)
  eq_leaves_sound (a ∷ xs) (b ∷ ys) h =
      let (p, q) = and_true (eq_leaf strs a b) (eq_leaves strs xs ys) h in
      ap₂ (λ u us. u ∷ us) (eq_leaf_sound a b p) (eq_leaves_sound xs ys q)

  eq_operand_sound : (x y : Operand strs) → eq_operand strs x y ≡ true → x ≡ y
  unfolding eq_operand
  eq_operand_sound (node xs) (node ys) h = ap node (eq_leaves_sound xs ys h)
  eq_operand_sound (leaf a) (leaf b) h = ap leaf (eq_leaf_sound a b h)
  eq_operand_sound (node xs) (leaf b) h = absurd (false≢true h)
  eq_operand_sound (leaf a) (node ys) h = absurd (false≢true h)

  -- What is in the set already is not found behind it.
  find-contains :
      (p : Operand strs → Bool) (x : Operand strs) (ops : List (Operand strs))
      → contains strs x ops ≡ true
      → find p ops ≡ or_else (find p ops) (if p x then some x else none)
  unfolding contains find
  find-contains p x [] h = absurd (false≢true h)
  find-contains p x (y ∷ ops) h = elim (Bool-cases (p y)) [
    | inl e ↦ rw e refl
    | inr e ↦ elim (Bool-cases (eq_operand strs x y)) [
      | inl same ↦
          let px : p x ≡ false = ap p (eq_operand_sound x y same) ∙ e in
          rw (e, px) (or_else-none (find p ops))
      | inr differ ↦ rw e (find-contains p x ops (or_false differ h))
    ]
  ]

  pub find-insert_op :
      (p : Operand strs → Bool) (ops : List (Operand strs)) (x : Operand strs)
      → find p (insert_op strs ops x) ≡ or_else (find p ops) (if p x then some x else none)
  unfolding insert_op find
  find-insert_op p ops x =
      if-cases (λ l. find p l ≡ or_else (find p ops) (if p x then some x else none))
        (contains strs x ops) ops (ops ++ x ∷ []) (λ e. find-contains p x ops e)
        (λ e. find-append p ops (x ∷ []))

  pub find-insert_all :
      (p : Operand strs → Bool) (ops xs : List (Operand strs))
      → find p (insert_all strs ops xs) ≡ or_else (find p ops) (find p xs)
  unfolding insert_all find
  find-insert_all p ops [] = or_else-none (find p ops)
  find-insert_all p ops (x ∷ xs) =
      find-insert_all p (insert_op strs ops x) xs
      ∙ ap (λ o. or_else o (find p xs)) (find-insert_op p ops x)
      ∙ or_else_assoc (find p ops) (if p x then some x else none) (find p xs)
      ∙ ap (or_else (find p ops)) (first_or (p x) x (find p xs))

  -- Properties that no option of the key has
  unfoldable pub Apart : strs.Str → (Operand strs → Bool) → Type 0
  Apart key p = (x : Operand strs) → matches_loop_option strs key x ≡ true → p x ≡ false

  pub find-remove :
      (key : strs.Str) (p : Operand strs → Bool) (ops : List (Operand strs))
      → Apart key p
      → find p (remove_option strs key ops) ≡ find p ops
  unfolding remove_option find Apart
  find-remove key p [] h = refl
  find-remove key p (x ∷ ops) h = elim (Bool-cases (matches_loop_option strs key x)) [
    | inl e ↦ rw (e, h x e) (find-remove key p ops h)
    | inr e ↦
        rw e
          (elim (Bool-cases (p x)) [ inl q ↦ rw q refl | inr q ↦ rw q (find-remove key p ops h) ])
  ]

  pub find-removed :
      (key : strs.Str) (ops : List (Operand strs))
      → find (matches_loop_option strs key) (remove_option strs key ops) ≡ none
  unfolding remove_option find
  find-removed key [] = refl
  find-removed key (x ∷ ops) = elim (Bool-cases (matches_loop_option strs key x)) [
    | inl e ↦ rw e (find-removed key ops)
    | inr e ↦ rw (e, e) (find-removed key ops)
  ]
