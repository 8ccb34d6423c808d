-- ===== src/Context/Equality.antt =====
-- The equality of contexts is an equivalence wherever no argument is a NaN, and agrees with the hash.
use at_jit.Prelude.{
  none, some, Option, false, ◌∙◌, Bool-cases, inl, inr, ℕ, Bool, true, ◌&&◌, List, [], ◌∷◌, length,
  ◌==◌, ◌≡◌, refl, ap, ap₂, sym, arith, ==_iff,
}
use at_jit.Prelude.Int.{ℤ, eq_ℤ, eq_ℤ_iff}
use at_jit.Tables.{find_key, has_key}
use at_jit.Context.Interfaces.{Hashes}
use at_jit.Context.{
  IntRange, Argument, forward, int, float, ptr, struct, module_of, int_range, Context, eq_bytes,
  same_range, same_arg, same_args, same_context, hash_bytes, hash_range, hash_arg, hash_args,
  hash_context, tuner_code, same_key, hash_key,
}

and_parts : (a b : Bool) → (a && b) ≡ true → (a ≡ true) × (b ≡ true)
and_parts a b e = ground arith

eq_bytes-eq : (xs ys : List ℤ) → eq_bytes xs ys ≡ true → xs ≡ ys
eq_bytes-eq [] [] e = refl
eq_bytes-eq (a ∷ xs) (b ∷ ys) e =
    let (x, y) = and_parts _ _ e in ap₂ (λ x y. x ∷ y) ((eq_ℤ_iff a b).0 x) (eq_bytes-eq xs ys y)
eq_bytes-eq (a ∷ xs) [] e = ground arith
eq_bytes-eq [] (b ∷ ys) e = ground arith

eq_bytes_refl : (xs : List ℤ) → eq_bytes xs xs ≡ true
eq_bytes_refl [] = refl
eq_bytes_refl (a ∷ xs) = rw ((eq_ℤ_iff a a).1 refl) (eq_bytes_refl xs)

same_range-hash : (a b : IntRange) → same_range a b ≡ true → hash_range a ≡ hash_range b
unfolding same_range hash_range
same_range-hash a b e =
    let (x, r) = and_parts _ _ e in
    let (y, z) = and_parts _ _ r in
    rw ((eq_ℤ_iff a.hi b.hi).0 x, (eq_ℤ_iff a.lo b.lo).0 y, (eq_ℤ_iff a.dflt b.dflt).0 z) refl

module _ (h : Hashes) where
  open h use {
    Real, eq_real, eq_real_sym, eq_real_trans, hash_real_eq, hash_int64, hash_ptr, hash_unsigned,
  }

  same_arg-hash : (a b : Argument h) → same_arg h a b ≡ true → hash_arg h a ≡ hash_arg h b
  unfolding same_arg hash_arg
  same_arg-hash (forward a) (forward b) e = ap hash_unsigned ((==_iff a b).0 e)
  same_arg-hash (int a) (int b) e = ap hash_int64 ((eq_ℤ_iff a b).0 e)
  same_arg-hash (float a) (float b) e = hash_real_eq a b e
  same_arg-hash (ptr a) (ptr b) e = ap hash_ptr ((==_iff a b).0 e)
  same_arg-hash (struct a) (struct b) e = ap (λ x. hash_bytes h x 0) (eq_bytes-eq a b e)
  same_arg-hash (module_of a) (module_of b) e = ap hash_ptr ((==_iff a b).0 e)
  same_arg-hash (int_range a) (int_range b) e = same_range-hash a b e
  same_arg-hash a b e = ground arith

  same_args-hash :
      (xs ys : List (Argument h)) (r : ℕ)
      → (length xs == length ys) ≡ true
      → same_args h xs ys ≡ true
      → hash_args h xs r ≡ hash_args h ys r
  unfolding same_args hash_args
  same_args-hash [] [] r l e = refl
  same_args-hash [] (b ∷ ys) r l e = absurd (ground arith)
  same_args-hash (a ∷ xs) [] r l e = absurd (ground arith)
  same_args-hash (a ∷ xs) (b ∷ ys) r l e =
      let (x, y) = and_parts _ _ e in
      rw (same_arg-hash a b x) (same_args-hash xs ys _ (ground arith) y)

  -- What the tests of Context::operator== say where they all pass.
  same_context-parts :
      (c d : Context h)
      → same_context h c d ≡ true
      → (c.opt_level ≡ d.opt_level)
        × (c.opt_size ≡ d.opt_size)
        × ((length c.args == length d.args) ≡ true)
        × (tuner_code c.tuner ≡ tuner_code d.tuner)
        × (same_args h c.args d.args ≡ true)
  unfolding same_context
  same_context-parts c d e = ground arith

  -- Equal contexts have equal hashes, as the map requires.
  pub same_context-hash :
      (c d : Context h) → same_context h c d ≡ true → hash_context h c ≡ hash_context h d
  unfolding hash_context
  same_context-hash c d e =
      let (level, size, len, tuner, args) = same_context-parts c d e in
      rw (level, size, tuner, same_args-hash c.args d.args (tuner_code d.tuner) len args) refl

  -- Keys of the driver's map that are equal have equal hashes, as the map requires.
  pub same_key-hash : (k l : ℕ × Context h) → same_key h k l ≡ true → hash_key h k ≡ hash_key h l
  unfolding same_key hash_key
  same_key-hash (f, c) (g, d) e =
      let (x, y) = and_parts _ _ e in rw ((==_iff f g).0 x, same_context-hash c d y) refl

  -- No argument is a NaN.
  abbrev pub comparable : List (Argument h) → Bool
  comparable [] = true
  comparable (float x ∷ xs) = eq_real x x && comparable xs
  comparable (_ ∷ xs) = comparable xs

  self : (n : ℕ) → (n == n) ≡ true
  self n = (==_iff n n).1 refl

  self_ℤ : (z : ℤ) → eq_ℤ z z ≡ true
  self_ℤ z = (eq_ℤ_iff z z).1 refl

  same_args_refl : (xs : List (Argument h)) → same_args h xs xs ≡ comparable xs
  unfolding same_args same_arg same_range
  same_args_refl [] = refl
  same_args_refl (forward a ∷ xs) = rw (self a) (same_args_refl xs)
  same_args_refl (int a ∷ xs) = rw (self_ℤ a) (same_args_refl xs)
  same_args_refl (float a ∷ xs) = ap (λ b. eq_real a a && b) (same_args_refl xs)
  same_args_refl (ptr a ∷ xs) = rw (self a) (same_args_refl xs)
  same_args_refl (struct a ∷ xs) = rw (eq_bytes_refl a) (same_args_refl xs)
  same_args_refl (module_of a ∷ xs) = rw (self a) (same_args_refl xs)
  same_args_refl (int_range a ∷ xs) =
      rw (self_ℤ a.hi, self_ℤ a.lo, self_ℤ a.dflt) (same_args_refl xs)

  -- Each part but a `double` that is a NaN is equal to itself.
  same_key_refl : (k : ℕ × Context h) → same_key h k k ≡ comparable k.1.args
  unfolding same_key same_context
  same_key_refl (f, c) =
      rw
        (self f, self c.opt_level, self c.opt_size, self (length c.args), self (tuner_code c.tuner))
        (same_args_refl c.args)

  same_arg_sym : (a b : Argument h) → same_arg h a b ≡ true → same_arg h b a ≡ true
  unfolding same_arg same_range
  same_arg_sym (forward a) (forward b) e = ground arith
  same_arg_sym (int a) (int b) e = ground arith
  same_arg_sym (float a) (float b) e = eq_real_sym a b e
  same_arg_sym (ptr a) (ptr b) e = ground arith
  same_arg_sym (struct a) (struct b) e = rw (eq_bytes-eq a b e) (eq_bytes_refl b)
  same_arg_sym (module_of a) (module_of b) e = ground arith
  same_arg_sym (int_range a) (int_range b) e = ground arith
  same_arg_sym a b e = ground arith

  same_args_sym :
      (xs ys : List (Argument h))
      → (length xs == length ys) ≡ true
      → same_args h xs ys ≡ true
      → same_args h ys xs ≡ true
  unfolding same_args
  same_args_sym [] [] l e = refl
  same_args_sym [] (y ∷ ys) l e = absurd (ground arith)
  same_args_sym (x ∷ xs) [] l e = absurd (ground arith)
  same_args_sym (x ∷ xs) (y ∷ ys) l e =
      let (p, q) = and_parts _ _ e in rw (same_arg_sym x y p) (same_args_sym xs ys (ground arith) q)

  -- The equality of keys is symmetric.
  pub same_key_sym : (k l : ℕ × Context h) → same_key h k l ≡ true → same_key h l k ≡ true
  unfolding same_key same_context
  same_key_sym (f, c) (g, d) e =
      let (p, q) = and_parts _ _ e in
      let (level, size, len, tuner, args) = same_context-parts c d q in
      rw
        (
          (==_iff f g).0 p,
          level,
          size,
          tuner,
          sym ((==_iff (length c.args) (length d.args)).0 len),
          self g,
          self d.opt_level,
          self d.opt_size,
          self (length c.args),
          self (tuner_code d.tuner),
        )
        (same_args_sym c.args d.args len args)

  same_arg_trans :
      (a b c : Argument h) → same_arg h a b ≡ true → same_arg h b c ≡ true → same_arg h a c ≡ true
  unfolding same_arg same_range
  same_arg_trans (float a) (float b) (float c) e f = eq_real_trans a b c e f
  same_arg_trans (struct a) (struct b) (struct c) e f = rw (eq_bytes-eq a b e) f
  same_arg_trans (int_range a) (int_range b) (int_range c) e f =
      let (x, r) = and_parts _ _ e in
      let (y, z) = and_parts _ _ r in
      rw ((eq_ℤ_iff a.hi b.hi).0 x, (eq_ℤ_iff a.lo b.lo).0 y, (eq_ℤ_iff a.dflt b.dflt).0 z) f
  same_arg_trans a b c e f = ground arith

  same_args_trans :
      (xs ys zs : List (Argument h))
      → (length xs == length ys) ≡ true
      → same_args h xs ys ≡ true
      → same_args h ys zs ≡ true
      → same_args h xs zs ≡ true
  unfolding same_args
  same_args_trans [] ys zs l e f = refl
  same_args_trans (x ∷ xs) [] zs l e f = absurd (ground arith)
  same_args_trans (x ∷ xs) (y ∷ ys) [] l e f = absurd (ground arith)
  same_args_trans (x ∷ xs) (y ∷ ys) (z ∷ zs) l e f =
      let (p, q) = and_parts _ _ e in
      let (r, s) = and_parts _ _ f in
      rw (same_arg_trans x y z p r) (same_args_trans xs ys zs (ground arith) q s)

  -- The equality of keys is transitive.
  pub same_key_trans :
      (k l m : ℕ × Context h)
      → same_key h k l ≡ true
      → same_key h l m ≡ true
      → same_key h k m ≡ true
  unfolding same_key same_context
  same_key_trans (f, c) (g, d) (i, e) u v =
      let (p, q) = and_parts _ _ u in
      let (r, s) = and_parts _ _ v in
      let (level, size, len, tuner, args) = same_context-parts c d q in
      let (level', size', len', tuner', args') = same_context-parts d e s in
      rw
        (
          (==_iff f g).0 p,
          (==_iff g i).0 r,
          level,
          level',
          size,
          size',
          tuner,
          tuner',
          (==_iff (length c.args) (length d.args)).0 len,
          (==_iff (length d.args) (length e.args)).0 len',
          self i,
          self e.opt_level,
          self e.opt_size,
          self (length e.args),
          self (tuner_code e.tuner),
        )
        (same_args_trans c.args d.args e.args len args args')

  both_ways : (a b : Bool) → (a ≡ true → b ≡ true) → (b ≡ true → a ≡ true) → a ≡ b
  both_ways true b f g = sym (f refl)
  both_ways false true f g = g refl
  both_ways false false f g = refl

  chained : (a b c : Bool) → (a ≡ true → b ≡ true → c ≡ true) → (a && b) ≡ (a && (b && c))
  chained true true c f = sym (f refl refl)
  chained true false c f = refl
  chained false b c f = refl

  -- A key that a table holds is equal to itself.
  find_key-comparable :
      {V : Type 0} (k : ℕ × Context h) (v : V) (table : List ((ℕ × Context h) × V))
      → find_key (same_key h) table k ≡ some v
      → comparable k.1.args ≡ true
  unfolding find_key
  find_key-comparable k v [] e = absurd (cc)
  find_key-comparable k v ((j, w) ∷ table) e = elim (Bool-cases (same_key h j k)) [
    | inl same ↦ sym (same_key_refl k) ∙ same_key_trans k j k (same_key_sym j k same) same
    | inr other ↦ find_key-comparable k v table (rw other at e)
  ]

  has_key-comparable :
      {V : Type 0} (k : ℕ × Context h) (table : List ((ℕ × Context h) × V))
      → has_key (same_key h) table k ≡ true
      → comparable k.1.args ≡ true
  unfolding has_key
  has_key-comparable {V = V} k table e = by_entry (find_key (same_key h) table k) refl e
    where
      by_entry :
          (o : Option V)
          → find_key (same_key h) table k ≡ o
          → (elim o [ none ↦ false | some v ↦ true ]) ≡ true
          → comparable k.1.args ≡ true
      by_entry none at e = absurd (cc)
      by_entry (some v) at e = find_key-comparable k v table at

  -- A key is equal to itself exactly where no `double` argument of its context is a NaN; and with a NaN, no table
  -- has the key, not even one that was filled under it. The equality of keys is symmetric and transitive.
  pub same_key-equivalence :
      {V : Type 0} (k l m : ℕ × Context h) (table : List ((ℕ × Context h) × V))
      → (same_key h k k ≡ comparable k.1.args)
        × (has_key (same_key h) table k ≡ (has_key (same_key h) table k && comparable k.1.args))
        × (same_key h k l ≡ same_key h l k)
        × ((same_key h k l && same_key h l m)
            ≡ (same_key h k l && (same_key h l m && same_key h k m)))
  same_key-equivalence k l m table = (
    same_key_refl k,
    narrowed (has_key (same_key h) table k) (comparable k.1.args) (has_key-comparable k table),
    both_ways (same_key h k l) (same_key h l k) (same_key_sym k l) (same_key_sym l k),
    chained (same_key h k l) (same_key h l m) (same_key h k m) (same_key_trans k l m),
  )
    where
      narrowed : (a b : Bool) → (a ≡ true → b ≡ true) → a ≡ (a && b)
      narrowed true b f = sym (f refl)
      narrowed false b f = refl
