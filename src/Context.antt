-- ===== src/Context.antt =====
-- include/easy/runtime/Context.h, runtime/Context.cpp, include/tuner/param.h and runtime/tuner/Knob.cpp: the
-- context of a request, its equality and its hash, by which the driver's map and the cache find it.
pub mod Interfaces
pub mod Equality
mod Tests
use Prim.Native.Nat.{bit_xor}
use at_jit.Prelude.{
  ℕ, zero, suc, ◌+◌, ◌-◌, ◌*◌, ◌/◌, ◌%◌, ◌^◌, Bool, true, false, ◌&&◌, Option, none, some, List, [],
  ◌∷◌, ◌++◌, length, if◌then◌else◌, ◌==◌,
}
use at_jit.Prelude.Int.{ℤ, pos, negsuc, eq_ℤ, leb_ℤ}
use at_jit.Prelude.Partial.{◌>>◌, assert}
use at_jit.Context.Interfaces.{Hashes}

-- class IntRange. A copy keeps the id of the knob it is a copy of.
pub record IntRange : Type 0 where
  pub lo : ℤ
  pub hi : ℤ
  pub cur : ℤ
  pub dflt : ℤ
  pub id : ℕ

-- setVal
pub set_val : IntRange → ℤ → Option IntRange
set_val r v = assert (leb_ℤ r.lo v && leb_ℤ v r.hi) >> some (record r { cur = v })

-- IntRange(lo, hi, dflt) with the next ticket of KnobTicker, which is a 64-bit counter.
pub new_range : ℕ → ℤ → ℤ → ℤ → Option IntRange
new_range ticket lo hi dflt =
    assert (if ticket % 2 ^ 64 == 0 then false else true)
    >> (assert (leb_ℤ lo hi)
        >> (assert (leb_ℤ lo dflt && leb_ℤ dflt hi)
            >> set_val (record { lo = lo; hi = hi; cur = dflt; dflt = dflt; id = ticket % 2 ^ 64 })
                dflt))

-- operator==(ScalarRange, ScalarRange)
pub same_range : IntRange → IntRange → Bool
same_range a b = eq_ℤ a.hi b.hi && (eq_ℤ a.lo b.lo && eq_ℤ a.dflt b.dflt)

infixl 55 ◌xor◌
abbrev pub ◌xor◌ : ℕ → ℕ → ℕ
a xor b = bit_xor a b

-- An `int` as a size_t.
abbrev pub as_size : ℤ → ℕ
as_size (pos n) = n % 2 ^ 64
as_size (negsuc n) = 2 ^ 64 - 1 - n % 2 ^ 64

pub hash_range : IntRange → ℕ
hash_range r = as_size r.hi xor as_size r.lo xor as_size r.dflt

-- The classes under ArgumentBase. A function stands for its module's address, a pointer for its address.
pub data Argument (h : Hashes) : Type 0 where
  forward : ℕ → Argument h
  int : ℤ → Argument h
  float : Hashes.Real h → Argument h
  ptr : ℕ → Argument h
  struct : List ℤ → Argument h
  module_of : ℕ → Argument h
  int_range : IntRange → Argument h

abbrev pub eq_bytes : List ℤ → List ℤ → Bool
eq_bytes [] [] = true
eq_bytes (a ∷ xs) (b ∷ ys) = eq_ℤ a b && eq_bytes xs ys
eq_bytes _ _ = false

-- enum AutoTuner
pub data AutoTuner : Type 0 where
  at_none at_random at_bayes at_anneal : AutoTuner

abbrev pub tuner_code : AutoTuner → ℕ
tuner_code at_none = 0
tuner_code at_random = 1
tuner_code at_bayes = 2
tuner_code at_anneal = 3

-- enum FeedbackKind
pub data FeedbackKind : Type 0 where
  fb_none fb_debug fb_total fb_total_ignore_error fb_recent fb_recent_np : FeedbackKind

pub record Context (h : Hashes) : Type 0 where
  pub args : List (Argument h)
  pub opt_level : ℕ
  pub opt_size : ℕ
  pub debug_file : List ℕ
  pub debug_before_file : List ℕ
  pub tuner : AutoTuner
  pub feedback : FeedbackKind
  pub wait_for_compile : Bool

module _ (h : Hashes) where
  open h use {eq_real, hash_unsigned, hash_int64, hash_real, hash_ptr}

  abbrev pub empty_context : Context h
  empty_context = record {
    args = [];
    opt_level = 3;
    opt_size = 0;
    debug_file = [];
    debug_before_file = [];
    tuner = at_none;
    feedback = fb_none;
    wait_for_compile = false;
  }

  -- setArg, which the setParameter methods call
  unfoldable pub set_arg : Context h → Argument h → Context h
  set_arg c a = record c { args = c.args ++ (a ∷ []) }

  -- ArgumentBase::operator==
  pub same_arg : Argument h → Argument h → Bool
  same_arg (forward a) (forward b) = a == b
  same_arg (int a) (int b) = eq_ℤ a b
  same_arg (float a) (float b) = eq_real a b
  same_arg (ptr a) (ptr b) = a == b
  same_arg (struct a) (struct b) = eq_bytes a b
  same_arg (module_of a) (module_of b) = a == b
  same_arg (int_range a) (int_range b) = same_range a b
  same_arg _ _ = false

  -- The loop of Context::operator== over the arguments of `this`; the sizes are equal there.
  pub same_args : List (Argument h) → List (Argument h) → Bool
  same_args [] ys = true
  same_args (a ∷ xs) [] = false
  same_args (a ∷ xs) (b ∷ ys) = same_arg a b && same_args xs ys

  -- Context::operator==
  pub same_context : Context h → Context h → Bool
  same_context c d =
      if c.opt_level == d.opt_level && c.opt_size == d.opt_size
      then (if length c.args == length d.args
          then (if tuner_code c.tuner == tuner_code d.tuner then same_args c.args d.args else false)
          else false)
      else false

  pub hash_bytes : List ℤ → ℕ → ℕ
  hash_bytes [] r = r
  hash_bytes (c ∷ cs) r = hash_bytes cs (r xor hash_int64 c)

  pub hash_arg : Argument h → ℕ
  hash_arg (forward a) = hash_unsigned a
  hash_arg (int a) = hash_int64 a
  hash_arg (float a) = hash_real a
  hash_arg (ptr a) = hash_ptr a
  hash_arg (struct a) = hash_bytes a 0
  hash_arg (module_of a) = hash_ptr a
  hash_arg (int_range a) = hash_range a

  pub hash_args : List (Argument h) → ℕ → ℕ
  hash_args [] r = r
  hash_args (a ∷ xs) r = hash_args xs (r xor hash_arg a)

  -- std::hash<easy::Context>
  pub hash_context : Context h → ℕ
  hash_context c =
      hash_args c.args (tuner_code c.tuner)
      xor (hash_unsigned c.opt_level xor hash_unsigned c.opt_size)

  -- A key of the driver's map, and equal_to and std::hash on it.
  pub same_key : ℕ × Context h → ℕ × Context h → Bool
  same_key (f, c) (g, d) = f == g && same_context c d

  pub hash_key : ℕ × Context h → ℕ
  hash_key (f, c) = hash_ptr f xor hash_context c
