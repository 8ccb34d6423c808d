-- ===== src/Bayes/Columns/Rows.antt =====
-- What analyze and exportConfig of the Bayesian tuner write together: the flat rows of the data set.
use at_jit.Prelude.{
  ℕ, zero, suc, ◌+◌, ◌*◌, ◌≡◌, ap, ◌∙◌, sym, Bool, some, List, [], ◌∷◌, ◌++◌, length, replicate,
  arith, length-append, length-replicate,
}
use mathlib.Core.List.{append_assoc, append-nil}
use at_jit.LoopSetting.{LoopSetting, flatten}
use at_jit.LoopSetting
use at_jit.Knobs.{Map, KnobSet}
use at_jit.Bayes.Columns.{store_all, assign, assign_to_cols, set_size, int_size}
use at_jit.Bayes.Columns.Blocks.{store_all-behind}

-- The columns of the knobs of one map, n for each.
unfoldable pub columns {ℓ} : {V : Type ℓ} → ℕ → Map V → List ℕ
columns n [] = []
columns n ((id, k) ∷ ks) = replicate n id ++ columns n ks

-- The columns of a knob set: the scalar knobs, one column each, then the loops.
unfoldable pub layout : Bool → KnobSet → List ℕ
layout polly ks = columns int_size ks.int_knobs ++ columns (LoopSetting.size polly) ks.loop_knobs

replicate-plus {ℓ} :
    {A : Type ℓ} (m n : ℕ) (a : A) → replicate (m + n) a ≡ replicate m a ++ replicate n a
replicate-plus zero n a = let e : 0 + n ≡ n = omega arith in ap (λ k. replicate k a) e
replicate-plus (suc m) n a =
    let e : suc m + n ≡ suc (m + n) = omega arith in
    ap (λ k. replicate k a) e ∙ ap (λ l. a ∷ l) (replicate-plus m n a)

store_block :
    (pre : List ℕ) (n j id : ℕ)
    → store_all (pre ++ replicate (n + j) 0) (length pre) (replicate n id)
      ≡ some ((pre ++ replicate n id) ++ replicate j 0)
store_block pre n j id =
    ap (λ l. store_all (pre ++ l) (length pre) (replicate n id)) (replicate-plus n j 0)
    ∙ store_all-behind pre (replicate n 0) (replicate j 0) (replicate n id)
        (length-replicate n 0 ∙ sym (length-replicate n id))
    ∙ ap some (sym (append_assoc pre (replicate n id) (replicate j 0)))

-- assign writes the columns of its knobs from where it starts, and nothing else.
assign-columns {ℓ} :
    {V : Type ℓ} (n m : ℕ) (ks : Map V) (pre : List ℕ)
    → assign n ks (pre ++ replicate (length ks * n + m) 0, length pre)
      ≡ some ((pre ++ columns n ks) ++ replicate m 0, length (pre ++ columns n ks))
unfolding assign columns
assign-columns n m [] pre = let e : 0 * n + m ≡ m = omega arith in rw (append-nil pre, e)
assign-columns n m ((id, k) ∷ ks) pre =
    let e : suc (length ks) * n + m ≡ n + (length ks * n + m) = omega arith in
    let l : length pre + n ≡ length (pre ++ replicate n id) =
      rw (length-append pre (replicate n id), length-replicate n id) in
    rw (
      e,
      store_block pre n (length ks * n + m) id,
      l,
      assign-columns n m ks (pre ++ replicate n id),
      append_assoc pre (replicate n id) (columns n ks),
    )

length-columns {ℓ} : {V : Type ℓ} (n : ℕ) (ks : Map V) → length (columns n ks) ≡ length ks * n
unfolding columns
length-columns n [] = omega arith
length-columns n ((id, k) ∷ ks) =
    let e : suc (length ks) * n ≡ n + length ks * n = omega arith in
    rw
      (length-append (replicate n id) (columns n ks), length-replicate n id, length-columns n ks, e)

-- analyze gives every scalar knob one column and every loop as many as LoopSetting::size says, in the order
-- of the maps: it fills the array that it has allocated, and never writes past it.
pub assign_to_cols-layout :
    (polly : Bool) (ks : KnobSet)
    → (assign_to_cols polly ks ≡ some (layout polly ks))
      × (length (layout polly ks) ≡ set_size polly ks)
unfolding assign_to_cols layout set_size
assign_to_cols-layout polly ks =
    let n = LoopSetting.size polly in
    let ints = columns int_size ks.int_knobs in
    let e : length ks.loop_knobs * n ≡ length ks.loop_knobs * n + 0 = omega arith in
    (
      rw (
        assign-columns int_size (length ks.loop_knobs * n) ks.int_knobs [],
        e,
        assign-columns n 0 ks.loop_knobs ints,
        append-nil (ints ++ columns n ks.loop_knobs),
      ),
      rw (
        length-append ints (columns n ks.loop_knobs),
        length-columns int_size ks.int_knobs,
        length-columns n ks.loop_knobs,
      ),
    )
