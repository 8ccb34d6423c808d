-- ===== src/Bayes/Columns/Flat.antt =====
-- exportConfig on the columns that analyze has set up: the flat row of a configuration.
use at_jit.Prelude.{
  ℕ, zero, suc, ◌+◌, ◌*◌, ◌<◌, ◌≡◌, ◌≢◌, refl, ap, ◌∙◌, sym, Bool, Option, none, some, List, [],
  ◌∷◌, ◌++◌, map, length, replicate, arith, length-append, All, subst, length-replicate,
}
use mathlib.Core.List.{append_assoc, append-nil}
use at_jit.Prelude.Int.{ℤ}
use at_jit.Prelude.Partial.{◌>>=◌}
use at_jit.LoopSetting.{LoopSetting, Cell, cells}
use at_jit.LoopSetting
use at_jit.LoopSetting.Laws.{flatten_total}
use at_jit.Knobs.{Map, lookup, KnobSet, KnobConfig, ScalarInt, all_ids}
use at_jit.Bayes.Columns.{
  FloatCell, whole, floats, assign_to_cols, set_size, int_size, export_cols, export_config,
}
use at_jit.Bayes.Columns.Blocks.{behind, shifted}
use at_jit.Bayes.Columns.Rows.{columns, layout, assign_to_cols-layout}
use at_jit.Bayes.Columns.Export.{value_cells, knob_cells, write_block, export_cols-suc}

-- The cells of the knobs, one after the other.
unfoldable pub flat_cells : Bool → KnobConfig → List ℕ → Option (List FloatCell)
flat_cells polly c [] = some []
flat_cells polly c (id ∷ ids) = do
  row ← knob_cells polly c id
  rest ← flat_cells polly c ids
  some (row ++ rest)

-- No knob has the id of the one before it, and the first is not 0.
unfoldable pub Changes : ℕ → List ℕ → Type 0
Changes prev [] = Unit
Changes prev (id ∷ ids) = (prev ≢ id) × Changes id ids

-- The configuration has a value for each scalar knob of the set, and a setting for each loop.
unfoldable pub IsComplete : KnobConfig → KnobSet → Type 0
IsComplete c ks =
    All (λ p. (v : ℤ) × (lookup p.0 c.int_config ≡ some v)) ks.int_knobs
    × All
        (λ p.
          (lookup p.0 c.int_config ≡ none)
          × ((s : LoopSetting) × (lookup p.0 c.loop_config ≡ some s)))
        ks.loop_knobs

-- A knob with as many columns as it has cells.
Fits : Bool → KnobConfig → ℕ × ℕ → Type 0
Fits polly c (id, n) =
    (row : List FloatCell) × (knob_cells polly c id ≡ some row) × (length row ≡ n) × (0 < n)

expand : List (ℕ × ℕ) → List ℕ
expand [] = []
expand ((id, n) ∷ bs) = replicate n id ++ expand bs

abbrev ids_of : List (ℕ × ℕ) → List ℕ
ids_of bs = map (λ b. b.0) bs

pub split {ℓ} :
    {A : Type ℓ} (m n : ℕ) (l : List A)
    → length l ≡ m + n
    → (a b : List A) × (l ≡ a ++ b) × (length a ≡ m) × (length b ≡ n)
split zero n l e = ([], l, refl, refl, omega arith)
split (suc m) n [] e = absurd (omega arith)
split (suc m) n (x ∷ l) e =
    let (a, b, q, la, lb) = split m n l (omega arith) in
    (x ∷ a, b, ap (λ k. x ∷ k) q, ap suc la, lb)

behind-append {ℓ} :
    {A : Type ℓ} (xs ys : List A) (m : Option (List A))
    → behind xs (behind ys m) ≡ behind (xs ++ ys) m
behind-append xs ys none = refl
behind-append xs ys (some zs) = ap some (sym (append_assoc xs ys zs))

-- The blocks of columns, one after the other.
write_blocks :
    (polly : Bool) (c : KnobConfig) (bs : List (ℕ × ℕ)) (prev : ℕ) (old mem : List FloatCell)
    → All (Fits polly c) bs
    → Changes prev (ids_of bs)
    → length old ≡ length (expand bs)
    → (row : List FloatCell) × (flat_cells polly c (ids_of bs) ≡ some row)
      × (length row ≡ length (expand bs))
      × (export_cols polly c (expand bs) prev (old ++ mem) 0 ≡ some (row ++ mem))
unfolding export_cols flat_cells expand Fits Changes
write_blocks polly c [] prev [] mem f ch lo = ([], refl, refl, refl)
write_blocks polly c [] prev (x ∷ old) mem f ch lo = absurd (omega arith)
write_blocks polly c ((id, n) ∷ bs) prev old mem ((row, e, lr, pos), f) (ne, ch) lo =
    let ln : length (replicate n id ++ expand bs) ≡ n + length (expand bs) =
      rw (length-append (replicate n id) (expand bs), length-replicate n id) in
    let (here, there, q, lh, lt) = split n (length (expand bs)) old (lo ∙ ln) in
    let (rest, e', l', w) = write_blocks polly c bs id there mem f ch lt in
    (
      row ++ rest,
      rw (e, e'),
      rw (length-append row rest, lr, l', ln),
      rw (
        q,
        append_assoc here there mem,
        write_block polly c prev id n (expand bs) row here (there ++ mem) ne e pos lr lh,
        w,
        append_assoc row rest mem,
      ),
    )

-- The blocks of a knob set
abbrev blocks_of {ℓ} : {V : Type ℓ} → ℕ → Map V → List (ℕ × ℕ)
blocks_of n [] = []
blocks_of n ((id, k) ∷ m) = (id, n) ∷ blocks_of n m

blocks : Bool → KnobSet → List (ℕ × ℕ)
blocks polly ks =
    blocks_of int_size ks.int_knobs ++ blocks_of (LoopSetting.size polly) ks.loop_knobs

expand-columns {ℓ} :
    {V : Type ℓ} (n : ℕ) (m : Map V) (bs : List (ℕ × ℕ))
    → expand (blocks_of n m ++ bs) ≡ columns n m ++ expand bs
unfolding expand columns
expand-columns n [] bs = refl
expand-columns n ((id, v) ∷ m) bs =
    ap (λ l. replicate n id ++ l) (expand-columns n m bs)
    ∙ sym (append_assoc (replicate n id) (columns n m) (expand bs))

expand-blocks : (polly : Bool) (ks : KnobSet) → expand (blocks polly ks) ≡ layout polly ks
unfolding blocks layout expand
expand-blocks polly ks =
    let n = LoopSetting.size polly in
    let loops = blocks_of n ks.loop_knobs in
    let e : expand loops ≡ columns n ks.loop_knobs =
      ap expand (sym (append-nil loops))
      ∙ expand-columns n ks.loop_knobs []
      ∙ append-nil (columns n ks.loop_knobs) in
    rw (expand-columns int_size ks.int_knobs loops, e)

map-blocks {ℓ} : {V : Type ℓ} (n : ℕ) (m : Map V) → ids_of (blocks_of n m) ≡ map (λ p. p.0) m
map-blocks n [] = refl
map-blocks n ((id, v) ∷ m) = ap (λ l. id ∷ l) (map-blocks n m)

ids-blocks : (polly : Bool) (ks : KnobSet) → ids_of (blocks polly ks) ≡ all_ids ks
unfolding blocks all_ids
ids-blocks polly ks = go ks.int_knobs
  where
    go :
        (m : Map ScalarInt)
        → ids_of (blocks_of int_size m ++ blocks_of (LoopSetting.size polly) ks.loop_knobs)
          ≡ map (λ p. p.0) m ++ map (λ p. p.0) ks.loop_knobs
    go [] = map-blocks (LoopSetting.size polly) ks.loop_knobs
    go ((id, v) ∷ m) = ap (λ l. id ∷ l) (go m)

length-floats : (cs : List Cell) → length (floats cs) ≡ length cs
length-floats [] = refl
length-floats (x ∷ cs) = ap suc (length-floats cs)

scalar-Fits :
    (polly : Bool) (c : KnobConfig) (id : ℕ) (v : ℤ)
    → lookup id c.int_config ≡ some v
    → Fits polly c (id, int_size)
unfolding Fits knob_cells value_cells
scalar-Fits polly c id v e = (whole v ∷ [], rw e, refl, omega arith)

loop-Fits :
    (polly : Bool) (c : KnobConfig) (id : ℕ) (s : LoopSetting)
    → lookup id c.int_config ≡ none
    → lookup id c.loop_config ≡ some s
    → Fits polly c (id, LoopSetting.size polly)
unfolding Fits knob_cells value_cells LoopSetting.size
loop-Fits polly c id s e e' = (
  floats (cells polly s),
  rw (e, e'),
  length-floats (cells polly s) ∙ (flatten_total polly s).1,
  omega arith,
)

complete-Fits :
    (polly : Bool) (c : KnobConfig) (ks : KnobSet)
    → IsComplete c ks
    → All (Fits polly c) (blocks polly ks)
unfolding IsComplete Fits blocks
complete-Fits polly c ks (hi, hl) = ints ks.int_knobs hi
  where
    loops :
        (m : Map LoopSetting)
        → All
            (λ p.
              (lookup p.0 c.int_config ≡ none)
              × ((s : LoopSetting) × (lookup p.0 c.loop_config ≡ some s)))
            m
        → All (Fits polly c) (blocks_of (LoopSetting.size polly) m)
    loops [] h = tt
    loops ((id, k) ∷ m) ((e, (s, e')), h) = (loop-Fits polly c id s e e', loops m h)

    ints :
        (m : Map ScalarInt)
        → All (λ p. (v : ℤ) × (lookup p.0 c.int_config ≡ some v)) m
        → All
            (Fits polly c)
            (blocks_of int_size m ++ blocks_of (LoopSetting.size polly) ks.loop_knobs)
    ints [] h = loops ks.loop_knobs hl
    ints ((id, k) ∷ m) ((v, e), h) = (scalar-Fits polly c id v e, ints m h)

-- For a set whose knobs that follow each other have different ids, none 0, and a configuration with
-- a value for each of its knobs: exportConfig, with the columns that analyze has set up, writes row r of the
-- matrix, exactly the cells of the knobs one after the other, as many as KnobSet::size says, and leaves every
-- cell before and behind the row as it was.
pub export_config-row :
    (polly : Bool) (c : KnobConfig) (ks : KnobSet) (r : ℕ) (pre old post : List FloatCell)
    → IsComplete c ks
    → Changes 0 (all_ids ks)
    → length pre ≡ r * set_size polly ks
    → length old ≡ set_size polly ks
    → (row : List FloatCell) × (flat_cells polly c (all_ids ks) ≡ some row)
      × (length row ≡ set_size polly ks)
      × ((assign_to_cols polly ks >>= export_config polly c (pre ++ (old ++ post)) r)
          ≡ some (pre ++ (row ++ post)))
unfolding export_config
export_config-row polly c ks r pre old post h ch lp lo =
    let (a, l) = assign_to_cols-layout polly ks in
    let eb = expand-blocks polly ks in
    let ei = ids-blocks polly ks in
    let (row, e, lr, w) =
      write_blocks polly c (blocks polly ks) 0 old post (complete-Fits polly c ks h)
        (subst (Changes 0) (sym ei) ch) (lo ∙ sym (ap length eb ∙ l)) in
    let at : r * length (layout polly ks) ≡ length pre = rw (l, lp) in
    (
      row,
      subst (λ ids. flat_cells polly c ids ≡ some row) ei e,
      lr ∙ (ap length eb ∙ l),
      rw (
        a,
        at,
        shifted (λ mem i. export_cols polly c (layout polly ks) 0 mem i)
            (λ x mem i. export_cols-suc polly c (layout polly ks) 0 x mem i) pre (old ++ post),
        sym eb,
        w,
      ),
    )
