-- ===== src/Bayes/Dataset/Filled.antt =====
-- updateDataset fills both matrices, and never writes outside them.
use at_jit.Prelude.{
  ℕ, suc, ◌+◌, ◌-◌, ◌*◌, ◌%◌, ◌^◌, ◌<◌, ◌≤◌, ◌≡◌, sym, subst, ap, ◌∙◌, Bool, true, false, Option,
  none, some, List, [], ◌∷◌, ◌++◌, length, ◌==◌, ==_iff, All, arith, length-append,
  length-replicate, Bool-cases, some-injective, inl, inr,
}
use at_jit.Prelude.Double.{Double}
use at_jit.Prelude.Partial.{◌>>=◌, Succeeds, >>=-Succeeds}
use at_jit.Knobs.{KnobConfig, KnobSet, all_ids}
use at_jit.Feedback.Object.{Object, update_stats, expected_value}
use at_jit.Bayes.Columns.{FloatCell, unset, store, assign_to_cols, set_size, export_config}
use at_jit.Bayes.Columns.Blocks.{store-Succeeds}
use at_jit.Bayes.Columns.Rows.{assign_to_cols-layout, layout}
use at_jit.Bayes.Columns.Flat.{IsComplete, Changes, export_config-row, split}
use at_jit.Bayes.Dataset.{
  Matrix, new_matrix, DataSet, is_max, store_result, write_row, fill_rows, validate_rows,
  update_dataset,
}

Succeeds-some {ℓ} :
    {A : Type ℓ} (P : A → Type 0) (o : Option A) (a : A) → o ≡ some a → P a → Succeeds P o
Succeeds-some P o a e p = subst (Succeeds P) (sym e) p

rows_split : (w i r : ℕ) → i < r → r * w ≡ i * w + (w + (r - i - 1) * w)
rows_split w i r h =
    let e : r ≡ i + suc (r - i - 1) = omega arith in
    let e' : (i + suc (r - i - 1)) * w ≡ i * w + (w + (r - i - 1) * w) = omega arith in
    ap (λ r. r * w) e ∙ e'

wraps : (n v : ℕ) → n < 2 ^ 64 → v < n → (n + 2 ^ 64 - v) % 2 ^ 64 ≡ n - v
wraps n v h h' = omega arith

length-row {ℓ} :
    {A : Type ℓ} (pre old post row : List A)
    → length row ≡ length old
    → length (pre ++ (row ++ post)) ≡ length (pre ++ (old ++ post))
length-row pre old post row e = rw (
  length-append pre (row ++ post),
  length-append pre (old ++ post),
  length-append row post,
  length-append old post,
  e,
)

module _ (dbl : Double) (polly : Bool) (ks : KnobSet) (changes : Changes 0 (all_ids ks)) where
  -- Each row that is inside the matrix can be written.
  export_config-Succeeds :
      (c : KnobConfig) (mem : List FloatCell) (i r : ℕ)
      → IsComplete c ks
      → i < r
      → length mem ≡ r * set_size polly ks
      → Succeeds (λ m. length m ≡ length mem) (export_config polly c mem i (layout polly ks))
  export_config-Succeeds c mem i r done h l =
      let w = set_size polly ks in
      let (pre, rest, q, lp, lr) =
        split (i * w) (w + (r - i - 1) * w) mem (l ∙ rows_split w i r h) in
      let (old, post, q', lo, lq) = split w ((r - i - 1) * w) rest lr in
      let (row, e, lw, x) = export_config-row polly c ks i pre old post done changes lp lo in
      let x' =
        sym (
          ap (λ o. o >>= export_config polly c (pre ++ (old ++ post)) i)
            (assign_to_cols-layout polly ks).0)
        ∙ x in
      let qq = q ∙ ap (λ l. pre ++ l) q' in
      subst
        (λ m. Succeeds (λ m'. length m' ≡ length m) (export_config polly c m i (layout polly ks)))
        (sym qq)
        (Succeeds-some (λ m. length m ≡ length (pre ++ (old ++ post))) _ (pre ++ (row ++ post)) x'
          (length-row pre old post row (lw ∙ sym lo)))

  -- A configuration with all its knobs, and feedback that was measured.
  unfoldable pub IsReady : KnobConfig × Object dbl → Type 0
  IsReady (kc, fb) =
      IsComplete kc ks
      × Succeeds (λ fb'. is_max dbl (expected_value dbl fb') ≡ false) (update_stats dbl fb)

  -- A matrix of r rows
  pub record IsMatrix (r : ℕ) (m : Matrix dbl) : Type 0 where
    pub cells : length m.cells ≡ r * set_size polly ks
    pub results : length m.results ≡ r

  new_matrix-IsMatrix : (r : ℕ) → IsMatrix r (new_matrix dbl r (length (layout polly ks)))
  new_matrix-IsMatrix r = record {
    cells =
        length-replicate (r * length (layout polly ks)) unset
        ∙ ap (λ n. r * n) (assign_to_cols-layout polly ks).1;
    results = length-replicate r none;
  }

  write_row-IsMatrix :
      (kc : KnobConfig) (fb : Object dbl) (i r : ℕ) (m : Matrix dbl)
      → IsReady (kc, fb)
      → i < r
      → IsMatrix r m
      → Succeeds (λ x. IsMatrix r x.1) (write_row dbl polly (layout polly ks) kc fb i m)
  unfolding write_row IsReady store_result
  write_row-IsMatrix kc fb i r m (done, measured) h ok =
      >>=-Succeeds (λ x. IsMatrix r x.1) (export_config polly kc m.cells i (layout polly ks)) _
        (export_config-Succeeds kc m.cells i r done h ok.cells)
        λ cells lc.
          >>=-Succeeds (λ x. IsMatrix r x.1) (update_stats dbl fb) _ measured
            λ fb' e. rw e (
              >>=-Succeeds (λ x. IsMatrix r x.1)
                (store m.results i (some (dbl.narrow (expected_value dbl fb')))) _
                (store-Succeeds m.results i (some (dbl.narrow (expected_value dbl fb')))
                  (omega (arith, ok.results)))
                λ results lr. record { cells = lc ∙ ok.cells; results = lr ∙ ok.results })

  -- Both matrices, the held-out one of v rows and the training one of t, and the last row is t.
  pub Filled : ℕ → ℕ → List (KnobConfig × Object dbl) × ℕ × DataSet dbl → Type 0
  Filled v t (cs, i, ds) = IsMatrix v ds.test × IsMatrix t ds.training × (i ≡ t)

  fill_training :
      (v t count i : ℕ) (cs : List (KnobConfig × Object dbl)) (ds : DataSet dbl)
      → All IsReady cs
      → count ≡ v + i
      → 0 < i
      → i + length cs ≡ t
      → IsMatrix v ds.test
      → IsMatrix t ds.training
      → Succeeds (Filled v t) (fill_rows dbl polly (layout polly ks) v cs count i true ds)
  unfolding fill_rows Filled
  fill_training v t count i [] ds h e pos l mv mt = (mv, mt, omega arith)
  fill_training v t count i ((kc, fb) ∷ cs) ds (h, hs) e pos l mv mt =
      let past : (count == v) ≡ false = ground arith in
      rw past (
        >>=-Succeeds (Filled v t) (write_row dbl polly (layout polly ks) kc fb i ds.training) _
          (write_row-IsMatrix kc fb i t ds.training h (omega arith) mt)
          λ (fb', m) ok.
            >>=-Succeeds (Filled v t)
              (fill_rows dbl polly (layout polly ks) v cs (suc count) (suc i) true
                (record ds { training = m }))
              _
              (fill_training v t (suc count) (suc i) cs (record ds { training = m }) hs
                (omega arith) (omega arith) (omega arith) mv ok)
              λ (cs', last, ds') r. r)

  fill_test :
      (v t count : ℕ) (cs : List (KnobConfig × Object dbl)) (ds : DataSet dbl)
      → All IsReady cs
      → count ≤ v
      → count + length cs ≡ v + t
      → 0 < t
      → IsMatrix v ds.test
      → IsMatrix t ds.training
      → Succeeds (Filled v t) (fill_rows dbl polly (layout polly ks) v cs count count false ds)
  unfolding fill_rows Filled
  fill_test v t count [] ds h below l pos mv mt = absurd (omega arith)
  fill_test v t count ((kc, fb) ∷ cs) ds (h, hs) below l pos mv mt =
      elim (Bool-cases (count == v)) [
        | inl e ↦
            let same : count ≡ v = (==_iff count v).0 e in
            rw e (
              >>=-Succeeds (Filled v t) (write_row dbl polly (layout polly ks) kc fb 0 ds.training)
                _ (write_row-IsMatrix kc fb 0 t ds.training h pos mt)
                λ (fb', m) ok.
                  >>=-Succeeds (Filled v t)
                    (fill_rows dbl polly (layout polly ks) v cs (suc count) 1 true
                      (record ds { training = m }))
                    _
                    (fill_training v t (suc count) 1 cs (record ds { training = m }) hs
                      (omega arith) (omega arith) (omega arith) mv ok)
                    λ (cs', last, ds') r. r)
        | inr e ↦
            let less : count < v = ground arith in
            rw e (
              >>=-Succeeds (Filled v t) (write_row dbl polly (layout polly ks) kc fb count ds.test)
                _ (write_row-IsMatrix kc fb count v ds.test h less mv)
                λ (fb', m) ok.
                  >>=-Succeeds (Filled v t)
                    (fill_rows dbl polly (layout polly ks) v cs (suc count) (suc count) false
                      (record ds { test = m }))
                    _
                    (fill_test v t (suc count) cs (record ds { test = m }) hs (omega arith)
                      (omega arith) pos ok mt)
                    λ (cs', last, ds') r. r)
      ]

  -- Where every configuration has all its knobs and was measured, and fewer rows are held out than there are
  -- configurations (less than 2^64): updateDataset writes no row outside its matrices, its
  -- assertion on the last row holds, and the held-out matrix has as many rows as validateRows says, the training
  -- matrix the rest. The array of columns is the one that analyze has set up.
  pub update_dataset-Succeeds :
      (shuffle : List (KnobConfig × Object dbl) → List (KnobConfig × Object dbl)) (since : ℕ)
      (configs : List (KnobConfig × Object dbl)) (ds : DataSet dbl) (cols : List ℕ)
      → assign_to_cols polly ks ≡ some cols
      → All IsReady (shuffle configs)
      → length (shuffle configs) ≡ length configs
      → length configs < 2 ^ 64
      → validate_rows dbl (length configs) < length configs
      → Succeeds
          (λ r.
            IsMatrix (validate_rows dbl (length configs)) r.1.test
            × IsMatrix (length configs - validate_rows dbl (length configs)) r.1.training)
          (update_dataset dbl polly cols shuffle (suc since) configs ds)
  unfolding update_dataset Filled
  update_dataset-Succeeds shuffle since configs ds cols a ready same bound fewer =
      let n = length configs in
      let v = validate_rows dbl n in
      let e : (n + 2 ^ 64 - v) % 2 ^ 64 ≡ n - v = wraps n v bound fewer in
      let c : cols ≡ layout polly ks =
        some-injective (sym a ∙ (assign_to_cols-layout polly ks).0) in
      rw (c, e)
        (>>=-Succeeds _
          (fill_rows dbl polly (layout polly ks) v (shuffle configs) 0 0 false (record {
            test = new_matrix dbl v (length (layout polly ks));
            training = new_matrix dbl (n - v) (length (layout polly ks));
          }))
          _
          (fill_test v (n - v) 0 (shuffle configs) _ ready (omega arith) (omega arith) (omega arith)
            (new_matrix-IsMatrix v) (new_matrix-IsMatrix (n - v)))
          λ (cs', i, ds') (mv, mt, last). rw ((==_iff i (n - v)).1 last) (mv, mt))
