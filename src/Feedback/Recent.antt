-- ===== src/Feedback/Recent.antt =====
-- The statistics of RecentExecutionTime: what updateStats computes from the buffer.
use at_jit.Prelude.{
  ℕ, zero, suc, ◌+◌, ◌-◌, ◌%◌, ◌^◌, ◌<◌, ◌≤◌, true, Option, some, List, [], ◌∷◌, get_elem?, set,
  length, if◌then◌else◌, leb, ltb, ◌==◌, ◌≡◌, ◌≢◌, refl, ap, sym, subst, ◌∙◌, arith, All, ==_iff,
  ◌⊎◌, Bool-cases, inl, inr,
}
use at_jit.Prelude.Int.{pos_part}
use at_jit.Prelude.Double.{Double}
use at_jit.Prelude.Partial.{
  Succeeds, >>=-Succeeds, Succeeds-both, Succeeds-if, IfSome, IfSome-if, IfSome-map,
}
use at_jit.Feedback.Ring.{Positive, record_all, IsRing, new_buffer-IsRing, end_measurement-IsRing}
use at_jit.Feedback.{
  Buffer, end_measurement, elapsed, is_positive, total_time, RecentExecutionTime, of_nat,
  calculate_basic_statistics, update_recent,
}

-- The first n times of the buffers are positive; their sum.
abbrev pub Filled : ℕ → List ℕ → List ℕ → Type 0
Filled zero ss es = Unit
Filled (suc n) (s ∷ ss) (e ∷ es) = (s < e) × Filled n ss es
Filled (suc n) _ _ = ⊥

abbrev pub sum_first : ℕ → List ℕ → List ℕ → ℕ
sum_first zero ss es = 0
sum_first (suc n) (s ∷ ss) (e ∷ es) = (e - s) + sum_first n ss es
sum_first (suc n) _ _ = 0

-- The sum of the latest n times of a history.
abbrev pub sum_latest : ℕ → List (ℕ × ℕ) → ℕ
sum_latest zero hs = 0
sum_latest (suc n) [] = 0
sum_latest (suc n) ((s, e) ∷ hs) = (e - s) + sum_latest n hs

abbrev pub up_to_32 : ℕ → ℕ
up_to_32 n = if leb 32 n then 32 else n

total_time_lem :
    (n : ℕ) (ss es : List ℕ) (total : ℕ)
    → Filled n ss es
    → total + sum_first n ss es < 2 ^ 63 - 1
    → total_time n ss es total ≡ some (total + sum_first n ss es)
unfolding total_time
total_time_lem zero ss es total f h = ap some (omega arith)
total_time_lem (suc n) (s ∷ ss) (e ∷ es) total (lt, f) h =
    let positive : is_positive (elapsed s e) ≡ true = ground arith in
    let time : pos_part (elapsed s e) ≡ e - s = ground arith in
    let room : ltb (e - s) (2 ^ 63 - 1 - total) ≡ true = ground arith in
    rw (positive, time, room)
      (total_time_lem n ss es (total + (e - s)) f (omega (arith, h)) ∙ ap some (omega arith))
total_time_lem (suc n) [] es total f h = absurd f
total_time_lem (suc n) (s ∷ ss) [] total f h = absurd f

-- A measurement at the end of the filled part.
Filled-grow :
    (n : ℕ) (ss es : List ℕ) (s e : ℕ)
    → Filled n ss es
    → n < length ss
    → n < length es
    → s < e
    → Filled (suc n) (set ss n s) (set es n e)
      × (sum_first (suc n) (set ss n s) (set es n e) ≡ sum_first n ss es + (e - s))
Filled-grow zero (a ∷ ss) (b ∷ es) s e f hs he lt = ((lt, tt), omega arith)
Filled-grow (suc n) (a ∷ ss) (b ∷ es) s e (ab, f) hs he lt =
    let (g, sum) = Filled-grow n ss es s e f (omega arith) (omega arith) lt in
    ((ab, g), omega (arith, sum))
Filled-grow n [] es s e f hs he lt = absurd (omega arith)
Filled-grow n (a ∷ ss) [] s e f hs he lt = absurd (omega arith)

-- A measurement in the place of another.
Filled-replace :
    (n i : ℕ) (ss es : List ℕ) (s e old_s old_e : ℕ)
    → Filled n ss es
    → i < n
    → get_elem? ss i ≡ some old_s
    → get_elem? es i ≡ some old_e
    → s < e
    → Filled n (set ss i s) (set es i e)
      × (sum_first n (set ss i s) (set es i e) + (old_e - old_s) ≡ sum_first n ss es + (e - s))
Filled-replace (suc n) zero (a ∷ ss) (b ∷ es) s e old_s old_e (ab, f) lt hs he se =
    ((se, f), ground arith)
Filled-replace (suc n) (suc i) (a ∷ ss) (b ∷ es) s e old_s old_e (ab, f) lt hs he se =
    let (g, sum) = Filled-replace n i ss es s e old_s old_e f (omega arith) hs he se in
    ((ab, g), omega (arith, sum))
Filled-replace zero i ss es s e old_s old_e f lt hs he se = absurd (omega arith)
Filled-replace (suc n) i [] es s e old_s old_e f lt hs he se = absurd f
Filled-replace (suc n) i (a ∷ ss) [] s e old_s old_e f lt hs he se = absurd f

sum_latest-last :
    (k : ℕ) (hs : List (ℕ × ℕ)) (s e : ℕ)
    → get_elem? hs k ≡ some (s, e)
    → sum_latest (suc k) hs ≡ sum_latest k hs + (e - s)
sum_latest-last zero ((a, b) ∷ hs) s e h = ground arith
sum_latest-last (suc k) ((a, b) ∷ hs) s e h = omega (arith, sum_latest-last k hs s e h)
sum_latest-last k [] s e h = ground arith

sum_latest-short :
    (n : ℕ) (hs : List (ℕ × ℕ)) → length hs ≤ n → sum_latest (suc n) hs ≡ sum_latest n hs
sum_latest-short zero [] h = refl
sum_latest-short (suc n) [] h = refl
sum_latest-short zero (p ∷ hs) h = absurd (omega arith)
sum_latest-short (suc n) ((a, b) ∷ hs) h = omega (arith, sum_latest-short n hs (omega arith))

get_elem?-exists {ℓ} :
    {A : Type ℓ} (xs : List A) (k : ℕ) → k < length xs → (x : A) × (get_elem? xs k ≡ some x)
get_elem?-exists [] k h = absurd (omega arith)
get_elem?-exists (x ∷ xs) zero h = (x, refl)
get_elem?-exists (x ∷ xs) (suc k) h = get_elem?-exists xs k (omega arith)

-- The part of the buffer that is read holds the latest times, with their sum.
abbrev Summed : List (ℕ × ℕ) → ℕ → List ℕ → List ℕ → Type 0
Summed hs n ss es = Filled n ss es × (sum_first n ss es ≡ sum_latest 32 hs)

Summed-new :
    (hs : List (ℕ × ℕ)) (ss es : List ℕ) (s e : ℕ)
    → length ss ≡ 32
    → length es ≡ 32
    → s < e
    → length hs < 32
    → Summed hs (length hs) ss es
    → Summed ((s, e) ∷ hs) (suc (length hs)) (set ss (length hs) s) (set es (length hs) e)
Summed-new hs ss es s e ls le lt few (f, sum) =
    let (g, sum') = Filled-grow (length hs) ss es s e f (omega arith) (omega arith) lt in
    (g, omega (arith, sum, sum', sum_latest-short 31 hs (omega arith)))

Summed-full :
    (hs : List (ℕ × ℕ)) (ss es : List ℕ) (i s e old_s old_e : ℕ)
    → i < 32
    → s < e
    → get_elem? hs 31 ≡ some (old_s, old_e)
    → get_elem? ss i ≡ some old_s
    → get_elem? es i ≡ some old_e
    → Summed hs 32 ss es
    → Summed ((s, e) ∷ hs) 32 (set ss i s) (set es i e)
Summed-full hs ss es i s e old_s old_e below lt last hs_at es_at (f, sum) =
    let (g, sum') = Filled-replace 32 i ss es s e old_s old_e f below hs_at es_at lt in
    (g, omega (arith, sum, sum', sum_latest-last 31 hs old_s old_e last))

record IsSummed (hs : List (ℕ × ℕ)) (b : Buffer) : Type 0 where
  ring : IsRing hs b
  summed : Summed hs (up_to_32 (length hs)) b.start_buf b.end_buf

full_or_not : (n : ℕ) → (32 ≤ n) ⊎ (n < 32)
full_or_not n = omega arith

up_to_32-full : (n : ℕ) → 32 ≤ n → up_to_32 n ≡ 32
up_to_32-full n h = ground arith

up_to_32-few : (n : ℕ) → n < 32 → up_to_32 n ≡ n
up_to_32-few n h = ground arith

up_to_32-suc : (n : ℕ) → n < 32 → up_to_32 (suc n) ≡ suc n
up_to_32-suc n h = ground arith

up_to_32-positive : (n : ℕ) → 0 < n → 0 < up_to_32 n
up_to_32-positive n h = ground arith

end_measurement-Summed :
    (hs : List (ℕ × ℕ)) (b : Buffer) (s e : ℕ)
    → s < e
    → IsSummed hs b
    → Summed
        ((s, e) ∷ hs)
        (up_to_32 (suc (length hs)))
        (set b.start_buf b.cur s)
        (set b.end_buf b.cur e)
end_measurement-Summed hs b s e lt r = elim (full_or_not (length hs)) [
  | inl full ↦
      let ((old_s, old_e), last) = get_elem?-exists hs 31 (omega arith) in
      let old = r.ring.latest 31 old_s old_e last (omega arith) in
      let at : (length hs - 1 - 31) % 32 ≡ b.cur = omega (arith, r.ring.next) in
      rw (up_to_32-full (suc (length hs)) (omega arith)) (
        Summed-full hs b.start_buf b.end_buf b.cur s e old_s old_e (omega (arith, r.ring.next)) lt
          last (ap (get_elem? b.start_buf) (sym at) ∙ old.0)
          (ap (get_elem? b.end_buf) (sym at) ∙ old.1)
          (subst (λ n. Summed hs n b.start_buf b.end_buf) (up_to_32-full (length hs) full)
            r.summed))
  | inr few ↦
      let at : b.cur ≡ length hs = omega (arith, r.ring.next) in
      rw (up_to_32-suc (length hs) few, at)
        (Summed-new hs b.start_buf b.end_buf s e r.ring.starts_len r.ring.ends_len lt few
          (subst (λ n. Summed hs n b.start_buf b.end_buf) (up_to_32-few (length hs) few) r.summed))
]

end_measurement-sums :
    (hs : List (ℕ × ℕ)) (b : Buffer) (s e : ℕ)
    → s < e
    → IsSummed hs b
    → Succeeds
        (λ c. Summed ((s, e) ∷ hs) (up_to_32 (suc (length hs))) c.start_buf c.end_buf)
        (end_measurement s e b)
unfolding end_measurement
end_measurement-sums hs b s e lt r =
    let positive : is_positive (elapsed s e) ≡ true = ground arith in
    rw positive (end_measurement-Summed hs b s e lt r)

end_measurement-IsSummed :
    (hs : List (ℕ × ℕ)) (b : Buffer) (s e : ℕ)
    → s < e
    → IsSummed hs b
    → Succeeds (IsSummed ((s, e) ∷ hs)) (end_measurement s e b)
end_measurement-IsSummed hs b s e lt r =
    Succeeds-both (end_measurement s e b) (λ c ring summed. record { ring = ring; summed = summed })
      (end_measurement-IsRing hs b s e lt r.ring) (end_measurement-sums hs b s e lt r)

record_all-IsSummed : (hs : List (ℕ × ℕ)) → All Positive hs → Succeeds (IsSummed hs) (record_all hs)
unfolding record_all
record_all-IsSummed [] p = record { ring = new_buffer-IsRing; summed = (tt, refl) }
record_all-IsSummed ((s, e) ∷ hs) (lt, p) =
    >>=-Succeeds _ (record_all hs) _ (record_all-IsSummed hs p)
      λ b r. end_measurement-IsSummed hs b s e lt r

some_Succeeds {ℓ} :
    {A : Type ℓ} (P : A → Type 0) (m : Option A) (a : A) → m ≡ some a → Succeeds P m → P a
some_Succeeds P m a e h = subst (Succeeds P) e h

module _ (dbl : Double) where
  open dbl use {div}

  calculate_basic_statistics-average :
      (sz : ℕ) (ss es : List ℕ)
      → 0 < sz
      → Filled sz ss es
      → sum_first sz ss es < 2 ^ 63 - 1
      → Succeeds
          (λ st. st.average ≡ div (of_nat dbl (sum_first sz ss es)) (of_nat dbl sz))
          (calculate_basic_statistics dbl ss es sz)
  unfolding calculate_basic_statistics
  calculate_basic_statistics-average sz ss es some_sz f small =
      let positive : ltb 0 sz ≡ true = ground arith in
      let total : total_time sz ss es 0 ≡ some (sum_first sz ss es) =
        total_time_lem sz ss es 0 f (omega (arith, small)) ∙ ap some (omega arith) in
      rw (positive, total)
        (elim (Bool-cases (sz == 1)) [ inl one ↦ rw one refl | inr more ↦ rw more refl ])

  -- updateStats, after a sequence of fewer than 2^64 measurements that each took time, of which some
  -- came in since the last calculation: where the latest 32 last less than 2^63 - 1 nanoseconds in all,
  -- no check fails, and the expected value is their sum divided by their number.
  pub update_recent_lem :
      (hs : List (ℕ × ℕ)) (r : RecentExecutionTime dbl)
      → All Positive hs
      → record_all hs ≡ some r.buffer
      → 0 < length hs
      → length hs < 2 ^ 64
      → r.last_calc ≢ length hs
      → sum_latest 32 hs < 2 ^ 63 - 1
      → Succeeds
          (λ r'.
            (r'.stats.average
              ≡ div (of_nat dbl (sum_latest 32 hs)) (of_nat dbl (up_to_32 (length hs))))
            × (r'.sample_sz ≡ up_to_32 (length hs))
            × (r'.last_calc ≡ length hs))
          (update_recent dbl r)
  unfolding update_recent calculate_basic_statistics
  update_recent_lem hs r p recorded some_hs few stale small =
      let s =
        some_Succeeds (IsSummed hs) (record_all hs) r.buffer recorded (record_all-IsSummed hs p) in
      let count : r.buffer.observations ≡ length hs = omega (arith, s.ring.count) in
      let size : (if leb r.buffer.buf_sz r.buffer.observations
            then r.buffer.buf_sz
            else r.buffer.observations)
          ≡ up_to_32 (length hs) =
        rw (count, s.ring.size) refl in
      let (filled, sum) = s.summed in
      let total = subst (λ t. t < 2 ^ 63 - 1) (sym sum) small in
      let stats =
        calculate_basic_statistics-average (up_to_32 (length hs)) r.buffer.start_buf
          r.buffer.end_buf (up_to_32-positive (length hs) some_hs) filled total in
      Succeeds-if _ (r.last_calc == r.buffer.observations) _ _
        (λ same. absurd (stale ((==_iff r.last_calc r.buffer.observations).0 same ∙ count)))
        (λ _.
          >>=-Succeeds _ (calculate_basic_statistics dbl r.buffer.start_buf r.buffer.end_buf _) _
            (subst
              (λ n.
                Succeeds
                  (λ st.
                    st.average
                    ≡ div
                        (of_nat dbl
                          (sum_first (up_to_32 (length hs)) r.buffer.start_buf r.buffer.end_buf))
                        (of_nat dbl (up_to_32 (length hs))))
                  (calculate_basic_statistics dbl r.buffer.start_buf r.buffer.end_buf n))
              (sym size) stats)
            (λ st avg. (
              avg ∙ ap (λ t. div (of_nat dbl t) (of_nat dbl (up_to_32 (length hs)))) sum,
              size,
              count,
            )))

  -- After updateStats, the calculation is that of the present number of observations.
  abbrev Fresh : RecentExecutionTime dbl → Type 0
  Fresh r = (r.last_calc == r.buffer.observations) ≡ true

  update_recent-Fresh : (r : RecentExecutionTime dbl) → IfSome Fresh (update_recent dbl r)
  unfolding update_recent
  update_recent-Fresh r =
      IfSome-if Fresh (r.last_calc == r.buffer.observations) _ _ (λ same. same)
        (λ _.
          IfSome-map Fresh (calculate_basic_statistics dbl r.buffer.start_buf r.buffer.end_buf _) _
            (λ st. (==_iff r.buffer.observations r.buffer.observations).1 refl))

  Fresh-update : (r : RecentExecutionTime dbl) → Fresh r → update_recent dbl r ≡ some r
  unfolding update_recent
  Fresh-update r h = rw h refl

  pub update_recent_again :
      (r r' : RecentExecutionTime dbl)
      → update_recent dbl r ≡ some r'
      → update_recent dbl r' ≡ some r'
  update_recent_again r r' e = Fresh-update r' (subst (IfSome Fresh) e (update_recent-Fresh r))
