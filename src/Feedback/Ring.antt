-- ===== src/Feedback/Ring.antt =====
-- The buffer of RecentFeedbackBuffer at the size RecentExecutionTime gives it, 32: it holds the latest
-- measurements, and its total is theirs.
use at_jit.Prelude.{
  ℕ, zero, suc, ◌-◌, ◌%◌, ◌^◌, ◌<◌, true, Option, some, List, [], ◌∷◌, get_elem?, set, length, ◌≡◌,
  refl, ap, ◌∙◌, arith, All, length-set, get_elem?-set_self, get_elem?-set_ne, some-injective,
}
use at_jit.Prelude.Partial.{◌>>=◌, Succeeds, >>=-Succeeds}
use at_jit.Feedback.{Buffer, new_buffer, end_measurement, elapsed, is_positive}

-- A measurement's start and end; the clock went on between them.
abbrev pub Positive : ℕ × ℕ → Type 0
Positive (s, e) = s < e

-- What the buffer is after the measurements of a list, the latest first.
unfoldable pub record_all : List (ℕ × ℕ) → Option Buffer
record_all [] = some (new_buffer 32)
record_all ((s, e) ∷ older) = record_all older >>= end_measurement s e

-- The latest measurement but k stands at the place of its number in the whole sequence.
pub record IsRing (hs : List (ℕ × ℕ)) (b : Buffer) : Type 0 where
  pub starts_len : length b.start_buf ≡ 32
  pub ends_len : length b.end_buf ≡ 32
  pub size : b.buf_sz ≡ 32
  pub next : b.cur ≡ length hs % 32
  pub count : b.observations ≡ length hs % 2 ^ 64
  pub latest :
      (k s e : ℕ)
      → get_elem? hs k ≡ some (s, e)
      → k < 32
      → (get_elem? b.start_buf ((length hs - 1 - k) % 32) ≡ some s)
        × (get_elem? b.end_buf ((length hs - 1 - k) % 32) ≡ some e)

get_elem?-bound {ℓ} :
    {A : Type ℓ} (xs : List A) (k : ℕ) (x : A) → get_elem? xs k ≡ some x → k < length xs
get_elem?-bound [] k x h = ground arith
get_elem?-bound (y ∷ ys) zero x h = omega arith
get_elem?-bound (y ∷ ys) (suc k) x h = omega (arith, get_elem?-bound ys k x h)

pub new_buffer-IsRing : IsRing [] (new_buffer 32)
unfolding new_buffer
new_buffer-IsRing = record {
  starts_len = refl;
  ends_len = refl;
  size = refl;
  next = refl;
  count = refl;
  latest = λ k s e h lt. absurd (ground arith);
}

-- The place that a measurement goes to, seen from the longer history: the new entry is the latest, and
-- the others move one back.
placed_new :
    (l : ℕ) (xs : List ℕ) (cur v : ℕ)
    → length xs ≡ 32
    → cur ≡ l % 32
    → get_elem? (set xs cur v) ((suc l - 1 - 0) % 32) ≡ some v
placed_new l xs cur v len at =
    let place : (suc l - 1 - 0) % 32 ≡ cur = omega (arith, at) in
    rw place (get_elem?-set_self xs cur v (omega (arith, len, at)))

placed_old :
    (l k : ℕ) (xs : List ℕ) (cur v : ℕ)
    → suc k < 32
    → k < l
    → cur ≡ l % 32
    → get_elem? (set xs cur v) ((suc l - 1 - suc k) % 32) ≡ get_elem? xs ((l - 1 - k) % 32)
placed_old l k xs cur v lt in_ at =
    let place : (suc l - 1 - suc k) % 32 ≡ (l - 1 - k) % 32 = omega arith in
    rw place (get_elem?-set_ne xs cur ((l - 1 - k) % 32) v (omega (arith, at)))

end_measurement-latest :
    (hs : List (ℕ × ℕ)) (b : Buffer) (s e : ℕ)
    → IsRing hs b
    → (k s' e' : ℕ) → get_elem? ((s, e) ∷ hs) k ≡ some (s', e')
    → k < 32
    → (get_elem? (set b.start_buf b.cur s) ((suc (length hs) - 1 - k) % 32) ≡ some s')
      × (get_elem? (set b.end_buf b.cur e) ((suc (length hs) - 1 - k) % 32) ≡ some e')
end_measurement-latest hs b s e r zero s' e' h lt =
    let same = some-injective h in
    (
      placed_new (length hs) b.start_buf b.cur s r.starts_len r.next ∙ ap (λ p. some p.0) same,
      placed_new (length hs) b.end_buf b.cur e r.ends_len r.next ∙ ap (λ p. some p.1) same,
    )
end_measurement-latest hs b s e r (suc k) s' e' h lt =
    let old = r.latest k s' e' h (omega arith) in
    let bound = get_elem?-bound hs k (s', e') h in
    (
      placed_old (length hs) k b.start_buf b.cur s lt bound r.next ∙ old.0,
      placed_old (length hs) k b.end_buf b.cur e lt bound r.next ∙ old.1,
    )

-- A measurement goes where the oldest of 32 stood.
pub end_measurement-IsRing :
    (hs : List (ℕ × ℕ)) (b : Buffer) (s e : ℕ)
    → s < e
    → IsRing hs b
    → Succeeds (IsRing ((s, e) ∷ hs)) (end_measurement s e b)
unfolding end_measurement
end_measurement-IsRing hs b s e lt r =
    let positive : is_positive (elapsed s e) ≡ true = ground arith in
    let below : b.cur < 32 = omega (arith, r.next) in
    rw positive (record {
      starts_len = length-set b.start_buf b.cur s ∙ r.starts_len;
      ends_len = length-set b.end_buf b.cur e ∙ r.ends_len;
      size = r.size;
      next = rw r.size (omega (arith, r.next));
      count = omega (arith, r.count);
      latest = end_measurement-latest hs b s e r;
    })

-- After any sequence of measurements, each of which took time, the buffer holds the latest 32 in their
-- places, and counts them all.
pub record_all-IsRing : (hs : List (ℕ × ℕ)) → All Positive hs → Succeeds (IsRing hs) (record_all hs)
unfolding record_all
record_all-IsRing [] p = new_buffer-IsRing
record_all-IsRing ((s, e) ∷ hs) (lt, p) =
    >>=-Succeeds _ (record_all hs) _ (record_all-IsRing hs p)
      λ b r. end_measurement-IsRing hs b s e lt r
