-- ===== src/Tuners/Best.antt =====
-- bestSeen gives an entry that no other is better than.
use at_jit.Prelude.{
  Bool, true, false, none, some, List, [], ◌∷◌, ◌≡◌, arith, inl, inr, All, Bool-cases,
}
use at_jit.Prelude.Partial.{Succeeds, Succeeds-mono}
use at_jit.Tuners.{best_seen}

module _ {A : Type 0} (better : A → A → Bool) (irrefl : (a : A) → better a a ≡ false)
    (trans : (a b c : A) → better a b ≡ true → better b c ≡ true → better a c ≡ true) where
  -- No entry of the list is better than this one, and neither is any that was not better than `b`.
  abbrev Best : A → List A → A → Type 0
  Best b cs r =
      All (λ c. better c r ≡ false) cs × ((a : A) → better a b ≡ false → better a r ≡ false)

  keeps : (a b c : A) → better c b ≡ true → better a b ≡ false → better a c ≡ false
  keeps a b c cb ab = elim (Bool-cases (better a c)) [
    | inl ac ↦ absurd (clash (trans a c b ac cb) ab)
    | inr fails ↦ fails
  ]
    where
      clash : {x : Bool} → x ≡ true → x ≡ false → ⊥
      clash t f = ground arith

  Best-from : (cs : List A) (b : A) → Succeeds (Best b cs) (best_seen better cs (some b))
  unfolding best_seen
  Best-from [] b = (tt, λ a h. h)
  Best-from (c ∷ cs) b = elim (Bool-cases (better c b)) [
    | inl wins ↦ rw wins (
        Succeeds-mono _ _ (best_seen better cs (some c))
          (λ r (others, kept). ((kept c (irrefl c), others), λ a h. kept a (keeps a b c wins h)))
          (Best-from cs c))
    | inr loses ↦ rw loses (
        Succeeds-mono _ _ (best_seen better cs (some b))
          (λ r (others, kept). ((kept c loses, others), kept)) (Best-from cs b))
  ]

  -- Where betterThan is irreflexive and transitive, bestSeen on a list that is not empty gives an entry that
  -- no entry of the list is better than.
  pub best_seen-lem :
      (c : A) (cs : List A)
      → Succeeds (λ r. All (λ d. better d r ≡ false) (c ∷ cs)) (best_seen better (c ∷ cs) none)
  unfolding best_seen
  best_seen-lem c cs =
      Succeeds-mono _ _ (best_seen better cs (some c))
        (λ r (others, kept). (kept c (irrefl c), others)) (Best-from cs c)
