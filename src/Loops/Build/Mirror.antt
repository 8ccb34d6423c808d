-- ===== src/Loops/Build/Mirror.antt =====
-- The tree of knobs has the shape of the loop nest.
use at_jit.Prelude.{
  none-some, ℕ, suc, ◌+◌, ◌<◌, ◌%◌, ◌^◌, ◌≡◌, refl, sym, ap, subst, false, Option, none, some, List,
  [], ◌∷◌, length, ◌==◌, All, arith,
}
use at_jit.Prelude.Partial.{◌>>=◌, Succeeds, >>=-Succeeds, Succeeds-mono}
use at_jit.LoopSetting.{empty_setting}
use at_jit.Knobs.{Map, insert}
use at_jit.Loops.{MdStrings, Operand, get_loop_name}
use at_jit.Loops.Sections.{LoopKnob, Kids, knob, no_kids, kid}
use at_jit.Loops.Build.{
  Loop, SubLoops, loop, no_loops, sub_loop, Created, new_id, build_self, build_tree, build_kids,
}

-- All ids that are in the map were given out.
unfoldable pub Given : Created → Type 0
Given s = All (λ p. p.0 < s.ticker) s.loop_knobs

-- A knob with a new id is one entry more.
length-insert_new :
    (m : Map LoopKnob) (id : ℕ) (k : LoopKnob)
    → All (λ p. p.0 < id) m
    → (length (insert m id k) ≡ suc (length m)) × All (λ p. p.0 < suc id) (insert m id k)
unfolding insert
length-insert_new [] id k h = (refl, (omega arith, tt))
length-insert_new ((j, w) ∷ m) id k (h, hs) =
    let differs : (j == id) ≡ false = ground arith in
    let (l, g) = length-insert_new m id k hs in rw differs (ap suc l, (omega arith, g))

module _ (strs : MdStrings) where
  -- The knob stands for the loop: it has its name and its depth, and the kids stand for the sub-loops, in order.
  unfoldable mutual
    pub Mirrors : ℕ → Loop strs → LoopKnob → Type 0
    Mirrors depth (loop md subs) (knob name d ls kids) =
        ((md >>= get_loop_name strs) ≡ some name)
        × (d ≡ depth)
        × (ls ≡ empty_setting)
        × MirrorsAll (suc depth) subs kids

    MirrorsAll : ℕ → SubLoops strs → Kids → Type 0
    MirrorsAll depth no_loops no_kids = Unit
    MirrorsAll depth no_loops (kid k ks) = ⊥
    MirrorsAll depth (sub_loop l ls) no_kids = ⊥
    MirrorsAll depth (sub_loop l ls) (kid k ks) = Mirrors depth l k × MirrorsAll depth ls ks

  -- Every loop of the nest has a name.
  unfoldable mutual
    pub IsNamed : Loop strs → Type 0
    IsNamed (loop md subs) = (n : ℕ) × ((md >>= get_loop_name strs) ≡ some n) × AreNamed subs

    AreNamed : SubLoops strs → Type 0
    AreNamed no_loops = Unit
    AreNamed (sub_loop l ls) = IsNamed l × AreNamed ls

  unfoldable mutual
    pub loops_in : Loop strs → ℕ
    loops_in (loop md subs) = suc (loops_in_all subs)

    loops_in_all : SubLoops strs → ℕ
    loops_in_all no_loops = 0
    loops_in_all (sub_loop l ls) = loops_in l + loops_in_all ls

  -- n knobs more, with the next n ids
  unfoldable pub Grown : ℕ → Created → Created → Type 0
  Grown n s s' =
      (s'.ticker ≡ s.ticker + n) × (length s'.loop_knobs ≡ length s.loop_knobs + n) × Given s'

  build_self-Grown :
      (md : Option (List (Operand strs))) (n depth : ℕ) (kids : Kids) (s : Created)
      → (md >>= get_loop_name strs) ≡ some n
      → Given s
      → 0 < s.ticker
      → suc s.ticker < 2 ^ 64
      → Succeeds
          (λ r. (r.0 ≡ knob n depth empty_setting kids) × Grown 1 s r.1)
          (build_self strs md depth kids s)
  unfolding build_self new_id Given Grown
  build_self-Grown none n depth kids s named given positive bound = absurd (none-some named)
  build_self-Grown (some md) n depth kids s named given positive bound =
      let nonzero : (s.ticker == 0) ≡ false = ground arith in
      let (l, g) =
        length-insert_new s.loop_knobs s.ticker (knob n depth empty_setting kids) given in
      let next : (s.ticker + 1) % 2 ^ 64 ≡ suc s.ticker = omega arith in
      rw (named, nonzero, next) (refl, (omega arith, omega (arith, l), g))

  Grown-trans : (m n : ℕ) (a b c : Created) → Grown m a b → Grown n b c → Grown (m + n) a c
  unfolding Grown
  Grown-trans m n a b c (t, l, g) (t', l', g') = (omega arith, omega arith, g')

  mutual
    unfolding build_tree build_kids Mirrors MirrorsAll IsNamed AreNamed loops_in loops_in_all Grown

    tree-Mirrors :
        (depth : ℕ) (l : Loop strs) (s : Created)
        → IsNamed l
        → Given s
        → 0 < s.ticker
        → s.ticker + loops_in l < 2 ^ 64
        → Succeeds (λ r. Mirrors depth l r.0 × Grown (loops_in l) s r.1) (build_tree strs depth l s)
    tree-Mirrors depth (loop md subs) s (n, named, below) given positive bound =
        >>=-Succeeds (λ r. Mirrors depth (loop md subs) r.0 × Grown (loops_in (loop md subs)) s r.1)
          (build_kids strs (suc depth) subs s) _
          (kids-Mirrors (suc depth) subs s below given positive (omega arith))
          λ (kids, s') (mirrors, (t, l, g)).
            Succeeds-mono (λ r. (r.0 ≡ knob n depth empty_setting kids) × Grown 1 s' r.1)
              (λ r. Mirrors depth (loop md subs) r.0 × Grown (loops_in (loop md subs)) s r.1)
              (build_self strs md depth kids s')
              (λ (k, s'') (e, (t', l', g')). (
                subst (Mirrors depth (loop md subs)) (sym e) (named, refl, refl, mirrors),
                (omega arith, omega arith, g'),
              ))
              (build_self-Grown md n depth kids s' named g (omega arith) (omega arith))

    kids-Mirrors :
        (depth : ℕ) (ls : SubLoops strs) (s : Created)
        → AreNamed ls
        → Given s
        → 0 < s.ticker
        → s.ticker + loops_in_all ls < 2 ^ 64
        → Succeeds
            (λ r. MirrorsAll depth ls r.0 × Grown (loops_in_all ls) s r.1)
            (build_kids strs depth ls s)
    kids-Mirrors depth no_loops s h given positive bound = (tt, (omega arith, omega arith, given))
    kids-Mirrors depth (sub_loop l ls) s (h, hs) given positive bound =
        >>=-Succeeds
          (λ r. MirrorsAll depth (sub_loop l ls) r.0 × Grown (loops_in l + loops_in_all ls) s r.1)
          (build_tree strs depth l s) _ (tree-Mirrors depth l s h given positive (omega arith))
          λ (k, s') (m, (t, c, g)).
            >>=-Succeeds
              (λ r.
                MirrorsAll depth (sub_loop l ls) r.0 × Grown (loops_in l + loops_in_all ls) s r.1)
              (build_kids strs depth ls s') _
              (kids-Mirrors depth ls s' hs g (omega arith) (omega arith))
              λ (ks, s'') (ms, (t', c', g')). ((m, ms), (omega arith, omega arith, g'))

  -- For a nest whose loops all have names, and with the ticker of the ids neither at 0 nor about to wrap:
  -- buildTree makes a tree of knobs of the same shape, each knob with its loop's name and depth and the empty
  -- setting; the ticker grows by the number of loops, and the set of loop knobs by as many entries.
  pub build_tree-Mirrors :
      (depth : ℕ) (l : Loop strs) (s : Created)
      → IsNamed l
      → Given s
      → 0 < s.ticker
      → s.ticker + loops_in l < 2 ^ 64
      → Succeeds (λ r. Mirrors depth l r.0 × Grown (loops_in l) s r.1) (build_tree strs depth l s)
  build_tree-Mirrors depth l s h given positive bound =
      tree-Mirrors depth l s h given positive bound
