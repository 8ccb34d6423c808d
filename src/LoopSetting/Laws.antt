-- ===== src/LoopSetting/Laws.antt =====
-- The flat form of a loop's setting, and the equality of settings.
use at_jit.Prelude.{
  ℕ, Bool, true, false, ◌&&◌, Option, some, length, ◌≡◌, ◌↔◌, refl, arith, subst, ==_iff,
}
use at_jit.LoopSetting.{
  LoopSetting, flatten_bool, flatten_u16, size, cells, flatten, eq_opt_bool, eq_opt_u16,
  same_setting,
}

length-cells : (polly : Bool) (ls : LoopSetting) → length (cells polly ls) ≡ size polly
unfolding cells size
length-cells true ls = refl
length-cells false ls = refl

-- LoopSetting::flatten never throws, with Polly or without: it writes as many values as size() says,
-- one for each option in order.
pub flatten_total :
    (polly : Bool) (ls : LoopSetting)
    → (flatten polly ls ≡ some (cells polly ls)) × (length (cells polly ls) ≡ size polly)
unfolding flatten
flatten_total polly ls =
    (rw (length-cells polly ls, (==_iff (size polly) (size polly)).1 refl), length-cells polly ls)

flatten_bool-injective : (a b : Option Bool) → flatten_bool a ≡ flatten_bool b → a ≡ b
flatten_bool-injective a b h = ground arith

flatten_u16-injective : (a b : Option ℕ) → flatten_u16 a ≡ flatten_u16 b → a ≡ b
flatten_u16-injective a b h = ground arith

LoopSetting-eq :
    (a b : LoopSetting)
    → a.vectorize_width ≡ b.vectorize_width
    → a.interleave_count ≡ b.interleave_count
    → a.unroll_disable ≡ b.unroll_disable
    → a.unroll_full ≡ b.unroll_full
    → a.unroll_count ≡ b.unroll_count
    → a.licm_ver_disable ≡ b.licm_ver_disable
    → a.distribute ≡ b.distribute
    → a.section ≡ b.section
    → a ≡ b
LoopSetting-eq a b p q r s t u v w = cc

-- With Polly, two settings that flatten to the same values are equal: the flat form loses nothing.
pub flatten-injective : (a b : LoopSetting) → flatten true a ≡ flatten true b → a ≡ b
unfolding cells
flatten-injective a b h =
    let e : cells true a ≡ cells true b = cc ((flatten_total true a).0, (flatten_total true b).0) in
    LoopSetting-eq a b (flatten_u16-injective _ _ (cc)) (flatten_u16-injective _ _ (cc))
      (flatten_bool-injective _ _ (cc)) (flatten_bool-injective _ _ (cc))
      (flatten_u16-injective _ _ (cc)) (flatten_bool-injective _ _ (cc))
      (flatten_bool-injective _ _ (cc)) (flatten_u16-injective _ _ (cc))

eq_opt_bool_iff : (a b : Option Bool) → (eq_opt_bool a b ≡ true) ↔ (a ≡ b)
unfolding eq_opt_bool
eq_opt_bool_iff a b = ground arith

eq_opt_u16_iff : (a b : Option ℕ) → (eq_opt_u16 a b ≡ true) ↔ (a ≡ b)
unfolding eq_opt_u16
eq_opt_u16_iff a b = ground arith

eq_opt_bool_refl : (a : Option Bool) → eq_opt_bool a a ≡ true
eq_opt_bool_refl a = (eq_opt_bool_iff a a).1 refl

eq_opt_u16_refl : (a : Option ℕ) → eq_opt_u16 a a ≡ true
eq_opt_u16_refl a = (eq_opt_u16_iff a a).1 refl

same_setting_refl : (a : LoopSetting) → same_setting a a ≡ true
unfolding same_setting
same_setting_refl a = simp (eq_opt_bool_refl, eq_opt_u16_refl)

and_parts : (a b : Bool) → (a && b) ≡ true → (a ≡ true) × (b ≡ true)
and_parts a b h = ground arith

same_setting-eq : (a b : LoopSetting) → same_setting a b ≡ true → a ≡ b
unfolding same_setting
same_setting-eq a b h =
    let (disable, r1) = and_parts _ _ h in
    let (full, r2) = and_parts _ _ r1 in
    let (count, r3) = and_parts _ _ r2 in
    let (width, r4) = and_parts _ _ r3 in
    let (licm, r5) = and_parts _ _ r4 in
    let (interleave, r6) = and_parts _ _ r5 in
    let (dist, sect) = and_parts _ _ r6 in
    LoopSetting-eq a b ((eq_opt_u16_iff _ _).0 width) ((eq_opt_u16_iff _ _).0 interleave)
      ((eq_opt_bool_iff _ _).0 disable) ((eq_opt_bool_iff _ _).0 full)
      ((eq_opt_u16_iff _ _).0 count) ((eq_opt_bool_iff _ _).0 licm) ((eq_opt_bool_iff _ _).0 dist)
      ((eq_opt_u16_iff _ _).0 sect)

-- operator== on settings holds exactly of equal settings: it compares every option.
pub same_setting_iff : (a b : LoopSetting) → (same_setting a b ≡ true) ↔ (a ≡ b)
same_setting_iff a b =
    (same_setting-eq a b, λ e. subst (λ c. same_setting a c ≡ true) e (same_setting_refl a))
