-- ===== src/Loops/Setting.antt =====
-- addToLoopMD: the options of a loop are those of its setting.
use at_jit.Prelude.{
  none-some, ℕ, ◌≡◌, refl, sym, ap, ◌∙◌, Bool, true, false, Option, none, some, List, [], ◌∷◌,
  Bool-cases, Option-cases, some-injective, subst, inl, inr,
}
use mathlib.Core.Bool.{false≢true}
use at_jit.Prelude.Partial.{Succeeds, Succeeds-mono}
use at_jit.LoopSetting.{LoopSetting}
use at_jit.Loops.{
  MdStrings, MdName, tag, unroll_disable, unroll_count, unroll_full, vectorize_width,
  licm_ver_disable, interleave_count, distribute, section, Operand, str, node, set_presence_option,
  set_int_option, of_bool, add_to_loop_md, get_loop_name, loop_number, two_strings,
  matches_loop_option,
}
use at_jit.Loops.Set.{find, Apart}
use at_jit.Loops.Options.{
  option_of, presence, count, is_written, Foreign, Acts, at_key, code, Sets-Acts, then_Acts,
  set_presence_option-Sets, set_int_option-Sets,
}

module _ (strs : MdStrings) where
  open strs use {Str, eq_str, eq_str_iff, name, name-injective, as_integer}

  -- The option that a loop with this setting has, from the one it had.
  pub wanted : LoopSetting → MdName → Option (Operand strs) → Option (Operand strs)
  wanted ls unroll_disable old = presence strs unroll_disable ls.unroll_disable old
  wanted ls unroll_full old = presence strs unroll_full ls.unroll_full old
  wanted ls licm_ver_disable old = presence strs licm_ver_disable ls.licm_ver_disable old
  wanted ls unroll_count old = count strs unroll_count ls.unroll_count old
  wanted ls vectorize_width old = count strs vectorize_width ls.vectorize_width old
  wanted ls interleave_count old = count strs interleave_count ls.interleave_count old
  wanted ls distribute old = count strs distribute (of_bool strs ls.distribute) old
  wanted ls tag old = old
  wanted ls section old = old

  by_presence :
      (ops : List (Operand strs)) (opt : Option Bool) (key : MdName)
      → is_written strs key ≡ true
      → Succeeds
          (Acts strs (at_key strs key (presence strs key opt)) ops)
          (set_presence_option strs ops opt key)
  by_presence ops opt key w =
      Succeeds-mono _ (Acts strs (at_key strs key (presence strs key opt)) ops)
        (set_presence_option strs ops opt key)
        (λ ops' s. Sets-Acts strs key (presence strs key opt) ops ops' w s)
        (set_presence_option-Sets strs ops opt key)

  by_count :
      (ops : List (Operand strs)) (opt : Option ℕ) (key : MdName)
      → is_written strs key ≡ true
      → Succeeds
          (Acts strs (at_key strs key (count strs key opt)) ops)
          (set_int_option strs ops opt key)
  by_count ops opt key w =
      Succeeds-mono _ (Acts strs (at_key strs key (count strs key opt)) ops)
        (set_int_option strs ops opt key)
        (λ ops' s. Sets-Acts strs key (count strs key opt) ops ops' w s)
        (set_int_option-Sets strs ops opt key)

  -- The seven steps, one after the other
  combined : LoopSetting → MdName → Option (Operand strs) → Option (Operand strs)
  combined ls key old =
      at_key strs distribute (count strs distribute (of_bool strs ls.distribute)) key (
        at_key strs interleave_count (count strs interleave_count ls.interleave_count) key (
          at_key strs vectorize_width (count strs vectorize_width ls.vectorize_width) key (
            at_key strs unroll_count (count strs unroll_count ls.unroll_count) key (
              at_key strs licm_ver_disable (presence strs licm_ver_disable ls.licm_ver_disable) key
                (at_key strs unroll_full (presence strs unroll_full ls.unroll_full) key (
                  at_key strs unroll_disable (presence strs unroll_disable ls.unroll_disable) key
                    old))))))

  combined-wanted :
      (ls : LoopSetting) (key : MdName) (old : Option (Operand strs))
      → combined ls key old ≡ wanted ls key old
  unfolding combined wanted at_key code
  combined-wanted ls tag old = refl
  combined-wanted ls unroll_disable old = refl
  combined-wanted ls unroll_count old = refl
  combined-wanted ls unroll_full old = refl
  combined-wanted ls vectorize_width old = refl
  combined-wanted ls licm_ver_disable old = refl
  combined-wanted ls interleave_count old = refl
  combined-wanted ls distribute old = refl
  combined-wanted ls section old = refl

  add_to_loop_md-Acts :
      (ops : List (Operand strs)) (ls : LoopSetting)
      → Succeeds (Acts strs (combined ls) ops) (add_to_loop_md strs ops ls)
  unfolding add_to_loop_md combined is_written
  add_to_loop_md-Acts ops ls =
      then_Acts strs _ _ ops (set_presence_option strs ops ls.unroll_disable unroll_disable) _
        (by_presence ops ls.unroll_disable unroll_disable refl)
        λ a.
          then_Acts strs _ _ a (set_presence_option strs a ls.unroll_full unroll_full) _
            (by_presence a ls.unroll_full unroll_full refl)
            λ b.
              then_Acts strs _ _ b (set_presence_option strs b ls.licm_ver_disable licm_ver_disable)
                _ (by_presence b ls.licm_ver_disable licm_ver_disable refl)
                λ c.
                  then_Acts strs _ _ c (set_int_option strs c ls.unroll_count unroll_count) _
                    (by_count c ls.unroll_count unroll_count refl)
                    λ d.
                      then_Acts strs _ _ d
                        (set_int_option strs d ls.vectorize_width vectorize_width) _
                        (by_count d ls.vectorize_width vectorize_width refl)
                        λ e.
                          then_Acts strs _ _ e
                            (set_int_option strs e ls.interleave_count interleave_count) _
                            (by_count e ls.interleave_count interleave_count refl)
                            λ f. by_count f (of_bool strs ls.distribute) distribute refl

  -- The operand that names a loop, as getLoopName recognises it
  unfoldable pub is_name : Operand strs → Bool
  is_name x = elim (two_strings strs x) [ none ↦ false | some p ↦ eq_str p.0 (name tag) ]

  unfoldable pub number_of : Option (Operand strs) → Option ℕ
  number_of none = none
  number_of (some x) = elim (two_strings strs x) [
    | none ↦ none
    | some p ↦ loop_number strs (as_integer p.1)
  ]

  pub get_loop_name-find :
      (ops : List (Operand strs)) → get_loop_name strs ops ≡ number_of (find is_name ops)
  unfolding get_loop_name find is_name number_of
  get_loop_name-find [] = refl
  get_loop_name-find (x ∷ ops) = elim (Option-cases (two_strings strs x)) [
    | inl e ↦ rw (get_loop_name, is_name, e) (get_loop_name-find ops)
    | inr (p, e) ↦ elim (Bool-cases (eq_str p.0 (name tag))) [
      | inl q ↦ rw (get_loop_name, is_name, e, q, number_of, e) refl
      | inr q ↦ rw (get_loop_name, is_name, e, q) (get_loop_name-find ops)
    ]
  ]

  -- An entry of two strings matches the options of its first string.
  two_strings-matches :
      (key : Str) (x : Operand strs) (p : Str × Str)
      → two_strings strs x ≡ some p
      → matches_loop_option strs key x ≡ true
      → p.0 ≡ key
  unfolding two_strings matches_loop_option
  two_strings-matches key (node (str t ∷ str v ∷ [])) p e h =
      sym (ap (λ (p : Str × Str). p.0) (some-injective e)) ∙ (eq_str_iff t key).0 h
  two_strings-matches key x p e h = absurd (none-some e)

  is_name-Foreign : Foreign strs is_name
  unfolding Foreign Apart is_name is_written
  is_name-Foreign key w x h = elim (Option-cases (two_strings strs x)) [
    | inl e ↦ rw (is_name, e) refl
    | inr (p, e) ↦ elim (Bool-cases (eq_str p.0 (name tag))) [
      | inl q ↦
          let same : tag ≡ key =
            name-injective tag key
              (sym ((eq_str_iff p.0 (name tag)).0 q) ∙ two_strings-matches (name key) x p e h) in
          absurd (false≢true (subst (λ k. is_written strs k ≡ true) (sym same) w))
      | inr q ↦ rw (is_name, e, q) refl
    ]
  ]

  -- addToLoopMD never stops. It gives a loop exactly the options that are set in its setting, with their values
  -- as 32-bit constants, and deletes the presence options that are set to false. It keeps the answer to every
  -- question about the operands that none of these options answers, and the name of the loop.
  pub add_to_loop_md-wanted :
      (ops : List (Operand strs)) (ls : LoopSetting) (p : Operand strs → Bool)
      → Foreign strs p
      → Succeeds
          (λ ops'.
            ((key : MdName) → option_of strs key ops' ≡ wanted ls key (option_of strs key ops))
            × (find p ops' ≡ find p ops)
            × (get_loop_name strs ops' ≡ get_loop_name strs ops))
          (add_to_loop_md strs ops ls)
  unfolding Acts
  add_to_loop_md-wanted ops ls p foreign =
      Succeeds-mono (Acts strs (combined ls) ops) _ (add_to_loop_md strs ops ls)
        (λ ops' (a, b). (
          (λ key. a key ∙ combined-wanted ls key (option_of strs key ops)),
          b p foreign,
          get_loop_name-find ops'
              ∙ ap number_of (b is_name is_name-Foreign)
              ∙ sym (get_loop_name-find ops),
        ))
        (add_to_loop_md-Acts ops ls)

  -- The name of the loop stays.
  pub get_loop_name-kept :
      (ops : List (Operand strs)) (ls : LoopSetting)
      → Succeeds
          (λ ops'. get_loop_name strs ops' ≡ get_loop_name strs ops)
          (add_to_loop_md strs ops ls)
  get_loop_name-kept ops ls =
      Succeeds-mono _ (λ ops'. get_loop_name strs ops' ≡ get_loop_name strs ops)
        (add_to_loop_md strs ops ls) (λ ops' h. h.2)
        (add_to_loop_md-wanted ops ls is_name is_name-Foreign)
