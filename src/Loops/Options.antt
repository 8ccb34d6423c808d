-- ===== src/Loops/Options.antt =====
-- updateLMD and addToLoopMD: which option each operation sets, and what it leaves alone.
use at_jit.Prelude.{
  ℕ, ◌≡◌, ◌≢◌, refl, sym, ap, ◌∙◌, subst, Bool, true, false, Option, none, some, List, [], ◌∷◌,
  if◌then◌else◌, ◌==◌, ==_iff, Bool-cases, inl, inr,
}
use mathlib.Core.Bool.{false≢true}
use at_jit.Prelude.Partial.{◌>>=◌, Succeeds, >>=-Succeeds, Succeeds-mono}
use at_jit.Loops.{
  MdStrings, MdName, tag, unroll_disable, unroll_count, unroll_full, vectorize_width,
  licm_ver_disable, interleave_count, distribute, section, Leaf, Operand, str, int, node, leaf,
  mk_md_int, insert_all, matches_loop_option, remove_option, option_node, update_lmd,
  set_presence_option, set_int_option,
}
use at_jit.Loops.Set.{
  find, or_else-none, Apart, find-insert_op, find-insert_all, find-remove, find-removed,
}

unfoldable pub code : MdName → ℕ
code tag = 0
code unroll_disable = 1
code unroll_count = 2
code unroll_full = 3
code vectorize_width = 4
code licm_ver_disable = 5
code interleave_count = 6
code distribute = 7
code section = 8

pub decode : ℕ → MdName
decode n =
    if n == 0
    then tag
    else if n == 1
    then unroll_disable
    else if n == 2
    then unroll_count
    else if n == 3
    then unroll_full
    else if n == 4
    then vectorize_width
    else if n == 5
    then licm_ver_disable
    else if n == 6
    then interleave_count
    else if n == 7
    then distribute
    else section

pub decode-code : (key : MdName) → decode (code key) ≡ key
unfolding decode code
decode-code tag = refl
decode-code unroll_disable = refl
decode-code unroll_count = refl
decode-code unroll_full = refl
decode-code vectorize_width = refl
decode-code licm_ver_disable = refl
decode-code interleave_count = refl
decode-code distribute = refl
decode-code section = refl

module _ (strs : MdStrings) where
  open strs use {Str, eq_str, eq_str_iff, name, name-injective}

  -- The option of a name that a loop's operands have
  unfoldable pub option_of : MdName → List (Operand strs) → Option (Operand strs)
  option_of key ops = find (matches_loop_option strs (name key)) ops

  -- The result has this answer for one option, and keeps the answer to every other question.
  pub Sets : MdName → Option (Operand strs) → List (Operand strs) → List (Operand strs) → Type 0
  Sets key answer ops ops' =
      (option_of key ops' ≡ answer)
      × ((p : Operand strs → Bool) → Apart strs (name key) p → find p ops' ≡ find p ops)

  matches_self :
      (key : MdName) (val : Option (Leaf strs))
      → matches_loop_option strs (name key) (option_node strs (name key) val) ≡ true
  unfolding matches_loop_option
  matches_self key none = (eq_str_iff (name key) (name key)).1 refl
  matches_self key (some v) = (eq_str_iff (name key) (name key)).1 refl

  update_lmd-Sets :
      (ops : List (Operand strs)) (key : MdName) (val : Option (Leaf strs))
      → Succeeds
          (Sets key (some (option_node strs (name key) val)) ops)
          (update_lmd strs ops (name key) val false)
  unfolding update_lmd Sets option_of Apart find
  update_lmd-Sets ops key val =
      let k = name key in
      let mds = remove_option strs k (insert_all strs [] ops) in
      let x = option_node strs k val in
      (
        find-insert_op strs (matches_loop_option strs k) mds x
            ∙ rw (find-removed strs k (insert_all strs [] ops), matches_self key val) refl,
        λ p h.
            find-insert_op strs p mds x
            ∙ rw
                (
                  h x (matches_self key val),
                  find-remove strs k p (insert_all strs [] ops) h,
                  find-insert_all strs p [] ops,
                )
                (sym (or_else-none (find p ops))),
      )

  delete-Sets :
      (ops : List (Operand strs)) (key : MdName)
      → Succeeds (Sets key none ops) (update_lmd strs ops (name key) none true)
  unfolding update_lmd Sets option_of find
  delete-Sets ops key =
      let k = name key in
      (
        find-removed strs k (insert_all strs [] ops),
        λ p h. find-remove strs k p (insert_all strs [] ops) h ∙ find-insert_all strs p [] ops,
      )

  -- What a setting asks of an option, from the one that is there
  unfoldable pub presence : MdName → Option Bool → Option (Operand strs) → Option (Operand strs)
  presence key none old = old
  presence key (some true) old = some (option_node strs (name key) none)
  presence key (some false) old = none

  unfoldable pub count : MdName → Option ℕ → Option (Operand strs) → Option (Operand strs)
  count key none old = old
  count key (some n) old = some (option_node strs (name key) (some (mk_md_int strs 32 n)))

  keeps_all : (key : MdName) (ops : List (Operand strs)) → Sets key (option_of key ops) ops ops
  unfolding Sets
  keeps_all key ops = (refl, λ p h. refl)

  pub set_presence_option-Sets :
      (ops : List (Operand strs)) (opt : Option Bool) (key : MdName)
      → Succeeds
          (Sets key (presence key opt (option_of key ops)) ops)
          (set_presence_option strs ops opt key)
  unfolding set_presence_option presence
  set_presence_option-Sets ops none key = keeps_all key ops
  set_presence_option-Sets ops (some true) key = update_lmd-Sets ops key none
  set_presence_option-Sets ops (some false) key = delete-Sets ops key

  pub set_int_option-Sets :
      (ops : List (Operand strs)) (opt : Option ℕ) (key : MdName)
      → Succeeds
          (Sets key (count key opt (option_of key ops)) ops)
          (set_int_option strs ops opt key)
  unfolding set_int_option count
  set_int_option-Sets ops none key = keeps_all key ops
  set_int_option-Sets ops (some n) key = update_lmd-Sets ops key (some (mk_md_int strs 32 n))

  Apart-names :
      (key key' : MdName)
      → key ≢ key'
      → Apart strs (name key) (matches_loop_option strs (name key'))
  unfolding Apart matches_loop_option
  Apart-names key key' ne (node []) h = refl
  Apart-names key key' ne (node (int w v ∷ vals)) h = refl
  Apart-names key key' ne (node (Leaf.other n ∷ vals)) h = refl
  Apart-names key key' ne (leaf l) h = refl
  Apart-names key key' ne (node (str k ∷ vals)) h = elim (Bool-cases (eq_str k (name key'))) [
    | inl e ↦ absurd (
        ne (
          name-injective key key'
            (sym ((eq_str_iff k (name key)).0 h) ∙ (eq_str_iff k (name key')).0 e)))
    | inr e ↦ e
  ]

  -- The names that addToLoopMD writes
  unfoldable pub is_written : MdName → Bool
  is_written tag = false
  is_written section = false
  is_written _ = true

  -- A question that no written option answers
  unfoldable pub Foreign : (Operand strs → Bool) → Type 0
  Foreign p = (key : MdName) → is_written key ≡ true → Apart strs (name key) p

  -- An operation's effect on every option, and what it leaves alone
  unfoldable pub Acts :
      (MdName → Option (Operand strs) → Option (Operand strs))
      → List (Operand strs)
      → List (Operand strs)
      → Type 0
  Acts f ops ops' =
      ((key : MdName) → option_of key ops' ≡ f key (option_of key ops))
      × ((p : Operand strs → Bool) → Foreign p → find p ops' ≡ find p ops)

  unfoldable pub at_key :
      MdName
      → (Option (Operand strs) → Option (Operand strs))
      → MdName
      → Option (Operand strs)
      → Option (Operand strs)
  at_key key f key' old = if code key == code key' then f old else old

  pub Sets-Acts :
      (key : MdName) (f : Option (Operand strs) → Option (Operand strs))
      (ops ops' : List (Operand strs))
      → is_written key ≡ true
      → Sets key (f (option_of key ops)) ops ops'
      → Acts (at_key key f) ops ops'
  unfolding Sets Acts at_key Foreign option_of
  Sets-Acts key f ops ops' w (set, kept) = (effect, λ p h. kept p (h key w))
    where
      effect : (key' : MdName) → option_of key' ops' ≡ at_key key f key' (option_of key' ops)
      effect key' = elim (Bool-cases (code key == code key')) [
        | inl e ↦
            let same : key ≡ key' =
              sym (decode-code key)
              ∙ ap decode ((==_iff (code key) (code key')).0 e)
              ∙ decode-code key' in
            rw e (subst (λ k. option_of k ops' ≡ f (option_of k ops)) same set)
        | inr e ↦ rw e (
            kept (matches_loop_option strs (name key')) (
              Apart-names key key'
                λ same. false≢true (sym e ∙ (==_iff (code key) (code key')).1 (ap code same))))
      ]

  -- One operation after another
  pub then_Acts :
      (f g : MdName → Option (Operand strs) → Option (Operand strs)) (ops : List (Operand strs))
      (m : Option (List (Operand strs))) (k : List (Operand strs) → Option (List (Operand strs)))
      → Succeeds (Acts f ops) m
      → ((ops' : List (Operand strs)) → Succeeds (Acts g ops') (k ops'))
      → Succeeds (Acts (λ key old. g key (f key old)) ops) (m >>= k)
  unfolding Acts
  then_Acts f g ops m k h next =
      >>=-Succeeds (Acts (λ key old. g key (f key old)) ops) m k h λ mid (a, b).
        Succeeds-mono (Acts g mid) (Acts (λ key old. g key (f key old)) ops) (k mid)
          (λ ops' (a', b').
            ((λ key. a' key ∙ ap (g key) (a key)), λ p foreign. b' p foreign ∙ b p foreign))
          (next mid)
