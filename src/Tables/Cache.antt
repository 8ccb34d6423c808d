-- ===== src/Tables/Cache.antt =====
-- include/easy/code_cache.h: Cache::jit and has. easy::jit is a parameter: it compiles, or ends with an exception.
use at_jit.Prelude.{
  none-some, Bool-cases, Option-cases, inl, inr, ◌≡◌, refl, sym, ◌∙◌, Bool, true, false, Option,
  none, some, List, [], ◌∷◌, ◌++◌,
}
use at_jit.Driver.FunctionWrapper.{Wrapper, null_wrapper}
use at_jit.Tables.{find_key, has_key, emplace, assign_key}
use at_jit.Tables.Laws.{
  IsKeyTest, find_key-same, find_key-new, find_key-assigned, find_key-other, find_key-behind,
  emplace-hit, emplace-miss,
}

-- Cache::has
pub has {ℓ} : {K : Type ℓ} → (K → K → Bool) → List (K × Wrapper) → K → Bool
has eq cache k = has_key eq cache k

-- What is in the cache after easy::jit ended
abbrev pub entry_after : Option Wrapper → Wrapper
entry_after none = null_wrapper
entry_after (some w) = w

module _ {ℓ κ} {K : Type ℓ} {E : Type κ} (eq : K → K → Bool) where
  -- FWB = std::move(FW), where easy::jit returned a wrapper; `none` is its exception.
  pub store_compiled :
      List (K × Wrapper) → K → Option Wrapper × E → List (K × Wrapper) × Option Wrapper × E
  store_compiled cache k (none, e) = (cache, none, e)
  store_compiled cache k (some w, e) = (assign_key eq cache k w, some w, e)

  -- compile_if_not_in_cache, on whether the entry of the key is new
  pub compile_if_not_in_cache :
      Bool
      → List (K × Wrapper)
      → K
      → (E → Option Wrapper × E)
      → E
      → List (K × Wrapper) × Option Wrapper × E
  compile_if_not_in_cache false cache k compile e = (cache, find_key eq cache k, e)
  compile_if_not_in_cache true cache k compile e = store_compiled cache k (compile e)

  -- Cache::jit
  pub jit :
      List (K × Wrapper)
      → K
      → (E → Option Wrapper × E)
      → E
      → List (K × Wrapper) × Option Wrapper × E
  jit cache k compile e =
      let p = emplace eq cache k null_wrapper in compile_if_not_in_cache p.0 p.1 k compile e

  -- Calls of jit, one after the other
  pub jit_all :
      List (K × Wrapper) → List (K × (E → Option Wrapper × E)) → E → List (K × Wrapper) × E
  jit_all cache [] e = (cache, e)
  jit_all cache ((k, compile) ∷ later) e =
      let (cache', w, e') = jit cache k compile e in jit_all cache' later e'

  module _ (laws : IsKeyTest eq) where
    -- A call for a key that is there answers from the cache.
    jit-hit :
        (cache : List (K × Wrapper)) (k : K) (w : Wrapper) (compile : E → Option Wrapper × E)
        (e : E)
        → find_key eq cache k ≡ some w
        → jit cache k compile e ≡ (cache, some w, e)
    unfolding jit compile_if_not_in_cache
    jit-hit cache k w compile e h = rw (emplace-hit eq laws cache k null_wrapper w h, h) refl

    jit-miss :
        (cache : List (K × Wrapper)) (k : K) (compile : E → Option Wrapper × E) (e : E)
        → find_key eq cache k ≡ none
        → jit cache k compile e ≡ store_compiled (cache ++ (k, null_wrapper) ∷ []) k (compile e)
    unfolding jit compile_if_not_in_cache
    jit-miss cache k compile e h = rw (emplace-miss eq laws cache k null_wrapper h) refl

    store_compiled-entry :
        (cache : List (K × Wrapper)) (k : K) (r : Option Wrapper × E)
        → find_key eq cache k ≡ some null_wrapper
        → ((store_compiled cache k r).1 ≡ r.0)
          × (find_key eq (store_compiled cache k r).0 k ≡ some (entry_after r.0))
    unfolding store_compiled
    store_compiled-entry cache k (none, e) h = (refl, h)
    store_compiled-entry cache k (some w, e) h =
        (refl, find_key-assigned eq laws cache k w null_wrapper h)

    store_compiled-other :
        (cache : List (K × Wrapper)) (k j : K) (r : Option Wrapper × E)
        → eq k j ≡ false
        → find_key eq (store_compiled cache k r).0 j ≡ find_key eq cache j
    unfolding store_compiled
    store_compiled-other cache k j (none, e) h = refl
    store_compiled-other cache k j (some w, e) h = find_key-other eq laws cache k j w h

    -- A call for any key keeps the entries that are there.
    jit-keeps :
        (cache : List (K × Wrapper)) (j k : K) (w : Wrapper) (compile : E → Option Wrapper × E)
        (e : E)
        → find_key eq cache k ≡ some w
        → find_key eq (jit cache j compile e).0 k ≡ some w
    jit-keeps cache j k w compile e h = elim (Option-cases (find_key eq cache j)) [
      | inr (v, there) ↦ rw (jit-hit cache j v compile e there) h
      | inl missing ↦ elim (Bool-cases (eq j k)) [
        | inl same ↦ absurd (none-some (sym missing ∙ find_key-same eq laws cache j k same ∙ h))
        | inr differ ↦ rw (jit-miss cache j compile e missing) (
            store_compiled-other (cache ++ (j, null_wrapper) ∷ []) j k (compile e) differ
            ∙ find_key-behind eq laws cache j k null_wrapper differ
            ∙ h)
      ]
    ]

    jit_all-keeps :
        (later : List (K × (E → Option Wrapper × E))) (cache : List (K × Wrapper)) (k : K)
        (w : Wrapper) (e : E)
        → find_key eq cache k ≡ some w
        → find_key eq (jit_all cache later e).0 k ≡ some w
    unfolding jit_all
    jit_all-keeps [] cache k w e h = h
    jit_all-keeps ((j, compile) ∷ later) cache k w e h =
        jit_all-keeps later (jit cache j compile e).0 k w (jit cache j compile e).2
          (jit-keeps cache j k w compile e h)

    -- The first call for a key compiles, and returns what was compiled or its exception. For an equal key, every
    -- later call, after any calls for any keys, returns the entry without compiling and without a change of the
    -- cache: the compiled wrapper, but the empty one after an exception. The entry of a key that differs stays.
    pub jit-compiles_once :
        (cache : List (K × Wrapper)) (k k' : K) (compile compile' : E → Option Wrapper × E)
        (e e' : E) (later : List (K × (E → Option Wrapper × E))) (j : K)
        → eq k k ≡ true
        → eq k k' ≡ true
        → eq k j ≡ false
        → find_key eq cache k ≡ none
        → ((jit cache k compile e).1 ≡ (compile e).0)
          × (jit
                (jit_all (jit cache k compile e).0 later e').0
                k'
                compile'
                (jit_all (jit cache k compile e).0 later e').1
              ≡ (
                (jit_all (jit cache k compile e).0 later e').0,
                some (entry_after (compile e).0),
                (jit_all (jit cache k compile e).0 later e').1,
              ))
          × (find_key eq (jit cache k compile e).0 j ≡ find_key eq cache j)
    jit-compiles_once cache k k' compile compile' e e' later j self same differ h =
        let new = find_key-new eq laws cache k k null_wrapper self h in
        let (made, there) =
          store_compiled-entry (cache ++ (k, null_wrapper) ∷ []) k (compile e) new in
        rw (jit-miss cache k compile e h) (
          made,
          jit-hit
              (jit_all (store_compiled (cache ++ (k, null_wrapper) ∷ []) k (compile e)).0 later
                e').0
              k' (entry_after (compile e).0) compile'
              (jit_all (store_compiled (cache ++ (k, null_wrapper) ∷ []) k (compile e)).0 later
                e').1
              (sym (find_key-same eq laws _ k k' same)
                ∙ jit_all-keeps later
                    (store_compiled (cache ++ (k, null_wrapper) ∷ []) k (compile e)).0 k
                    (entry_after (compile e).0) e' there),
          store_compiled-other (cache ++ (k, null_wrapper) ∷ []) k j (compile e) differ
              ∙ find_key-behind eq laws cache k j null_wrapper differ,
        )
