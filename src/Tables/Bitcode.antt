-- ===== src/Tables/Bitcode.antt =====
-- include/easy/runtime/BitcodeTracker.h and runtime/BitcodeTracker.cpp: which function has which bitcode. The parsing of
-- bitcode is LLVM's, a parameter. Names are a parameter type with its equality; addresses are numbers.
use at_jit.Prelude.{
  none-some, ℕ, ◌≡◌, sym, ◌∙◌, subst, Bool, false, Option, none, some, List, [], ◌∷◌, ◌==◌, ==_refl,
  arith, Option-cases, inl, inr,
}
use mathlib.Core.Bool.{false≢true}
use at_jit.Prelude.Partial.{◌>>=◌, Succeeds}
use at_jit.Tables.{find_key, has_key, emplace}
use at_jit.Tables.Laws.{
  IsKeyTest, find_key-new, emplace-miss, emplace-stays, emplace-there, emplace-cases, has_key-found,
}

module _ (Name : Type 0) (eq_name : Name → Name → Bool) where
  -- struct FunctionInfo; the globals and the bitcode are addresses.
  pub record FunctionInfo : Type 0 where
    pub name : Name
    pub globals : ℕ
    pub bitcode : ℕ
    pub bitcode_len : ℕ

  -- Functions and NameToAddress
  pub record BitcodeTracker : Type 0 where
    pub functions : List (ℕ × FunctionInfo)
    pub name_to_address : List (Name × ℕ)

  -- registerFunction, and easy_register on the one tracker of the process
  unfoldable pub register_function : BitcodeTracker → ℕ → FunctionInfo → BitcodeTracker
  register_function t fptr info = record {
    functions = (emplace ◌==◌ t.functions fptr info).1;
    name_to_address = (emplace eq_name t.name_to_address info.name fptr).1;
  }

  pub has_global_mapping : BitcodeTracker → ℕ → Bool
  has_global_mapping t fptr = has_key ◌==◌ t.functions fptr

  -- getAddress; `none` is nullptr
  pub get_address : BitcodeTracker → Name → Option ℕ
  get_address t name = find_key eq_name t.name_to_address name

  -- getNameAndGlobalMapping; `none` is BitcodeNotRegistered
  pub get_name_and_global_mapping : BitcodeTracker → ℕ → Option (Name × ℕ)
  get_name_and_global_mapping t fptr = do
    info ← find_key ◌==◌ t.functions fptr
    some (info.name, info.globals)

  -- getName; `none` is BitcodeNotRegistered
  pub get_name : BitcodeTracker → ℕ → Option Name
  get_name t fptr = do info ← find_key ◌==◌ t.functions fptr; some info.name

  pub data ModuleResult (M : Type 0) : Type 0 where
    parsed : M → ModuleResult M
    not_registered : ModuleResult M
    parse_error : Name → ModuleResult M

  -- getModuleWithContext; `parse` is llvm::parseBitcodeFile on an address and a length.
  pub get_module_with_context :
      {M : Type 0} → (ℕ → ℕ → Option M) → BitcodeTracker → ℕ → ModuleResult M
  get_module_with_context parse t fptr = elim (find_key ◌==◌ t.functions fptr) [
    | none ↦ not_registered
    | some info ↦ (elim (parse info.bitcode info.bitcode_len) [
      | none ↦ parse_error info.name
      | some m ↦ parsed m
    ])
  ]

  -- The globals that Function::deserialize looks up for the entry function's name: none without an address, else
  -- what the tracker has for the address. The outer `none` is the exception.
  pub deserialize_globals : BitcodeTracker → Name → Option (Option ℕ)
  deserialize_globals t name = elim (get_address t name) [
    | none ↦ some none
    | some fptr ↦ (get_name_and_global_mapping t fptr >>= λ p. some (some p.1))
  ]

  -- The registrations of a program, one after the other
  unfoldable pub register_all : BitcodeTracker → List (ℕ × FunctionInfo) → BitcodeTracker
  register_all t [] = t
  register_all t ((fptr, info) ∷ rs) = register_all (register_function t fptr info) rs

  abbrev pub empty_tracker : BitcodeTracker
  empty_tracker = record { functions = []; name_to_address = [] }

  module _ (laws : IsKeyTest eq_name) where
    ==-laws : IsKeyTest ◌==◌
    ==-laws = record { eq_flip = λ a b h. ground arith; eq_chain = λ a b c h h'. ground arith }

    -- Every address that has a name is a registered function.
    Consistent : BitcodeTracker → Type 0
    Consistent t =
        (name : Name) (fptr : ℕ)
        → get_address t name ≡ some fptr
        → (info : FunctionInfo) × (find_key ◌==◌ t.functions fptr ≡ some info)

    register-Consistent :
        (t : BitcodeTracker) (fptr : ℕ) (info : FunctionInfo)
        → Consistent t
        → Consistent (register_function t fptr info)
    unfolding Consistent register_function get_address
    register-Consistent t fptr info c name p h =
        elim (emplace-cases eq_name laws t.name_to_address info.name name fptr p h) [
          | inl old ↦
              let (w, e) = c name p old in
              (w, emplace-stays ◌==◌ ==-laws t.functions fptr p info w e)
          | inr new ↦
              subst
                (λ q.
                  (w : FunctionInfo) × (find_key ◌==◌ (emplace ◌==◌ t.functions fptr info).1 q
                    ≡ some w))
                (sym new) (emplace-there ◌==◌ ==-laws t.functions fptr info (==_refl fptr))
        ]

    register_all-Consistent :
        (rs : List (ℕ × FunctionInfo)) (t : BitcodeTracker)
        → Consistent t
        → Consistent (register_all t rs)
    unfolding register_all
    register_all-Consistent [] t c = c
    register_all-Consistent ((fptr, info) ∷ rs) t c =
        register_all-Consistent rs (register_function t fptr info)
          (register-Consistent t fptr info c)

    empty-Consistent : Consistent empty_tracker
    unfolding Consistent get_address find_key
    empty-Consistent name fptr h = absurd (none-some h)

    -- After any registrations, also of one function twice or of two functions under one name: the globals that
    -- Function::deserialize looks up are found for every name, without the exception BitcodeNotRegistered.
    pub deserialize_globals-Succeeds :
        (rs : List (ℕ × FunctionInfo)) (name : Name)
        → Succeeds (λ g. Unit {0}) (deserialize_globals (register_all empty_tracker rs) name)
    unfolding deserialize_globals get_name_and_global_mapping Consistent
    deserialize_globals-Succeeds rs name =
        let t = register_all empty_tracker rs in
        elim (Option-cases (get_address t name)) [
          | inl e ↦ rw (deserialize_globals, e) tt
          | inr (p, e) ↦
              let (w, e') = register_all-Consistent rs empty_tracker empty-Consistent name p e in
              rw (deserialize_globals, e, get_name_and_global_mapping, e') tt
        ]

    -- The first registration of a function is the one that counts: it gives the function its name, its globals and its
    -- bitcode, and a later one changes nothing of them, under whatever name.
    pub register_function-first :
        (t : BitcodeTracker) (fptr : ℕ) (info later : FunctionInfo)
        → has_global_mapping t fptr ≡ false
        → find_key ◌==◌
            (register_function (register_function t fptr info) fptr later).functions
            fptr
          ≡ some info
    unfolding register_function has_global_mapping
    register_function-first t fptr info later h =
        elim (Option-cases (find_key ◌==◌ t.functions fptr)) [
          | inl e ↦
              emplace-stays ◌==◌ ==-laws (emplace ◌==◌ t.functions fptr info).1 fptr fptr later info
                (rw (emplace-miss ◌==◌ ==-laws t.functions fptr info e)
                  (find_key-new ◌==◌ ==-laws t.functions fptr fptr info (==_refl fptr) e))
          | inr (w, e) ↦
              absurd (false≢true (sym h ∙ has_key-found ◌==◌ ==-laws t.functions fptr w e))
        ]
