-- ===== src/Call/Params.antt =====
-- map_placeholder_to_type: each placeholder gets the type of the first parameter that it is passed for.
use at_jit.Prelude.{
  ℕ, zero, suc, ◌+◌, ◌-◌, ◌<◌, Bool, true, false, ◌&&◌, ◌||◌, Option, none, some, List, [], ◌∷◌,
  ◌++◌, map, length, length-map, length-append, length-set, get_elem?, get_elem?-set_self,
  get_elem?-set_ne, set, ltb, ltb→lt, leb, ◌==◌, ◌≡◌, refl, sym, ap, subst, ◌∙◌, arith, All,
  append_assoc, Bool-cases, ==_iff, ==_refl, inl, inr, none-some,
}
use at_jit.Prelude.Int.{pos}
use at_jit.Prelude.Partial.{
  ◌>>◌, assert, IfSome, >>=-IfSome, IfSome-always, IfSome-assert, IfSome-mono,
}
use at_jit.Context.Interfaces.{Hashes}
use at_jit.Context.{Argument, forward, int}
use at_jit.Wrappers.Types.{or_else, first_use, Filled, Filled-set, Filled-keep, slot_cases}
use at_jit.Call.{
  Arg, placeholder, wrapper, knob, value, option, has_seen, parse_placeholder, no_void, map_helper,
}

abbrev pub is_filled {ℓ} : {A : Type ℓ} → Option (Option A) → Bool
is_filled (some (some a)) = true
is_filled _ = false

module _ (h : Hashes) (Ty : Type 0) where
  -- Another argument that forwards the same placeholder, and one that forwards none
  abbrev pub as_argument : Arg h Ty → Argument h
  as_argument (placeholder s k) = forward k
  as_argument _ = int (pos 0)

  -- All uses of a placeholder have one spelling.
  abbrev pub SpelledBy : (ℕ → ℕ) → Arg h Ty → Type 0
  SpelledBy spell (placeholder s k) = s ≡ spell k
  SpelledBy spell _ = Unit

  has_seen-append :
      (p q : ℕ × ℕ) (seen : List (ℕ × ℕ))
      → has_seen h Ty p (seen ++ q ∷ []) ≡ (has_seen h Ty p seen || (p.0 == q.0 && p.1 == q.1))
  unfolding has_seen
  has_seen-append (s, k) (s', k') [] = ground arith
  has_seen-append (s, k) (s', k') ((t, j) ∷ seen) =
      ground (arith, has_seen-append (s, k) (s', k') seen)

  -- The filled slots are those of the placeholders that were seen.
  abbrev pub Tracks : (ℕ → ℕ) → List (Option Ty) → List (ℕ × ℕ) → Type 0
  Tracks spell result seen =
      (k : ℕ) → has_seen h Ty (spell k, k) seen ≡ is_filled (get_elem? result k)

  no_void-all :
      (result : List (Option Ty)) → IfSome (λ ts. map some ts ≡ result) (no_void h Ty result)
  unfolding no_void
  no_void-all [] = refl
  no_void-all (none ∷ result) = tt
  no_void-all (some t ∷ result) =
      >>=-IfSome _ (no_void h Ty result) _ (no_void-all result) λ ts e. ap (λ l. some t ∷ l) e

  or_else-filled :
      (ts : List Ty) (k : ℕ) (o x : Option Ty)
      → get_elem? (map some ts) k ≡ some o
      → get_elem? (map some ts) k ≡ some (or_else o x)
  or_else-filled [] k o x e = absurd (none-some e)
  or_else-filled (t ∷ ts) zero none x e = cc
  or_else-filled (t ∷ ts) zero (some u) x e = e
  or_else-filled (t ∷ ts) (suc k) o x e = or_else-filled ts k o x e

  head_at :
      (pre post : List Ty) (p : Ty) (n : ℕ)
      → n ≡ length post
      → get_elem? (pre ++ p ∷ post) (length (pre ++ p ∷ post) - suc n) ≡ some p
  head_at [] post p n e = let z : suc (length post) - suc n ≡ 0 = omega arith in rw z refl
  head_at (q ∷ pre) post p n e =
      let s : suc (length (pre ++ p ∷ post)) - suc n ≡ suc (length (pre ++ p ∷ post) - suc n) =
        omega (arith, length-append pre (p ∷ post)) in
      rw s (head_at pre post p n e)

  seen_both : (a b c x : Bool) → a ≡ x → c ≡ false → (a || (b && c)) ≡ x
  seen_both a b c x e f = ground arith

  seen_now : (a b c : Bool) → b ≡ true → c ≡ true → (a || (b && c)) ≡ true
  seen_now a b c e f = ground arith

  Tracks-set :
      (spell : ℕ → ℕ) (result : List (Option Ty)) (seen : List (ℕ × ℕ)) (k : ℕ) (p : Ty)
      → Tracks spell result seen
      → k < length result
      → Tracks spell (set result k (some p)) (seen ++ (spell k, k) ∷ [])
  Tracks-set spell result seen k p tracks in_ j = elim (Bool-cases (j == k)) [
    | inl same ↦
        let at : j ≡ k = (==_iff j k).0 same in
        has_seen-append (spell j, j) (spell k, k) seen
        ∙ seen_now (has_seen h Ty (spell j, j) seen) (spell j == spell k) (j == k)
            (rw at (==_refl (spell k))) same
        ∙ sym (rw at (rw (get_elem?-set_self result k (some p) in_) refl))
    | inr other ↦
        has_seen-append (spell j, j) (spell k, k) seen
        ∙ seen_both (has_seen h Ty (spell j, j) seen) (spell j == spell k) (j == k)
            (is_filled (get_elem? (set result k (some p)) j))
            (tracks j
              ∙ ap is_filled
                  (sym (get_elem?-set_ne result k j (some p) (λ e. apart j k other (sym e)))))
            other
  ]
    where
      apart : (j k : ℕ) → (j == k) ≡ false → j ≡ k → ⊥
      apart j k other e = ground arith

  -- The slots that are left empty get the type of the first use, and the number of slots stays.
  abbrev pub Mapped : List (Arg h Ty) → List Ty → List (Option Ty) → List Ty → Type 0
  Mapped al post result ts =
      Filled h (map as_argument al) post result (map some ts) × (length ts ≡ length result)

  length_of_all :
      (ts : List Ty) (result : List (Option Ty)) → map some ts ≡ result → length ts ≡ length result
  length_of_all ts result e = sym (length-map some ts) ∙ ap length e

  filled_slot :
      (result : List (Option Ty)) (k : ℕ)
      → is_filled (get_elem? result k) ≡ true
      → (u : Ty) × (get_elem? result k ≡ some (some u))
  filled_slot result k e = by_slot (get_elem? result k) refl e
    where
      by_slot :
          (o : Option (Option Ty))
          → get_elem? result k ≡ o
          → is_filled o ≡ true
          → (u : Ty) × (get_elem? result k ≡ some (some u))
      by_slot none e f = absurd (cc)
      by_slot (some none) e f = absurd (cc)
      by_slot (some (some u)) e f = (u, e)

  empty_slot :
      (result : List (Option Ty)) (k : ℕ)
      → k < length result
      → is_filled (get_elem? result k) ≡ false
      → get_elem? result k ≡ some none
  empty_slot result k in_ e = elim (slot_cases h result k in_) [
    | inl empty ↦ empty
    | inr (u, full) ↦ let clash : true ≡ false = ap is_filled (sym full) ∙ e in absurd (cc)
  ]

  assert-holds : (b : Bool) → IfSome (λ _. b ≡ true) (assert b)
  assert-holds true = refl
  assert-holds false = tt

  module _ (spell : ℕ → ℕ) (ps : List Ty) (n : ℕ) where
    at_head :
        (pre post : List Ty) (p : Ty) (al : List (Arg h Ty))
        → ps ≡ pre ++ p ∷ post
        → length al ≡ length post
        → get_elem? ps (length ps - suc (length al)) ≡ some p
    at_head pre post p al e len = rw e (head_at pre post p (length al) len)

    -- What an argument does with the slots, where the rest of the arguments does it right.
    by_argument :
        (a : Arg h Ty) (al : List (Arg h Ty)) (m : ℕ) (pre post : List Ty) (p : Ty)
        (result : List (Option Ty)) (seen : List (ℕ × ℕ))
        → SpelledBy spell a
        → Tracks spell result seen
        → ((done : Bool) (result' : List (Option Ty)) (seen' : List (ℕ × ℕ))
            → Tracks spell result' seen'
            → IfSome (Mapped al post result') (map_helper h Ty ps n done al result' seen'))
        → IfSome (Mapped (a ∷ al) (p ∷ post) result) (elim (parse_placeholder h Ty a seen) [
          | none ↦
              assert (ltb 0 (length result))
              >> map_helper h Ty ps n (length seen == n) al result seen
          | some (s, k) ↦
              assert (ltb k (length result))
              >> map_helper h Ty ps n
                  (length seen + 1 == n)
                  al
                  (set result k (some p))
                  (seen ++ (s, k) ∷ [])
        ])
    unfolding parse_placeholder
    by_argument (wrapper t f) al m pre post p result seen spelled tracks rec =
        IfSome-assert _ (ltb 0 (length result)) _ (rec (length seen == n) result seen tracks)
    by_argument (knob r) al m pre post p result seen spelled tracks rec =
        IfSome-assert _ (ltb 0 (length result)) _ (rec (length seen == n) result seen tracks)
    by_argument (value v) al m pre post p result seen spelled tracks rec =
        IfSome-assert _ (ltb 0 (length result)) _ (rec (length seen == n) result seen tracks)
    by_argument (option o v) al m pre post p result seen spelled tracks rec =
        IfSome-assert _ (ltb 0 (length result)) _ (rec (length seen == n) result seen tracks)
    by_argument (placeholder s k) al m pre post p result seen spelled tracks rec =
        elim (Bool-cases (has_seen h Ty (s, k) seen)) [
          | inl old ↦
              let (u, full) =
                filled_slot result k
                  (sym (tracks k) ∙ subst (λ t. has_seen h Ty (t, k) seen ≡ true) spelled old) in
              rw old (
                IfSome-assert _ (ltb 0 (length result)) _ (
                  IfSome-mono _ _ (map_helper h Ty ps n (length seen == n) al result seen)
                    (λ ts (mapped, len). (
                      Filled-keep h k p u (map as_argument al) post result (map some ts) full
                          mapped,
                      len,
                    ))
                    (rec (length seen == n) result seen tracks)))
          | inr new ↦ rw new (
              >>=-IfSome _ (assert (ltb k (length result))) _ (assert-holds (ltb k (length result)))
                λ u in_.
                  IfSome-mono _ _
                    (map_helper h Ty ps n (length seen + 1 == n) al (set result k (some p))
                      (seen ++ (s, k) ∷ []))
                    (λ ts (mapped, len). (
                      Filled-set h k p (map as_argument al) post result (map some ts)
                          (ltb→lt k (length result) in_)
                          (empty_slot result k (ltb→lt k (length result) in_) (
                            sym (tracks k)
                            ∙ subst (λ t. has_seen h Ty (t, k) seen ≡ false) spelled new))
                          mapped,
                      len ∙ length-set result k (some p),
                    ))
                    (rec (length seen + 1 == n) (set result k (some p)) (seen ++ (s, k) ∷ []) (
                      subst (λ t. Tracks spell (set result k (some p)) (seen ++ (t, k) ∷ []))
                        (sym spelled)
                        (Tracks-set spell result seen k p tracks (ltb→lt k (length result) in_)))))
        ]

    pub map_helper-Mapped :
        (al : List (Arg h Ty)) (done : Bool) (pre post : List Ty) (result : List (Option Ty))
        (seen : List (ℕ × ℕ))
        → ps ≡ pre ++ post
        → length al ≡ length post
        → All (SpelledBy spell) al
        → Tracks spell result seen
        → IfSome (Mapped al post result) (map_helper h Ty ps n done al result seen)
    unfolding map_helper
    map_helper-Mapped al true pre post result seen e len spelled tracks =
        >>=-IfSome _ (assert (length seen == n && length result == n)) _
          (IfSome-always (assert (length seen == n && length result == n)))
          λ u u'.
            IfSome-mono _ _ (no_void h Ty result)
              (λ ts all. (
                λ k o at.
                    or_else-filled ts k o (first_use h k (map as_argument al) post)
                      (ap (λ l. get_elem? l k) all ∙ at),
                length_of_all ts result all,
              ))
              (no_void-all result)
    map_helper-Mapped [] false pre post result seen e len spelled tracks = tt
    map_helper-Mapped (a ∷ al) false pre [] result seen e len spelled tracks = absurd (omega arith)
    map_helper-Mapped (a ∷ al) false pre (p ∷ post) result seen e len (spelled, rest) tracks =
        >>=-IfSome _ (assert (leb (length (a ∷ al)) (length ps))) _
          (IfSome-always (assert (leb (length (a ∷ al)) (length ps))))
          λ u u'. rw (at_head pre post p al e (omega (arith, len))) (
            by_argument a al (length al) pre post p result seen spelled tracks
              (λ done result' seen' t.
                map_helper-Mapped al done (pre ++ p ∷ []) post result' seen'
                  (e ∙ sym (append_assoc pre (p ∷ []) post)) (omega (arith, len)) rest t))
