-- ===== src/Sssa/Draw/Enough.antt =====
-- How many of the numbers that are drawn the loops of `Create` accept.
use address_verification.Base.{
  ℕ, suc, ◌≤◌, ◌<◌, ◌≡◌, refl, sym, ap, ap₂, ◌∙◌, inl, inr, List, [], ◌∷◌, ◌++◌, Bool, true, false,
  not, ◌&&◌, ◌||◌, ltb, ◌==◌, if◌then◌else◌, arith, Bool-cases,
}
use address_verification.Sssa.Field.{in_numbers}
use address_verification.Sssa.Draw.{
  Draw, drawn, draw_until, is_fresh, is_fresh_coefficient, max_polynomial,
}

-- The numbers of a list that are within the limit, and not among `numbers` or those counted before.
unfoldable pub fresh_count : List ℕ → List ℕ → ℕ
fresh_count numbers [] = 0
fresh_count numbers (d ∷ draws) =
    let skipped = fresh_count numbers draws in
    let counted = fresh_count (numbers ++ d ∷ []) draws in
    if is_fresh_coefficient numbers d then suc counted else skipped

in_numbers-append :
    (numbers : List ℕ) (d x : ℕ)
    → in_numbers (numbers ++ d ∷ []) x ≡ (in_numbers numbers x || in_numbers (d ∷ []) x)
unfolding in_numbers
in_numbers-append [] d x = refl
in_numbers-append (n ∷ numbers) d x = by_head (n == x) _ _ _ (in_numbers-append numbers d x)
  where
    by_head :
        (b r s t : Bool) → r ≡ (s || t) → (if b then true else r) ≡ ((if b then true else s) || t)
    by_head true r s t e = refl
    by_head false r s t e = e

-- Two lists of the same numbers.
abbrev Same : List ℕ → List ℕ → Type 0
Same a b = (x : ℕ) → in_numbers a x ≡ in_numbers b x

Same-append : (a b : List ℕ) (d : ℕ) → Same a b → Same (a ++ d ∷ []) (b ++ d ∷ [])
Same-append a b d h x =
    in_numbers-append a d x
    ∙ ap (λ (t : Bool). t || in_numbers (d ∷ []) x) (h x)
    ∙ sym (in_numbers-append b d x)

Same-swap : (a : List ℕ) (d e : ℕ) → Same (a ++ d ∷ [] ++ e ∷ []) (a ++ e ∷ [] ++ d ∷ [])
Same-swap a d e x =
    twice a d e
    ∙ swap (in_numbers a x) (in_numbers (d ∷ []) x) (in_numbers (e ∷ []) x)
    ∙ sym (twice a e d)
  where
    twice :
        (l : List ℕ) (u v : ℕ)
        → in_numbers (l ++ u ∷ [] ++ v ∷ []) x
          ≡ ((in_numbers l x || in_numbers (u ∷ []) x) || in_numbers (v ∷ []) x)
    twice l u v =
        in_numbers-append (l ++ u ∷ []) v x
        ∙ ap (λ (t : Bool). t || in_numbers (v ∷ []) x) (in_numbers-append l u x)

    swap : (p q r : Bool) → ((p || q) || r) ≡ ((p || r) || q)
    swap true q r = refl
    swap false true true = refl
    swap false true false = refl
    swap false false true = refl
    swap false false false = refl

fresh_count-Same : (a b draws : List ℕ) → Same a b → fresh_count a draws ≡ fresh_count b draws
unfolding fresh_count
fresh_count-Same a b [] h = refl
fresh_count-Same a b (d ∷ draws) h =
    ap
      (λ (t : Bool).
        if not (ltb max_polynomial d) && not t
        then suc (fresh_count (a ++ d ∷ []) draws)
        else fresh_count a draws)
      (h d)
    ∙ ap₂ (λ (m n : ℕ). if is_fresh_coefficient b d then suc m else n)
        (fresh_count-Same (a ++ d ∷ []) (b ++ d ∷ []) draws (Same-append a b d h))
        (fresh_count-Same a b draws h)

-- What the first number of a list counts.
fresh_count_yes :
    (a : List ℕ) (d : ℕ) (draws : List ℕ)
    → is_fresh_coefficient a d ≡ true
    → fresh_count a (d ∷ draws) ≡ suc (fresh_count (a ++ d ∷ []) draws)
unfolding fresh_count
fresh_count_yes a d draws h = rw (h, fresh_count) refl

fresh_count_no :
    (a : List ℕ) (d : ℕ) (draws : List ℕ)
    → is_fresh_coefficient a d ≡ false
    → fresh_count a (d ∷ draws) ≡ fresh_count a draws
unfolding fresh_count
fresh_count_no a d draws h = rw (h, fresh_count) refl

-- A number more that is used makes a number refused that was accepted only if it is this one.
refused_by :
    (a : List ℕ) (e d : ℕ)
    → is_fresh_coefficient a d ≡ true
    → is_fresh_coefficient (a ++ e ∷ []) d ≡ false
    → e ≡ d
unfolding in_numbers
refused_by a e d yes_a no_b = single (
    among (not (ltb max_polynomial d)) (in_numbers a d) (in_numbers (e ∷ []) d) yes_a (
      ap (λ (t : Bool). not (ltb max_polynomial d) && not t) (sym (in_numbers-append a e d))
      ∙ no_b))
  where
    among : (l m n : Bool) → (l && not m) ≡ true → (l && not (m || n)) ≡ false → n ≡ true
    among true false true h k = refl
    among true false false h k = sym k
    among true true true h k = refl
    among true true false h k = h
    among false m true h k = refl
    among false m false h k = h

    single : (if e == d then true else false) ≡ true → e ≡ d
    single h = ground arith

accepted_less :
    (a : List ℕ) (e d : ℕ)
    → is_fresh_coefficient a d ≡ false
    → is_fresh_coefficient (a ++ e ∷ []) d ≡ false
accepted_less a e d no_a =
    ap (λ (t : Bool). not (ltb max_polynomial d) && not t) (in_numbers-append a e d)
    ∙ still (not (ltb max_polynomial d)) (in_numbers a d) (in_numbers (e ∷ []) d) no_a
  where
    still : (l m n : Bool) → (l && not m) ≡ false → (l && not (m || n)) ≡ false
    still false m n h = refl
    still true true n h = refl
    still true false true h = refl
    still true false false h = h

-- One number more that is used takes away one at most.
fresh_count_used :
    (a : List ℕ) (e : ℕ) (draws : List ℕ)
    → fresh_count a draws ≤ suc (fresh_count (a ++ e ∷ []) draws)
unfolding fresh_count
fresh_count_used a e [] = omega arith
fresh_count_used a e (d ∷ draws) = elim (Bool-cases (is_fresh_coefficient a d)) [
  | inr no_a ↦ omega (
    arith,
    fresh_count_no a d draws no_a,
    fresh_count_no (a ++ e ∷ []) d draws (accepted_less a e d no_a),
    fresh_count_used a e draws,
  )
  | inl yes_a ↦ elim (Bool-cases (is_fresh_coefficient (a ++ e ∷ []) d)) [
    | inl yes_b ↦ omega (
      arith,
      fresh_count_yes a d draws yes_a,
      fresh_count_yes (a ++ e ∷ []) d draws yes_b,
      fresh_count_used (a ++ d ∷ []) e draws,
      fresh_count-Same (a ++ d ∷ [] ++ e ∷ []) (a ++ e ∷ [] ++ d ∷ []) draws (Same-swap a d e),
    )
    | inr no_b ↦ omega (
      arith,
      fresh_count_yes a d draws yes_a,
      fresh_count_no (a ++ e ∷ []) d draws no_b,
      ap (λ (t : ℕ). fresh_count (a ++ t ∷ []) draws) (refused_by a e d yes_a no_b),
    )
  ]
]

module _ (accept : ℕ → Bool) (d : ℕ) (draws : List ℕ) where
  draw_take : accept d ≡ true → draw_until accept (d ∷ draws) ≡ drawn d draws
  unfolding draw_until
  draw_take h = rw (h, draw_until) refl

  draw_skip : accept d ≡ false → draw_until accept (d ∷ draws) ≡ draw_until accept draws
  unfolding draw_until
  draw_skip h = rw (h, draw_until) refl

-- A number is drawn, and the others that count stay.
abbrev pub IsDrawnFresh : List ℕ → List ℕ → Draw ℕ → Type 0
IsDrawnFresh a draws result =
    (d : ℕ) × (rest : List ℕ) × (result ≡ drawn d rest)
    × (fresh_count a draws ≤ suc (fresh_count (a ++ d ∷ []) rest))

-- The loop for a coefficient.
pub draw_coefficient :
    (a draws : List ℕ)
    → 0 < fresh_count a draws
    → IsDrawnFresh a draws (draw_until (is_fresh_coefficient a) draws)
unfolding fresh_count
draw_coefficient a [] h = absurd (omega arith)
draw_coefficient a (d ∷ draws) h = elim (Bool-cases (is_fresh_coefficient a d)) [
  | inl accepted ↦
      (d, draws, draw_take _ d draws accepted, omega (arith, fresh_count_yes a d draws accepted))
  | inr refused ↦
      let skips = fresh_count_no a d draws refused in
      let (e, rest, found, left) = draw_coefficient a draws (omega (arith, skips, h)) in
      (e, rest, draw_skip _ d draws refused ∙ found, omega (arith, skips, left))
]

-- An accepted number counts at most for one.
taken_lem :
    (a : List ℕ) (d : ℕ) (draws : List ℕ)
    → fresh_count a (d ∷ draws) ≤ suc (fresh_count (a ++ d ∷ []) draws)
taken_lem a d draws = elim (Bool-cases (is_fresh_coefficient a d)) [
  | inl yes_a ↦ omega (arith, fresh_count_yes a d draws yes_a)
  | inr no_a ↦ omega (arith, fresh_count_no a d draws no_a, fresh_count_used a d draws)
]

not_counted : (l m : Bool) → m ≡ false → (l && m) ≡ false
not_counted true m h = h
not_counted false m h = refl

-- The loop for a coordinate, which has no limit.
pub draw_coordinate :
    (a draws : List ℕ)
    → 0 < fresh_count a draws
    → IsDrawnFresh a draws (draw_until (is_fresh a) draws)
unfolding fresh_count
draw_coordinate a [] h = absurd (omega arith)
draw_coordinate a (d ∷ draws) h = elim (Bool-cases (is_fresh a d)) [
  | inl accepted ↦ (d, draws, draw_take _ d draws accepted, taken_lem a d draws)
  | inr refused ↦
      let skips = fresh_count_no a d draws (not_counted (not (ltb max_polynomial d)) _ refused) in
      let (e, rest, found, left) = draw_coordinate a draws (omega (arith, skips, h)) in
      (e, rest, draw_skip _ d draws refused ∙ found, omega (arith, skips, left))
]
