-- ===== src/Sssa/Deal/Run.antt =====
-- What a run of `GenerateShares` that deals values has made, and a slice after an assignment.
use mathlib.Core.Option.{some-injective, none-ne-some}
use address_verification.Base.{
  ℕ, zero, suc, ◌+◌, ◌<◌, ◌≤◌, ◌≡◌, refl, ap, ◌∙◌, List, [], ◌∷◌, map, Option, none, some, false,
  ltb, Bytes, length, get_elem?, arith,
}
use address_verification.Base.Int.{ℤ, pos}
use address_verification.Sssa.Combine.{Error, combine}
use address_verification.Base.Outcome.{Outcome}
use address_verification.Sssa.Create.{Created, pointers, pointer_at, create_from_int}
use address_verification.Sssa.Draw.{Draw, drawn}
use address_verification.Sssa.Threshold.{set_at}
use address_verification.Sssa.Deal.{generate_shares, unless_panicked}

both :
    (o : Option ℕ) (r : Option (List ℕ)) (values : List ℕ)
    → elim o [ none ↦ none | some v ↦ elim r [ none ↦ none | some vs ↦ some (v ∷ vs) ] ]
      ≡ some values
    → (v : ℕ) × (vs : List ℕ) × (o ≡ some v) × (r ≡ some vs) × (v ∷ vs ≡ values)
both none r values e = absurd (none-ne-some values e)
both (some v) none values e = absurd (none-ne-some values e)
both (some v) (some vs) values e = (v, vs, refl, refl, some-injective _ _ e)

-- The values that are dealt, by their numbers.
pub pointers-at :
    (count index : ℕ) (polynomials : List (List ℕ)) (values : List ℕ) (k y : ℕ)
    → pointers count index polynomials ≡ some values
    → get_elem? values k ≡ some y
    → pointer_at polynomials (index + k) ≡ some y
unfolding pointers
pointers-at zero index ps values k y e f =
    absurd (none-ne-some y (ap (λ l. get_elem? l k) (some-injective _ _ e) ∙ f))
pointers-at (suc count) index ps values zero y e f =
    let (v, vs, at, _, same) =
      both (pointer_at ps index) (pointers count (index + 1) ps) values e in
    ap (pointer_at ps) (omega arith) ∙ at ∙ ap (λ l. get_elem? l 0) same ∙ f
pointers-at (suc count) index ps values (suc k) y e f =
    let (v, vs, _, rest, same) =
      both (pointer_at ps index) (pointers count (index + 1) ps) values e in
    ap (pointer_at ps) (omega arith)
    ∙ pointers-at count (index + 1) ps vs k y rest (ap (λ l. get_elem? l (suc k)) same ∙ f)

-- An assignment within a slice.
pub set_at-lt :
    {A : Type 0} (l : List A) (i : ℕ) (a : A)
    → i < length l
    → (m : List A) × (set_at l i a ≡ some m) × (get_elem? m i ≡ some a)
unfolding set_at
set_at-lt [] i a h = absurd (omega arith)
set_at-lt (x ∷ l) zero a h = (a ∷ l, refl, refl)
set_at-lt (x ∷ l) (suc i) a h =
    let (m, e, f) = set_at-lt l i a (omega arith) in (x ∷ m, rw e refl, f)

pub ltb_ge : (a b : ℕ) → b ≤ a → ltb a b ≡ false
ltb_ge a b h = ground arith

pub length-map : {A B : Type 0} (f : A → B) (l : List A) → length (map f l) ≡ length l
length-map f [] = refl
length-map f (x ∷ l) = ap suc (length-map f l)

module _ {X : Type 0} where
  drawn-injective : {a b : X} {r s : List ℕ} → drawn a r ≡ drawn b s → a ≡ b
  drawn-injective h = cc

  panicked-ne-drawn : {x : X} {r : List ℕ} → ◌≡◌ {A = Draw X} Draw.panicked (drawn x r) → ⊥
  panicked-ne-drawn h = cc

  starved-ne-drawn : {x : X} {r : List ℕ} → ◌≡◌ {A = Draw X} Draw.starved (drawn x r) → ⊥
  starved-ne-drawn h = cc

  unless_panicked-drawn :
      (o : Outcome Error Bytes) (next : Draw X) (x : X) (rest : List ℕ)
      → unless_panicked o next ≡ drawn x rest
      → next ≡ drawn x rest
  unless_panicked-drawn (Outcome.ok _) next x rest e = e
  unless_panicked-drawn (Outcome.err _) next x rest e = e
  unless_panicked-drawn Outcome.panic next x rest e = absurd (panicked-ne-drawn e)

-- The run of `CreateFromInt` behind values that are dealt.
pub generate_shares-drawn :
    {P : Type 0} (public_of : ℤ → P) (minimum shares : ℕ) (draws rest : List ℕ) (pubs : List P)
    (values : List ℕ) (i y : ℕ)
    → generate_shares public_of minimum shares draws ≡ drawn (pubs, values) rest
    → get_elem? values i ≡ some y
    → (made : Created) × (left : List ℕ) × (create_from_int minimum shares draws ≡ drawn made left)
      × (map (λ c. public_of (pos c)) made.polynomial ≡ pubs)
      × (made.pointer ≡ values)
unfolding generate_shares
generate_shares-drawn {P = P} public_of minimum shares draws rest pubs values i y e at =
    go (create_from_int minimum shares draws) refl e
  where
    go :
        (d : Draw Created)
        → create_from_int minimum shares draws ≡ d
        → elim d as (λ _. Draw (List P × List ℕ)) [
          | drawn created left ↦
              unless_panicked
                (combine created.shares)
                (drawn (map (λ c. public_of (pos c)) created.polynomial, created.pointer) left)
          | Draw.failed _ ↦ unless_panicked (combine ([] ∷ [])) (drawn ([], []) draws)
          | Draw.panicked ↦ Draw.panicked
          | Draw.starved ↦ Draw.starved
        ]
          ≡ drawn (pubs, values) rest
        → (made : Created) × (left : List ℕ) × (create_from_int minimum shares draws
            ≡ drawn made left)
          × (map (λ c. public_of (pos c)) made.polynomial ≡ pubs)
          × (made.pointer ≡ values)
    go (drawn made left) run f =
        let same = drawn-injective (unless_panicked-drawn (combine made.shares) _ _ _ f) in
        (
          made,
          left,
          run,
          ap (λ (p : List P × List ℕ). p.0) same,
          ap (λ (p : List P × List ℕ). p.1) same,
        )
    go (Draw.failed _) run f =
        let same = drawn-injective (unless_panicked-drawn (combine ([] ∷ [])) _ _ _ f) in
        absurd (none-ne-some y (ap (λ (p : List P × List ℕ). get_elem? p.1 i) same ∙ at))
    go Draw.panicked run f = absurd (panicked-ne-drawn f)
    go Draw.starved run f = absurd (starved-ne-drawn f)
