-- ===== src/Sssa/Create.antt =====
-- `Create` and `CreateFromInt` of sssa/sssa.go: a random polynomial for each part of the secret,
-- and its points as shares.
pub mod Shares
pub mod Distinct
pub mod Recovery
pub mod Ends
mod Tests
use address_verification.Base.{
  ℕ, zero, suc, ◌+◌, List, [], ◌∷◌, ◌++◌, Option, none, some, ltb, if◌then◌else◌, Bytes,
}
use address_verification.Base.Int.{pos}
use address_verification.Sssa.Field.{default_prime, evaluate_polynomial, in_numbers}
use address_verification.Sssa.Base64.{to_base64}
use address_verification.Sssa.Text.{split_byte_to_int}
use address_verification.Sssa.Combine.{Error, cannot_require_more_shares}
use address_verification.Sssa.Draw.{
  Draw, failed, panicked, Gen, ◌>>=◌, pure, or_panicked, draw_until, random, random_in_limit,
  is_fresh, is_fresh_coefficient,
}

-- What a call returns beside its error.
pub record Created : Type 0 where
  pub shares : List Bytes
  pub pointer : List ℕ
  pub polynomial : List ℕ

-- Numbers drawn with the numbers used up to then.
abbrev pub Numbered : Type 0 → Type 0
Numbered A = A × List ℕ

-- The coefficients behind the constant term.
unfoldable pub coefficients : ℕ → List ℕ → Gen (Numbered (List ℕ))
coefficients zero numbers = pure ([], numbers)
coefficients (suc count) numbers = do
  number ← draw_until (is_fresh_coefficient numbers)
  rest ← coefficients count (numbers ++ number ∷ [])
  pure (number ∷ rest.0, rest.1)

-- `make([]*big.Int, minimum)` with the secret at index 0, which panics if `minimum` is 0.
unfoldable pub polynomial_of : ℕ → ℕ → List ℕ → Gen (Numbered (List ℕ))
polynomial_of zero secret numbers = or_panicked none
polynomial_of (suc degree) secret numbers = do
  rest ← coefficients degree numbers
  pure (secret ∷ rest.0, rest.1)

-- A polynomial for each part of the secret.
unfoldable pub polynomials : ℕ → List ℕ → List ℕ → Gen (Numbered (List (List ℕ)))
polynomials minimum [] numbers = pure ([], numbers)
polynomials minimum (secret ∷ secrets) numbers = do
  first ← polynomial_of minimum secret numbers
  rest ← polynomials minimum secrets first.1
  pure (first.0 ∷ rest.0, rest.1)

-- One share: a fresh coordinate and the value there for each part, printed one behind the other.
unfoldable pub make_share : List (List ℕ) → List ℕ → Gen (Numbered Bytes)
make_share [] numbers = pure ([], numbers)
make_share (polynomial ∷ polynomials) numbers = do
  number ← draw_until (is_fresh numbers)
  y ← or_panicked (evaluate_polynomial default_prime polynomial number)
  rest ← make_share polynomials (numbers ++ number ∷ [])
  pure (to_base64 (pos number) ++ to_base64 (pos y) ++ rest.0, rest.1)

unfoldable pub make_shares : ℕ → List (List ℕ) → List ℕ → Gen (Numbered (List Bytes))
make_shares zero polynomials numbers = pure ([], numbers)
make_shares (suc count) polynomials numbers = do
  share ← make_share polynomials numbers
  rest ← make_shares count polynomials share.1
  pure (share.0 ∷ rest.0, rest.1)

-- `pointer[i]` is written for each part, so that of the last part stays.
unfoldable pub pointer_at : List (List ℕ) → ℕ → Option ℕ
pointer_at [] index = none
pointer_at (polynomial ∷ []) index = evaluate_polynomial default_prime polynomial index
pointer_at (polynomial ∷ next ∷ rest) index =
    let last = pointer_at (next ∷ rest) index in
    elim (evaluate_polynomial default_prime polynomial index) [ none ↦ none | some _ ↦ last ]

-- The values at index, index + 1, … for `count` shares.
unfoldable pub pointers : ℕ → ℕ → List (List ℕ) → Option (List ℕ)
pointers zero index polynomials = some []
pointers (suc count) index polynomials =
    let rest = pointers count (index + 1) polynomials in
    elim (pointer_at polynomials index) [
      | none ↦ none
      | some value ↦ elim rest [ none ↦ none | some values ↦ some (value ∷ values) ]
    ]

-- `polynomial[0]`.
abbrev pub first_of_list {ℓ} : {A : Type ℓ} → List A → Option A
first_of_list [] = none
first_of_list (x ∷ xs) = some x

-- What both functions do once the secret is chosen.
unfoldable pub share_out : ℕ → ℕ → List ℕ → Gen Created
share_out minimum shares secret = do
  polynomial ← polynomials minimum secret (0 ∷ [])
  result ← make_shares shares polynomial.0 polynomial.1
  pointer ← or_panicked (pointers shares 1 polynomial.0)
  first ← or_panicked (first_of_list polynomial.0)
  pure (record { shares = result.0; pointer = pointer; polynomial = first })

unfoldable pub create_from_int : ℕ → ℕ → Gen Created
create_from_int minimum shares draws =
    let body : Gen Created = random_in_limit >>= λ secret. share_out minimum shares (secret ∷ []) in
    if ltb shares minimum then failed cannot_require_more_shares else body draws

-- `secret[0] = test`, which panics on an empty secret.
unfoldable pub overwrite_first : ℕ → List ℕ → Option (List ℕ)
overwrite_first test [] = none
overwrite_first test (_ ∷ secret) = some (test ∷ secret)

-- `Create` behind its test.
unfoldable pub create_body : ℕ → ℕ → Bytes → Gen Created
create_body minimum shares raw = do
  secret ← or_panicked (split_byte_to_int raw)
  test ← random
  overwritten ← or_panicked (overwrite_first test secret)
  share_out minimum shares overwritten

unfoldable pub create : ℕ → ℕ → Bytes → Gen Created
unfolding create_body
create minimum shares raw draws =
    let body = create_body minimum shares raw in
    if ltb shares minimum then failed cannot_require_more_shares else body draws
