-- ===== src/Sssa/Draw.antt =====
-- Code that draws random numbers: a function of the numbers that `rand.Int(rand.Reader, prime - 1)`
-- is going to return, which hands on those that it leaves.
pub mod Post
pub mod Enough
use address_verification.Base.{
  ℕ, List, [], ◌∷◌, Bool, true, not, Option, none, some, ltb, if◌then◌else◌, ◌&&◌,
}
use address_verification.Sssa.Combine.{Error}
use address_verification.Sssa.Field.{in_numbers}

-- `starved`: the numbers are used up, so the model does not say how the code goes on.
pub data Draw (A : Type 0) : Type 0 where
  drawn : A → List ℕ → Draw A
  failed : Error → Draw A
  panicked starved : Draw A

abbrev pub Gen : Type 0 → Type 0
Gen A = List ℕ → Draw A

abbrev pub bound : {A B : Type 0} → Draw A → (A → Gen B) → Draw B
bound (drawn a rest) f = f a rest
bound (failed e) f = failed e
bound panicked f = panicked
bound starved f = starved

infixl 5 ◌>>=◌
abbrev pub ◌>>=◌ : {A B : Type 0} → Gen A → (A → Gen B) → Gen B
◌>>=◌ m f draws = bound (m draws) f

abbrev pub pure : {A : Type 0} → A → Gen A
pure a draws = drawn a draws

abbrev pub or_panicked : {A : Type 0} → Option A → Gen A
or_panicked none draws = panicked
or_panicked (some a) draws = drawn a draws

-- The limit of `randomInLimit` and of the coefficients in `Create`.
abbrev pub max_polynomial : ℕ
max_polynomial = 18577701560408869159165164103615505429330560073505879322283895478251523783470

-- A loop that draws again as long as the number is refused.
unfoldable pub draw_until : (ℕ → Bool) → Gen ℕ
draw_until accept [] = starved
draw_until accept (d ∷ draws) =
    let again = draw_until accept draws in if accept d then drawn d draws else again

unfoldable pub random : Gen ℕ
unfolding draw_until
random = draw_until (λ _. true)

unfoldable pub random_in_limit : Gen ℕ
unfolding draw_until
random_in_limit = draw_until (λ d. not (ltb max_polynomial d))

-- The tests of the two loops that look for a number not used before.
abbrev pub is_fresh : List ℕ → ℕ → Bool
is_fresh numbers d = not (in_numbers numbers d)

abbrev pub is_fresh_coefficient : List ℕ → ℕ → Bool
is_fresh_coefficient numbers d = not (ltb max_polynomial d) && is_fresh numbers d
