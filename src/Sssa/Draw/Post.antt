-- ===== src/Sssa/Draw/Post.antt =====
-- What holds of a draw whenever it succeeds.
use address_verification.Base.{
  ℕ, ◌-◌, ◌<◌, ◌≡◌, refl, List, [], ◌∷◌, Bool, true, Bool-cases, inl, inr, All, Option, none, some,
}
use address_verification.Sssa.Field.{default_prime}
use address_verification.Sssa.Draw.{
  Draw, drawn, failed, panicked, starved, Gen, bound, ◌>>=◌, draw_until, or_panicked,
}

abbrev pub Post : {A : Type 0} → (A → List ℕ → Type 0) → Draw A → Type 0
Post P (drawn a rest) = P a rest
Post P (failed e) = Unit
Post P panicked = Unit
Post P starved = Unit

Post-bound :
    {A B : Type 0} (P : A → List ℕ → Type 0) (Q : B → List ℕ → Type 0) (r : Draw A) (f : A → Gen B)
    → Post P r
    → ((a : A) (rest : List ℕ) → P a rest → Post Q (f a rest))
    → Post Q (bound r f)
Post-bound P Q (drawn a rest) f h k = k a rest h
Post-bound P Q (failed e) f h k = tt
Post-bound P Q panicked f h k = tt
Post-bound P Q starved f h k = tt

-- The rule for one step after another.
pub Post->>= :
    {A B : Type 0} (P : A → List ℕ → Type 0) (Q : B → List ℕ → Type 0) (m : Gen A) (f : A → Gen B)
    (draws : List ℕ)
    → Post P (m draws)
    → ((a : A) (rest : List ℕ) → P a rest → Post Q (f a rest))
    → Post Q ((m >>= f) draws)
Post->>= P Q m f draws = Post-bound P Q (m draws) f

-- A step that draws nothing.
pub Post-or_panicked :
    {A : Type 0} (P : A → List ℕ → Type 0) (o : Option A) (draws : List ℕ)
    → ((a : A) → o ≡ some a → P a draws)
    → Post P (or_panicked o draws)
Post-or_panicked P none draws k = tt
Post-or_panicked P (some a) draws k = k a refl

-- The numbers that `rand.Int(rand.Reader, prime - 1)` may return.
abbrev pub IsDrawn : ℕ → Type 0
IsDrawn d = d < default_prime - 1

-- A number that is drawn passed the test, and is one of those that were to come.
pub Post-draw_until :
    (accept : ℕ → Bool) (draws : List ℕ)
    → All IsDrawn draws
    → Post (λ d rest. (accept d ≡ true) × IsDrawn d × All IsDrawn rest) (draw_until accept draws)
unfolding draw_until
Post-draw_until accept [] h = tt
Post-draw_until accept (x ∷ draws) (hx, h) = elim (Bool-cases (accept x)) [
  | inl passed ↦ rw passed (passed, hx, h)
  | inr refused ↦ rw refused (Post-draw_until accept draws h)
]

-- What holds of every success holds of this one.
pub Post-drawn :
    {A : Type 0} (P : A → List ℕ → Type 0) (r : Draw A) {a : A} {rest : List ℕ}
    → r ≡ drawn a rest
    → Post P r
    → P a rest
Post-drawn P r e h = rw e at h
