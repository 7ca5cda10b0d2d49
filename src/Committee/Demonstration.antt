-- ===== src/Committee/Demonstration.antt =====
-- `ShamirShare` and `LibraryCombine` of committee/shamirShare.go: two texts are shared out, the values
-- for each server are added up and printed as a share. The keys of the polynomials and of the values
-- are only printed, and left out.

use address_verification.Base.{ℕ, ◌+◌, List, [], ◌∷◌, ◌++◌, Option, none, some, Bytes, codes}
use address_verification.Base.Int.{pos}
use address_verification.Base.Outcome.{Outcome}
use address_verification.Sssa.Base64.{to_base64}
use address_verification.Sssa.Combine.{Error, combine}
use address_verification.Sssa.Draw.{Draw, drawn, Gen, ◌>>=◌, pure, or_panicked}
use address_verification.Sssa.Create.{create}
use address_verification.Sssa.Deal.{unless_panicked}

-- One round: the values of `Create`, after the call of `Combine`, whose result and error are printed.
-- An error of `Create` is printed; the shares are then one empty text and there is no value, so the
-- loop over the shares panics at `pointer[0]`.
unfoldable pub share_text : ℕ → ℕ → Bytes → Gen (List ℕ)
share_text minimum shares text draws = elim (create minimum shares text draws) [
  | drawn created rest ↦ unless_panicked (combine created.shares) (drawn created.pointer rest)
  | Draw.failed _ ↦ Draw.panicked
  | Draw.panicked ↦ Draw.panicked
  | Draw.starved ↦ Draw.starved
]

-- The sums of `pubshares[i]`; a value that is missing is a nil pointer, which panics.
unfoldable pub add_up : List ℕ → List ℕ → Option (List ℕ)
add_up [] [] = some []
add_up [] (z ∷ zs) = none
add_up (y ∷ ys) [] = none
add_up (y ∷ ys) (z ∷ zs) = elim (add_up ys zs) [ none ↦ none | some sums ↦ some ((y + z) ∷ sums) ]

-- The texts for the sums i, i + 1, …
unfoldable pub print_sums : ℕ → List ℕ → List Bytes
print_sums i [] = []
print_sums i (sum ∷ sums) = (to_base64 (pos i) ++ to_base64 (pos sum)) ∷ print_sums (i + 1) sums

unfoldable pub shamir_share : Gen (List Bytes)
unfolding share_text add_up print_sums
shamir_share = do
  first ← share_text 2 3 (codes "N17FigASkL6p1EOgJhRaIquQLGvYV0")
  second ← share_text 2 3 (codes "0y10VAfmyH7GLQY6QccCSLKJi8iFgpcS")
  sums ← or_panicked (add_up first second)
  pure (print_sums 0 sums)

-- `LibraryCombine`, of which the result is printed.
unfoldable pub library_combine : Outcome Error Bytes
library_combine = combine (
    codes "AAAAAAAAAAAAAAAAAAAAAAAAAAAAAAAAAAAAAAAAAAA=Dx1sBPeBj6_khAgJ24VatRTD6dpc12WOZf-nQF4D7Yw="
    ∷ codes
        "AAAAAAAAAAAAAAAAAAAAAAAAAAAAAAAAAAAAAAAAAAI=CbT1F4xghFF900Mb1X1zKcPEGuflJ_9zxv82gZ7K9XE="
    ∷ [])
