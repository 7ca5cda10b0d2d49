-- ===== src/Sssa/Create/Tests.antt =====
-- `CreateFromInt` for two of three shares, with a number that is drawn twice.
use address_verification.Base.{ℕ, ◌≡◌, refl, List, [], ◌∷◌, arith, length}
use address_verification.Sssa.Field.{in_numbers}
use address_verification.Sssa.Draw.{drawn}
use address_verification.Sssa.Draw.Enough.{fresh_count}
use address_verification.Sssa.Create.{Created, create_from_int}
use address_verification.Sssa.Create.Ends.{create_from_int-drawn}

abbrev draws : List ℕ
draws = 70 ∷ 1 ∷ 70 ∷ 2 ∷ 5 ∷ []

four_fresh : fresh_count (0 ∷ []) draws ≡ 4
unfolding fresh_count in_numbers
four_fresh = refl

create_from_int-drawn_example :
    (made : Created) × (rest : List ℕ) × (create_from_int 2 3 (500 ∷ draws) ≡ drawn made rest)
    × (length made.shares ≡ 3)
    × (length made.pointer ≡ 3)
    × (length made.polynomial ≡ 2)
create_from_int-drawn_example =
    create_from_int-drawn 1 3 500 draws (omega arith) (omega arith) (omega (arith, four_fresh))
