-- ===== src/Sssa/Threshold/Sums.antt =====
-- `CountSharesPart` of sssa/threshold.go adds up what the dealers sent to a server: the sums are the
-- values of the sum of the dealers' polynomials.
pub mod Recovery
use address_verification.Base.{
  ℕ, zero, suc, ◌+◌, ◌*◌, ◌%◌, ◌<◌, ◌≤◌, ◌≡◌, refl, sym, ap, ap₂, ◌∙◌, List, [], ◌∷◌, ◌++◌, map,
  Option, none, some, arith, Bytes, length, All,
}
use address_verification.Base.Int.{ℤ, pos, ◌+ℤ◌, +ℤ_parts}
use address_verification.Base.Mod.{
  Cong, ◌⨾◌, Cong-refl, Cong-symm, Cong-+, Cong-mod, Cong-small, Cong-of_eq,
}
use address_verification.Base.Outcome.{ok}
use address_verification.Sssa.Field.{default_prime, evaluate_polynomial}
use address_verification.Sssa.Field.Horner.{evaluate_polynomial-value}
use address_verification.Sssa.Base64.{to_base64}
use address_verification.Sssa.Lagrange.{value}
use address_verification.Sssa.Threshold.{share_sum, count_shares_part}

-- The polynomials of the dealers, each with its constant term in front.
abbrev pub Dealers : Type 0
Dealers = List (ℕ × List ℕ)

-- The share of a server, where there is one.
abbrev received : Option ℕ → Option ℤ
received none = none
received (some y) = some (pos y)

-- What the server x has in `Sharespart` when each dealer has sent the value there.
abbrev pub dealt : Dealers → ℕ → List (Option ℤ)
dealt [] x = []
dealt ((c, cs) ∷ dealers) x =
    received (evaluate_polynomial default_prime (c ∷ cs) x) ∷ dealt dealers x

-- The sum of two polynomials, and of those of all dealers.
add_polynomials : List ℕ → List ℕ → List ℕ
add_polynomials [] ds = ds
add_polynomials (a ∷ cs) [] = a ∷ cs
add_polynomials (a ∷ cs) (b ∷ ds) = (a + b) ∷ add_polynomials cs ds

pub sum_of_polynomials : Dealers → List ℕ
sum_of_polynomials [] = []
sum_of_polynomials ((c, cs) ∷ dealers) = add_polynomials (c ∷ cs) (sum_of_polynomials dealers)

-- The sum of the dealers' secrets.
abbrev pub sum_of_secrets : Dealers → ℕ
sum_of_secrets [] = 0
sum_of_secrets ((c, cs) ∷ dealers) = c + sum_of_secrets dealers

value-add_polynomials :
    (cs ds : List ℕ) (x : ℕ) → value (add_polynomials cs ds) x ≡ value cs x + value ds x
unfolding add_polynomials
value-add_polynomials [] ds x = omega arith
value-add_polynomials (a ∷ cs) [] x = omega arith
value-add_polynomials (a ∷ cs) (b ∷ ds) x =
    omega (arith, ap (λ (t : ℕ). x * t) (value-add_polynomials cs ds x))

length-add_polynomials :
    (cs ds : List ℕ) (n : ℕ) → length cs ≤ n → length ds ≤ n → length (add_polynomials cs ds) ≤ n
unfolding add_polynomials
length-add_polynomials [] ds n h k = k
length-add_polynomials (a ∷ cs) [] n h k = h
length-add_polynomials (a ∷ cs) (b ∷ ds) zero h k = absurd (omega arith)
length-add_polynomials (a ∷ cs) (b ∷ ds) (suc n) h k =
    omega (arith, length-add_polynomials cs ds n (omega arith) (omega arith))

pub length-sum_of_polynomials :
    (dealers : Dealers) (n : ℕ)
    → All (λ dealer. suc (length dealer.1) ≤ n) dealers
    → length (sum_of_polynomials dealers) ≤ n
unfolding sum_of_polynomials
length-sum_of_polynomials [] n h = omega arith
length-sum_of_polynomials ((c, cs) ∷ dealers) n (h, hs) =
    length-add_polynomials (c ∷ cs) (sum_of_polynomials dealers) n h
      (length-sum_of_polynomials dealers n hs)

pub value-sum_of_polynomials :
    (dealers : Dealers) → value (sum_of_polynomials dealers) 0 ≡ sum_of_secrets dealers
unfolding sum_of_polynomials
value-sum_of_polynomials [] = refl
value-sum_of_polynomials ((c, cs) ∷ dealers) = omega (
  arith,
  value-add_polynomials (c ∷ cs) (sum_of_polynomials dealers) 0,
  value-sum_of_polynomials dealers,
)

pos_sum : (a b : ℕ) → pos a +ℤ pos b ≡ pos (a + b)
unfolding ◌+ℤ◌
pos_sum a b = ground arith

some_pos : {a b : ℕ} → some (pos a) ≡ some (pos b) → a ≡ b
some_pos h = cc

-- The sum of what a server received is the value of the sum of the polynomials.
share_sum-dealt :
    (dealers : Dealers) (x a : ℕ)
    → All (λ dealer. dealer.0 < default_prime) dealers
    → (s : ℕ) × (share_sum (dealt dealers x) (pos a) ≡ some (pos s))
      × Cong default_prime s (a + value (sum_of_polynomials dealers) x)
unfolding share_sum sum_of_polynomials
share_sum-dealt [] x a h = (a, refl, Cong-of_eq (omega arith))
share_sum-dealt ((c, cs) ∷ dealers) x a (small, h) =
    let (y, e, same, _) = evaluate_polynomial-value (omega arith) c cs x small in
    let (s, summed, total) = share_sum-dealt dealers x (a + y) h in
    (
      s,
      rw (e, pos_sum a y) summed,
      total
          ⨾ Cong-+ (Cong-+ (Cong-refl a) same) (Cong-refl _)
          ⨾ Cong-of_eq
              (omega (arith, value-add_polynomials (c ∷ cs) (sum_of_polynomials dealers) x)),
    )

-- A sum that a server has, whichever it is.
pub share_sum-Cong :
    (dealers : Dealers) (x y : ℕ)
    → All (λ dealer. dealer.0 < default_prime) dealers
    → share_sum (dealt dealers x) (pos 0) ≡ some (pos y)
    → Cong default_prime y (value (sum_of_polynomials dealers) x)
share_sum-Cong dealers x y h e =
    let (s, summed, total) = share_sum-dealt dealers x 0 h in
    Cong-of_eq (some_pos (sym e ∙ summed)) ⨾ total ⨾ Cong-of_eq (omega arith)
