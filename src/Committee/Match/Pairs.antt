-- ===== src/Committee/Match/Pairs.antt =====
-- Two shares of 132 bytes combine without a panic.
use address_verification.Base.{
  ◌≡◌, [], ◌∷◌, Option, none, some, Bool, true, false, not, Bytes, length, if◌then◌else◌, get_elem?,
}
use address_verification.Base.Outcome.{Outcome, ok, err, ◌>>=◌, or_panic}
use address_verification.Sssa.Combine.{Error, one_of_the_shares_is_invalid, is_valid_share}
use address_verification.Sssa.Pubs.{
  Curve, Triple, share_triples, decode_pub_shares, pub_part, pub_parts, secret_pubs, add_pubs,
  combine_ecdsa_pubs,
}

-- It ends, with a result or an error.
pub data Ends {A : Type 0} : Outcome Error A → Type 0 where
  with_ok : (a : A) → Ends (ok a)
  with_err : (e : Error) → Ends (err e)

module _ {P : Type 0} (curve : Curve P) where
  Ends-add_pubs : (p q : Option P) → Ends (add_pubs curve (p ∷ q ∷ []))
  unfolding add_pubs
  Ends-add_pubs none q = with_err _
  Ends-add_pubs (some p) none = with_err _
  Ends-add_pubs (some p) (some q) = with_ok _

  -- What is done with two shares of one part.
  Ends-chain :
      (invalid invalid₁ : Bool) (t t₁ : Triple)
      → Ends (do
        secrets ←
            (if invalid then err one_of_the_shares_is_invalid else do
              secrets ←
                  (if invalid₁
                    then err one_of_the_shares_is_invalid
                    else do secrets ← ok []; ok ((t₁ ∷ []) ∷ secrets))
              ok ((t ∷ []) ∷ secrets))
        first ← or_panic (get_elem? secrets 0)
        last ← pub_parts curve (length first) 0 secrets none
        pubs ← or_panic last
        add_pubs curve pubs)
  unfolding pub_parts pub_part secret_pubs
  Ends-chain true b t t₁ = with_err _
  Ends-chain false true t t₁ = with_err _
  Ends-chain false false t t₁ = Ends-add_pubs _ _

  -- Two shares of one part.
  pub Ends-combine_ecdsa_pubs :
      (share share₁ : Bytes)
      → length share ≡ 132
      → length share₁ ≡ 132
      → Ends (combine_ecdsa_pubs curve (share ∷ share₁ ∷ []))
  unfolding combine_ecdsa_pubs decode_pub_shares share_triples
  Ends-combine_ecdsa_pubs share share₁ h h₁ =
      rw (h, h₁, combine_ecdsa_pubs, decode_pub_shares)
        (Ends-chain (not (is_valid_share share)) (not (is_valid_share share₁)) _ _)
