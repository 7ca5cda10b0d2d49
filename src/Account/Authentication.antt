-- ===== src/Account/Authentication.antt =====
-- The authentication transactions of ABaccount/transaction.go: `IsMainAuthentication`,
-- `IsSubAuthentication` and `IsAuthentication`; `none` is the panic on a nil recipient.
pub mod Kinds
use address_verification.Base.{
  ℕ, ◌*◌, ◌+◌, List, [], ◌∷◌, Option, none, some, Bool, true, false, not, leb, ◌==◌, if◌then◌else◌,
  Bytes, length, take,
}
use address_verification.Account.Transaction.{TxData, Transaction}

-- `bytes.Compare(a, b) == 0`.
unfoldable pub bytes_equal : Bytes → Bytes → Bool
bytes_equal [] [] = true
bytes_equal [] (y ∷ ys) = false
bytes_equal (x ∷ xs) [] = false
bytes_equal (x ∷ xs) (y ∷ ys) = let rest = bytes_equal xs ys in if x == y then rest else false

-- `matches` is `strings.EqualFold(to.Hex(), common.AuthenticationContractAddressString)`.
unfoldable pub is_contract : {A : Type 0} → (A → Bool) → Option A → Option Bool
is_contract matches none = none
is_contract matches (some to) = some (if not (matches to) then false else true)

-- The three functions differ in the words the payload must exceed and in the method's tag.
module _ {A H : Type 0} (matches : A → Bool) (tx : Transaction A H) where
  unfoldable pub has_form : ℕ → Bytes → Option Bool
  unfolding bytes_equal is_contract
  has_form words tag =
      if leb (length tx.data_of.payload) (4 + 32 * words)
      then some false
      else if not (bytes_equal (take 4 tx.data_of.payload) tag)
      then some false
      else is_contract matches tx.data_of.recipient

  unfoldable pub is_main_authentication : Option Bool
  unfolding has_form
  is_main_authentication = has_form 30 (16 ∷ 201 ∷ 86 ∷ 234 ∷ [])

  unfoldable pub is_sub_authentication : Option Bool
  unfolding has_form
  is_sub_authentication = has_form 30 (202 ∷ 204 ∷ 147 ∷ 76 ∷ [])

  unfoldable pub is_authentication : Option Bool
  unfolding has_form
  is_authentication = has_form 10 (253 ∷ 240 ∷ 63 ∷ 134 ∷ [])
