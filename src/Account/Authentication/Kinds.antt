-- ===== src/Account/Authentication/Kinds.antt =====
-- The authentication tests of ABaccount/transaction.go against each other.
use address_verification.Base.{
  ℕ, ◌≡◌, ◌⊎◌, inl, inr, refl, ap, ap₂, ◌∙◌, [], ◌∷◌, some, Bool, true, false, arith, Bytes, take,
  Bool-cases,
}
use address_verification.Account.Transaction.{Transaction}
use address_verification.Account.Authentication.{
  bytes_equal, has_form, is_main_authentication, is_sub_authentication, is_authentication,
}

head-bytes_equal :
    (x y : ℕ) (xs ys : Bytes)
    → bytes_equal (x ∷ xs) (y ∷ ys) ≡ true
    → (x ≡ y) × (bytes_equal xs ys ≡ true)
unfolding bytes_equal
head-bytes_equal x y xs ys h = ground arith

bytes_equal_sound : (xs ys : Bytes) → bytes_equal xs ys ≡ true → xs ≡ ys
unfolding bytes_equal
bytes_equal_sound [] [] h = refl
bytes_equal_sound [] (y ∷ ys) h = absurd (ground arith)
bytes_equal_sound (x ∷ xs) [] h = absurd (ground arith)
bytes_equal_sound (x ∷ xs) (y ∷ ys) h =
    let (same, rest) = head-bytes_equal x y xs ys h in
    ap₂ (λ (a : ℕ) (b : Bytes). a ∷ b) same (bytes_equal_sound xs ys rest)

module _ {A H : Type 0} (matches : A → Bool) (tx : Transaction A H) where
  -- The method's tag of the payload.
  abbrev method : Bytes
  method = take 4 tx.data_of.payload

  has_form-other :
      (words : ℕ) (tag : Bytes)
      → bytes_equal method tag ≡ false
      → has_form matches tx words tag ≡ some false
  unfolding has_form
  has_form-other words tag h = ground arith

  -- A method that is one tag is not another.
  other_tag :
      (tag other : Bytes)
      → bytes_equal tag other ≡ false
      → bytes_equal method tag ≡ true
      → bytes_equal method other ≡ false
  other_tag tag other h same = ap (λ l. bytes_equal l other) (bytes_equal_sound method tag same) ∙ h

  -- The three tests exclude each other: of every transaction, two of them answer false or more, so
  -- that at most one accepts it, and at most one panics on a transaction without a recipient.
  pub authentication_kinds :
      let main = is_main_authentication matches tx in
      let sub = is_sub_authentication matches tx in
      let one_time = is_authentication matches tx in
      ((sub ≡ some false) × (one_time ≡ some false))
      ⊎ ((main ≡ some false) × (one_time ≡ some false))
      ⊎ ((main ≡ some false) × (sub ≡ some false))
  unfolding is_main_authentication is_sub_authentication is_authentication bytes_equal
  authentication_kinds =
      let main_tag = 16 ∷ 201 ∷ 86 ∷ 234 ∷ [] in
      let sub_tag = 202 ∷ 204 ∷ 147 ∷ 76 ∷ [] in
      let one_time_tag = 253 ∷ 240 ∷ 63 ∷ 134 ∷ [] in
      elim (Bool-cases (bytes_equal method main_tag)) [
        | inl e ↦ inl (
          has_form-other 30 sub_tag (other_tag main_tag sub_tag refl e),
          has_form-other 10 one_time_tag (other_tag main_tag one_time_tag refl e),
        )
        | inr main ↦ elim (Bool-cases (bytes_equal method sub_tag)) [
          | inl e ↦ inr (
              inl (
                has_form-other 30 main_tag main,
                has_form-other 10 one_time_tag (other_tag sub_tag one_time_tag refl e),
              ))
          | inr sub ↦ inr (inr (has_form-other 30 main_tag main, has_form-other 30 sub_tag sub))
        ]
      ]
