-- ===== src/Committee/Match.antt =====
-- `CheckGetValidA1S1` of committee/pubshares.go: the search for two published shares that lead to a
-- main account. The curve, the scan for an account and the reading of an address are parameters.
pub mod Pairs
pub mod Loops
pub mod Found
pub mod Published
mod Tests
use address_verification.Base.{
  ℕ, zero, suc, ◌+◌, List, [], ◌∷◌, Option, none, some, Bool, true, false, ltb, if◌then◌else◌,
  Bytes,
}
use address_verification.Base.Outcome.{Outcome, ok, err}
use address_verification.Sssa.Combine.{Point}
use address_verification.Sssa.Pubs.{Curve, combine_ecdsa_pubs}
use address_verification.Sssa.Threshold.{same_point}
use address_verification.Committee.Message.{extract_pubshare}

-- The calls of `keystore` and `crypto` on keys `S`: `GeneratePKPairFromABaddress` of the decoded
-- text, `none` for an error, and `ScanPubSharesA1` of the combined key, whose coordinates the code
-- compares.
pub record Scanner (P S : Type 0) : Type 0 where
  pub curve : Curve P
  pub generate_pk_pair : Bytes → Option (Point × S)
  pub scan_pub_shares_a1 : Bytes → S → Point

-- What the loops do: they go on, return, or panic.
pub data Search : Type 0 where
  continues : Search
  returned : Bool → Search
  crashed : Search

-- What comes next is done when the loop goes on.
abbrev pub or_else : Search → Search → Search
or_else continues next = next
or_else (returned b) next = returned b
or_else crashed next = crashed

module _ {P S : Type 0} (scanner : Scanner P S) (a1 : Point) (s1 : S) where
  -- One pair of shares; an error is logged and the loop goes on.
  unfoldable pub check_pair : Bytes → Bytes → Search
  check_pair share share₁ = elim (combine_ecdsa_pubs scanner.curve (share ∷ share₁ ∷ [])) [
    | ok combined ↦
        if same_point a1 (scanner.scan_pub_shares_a1 combined s1) then returned true else continues
    | err _ ↦ continues
    | Outcome.panic ↦ crashed
  ]

  unfoldable pub check_second : Bytes → List Bytes → Search
  unfolding check_pair
  check_second share [] = continues
  check_second share (share₁ ∷ pub_set02) =
      or_else (check_pair share share₁) (check_second share pub_set02)

  unfoldable pub check_first : List Bytes → List Bytes → Search
  unfolding check_second
  check_first [] pub_set02 = continues
  check_first (share ∷ pub_set01) pub_set02 =
      or_else (check_second share pub_set02) (check_first pub_set01 pub_set02)

  unfoldable pub check_messages : Bytes → Bytes → Search
  unfolding check_first
  check_messages msg msg₁ = elim (extract_pubshare msg) [
    | none ↦ returned false
    | some pub_set01 ↦ elim (extract_pubshare msg₁) [
      | none ↦ returned false
      | some pub_set02 ↦ check_first pub_set01 pub_set02
    ]
  ]

  -- The loop over j, from number j on, for message i.
  unfoldable pub check_later : ℕ → Bytes → ℕ → List Bytes → Search
  unfolding check_messages
  check_later i msg j [] = continues
  check_later i msg j (msg₁ ∷ messages) =
      let rest = check_later i msg (j + 1) messages in
      if ltb i j then or_else (check_messages msg msg₁) rest else rest

  -- The loop over i, from number i on; `messages` are all of them.
  unfoldable pub check_all : ℕ → List Bytes → List Bytes → Search
  unfolding check_later
  check_all i messages [] = continues
  check_all i messages (msg ∷ rest) =
      or_else (check_later i msg 0 messages) (check_all (i + 1) messages rest)

-- The answer of a search that went through all pairs is false; `none` is a panic.
unfoldable pub answer : Search → Option Bool
answer continues = some false
answer (returned b) = some b
answer crashed = none

unfoldable pub check_get_valid_a1s1 :
    {P S : Type 0} → Scanner P S → (Bytes → List Bytes) → Bytes → Option Bool
unfolding check_all answer
check_get_valid_a1s1 scanner msg_map a1s1 = elim (scanner.generate_pk_pair a1s1) [
  | none ↦ some false
  | some (a1, s1) ↦ answer (check_all scanner a1 s1 0 (msg_map a1s1) (msg_map a1s1))
]
