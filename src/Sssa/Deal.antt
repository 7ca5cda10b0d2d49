-- ===== src/Sssa/Deal.antt =====
-- `GenerateShares` and `HandleSubAccountVerifyRequest` of sssa/threshold.go, and the messages of
-- sssa/msgpacker.go between the servers. JSON and TCP are left out: a message is the record.
pub mod Run
pub mod Checked
use address_verification.Base.{
  ℕ, ◌+◌, ◌-◌, ◌%◌, ◌^◌, List, [], ◌∷◌, map, Bytes, Option, none, some, Bool, ltb, ◌==◌,
  if◌then◌else◌, length, get_elem?,
}
use address_verification.Sssa.Threshold.{check_shares, get_dest_node, polynomial_point}
use address_verification.Base.Int.{ℤ, pos}
use address_verification.Base.Outcome.{Outcome}
use address_verification.Sssa.Base64.{to_base64}
use address_verification.Sssa.Combine.{Point, Error, combine}
use address_verification.Sssa.Draw.{Draw, drawn, Gen}
use address_verification.Sssa.Create.{Created, create_from_int}

-- The call of `Combine`, whose result and error are printed.
abbrev pub unless_panicked : {A : Type 0} → Outcome Error Bytes → Draw A → Draw A
unless_panicked Outcome.panic next = Draw.panicked
unless_panicked _ next = next

-- The public keys of the coefficients, and the values for the servers. An error of
-- `CreateFromInt`, which is the first thing it tests for, is printed; the shares are then one empty
-- text, and there are no coefficients and no values.
unfoldable pub generate_shares : {P : Type 0} → (ℤ → P) → ℕ → ℕ → Gen (List P × List ℕ)
generate_shares public_of minimum shares draws = elim (create_from_int minimum shares draws) [
  | drawn created rest ↦
      unless_panicked (combine created.shares)
        (drawn (map (λ c. public_of (pos c)) created.polynomial, created.pointer) rest)
  | Draw.failed _ ↦ unless_panicked (combine ([] ∷ [])) (drawn ([], []) draws)
  | Draw.panicked ↦ Draw.panicked
  | Draw.starved ↦ Draw.starved
]

-- `Msg` of sssa/msgpacker.go.
pub record Msg : Type 0 where
  pub id : ℕ
  pub msg_type : ℕ
  pub point_y : Bytes
  pub polynomial : List (Bytes × Bytes)

abbrev pub threshold_share : ℕ
threshold_share = 1

abbrev pub sub_account_verify_msg : ℕ
sub_account_verify_msg = 2

-- A point in a message.
abbrev pub polynomial_msg : Point → Bytes × Bytes
polynomial_msg (x, y) = (to_base64 x, to_base64 y)

-- The messages that `SendPointer` and `SendVerifyMsg` send.
unfoldable pub send_pointer : ℕ → ℕ → List Point → Msg
send_pointer id point_y polynomial_pubs = record {
  id = id;
  msg_type = threshold_share;
  point_y = to_base64 (pos point_y);
  polynomial = map polynomial_msg polynomial_pubs;
}

unfoldable pub send_verify_msg : ℕ → Point → Msg
send_verify_msg id share_pub = record {
  id = id;
  msg_type = sub_account_verify_msg;
  point_y = [];
  polynomial = polynomial_msg share_pub ∷ [];
}

-- `ReadSelfshares`, which panics out of range; the index is a `uint16`.
unfoldable pub read_selfshares : ℕ → Option ℕ
read_selfshares id =
    get_elem?
      (27646706431576354862763997976979123833675891460098863751152354516728829835013
        ∷ 93792998194887213466057989092802005103117304829070988393567616332059420363258
        ∷ 64147200720881876645780995199936978519288733532402548996525294139476881251756 ∷ [])
      ((id + (2 ^ 16 - 1)) % 2 ^ 16)

-- `HandleSubAccountVerifyRequest`: the port and the message it sends, if any; the first server only
-- prints. The server's own point is computed and then overwritten.
unfoldable pub handle_sub_account_verify_request :
    List (Bytes × Bytes) → ℕ → ℕ → Option (Option (ℕ × Msg))
handle_sub_account_verify_request [] server_id server_port = none
handle_sub_account_verify_request (first ∷ _) server_id server_port =
    let (dest_id, dest_point) = get_dest_node server_port server_id in
    let sent = send_verify_msg dest_id (polynomial_point first) in
    let passed_on : Option (Option (ℕ × Msg)) = elim (read_selfshares server_id) [
      | none ↦ none
      | some _ ↦ some (some (dest_point, sent))
    ] in
    if server_id == 1 then some none else passed_on

-- What `DistributeMsg` does with a message: the verdict that is printed and `Sharespart`, or what is
-- sent on.
pub data Handled : Type 0 where
  checked : Bool → List (Option ℤ) → Handled
  passed : Option (ℕ × Msg) → Handled
  ignored : Handled

-- `DistributeMsg` of a message that parses; it prints the first two points of a share. `none` is a
-- panic.
unfoldable pub distribute_msg :
    (Point → Point → Point) → (ℤ → Point) → Msg → ℕ → ℕ → List (Option ℤ) → Option Handled
distribute_msg add public_of msg server_id server_port shares_part =
    let share : Option Handled =
      elim (check_shares add public_of msg.polynomial msg.point_y server_id msg.id shares_part) [
        | none ↦ none
        | some (legal, stored) ↦ some (checked legal stored)
      ] in
    let verify : Option Handled =
      elim (handle_sub_account_verify_request msg.polynomial server_id server_port) [
        | none ↦ none
        | some sent ↦ some (passed sent)
      ] in
    if msg.msg_type == threshold_share
    then if ltb (length msg.polynomial) 2 then none else share
    else if msg.msg_type == sub_account_verify_msg
    then verify
    else some ignored
