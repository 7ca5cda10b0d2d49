-- ===== src/Sssa/Threshold.antt =====
-- The servers' checks of sssa/threshold.go and the routing of sssa/msgpacker.go: `expontUint16`,
-- `Checkshares`, `CountSharesPart` and `GetDestNode`. The curve is a parameter: `add` is
-- `crypto.S256().Add`, and `public_of` is the public key that `generatePrivKey` computes.
pub mod Feldman
pub mod Words
pub mod Sums
mod Tests
use address_verification.Base.{
  ℕ, zero, suc, ◌+◌, ◌-◌, ◌*◌, ◌%◌, ◌^◌, List, [], ◌∷◌, ◌++◌, map, Option, none, some, Bool, true,
  false, not, ◌&&◌, ltb, ◌==◌, if◌then◌else◌, Bytes, length, take, drop,
}
use address_verification.Base.Int.{ℤ, pos, negsuc, ◌+ℤ◌, ltb_ℤ}
use address_verification.Sssa.Base64.{to_base64, from_base64}
use address_verification.Sssa.Combine.{Point}

-- The loop of `expontUint16`, in a `uint16`.
unfoldable pub expont_loop : ℕ → ℕ → ℕ → ℕ
expont_loop zero x z = z
expont_loop (suc count) x z = expont_loop count x (z * x % 2 ^ 16)

unfoldable pub expont_uint16 : ℕ → ℕ → ℕ
expont_uint16 x y = expont_loop (y - 1) x x

-- `Add` of the same point `count` times.
unfoldable pub add_times : {P : Type 0} → (P → P → P) → ℕ → P → P → P
add_times add zero p q = p
add_times add (suc count) p q = add_times add count (add p q) q

-- The loop of `Checkshares` over the points from number j on.
unfoldable pub pub_sum_loop : {P : Type 0} → (P → P → P) → ℕ → ℕ → List P → P → P
pub_sum_loop add server_id j [] sum = sum
pub_sum_loop add server_id j (p ∷ ps) sum =
    pub_sum_loop add server_id (j + 1) ps (add_times add (expont_uint16 server_id j) sum p)

-- The sum that `Checkshares` compares, `none` where its coordinates are nil.
unfoldable pub pub_sum : {P : Type 0} → (P → P → P) → ℕ → List P → Option P
pub_sum add server_id [] = none
pub_sum add server_id (p ∷ ps) = some (pub_sum_loop add server_id 1 ps p)

-- A point of a message.
abbrev pub polynomial_point : Bytes × Bytes → Point
polynomial_point (x, y) = (from_base64 x, from_base64 y)

-- `Cmp` gives 0.
unfoldable pub same_ℤ : ℤ → ℤ → Bool
same_ℤ a b = not (ltb_ℤ a b) && not (ltb_ℤ b a)

unfoldable pub same_point : Point → Point → Bool
unfolding same_ℤ
same_point (x, y) (x₁, y₁) = same_ℤ x x₁ && same_ℤ y y₁

-- An assignment to a slice, `none` out of range.
unfoldable pub set_at : {A : Type 0} → List A → ℕ → A → Option (List A)
set_at [] i a = none
set_at (x ∷ xs) zero a = some (a ∷ xs)
set_at (x ∷ xs) (suc i) a = elim (set_at xs i a) [ none ↦ none | some ys ↦ some (x ∷ ys) ]

-- The answer, which the function prints, and `Sharespart` with the new share, which is stored
-- whatever the answer is; `none` for a panic.
unfoldable pub store_share : Bool → List (Option ℤ) → ℕ → ℤ → Option (Bool × List (Option ℤ))
store_share legal shares_part sender_id point_y =
    elim (set_at shares_part ((sender_id + (2 ^ 16 - 1)) % 2 ^ 16) (some point_y)) [
      | none ↦ none
      | some stored ↦ some (legal, stored)
    ]

unfoldable pub check_shares :
    (Point → Point → Point)
    → (ℤ → Point)
    → List (Bytes × Bytes)
    → Bytes
    → ℕ
    → ℕ
    → List (Option ℤ)
    → Option (Bool × List (Option ℤ))
unfolding pub_sum
check_shares add public_of polynomial point_y server_id sender_id shares_part =
    let y = from_base64 point_y in
    elim (pub_sum add server_id (map polynomial_point polynomial)) [
      | none ↦ none
      | some sum ↦ store_share (same_point sum (public_of y)) shares_part sender_id y
    ]

-- The sum of `Sharespart`, which panics on a share that is missing.
unfoldable pub share_sum : List (Option ℤ) → ℤ → Option ℤ
share_sum [] sum = some sum
share_sum (none ∷ shares) sum = none
share_sum (some share ∷ shares) sum = share_sum shares (sum +ℤ share)

-- `CountSharesPart`: the share that it prints.
unfoldable pub count_shares_part : ℕ → List (Option ℤ) → Option Bytes
unfolding share_sum
count_shares_part id shares_part = elim (share_sum shares_part (pos 0)) [
  | none ↦ none
  | some sum ↦ some (to_base64 (pos id) ++ to_base64 sum)
]

-- `GetDestNode`: the id and the port of the next server, in `uint16`.
unfoldable pub get_dest_node : ℕ → ℕ → ℕ × ℕ
get_dest_node port local_id =
    if local_id == 2 then (1, 9001) else ((local_id + 1) % 2 ^ 16, (port + 1) % 2 ^ 16)
