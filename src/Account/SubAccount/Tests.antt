-- ===== src/Account/SubAccount/Tests.antt =====
-- A base address and ring signatures at concrete inputs.
use native.Mathlib.Nat.{pow-suc}
use address_verification.Base.{
  ℕ, zero, suc, ◌+◌, ◌*◌, ◌/◌, ◌%◌, ◌^◌, ◌<◌, ◌≡◌, ◌↔◌, refl, ◌∙◌, [], ◌∷◌, ◌++◌, Option, none,
  some, arith, Bytes, length, length-append,
}
use address_verification.Base.Outcome.{ok, err}
use address_verification.Account.Keystore.{
  Store, StoreError, empty_store, install, unlocked_key, update,
}
use address_verification.Account.SubAccount.{
  Point, generate_base_ab_address, RingApi, gen_ring_sign_data, gen_sub_ring_sign_data,
}
use address_verification.Account.SubAccount.BaseAddress.{generate_base_ab_address_iff}

-- The last bytes of a number, the first one in front.
abbrev big_endian : ℕ → ℕ → Bytes
big_endian n zero = []
big_endian n (suc size) = big_endian (n / 256) size ++ n % 256 ∷ []

abbrev read_from : ℕ → Bytes → ℕ
read_from n [] = n
read_from n (b ∷ l) = read_from (256 * n + b) l

read_from-append : (n : ℕ) (l : Bytes) (b : ℕ) → read_from n (l ++ b ∷ []) ≡ 256 * read_from n l + b
read_from-append n [] b = refl
read_from-append n (c ∷ l) b = read_from-append (256 * n + c) l b

shorter : (n size : ℕ) → n < 256 ^ suc size → n / 256 < 256 ^ size
shorter n size h = omega (arith, pow-suc 256 size)

length-big_endian : (n size : ℕ) → n < 256 ^ size → length (big_endian n size) ≡ size
length-big_endian n zero h = refl
length-big_endian n (suc size) h =
    length-append (big_endian (n / 256) size) (n % 256 ∷ [])
    ∙ omega (arith, length-big_endian (n / 256) size (shorter n size h))

big_endian_value : (n size : ℕ) → n < 256 ^ size → read_from 0 (big_endian n size) ≡ n
big_endian_value n zero h = omega arith
big_endian_value n (suc size) h =
    read_from-append 0 (big_endian (n / 256) size) (n % 256)
    ∙ omega (arith, big_endian_value (n / 256) size (shorter n size h))

abbrev even : Point
even = record { x = 77; y = 10 }

abbrev odd : Point
odd = record { x = 77; y = 11 }

generate_base_ab_address_iff_example :
    (generate_base_ab_address big_endian 66 even even
      ≡ generate_base_ab_address big_endian 66 even odd)
    ↔ ((even.x ≡ even.x) × (even.y % 2 ≡ odd.y % 2))
generate_base_ab_address_iff_example =
    generate_base_ab_address_iff big_endian length-big_endian (read_from 0) big_endian_value 66 even
      even odd (omega arith) (omega arith) (omega arith)

-- A signature that fails for sender 0, with texts 5 and 9.
abbrev failure : ℕ → Option ℕ
failure zero = some 3
failure (suc _) = none

abbrev rings : RingApi ℕ ℕ ℕ ℕ
rings = record {
  message = λ a. a;
  private_text = λ k. 5;
  one_time_pub_set = 9;
  gen_ring_sign_data = λ m k g. (k, g, failure m);
}

abbrev one_key : Store ℕ
one_key = install 1 6 0 empty_store

-- The failure that only one of them tells.
told : gen_ring_sign_data rings 1 0 one_key ≡ err (StoreError.failed 3)
unfolding gen_ring_sign_data unlocked_key install update
told = refl

untold : gen_sub_ring_sign_data rings 1 0 one_key ≡ ok (5, 9)
unfolding gen_sub_ring_sign_data unlocked_key install update
untold = refl
