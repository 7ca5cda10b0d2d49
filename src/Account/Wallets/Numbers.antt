-- ===== src/Account/Wallets/Numbers.antt =====
-- Wallets that are the numbers of their accounts, to run `refreshWallets` on.
use Prim.Native.Nat.compare
use Prim.Native.Nat.{Ordering, compare}
use address_verification.Base.{ℕ, ap, ◌∙◌, false, zero, suc, ◌≡◌, refl, Bool, true, ◌==◌, ==_iff}
use address_verification.Account.Wallets.{WalletApi}

abbrev pub numbers : WalletApi ℕ ℕ ℕ
numbers = record {
  account_url = λ a. a;
  wallet_url = λ w. w;
  cmp = compare;
  first_account = λ w. w;
  same_account = λ a b. a == b;
  wrap = λ a. a;
}

pub compare_refl : (n : ℕ) → compare n n ≡ Ordering.eq
compare_refl zero = refl
compare_refl (suc n) = compare.suc-suc n n ∙ compare_refl n

abbrev is_eq : Ordering → Bool
is_eq Ordering.eq = true
is_eq _ = false

pub compare_eq : (n m : ℕ) → compare n m ≡ Ordering.eq → n ≡ m
compare_eq n m e = (==_iff n m).0 (ap is_eq e)
