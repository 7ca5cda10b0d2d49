-- ===== src/Account/Wallets/Tests.antt =====
-- Wallets that are numbers, for the accounts of the same numbers.

use address_verification.Base.{◌≡◌, refl, [], ◌∷◌, map, ==_iff, All}
use address_verification.Account.Wallets.{
  arrived, dropped, refresh_wallets, drop_front, match_account,
}
use address_verification.Account.Wallets.Numbers.{numbers, compare_refl, compare_eq}
use address_verification.Account.Wallets.Refresh.{
  Agrees, refresh_wallets-accounts, refresh_wallets-again,
}

old_agree : All (Agrees numbers (2 ∷ 3 ∷ 5 ∷ [])) (1 ∷ 3 ∷ 7 ∷ [])
old_agree = (
  (compare_eq 1 2, (compare_eq 1 3, (compare_eq 1 5, tt))),
  (
    (compare_eq 3 2, (compare_eq 3 3, (compare_eq 3 5, tt))),
    ((compare_eq 7 2, (compare_eq 7 3, (compare_eq 7 5, tt))), tt),
  ),
)

-- Wallet 1 is dropped for account 2, 3 stays, 5 arrives and 7 is dropped at the end.
refreshed :
    refresh_wallets numbers (2 ∷ 3 ∷ 5 ∷ []) (1 ∷ 3 ∷ 7 ∷ [])
    ≡ (2 ∷ 3 ∷ 5 ∷ [], dropped 1 ∷ arrived 2 ∷ arrived 5 ∷ dropped 7 ∷ [])
unfolding refresh_wallets drop_front match_account
refreshed = refl

refresh_wallets-accounts_example :
    map (λ w. w) (refresh_wallets numbers (2 ∷ 3 ∷ 5 ∷ []) (1 ∷ 3 ∷ 7 ∷ [])).0 ≡ 2 ∷ 3 ∷ 5 ∷ []
refresh_wallets-accounts_example =
    refresh_wallets-accounts numbers (λ a. refl) ==_iff (2 ∷ 3 ∷ 5 ∷ []) (1 ∷ 3 ∷ 7 ∷ []) old_agree

refresh_wallets-again_example :
    refresh_wallets numbers
      (2 ∷ 3 ∷ 5 ∷ [])
      (refresh_wallets numbers (2 ∷ 3 ∷ 5 ∷ []) (1 ∷ 3 ∷ 7 ∷ [])).0
    ≡ ((refresh_wallets numbers (2 ∷ 3 ∷ 5 ∷ []) (1 ∷ 3 ∷ 7 ∷ [])).0, [])
refresh_wallets-again_example =
    refresh_wallets-again numbers (λ a. refl) ==_iff compare_refl (2 ∷ 3 ∷ 5 ∷ []) (1 ∷ 3 ∷ 7 ∷ [])
      old_agree
