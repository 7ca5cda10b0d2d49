-- ===== src/Account/Wallets.antt =====
-- `refreshWallets` of ABaccount/keystore.go, which merges the list of wallets with the accounts of the
-- cache. Accounts, URLs and wallets stand outside the repository and are parameters.
pub mod Refresh
pub mod Numbers
mod Tests
use address_verification.Base.{List, [], ◌∷◌, ◌++◌, map, Option, Bool, true, false, if◌then◌else◌}
use Prim.Native.Nat.{Ordering}

-- What the function calls of accounts `A` and wallets `W`: `account.URL` and `wallet.URL()` with
-- `Cmp`, `wallet.Accounts()[0]` with `==`, and `&keystoreWallet{account: account, keystore: ks}`.
pub record WalletApi (A U W : Type 0) : Type 0 where
  pub account_url : A → U
  pub wallet_url : W → U
  pub cmp : U → U → Ordering
  pub first_account : W → A
  pub same_account : A → A → Bool
  pub wrap : A → W

-- `accounts.WalletEvent`.
pub data WalletEvent (W : Type 0) : Type 0 where
  arrived : W → WalletEvent W
  dropped : W → WalletEvent W

-- The wallets afterwards and the events, in order.
abbrev pub Refreshed : Type 0 → Type 0
Refreshed W = List W × List (WalletEvent W)

abbrev pub is_lt : Ordering → Bool
is_lt Ordering.lt = true
is_lt _ = false

-- The events of the wallets that are dropped come first.
abbrev pub announce : {W : Type 0} → List W → Refreshed W → Refreshed W
announce front (wallets, events) = (wallets, map dropped front ++ events)

module _ {A U W : Type 0} (api : WalletApi A U W) where
  -- The wallets in front of an account, which are dropped, and the others.
  unfoldable pub drop_front : A → List W → List W × List W
  drop_front account [] = ([], [])
  drop_front account (w ∷ ws) =
      let (front, rest) = drop_front account ws in
      if is_lt (api.cmp (api.wallet_url w) (api.account_url account))
      then (w ∷ front, rest)
      else ([], w ∷ ws)

  -- A new wallet for the account, in front of what comes of the other accounts.
  abbrev pub arrive : A → Refreshed W → Refreshed W
  arrive account (wallets, events) =
      (api.wrap account ∷ wallets, arrived (api.wrap account) ∷ events)

  -- One round behind the dropping: `go` are the rounds for the other accounts.
  unfoldable pub match_account : A → (List W → Refreshed W) → List W → Refreshed W
  match_account account go [] = arrive account (go [])
  match_account account go (w ∷ ws) =
      let kept : Refreshed W = (w ∷ (go ws).0, (go ws).1) in
      let skipped = go (w ∷ ws) in
      elim (api.cmp (api.wallet_url w) (api.account_url account)) [
        | Ordering.gt ↦ arrive account (go (w ∷ ws))
        | _ ↦ if api.same_account (api.first_account w) account then kept else skipped
      ]

  unfoldable pub refresh_wallets : List A → List W → Refreshed W
  refresh_wallets [] ws = ([], map dropped ws)
  refresh_wallets (account ∷ accounts) ws =
      let (front, rest) = drop_front account ws in
      announce front (match_account account (refresh_wallets accounts) rest)
