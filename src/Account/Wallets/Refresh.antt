-- ===== src/Account/Wallets/Refresh.antt =====
-- What the wallets are after `refreshWallets`, and what its events say.
use mathlib.Core.Bool.{true≢false}
use address_verification.Base.{
  ℕ, ◌+◌, ◌≡◌, ◌⊎◌, ◌↔◌, ap₂, refl, sym, ap, ◌∙◌, List, [], ◌∷◌, ◌++◌, map, true, false, Bool-cases,
  inl, inr, All, arith,
}
use Prim.Native.Nat.{Ordering}
use address_verification.Account.Wallets.{
  WalletApi, WalletEvent, dropped, Refreshed, is_lt, drop_front, match_account, announce,
  refresh_wallets,
}

-- The wallets that events announce and drop.
module _ {W : Type 0} where
  abbrev pub weigh : (W → ℕ) → List W → ℕ
  weigh f [] = 0
  weigh f (w ∷ ws) = f w + weigh f ws

  abbrev pub arrivals : (W → ℕ) → List (WalletEvent W) → ℕ
  arrivals f [] = 0
  arrivals f (WalletEvent.arrived w ∷ events) = f w + arrivals f events
  arrivals f (WalletEvent.dropped w ∷ events) = arrivals f events

  abbrev pub departures : (W → ℕ) → List (WalletEvent W) → ℕ
  departures f [] = 0
  departures f (WalletEvent.arrived w ∷ events) = departures f events
  departures f (WalletEvent.dropped w ∷ events) = f w + departures f events

  departures_dropped :
      (f : W → ℕ) (front : List W) (events : List (WalletEvent W))
      → departures f (map dropped front ++ events) ≡ weigh f front + departures f events
  departures_dropped f [] events = omega arith
  departures_dropped f (w ∷ front) events = omega (arith, departures_dropped f front events)

  arrivals_dropped :
      (f : W → ℕ) (front : List W) (events : List (WalletEvent W))
      → arrivals f (map dropped front ++ events) ≡ arrivals f events
  arrivals_dropped f [] events = refl
  arrivals_dropped f (w ∷ front) events = arrivals_dropped f front events

Ordering-cases : (o : Ordering) → (o ≡ Ordering.lt) ⊎ ((o ≡ Ordering.eq) ⊎ (o ≡ Ordering.gt))
Ordering-cases Ordering.lt = inl refl
Ordering-cases Ordering.eq = inr (inl refl)
Ordering-cases Ordering.gt = inr (inr refl)

module _ {A U W : Type 0} (api : WalletApi A U W) where
  weigh-drop_front :
      (f : W → ℕ) (account : A) (ws : List W)
      → weigh f (drop_front api account ws).0 + weigh f (drop_front api account ws).1 ≡ weigh f ws
  unfolding drop_front
  weigh-drop_front f account [] = refl
  weigh-drop_front f account (w ∷ ws) = ground (arith, weigh-drop_front f account ws)

  -- The books are balanced: wallets afterwards and dropped are those before and arrived.
  Balanced : (W → ℕ) → List W → Refreshed W → Type 0
  Balanced f ws (wallets, events) =
      weigh f wallets + departures f events ≡ weigh f ws + arrivals f events

  match_account-Balanced :
      (f : W → ℕ) (account : A) (go : List W → Refreshed W) (ws : List W)
      → ((l : List W) → Balanced f l (go l))
      → Balanced f ws (match_account api account go ws)
  unfolding match_account Balanced
  match_account-Balanced f account go [] h = omega (arith, h [])
  match_account-Balanced f account go (w ∷ ws) h = ground (arith, h ws, h (w ∷ ws))

  announce-Balanced :
      (f : W → ℕ) (front rest ws : List W) (r : Refreshed W)
      → weigh f front + weigh f rest ≡ weigh f ws
      → Balanced f rest r
      → Balanced f ws (announce front r)
  unfolding Balanced
  announce-Balanced f front rest ws (wallets, events) e h =
      omega (arith, departures_dropped f front events, arrivals_dropped f front events)

  leftover : (f : W → ℕ) (ws : List W) → Balanced f ws ([], map dropped ws)
  unfolding Balanced
  leftover f [] = refl
  leftover f (w ∷ ws) = omega (arith, leftover f ws)

  -- Each wallet before or announced is a wallet afterwards or dropped, as often: however wallets are
  -- counted, the sums agree.
  pub refresh_wallets-balance :
      (f : W → ℕ) (accounts : List A) (ws : List W)
      → weigh f (refresh_wallets api accounts ws).0
          + departures f (refresh_wallets api accounts ws).1
        ≡ weigh f ws + arrivals f (refresh_wallets api accounts ws).1
  unfolding refresh_wallets Balanced
  refresh_wallets-balance f [] ws = leftover f ws
  refresh_wallets-balance f (account ∷ accounts) ws =
      announce-Balanced f (drop_front api account ws).0 (drop_front api account ws).1 ws _
        (weigh-drop_front f account ws)
        (match_account-Balanced f account (refresh_wallets api accounts)
          (drop_front api account ws).1 (λ l. refresh_wallets-balance f accounts l))

  -- A wallet whose URL compares equal to an account's is a wallet of the account.
  abbrev pub Agrees : List A → W → Type 0
  Agrees accounts w =
      All
        (λ account.
          api.cmp (api.wallet_url w) (api.account_url account) ≡ Ordering.eq
          → api.first_account w ≡ account)
        accounts

  All-tails :
      (account : A) (accounts : List A) (ws : List W)
      → All (Agrees (account ∷ accounts)) ws
      → All (Agrees accounts) ws
  All-tails account accounts [] _ = tt
  All-tails account accounts (w ∷ ws) ((_, h), hs) = (h, All-tails account accounts ws hs)

  All-drop_front :
      (P : W → Type 0) (account : A) (ws : List W) → All P ws → All P (drop_front api account ws).1
  unfolding drop_front
  All-drop_front P account [] h = tt
  All-drop_front P account (w ∷ ws) (hw, h) =
      elim (Bool-cases (is_lt (api.cmp (api.wallet_url w) (api.account_url account)))) [
        | inl e ↦ rw e (All-drop_front P account ws h)
        | inr e ↦ rw e (hw, h)
      ]

  -- The first wallet left, if any, is not in front of the account.
  abbrev NotFirst : A → List W → Type 0
  NotFirst account [] = Unit
  NotFirst account (w ∷ ws) = is_lt (api.cmp (api.wallet_url w) (api.account_url account)) ≡ false

  drop_front-NotFirst : (account : A) (ws : List W) → NotFirst account (drop_front api account ws).1
  unfolding drop_front
  drop_front-NotFirst account [] = tt
  drop_front-NotFirst account (w ∷ ws) =
      elim (Bool-cases (is_lt (api.cmp (api.wallet_url w) (api.account_url account)))) [
        | inl e ↦ rw e (drop_front-NotFirst account ws)
        | inr e ↦ rw e e
      ]

  module _ (wrap_lem : (a : A) → api.first_account (api.wrap a) ≡ a)
      (same_iff : (a b : A) → (api.same_account a b ≡ true) ↔ (a ≡ b)) where
    match_account-accounts :
        (account : A) (accounts : List A) (go : List W → Refreshed W) (ws : List W)
        → NotFirst account ws
        → All (Agrees (account ∷ accounts)) ws
        → ((l : List W) → All (Agrees accounts) l → map api.first_account (go l).0 ≡ accounts)
        → map api.first_account (match_account api account go ws).0 ≡ account ∷ accounts
    unfolding match_account
    match_account-accounts account accounts go [] first agrees h =
        ap₂ (λ a rest. a ∷ rest) (wrap_lem account) (h [] tt)
    match_account-accounts account accounts go (w ∷ ws) first ((agree, agrees_w), agrees) h =
        let others : All (Agrees accounts) ws = All-tails account accounts ws agrees in
        elim (Ordering-cases (api.cmp (api.wallet_url w) (api.account_url account))) [
          | inl e ↦ absurd (true≢false (sym (ap is_lt e) ∙ first))
          | inr (inl e) ↦
              rw (e, (same_iff _ _).1 (agree e), match_account)
                (ap₂ (λ a rest. a ∷ rest) (agree e) (h ws others))
          | inr (inr e) ↦
              rw (e, match_account)
                (ap₂ (λ a rest. a ∷ rest) (wrap_lem account) (h (w ∷ ws) (agrees_w, others)))
        ]

    -- Where a wallet whose URL is an account's is a wallet of the account, there is one wallet for each
    -- account afterwards, in the order of the accounts.
    pub refresh_wallets-accounts :
        (accounts : List A) (ws : List W)
        → All (Agrees accounts) ws
        → map api.first_account (refresh_wallets api accounts ws).0 ≡ accounts
    unfolding refresh_wallets
    refresh_wallets-accounts [] ws h = refl
    refresh_wallets-accounts (account ∷ accounts) ws h =
        match_account-accounts account accounts (refresh_wallets api accounts)
          (drop_front api account ws).1 (drop_front-NotFirst account ws)
          (All-drop_front (Agrees (account ∷ accounts)) account ws h)
          (λ l. refresh_wallets-accounts accounts l)

    -- A wallet's URL is that of its account.
    module _
        (url_lem : (w : W)
          → api.cmp (api.wallet_url w) (api.account_url (api.first_account w)) ≡ Ordering.eq) where
      settled_step :
          (w : W) (ws : List W) (go : List W → Refreshed W)
          → match_account api (api.first_account w) go (w ∷ ws) ≡ (w ∷ (go ws).0, (go ws).1)
      unfolding match_account
      settled_step w ws go = rw (url_lem w, (same_iff _ _).1 refl, match_account) refl

      settled_front :
          (w : W) (ws : List W) → drop_front api (api.first_account w) (w ∷ ws) ≡ ([], w ∷ ws)
      unfolding drop_front
      settled_front w ws = rw (url_lem w, drop_front) refl

      settled : (ws : List W) → refresh_wallets api (map api.first_account ws) ws ≡ (ws, [])
      unfolding refresh_wallets
      settled [] = refl
      settled (w ∷ ws) = rw (settled_front w ws, settled_step w ws, settled ws) refl

      -- Under the same condition, and where a wallet's URL is its account's, a second call with the
      -- same accounts changes no wallet and sends no event.
      pub refresh_wallets-again :
          (accounts : List A) (ws : List W)
          → All (Agrees accounts) ws
          → refresh_wallets api accounts (refresh_wallets api accounts ws).0
            ≡ ((refresh_wallets api accounts ws).0, [])
      refresh_wallets-again accounts ws h =
          let after = (refresh_wallets api accounts ws).0 in
          ap (λ l. refresh_wallets api l after) (sym (refresh_wallets-accounts accounts ws h))
          ∙ settled after
