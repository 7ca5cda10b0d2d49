-- ===== src/Account/Directory/Events.antt =====
-- The events that the store sends tell how its list of wallets changes, and an error changes none.
use address_verification.Base.{ℕ, ◌+◌, ◌≡◌, refl, ap, ◌∙◌, List, [], ◌∷◌, ◌++◌, arith}
use address_verification.Base.Outcome.{Outcome, ok, err}
use address_verification.Account.Wallets.{WalletEvent}
use address_verification.Account.Wallets.Refresh.{weigh, arrivals, departures}
use address_verification.Account.Directory.{Directory, Act, ◌>>=◌, go_on}

module _ {W : Type 0} where
  pub arrivals-append :
      (f : W → ℕ) (l m : List (WalletEvent W)) → arrivals f (l ++ m) ≡ arrivals f l + arrivals f m
  arrivals-append f [] m = omega arith
  arrivals-append f (WalletEvent.arrived w ∷ l) m = omega (arith, arrivals-append f l m)
  arrivals-append f (WalletEvent.dropped w ∷ l) m = arrivals-append f l m

  pub departures-append :
      (f : W → ℕ) (l m : List (WalletEvent W))
      → departures f (l ++ m) ≡ departures f l + departures f m
  departures-append f [] m = omega arith
  departures-append f (WalletEvent.arrived w ∷ l) m = departures-append f l m
  departures-append f (WalletEvent.dropped w ∷ l) m = omega (arith, departures-append f l m)

module _ {S W : Type 0} where
  -- Between two stores, the wallets change as the events sent say, however they are counted.
  abbrev pub Accounted : Directory S W → Directory S W → Type 0
  Accounted d t =
      (f : W → ℕ)
      → weigh f t.wallets + departures f t.sent + arrivals f d.sent
        ≡ weigh f d.wallets + departures f d.sent + arrivals f t.sent

  -- Neither wallets nor events.
  pub record Quiet (d t : Directory S W) : Type 0 where
    pub wallets_lem : t.wallets ≡ d.wallets
    pub sent_lem : t.sent ≡ d.sent

  module _ {E : Type 0} where
    abbrev pub IsAccounted : {B : Type 0} → Act E (Directory S W) B → Type 0
    IsAccounted m = (d : Directory S W) → Accounted d (m d).1

    pub >>=-IsAccounted :
        {B C : Type 0} (m : Act E (Directory S W) B) (f : B → Act E (Directory S W) C)
        → IsAccounted m
        → ((b : B) → IsAccounted (f b))
        → IsAccounted (m >>= f)
    >>=-IsAccounted {B = B} {C = C} m f hm hf d = go (m d).0 (m d).1 (hm d)
      where
        go : (o : Outcome E B) (t : Directory S W) → Accounted d t → Accounted d (go_on f o t).1
        go (ok b) t h = λ g. omega (arith, h g, hf b t g)
        go (err e) t h = h
        go Outcome.panic t h = h

    -- A call that fails changes neither wallets nor events.
    abbrev pub FailsQuietly : {B : Type 0} → Act E (Directory S W) B → Type 0
    FailsQuietly m = (d : Directory S W) (e : E) → (m d).0 ≡ err e → Quiet d (m d).1

    abbrev pub IsQuiet : {B : Type 0} → Act E (Directory S W) B → Type 0
    IsQuiet m = (d : Directory S W) → Quiet d (m d).1

    pub >>=-FailsQuietly :
        {B C : Type 0} (m : Act E (Directory S W) B) (f : B → Act E (Directory S W) C)
        → IsQuiet m
        → ((b : B) → FailsQuietly (f b))
        → FailsQuietly (m >>= f)
    >>=-FailsQuietly {B = B} {C = C} m f hm hf d e = go (m d).0 (m d).1 (hm d)
      where
        go :
            (o : Outcome E B) (t : Directory S W)
            → Quiet d t
            → (go_on f o t).0 ≡ err e
            → Quiet d (go_on f o t).1
        go (ok b) t h failed =
            let late = hf b t e failed in
            record {
              wallets_lem = late.wallets_lem ∙ h.wallets_lem;
              sent_lem = late.sent_lem ∙ h.sent_lem;
            }
        go (err e) t h failed = h
        go Outcome.panic t h failed = h

    pub >>=-IsQuiet :
        {B C : Type 0} (m : Act E (Directory S W) B) (f : B → Act E (Directory S W) C)
        → IsQuiet m
        → ((b : B) → IsQuiet (f b))
        → IsQuiet (m >>= f)
    >>=-IsQuiet {B = B} {C = C} m f hm hf d = go (m d).0 (m d).1 (hm d)
      where
        go : (o : Outcome E B) (t : Directory S W) → Quiet d t → Quiet d (go_on f o t).1
        go (ok b) t h =
            let late = hf b t in
            record {
              wallets_lem = late.wallets_lem ∙ h.wallets_lem;
              sent_lem = late.sent_lem ∙ h.sent_lem;
            }
        go (err e) t h = h
        go Outcome.panic t h = h

  -- A call changes only what is outside.
  pub called : (d : Directory S W) (after : S) → Quiet d (record d { outside = after })
  called d after = record { wallets_lem = refl; sent_lem = refl }

  pub Quiet-Accounted : {d t : Directory S W} → Quiet d t → Accounted d t
  Quiet-Accounted {d} {t} h f =
      omega (
        arith,
        ap (weigh f) h.wallets_lem,
        ap (departures f) h.sent_lem,
        ap (arrivals f) h.sent_lem,
      )
