-- ===== src/Account/Directory/History.antt =====
-- Sequences of the store's operations: what a listener knows, and what a failure leaves.
use address_verification.Base.{
  ℕ, ◌+◌, ◌≡◌, refl, sym, List, [], ◌∷◌, Bool, true, false, if◌then◌else◌, Bytes, Option, arith,
}
use mathlib.Core.Path.{subst}
use address_verification.Base.Outcome.{Outcome, ok, err}
use address_verification.Account.Wallets.{WalletApi, refresh_wallets}
use address_verification.Account.Wallets.Refresh.{
  weigh, arrivals, departures, refresh_wallets-balance,
}
use address_verification.Account.Directory.{
  Outside, Directory, DirectoryError, already_exists, ◌>>=◌, ◌>>◌, pure, go_on, call, change, read,
  Op, refresh, wallets, has_address, find, get_decrypted_key, delete, add_account, new_account,
  new_ab_account, import_key, import, import_ecdsa, update, init, import_pre_sale_key,
}
use address_verification.Account.Directory.Events.{
  arrivals-append, departures-append, Accounted, Quiet, IsAccounted, >>=-IsAccounted, FailsQuietly,
  IsQuiet, >>=-FailsQuietly, >>=-IsQuiet, called, Quiet-Accounted,
}

-- The operations that change files, the cache or the wallets.
pub data Operation (A K P J E : Type 0) : Type 0 where
  list_wallets : Operation A K P J E
  makes : P → Operation A K P J E
  makes_sub : Outcome (DirectoryError E) (Bytes × Option K) → P → Operation A K P J E
  imports : J → P → P → Operation A K P J E
  imports_ecdsa : K → P → Operation A K P J E
  imports_pre_sale : J → P → Operation A K P J E
  updates : A → P → P → Operation A K P J E
  deletes : A → P → Operation A K P J E

module _ {S A U W K P J E : Type 0} (api : WalletApi A U W) (calls : Outside S A K P J E) where
  -- An operation, without what it returns.
  unfoldable pub perform : Operation A K P J E → Op api calls Unit
  perform Operation.list_wallets = do wallets api calls; pure tt
  perform (Operation.makes p) = do new_account api calls p; pure tt
  perform (Operation.makes_sub o p) = do new_ab_account api calls o p; pure tt
  perform (Operation.imports j p q) = do import api calls j p q; pure tt
  perform (Operation.imports_ecdsa k p) = do import_ecdsa api calls k p; pure tt
  perform (Operation.imports_pre_sale j p) = do import_pre_sale_key api calls j p; pure tt
  perform (Operation.updates a p q) = update api calls a p q
  perform (Operation.deletes a p) = delete api calls a p

  unfoldable pub perform_all : List (Operation A K P J E) → Directory S W → Directory S W
  perform_all [] d = d
  perform_all (op ∷ ops) d = perform_all ops (perform op d).1

  refresh-IsAccounted : IsAccounted (refresh api calls)
  unfolding refresh
  refresh-IsAccounted d f =
      let (found, _) = calls.cache_accounts d.outside in
      omega (
        arith,
        refresh_wallets-balance api f found d.wallets,
        departures-append f d.sent (refresh_wallets api found d.wallets).1,
        arrivals-append f d.sent (refresh_wallets api found d.wallets).1,
      )

  find-IsQuiet : (a : A) → IsQuiet (find api calls a)
  unfolding find
  find-IsQuiet a =
      >>=-IsQuiet (change calls.maybe_reload) (λ _. read (calls.cache_find a)) (λ d. called d _)
        (λ _ d. called d _)

  get_decrypted_key-IsQuiet : (a : A) (p : P) → IsQuiet (get_decrypted_key api calls a p)
  unfolding get_decrypted_key
  get_decrypted_key-IsQuiet a p = >>=-IsQuiet (find api calls a) _ (find-IsQuiet a) (λ found.
      >>=-IsQuiet (read (calls.get_key found p)) _ (λ d. called d _)
        (λ key d. record { wallets_lem = refl; sent_lem = refl }))

  -- What is proved of each operation.
  record Behaves {B : Type 0} (m : Op api calls B) : Type 0 where
    accounted : IsAccounted m
    fails : FailsQuietly m

  quiet : {B : Type 0} (m : Op api calls B) → IsQuiet m → Behaves m
  quiet m h = record { accounted = λ d. Quiet-Accounted (h d); fails = λ d e _. h d }

  after_quiet :
      {B C : Type 0} (m : Op api calls B) (f : B → Op api calls C)
      → IsQuiet m
      → ((b : B) → Behaves (f b))
      → Behaves (m >>= f)
  after_quiet m f h g = record {
    accounted = >>=-IsAccounted m f (λ d. Quiet-Accounted (h d)) (λ b. (g b).accounted);
    fails = >>=-FailsQuietly m f h (λ b. (g b).fails);
  }

  ok-ne-err : {B : Type 0} {b : B} {e : DirectoryError E} → ok b ≡ err e → ⊥
  ok-ne-err h = cc

  panic-ne-err :
      {B : Type 0} {e : DirectoryError E}
      → ◌≡◌ {A = Outcome (DirectoryError E) B} Outcome.panic (err e)
      → ⊥
  panic-ne-err h = cc

  refreshed : {B : Type 0} (b : B) → Behaves (do refresh api calls; pure b)
  unfolding refresh
  refreshed b = record {
    accounted =
        >>=-IsAccounted (refresh api calls) (λ _. pure b) refresh-IsAccounted (λ _ d f. refl);
    fails = λ d e failed. absurd (ok-ne-err failed);
  }

  refresh-Behaves : Behaves (refresh api calls)
  unfolding refresh
  refresh-Behaves = record {
    accounted = refresh-IsAccounted;
    fails = λ d e failed. absurd (ok-ne-err failed);
  }

  add_account-Behaves : (a : A) → Behaves (add_account api calls a)
  unfolding add_account
  add_account-Behaves a =
      after_quiet (change (calls.cache_add a)) _ (λ d. called d _) (λ _. refreshed a)

  import_key-Behaves : (key : K) (p : P) → Behaves (import_key api calls key p)
  unfolding import_key
  import_key-Behaves key p =
      after_quiet (call (λ s. (ok (calls.key_account key s), s))) _ (λ d. called d _)
        (λ a.
          after_quiet (call (calls.store_key a key p)) _ (λ d. called d _)
            (λ _. add_account-Behaves a))

  import_ecdsa-Behaves : (key : K) (p : P) → Behaves (import_ecdsa api calls key p)
  unfolding import_ecdsa has_address
  import_ecdsa-Behaves key p = after_quiet (has_address api calls key) _ (λ d. called d _) choose
    where
      choose :
          (exists : Bool)
          → Behaves (if exists then (λ d. (err already_exists, d)) else import_key api calls key p)
      choose true = quiet _ (λ d. record { wallets_lem = refl; sent_lem = refl })
      choose false = import_key-Behaves key p

  update-Behaves : (a : A) (p q : P) → Behaves (update api calls a p q)
  unfolding update
  update-Behaves a p q =
      after_quiet (get_decrypted_key api calls a p) _ (get_decrypted_key-IsQuiet a p)
        (λ (found, key). quiet (call (calls.store_key found key q)) (λ d. called d _))

  delete-Behaves : (a : A) (p : P) → Behaves (delete api calls a p)
  unfolding delete
  delete-Behaves a p =
      after_quiet (get_decrypted_key api calls a p) _ (get_decrypted_key-IsQuiet a p)
        (λ (found, key).
          after_quiet (call (calls.remove found)) _ (λ d. called d _)
            (λ _.
              after_quiet (change (calls.cache_delete found)) (λ _. refresh api calls)
                (λ d. called d _) (λ _. refresh-Behaves)))

  with_result : {B C : Type 0} (m : Op api calls B) (c : C) → Behaves m → Behaves (do m; pure c)
  with_result {B = B} m c h = record {
    accounted = >>=-IsAccounted m (λ _. pure c) h.accounted (λ _ d f. refl);
    fails = λ d e failed.
        let (same, kept) = go (m d).0 (m d).1 e failed in
        subst (Quiet d) (sym kept) (h.fails d e same);
  }
    where
      go :
          (o : Outcome (DirectoryError E) B) (t : Directory S W) (e : DirectoryError E)
          → (go_on (λ _. pure c) o t).0 ≡ err e
          → (o ≡ err e) × ((go_on (λ _. pure c) o t).1 ≡ t)
      go (ok b) t e failed = absurd (ok-ne-err failed)
      go (err e') t e failed = (cc, refl)
      go Outcome.panic t e failed = absurd (panic-ne-err failed)

  dropped_result : {B : Type 0} (m : Op api calls B) → Behaves m → Behaves (do m; pure tt)
  dropped_result m h = with_result m tt h

  wallets-Behaves : Behaves (wallets api calls)
  unfolding wallets refresh
  wallets-Behaves = record {
    accounted = refresh-IsAccounted;
    fails = λ d e failed. absurd (ok-ne-err failed);
  }

  new_ab_account-Behaves :
      (opened : Outcome (DirectoryError E) (Bytes × Option K)) (p : P)
      → Behaves (new_ab_account api calls opened p)
  unfolding new_ab_account
  new_ab_account-Behaves opened p =
      after_quiet (λ d. (opened, d)) _ (λ d. record { wallets_lem = refl; sent_lem = refl })
        (λ (base, key).
          after_quiet (call (calls.store_new_ab_key base key p)) _ (λ d. called d _)
            (λ (address, account).
              with_result (add_account api calls account) (account, address)
                (add_account-Behaves account)))

  perform-Behaves : (op : Operation A K P J E) → Behaves (perform op)
  unfolding perform new_account import import_pre_sale_key
  perform-Behaves Operation.list_wallets = dropped_result _ wallets-Behaves
  perform-Behaves (Operation.makes p) =
      dropped_result (new_account api calls p) (
        after_quiet (call (calls.store_new_key p)) _ (λ d. called d _) (λ a. add_account-Behaves a))
  perform-Behaves (Operation.makes_sub o p) =
      dropped_result (new_ab_account api calls o p) (new_ab_account-Behaves o p)
  perform-Behaves (Operation.imports j p q) = dropped_result (import api calls j p q) (
      after_quiet (read (λ s. calls.decrypt_key j p)) _ (λ d. called d _)
        (λ key. import_key-Behaves key q))
  perform-Behaves (Operation.imports_ecdsa k p) =
      dropped_result (import_ecdsa api calls k p) (import_ecdsa-Behaves k p)
  perform-Behaves (Operation.imports_pre_sale j p) =
      dropped_result (import_pre_sale_key api calls j p) (
        after_quiet (call (calls.import_pre_sale_key j p)) _ (λ d. called d _)
          (λ a. add_account-Behaves a))
  perform-Behaves (Operation.updates a p q) = update-Behaves a p q
  perform-Behaves (Operation.deletes a p) = delete-Behaves a p

  -- An operation that ends in an error leaves the wallets as they were, and sends no event.
  pub perform-error :
      (op : Operation A K P J E) (d : Directory S W) (e : DirectoryError E)
      → (perform op d).0 ≡ err e
      → ((perform op d).1.wallets ≡ d.wallets) × ((perform op d).1.sent ≡ d.sent)
  perform-error op d e failed =
      let quiet_after = (perform-Behaves op).fails d e failed in
      (quiet_after.wallets_lem, quiet_after.sent_lem)

  perform_all-Accounted :
      (ops : List (Operation A K P J E)) (d : Directory S W) → Accounted d (perform_all ops d)
  unfolding perform_all
  perform_all-Accounted [] d f = refl
  perform_all-Accounted (op ∷ ops) d f =
      omega
        (arith, (perform-Behaves op).accounted d f, perform_all-Accounted ops (perform op d).1 f)

  -- Whatever operations follow the start, with errors and panics or without: the wallets at the start
  -- with those that events have announced are the wallets now with those that events have dropped,
  -- however they are counted.
  pub perform_all-events :
      (f : W → ℕ) (ops : List (Operation A K P J E)) (s : S)
      → weigh f (perform_all ops (init api calls s)).wallets
          + departures f (perform_all ops (init api calls s)).sent
        ≡ weigh f (init api calls s).wallets + arrivals f (perform_all ops (init api calls s)).sent
  unfolding init
  perform_all-events f ops s =
      let history = perform_all-Accounted ops (init api calls s) f in omega (arith, history)
