-- ===== src/Account/Directory/Listing.antt =====
-- The wallets after an operation of `KeyStore` in ABaccount/keystore.go whose calls of the cache and of
-- the key files succeed.
use mathlib.Core.Option.{none-ne-some}
use address_verification.Base.{
  ◌≡◌, ◌↔◌, refl, ap, ◌∙◌, List, map, Option, none, some, Bool, true, false, if◌then◌else◌, All,
  Bytes,
}
use address_verification.Base.Outcome.{Outcome, ok, err}
use address_verification.Account.Wallets.{WalletApi}
use address_verification.Account.Wallets.Refresh.{Agrees, refresh_wallets-accounts}
use address_verification.Account.Directory.{
  Outside, Directory, DirectoryError, already_exists, ◌>>=◌, ◌>>◌, pure, go_on, call, change, Op,
  refresh, wallets, has_address, find, get_decrypted_key, delete, add_account, new_account,
  new_ab_account, import_key, import, import_ecdsa, import_pre_sale_key,
}
use address_verification.Account.Directory.History.{Operation, perform}

-- A call of what is outside that is to succeed, and what follows it.
abbrev after : {S E B : Type 0} → (S → Outcome E B × S) → (B → S → Option S) → S → Option S
after act f s = let (outcome, t) = act s in elim outcome [ ok b ↦ f b t | _ ↦ none ]

module _ {S A U W : Type 0} (api : WalletApi A U W) where
  -- The accounts that have a wallet.
  abbrev pub listed : Directory S W → List A
  listed d = map api.first_account d.wallets

module _ {S A U W K P J E : Type 0} (api : WalletApi A U W) (calls : Outside S A K P J E) where
  -- A key file that is written, and its account in the cache.
  abbrev stored : K → P → S → Option S
  stored key p s =
      let a = calls.key_account key s in
      after (calls.store_key a key p) (λ _ t. some (calls.cache_add a t)) s

  -- A key file that is removed, and its account from the cache.
  abbrev removed : A → S → Option S
  removed found = after (calls.remove found) (λ _ t. some (calls.cache_delete found t))

  -- What is outside once an operation has changed the key files and the cache, where all its calls
  -- succeed and the wallets are to be refreshed.
  unfoldable pub settled : Operation A K P J E → S → Option S
  settled Operation.list_wallets s = some s
  settled (Operation.makes p) s =
      after (calls.store_new_key p) (λ a t. some (calls.cache_add a t)) s
  settled (Operation.makes_sub (ok (base, key)) p) s =
      after (calls.store_new_ab_key base key p) (λ made t. some (calls.cache_add made.1 t)) s
  settled (Operation.makes_sub _ p) s = none
  settled (Operation.imports j p q) s =
      after (λ t. (calls.decrypt_key j p, t)) (λ key. stored key q) s
  settled (Operation.imports_ecdsa key p) s =
      let (exists, t) = calls.has_address key s in if exists then none else stored key p t
  settled (Operation.imports_pre_sale j p) s =
      after (calls.import_pre_sale_key j p) (λ a t. some (calls.cache_add a t)) s
  settled (Operation.updates a p q) s = none
  settled (Operation.deletes a p) s =
      after (λ t. (calls.cache_find a t, t))
        (λ found. after (λ t. (calls.get_key found p t, t)) (λ _. removed found))
        (calls.maybe_reload s)

  some_inj : {a b : S} → some a ≡ some b → a ≡ b
  some_inj h = cc

  -- An operation that succeeds and ends by refreshing the wallets, with this outside.
  abbrev Ends : {B : Type 0} → Op api calls B → (S → Option S) → Type 0
  Ends {B} m f =
      (d : Directory S W) (t : S)
      → f d.outside ≡ some t
      → (b : B) × (m d ≡ (ok b, (refresh api calls (record d { outside = t })).1))

  call-Ends :
      {B C : Type 0} (act : S → Outcome E B × S) (k : B → Op api calls C) (f : B → S → Option S)
      → ((b : B) → Ends (k b) (f b))
      → Ends (call act >>= k) (after act f)
  call-Ends {B} {C} act k f h d t e = go (act d.outside).0 (act d.outside).1 e
    where
      go :
          (o : Outcome E B) (s : S)
          → after (λ (_ : S). (o, s)) f d.outside ≡ some t
          → (c : C) × (((call (λ (_ : S). (o, s)) >>= k) d)
              ≡ (ok c, (refresh api calls (record d { outside = t })).1))
      go (ok b) s e = h b (record d { outside = s }) t e
      go (err x) s e = absurd (none-ne-some t e)
      go Outcome.panic s e = absurd (none-ne-some t e)

  with_result-Ends :
      {B C : Type 0} (m : Op api calls B) (c : B → C) (f : S → Option S)
      → Ends m f
      → Ends (m >>= λ b. pure (c b)) f
  with_result-Ends m c f h d t e =
      let (b, run) = h d t e in
      (
        c b,
        ap (λ (r : Outcome (DirectoryError E) _ × Directory S W). go_on (λ b. pure (c b)) r.0 r.1)
            run,
      )

  wallets-Ends : Ends (wallets api calls) some
  unfolding wallets refresh
  wallets-Ends d t e =
      let end : S → Directory S W = λ s. (refresh api calls (record d { outside = s })).1 in
      ((end t).wallets, ap (λ s. (ok (end s).wallets, end s)) (some_inj e))

  add_account-Ends : (a : A) → Ends (add_account api calls a) (λ s. some (calls.cache_add a s))
  unfolding add_account refresh
  add_account-Ends a d t e =
      (a, ap (λ s. (ok a, (refresh api calls (record d { outside = s })).1)) (some_inj e))

  import_key-Ends : (key : K) (p : P) → Ends (import_key api calls key p) (stored key p)
  unfolding import_key
  import_key-Ends key p d t e =
      let a = calls.key_account key d.outside in
      call-Ends (calls.store_key a key p) (λ _. add_account api calls a)
        (λ _ s. some (calls.cache_add a s)) (λ _. add_account-Ends a) d t e

  import_unless-Ends :
      (key : K) (p : P) (exists : Bool) (d : Directory S W) (t : S)
      → (if exists then none else stored key p d.outside) ≡ some t
      → (b : A) × (((if exists then (λ d. (err already_exists, d)) else import_key api calls key p)
            d)
          ≡ (ok b, (refresh api calls (record d { outside = t })).1))
  import_unless-Ends key p true d t e = absurd (none-ne-some t e)
  import_unless-Ends key p false d t e = import_key-Ends key p d t e

  import_ecdsa-Ends :
      (key : K) (p : P)
      → Ends (import_ecdsa api calls key p) (settled (Operation.imports_ecdsa key p))
  unfolding import_ecdsa has_address settled
  import_ecdsa-Ends key p d t e =
      let (exists, s) = calls.has_address key d.outside in
      import_unless-Ends key p exists (record d { outside = s }) t e

  after-some :
      {B : Type 0} (act : S → Outcome E B × S) (f : B → S → Option S) (s t : S)
      → after act f s ≡ some t
      → (b : B) × ((act s).0 ≡ ok b) × (f b (act s).1 ≡ some t)
  after-some {B} act f s t e = go (act s).0 (act s).1 e
    where
      go :
          (o : Outcome E B) (u : S)
          → after (λ (_ : S). (o, u)) f s ≡ some t
          → (b : B) × (o ≡ ok b) × (f b u ≡ some t)
      go (ok b) u e = (b, refl, e)
      go (err x) u e = absurd (none-ne-some t e)
      go Outcome.panic u e = absurd (none-ne-some t e)

  -- What `getDecryptedKey` gives when the cache finds the account and the file opens.
  opened :
      (a found : A) (key : K) (p : P) (d : Directory S W)
      → calls.cache_find a (calls.maybe_reload d.outside) ≡ ok found
      → calls.get_key found p (calls.maybe_reload d.outside) ≡ ok key
      → get_decrypted_key api calls a p d
        ≡ (ok (found, key), record d { outside = calls.maybe_reload d.outside })
  unfolding get_decrypted_key find
  opened a found key p d e f = rw (e, get_decrypted_key, find) (rw f refl)

  dropped-Ends :
      (found : A)
      → Ends
          (do change (calls.cache_delete found); refresh api calls)
          (λ s. some (calls.cache_delete found s))
  unfolding refresh
  dropped-Ends found d t e =
      (tt, ap (λ s. refresh api calls (record d { outside = s })) (some_inj e))

  delete-Ends : (a : A) (p : P) → Ends (delete api calls a p) (settled (Operation.deletes a p))
  unfolding delete settled
  delete-Ends a p d t e =
      let s = calls.maybe_reload d.outside in
      let (found, e1, r1) =
        after-some (λ u. (calls.cache_find a u, u))
          (λ found. after (λ u. (calls.get_key found p u, u)) (λ _. removed found)) s t e in
      let (key, e2, r2) =
        after-some (λ u. (calls.get_key found p u, u)) (λ _. removed found) s t r1 in
      let rest : A × K → Op api calls Unit = λ (found, key). call (calls.remove found) >>= λ _.
      change (calls.cache_delete found) >>= λ _. refresh api calls in
      let (b, run) =
        call-Ends (calls.remove found)
          (λ _. do change (calls.cache_delete found); refresh api calls) _ (λ _. dropped-Ends found)
          (record d { outside = s }) t r2 in
      (
        b,
        ap (λ (r : Outcome (DirectoryError E) (A × K) × Directory S W). go_on rest r.0 r.1)
              (opened a found key p d e1 e2)
            ∙ run,
      )

  new_ab_account-Ends :
      (made : Outcome (DirectoryError E) (Bytes × Option K)) (p : P)
      → Ends (new_ab_account api calls made p) (settled (Operation.makes_sub made p))
  unfolding new_ab_account settled
  new_ab_account-Ends (ok (base, key)) p d t h =
      call-Ends (calls.store_new_ab_key base key p)
        (λ (address, account). add_account api calls account >> pure (account, address))
        (λ made t. some (calls.cache_add made.1 t))
        (λ (address, account).
          with_result-Ends (add_account api calls account) (λ _. (account, address)) _
            (add_account-Ends account))
        d t h
  new_ab_account-Ends (err e) p d t h = absurd (none-ne-some t h)
  new_ab_account-Ends Outcome.panic p d t h = absurd (none-ne-some t h)

  perform-Ends : (op : Operation A K P J E) → Ends (perform api calls op) (settled op)
  unfolding perform settled wallets new_account import import_pre_sale_key
  perform-Ends Operation.list_wallets d t e =
      with_result-Ends (wallets api calls) (λ _. tt) some wallets-Ends d t e
  perform-Ends (Operation.makes p) d t e =
      with_result-Ends (new_account api calls p) (λ _. tt) _
        (call-Ends (calls.store_new_key p) (add_account api calls) _ add_account-Ends) d t e
  perform-Ends (Operation.makes_sub o p) d t e =
      with_result-Ends (new_ab_account api calls o p) (λ _. tt) _ (new_ab_account-Ends o p) d t e
  perform-Ends (Operation.imports j p q) d t e =
      with_result-Ends (import api calls j p q) (λ _. tt) _
        (call-Ends (λ s. (calls.decrypt_key j p, s)) (λ key. import_key api calls key q) _
          (λ key. import_key-Ends key q))
        d t e
  perform-Ends (Operation.imports_ecdsa key p) d t e =
      with_result-Ends (import_ecdsa api calls key p) (λ _. tt) _ (import_ecdsa-Ends key p) d t e
  perform-Ends (Operation.imports_pre_sale j p) d t e =
      with_result-Ends (import_pre_sale_key api calls j p) (λ _. tt) _
        (call-Ends (calls.import_pre_sale_key j p) (add_account api calls) _ add_account-Ends) d t e
  perform-Ends (Operation.updates a p q) d t e = absurd (none-ne-some t e)
  perform-Ends (Operation.deletes a p) d t e = delete-Ends a p d t e

  -- An operation that makes, imports or deletes an account, or lists the wallets, and whose calls of
  -- the cache and the key files succeed, itself succeeds, and there is then one wallet for each
  -- account that the cache gives after the change, in that order: when `==` decides equality, a new
  -- wallet is one of its account, and each wallet of before whose URL is that of one of these
  -- accounts is a wallet of the account.
  pub perform-listed :
      ((a : A) → api.first_account (api.wrap a) ≡ a)
      → ((a b : A) → (api.same_account a b ≡ true) ↔ (a ≡ b))
      → (op : Operation A K P J E) (d : Directory S W) (t : S) → settled op d.outside ≡ some t
      → All (Agrees api (calls.cache_accounts t).0) d.wallets
      → ((perform api calls op d).0 ≡ ok tt)
        × (listed api (perform api calls op d).1 ≡ (calls.cache_accounts t).0)
  unfolding refresh
  perform-listed wrap_lem same_iff op d t e agree =
      let (_, run) = perform-Ends op d t e in
      (
        ap (λ (r : Outcome (DirectoryError E) Unit × Directory S W). r.0) run,
        ap (λ (r : Outcome (DirectoryError E) Unit × Directory S W). listed api r.1) run
            ∙ refresh_wallets-accounts api wrap_lem same_iff (calls.cache_accounts t).0 d.wallets
                agree,
      )
