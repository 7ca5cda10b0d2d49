-- ===== src/Account/Keystore/Locking.antt =====
-- `Lock` of ABaccount/keystore.go to the end of its call of `expire`.
use address_verification.Base.{
  ℕ, ◌≡◌, ◌≢◌, refl, sym, ap, ◌∙◌, [], ◌∷◌, ◌++◌, Option, some, none, ==_iff,
}
use address_verification.Base.Outcome.{Outcome, err}
use address_verification.Account.Keystore.{Store, locked, update, erase, lock, expire, sign_hash}
use address_verification.Account.Keystore.Live.{IsValid, update_same, update_other}
use address_verification.Account.Keystore.Unlocked.{expire-IsValid}
use address_verification.Account.Keystore.View.{view, view-dropped}
use address_verification.Account.Keystore.Refinement.{sign_view, sign_hash-view}

module _ {K : Type 0} (address p : ℕ) (s : Store K) (here : s.unlocked address ≡ some p) where
  expire_found : expire address p s ≡ record s {
    objects = update s.objects p (erase (s.objects p));
    unlocked = update s.unlocked address none;
  }
  unfolding expire
  expire_found = rw (here, (==_iff p p).1 refl, expire) refl

  view-expire : IsValid s → view (expire address p s) ≡ update (view s) address none
  view-expire v = ap view expire_found ∙ view-dropped address p s v here

  lock_found : lock address s ≡ record s { expirers = s.expirers ++ (address, p) ∷ [] }
  unfolding lock
  lock_found = rw (here, lock) refl

module _ {K E B : Type 0} (sign : Option K → Outcome E B) (address p : ℕ) (s : Store K) where
  -- `Lock` of an address that is unlocked on a valid store starts a call of `expire` for the address's
  -- key; once it ends after its timer, with no other step between, the address is locked for
  -- `SignHash`, which signs for every other address as before, and the store is valid.
  pub sign_hash-lock :
      IsValid s
      → s.unlocked address ≡ some p
      → let t = expire address p (record (lock address s) { expirers = s.expirers }) in
        ((lock address s).expirers ≡ s.expirers ++ (address, p) ∷ [])
        × (sign_hash sign address t ≡ err locked)
        × ((a : ℕ) → a ≢ address → sign_hash sign a t ≡ sign_hash sign a s)
        × IsValid t
  unfolding sign_view
  sign_hash-lock v here =
      let t = expire address p (record (lock address s) { expirers = s.expirers }) in
      let same : t ≡ expire address p s =
        ap (λ (r : Store K). expire address p (record r { expirers = s.expirers }))
          (lock_found address p s here) in
      let seen : view t ≡ update (view s) address none =
        ap view same ∙ view-expire address p s here v in
      let valid : IsValid t = rw same (expire-IsValid address p s v) in
      (
        ap (λ (r : Store K). r.expirers) (lock_found address p s here),
        sign_hash-view sign address valid
            ∙ ap (λ k. sign_view sign (k address)) seen
            ∙ ap (sign_view sign) (update_same (view s) address none),
        λ a other.
            sign_hash-view sign a valid
            ∙ ap (λ k. sign_view sign (k a)) seen
            ∙ ap (sign_view sign) (update_other (view s) address none a other)
            ∙ sym (sign_hash-view sign a v),
        valid,
      )
