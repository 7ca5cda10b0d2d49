-- ===== src/Account/Keystore/Refinement.antt =====
-- The unlocked keys of ABaccount/keystore.go against the keys that a user sees, who follows the calls
-- of `TimedUnlock` and `Lock` and the ends of `expire`, without objects behind pointers.
use mathlib.Core.Bool.{true≢false}
use mathlib.Core.Path.{subst}
use address_verification.Base.{
  ℕ, ◌≡◌, ◌≢◌, refl, sym, ap, ◌∙◌, ◌⊎◌, inl, inr, ◌++◌, Option, none, some, Bool, true, false, ◌==◌,
  ==_iff, Bool-cases, Option-cases, All,
}
use address_verification.Base.Outcome.{Outcome, err}
use address_verification.Account.Keystore.{
  Entry, Store, StoreError, locked, update, erase, expire, unlocked_key, sign_hash, from_library,
  Step, Reachable,
}
use address_verification.Account.Keystore.Live.{IsValid, none-some, update-cases}
use address_verification.Account.Keystore.Unlocked.{Reachable-IsValid, IsValid-expirers}
use address_verification.Account.Keystore.View.{
  Keys, view, behind, unlock_view, view-at, view-none, view-unlock_decrypted, view-dropped,
  view-lock, some_inj,
}
use address_verification.Account.Keystore.Expirers.{
  unlock_asked, IsJust, IsTimed, IsJust-Grows, Grows-object, Just-unlock_decrypted, Just-lock,
  All-without,
}

-- The keys that a user can sign with, and the addresses that `Lock` was called on since their key was
-- put there.
pub record User (K : Type 0) : Type 0 where
  pub keys : Keys K
  pub asked : ℕ → Bool

abbrev pub nobody : {K : Type 0} → User K
nobody = record { keys = λ address. none; asked = λ address. false }

-- A key that may be dropped: it has a timeout, or `Lock` was called since it was put there.
abbrev pub MayDrop : {K : Type 0} → User K → ℕ → Type 0
MayDrop {K} u address = ((key : K) × (u.keys address ≡ some (key, true))) ⊎ (u.asked address ≡ true)

-- Unlocking: `Lock` was not yet called for a key that is put there.
abbrev pub unlock_user : {K : Type 0} → ℕ → K → ℕ → User K → User K
unlock_user address key timeout u = record {
  keys = unlock_view address key timeout u.keys;
  asked = unlock_asked address (u.keys address) u.asked;
}

abbrev pub drop_user : {K : Type 0} → ℕ → User K → User K
drop_user address u = record u { keys = update u.keys address none }

-- The user after a call of `expire` for the key behind `p`: that key is dropped, which may be, if the
-- address still has it, and nothing changes otherwise.
abbrev pub Fires : {K : Type 0} → ℕ → ℕ → Store K → User K → User K → Type 0
Fires address p s u v =
    ((s.unlocked address ≡ some p) × MayDrop u address × (v ≡ drop_user address u))
    ⊎ ((s.unlocked address ≢ some p) × (v ≡ u))

-- The user after a step of the store.
abbrev pub Reacts : {K : Type 0} {s t : Store K} → Step s t → User K → User K → Type 0
Reacts (Step.unlocks address key timeout _) u v = v ≡ unlock_user address key timeout u
Reacts (Step.locks address) u v = v ≡ record u { asked = update u.asked address true }
Reacts (Step.quits before after address p entry _ _ _) u v = v ≡ u
Reacts {s = s} (Step.fires before after address p _) u v = Fires address p s u v

-- The user after a run of the store.
unfoldable pub Follows : {K : Type 0} {s : Store K} → Reachable s → User K → Type 0
Follows Reachable.start u = u ≡ nobody
Follows {K} (Reachable.next_step r step) v = (u : User K) × Follows r u × Reacts step u v

-- The answer to a user that signs.
unfoldable pub sign_view :
    {K E B : Type 0} → (Option K → Outcome E B) → Option (K × Bool) → Outcome (StoreError E) B
sign_view sign none = err locked
sign_view sign (some (key, timed)) = from_library (sign (some key))

abbrev user : {K : Type 0} → Store K → (ℕ → Bool) → User K
user s asked = record { keys = view s; asked = asked }

abbrev keys_path :
    {K : Type 0} {k l : Keys K} (asked : ℕ → Bool)
    → k ≡ l
    → ◌≡◌ {A = User K} (record { keys = k; asked = asked }) (record { keys = l; asked = asked })
keys_path asked e = ap (λ keys. record { keys = keys; asked = asked }) e

IsTimed-erase : {K : Type 0} (o : Option (Entry K)) → IsTimed o → IsTimed (erase o)
IsTimed-erase none h = h
IsTimed-erase (some entry) h = h

-- An address that has a key once one is dropped had it before.
dropped-before :
    (m : ℕ → Option ℕ) (address a q : ℕ) → update m address none a ≡ some q → m a ≡ some q
dropped-before m address a q e = elim (update-cases m address none a) [
  | inl (_, found) ↦ absurd (none-some (sym found ∙ e))
  | inr (_, found) ↦ sym found ∙ e
]

-- What a step of the store leads to: a user that reacts to it, and calls of `expire` with a reason.
abbrev Moves : {K : Type 0} {s t : Store K} → (ℕ → Bool) → Step s t → Type 0
Moves {K} {s} {t} asked step =
    (asked₁ : ℕ → Bool) × Reacts step (user s asked) (user t asked₁)
    × All (IsJust t asked₁) t.expirers

module _ {K : Type 0} where
  -- A key whose call of `expire` has a reason may be dropped.
  may_drop :
      (address p : ℕ) (s : Store K) (asked : ℕ → Bool)
      → IsValid s
      → s.unlocked address ≡ some p
      → (asked address ≡ true) ⊎ IsTimed (s.objects p)
      → MayDrop (user s asked) address
  may_drop address p s asked v here (inl was) = inr was
  may_drop address p s asked v here (inr timed) =
      let live = v.live address p here in
      let has_timeout : live.timed ≡ true = subst IsTimed live.object timed in
      inl (
        live.key,
        view-at s address p here
            ∙ ap behind live.object
            ∙ ap (λ (b : Bool). some (live.key, b)) has_timeout,
      )

  Fires-expire :
      (address p : ℕ) (s : Store K) (asked : ℕ → Bool)
      → IsValid s
      → IsJust s asked (address, p)
      → All (IsJust s asked) s.expirers
      → Fires address p s (user s asked) (user (expire address p s) asked)
        × All (IsJust (expire address p s) asked) (expire address p s).expirers
  unfolding expire
  Fires-expire address p s asked v (_, why) h = elim (Option-cases (s.unlocked address)) [
    | inl e ↦ rw (e, expire) (inr (none-some, refl), h)
    | inr (q, e) ↦ elim (Bool-cases (q == p)) [
      | inl same ↦
          let here = e ∙ ap some ((==_iff q p).0 same) in
          rw (e, same, expire)
            (
              inl (
                ap some ((==_iff q p).0 same),
                may_drop address p s asked v here (why here),
                keys_path asked (view-dropped address p s v here),
              ),
              IsJust-Grows s asked _ asked s.expirers
                  (Grows-object p _ s asked s.expirers (update s.unlocked address none)
                    (IsTimed-erase (s.objects p)) (dropped-before s.unlocked address))
                  h,
            )
      | inr other ↦
          rw (e, other, expire)
            (inr (λ same. true≢false (sym ((==_iff q p).1 (some_inj same)) ∙ other), refl), h)
    ]
  ]

  Moves-Step :
      {s t : Store K} (asked : ℕ → Bool)
      → IsValid s
      → All (IsJust s asked) s.expirers
      → (step : Step s t) → Moves asked step
  unfolding view
  Moves-Step {s} {t} asked v h (Step.unlocks address key timeout e) = (
    unlock_asked address (view s address) asked,
    keys_path _ (view-unlock_decrypted address key timeout s t v e),
    Just-unlock_decrypted address key timeout s t asked v e h,
  )
  Moves-Step {s} asked v h (Step.locks address) =
      (update asked address true, keys_path _ (view-lock address s), Just-lock address s asked v h)
  Moves-Step {s} asked v h (Step.quits before after address p entry e _ _) = (
    asked,
    refl,
    (All-without (IsJust s asked) before (address, p) after (subst (All (IsJust s asked)) e h)).1,
  )
  Moves-Step {s} asked v h (Step.fires before after address p e) =
      let (why, rest) =
        All-without (IsJust s asked) before (address, p) after (subst (All (IsJust s asked)) e h) in
      let (fires, left) =
        Fires-expire address p _ asked (IsValid-expirers s (before ++ after) v) why rest in
      (asked, fires, left)

  Follows-view :
      {s : Store K} (r : Reachable s)
      → (asked : ℕ → Bool) × Follows r (user s asked) × All (IsJust s asked) s.expirers
  unfolding view Follows
  Follows-view Reachable.start = (λ address. false, refl, tt)
  Follows-view (Reachable.next_step {s} r step) =
      let (asked, reached, h) = Follows-view r in
      let (asked₁, moved, k) = Moves-Step asked (Reachable-IsValid r) h step in
      (asked₁, (user s asked, reached, moved), k)

-- `SignHash` answers from the keys that a user sees.
pub sign_hash-view :
    {K E B : Type 0} (sign : Option K → Outcome E B) (address : ℕ) {s : Store K}
    → IsValid s
    → sign_hash sign address s ≡ sign_view sign (view s address)
unfolding sign_hash unlocked_key sign_view
sign_hash-view sign address {s} v = elim (Option-cases (s.unlocked address)) [
  | inl e ↦ rw (e, view-none s address e, sign_hash, unlocked_key, sign_view) refl
  | inr (p, e) ↦
      let live = v.live address p e in
      rw (view-at s address p e, e, live.object, sign_hash, unlocked_key, sign_view) refl
]

-- However calls of `TimedUnlock` and `Lock` and the ends of their goroutines interleave, the keys
-- that `SignHash` signs with are those of a user who follows the run step by step: a call of
-- `TimedUnlock` sets the key of its address, unless there is one without a timeout, which stays; a
-- call of `expire` that ends drops the key it was started for, if the address still has it, and such
-- a key has a timeout or `Lock` was called on the address since it was put there; and nothing else
-- changes a key.
pub sign_hash-Follows :
    {K E B : Type 0} (sign : Option K → Outcome E B) {s : Store K} (r : Reachable s)
    → (u : User K) × Follows r u
      × ((address : ℕ) → sign_hash sign address s ≡ sign_view sign (u.keys address))
sign_hash-Follows sign {s} r =
    let (asked, follows, _) = Follows-view r in
    (user s asked, follows, λ address. sign_hash-view sign address (Reachable-IsValid r))
