-- ===== src/Account/Keystore/Unlocked.antt =====
-- The invariant on every run of the unlocked keys of ABaccount/keystore.go, and what it means for a
-- call that signs.
use address_verification.Base.{
  ℕ, ◌≡◌, ◌≢◌, refl, sym, ap, ◌∙◌, ◌⊎◌, inl, inr, List, ◌++◌, Option, none, some, Bool, true, false,
  ◌==◌, ==_iff, Bool-cases, Option-cases,
}
use mathlib.Core.Path.{subst}
use address_verification.Base.Outcome.{Outcome, err}
use address_verification.Account.Keystore.{
  Store, locked, update, close_abort, install, unlock_again, unlock_decrypted, lock, erase, expire,
  unlocked_key, sign_hash, from_library, Step, Reachable,
}
use address_verification.Account.Keystore.Live.{
  IsValid, Others, update_same, update-cases, empty_store-IsValid, none-some, install-IsValid,
  IsValid-Others, changed_object-Others,
}

-- What a call of `TimedUnlock` with a key leads to: a valid store where the address is unlocked.
abbrev pub Unlocks : {K : Type 0} → ℕ → Option (Store K) → Type 0
Unlocks address result =
    (t : Store _) × (result ≡ some t) × IsValid t × (q : ℕ) × (t.unlocked address ≡ some q)

installed :
    {K : Type 0} (address : ℕ) (key : K) (timeout : ℕ) (s : Store K)
    → Others address s
    → Unlocks address (some (install address key timeout s))
unfolding install
installed address key timeout s others = (
  install address key timeout s,
  refl,
  install-IsValid address key timeout s others,
  s.next,
  update_same s.unlocked address (some s.next),
)

unlock_again-Unlocks :
    {K : Type 0} (address : ℕ) (key : K) (timeout p : ℕ) (old : K) (timed : Bool) (s : Store K)
    → IsValid s
    → s.unlocked address ≡ some p
    → Unlocks address (
        unlock_again address key timeout p
          (record { key = some old; timed = timed; aborted = false })
          s)
unfolding unlock_again close_abort
unlock_again-Unlocks address key timeout p old false s v e = (s, refl, v, p, e)
unlock_again-Unlocks address key timeout p old true s v e =
    installed address key timeout _ (changed_object-Others address p _ s v e)

-- On a valid store, `TimedUnlock` with a decrypted key does not panic: it ends in a valid store in
-- which the address is unlocked.
pub unlock_decrypted-IsValid :
    {K : Type 0} (address : ℕ) (key : K) (timeout : ℕ) (s : Store K)
    → IsValid s
    → (t : Store K) × (unlock_decrypted address key timeout s ≡ some t)
      × IsValid t
      × (q : ℕ) × (t.unlocked address ≡ some q)
unfolding unlock_decrypted
unlock_decrypted-IsValid address key timeout s v = elim (Option-cases (s.unlocked address)) [
  | inl e ↦ rw (e, unlock_decrypted) (installed address key timeout s (IsValid-Others address s v))
  | inr (p, e) ↦
      let live = v.live address p e in
      rw (e, live.object, unlock_decrypted)
        (unlock_again-Unlocks address key timeout p live.key live.timed s v e)
]

pub IsValid-expirers :
    {K : Type 0} (s : Store K) (l : List (ℕ × ℕ)) → IsValid s → IsValid (record s { expirers = l })
IsValid-expirers s l v = record {
  live = λ a p e.
      let h = v.live a p e in
      record { below = h.below; key = h.key; timed = h.timed; object = h.object };
  apart = v.apart;
}

lock-IsValid : {K : Type 0} (address : ℕ) (s : Store K) → IsValid s → IsValid (lock address s)
unfolding lock
lock-IsValid address s v = elim (Option-cases (s.unlocked address)) [
  | inl e ↦ rw (e, lock) v
  | inr (p, e) ↦ rw (e, lock) (IsValid-expirers s _ v)
]

-- The store after a key is dropped.
dropped-IsValid :
    {K : Type 0} (address p : ℕ) (s : Store K)
    → IsValid s
    → s.unlocked address ≡ some p
    → IsValid (record s {
      objects = update s.objects p (erase (s.objects p));
      unlocked = update s.unlocked address none;
    })
dropped-IsValid address p s v here =
    let others = changed_object-Others address p (erase (s.objects p)) s v here in
    let older : (a q : ℕ)
        → update s.unlocked address none a ≡ some q
        → (a ≢ address) × (s.unlocked a ≡ some q) =
      λ a q e. elim (update-cases s.unlocked address none a) [
        | inl (_, found) ↦ absurd (none-some (sym found ∙ e))
        | inr (other, found) ↦ (other, sym found ∙ e)
      ] in
    record {
      live = λ a q e.
          let (other, found) = older a q e in
          let h = others.live a q other found in
          record { below = h.below; key = h.key; timed = h.timed; object = h.object };
      apart = λ a b q e f. v.apart a b q (older a q e).1 (older b q f).1;
    }

pub expire-IsValid :
    {K : Type 0} (address p : ℕ) (s : Store K) → IsValid s → IsValid (expire address p s)
unfolding expire
expire-IsValid address p s v = elim (Option-cases (s.unlocked address)) [
  | inl e ↦ rw (e, expire) v
  | inr (q, e) ↦ elim (Bool-cases (q == p)) [
    | inl same ↦
        rw (e, same, expire) (dropped-IsValid address p s v (e ∙ ap some ((==_iff q p).0 same)))
    | inr other ↦ rw (e, other, expire) v
  ]
]

Step-IsValid : {K : Type 0} {s t : Store K} → IsValid s → Step s t → IsValid t
Step-IsValid {s = s} v (Step.unlocks address key timeout e) =
    let (t, done, valid, _, _) = unlock_decrypted-IsValid address key timeout s v in
    subst IsValid (injective (sym done ∙ e)) valid
  where
    injective : {A : Type 0} {a b : A} → some a ≡ some b → a ≡ b
    injective e = cc
Step-IsValid {s = s} v (Step.locks address) = lock-IsValid address s v
Step-IsValid {s = s} v (Step.quits before after address p entry _ _ _) =
    IsValid-expirers s (before ++ after) v
Step-IsValid {s = s} v (Step.fires before after address p _) =
    expire-IsValid address p _ (IsValid-expirers s (before ++ after) v)

-- However calls of `TimedUnlock` and `Lock` and the ends of their goroutines interleave, every
-- address of the map points to a key that is not erased, and no two to the same one.
pub Reachable-IsValid : {K : Type 0} {s : Store K} → Reachable s → IsValid s
Reachable-IsValid Reachable.start = empty_store-IsValid
Reachable-IsValid (Reachable.next_step r step) = Step-IsValid (Reachable-IsValid r) step

-- In a store that calls have led to, `SignHash` either finds the address locked or signs with a key
-- that is not erased.
pub sign_hash-Reachable :
    {K E B : Type 0} (sign : Option K → Outcome E B) (address : ℕ) {s : Store K}
    → Reachable s
    → (sign_hash sign address s ≡ err locked)
      ⊎ ((key : K) × (sign_hash sign address s ≡ from_library (sign (some key))))
unfolding sign_hash unlocked_key
sign_hash-Reachable sign address {s} r = elim (Option-cases (s.unlocked address)) [
  | inl e ↦ inl (rw (e, sign_hash, unlocked_key) refl)
  | inr (p, e) ↦
      let live = (Reachable-IsValid r).live address p e in
      inr (live.key, rw (e, live.object, sign_hash, unlocked_key) refl)
]
