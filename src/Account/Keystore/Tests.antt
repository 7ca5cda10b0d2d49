-- ===== src/Account/Keystore/Tests.antt =====
-- A run of the unlocked keys: a key with a timeout, then one without at the same address, which the
-- first one's timer does not drop, and `Lock` does.
use address_verification.Base.{ℕ, ◌≡◌, ◌≢◌, refl, [], ◌∷◌, Option, some, true}
use address_verification.Base.Outcome.{Outcome, ok, err}
use address_verification.Account.Keystore.{
  Store, locked, unlocked_key, unlock_again, close_abort, empty_store, install, unlock_decrypted,
  lock, expire, sign_hash, Step, Reachable, update,
}
use address_verification.Account.Keystore.Live.{IsValid}
use address_verification.Account.Keystore.Unlocked.{Reachable-IsValid}
use address_verification.Account.Keystore.Locking.{sign_hash-lock}
use address_verification.Account.Keystore.Refinement.{User, Follows, sign_view, sign_hash-Follows}

abbrev timed_5 : Store ℕ
timed_5 = install 5 77 10 empty_store

-- Unlocked again, without a timeout: the first goroutine is told to end.
abbrev closed_5 : Store ℕ
closed_5 = record timed_5 {
  objects =
      update timed_5.objects 0 (some (record { key = some 77; timed = true; aborted = true }));
}

abbrev again_5 : Store ℕ
again_5 = install 5 78 0 closed_5

-- Its timer is faster.
abbrev late_5 : Store ℕ
late_5 = expire 5 0 (record again_5 { expirers = [] })

abbrev locked_5 : Store ℕ
locked_5 = lock 5 late_5

abbrev dropped_5 : Store ℕ
dropped_5 = expire 5 1 (record locked_5 { expirers = [] })

late_5-Reachable : Reachable late_5
unfolding unlock_decrypted unlock_again close_abort install update
late_5-Reachable =
    Reachable.next_step
      (Reachable.next_step (Reachable.next_step Reachable.start (Step.unlocks 5 77 10 refl))
        (Step.unlocks 5 78 0 refl))
      (Step.fires [] [] 5 0 refl)

dropped_5-Reachable : Reachable dropped_5
unfolding lock install update expire
dropped_5-Reachable =
    Reachable.next_step (Reachable.next_step late_5-Reachable (Step.locks 5))
      (Step.fires [] [] 5 1 refl)

abbrev sign_with : Option ℕ → Outcome ℕ (Option ℕ)
sign_with key = ok key

late_5_lem : sign_hash sign_with 5 late_5 ≡ ok (some 78)
unfolding sign_hash unlocked_key expire install update
late_5_lem = refl

dropped_5_lem : sign_hash sign_with 5 dropped_5 ≡ err locked
unfolding sign_hash unlocked_key expire lock install update
dropped_5_lem = refl

sign_hash-Follows_example :
    (u : User ℕ) × Follows dropped_5-Reachable u
    × ((address : ℕ) → sign_hash sign_with address dropped_5 ≡ sign_view sign_with (u.keys address))
sign_hash-Follows_example = sign_hash-Follows sign_with dropped_5-Reachable

sign_hash-lock_example :
    ((lock 5 late_5).expirers ≡ (5, 1) ∷ [])
    × (sign_hash sign_with 5 (expire 5 1 (record (lock 5 late_5) { expirers = [] })) ≡ err locked)
    × ((a : ℕ)
        → a ≢ 5
        → sign_hash sign_with a (expire 5 1 (record (lock 5 late_5) { expirers = [] }))
          ≡ sign_hash sign_with a late_5)
    × IsValid (expire 5 1 (record (lock 5 late_5) { expirers = [] }))
unfolding expire install update
sign_hash-lock_example =
    sign_hash-lock sign_with 5 1 late_5 (Reachable-IsValid late_5-Reachable) refl
