-- ===== src/Account/Keystore/View.antt =====
-- What a user sees of the unlocked keys of ABaccount/keystore.go: a key for some addresses, and
-- whether it is kept until it is locked. The objects, pointers and goroutines are forgotten.
use mathlib.Core.Path.{fun_ext}
use address_verification.Base.{
  ℕ, ◌≡◌, ◌≢◌, refl, sym, ap, ◌∙◌, inl, inr, Option, none, some, Bool, true, false, ltb,
  Option-cases,
}
use address_verification.Account.Keystore.{
  Entry, Store, update, close_abort, install, unlock_again, unlock_decrypted, lock, erase,
}
use address_verification.Account.Keystore.Live.{
  IsValid, Others, update_other, update_same, update-cases, IsValid-Others, changed_object-Others,
  not_next,
}

-- The keys that a user can sign with, each with whether it has a timeout.
abbrev pub Keys : Type 0 → Type 0
Keys K = ℕ → Option (K × Bool)

-- The key of an object.
abbrev pub behind : {K : Type 0} → Option (Entry K) → Option (K × Bool)
behind none = none
behind (some entry) = elim entry.key [ none ↦ none | some key ↦ some (key, entry.timed) ]

unfoldable pub view : {K : Type 0} → Store K → Keys K
view s address = elim (s.unlocked address) [ none ↦ none | some p ↦ behind (s.objects p) ]

-- Unlocking: a key without a timeout stays as it is.
unfoldable pub unlock_view : {K : Type 0} → ℕ → K → ℕ → Keys K → Keys K
unlock_view address key timeout keys = elim (keys address) [
  | some (old, false) ↦ keys
  | _ ↦ update keys address (some (key, ltb 0 timeout))
]

pub view-at :
    {K : Type 0} (s : Store K) (address p : ℕ)
    → s.unlocked address ≡ some p
    → view s address ≡ behind (s.objects p)
unfolding view
view-at s address p e = rw (e, view) refl

pub view-none :
    {K : Type 0} (s : Store K) (address : ℕ) → s.unlocked address ≡ none → view s address ≡ none
unfolding view
view-none s address e = rw (e, view) refl

pub some_inj : {A : Type 0} {a b : A} → some a ≡ some b → a ≡ b
some_inj e = cc

-- Two maps that agree but for one address, once it is assigned to.
update_ext :
    {A : Type 0} (f g : ℕ → A) (k : ℕ) (a : A)
    → ((i : ℕ) → i ≢ k → f i ≡ g i)
    → update f k a ≡ update g k a
update_ext f g k a h = fun_ext λ i. elim (update-cases f k a i) [
  | inl (same, e) ↦ e ∙ sym (ap (update g k a) same ∙ update_same g k a)
  | inr (other, e) ↦ e ∙ h i other ∙ sym (update_other g k a i other)
]

-- An address sees the same where its pointer and the object behind it are the same.
view_same :
    {K : Type 0} (s t : Store K) (a : ℕ)
    → t.unlocked a ≡ s.unlocked a
    → ((q : ℕ) → s.unlocked a ≡ some q → t.objects q ≡ s.objects q)
    → view t a ≡ view s a
view_same s t a h same = elim (Option-cases (s.unlocked a)) [
  | inl e ↦ view-none t a (h ∙ e) ∙ sym (view-none s a e)
  | inr (q, e) ↦ view-at t a q (h ∙ e) ∙ ap behind (same q e) ∙ sym (view-at s a q e)
]

module _ {K : Type 0} (address : ℕ) where
  -- A fresh key at the address.
  view-install :
      (key : K) (timeout : ℕ) (s : Store K)
      → Others address s
      → view (install address key timeout s) ≡ update (view s) address (some (key, ltb 0 timeout))
  unfolding install
  view-install key timeout s others = fun_ext λ a.
      elim (update-cases s.unlocked address (some s.next) a) [
        | inl (same, e) ↦
            view-at (install address key timeout s) a s.next e
            ∙ ap behind (update_same s.objects s.next _)
            ∙ sym (ap (update (view s) address _) same ∙ update_same (view s) address _)
        | inr (other, e) ↦
            view_same s (install address key timeout s) a e (λ q found.
              update_other s.objects s.next _ q
                (λ fresh. not_next (others.live a q other found) (sym fresh)))
            ∙ sym (update_other (view s) address _ a other)
      ]

  -- Another object behind the address's own pointer.
  view-changed :
      (p : ℕ) (o : Option (Entry K)) (s : Store K)
      → IsValid s
      → s.unlocked address ≡ some p
      → (a : ℕ) → a ≢ address
      → view (record s { objects = update s.objects p o }) a ≡ view s a
  view-changed p o s v here a other =
      view_same s (record s { objects = update s.objects p o }) a refl
        (λ q found.
          update_other s.objects p o q
            (λ same. other (v.apart a address p (found ∙ ap some same) here)))

  view-unlock_again :
      (key : K) (timeout p : ℕ) (old : K) (timed : Bool) (s t : Store K)
      → IsValid s
      → s.unlocked address ≡ some p
      → view s address ≡ some (old, timed)
      → unlock_again address key timeout p
          (record { key = some old; timed = timed; aborted = false })
          s
        ≡ some t
      → view t ≡ unlock_view address key timeout (view s)
  unfolding unlock_again close_abort unlock_view
  view-unlock_again key timeout p old false s t v here seen e =
      rw (seen, unlock_view) (ap view (sym (some_inj e)))
  view-unlock_again key timeout p old true s t v here seen e =
      rw (seen, unlock_view)
        (ap view (sym (some_inj e))
          ∙ view-install key timeout _ (changed_object-Others address p _ s v here)
          ∙ update_ext _ (view s) address _ (view-changed p _ s v here))

  pub unlock_fresh :
      (key : K) (timeout : ℕ) (s : Store K)
      → s.unlocked address ≡ none
      → unlock_decrypted address key timeout s ≡ some (install address key timeout s)
  unfolding unlock_decrypted
  unlock_fresh key timeout s e = rw (e, unlock_decrypted) refl

  pub unlock_found :
      (key : K) (timeout p : ℕ) (s : Store K) (entry : Entry K)
      → s.unlocked address ≡ some p
      → s.objects p ≡ some entry
      → unlock_decrypted address key timeout s ≡ unlock_again address key timeout p entry s
  unfolding unlock_decrypted
  unlock_found key timeout p s entry e f = rw (e, f, unlock_decrypted) refl

  view_fresh :
      (key : K) (timeout : ℕ) (keys : Keys K)
      → keys address ≡ none
      → unlock_view address key timeout keys ≡ update keys address (some (key, ltb 0 timeout))
  unfolding unlock_view
  view_fresh key timeout keys e = rw (e, unlock_view) refl

  -- `TimedUnlock`, seen from outside.
  pub view-unlock_decrypted :
      (key : K) (timeout : ℕ) (s t : Store K)
      → IsValid s
      → unlock_decrypted address key timeout s ≡ some t
      → view t ≡ unlock_view address key timeout (view s)
  view-unlock_decrypted key timeout s t v e = elim (Option-cases (s.unlocked address)) [
    | inl absent ↦
        ap view (sym (some_inj (sym (unlock_fresh key timeout s absent) ∙ e)))
        ∙ view-install key timeout s (IsValid-Others address s v)
        ∙ sym (view_fresh key timeout (view s) (view-none s address absent))
    | inr (p, here) ↦
        let live = v.live address p here in
        view-unlock_again key timeout p live.key live.timed s t v here
          (view-at s address p here ∙ ap behind live.object)
          (sym (unlock_found key timeout p s _ here live.object) ∙ e)
  ]

  -- Dropping the key.
  pub view-dropped :
      (p : ℕ) (s : Store K)
      → IsValid s
      → s.unlocked address ≡ some p
      → view (record s {
        objects = update s.objects p (erase (s.objects p));
        unlocked = update s.unlocked address none;
      })
        ≡ update (view s) address none
  view-dropped p s v here = fun_ext λ a. elim (update-cases s.unlocked address none a) [
    | inl (same, e) ↦
        view-none _ a e
        ∙ sym (ap (update (view s) address none) same ∙ update_same (view s) address none)
    | inr (other, e) ↦
        view_same s _ a e (λ q found.
          update_other s.objects p _ q
            (λ same. other (v.apart a address p (found ∙ ap some same) here)))
        ∙ sym (update_other (view s) address none a other)
  ]

  pub view-lock : (s : Store K) → view (lock address s) ≡ view s
  unfolding lock view
  view-lock s = elim (Option-cases (s.unlocked address)) [
    | inl e ↦ rw (e, lock) refl
    | inr (p, e) ↦ rw (e, lock) refl
  ]
