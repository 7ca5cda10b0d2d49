-- ===== src/Account/Keystore/Expirers.antt =====
-- Why a call of `expire` in ABaccount/keystore.go that would drop a key is there: the key has a
-- timeout, or `Lock` was called on its address since the key was put there.
use mathlib.Core.Path.{subst}
use address_verification.Base.{
  ℕ, suc, ◌≤◌, ◌<◌, ◌≡◌, refl, sym, ap, ◌∙◌, ◌⊎◌, inl, inr, List, [], ◌∷◌, ◌++◌, Option, none, some,
  Bool, true, false, ltb, if◌then◌else◌, Option-cases, All, All-append, arith,
}
use address_verification.Account.Keystore.{
  Entry, Store, update, close_abort, install, unlock_again, unlock_decrypted, lock,
}
use address_verification.Account.Keystore.Live.{IsValid, update_same, update_other, update-cases}
use address_verification.Account.Keystore.View.{
  behind, view, view-at, view-none, some_inj, unlock_fresh, unlock_found,
}

-- The object has a timeout.
abbrev pub IsTimed : {K : Type 0} → Option (Entry K) → Type 0
IsTimed none = ⊥
IsTimed (some entry) = entry.timed ≡ true

-- A call of `expire` has a reason, if it is for the key that its address has.
abbrev pub IsJust : {K : Type 0} → Store K → (ℕ → Bool) → ℕ × ℕ → Type 0
IsJust s asked (address, p) =
    (p < s.next) × (s.unlocked address ≡ some p → (asked address ≡ true) ⊎ IsTimed (s.objects p))

-- A store with more objects, where those of before have the timeout they had, and an address that
-- points to one of them did so before, and is asked to be locked if it was.
pub record Grows {K : Type 0} (s : Store K) (asked : ℕ → Bool) (t : Store K) (asked₁ : ℕ → Bool)
    : Type 0 where
  more : s.next ≤ t.next
  timed : (p : ℕ) → p < s.next → IsTimed (s.objects p) → IsTimed (t.objects p)
  found :
      (a p : ℕ)
      → p < s.next
      → t.unlocked a ≡ some p
      → (s.unlocked a ≡ some p) × (asked a ≡ true → asked₁ a ≡ true)

-- The addresses that `Lock` was called on since their key was put there, after a call of
-- `TimedUnlock` that finds the key `there`.
abbrev pub unlock_asked : {K : Type 0} → ℕ → Option (K × Bool) → (ℕ → Bool) → ℕ → Bool
unlock_asked address (some (old, false)) asked = asked
unlock_asked address (some (old, true)) asked = update asked address false
unlock_asked address none asked = update asked address false

still : (asked : ℕ → Bool) (address a : ℕ) → asked a ≡ true → update asked address true a ≡ true
still asked address a was = elim (update-cases asked address true a) [
  | inl (_, e) ↦ e
  | inr (_, e) ↦ e ∙ was
]

-- A call less in the list.
pub All-without :
    (P : ℕ × ℕ → Type 0) (before : List (ℕ × ℕ)) (x : ℕ × ℕ) (after : List (ℕ × ℕ))
    → All P (before ++ x ∷ after)
    → P x × All P (before ++ after)
All-without P [] x after h = h
All-without P (b ∷ before) x after (k, h) =
    let (here, rest) = All-without P before x after h in (here, (k, rest))

module _ {K : Type 0} where
  pub IsJust-Grows :
      (s : Store K) (asked : ℕ → Bool) (t : Store K) (asked₁ : ℕ → Bool) (l : List (ℕ × ℕ))
      → Grows s asked t asked₁
      → All (IsJust s asked) l
      → All (IsJust t asked₁) l
  IsJust-Grows s asked t asked₁ [] g h = tt
  IsJust-Grows s asked t asked₁ ((a, p) ∷ l) g ((below, why), h) = (
    (
      omega (arith, g.more),
      λ here.
          let (before, kept) = g.found a p below here in
          elim (why before) [ inl was ↦ inl (kept was) | inr timed ↦ inr (g.timed p below timed) ],
    ),
    IsJust-Grows s asked t asked₁ l g h,
  )

  -- The store that `install` leaves, by whether the key has a timeout.
  abbrev fresh : ℕ → K → Bool → Store K → Store K
  fresh address key timed s = record {
    next = suc s.next;
    objects =
        update s.objects s.next (some (record { key = some key; timed = timed; aborted = false }));
    unlocked = update s.unlocked address (some s.next);
    expirers = if timed then s.expirers ++ (address, s.next) ∷ [] else s.expirers;
  }

  Grows-fresh :
      (address : ℕ) (key : K) (timed : Bool) (s : Store K) (asked : ℕ → Bool)
      → Grows s asked (fresh address key timed s) (update asked address false)
  Grows-fresh address key timed s asked = record {
    more = omega arith;
    timed = λ p below h.
        subst IsTimed (sym (update_other s.objects s.next _ p (λ e. omega (arith, below, e)))) h;
    found = λ a p below here. elim (update-cases s.unlocked address (some s.next) a) [
      | inl (_, e) ↦
          let same : s.next ≡ p = some_inj (sym e ∙ here) in absurd (omega (arith, below, same))
      | inr (other, e) ↦ (sym e ∙ here, λ was. update_other asked address false a other ∙ was)
    ];
  }

  -- Another object with the timeout of the one before, and fewer addresses with a key.
  pub Grows-object :
      (p : ℕ) (o : Option (Entry K)) (s : Store K) (asked : ℕ → Bool) (l : List (ℕ × ℕ))
      (m : ℕ → Option ℕ)
      → (IsTimed (s.objects p) → IsTimed o)
      → ((a q : ℕ) → m a ≡ some q → s.unlocked a ≡ some q)
      → Grows s asked
          (record s { objects = update s.objects p o; unlocked = m; expirers = l })
          asked
  Grows-object p o s asked l m h k = record {
    more = omega arith;
    timed = λ q below timed. elim (update-cases s.objects p o q) [
      | inl (same, e) ↦ subst IsTimed (sym e) (h (subst (λ t. IsTimed (s.objects t)) same timed))
      | inr (other, e) ↦ subst IsTimed (sym e) timed
    ];
    found = λ a q below here. (k a q here, λ was. was);
  }

  Just-fresh :
      (address : ℕ) (key : K) (timed : Bool) (s : Store K) (asked : ℕ → Bool)
      → All (IsJust s asked) s.expirers
      → All
          (IsJust (fresh address key timed s) (update asked address false))
          (fresh address key timed s).expirers
  Just-fresh address key false s asked h =
      IsJust-Grows s asked (fresh address key false s) (update asked address false) s.expirers
        (Grows-fresh address key false s asked) h
  Just-fresh address key true s asked h =
      All-append (IsJust (fresh address key true s) (update asked address false)) s.expirers
        ((address, s.next) ∷ [])
        (IsJust-Grows s asked (fresh address key true s) (update asked address false) s.expirers
          (Grows-fresh address key true s asked) h)
        ((omega arith, λ _. inr (subst IsTimed (sym (update_same s.objects s.next _)) refl)), tt)

  Just-install :
      (address : ℕ) (key : K) (timeout : ℕ) (s : Store K) (asked : ℕ → Bool)
      → All (IsJust s asked) s.expirers
      → All
          (IsJust (install address key timeout s) (update asked address false))
          (install address key timeout s).expirers
  unfolding install
  Just-install address key timeout s asked h = Just-fresh address key (ltb 0 timeout) s asked h

  Just-unlock_again :
      (address : ℕ) (key : K) (timeout p : ℕ) (old : K) (timed : Bool) (s t : Store K)
      (asked : ℕ → Bool)
      → unlock_again address key timeout p
          (record { key = some old; timed = timed; aborted = false })
          s
        ≡ some t
      → All (IsJust s asked) s.expirers
      → All (IsJust t (unlock_asked address (some (old, timed)) asked)) t.expirers
  unfolding unlock_again close_abort
  Just-unlock_again address key timeout p old false s t asked f h =
      subst (λ r. All (IsJust r asked) r.expirers) (some_inj f) h
  Just-unlock_again address key timeout p old true s t asked f h =
      subst (λ r. All (IsJust r (update asked address false)) r.expirers) (some_inj f)
        (Just-install address key timeout _ asked (
          IsJust-Grows s asked _ asked s.expirers
            (Grows-object p _ s asked s.expirers s.unlocked (λ _. refl) (λ a q e. e)) h))

  pub Just-unlock_decrypted :
      (address : ℕ) (key : K) (timeout : ℕ) (s t : Store K) (asked : ℕ → Bool)
      → IsValid s
      → unlock_decrypted address key timeout s ≡ some t
      → All (IsJust s asked) s.expirers
      → All (IsJust t (unlock_asked address (view s address) asked)) t.expirers
  Just-unlock_decrypted address key timeout s t asked v e h =
      elim (Option-cases (s.unlocked address)) [
        | inl absent ↦
            subst (λ o. All (IsJust t (unlock_asked address o asked)) t.expirers)
              (sym (view-none s address absent))
              (subst (λ r. All (IsJust r (update asked address false)) r.expirers)
                (some_inj (sym (unlock_fresh address key timeout s absent) ∙ e))
                (Just-install address key timeout s asked h))
        | inr (p, here) ↦
            let live = v.live address p here in
            subst (λ o. All (IsJust t (unlock_asked address o asked)) t.expirers)
              (sym (view-at s address p here ∙ ap behind live.object))
              (Just-unlock_again address key timeout p live.key live.timed s t asked
                (sym (unlock_found address key timeout p s _ here live.object) ∙ e) h)
      ]

  asked_more :
      (s : Store K) (asked : ℕ → Bool) (address : ℕ) (l : List (ℕ × ℕ))
      → All (IsJust s asked) l
      → All (IsJust s (update asked address true)) l
  asked_more s asked address [] h = tt
  asked_more s asked address ((a, p) ∷ l) ((below, why), h) = (
    (
      below,
      λ here. elim (why here) [ inl was ↦ inl (still asked address a was) | inr timed ↦ inr timed ],
    ),
    asked_more s asked address l h,
  )

  -- A call of `expire` by `Lock`.
  Just-called :
      (address p : ℕ) (s : Store K) (asked : ℕ → Bool)
      → p < s.next
      → All (IsJust s asked) s.expirers
      → let t = record s { expirers = s.expirers ++ (address, p) ∷ [] } in
        All (IsJust t (update asked address true)) t.expirers
  Just-called address p s asked below h =
      All-append _ s.expirers ((address, p) ∷ []) (asked_more s asked address s.expirers h)
        ((below, λ _. inl (update_same asked address true)), tt)

  pub Just-lock :
      (address : ℕ) (s : Store K) (asked : ℕ → Bool)
      → IsValid s
      → All (IsJust s asked) s.expirers
      → All (IsJust (lock address s) (update asked address true)) (lock address s).expirers
  unfolding lock
  Just-lock address s asked v h = elim (Option-cases (s.unlocked address)) [
    | inl e ↦ rw (e, lock) (asked_more s asked address s.expirers h)
    | inr (p, e) ↦ rw (e, lock) (Just-called address p s asked (v.live address p e).below h)
  ]
