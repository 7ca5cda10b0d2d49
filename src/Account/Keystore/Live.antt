-- ===== src/Account/Keystore/Live.antt =====
-- The invariant of the unlocked keys of ABaccount/keystore.go, and the stores after one assignment.
use address_verification.Base.{
  ℕ, ◌<◌, ◌≡◌, ◌≢◌, refl, sym, ap, ◌∙◌, ◌⊎◌, inl, inr, Option, none, some, Bool, false, ltb, ◌==◌,
  ==_iff, arith, Bool-cases,
}
use mathlib.Core.Path.{subst}
use mathlib.Core.Bool.{true≢false}
use address_verification.Account.Keystore.{Entry, Store, empty_store, update, install}

module _ {A : Type 0} (f : ℕ → A) (k : ℕ) (a : A) where
  pub update_same : update f k a k ≡ a
  unfolding update
  update_same = rw ((==_iff k k).1 refl) refl

  pub update_other : (i : ℕ) → i ≢ k → update f k a i ≡ f i
  unfolding update
  update_other i h = ground arith

  pub update-cases : (i : ℕ) → ((i ≡ k) × (update f k a i ≡ a)) ⊎ ((i ≢ k) × (update f k a i ≡ f i))
  update-cases i = elim (Bool-cases (i == k)) [
    | inl e ↦ let same = (==_iff i k).0 e in inl (same, ap (update f k a) same ∙ update_same)
    | inr e ↦
        let other : i ≢ k = λ s. true≢false (sym ((==_iff i k).1 s) ∙ e) in
        inr (other, update_other i other)
  ]

-- What a pointer in the map points to: a key that is not erased, in an object that no goroutine has
-- been told to leave.
pub record IsLive {K : Type 0} (s : Store K) (p : ℕ) : Type 0 where
  pub below : p < s.next
  pub key : K
  pub timed : Bool
  pub object : s.objects p ≡ some (record { key = some key; timed = timed; aborted = false })

-- Every pointer of the map is live, and no two addresses have the same one.
pub record IsValid {K : Type 0} (s : Store K) : Type 0 where
  pub live : (a p : ℕ) → s.unlocked a ≡ some p → IsLive s p
  pub apart : (a b p : ℕ) → s.unlocked a ≡ some p → s.unlocked b ≡ some p → a ≡ b

pub empty_store-IsValid : {K : Type 0} → IsValid (empty_store {K = K})
empty_store-IsValid = record {
  live = λ a p e. absurd (none-some e);
  apart = λ a b p e f. absurd (none-some e);
}
  where
    none-some : {p : ℕ} → none ≡ some p → ⊥
    none-some e = ground arith

some_inj : {p q : ℕ} → some p ≡ some q → p ≡ q
some_inj e = cc

pub none-some : {p : ℕ} → none ≡ some p → ⊥
none-some e = ground arith

-- The pointers of all addresses but one.
pub record Others {K : Type 0} (address : ℕ) (s : Store K) : Type 0 where
  pub live : (a p : ℕ) → a ≢ address → s.unlocked a ≡ some p → IsLive s p
  pub apart : (a b p : ℕ) → s.unlocked a ≡ some p → s.unlocked b ≡ some p → a ≡ b

install-fresh :
    {K : Type 0} (address : ℕ) (key : K) (timeout : ℕ) (s : Store K)
    → IsLive (install address key timeout s) s.next
unfolding install
install-fresh address key timeout s = record {
  below = omega arith;
  key = key;
  timed = ltb 0 timeout;
  object = update_same s.objects s.next _;
}

install-older :
    {K : Type 0} (address : ℕ) (key : K) (timeout : ℕ) (s : Store K) (p : ℕ)
    → IsLive s p
    → IsLive (install address key timeout s) p
unfolding install
install-older address key timeout s p h = record {
  below = omega (arith, h.below);
  key = h.key;
  timed = h.timed;
  object = update_other s.objects s.next _ p (λ e. differ h.below e) ∙ h.object;
}
  where
    differ : {n q : ℕ} → q < n → q ≡ n → ⊥
    differ h e = omega arith

install_map :
    {K : Type 0} (address : ℕ) (key : K) (timeout : ℕ) (s : Store K) (a p : ℕ)
    → (install address key timeout s).unlocked a ≡ some p
    → ((a ≡ address) × (s.next ≡ p)) ⊎ ((a ≢ address) × (s.unlocked a ≡ some p))
unfolding install
install_map address key timeout s a p e = elim (update-cases s.unlocked address (some s.next) a) [
  | inl (same, found) ↦ inl (same, some_inj (sym found ∙ e))
  | inr (other, found) ↦ inr (other, sym found ∙ e)
]

pub not_next : {K : Type 0} {s : Store K} {p : ℕ} → IsLive s p → s.next ≡ p → ⊥
not_next h e = omega (arith, h.below)

pub install-IsValid :
    {K : Type 0} (address : ℕ) (key : K) (timeout : ℕ) (s : Store K)
    → Others address s
    → IsValid (install address key timeout s)
install-IsValid address key timeout s others = record {
  live = λ a p e. elim (install_map address key timeout s a p e) [
    | inl (same, fresh) ↦
        subst (IsLive (install address key timeout s)) fresh (install-fresh address key timeout s)
    | inr (other, found) ↦ install-older address key timeout s p (others.live a p other found)
  ];
  apart = λ a b p e f.
      let second = install_map address key timeout s b p f in
      elim (install_map address key timeout s a p e) [
        | inl (same_a, fresh) ↦ elim second [
          | inl (same_b, _) ↦ same_a ∙ sym same_b
          | inr (other, found) ↦ absurd (not_next (others.live b p other found) fresh)
        ]
        | inr (other, found) ↦ elim second [
          | inl (_, fresh) ↦ absurd (not_next (others.live a p other found) fresh)
          | inr (_, found_b) ↦ others.apart a b p found found_b
        ]
      ];
}

pub IsValid-Others : {K : Type 0} (address : ℕ) (s : Store K) → IsValid s → Others address s
IsValid-Others address s v = record { live = λ a p other. v.live a p; apart = v.apart }

-- A store in which only the object of `p` is another than in `s`.
changed_object :
    {K : Type 0} (p : ℕ) (o : Option (Entry K)) (s : Store K) (q : ℕ)
    → q ≢ p
    → IsLive s q
    → IsLive (record s { objects = update s.objects p o }) q
changed_object p o s q other h = record {
  below = h.below;
  key = h.key;
  timed = h.timed;
  object = update_other s.objects p o q other ∙ h.object;
}

pub changed_object-Others :
    {K : Type 0} (address p : ℕ) (o : Option (Entry K)) (s : Store K)
    → IsValid s
    → s.unlocked address ≡ some p
    → Others address (record s { objects = update s.objects p o })
changed_object-Others address p o s v here = record {
  live = λ a q other e.
      changed_object p o s q (λ same. other (v.apart a address p (e ∙ ap some same) here))
        (v.live a q e);
  apart = v.apart;
}
