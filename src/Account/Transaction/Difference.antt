-- ===== src/Account/Transaction/Difference.antt =====
-- The difference of two lists of transactions.
use mathlib.Core.Path.{subst}
use mathlib.Core.Bool.{true≢false}
use mathlib.Core.List.{Memᴰ}
use address_verification.Base.{
  ◌≡◌, refl, sym, ap, ◌∙◌, ◌↔◌, inl, inr, List, [], ◌∷◌, Bool, true, false, Bool-cases,
  if◌then◌else◌, ◌≢◌,
}
use address_verification.Account.Transaction.{
  TxData, Transaction, transaction_hash, remove_set, has_key, keep_unremoved, tx_difference,
}

module _ {A H : Type 0} (same : H → H → Bool) (rlp_hash : TxData A H → H)
    (same_iff : (h k : H) → (same h k ≡ true) ↔ (h ≡ k)) where
  no_member : {T : Type 0} {x : T} → Memᴰ x [] → ⊥
  no_member m = elim m [ ]

  -- What `tx.Hash()` gives.
  abbrev pub hash_of : Transaction A H → H
  hash_of tx = (transaction_hash rlp_hash tx).0

  same-false : (h k : H) → same h k ≡ false → h ≢ k
  same-false h k e f = true≢false (sym ((same_iff h k).1 f) ∙ e)

  remove_set-mem :
      (h : H) (b : List (Transaction A H))
      → Memᴰ h (remove_set rlp_hash b)
      → (tx : Transaction A H) × Memᴰ tx b × (hash_of tx ≡ h)
  unfolding remove_set
  remove_set-mem h [] m = elim m [ ]
  remove_set-mem h (tx ∷ b) (Memᴰ.head e) = (tx, Memᴰ.head refl, sym e)
  remove_set-mem h (tx ∷ b) (Memᴰ.tail m) =
      let (tx₁, m₁, e) = remove_set-mem h b m in (tx₁, Memᴰ.tail m₁, e)

  mem-remove_set :
      (tx : Transaction A H) (b : List (Transaction A H))
      → Memᴰ tx b
      → Memᴰ (hash_of tx) (remove_set rlp_hash b)
  unfolding remove_set
  mem-remove_set tx [] m = elim m [ ]
  mem-remove_set tx (tx₁ ∷ b) (Memᴰ.head e) = Memᴰ.head (ap hash_of e)
  mem-remove_set tx (tx₁ ∷ b) (Memᴰ.tail m) = Memᴰ.tail (mem-remove_set tx b m)

  has_key-mem : (h : H) (ks : List H) → has_key same h ks ≡ true → Memᴰ h ks
  unfolding has_key
  has_key-mem h [] e = absurd (true≢false (sym e))
  has_key-mem h (k ∷ ks) e = elim (Bool-cases (same h k)) [
    | inl s ↦ Memᴰ.head ((same_iff h k).0 s)
    | inr s ↦
        Memᴰ.tail (has_key-mem h ks (sym (ap (λ b. if b then true else has_key same h ks) s) ∙ e))
  ]

  mem-has_key : (h : H) (ks : List H) → Memᴰ h ks → has_key same h ks ≡ true
  unfolding has_key
  mem-has_key h [] m = elim m [ ]
  mem-has_key h (k ∷ ks) (Memᴰ.head e) = rw ((same_iff h k).1 e) refl
  mem-has_key h (k ∷ ks) (Memᴰ.tail m) = elim (Bool-cases (same h k)) [
    | inl s ↦ rw s refl
    | inr s ↦ rw s (mem-has_key h ks m)
  ]

  -- The transaction is in the list and its hash is not in the set.
  abbrev pub Kept : List H → List (Transaction A H) → Transaction A H → Type 0
  Kept remove a tx = Memᴰ tx a × (has_key same (hash_of tx) remove ≡ false)

  keep_none : (remove : List H) → keep_unremoved {A = A} same rlp_hash remove [] ≡ []
  unfolding keep_unremoved
  keep_none remove = refl

  keep_removed :
      (remove : List H) (x : Transaction A H) (a : List (Transaction A H))
      → has_key same (hash_of x) remove ≡ true
      → keep_unremoved same rlp_hash remove (x ∷ a) ≡ keep_unremoved same rlp_hash remove a
  unfolding keep_unremoved
  keep_removed remove x a e = rw e refl

  keep_kept :
      (remove : List H) (x : Transaction A H) (a : List (Transaction A H))
      → has_key same (hash_of x) remove ≡ false
      → keep_unremoved same rlp_hash remove (x ∷ a) ≡ x ∷ keep_unremoved same rlp_hash remove a
  unfolding keep_unremoved
  keep_kept remove x a e = rw e refl

  keep_unremoved-Kept :
      (remove : List H) (a : List (Transaction A H)) (tx : Transaction A H)
      → Memᴰ tx (keep_unremoved same rlp_hash remove a)
      → Kept remove a tx
  keep_unremoved-Kept remove [] tx m = absurd (no_member (subst (Memᴰ tx) (keep_none remove) m))
  keep_unremoved-Kept remove (x ∷ a) tx m = elim (Bool-cases (has_key same (hash_of x) remove)) [
    | inl e ↦
        let (found, absent) =
          keep_unremoved-Kept remove a tx (subst (Memᴰ tx) (keep_removed remove x a e) m) in
        (Memᴰ.tail found, absent)
    | inr e ↦
        let rest : Memᴰ tx (keep_unremoved same rlp_hash remove a) → Kept remove (x ∷ a) tx = λ m₁.
          let (found, absent) = keep_unremoved-Kept remove a tx m₁ in (Memᴰ.tail found, absent) in
        elim (subst (Memᴰ tx) (keep_kept remove x a e) m) [
          | Memᴰ.head same_tx ↦
              (Memᴰ.head same_tx, ap (λ t. has_key same (hash_of t) remove) same_tx ∙ e)
          | Memᴰ.tail m₁ ↦ rest m₁
        ]
  ]

  Kept-keep_unremoved :
      (remove : List H) (a : List (Transaction A H)) (tx : Transaction A H)
      → Memᴰ tx a
      → has_key same (hash_of tx) remove ≡ false
      → Memᴰ tx (keep_unremoved same rlp_hash remove a)
  Kept-keep_unremoved remove [] tx m absent = elim m [ ]
  Kept-keep_unremoved remove (x ∷ a) tx (Memᴰ.head e) absent =
      subst (Memᴰ tx)
        (sym (keep_kept remove x a (sym (ap (λ t. has_key same (hash_of t) remove) e) ∙ absent)))
        (Memᴰ.head e)
  Kept-keep_unremoved remove (x ∷ a) tx (Memᴰ.tail m) absent =
      let rest = Kept-keep_unremoved remove a tx m absent in
      elim (Bool-cases (has_key same (hash_of x) remove)) [
        | inl e ↦ subst (Memᴰ tx) (sym (keep_removed remove x a e)) rest
        | inr e ↦ subst (Memᴰ tx) (sym (keep_kept remove x a e)) (Memᴰ.tail rest)
      ]

  -- Where the test of two hashes decides that they are equal, a transaction is in the difference
  -- exactly if it is in the first list and no transaction of the second list has its hash.
  pub tx_difference_iff :
      (a b : List (Transaction A H)) (tx : Transaction A H)
      → Memᴰ tx (tx_difference same rlp_hash a b)
        ↔ (Memᴰ tx a × ((other : Transaction A H) → Memᴰ other b → hash_of other ≢ hash_of tx))
  unfolding tx_difference
  tx_difference_iff a b tx = (
    λ m.
        let (found, absent) = keep_unremoved-Kept (remove_set rlp_hash b) a tx m in
        (
          found,
          λ other m₁ e. true≢false (
              sym (
                mem-has_key (hash_of tx) (remove_set rlp_hash b)
                  (subst (λ h. Memᴰ h (remove_set rlp_hash b)) e (mem-remove_set other b m₁)))
              ∙ absent),
        ),
    λ (found, none_same).
        Kept-keep_unremoved (remove_set rlp_hash b) a tx found
          (elim (Bool-cases (has_key same (hash_of tx) (remove_set rlp_hash b))) [
            | inl e ↦
                let (other, m₁, e₁) =
                  remove_set-mem (hash_of tx) b
                    (has_key-mem (hash_of tx) (remove_set rlp_hash b) e) in
                absurd (none_same other m₁ e₁)
            | inr e ↦ e
          ]),
  )
