-- ===== src/Committee/Match/Loops.antt =====
-- The loops of `CheckGetValidA1S1` find a match if there is one.
use address_verification.Base.{
  ℕ, suc, ◌+◌, ◌/◌, ◌%◌, ◌<◌, ◌≡◌, ◌⊎◌, inl, inr, refl, sym, ap, ◌∙◌, List, [], ◌∷◌, ◌++◌, ◌==◌,
  ==_iff, some, Bool, true, false, ltb, if◌then◌else◌, arith, Bytes, length, All, append_assoc,
  length-append,
}
use address_verification.Base.Outcome.{Outcome, ok, err}
use address_verification.Sssa.Combine.{Error, Point}
use address_verification.Sssa.Pubs.{combine_ecdsa_pubs}
use address_verification.Sssa.Threshold.{same_point}
use address_verification.Committee.Message.{extract_pubshare, pubshare_pieces}
use address_verification.Committee.Message.Pieces.{length-pubshare_pieces}
use address_verification.Committee.Match.{
  Scanner, Search, continues, returned, or_else, check_pair, check_second, check_first,
  check_messages, check_later, check_all,
}
use address_verification.Committee.Match.Pairs.{Ends, with_ok, with_err, Ends-combine_ecdsa_pubs}

-- One of the list, and two of the list in its order.
abbrev pub Any : {A : Type 0} → (A → Type 0) → List A → Type 0
Any P [] = ⊥
Any P (x ∷ xs) = P x ⊎ Any P xs

abbrev pub AnyTwo : {A : Type 0} → (A → A → Type 0) → List A → Type 0
AnyTwo P [] = ⊥
AnyTwo P (x ∷ xs) = Any (P x) xs ⊎ AnyTwo P xs

-- A search that returns true if something is there, and goes on if it is not.
pub data IsSearch (P : Type 0) : Search → Type 0 where
  hit : P → IsSearch P (returned true)
  miss : ¬ P → IsSearch P continues

IsSearch-or_else :
    {P Q : Type 0} {s t : Search} → IsSearch P s → IsSearch Q t → IsSearch (P ⊎ Q) (or_else s t)
IsSearch-or_else (hit p) k = hit (inl p)
IsSearch-or_else (miss f) (hit q) = hit (inr q)
IsSearch-or_else (miss f) (miss g) = miss (λ h. elim h [ inl p ↦ f p | inr q ↦ g q ])

ok-injective : {a b : Bytes} {o : Outcome Error Bytes} → o ≡ ok a → o ≡ ok b → a ≡ b
ok-injective h k = cc

ok_ne_err : {a : Bytes} {e : Error} → err e ≡ ok a → ⊥
ok_ne_err h = cc

pub true_ne_false : {b : Bool} → b ≡ false → b ≡ true → ⊥
true_ne_false h k = cc

Ends-cases :
    {o : Outcome Error Bytes} → Ends o → ((a : Bytes) × (o ≡ ok a)) ⊎ ((e : Error) × (o ≡ err e))
Ends-cases (with_ok a) = inl (a, refl)
Ends-cases (with_err e) = inr (e, refl)

-- The pieces of 132 bytes of a message.
abbrev pub pieces : Bytes → List Bytes
pieces msg = pubshare_pieces (length msg / 132) 0 msg

-- What `extractPubshare` cuts are pieces of 132 bytes.
pub extract_pubshare-pieces :
    (msg : Bytes) → length msg % 132 ≡ 0 → extract_pubshare msg ≡ some (pieces msg)
unfolding extract_pubshare
extract_pubshare-pieces msg h =
    let whole : (length msg % 132 == 0) ≡ true = (==_iff (length msg % 132) 0).1 h in
    rw (whole, extract_pubshare) refl

length-pieces :
    (msg : Bytes) → length msg % 132 ≡ 0 → All (λ piece. length piece ≡ 132) (pieces msg)
length-pieces msg h = length-pubshare_pieces (length msg / 132) 0 msg (omega arith)

module _ {P S : Type 0} (scanner : Scanner P S) (a1 : Point) (s1 : S) where
  -- Two shares that combine to a key which the scan takes to the first half of the address.
  abbrev pub IsMatch : Bytes → Bytes → Type 0
  IsMatch share share₁ =
      (combined : Bytes) × (combine_ecdsa_pubs scanner.curve (share ∷ share₁ ∷ []) ≡ ok combined)
      × (same_point a1 (scanner.scan_pub_shares_a1 combined s1) ≡ true)

  -- A share of the one message and a share of the other.
  abbrev pub HasMatch : Bytes → Bytes → Type 0
  HasMatch msg msg₁ = Any (λ share. Any (IsMatch share) (pieces msg₁)) (pieces msg)

  IsSearch-result :
      (combined : Bytes) (o : Outcome Error Bytes)
      → o ≡ ok combined
      → (b : Bool) → same_point a1 (scanner.scan_pub_shares_a1 combined s1) ≡ b
      → IsSearch
          ((c : Bytes) × (o ≡ ok c) × (same_point a1 (scanner.scan_pub_shares_a1 c s1) ≡ true))
          (if b then returned true else continues)
  IsSearch-result combined o h true e = hit (combined, h, e)
  IsSearch-result combined o h false e = miss (λ found.
      let (c, k, matched) = found in true_ne_false (same_lem c (ok-injective k h) ∙ e) matched)
    where
      same_lem :
          (c : Bytes)
          → c ≡ combined
          → same_point a1 (scanner.scan_pub_shares_a1 c s1)
            ≡ same_point a1 (scanner.scan_pub_shares_a1 combined s1)
      same_lem c same = ap (λ (t : Bytes). same_point a1 (scanner.scan_pub_shares_a1 t s1)) same

  IsSearch-check_pair :
      (share share₁ : Bytes)
      → length share ≡ 132
      → length share₁ ≡ 132
      → IsSearch (IsMatch share share₁) (check_pair scanner a1 s1 share share₁)
  unfolding check_pair
  IsSearch-check_pair share share₁ h h₁ =
      elim (Ends-cases (Ends-combine_ecdsa_pubs scanner.curve share share₁ h h₁)) [
        | inl (combined, e) ↦ rw (e, check_pair) (IsSearch-result combined _ refl _ refl)
        | inr (error, e) ↦ rw (e, check_pair) (miss (λ found. let (_, k, _) = found in ok_ne_err k))
      ]

  IsSearch-check_second :
      (share : Bytes) (shares : List Bytes)
      → length share ≡ 132
      → All (λ piece. length piece ≡ 132) shares
      → IsSearch (Any (IsMatch share) shares) (check_second scanner a1 s1 share shares)
  unfolding check_second
  IsSearch-check_second share [] h hs = miss (λ x. x)
  IsSearch-check_second share (share₁ ∷ shares) h (h₁, hs) =
      IsSearch-or_else (IsSearch-check_pair share share₁ h h₁)
        (IsSearch-check_second share shares h hs)

  IsSearch-check_first :
      (shares shares₁ : List Bytes)
      → All (λ piece. length piece ≡ 132) shares
      → All (λ piece. length piece ≡ 132) shares₁
      → IsSearch
          (Any (λ share. Any (IsMatch share) shares₁) shares)
          (check_first scanner a1 s1 shares shares₁)
  unfolding check_first
  IsSearch-check_first [] shares₁ h hs = miss (λ x. x)
  IsSearch-check_first (share ∷ shares) shares₁ (h, hs) hs₁ =
      IsSearch-or_else (IsSearch-check_second share shares₁ h hs₁)
        (IsSearch-check_first shares shares₁ hs hs₁)

  IsSearch-check_messages :
      (msg msg₁ : Bytes)
      → length msg % 132 ≡ 0
      → length msg₁ % 132 ≡ 0
      → IsSearch (HasMatch msg msg₁) (check_messages scanner a1 s1 msg msg₁)
  unfolding check_messages
  IsSearch-check_messages msg msg₁ h h₁ =
      rw (extract_pubshare-pieces msg h, extract_pubshare-pieces msg₁ h₁, check_messages)
        (IsSearch-check_first (pieces msg) (pieces msg₁) (length-pieces msg h)
          (length-pieces msg₁ h₁))

  -- Up to message i itself nothing is done.
  check_later-skips :
      (i j : ℕ) (msg : Bytes) (before after : List Bytes)
      → j + length before ≡ suc i
      → check_later scanner a1 s1 i msg j (before ++ after)
        ≡ check_later scanner a1 s1 i msg (suc i) after
  unfolding check_later
  check_later-skips i j msg [] after h =
      ap (λ (t : ℕ). check_later scanner a1 s1 i msg t after) (omega arith)
  check_later-skips i j msg (m ∷ before) after h =
      let no : ltb i j ≡ false = ground arith in
      rw no (check_later-skips i (j + 1) msg before after (omega arith))

  IsSearch-check_later :
      (i j : ℕ) (msg : Bytes) (messages : List Bytes)
      → i < j
      → length msg % 132 ≡ 0
      → All (λ m. length m % 132 ≡ 0) messages
      → IsSearch (Any (HasMatch msg) messages) (check_later scanner a1 s1 i msg j messages)
  unfolding check_later
  IsSearch-check_later i j msg [] h k ks = miss (λ x. x)
  IsSearch-check_later i j msg (m ∷ messages) h k (k₁, ks) =
      let yes : ltb i j ≡ true = ground arith in
      rw yes (
        IsSearch-or_else (IsSearch-check_messages msg m k k₁)
          (IsSearch-check_later i (j + 1) msg messages (omega arith) k ks))

  pub IsSearch-check_all :
      (before messages : List Bytes)
      → All (λ m. length m % 132 ≡ 0) messages
      → IsSearch
          (AnyTwo HasMatch messages)
          (check_all scanner a1 s1 (length before) (before ++ messages) messages)
  unfolding check_all
  IsSearch-check_all before [] ks = miss (λ x. x)
  IsSearch-check_all before (msg ∷ messages) (k, ks) =
      let next : length (before ++ msg ∷ []) ≡ length before + 1 =
        length-append before (msg ∷ []) in
      let all : (before ++ msg ∷ []) ++ messages ≡ before ++ msg ∷ messages =
        append_assoc before (msg ∷ []) messages in
      let skips : check_later scanner a1 s1 (length before) msg 0 (before ++ msg ∷ messages)
          ≡ check_later scanner a1 s1 (length before) msg (suc (length before)) messages =
        ap (check_later scanner a1 s1 (length before) msg 0) (sym all)
        ∙ check_later-skips (length before) 0 msg (before ++ msg ∷ []) messages (omega arith) in
      let rest : IsSearch (AnyTwo HasMatch messages)
          (check_all scanner a1 s1 (length before + 1) (before ++ msg ∷ messages) messages) =
        rw (sym next, sym all) (IsSearch-check_all (before ++ msg ∷ []) messages ks) in
      rw skips (
        IsSearch-or_else
          (IsSearch-check_later (length before) (suc (length before)) msg messages (omega arith) k
            ks)
          rest)
