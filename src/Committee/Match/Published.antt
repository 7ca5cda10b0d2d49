-- ===== src/Committee/Match/Published.antt =====
-- From the shares that the servers publish with `GeneratePubShare` to the account that
-- `CheckGetValidA1S1` finds.
use address_verification.Base.{
  ℕ, suc, ◌*◌, ◌%◌, ◌^◌, ◌<◌, ◌≤◌, ◌≡◌, ◌≢◌, inl, inr, sym, ap, ap₂, ◌∙◌, List, [], ◌∷◌, ◌++◌, map,
  Option, some, true, arith, Bytes, length, All,
}
use mathlib.Core.Path.{subst}
use address_verification.Base.Int.{ℤ, pos}
use address_verification.Base.Outcome.{ok}
use address_verification.Sssa.Field.{default_prime, evaluate_polynomial}
use address_verification.Sssa.Base64.{to_base64}
use address_verification.Sssa.Base64.RoundTrip.{length-to_base64}
use address_verification.Sssa.Combine.{Point}
use address_verification.Sssa.Pubs.{combine_ecdsa_pubs}
use address_verification.Sssa.Pubs.Multiples.{IsMultiples}
use address_verification.Sssa.Pubs.Printed.{IsPrintable, print_triple}
use address_verification.Sssa.Pubs.Recovery.{
  integers, share_at, combine_ecdsa_pubs-evaluate_polynomial,
}
use address_verification.Sssa.Threshold.{same_point}
use address_verification.Committee.Publish.{share_pub_piece, share_pub_str}
use address_verification.Committee.Publish.RoundTrip.{
  length-share_pub_str, extract_pubshare-share_pub_str,
}
use address_verification.Committee.Match.{Scanner, check_get_valid_a1s1}
use address_verification.Committee.Match.Loops.{
  Any, AnyTwo, pieces, IsMatch, HasMatch, extract_pubshare-pieces,
}
use address_verification.Committee.Match.Found.{IsMatched, check_get_valid_a1s1_iff}

Any-map :
    {A B : Type 0} (f : A → B) (P : A → Type 0) (Q : B → Type 0) (xs : List A)
    → ((x : A) → P x → Q (f x))
    → Any P xs
    → Any Q (map f xs)
Any-map f P Q [] h k = k
Any-map f P Q (x ∷ xs) h (inl k) = inl (h x k)
Any-map f P Q (x ∷ xs) h (inr k) = inr (Any-map f P Q xs h k)

Any-impl :
    {A : Type 0} (P Q : A → Type 0) (xs : List A) → ((x : A) → P x → Q x) → Any P xs → Any Q xs
Any-impl P Q [] h k = k
Any-impl P Q (x ∷ xs) h (inl k) = inl (h x k)
Any-impl P Q (x ∷ xs) h (inr k) = inr (Any-impl P Q xs h k)

AnyTwo-impl :
    {A : Type 0} (P Q : A → A → Type 0) (xs : List A)
    → ((x y : A) → P x y → Q x y)
    → AnyTwo P xs
    → AnyTwo Q xs
AnyTwo-impl P Q [] h k = k
AnyTwo-impl P Q (x ∷ xs) h (inl k) = inl (Any-impl (P x) (Q x) xs (h x) k)
AnyTwo-impl P Q (x ∷ xs) h (inr k) = inr (AnyTwo-impl P Q xs h k)

-- The two messages stand in the list, in this order.
abbrev pub InOrder : Bytes → Bytes → List Bytes → Type 0
InOrder msg msg₁ = AnyTwo (λ m m₁. (m ≡ msg) × (m₁ ≡ msg₁))

some_inj : {a b : List Bytes} → some a ≡ some b → a ≡ b
some_inj e = cc

-- The shares of the keys that the server x with the share k publishes.
abbrev pub published : {K : Type 0} → (ℤ → K → ℤ × ℤ) → List K → ℕ → ℕ → Bytes
published multiply keys x k = share_pub_str multiply (to_base64 (pos x)) (pos k) keys

module _ {K : Type 0} (multiply : ℤ → K → ℤ × ℤ)
    (multiply_lem : (share : ℤ) (key : K)
      → (x : ℕ) × (y : ℕ) × (multiply share key ≡ (pos x, pos y)) × (x < 2 ^ 256) × (y < 2 ^ 256))
    (keys : List K) where
  id_size : (x : ℕ) → x < default_prime → length (to_base64 (pos x)) ≡ 44
  id_size x h = length-to_base64 x (omega arith)

  pub published-length :
      (x k : ℕ) → x < default_prime → length (published multiply keys x k) % 132 ≡ 0
  published-length x k h =
      let size : length (published multiply keys x k) ≡ 132 * length keys =
        length-share_pub_str multiply multiply_lem (to_base64 (pos x)) (pos k) keys (id_size x h) in
      omega arith

  pieces-published :
      (x k : ℕ)
      → x < default_prime
      → pieces (published multiply keys x k)
        ≡ map (share_pub_piece multiply (to_base64 (pos x)) (pos k)) keys
  pieces-published x k h = some_inj (
      sym (extract_pubshare-pieces (published multiply keys x k) (published-length x k h))
      ∙ extract_pubshare-share_pub_str multiply multiply_lem (to_base64 (pos x)) (pos k) keys
          (id_size x h))

  module _ {P S : Type 0} (scanner : Scanner P S) (a1 : Point) (s1 : S) (account : K)
      (plane : ℕ → ℕ × ℕ)
      (multiply_account : (k : ℕ) → multiply (pos k) account ≡ integers plane k) where
    share_pub_piece-print_triple :
        (x k : ℕ)
        → share_pub_piece multiply (to_base64 (pos x)) (pos k) account
          ≡ print_triple (share_at plane x k)
    unfolding share_pub_piece
    share_pub_piece-print_triple x k =
        ap (λ (q : ℤ × ℤ). to_base64 (pos x) ++ to_base64 q.0 ++ to_base64 q.1) (multiply_account k)

    -- The shares of the account's key match, and the account is among the keys.
    HasMatch-published :
        (x k y l : ℕ) (combined : Bytes)
        → x < default_prime
        → y < default_prime
        → Any (λ key. key ≡ account) keys
        → combine_ecdsa_pubs scanner.curve
            (print_triple (share_at plane x k) ∷ print_triple (share_at plane y l) ∷ [])
          ≡ ok combined
        → same_point a1 (scanner.scan_pub_shares_a1 combined s1) ≡ true
        → HasMatch scanner a1 s1 (published multiply keys x k) (published multiply keys y l)
    HasMatch-published x k y l combined hx hy has e found =
        let piece : ℕ → ℕ → K → Bytes =
          λ z m. share_pub_piece multiply (to_base64 (pos z)) (pos m) in
        let of_account : (z m : ℕ) (key : K)
            → key ≡ account
            → piece z m key ≡ print_triple (share_at plane z m) =
          λ z m key same. ap (piece z m) same ∙ share_pub_piece-print_triple z m in
        let match : (key key₁ : K)
            → key ≡ account
            → key₁ ≡ account
            → IsMatch scanner a1 s1 (piece x k key) (piece y l key₁) =
          λ key key₁ same same₁. (
            combined,
            ap₂ (λ (s t : Bytes). combine_ecdsa_pubs scanner.curve (s ∷ t ∷ []))
                  (of_account x k key same) (of_account y l key₁ same₁)
                ∙ e,
            found,
          ) in
        subst
          (λ l₁.
            Any (λ share. Any (IsMatch scanner a1 s1 share) l₁)
              (pieces (published multiply keys x k)))
          (sym (pieces-published y l hy))
          (subst (Any (λ share. Any (IsMatch scanner a1 s1 share) (map (piece y l) keys)))
            (sym (pieces-published x k hx))
            (Any-map (piece x k) (λ key. key ≡ account) _ keys
              (λ key same.
                Any-map (piece y l) (λ key. key ≡ account) _ keys (λ key₁. match key key₁ same) has)
              has))

IsMatched-some :
    {P S : Type 0} (scanner : Scanner P S) (messages : List Bytes) (a1 : Point) (s1 : S)
    (pair : Option (Point × S))
    → pair ≡ some (a1, s1)
    → AnyTwo (HasMatch scanner a1 s1) messages
    → IsMatched scanner messages pair
unfolding IsMatched
IsMatched-some scanner messages a1 s1 pair e h = subst (IsMatched scanner messages) (sym e) h

-- Servers publish their shares, with different numbers below the prime, of the keys of some main
-- accounts: the shares are values of a polynomial with one or two coefficients. Where the
-- constant term times the key of one of the accounts leads the scan to the first half of an address,
-- `CheckGetValidA1S1` of this address is true, as soon as the two texts stand among its messages,
-- which are all made of texts of 132 bytes. The order of the account's key is the prime, and
-- coordinates are below 2 ^ 256, those of the two shares of the account below the prime.
pub check_get_valid_a1s1-share_pub_str :
    {K P S : Type 0} (multiply : ℤ → K → ℤ × ℤ) (keys : List K) (scanner : Scanner P S)
    (msg_map : Bytes → List Bytes) (a1s1 : Bytes) (a1 : Point) (s1 : S) (account : K)
    (times : ℕ → P) (plane : ℕ → ℕ × ℕ) (c : ℕ) (cs : List ℕ) (x k y l : ℕ)
    → ((share : ℤ) (key : K)
        → (x : ℕ) × (y : ℕ) × (multiply share key ≡ (pos x, pos y)) × (x < 2 ^ 256) × (y < 2 ^ 256))
    → ((k : ℕ) → multiply (pos k) account ≡ integers plane k)
    → IsMultiples default_prime scanner.curve times (integers plane)
    → c < default_prime
    → suc (length cs) ≤ 2
    → x ≢ y
    → evaluate_polynomial default_prime (c ∷ cs) x ≡ some k
    → evaluate_polynomial default_prime (c ∷ cs) y ≡ some l
    → IsPrintable (share_at plane x k)
    → IsPrintable (share_at plane y l)
    → scanner.generate_pk_pair a1s1 ≡ some (a1, s1)
    → same_point a1 (scanner.scan_pub_shares_a1 (scanner.curve.from_ecdsa_pub (times c)) s1) ≡ true
    → Any (λ key. key ≡ account) keys
    → All (λ msg. length msg % 132 ≡ 0) (msg_map a1s1)
    → InOrder (published multiply keys x k) (published multiply keys y l) (msg_map a1s1)
    → check_get_valid_a1s1 scanner msg_map a1s1 ≡ some true
check_get_valid_a1s1-share_pub_str multiply keys scanner msg_map a1s1 a1 s1 account times plane c cs
      x k y l sizes multiples_of multiples small size apart on_x on_y hx hy reads scans has sized
      ordered =
    let (b, answered, found) = check_get_valid_a1s1_iff scanner msg_map a1s1 sized in
    let combined =
      combine_ecdsa_pubs-evaluate_polynomial scanner.curve times plane c cs x k y l multiples small
        size apart on_x on_y hx hy in
    let matched =
      HasMatch-published multiply sizes keys scanner a1 s1 account plane multiples_of x k y l _
        hx.number hy.number has combined scans in
    answered
    ∙ ap some (
        found.1 (
          IsMatched-some scanner (msg_map a1s1) a1 s1 _ reads (
            AnyTwo-impl _ _ (msg_map a1s1)
              (λ m m₁ same.
                subst (λ t. HasMatch scanner a1 s1 t m₁) (sym same.0)
                  (subst (HasMatch scanner a1 s1 _) (sym same.1) matched))
              ordered)))
