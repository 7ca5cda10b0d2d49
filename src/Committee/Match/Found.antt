-- ===== src/Committee/Match/Found.antt =====
-- What the search over the pairs of shares finds.
use address_verification.Base.{
  ◌%◌, ◌≡◌, ◌↔◌, refl, List, [], Option, none, some, Bool, true, false, Bytes, length, All,
}
use address_verification.Sssa.Combine.{Point}
use address_verification.Committee.Match.{Scanner, Search, check_all, answer, check_get_valid_a1s1}
use address_verification.Committee.Match.Loops.{
  AnyTwo, HasMatch, IsSearch, hit, miss, true_ne_false, IsSearch-check_all,
}

-- Two messages, in their order, with a share each that match the address, which can be read.
unfoldable pub IsMatched : {P S : Type 0} → Scanner P S → List Bytes → Option (Point × S) → Type 0
IsMatched scanner messages none = ⊥
IsMatched scanner messages (some (a1, s1)) = AnyTwo (HasMatch scanner a1 s1) messages

answer-IsSearch :
    {P : Type 0} {s : Search} → IsSearch P s → (b : Bool) × (answer s ≡ some b) × ((b ≡ true) ↔ P)
unfolding answer
answer-IsSearch (hit p) = (true, refl, (λ _. p, λ _. refl))
answer-IsSearch (miss f) = (false, refl, (λ h. absurd (true_ne_false refl h), λ p. absurd (f p)))

found_lem :
    {P S : Type 0} (scanner : Scanner P S) (messages : List Bytes) (pair : Option (Point × S))
    → All (λ msg. length msg % 132 ≡ 0) messages
    → (b : Bool) × ((elim pair [
      | none ↦ some false
      | some (a1, s1) ↦ answer (check_all scanner a1 s1 0 messages messages)
    ])
        ≡ some b)
      × ((b ≡ true) ↔ IsMatched scanner messages pair)
unfolding IsMatched
found_lem scanner messages none h =
    (false, refl, (λ h. absurd (true_ne_false refl h), λ p. absurd p))
found_lem scanner messages (some (a1, s1)) h =
    answer-IsSearch (IsSearch-check_all scanner a1 s1 [] messages h)

-- Where every message under the address is made of texts of 132 bytes, `CheckGetValidA1S1` answers
-- without a panic, and the answer is true if and only if the address can be read and two messages
-- hold, in their order, a share each that combine to a key which the scan takes to the address.
pub check_get_valid_a1s1_iff :
    {P S : Type 0} (scanner : Scanner P S) (msg_map : Bytes → List Bytes) (a1s1 : Bytes)
    → All (λ msg. length msg % 132 ≡ 0) (msg_map a1s1)
    → (b : Bool) × (check_get_valid_a1s1 scanner msg_map a1s1 ≡ some b)
      × ((b ≡ true) ↔ IsMatched scanner (msg_map a1s1) (scanner.generate_pk_pair a1s1))
unfolding check_get_valid_a1s1
check_get_valid_a1s1_iff scanner msg_map a1s1 h =
    found_lem scanner (msg_map a1s1) (scanner.generate_pk_pair a1s1) h
