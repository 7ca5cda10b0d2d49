-- ===== src/Account/Certificate/Layout.antt =====
-- The fields that `CheckCertificateSig` reads are the arguments of the contract call's encoding.
use mathlib.Core.Path.{subst}
use address_verification.Base.{
  ℕ, ◌+◌, ◌-◌, ◌*◌, ◌/◌, ◌%◌, ◌^◌, ◌<◌, ◌≤◌, ◌≡◌, refl, sym, ap, ◌∙◌, [], ◌∷◌, ◌++◌, append_assoc,
  some, arith, Bytes, length, take, drop, slice, replicate, length-append, take-append_exact,
  drop-append_exact,
}
use address_verification.Base.Outcome.{ok}
use address_verification.Account.Certificate.{
  slice_or_panic, uint16, add16, read_uint16, certificate_fields,
}

-- `piece` stands in `bytes` from index `k` on.
pub record IsAt (bytes : Bytes) (k : ℕ) (piece : Bytes) : Type 0 where
  pub before : Bytes
  pub after : Bytes
  pub bytes_lem : bytes ≡ before ++ (piece ++ after)
  pub length-before : length before ≡ k

pub IsAt-left : {bytes : Bytes} {k : ℕ} (a b : Bytes) → IsAt bytes k (a ++ b) → IsAt bytes k a
IsAt-left a b h = record {
  before = h.before;
  after = b ++ h.after;
  bytes_lem = h.bytes_lem ∙ ap (λ l. h.before ++ l) (append_assoc a b h.after);
  length-before = h.length-before;
}

pub IsAt-right :
    {bytes : Bytes} {k : ℕ} (a b : Bytes) → IsAt bytes k (a ++ b) → IsAt bytes (k + length a) b
IsAt-right a b h = record {
  before = h.before ++ a;
  after = h.after;
  bytes_lem =
      h.bytes_lem
      ∙ ap (λ l. h.before ++ l) (append_assoc a b h.after)
      ∙ sym (append_assoc h.before a (b ++ h.after));
  length-before = omega (arith, length-append h.before a, h.length-before);
}

slice_or_panic-length :
    (bytes : Bytes) (from to : ℕ)
    → from ≤ to
    → to ≤ length bytes
    → slice_or_panic bytes from to ≡ some (slice bytes from to)
unfolding slice_or_panic
slice_or_panic-length bytes from to h k = ground arith

slice_or_panic-IsAt :
    (bytes : Bytes) (k to : ℕ) (piece : Bytes)
    → IsAt bytes k piece
    → to ≡ k + length piece
    → slice_or_panic bytes k to ≡ some piece
slice_or_panic-IsAt bytes k to piece h e =
    let size = ap length h.bytes_lem in
    let sizes = length-append h.before (piece ++ h.after) in
    let sizes₁ = length-append piece h.after in
    slice_or_panic-length bytes k to (omega arith)
      (omega (arith, size, sizes, sizes₁, h.length-before))
    ∙ ap some (
        ap (λ l. take (to - k) (drop k l)) h.bytes_lem
        ∙ ap (take (to - k)) (drop-append_exact h.before (piece ++ h.after) k h.length-before)
        ∙ take-append_exact piece h.after (to - k) (omega (arith, e)))

-- A number as a 32-byte word of the encoding.
abbrev pub word : ℕ → Bytes
word n = replicate 30 0 ++ n / 256 ∷ n % 256 ∷ []

read_uint16-word :
    (bytes : Bytes) (k from to n : ℕ)
    → IsAt bytes k (word n)
    → n < 2 ^ 16
    → from ≡ k + 30
    → to ≡ k + 32
    → read_uint16 bytes from to ≡ ok n
unfolding read_uint16 uint16
read_uint16-word bytes k from to n h small e f =
    let digits : IsAt bytes from (n / 256 ∷ n % 256 ∷ []) =
      subst (λ (t : ℕ). IsAt bytes t (n / 256 ∷ n % 256 ∷ [])) (omega (arith, e))
        (IsAt-right (replicate 30 0) (n / 256 ∷ n % 256 ∷ []) h) in
    let sum : n / 256 * 256 + n % 256 ≡ n = omega arith in
    rw (slice_or_panic-IsAt bytes from to (n / 256 ∷ n % 256 ∷ []) digits (omega (arith, e, f)))
      (ap (λ (t : ℕ). ok t) sum)

-- Argument `i` of the call is `piece`: its word gives the position, behind the tag of 4 bytes, of
-- the word of the length, which the bytes follow.
pub record IsArgument (payload : Bytes) (i : ℕ) (piece : Bytes) : Type 0 where
  pub position : ℕ
  pub head : IsAt payload (4 + 32 * i) (word position)
  pub tail : IsAt payload (4 + position) (word (length piece) ++ piece)
  pub small : position + 36 + length piece < 2 ^ 16

read_uint16-head :
    (payload : Bytes) (i from to : ℕ) (piece : Bytes) (a : IsArgument payload i piece)
    → from ≡ 34 + 32 * i
    → to ≡ 36 + 32 * i
    → read_uint16 payload from to ≡ ok a.position
read_uint16-head payload i from to piece a e f =
    read_uint16-word payload (4 + 32 * i) from to a.position a.head (omega (arith, a.small))
      (omega arith) (omega arith)

add16-small : (a b : ℕ) → a + b < 2 ^ 16 → add16 a b ≡ a + b
unfolding add16
add16-small a b h = omega arith

read_uint16-length :
    (payload : Bytes) (i : ℕ) (piece : Bytes) (a : IsArgument payload i piece)
    → read_uint16 payload (add16 a.position 34) (add16 a.position 36) ≡ ok (length piece)
read_uint16-length payload i piece a =
    read_uint16-word payload (4 + a.position) _ _ (length piece)
      (IsAt-left (word (length piece)) piece a.tail) (omega (arith, a.small))
      (omega (arith, a.small, add16-small a.position 34))
      (omega (arith, a.small, add16-small a.position 36))

slice_or_panic-piece :
    (payload : Bytes) (i : ℕ) (piece : Bytes) (a : IsArgument payload i piece)
    → slice_or_panic payload (add16 a.position 36) (add16 (add16 a.position 36) (length piece))
      ≡ some piece
slice_or_panic-piece payload i piece a =
    let first : add16 a.position 36 ≡ a.position + 36 =
      add16-small a.position 36 (omega (arith, a.small)) in
    let last : add16 (a.position + 36) (length piece) ≡ a.position + 36 + length piece =
      add16-small (a.position + 36) (length piece) (omega (arith, a.small)) in
    let here : IsAt payload (a.position + 36) piece =
      subst (λ (t : ℕ). IsAt payload t piece) (omega arith)
        (IsAt-right (word (length piece)) piece a.tail) in
    rw first (slice_or_panic-IsAt payload (a.position + 36) _ piece here last)

-- On a payload that encodes three byte strings as its arguments, wherever they stand within 2 ^ 16
-- bytes, the three fields read are these strings.
pub certificate_fields-IsArgument :
    (payload public sign ca : Bytes)
    → IsArgument payload 0 public
    → IsArgument payload 1 sign
    → IsArgument payload 2 ca
    → certificate_fields payload ≡ ok (public, sign, ca)
unfolding certificate_fields
certificate_fields-IsArgument payload public sign ca a b c =
    rw
      (
        read_uint16-head payload 0 34 36 public a refl refl,
        read_uint16-head payload 1 66 68 sign b refl refl,
        read_uint16-head payload 2 98 100 ca c refl refl,
        read_uint16-length payload 0 public a,
        read_uint16-length payload 1 sign b,
        read_uint16-length payload 2 ca c,
        slice_or_panic-piece payload 0 public a,
        slice_or_panic-piece payload 1 sign b,
        slice_or_panic-piece payload 2 ca c,
      )
      refl
