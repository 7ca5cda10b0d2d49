-- ===== src/Committee/Message/Pieces.antt =====
-- The shares that `extractPubshare` cuts a message's end into.
use address_verification.Base.{
  ℕ, zero, suc, ◌+◌, ◌-◌, ◌*◌, ◌/◌, ◌%◌, ◌≡◌, refl, sym, ap, ap₂, ◌∙◌, List, [], ◌∷◌, ◌++◌, some,
  true, arith, Bytes, length, take, drop, All, length-take, length-drop, take-drop, drop-drop,
  drop-all, ◌==◌, ==_iff,
}
use address_verification.Committee.Message.{pubshare_pieces, extract_pubshare}

-- The texts one behind the other.
abbrev pub concat : List Bytes → Bytes
concat [] = []
concat (bytes ∷ rest) = bytes ++ concat rest

concat-pubshare_pieces :
    (count i : ℕ) (bytes : Bytes)
    → length bytes ≡ 132 * (i + count)
    → concat (pubshare_pieces count i bytes) ≡ drop (132 * i) bytes
unfolding pubshare_pieces
concat-pubshare_pieces zero i bytes h = sym (drop-all (132 * i) bytes (omega arith))
concat-pubshare_pieces (suc count) i bytes h =
    let width : 132 + 132 * i - (0 + 132 * i) ≡ 132 = omega arith in
    let start : 0 + 132 * i ≡ 132 * i = omega arith in
    let next : 132 * (i + 1) ≡ 132 * i + 132 = omega arith in
    ap₂ (λ (l r : Bytes). l ++ r) (ap₂ (λ (w s : ℕ). take w (drop s bytes)) width start)
      (concat-pubshare_pieces count (i + 1) bytes (omega arith)
        ∙ ap (λ (t : ℕ). drop t bytes) next
        ∙ sym (drop-drop 132 (132 * i) bytes))
    ∙ take-drop 132 (drop (132 * i) bytes)

pub length-pubshare_pieces :
    (count i : ℕ) (bytes : Bytes)
    → length bytes ≡ 132 * (i + count)
    → All (λ piece. length piece ≡ 132) (pubshare_pieces count i bytes)
unfolding pubshare_pieces
length-pubshare_pieces zero i bytes h = tt
length-pubshare_pieces (suc count) i bytes h = (
  omega (
    arith,
    length-take (132 + 132 * i - (0 + 132 * i)) (drop (0 + 132 * i) bytes),
    length-drop (0 + 132 * i) bytes,
  ),
  length-pubshare_pieces count (i + 1) bytes (omega arith),
)

count-pubshare_pieces :
    (count i : ℕ) (bytes : Bytes) → length (pubshare_pieces count i bytes) ≡ count
unfolding pubshare_pieces
count-pubshare_pieces zero i bytes = refl
count-pubshare_pieces (suc count) i bytes = ap suc (count-pubshare_pieces count (i + 1) bytes)

-- A text of n times 132 bytes is cut into n pieces of 132 bytes, which make up the text again.
pub concat-extract_pubshare :
    (bytes : Bytes) (n : ℕ)
    → length bytes ≡ 132 * n
    → (pieces : List Bytes) × (extract_pubshare bytes ≡ some pieces)
      × (concat pieces ≡ bytes)
      × All (λ piece. length piece ≡ 132) pieces
      × (length pieces ≡ n)
unfolding extract_pubshare
concat-extract_pubshare bytes n h =
    let count : length bytes / 132 ≡ n = omega arith in
    let size : length bytes ≡ 132 * (0 + n) = omega arith in
    let whole : (length bytes % 132 == 0) ≡ true =
      (==_iff (length bytes % 132) 0).1 (omega arith) in
    let cut : extract_pubshare bytes ≡ some (pubshare_pieces n 0 bytes) =
      rw (whole, extract_pubshare) (ap (λ (t : ℕ). some (pubshare_pieces t 0 bytes)) count) in
    (
      pubshare_pieces n 0 bytes,
      cut,
      concat-pubshare_pieces n 0 bytes size,
      length-pubshare_pieces n 0 bytes size,
      count-pubshare_pieces n 0 bytes,
    )
