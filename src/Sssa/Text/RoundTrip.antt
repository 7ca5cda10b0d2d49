-- ===== src/Sssa/Text/RoundTrip.antt =====
-- `mergeIntToByte` puts together what `splitByteToInt` cuts up.
use address_verification.Base.{
  ℕ, zero, suc, ◌+◌, ◌-◌, ◌*◌, ◌/◌, ◌<◌, ◌≤◌, ◌≡◌, refl, sym, ap, ◌∙◌, List, [], ◌∷◌, ◌++◌, map,
  some, false, arith, Bytes, length, replicate, All, All-append, take, drop, length-append,
  length-replicate, length-take, length-drop, take-drop, drop-drop, drop-all, ltb,
}
use address_verification.Base.Int.{pos}
use mathlib.Core.List.{map-append}
use address_verification.Sssa.Hex.{hex_char, set_string, format_hex}
use address_verification.Sssa.Hex.Digits.{IsDigit, IsByte, spelled, length-format_hex}
use address_verification.Sssa.Text.{
  chunk, split_chunks, split_byte_to_int, merge_digits, merge_int_to_byte, trim_right,
}
use address_verification.Sssa.Text.Digits.{
  digits_of, hex_encode-digits_of, digits_of-append, length-digits_of, digits_of-IsDigit,
  hex_decode-digits_of, read_hex-spelled, pad_zeros-spelled,
}
use address_verification.Sssa.Text.Chunks.{filled, chunk-filled}

set_string-spelled :
    (ds : List ℕ)
    → 0 < length ds
    → All IsDigit ds
    → set_string (map hex_char ds) ≡ some (spelled ds 0)
unfolding set_string
set_string-spelled [] h hs = absurd (omega arith)
set_string-spelled (d ∷ ds) h hs = read_hex-spelled (d ∷ ds) 0 hs

-- A number of 64 digits in front.
merge_digits-spelled :
    (ds : List ℕ) (ns : List ℕ) (text : Bytes)
    → length ds ≡ 64
    → All IsDigit ds
    → merge_digits ns ≡ some text
    → merge_digits (spelled ds 0 ∷ ns) ≡ some (map hex_char ds ++ text)
unfolding merge_digits
merge_digits-spelled ds ns text h hs e =
    let (below, printed) = pad_zeros-spelled ds h hs in
    let fits : ltb 64 (length (format_hex (pos (spelled ds 0)))) ≡ false =
      not_above (length-format_hex (spelled ds 0) 63 below) in
    rw (fits, e, merge_digits) (ap (λ (l : Bytes). some (l ++ text)) printed)
  where
    not_above : {n : ℕ} → n ≤ 64 → ltb 64 n ≡ false
    not_above k = ground arith

All-take : (n : ℕ) (ds : List ℕ) → All IsDigit ds → All IsDigit (take n ds)
All-take zero ds h = tt
All-take (suc n) [] h = tt
All-take (suc n) (d ∷ ds) (h, hs) = (h, All-take n ds hs)

All-drop : (n : ℕ) (ds : List ℕ) → All IsDigit ds → All IsDigit (drop n ds)
All-drop zero ds h = h
All-drop (suc n) [] h = tt
All-drop (suc n) (d ∷ ds) (h, hs) = All-drop n ds hs

All-zeros : (n : ℕ) → All IsDigit (replicate n 0)
All-zeros zero = tt
All-zeros (suc n) = (omega arith, All-zeros n)

split_chunks-next :
    (hex_data : Bytes) (count i n : ℕ) (ns : List ℕ)
    → set_string (chunk hex_data i) ≡ some n
    → split_chunks count (i + 1) hex_data ≡ some ns
    → split_chunks (suc count) i hex_data ≡ some (n ∷ ns)
unfolding split_chunks
split_chunks-next hex_data count i n ns h k = rw (h, k, split_chunks) refl

-- The numbers of the chunks from number i on spell the digits from there on.
module _ (hex_data : Bytes) (full : List ℕ) (k : ℕ) (full_size : length full ≡ 64 * k)
    (full_digits : All IsDigit full)
    (chunks : (i : ℕ)
      → i < k
      → chunk hex_data i ≡ map hex_char (take 64 (drop (i * 64) full))) where
  split_chunks-merge_digits :
      (count i : ℕ)
      → i + count ≡ k
      → (ns : List ℕ) × (split_chunks count i hex_data ≡ some ns)
        × (merge_digits ns ≡ some (map hex_char (drop (i * 64) full)))
  unfolding split_chunks merge_digits
  split_chunks-merge_digits zero i h = (
    [],
    refl,
    ap (λ (l : List ℕ). some (map hex_char l)) (sym (drop-all (i * 64) full (omega arith))),
  )
  split_chunks-merge_digits (suc count) i h =
      let here : List ℕ = drop (i * 64) full in
      let group : length (take 64 here) ≡ 64 =
        omega (arith, length-take 64 here, length-drop (i * 64) full) in
      let digits : All IsDigit (take 64 here) =
        All-take 64 here (All-drop (i * 64) full full_digits) in
      let (ns, cut, merged) = split_chunks-merge_digits count (i + 1) (omega arith) in
      let text : chunk hex_data i ≡ map hex_char (take 64 here) = chunks i (omega arith) in
      let next : (i + 1) * 64 ≡ i * 64 + 64 = omega arith in
      let rest : drop 64 here ≡ drop ((i + 1) * 64) full =
        drop-drop 64 (i * 64) full ∙ ap (λ (t : ℕ). drop t full) (sym next) in
      (
        spelled (take 64 here) 0 ∷ ns,
        split_chunks-next hex_data count i (spelled (take 64 here) 0) ns
            (ap set_string text ∙ set_string-spelled (take 64 here) (omega (arith, group)) digits)
            cut,
        merge_digits-spelled (take 64 here) ns _ group digits merged
            ∙ ap some (
                ap (λ (l : List ℕ). map hex_char (take 64 here) ++ map hex_char l) (sym rest)
                ∙ sym (map-append hex_char (take 64 here) (drop 64 here))
                ∙ ap (map hex_char) (take-drop 64 here)),
      )

digits_of-zeros : (n : ℕ) → digits_of (replicate n 0) ≡ replicate (2 * n) 0
digits_of-zeros zero = refl
digits_of-zeros (suc n) =
    let next : 2 * suc n ≡ suc (suc (2 * n)) = omega arith in
    ap (λ (l : List ℕ). 0 ∷ 0 ∷ l) (digits_of-zeros n) ∙ ap (λ (t : ℕ). replicate t 0) (sym next)

zeros-IsByte : (n : ℕ) → All IsByte (replicate n 0)
zeros-IsByte zero = tt
zeros-IsByte (suc n) = (omega arith, zeros-IsByte n)

zeros-IsDigit : (n : ℕ) → All IsDigit (replicate n 0)
zeros-IsDigit zero = tt
zeros-IsDigit (suc n) = (omega arith, zeros-IsDigit n)

trim_right-zeros : (n : ℕ) → trim_right (replicate n 0) ≡ []
unfolding trim_right
trim_right-zeros zero = refl
trim_right-zeros (suc n) = rw (trim_right-zeros n, trim_right) refl

trim_right_step :
    (b : ℕ) (x y : Bytes) → trim_right x ≡ trim_right y → trim_right (b ∷ x) ≡ trim_right (b ∷ y)
unfolding trim_right
trim_right_step b x y h = rw (h, trim_right) refl

trim_right-append : (bs : Bytes) (n : ℕ) → trim_right (bs ++ replicate n 0) ≡ trim_right bs
trim_right-append [] n = trim_right-zeros n ∙ sym (trim_right-zeros 0)
trim_right-append (b ∷ bs) n = trim_right_step b (bs ++ replicate n 0) bs (trim_right-append bs n)

length-map_hex : (ds : List ℕ) → length (map hex_char ds) ≡ length ds
length-map_hex [] = refl
length-map_hex (d ∷ ds) = ap suc (length-map_hex ds)

split_byte_to_int_digits :
    (secret : Bytes)
    → let ds = digits_of secret in
      split_byte_to_int secret ≡ split_chunks ((length ds + 63) / 64) 0 (map hex_char ds)
unfolding split_byte_to_int
split_byte_to_int_digits secret =
    ap (λ (l : Bytes). split_chunks ((length l + 63) / 64) 0 l) (hex_encode-digits_of secret)
    ∙ ap (λ (t : ℕ). split_chunks ((t + 63) / 64) 0 (map hex_char (digits_of secret)))
        (length-map_hex (digits_of secret))

merge_int_to_byte_digits :
    (ns : List ℕ) (bytes : Bytes)
    → All IsByte bytes
    → merge_digits ns ≡ some (map hex_char (digits_of bytes))
    → merge_int_to_byte ns ≡ some (trim_right bytes)
unfolding merge_int_to_byte
merge_int_to_byte_digits ns bytes h e = rw (e, hex_decode-digits_of bytes h, merge_int_to_byte) refl

-- The numbers that `splitByteToInt` makes of bytes are merged by `mergeIntToByte` to the same bytes,
-- less the zero bytes at their end.
pub merge_int_to_byte-split_byte_to_int :
    (secret : Bytes)
    → All IsByte secret
    → (ns : List ℕ) × (split_byte_to_int secret ≡ some ns)
      × (merge_int_to_byte ns ≡ some (trim_right secret))
merge_int_to_byte-split_byte_to_int secret h =
    let ds : List ℕ = digits_of secret in
    let k : ℕ = (length ds + 63) / 64 in
    let pad : ℕ = 32 * k - length secret in
    let size : length ds ≡ 2 * length secret = length-digits_of secret in
    let zeros : 64 * k - length ds ≡ 2 * pad = omega (arith, size) in
    let bytes : Bytes = secret ++ replicate pad 0 in
    let bytes_lem : All IsByte bytes =
      All-append IsByte secret (replicate pad 0) h (zeros-IsByte pad) in
    let full : filled ds k ≡ digits_of bytes =
      ap (λ (t : ℕ). ds ++ replicate t 0) zeros
      ∙ ap (λ (l : List ℕ). ds ++ l) (sym (digits_of-zeros pad))
      ∙ sym (digits_of-append secret (replicate pad 0)) in
    let width : length (filled ds k) ≡ 64 * k = omega (
      arith,
      length-append ds (replicate {A = ℕ} (64 * k - length ds) 0),
      length-replicate {A = ℕ} (64 * k - length ds) 0,
    ) in
    let digits : All IsDigit (filled ds k) =
      All-append IsDigit ds _ (digits_of-IsDigit secret h) (zeros-IsDigit (64 * k - length ds)) in
    let (ns, cut, merged) =
      split_chunks-merge_digits (map hex_char ds) (filled ds k) k width digits
        (λ i below. chunk-filled ds k i refl below) k 0 (omega arith) in
    (
      ns,
      split_byte_to_int_digits secret ∙ cut,
      merge_int_to_byte_digits ns bytes bytes_lem
            (merged ∙ ap (λ (l : List ℕ). some (map hex_char l)) full)
          ∙ ap some (trim_right-append secret pad),
    )
