-- ===== src/Sssa/Text/Chunks.antt =====
-- The chunks that `splitByteToInt` cuts hexadecimal text into: 64 digits each, of the digits with
-- zeros behind.
use address_verification.Base.{
  ℕ, zero, suc, ◌+◌, ◌-◌, ◌*◌, ◌/◌, ◌<◌, ◌≤◌, ◌≡◌, refl, sym, ap, ap₂, ◌∙◌, List, [], ◌∷◌, ◌++◌,
  map, inl, inr, arith, Bytes, length, replicate, take, drop, length-append, length-replicate,
  length-drop, Bool-cases, ltb, ltb→lt, ltb-false, append-nil, take-append_exact,
}
use address_verification.Sssa.Hex.{hex_char}
use address_verification.Sssa.Text.{chunk}

module _ {A : Type 0} where
  take-drop_append :
      (w n : ℕ) (xs ys : List A)
      → n + w ≤ length xs
      → take w (drop n (xs ++ ys)) ≡ take w (drop n xs)
  take-drop_append zero n xs ys h = refl
  take-drop_append (suc w) zero [] ys h = absurd (omega arith)
  take-drop_append (suc w) zero (x ∷ xs) ys h =
      ap (λ (l : List A). x ∷ l) (take-drop_append w zero xs ys (omega arith))
  take-drop_append (suc w) (suc n) [] ys h = absurd (omega arith)
  take-drop_append (suc w) (suc n) (x ∷ xs) ys h = take-drop_append (suc w) n xs ys (omega arith)

  drop-append : (n : ℕ) (xs ys : List A) → n ≤ length xs → drop n (xs ++ ys) ≡ drop n xs ++ ys
  drop-append zero xs ys h = refl
  drop-append (suc n) [] ys h = absurd (omega arith)
  drop-append (suc n) (x ∷ xs) ys h = drop-append n xs ys (omega arith)

  take_all : (n : ℕ) (xs : List A) → length xs ≡ n → take n xs ≡ xs
  take_all n xs h = rw (append-nil) at (take-append_exact xs [] n h)

map-take : {A B : Type 0} (f : A → B) (n : ℕ) (xs : List A) → take n (map f xs) ≡ map f (take n xs)
map-take f zero xs = refl
map-take f (suc n) [] = refl
map-take {B = B} f (suc n) (x ∷ xs) = ap (λ (l : List B). f x ∷ l) (map-take f n xs)

map-drop : {A B : Type 0} (f : A → B) (n : ℕ) (xs : List A) → drop n (map f xs) ≡ map f (drop n xs)
map-drop f zero xs = refl
map-drop f (suc n) [] = refl
map-drop f (suc n) (x ∷ xs) = map-drop f n xs

length-map : {A B : Type 0} (f : A → B) (xs : List A) → length (map f xs) ≡ length xs
length-map f [] = refl
length-map f (x ∷ xs) = ap suc (length-map f xs)

map-zeros :
    (xs : List ℕ) (n : ℕ) → map hex_char xs ++ replicate n b'0' ≡ map hex_char (xs ++ replicate n 0)
map-zeros (x ∷ xs) n = ap (λ (l : Bytes). hex_char x ∷ l) (map-zeros xs n)
map-zeros [] zero = refl
map-zeros [] (suc n) = ap₂ (λ (c : ℕ) (l : Bytes). c ∷ l) (unfold hex_char in refl) (map-zeros [] n)

-- The digits with the zeros behind that fill `k` chunks.
abbrev pub filled : List ℕ → ℕ → List ℕ
filled ds k = ds ++ replicate (64 * k - length ds) 0

-- A chunk is 64 of the digits with zeros behind.
pub chunk-filled :
    (ds : List ℕ) (k i : ℕ)
    → k ≡ (length ds + 63) / 64
    → i < k
    → chunk (map hex_char ds) i ≡ map hex_char (take 64 (drop (i * 64) (filled ds k)))
unfolding chunk
chunk-filled ds k i h below = elim (Bool-cases (ltb ((i + 1) * 64) (length (map hex_char ds)))) [
  | inl inside ↦
      let fits : (i + 1) * 64 < length ds =
        omega (arith, ltb→lt _ _ inside, length-map hex_char ds) in
      let width : (i + 1) * 64 - i * 64 ≡ 64 = omega arith in
      rw (inside, width, chunk)
        (ap (take 64) (map-drop hex_char (i * 64) ds)
          ∙ map-take hex_char 64 (drop (i * 64) ds)
          ∙ ap (map hex_char) (sym (take-drop_append 64 (i * 64) ds _ (omega arith))))
  | inr last ↦
      let ends : length ds ≤ (i + 1) * 64 =
        omega (arith, ltb-false _ _ last, length-map hex_char ds) in
      let count : 64 - (length (map hex_char ds) - i * 64) ≡ 64 * k - length ds =
        omega (arith, length-map hex_char ds) in
      rw (last, count, chunk)
        (ap (λ (l : Bytes). l ++ replicate (64 * k - length ds) b'0')
            (map-drop hex_char (i * 64) ds)
          ∙ map-zeros (drop (i * 64) ds) (64 * k - length ds)
          ∙ ap (map hex_char) (
              sym (
                ap (take 64) (drop-append (i * 64) ds _ (omega arith))
                ∙ take_all 64 (drop (i * 64) ds ++ replicate (64 * k - length ds) 0) (
                    omega (
                      arith,
                      length-append (drop (i * 64) ds) (replicate {A = ℕ} (64 * k - length ds) 0),
                      length-drop (i * 64) ds,
                      length-replicate {A = ℕ} (64 * k - length ds) 0,
                    )))))
]
