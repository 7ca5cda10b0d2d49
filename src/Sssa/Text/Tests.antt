-- ===== src/Sssa/Text/Tests.antt =====
-- A text of the demonstration, and one of more than 32 bytes, cut up and put together.
use address_verification.Base.{ℕ, ◌≡◌, List, some, ◌++◌, arith, replicate, codes, Bytes}
use address_verification.Sssa.Text.{split_byte_to_int, merge_int_to_byte, trim_right}
use address_verification.Sssa.Text.RoundTrip.{merge_int_to_byte-split_byte_to_int}

abbrev secret : Bytes
secret = codes "N17FigASkL6p1EOgJhRaIquQLGvYV0" ++ replicate 5 255

merge_int_to_byte-split_byte_to_int_example :
    (ns : List ℕ) × (split_byte_to_int secret ≡ some ns)
    × (merge_int_to_byte ns ≡ some (trim_right secret))
merge_int_to_byte-split_byte_to_int_example =
    merge_int_to_byte-split_byte_to_int secret (omega arith)
