-- ===== src/Account/Directory/Tests.antt =====
-- A directory that is the list of its accounts: numbers, whose keys are the same numbers and whose
-- passphrase is 7.
use address_verification.Base.{
  ℕ, ◌+◌, ◌≡◌, refl, List, [], ◌∷◌, none, Bool, true, false, ◌==◌, ==_iff, if◌then◌else◌,
}
use address_verification.Base.Outcome.{Outcome, ok, err}
use address_verification.Account.Wallets.Refresh.{weigh, arrivals, departures}
use address_verification.Account.Wallets.Numbers.{numbers, compare_eq}
use address_verification.Account.Directory.{
  Outside, Directory, failed, init, delete, get_decrypted_key, find,
}
use address_verification.Account.Directory.History.{
  Operation, perform, perform-error, perform_all, perform_all-events,
}
use address_verification.Account.Directory.Listing.{listed, settled, perform-listed}

abbrev open_with : {A : Type 0} → ℕ → A → Outcome ℕ A
open_with p a = if p == 7 then ok a else err 1

abbrev has : ℕ → List ℕ → Bool
has a [] = false
has a (b ∷ s) = let rest = has a s in if a == b then true else rest

abbrev without : ℕ → List ℕ → List ℕ
without a [] = []
without a (b ∷ s) = let rest = without a s in if a == b then rest else b ∷ rest

abbrev files : Outside (List ℕ) ℕ ℕ ℕ ℕ ℕ
files = record {
  maybe_reload = λ s. s;
  cache_find = λ a s. if has a s then ok a else err 0;
  cache_accounts = λ s. (s, s);
  cache_add = λ a s. a ∷ s;
  cache_delete = without;
  has_address = λ k s. (has k s, s);
  get_key = λ a p s. open_with p a;
  get_encrypted_key = λ a s. ok a;
  store_key = λ a k p s. (open_with p tt, s);
  store_new_key = λ p s. (ok 3, s);
  store_new_ab_key = λ b k p s. (ok (b, 4), s);
  import_pre_sale_key = λ j p s. (open_with p j, s);
  decrypt_key = λ j p. open_with p j;
  encrypt_key = λ k p n. ok k;
  key_account = λ k s. k;
  remove = λ a s. (ok tt, s);
  passphrase_scrypt = λ s. none;
  standard_scrypt = (4096, 6);
}

abbrev one_file : Directory (List ℕ) ℕ
one_file = init numbers files (5 ∷ [])

abbrev some_operations : List (Operation ℕ ℕ ℕ ℕ ℕ)
some_operations =
    Operation.makes 7 ∷ Operation.deletes 3 8 ∷ Operation.imports 2 7 7 ∷ Operation.deletes 5 7 ∷ []

perform-error_example :
    ((perform numbers files (Operation.deletes 5 8) one_file).1.wallets ≡ one_file.wallets)
    × ((perform numbers files (Operation.deletes 5 8) one_file).1.sent ≡ one_file.sent)
unfolding perform delete get_decrypted_key find init
perform-error_example = perform-error numbers files (Operation.deletes 5 8) one_file (failed 1) refl

perform_all-events_example :
    weigh (λ w. w) (perform_all numbers files some_operations one_file).wallets
      + departures (λ w. w) (perform_all numbers files some_operations one_file).sent
    ≡ weigh (λ w. w) one_file.wallets
      + arrivals (λ w. w) (perform_all numbers files some_operations one_file).sent
perform_all-events_example = perform_all-events numbers files (λ w. w) some_operations (5 ∷ [])

perform-listed_example :
    ((perform numbers files (Operation.makes 7) one_file).0 ≡ ok tt)
    × (listed numbers (perform numbers files (Operation.makes 7) one_file).1 ≡ 3 ∷ 5 ∷ [])
unfolding settled init
perform-listed_example =
    perform-listed numbers files (λ a. refl) ==_iff (Operation.makes 7) one_file (3 ∷ 5 ∷ []) refl
      ((compare_eq 5 3, (compare_eq 5 5, tt)), tt)
