-- ===== src/Lib.antt =====
-- Verification of the address verification program: the secret sharing and the threshold protocol
-- of its committee, the messages between the members, and the accounts and transactions it uses.
--
-- Parts and how they interact. A dealer splits a secret with sssa/sssa.go (`CreateFromInt`, `Create`)
-- into shares, points of a random polynomial over a prime field, which sssa/utils.go computes with
-- and prints as numbers of 44 base64 characters. The servers of sssa/threshold.go check the values
-- they receive against published points and add them up; enough shares combine to the secret again
-- (`Combine`), or to a curve point (`CombineECDSAPubs`). The committee of committee/pubshares.go
-- reads such shares from messages in transactions. ABaccount/transaction.go holds transactions and
-- recognises those that authenticate an account; ABaccount/keystore.go unlocks the keys that sign.
--
-- Files. Base and its children hold shared helpers: tests, lists over native numbers, integers,
-- congruences, and `Outcome`, how a Go function ends (a result, an error, a panic).
--   Sssa.Field, Sssa.Hex, Sssa.Base64, Sssa.Text: sssa/utils.go. `prime` is an argument, or
--     `default_prime` where the code has set it.
--   Sssa.Draw: `random` and `randomInLimit`. What `rand.Int` draws is a list of numbers, and a
--     program takes from its front; `starved` means the list has ended before the program has.
--   Sssa.Create, Sssa.Combine: sssa/sssa.go, each loop a function of its own; Sssa.Lagrange is
--     interpolation on its own, apart from the code. Sssa.Field.Prime shows that the prime that the
--     code has set is prime, by Pocklington's criterion.
--   Sssa.Pubs: `CombineECDSAPubs`, and Sssa.PubFirst: `CombinePubFirst`, over a curve that is a
--     parameter. Sssa.Keys: `generatePrivKey`, `getPublicKey`, `multiPub` and what is made of them.
--   Sssa.Threshold: `expontUint16`, `Checkshares`, `CountSharesPart`, and `GetDestNode` of
--     sssa/msgpacker.go.
--   Sssa.Demonstrations: the four runs at the end of sssa/threshold.go.
--   Sssa.Deal: `GenerateShares`, `HandleSubAccountVerifyRequest`, and the messages of
--     sssa/msgpacker.go as records.
--   Committee.Message: `ExtractPubShareMsg`, `extractPubshare`, `InStringArraySet`; Committee.Publish:
--     `GeneratePubShare`, whose count is printed with fuel for 20 digits, enough for an `int64`.
--   Committee.Match: `CheckGetValidA1S1`, each of its four loops a function of its own; the map of
--     messages is an argument.
--   Committee.Demonstration: `ShamirShare` and `LibraryCombine` of committee/shamirShare.go.
--   Account.Transaction, Account.Authentication, Account.Certificate: ABaccount/transaction.go.
--   Account.Heap, Account.Queue: `TransactionsByPriceAndNonce` of ABaccount/transaction.go, over the
--     binary heap of Go's container/heap.
--   Account.Wallets: `refreshWallets` of ABaccount/keystore.go, and Account.Directory: its operations
--     on key files, each a call on a state that is the files and the cache, the list of wallets and
--     the events sent. Files and cache are parameters.
--   Account.Updates: `Subscribe` and the end of the rounds of `updater`, as steps.
--   Account.SubAccount: base addresses, and the operations that read an unlocked key, ring signatures
--     among them.
--   Account.Keystore: the unlocked keys of ABaccount/keystore.go. Objects behind pointers are
--     numbered as they are allocated, and every interleaving of `TimedUnlock`, `Lock` and the
--     goroutines that run `expire` is a sequence of steps; its child Refinement is a user who
--     follows such a sequence without pointers, and Locking is `Lock` to its end.
--
-- Bounds. Loops go by structural recursion, or over the draws; only `gcd_ext`, the library's `GCD`,
-- runs on fuel, which `mod_inverse` gives enough of, as its theorem shows, and `down` of the heap, with
-- one round more than there are elements, which its lemma asks for. A `uint16`
-- or `uint64` keeps its wrap-around; a `big.Int` is an integer, or a natural number where the code
-- never makes it negative. Counts that a caller gives are natural numbers: a negative one panics.
--
-- Not modelled: printing, and with it `String` of a transaction and the keys that the demonstrations
-- show; sssa/client.go and the sending functions of committee/pubshares.go, which are input and
-- output. Key files, the account cache, the elliptic curve, hashing, RLP, JSON and certificates stand
-- outside the repository and are parameters.
pub mod Base
pub mod Sssa
pub mod Account
pub mod Committee
