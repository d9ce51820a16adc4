-- ===== src/Tests/Keeper.antt =====
-- src/pow.rs on small inputs.
use atlas_faucet.Prelude.{
  ℕ, ◌≡◌, ◌≢◌, refl, ap, true, false, List, [], ◌∷◌, Bytes, codes, arith, ok, err, get_or, retain,
  contains_key, empty_map, inl,
}
use atlas_faucet.Pow.{
  VerifiedChallenge, Challenge, expired, PowKeeper, new_keeper, issue, verify_challenge,
  consume_salt, try_begin_claim,
}
use atlas_faucet.Pow.Message.{mac_message-injective}
use atlas_faucet.Pow.Envelope.{view, Authentic, verify_challenge-issue, verify_challenge-Authentic}
use atlas_faucet.Pow.Tamper.{verify_challenge_unforged}
use atlas_faucet.Pow.History.{
  Call, consumes, frees, begins, undoes, run, consume_salt_once, consume_salt_again,
  try_begin_claim_spaced,
}
use atlas_faucet.Tests.Toys.{toy_hashes, toy_hashes-IsHashes, toy_address, toy_keeper, sixteen}

abbrev pub other_salt : Bytes
other_salt = codes "0123456789abcdeg"

abbrev toy_challenge : Challenge
toy_challenge = issue toy_hashes toy_keeper toy_address 6 2 120 1000 sixteen

abbrev toy_view : VerifiedChallenge
toy_view = view sixteen toy_address 6 2 1120

mac_message-injective_example :
    (codes "00" ≡ codes "00")
    × (codes "0x1" ≡ codes "0x1")
    × (codes "aa" ≡ codes "aa")
    × ◌≡◌ {A = ℕ} 6 6
    × ◌≡◌ {A = ℕ} 2 2
    × ◌≡◌ {A = ℕ} 10 10
    × ◌≡◌ {A = ℕ} 20 20
mac_message-injective_example =
    mac_message-injective (codes "00") (codes "00") (codes "0x1") (codes "0x1") (codes "aa")
      (codes "aa") 6 6 2 2 10 10 20 20 (omega arith) (omega arith) (omega arith) (omega arith)
      (omega arith) (omega arith) refl

verify_challenge-issue_example :
    verify_challenge toy_hashes toy_keeper toy_challenge 1121 ≡ err expired
verify_challenge-issue_example =
    verify_challenge-issue toy_hashes toy_hashes-IsHashes toy_keeper toy_address sixteen 6 2 120
      1000 1121 (refl, omega arith) (refl, omega arith)

toy_challenge-accepted : verify_challenge toy_hashes toy_keeper toy_challenge 1001 ≡ ok toy_view
toy_challenge-accepted =
    verify_challenge-issue toy_hashes toy_hashes-IsHashes toy_keeper toy_address sixteen 6 2 120
      1000 1001 (refl, omega arith) (refl, omega arith)

verify_challenge-Authentic_example :
    Authentic toy_hashes toy_hashes-IsHashes toy_keeper toy_challenge 1001 toy_view
verify_challenge-Authentic_example =
    verify_challenge-Authentic toy_hashes toy_hashes-IsHashes toy_keeper toy_challenge 1001 toy_view
      toy_challenge-accepted

verify_challenge_unforged_example :
    (toy_view ≡ view sixteen toy_address 6 2 1120) × (toy_challenge.issued_at ≡ 1000)
unfolding issue new_keeper
verify_challenge_unforged_example =
    verify_challenge_unforged toy_hashes toy_hashes-IsHashes toy_keeper toy_address sixteen 6 2 120
      1000 1001 toy_challenge toy_view (refl, omega arith) (refl, omega arith) (refl, omega arith)
      refl (λ e. refl) toy_challenge-accepted

abbrev restarted : PowKeeper
restarted = new_keeper (codes "unit-secret") other_salt

-- The keeper after a claim of the address at time 1000.
abbrev pub reserved_keeper : PowKeeper
reserved_keeper = (try_begin_claim toy_keeper toy_address 60 1000).0

begins_at_first : (try_begin_claim toy_keeper toy_address 60 1000).1 ≡ ok tt
unfolding try_begin_claim new_keeper retain empty_map
begins_at_first = refl

consumes_at_first : (consume_salt toy_keeper sixteen 1120 1000).1 ≡ true
unfolding consume_salt new_keeper contains_key retain empty_map
consumes_at_first = refl

salts-apart : other_salt ≢ sixteen
salts-apart e = let last : ◌≡◌ {A = ℕ} 103 102 = ap (λ (l : Bytes). get_or l 15 0) e in omega arith

abbrev some_calls : List Call
some_calls =
    consumes other_salt 1150 1010
    ∷ frees other_salt
    ∷ begins toy_address 60 1020
    ∷ undoes other_salt 1020
    ∷ []

consume_salt_once_example :
    (consume_salt
      (run (consume_salt toy_keeper sixteen 1120 1000).0 some_calls)
      sixteen
      1120
      1040).1
    ≡ false
consume_salt_once_example =
    consume_salt_once toy_keeper sixteen 1120 1000 some_calls 1120 1040 consumes_at_first
      (omega arith, (salts-apart, (tt, (tt, tt)))) (omega arith)

consume_salt_again_example :
    (consume_salt
      (run (consume_salt toy_keeper sixteen 1120 1000).0 (consumes other_salt 1200 1121 ∷ []))
      sixteen
      1120
      1119).1
    ≡ true
consume_salt_again_example =
    consume_salt_again toy_keeper sixteen other_salt 1120 1000 1200 1121 1120 1119 consumes_at_first
      salts-apart (omega arith)

other-toy_address : other_salt ≢ toy_address
other-toy_address e =
    let first : ◌≡◌ {A = ℕ} 48 97 = ap (λ (l : Bytes). get_or l 0 0) e in omega arith

try_begin_claim_spaced_example :
    (try_begin_claim
      (run (try_begin_claim toy_keeper toy_address 60 1000).0 some_calls)
      toy_address
      60
      1040).1
    ≡ err 20
try_begin_claim_spaced_example =
    try_begin_claim_spaced toy_keeper toy_address 60 1000 some_calls 1040 (omega arith)
      begins_at_first (tt, (tt, ((refl, omega arith), (inl other-toy_address, tt)))) (omega arith)
