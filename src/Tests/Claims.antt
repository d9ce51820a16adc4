-- ===== src/Tests/Claims.antt =====
-- src/faucet.rs and src/server.rs on small inputs.
use atlas_faucet.Prelude.{
  ◌≤◌, ◌<◌, ◌≡◌, ◌↔◌, refl, ap, true, false, Option, none, some, List, [], ◌∷◌, Bytes, codes,
  bytes_eq, retain, empty_map, contains_key, insert, arith, ok,
}
use atlas_faucet.World.{body_failed, World}
use atlas_faucet.Prelude.Words.{le_bytes_u32}
use atlas_faucet.Util.{leading_zero_bits, byte_leading_zeros}
use atlas_faucet.Pow.{
  puzzle_hash, solution_loop, verify_solution, issue, verify_challenge, new_keeper, try_begin_claim,
  consume_salt,
}
use atlas_faucet.Pow.Envelope.{view, verify_challenge-issue}
use atlas_faucet.Rpc.{balance, transaction_count, send_raw_transaction, transaction_receipt}
use atlas_faucet.Text.{from_str_radix, strip_prefix}
use atlas_faucet.Rpc.Laws.{sends}
use atlas_faucet.Faucet.{submit, await_receipt, try_admit, in_flight}
use atlas_faucet.Faucet.Submit.{IsConfigured, Outcome, submit_lem}
use atlas_faucet.Server.{ClaimRequest, Response, AppState, authenticate, Shared, new_shared}
use atlas_faucet.Server.Claim.{dispensed_response, claim_handler}
use atlas_faucet.Server.Phases.{Phase, arrived, replied, Reaches}
use atlas_faucet.Server.Alone.{Reaches-claim_handler}
use atlas_faucet.Server.Weights.{permits_of, locks_of, total}
use atlas_faucet.Server.Interleaving.{in_flight_lem}
use atlas_faucet.Tests.Toys.{
  toy_hashes, toy_hashes-IsHashes, toy_secp, toy_secp-IsSecp, toy_semaphore,
  toy_semaphore-IsSemaphore, toy_world, toy_address, toy_keeper, toy_faucet, sixteen,
}

pub toy_faucet-IsConfigured : IsConfigured toy_hashes toy_secp toy_secp-IsSecp toy_faucet
toy_faucet-IsConfigured = record {
  drip_fits = omega arith;
  gas_limit_fits = omega arith;
  override_fits = λ price set. (let same : 1000 ≡ price = cc in omega arith);
  chain_id_fits = omega arith;
  signs_as = refl;
}

pub low : (hash : Bytes) → (toy_secp.sign hash toy_faucet.signer.secret_key).0 < 2
low hash = omega arith

submit_lem_example :
    Outcome toy_hashes toy_hashes-IsHashes toy_secp toy_secp-IsSecp toy_world toy_faucet
      toy_faucet-IsConfigured low toy_address
      (refl, omega arith)
      0
      (submit toy_hashes toy_secp toy_world toy_faucet toy_address [])
unfolding sends
submit_lem_example =
    submit_lem toy_hashes toy_hashes-IsHashes toy_secp toy_secp-IsSecp toy_world toy_faucet
      toy_faucet-IsConfigured low toy_address (refl, omega arith) []

-- A node whose answers are cut off.
abbrev cut_off : World
cut_off = record toy_world { answer = λ past. body_failed }

abbrev pub toy_request : ClaimRequest
toy_request = record {
  challenge = issue toy_hashes toy_keeper toy_address 6 2 120 1000 sixteen;
  nonces = 0 ∷ 0 ∷ [];
}

abbrev pub toy_from_slice : Bytes → Option ClaimRequest
toy_from_slice [] = none
toy_from_slice (b ∷ rest) = some toy_request

abbrev pub toy_app : AppState toy_hashes toy_secp
toy_app = record {
  faucet = toy_faucet;
  html_title = codes "Atlas";
  pow_bits = 6;
  pow_puzzles = 2;
  pow_ttl_secs = 120;
  cooldown_secs = 60;
}

abbrev pub toy_shared : Shared toy_hashes toy_secp toy_semaphore
toy_shared = record { keeper = toy_keeper; permits = 2; locked = false; past = [] }

-- Claims that arrive.
abbrev two_arrived : List Phase
two_arrived = arrived (codes "b") 1002 ∷ arrived (codes "a") 1001 ∷ []

pub authenticates :
    authenticate toy_hashes toy_secp toy_keeper toy_request 1001
    ≡ ok (view sixteen toy_address 6 2 1120)
unfolding authenticate verify_solution solution_loop puzzle_hash leading_zero_bits le_bytes_u32
    byte_leading_zeros
authenticates =
    let accepted : verify_challenge toy_hashes toy_keeper toy_request.challenge 1001
        ≡ ok (view sixteen toy_address 6 2 1120) =
      verify_challenge-issue toy_hashes toy_hashes-IsHashes toy_keeper toy_address sixteen 6 2 120
        1000 1001 (refl, omega arith) (refl, omega arith) in
    rw accepted refl

-- The claim is paid: the node's answer is the hash of the transaction.
abbrev toy_response : Response
toy_response =
    dispensed_response toy_hashes toy_secp toy_semaphore toy_world toy_from_slice toy_app
      (view sixteen toy_address 6 2 1120) (codes "0xabc")
      (record { mined = true; transferred = true; block_number = none })

abbrev toy_run : Option Response × Shared toy_hashes toy_secp toy_semaphore
toy_run =
    claim_handler toy_hashes toy_secp toy_semaphore toy_world toy_from_slice toy_app (codes "claim")
      1001 toy_shared

toy_run-paid : toy_run.0 ≡ some toy_response
unfolding claim_handler try_admit try_begin_claim retain new_keeper empty_map consume_salt
    contains_key submit balance bytes_eq from_str_radix strip_prefix transaction_count
    send_raw_transaction await_receipt transaction_receipt insert
toy_run-paid = rw authenticates refl

toy_run-pair : toy_run ≡ (some toy_response, toy_run.1)
toy_run-pair = ap (λ (reply : Option Response). (reply, toy_run.1)) toy_run-paid

Reaches-claim_handler_example :
    Reaches toy_hashes toy_secp toy_semaphore toy_world toy_from_slice toy_app
      (toy_shared, two_arrived)
      (toy_run.1, replied toy_response ∷ two_arrived)
Reaches-claim_handler_example =
    Reaches-claim_handler toy_hashes toy_secp toy_semaphore toy_world toy_from_slice toy_app
      two_arrived (codes "claim") 1001 toy_shared toy_run.1 toy_response refl toy_run-pair

-- A claim that is paid, with two that wait.
toy_run-Reaches :
    Reaches toy_hashes toy_secp toy_semaphore toy_world toy_from_slice toy_app
      (toy_shared, two_arrived)
      (toy_run.1, replied toy_response ∷ two_arrived)
toy_run-Reaches =
    Reaches-claim_handler toy_hashes toy_secp toy_semaphore toy_world toy_from_slice toy_app
      two_arrived (codes "claim") 1001 toy_shared toy_run.1 toy_response refl toy_run-pair

-- The same claim right after the start.
first_run-Reaches :
    Reaches toy_hashes toy_secp toy_semaphore toy_world toy_from_slice toy_app
      (toy_shared, [])
      (toy_run.1, replied toy_response ∷ [])
first_run-Reaches =
    Reaches-claim_handler toy_hashes toy_secp toy_semaphore toy_world toy_from_slice toy_app []
      (codes "claim") 1001 toy_shared toy_run.1 toy_response refl toy_run-pair

in_flight_lem_example :
    (in_flight toy_hashes toy_secp toy_semaphore toy_faucet toy_run.1.permits
      ≡ total permits_of (replied toy_response ∷ []))
    × (total permits_of (replied toy_response ∷ []) ≤ 2)
    × (total locks_of (replied toy_response ∷ []) ≤ 1)
    × ((toy_run.1.locked ≡ true) ↔ (total locks_of (replied toy_response ∷ []) ≡ 1))
unfolding new_shared
in_flight_lem_example =
    in_flight_lem toy_hashes toy_secp toy_semaphore toy_semaphore-IsSemaphore toy_world
      toy_from_slice toy_app toy_keeper [] (toy_run.1, replied toy_response ∷ []) first_run-Reaches
