-- ===== src/Tests/Transfers.antt =====
-- What the interleaved claims of src/server.rs pay for, on small inputs.
use atlas_faucet.Prelude.{
  if◌then◌else◌, ok, ◌>>=◌, ℕ, zero, suc, ◌≡◌, ◌+◌, ◌≤◌, refl, [], ◌∷◌, codes, bytes_eq, arith, All,
}
use atlas_faucet.World.{body, body_failed, posts, sleeps, Reply, History, World}
use atlas_faucet.Rpc.Laws.{sends}
use atlas_faucet.Rpc.{
  balance, transaction_count, read_reply, parse_hex_u64, eth_get_transaction_count,
}
use atlas_faucet.Text.{from_str_radix, strip_prefix}
use atlas_faucet.Server.{new_shared}
use atlas_faucet.Server.Phases.{funding, counting, sending, leaving, advance}
use atlas_faucet.Server.Weights.{total}
use atlas_faucet.Server.Trace.{Traces-Reaches}
use atlas_faucet.Server.Leased.{count_paid}
use atlas_faucet.Server.Redemption.{of_salt, burned, paid_once}
use atlas_faucet.Server.Spacing.{recent, reserving_claim, paid_apart}
use atlas_faucet.Server.Current.{Funded, Numbered}
use atlas_faucet.Server.Backed.{Backed, any, paid-Backed}
use atlas_faucet.Server.Serialized.{sending_lem, nonce_lem}
use atlas_faucet.Tests.Toys.{
  toy_hashes, toy_hashes-IsHashes, toy_secp, toy_secp-IsSecp, toy_semaphore,
  toy_semaphore-IsSemaphore, toy_world, toy_address, toy_keeper, toy_faucet, sixteen,
}
use atlas_faucet.Tests.Schedules.{
  funded, numbered, holding, toy_faucet_hex, accepted_marks, toy_marks, posted, toy_view,
  funding-Marked, sending-Marked, posted-Marked, one_step, Marked,
}
use atlas_faucet.Tests.Claims.{toy_from_slice, toy_app, toy_shared, toy_faucet-IsConfigured, low}

sending_lem_example :
    Funded toy_hashes toy_secp toy_world toy_faucet 1000 numbered.past
    × Numbered toy_hashes toy_secp toy_world toy_faucet 5 numbered.past
unfolding new_shared
sending_lem_example =
    sending_lem toy_hashes toy_secp toy_semaphore toy_world toy_from_slice toy_app
      toy_semaphore-IsSemaphore toy_keeper [] (numbered, sending toy_view 1001 1000 5 ∷ [])
      (Traces-Reaches toy_hashes toy_secp toy_semaphore toy_world toy_from_slice toy_app
        (toy_shared, []) (numbered, sending toy_view 1001 1000 5 ∷ []) accepted_marks
        sending-Marked)
      [] toy_view 1001 1000 5 [] refl

-- A node that counts, and is out of order from the second transaction on.
abbrev count_reply : ℕ → Reply
count_reply zero = body (codes "0x5")
count_reply (suc zero) = body (codes "0x6")
count_reply (suc (suc n)) = body_failed

abbrev counting_reply : History → Reply
counting_reply [] = body_failed
counting_reply (sleeps ms ∷ past) = body_failed
counting_reply (posts method params ∷ past) =
    if bytes_eq method (codes "eth_getTransactionCount")
    then count_reply (sends past)
    else body (codes "0xffffffff")

abbrev counting_world : World
counting_world = record toy_world { answer = counting_reply }

read_count :
    (sent n : ℕ)
    → (read_reply counting_world eth_get_transaction_count (count_reply sent) >>= λ v.
        parse_hex_u64 v eth_get_transaction_count)
      ≡ ok n
    → n ≡ 5 + sent
unfolding read_reply parse_hex_u64 bytes_eq from_str_radix strip_prefix
read_count zero n e = let five : ◌≡◌ {A = ℕ} 5 n = cc in omega (arith, five)
read_count (suc zero) n e = let six : ◌≡◌ {A = ℕ} 6 n = cc in omega (arith, six)
read_count (suc (suc sent)) n e = cc

counting_world_lem :
    (past : History) (n : ℕ)
    → (transaction_count counting_world toy_faucet_hex past).0 ≡ ok n
    → n ≡ 5 + sends past
unfolding transaction_count bytes_eq
counting_world_lem past n e = read_count (sends past) n e

counted-Marked : Marked counting_world accepted_marks numbered (sending toy_view 1001 1000 5)
unfolding advance balance transaction_count bytes_eq from_str_radix strip_prefix sends
counted-Marked =
    one_step counting_world accepted_marks funded (counting toy_view 1001 1000) numbered
      (sending toy_view 1001 1000 5)
      (one_step counting_world accepted_marks holding (funding toy_view 1001 1000) funded
        (counting toy_view 1001 1000) (funding-Marked counting_world) refl)
      refl

nonce_lem_example : 5 ≡ 5 + sends numbered.past
unfolding new_shared
nonce_lem_example =
    nonce_lem toy_hashes toy_secp toy_semaphore counting_world toy_from_slice toy_app
      toy_semaphore-IsSemaphore toy_keeper [] (numbered, sending toy_view 1001 1000 5 ∷ []) 5
      counting_world_lem
      (Traces-Reaches toy_hashes toy_secp toy_semaphore counting_world toy_from_slice toy_app
        (toy_shared, []) (numbered, sending toy_view 1001 1000 5 ∷ []) accepted_marks
        counted-Marked)
      [] toy_view 1001 1000 5 [] refl

paid-Backed_example :
    All (Backed toy_hashes toy_secp toy_faucet posted.past) toy_marks
    × (sends [] + count_paid any toy_marks ≤ sends posted.past)
paid-Backed_example =
    paid-Backed toy_hashes toy_hashes-IsHashes toy_secp toy_secp-IsSecp toy_semaphore toy_world
      toy_from_slice toy_app toy_faucet-IsConfigured low (toy_shared, [])
      (posted, leaving toy_view (codes "0xabc") ∷ []) toy_marks refl posted-Marked

paid_once_example :
    count_paid (of_salt sixteen) toy_marks
      + total (burned sixteen) (leaving toy_view (codes "0xabc") ∷ [])
    ≤ 1
paid_once_example =
    paid_once toy_hashes toy_secp toy_semaphore toy_world toy_from_slice toy_app sixteen 1100
      (toy_shared, []) (posted, leaving toy_view (codes "0xabc") ∷ []) toy_marks refl posted-Marked
      (tt, ((omega arith, λ same. omega arith), tt))

paid_apart_example :
    count_paid (recent toy_address 60 1030) toy_marks
      + total (reserving_claim toy_address 60 1030) (leaving toy_view (codes "0xabc") ∷ [])
    ≤ 1
paid_apart_example =
    paid_apart toy_hashes toy_secp toy_semaphore toy_world toy_from_slice toy_app toy_address 1030
      (omega arith) (toy_shared, []) (posted, leaving toy_view (codes "0xabc") ∷ []) toy_marks refl
      posted-Marked (tt, (omega arith, tt))
