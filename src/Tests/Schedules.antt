-- ===== src/Tests/Schedules.antt =====
-- Interleaved claims of src/server.rs on small inputs.
use atlas_faucet.Prelude.{
  some, Bytes, ◌≡◌, refl, true, List, [], ◌∷◌, codes, bytes_eq, retain, empty_map, contains_key,
  insert,
}
use atlas_faucet.Pow.{VerifiedChallenge, try_begin_claim, consume_salt, new_keeper}
use atlas_faucet.Pow.Envelope.{view}
use atlas_faucet.World.{World}
use atlas_faucet.Rpc.{balance, transaction_count, send_raw_transaction}
use atlas_faucet.Text.{from_str_radix, strip_prefix}
use atlas_faucet.Faucet.{address_hex, choose_gas_price, broadcast, try_admit}
use atlas_faucet.Server.{invalid_body, Response, error_response, Shared}
use atlas_faucet.Server.Phases.{
  Phase, arrived, reserving, admitting, burning, queueing, submitting, funding, counting, sending,
  leaving, advance,
}
use atlas_faucet.Server.Trace.{mark, Mark, accepted, paid, Traces, starts, enters, moves}
use atlas_faucet.Tests.Toys.{
  toy_hashes, toy_secp, toy_semaphore, toy_world, toy_address, toy_keeper, toy_faucet, sixteen,
}
use atlas_faucet.Tests.Claims.{toy_from_slice, toy_app, toy_shared, authenticates}

abbrev System : Type 0
System = Shared toy_hashes toy_secp toy_semaphore × List Phase

-- A claim with a body, and one before it without.
abbrev waiting : System
waiting = (toy_shared, arrived (codes "a") 1002 ∷ arrived [] 1001 ∷ [])

-- The second is refused.
abbrev refused : Response
refused = error_response 400 (codes "BAD_REQUEST") invalid_body

-- A claim that is paid, step by step.
abbrev pub toy_view : VerifiedChallenge
toy_view = view sixteen toy_address 6 2 1120

abbrev begun : Shared toy_hashes toy_secp toy_semaphore
begun = record toy_shared { keeper = (try_begin_claim toy_keeper toy_address 60 1001).0 }

abbrev inside : Shared toy_hashes toy_secp toy_semaphore
inside = record begun { permits = 1 }

abbrev spent : Shared toy_hashes toy_secp toy_semaphore
spent = record inside { keeper = (consume_salt begun.keeper sixteen 1120 1001).0 }

abbrev pub holding : Shared toy_hashes toy_secp toy_semaphore
holding = record spent { locked = true }

abbrev pub toy_faucet_hex : Bytes
toy_faucet_hex = address_hex toy_hashes toy_secp toy_faucet.signer

-- The history grows by the requests.
abbrev pub funded : Shared toy_hashes toy_secp toy_semaphore
funded = record holding { past = (balance toy_world toy_faucet_hex []).1 }

abbrev pub numbered : Shared toy_hashes toy_secp toy_semaphore
numbered = record holding { past = (transaction_count toy_world toy_faucet_hex funded.past).1 }

abbrev pub posted : Shared toy_hashes toy_secp toy_semaphore
posted = record spent {
  past = (broadcast toy_hashes toy_secp toy_world toy_faucet toy_address 1000 5 numbered.past).1;
}

abbrev pub toy_marks : List Mark
toy_marks = paid toy_view 1001 ∷ accepted toy_view 1001 ∷ []

abbrev pub accepted_marks : List Mark
accepted_marks = accepted toy_view 1001 ∷ []

-- The one claim, against any node until it asks it.
module _ (w : World) where
  abbrev pub Marked : List Mark → Shared toy_hashes toy_secp toy_semaphore → Phase → Type 0
  Marked marks shared phase =
      Traces toy_hashes toy_secp toy_semaphore w toy_from_slice toy_app (toy_shared, []) marks
        (shared, phase ∷ [])

  pub one_step :
      (marks : List Mark) (shared : Shared toy_hashes toy_secp toy_semaphore) (phase : Phase)
      (later : Shared toy_hashes toy_secp toy_semaphore) (next : Phase)
      → Marked marks shared phase
      → advance toy_hashes toy_secp toy_semaphore w toy_from_slice toy_app shared phase
        ≡ some (later, next)
      → Marked (mark phase next marks) later next
  one_step marks shared phase later next here e = moves marks shared [] phase [] later next here e

  burning-Marked : Marked accepted_marks inside (burning toy_view 1001)
  unfolding advance try_admit try_begin_claim retain new_keeper empty_map insert
  burning-Marked =
      one_step accepted_marks begun (admitting toy_view 1001) inside (burning toy_view 1001)
        (one_step accepted_marks toy_shared (reserving toy_view 1001) begun
          (admitting toy_view 1001)
          (one_step [] toy_shared (arrived (codes "a") 1001) toy_shared (reserving toy_view 1001)
            (enters [] toy_shared [] (codes "a") 1001 starts) (rw authenticates refl))
          refl)
        refl

  pub funding-Marked : Marked accepted_marks holding (funding toy_view 1001 1000)
  unfolding advance try_begin_claim retain new_keeper empty_map consume_salt contains_key insert
      bytes_eq choose_gas_price
  funding-Marked =
      one_step accepted_marks holding (submitting toy_view 1001) holding
        (funding toy_view 1001 1000)
        (one_step accepted_marks spent (queueing toy_view 1001) holding (submitting toy_view 1001)
          (one_step accepted_marks inside (burning toy_view 1001) spent (queueing toy_view 1001)
            burning-Marked refl)
          refl)
        refl

pub sending-Marked : Marked toy_world accepted_marks numbered (sending toy_view 1001 1000 5)
unfolding advance balance transaction_count bytes_eq from_str_radix strip_prefix
sending-Marked =
    one_step toy_world accepted_marks funded (counting toy_view 1001 1000) numbered
      (sending toy_view 1001 1000 5)
      (one_step toy_world accepted_marks holding (funding toy_view 1001 1000) funded
        (counting toy_view 1001 1000) (funding-Marked toy_world) refl)
      refl

pub posted-Marked : Marked toy_world toy_marks posted (leaving toy_view (codes "0xabc"))
unfolding advance broadcast send_raw_transaction bytes_eq
posted-Marked =
    one_step toy_world accepted_marks numbered (sending toy_view 1001 1000 5) posted
      (leaving toy_view (codes "0xabc")) sending-Marked refl
