-- ===== src/Main/Serving.antt =====
-- From the configuration that `main` reads to the transfers of the server that it starts.
use atlas_faucet.Prelude.{◌+◌, ◌*◌, ◌^◌, ◌<◌, ◌≡◌, refl, Option, List, [], Bytes, ok, All}
use atlas_faucet.Prelude.Words.{IsU64}
use atlas_faucet.Hashes.{Hashes, IsHashes}
use atlas_faucet.Secp.{Secp, IsSecp}
use atlas_faucet.Semaphore.{Semaphore}
use atlas_faucet.World.{History, World}
use atlas_faucet.Pow.{PowKeeper}
use atlas_faucet.Eth.{from_private_key_hex}
use atlas_faucet.Config.{Config, private_key, drip_wei}
use atlas_faucet.Main.{chain_id_of, app_state, main}
use atlas_faucet.Main.Startup.{Started, main-Started, main-IsConfigured}
use atlas_faucet.Faucet.{new_faucet}
use atlas_faucet.Server.{ClaimRequest, AppState, Shared, new_shared}
use atlas_faucet.Server.Phases.{Phase}
use atlas_faucet.Server.Trace.{Mark, Traces}
use atlas_faucet.Server.Backed.{Backed, paid-Backed}

module _ (h : Hashes) (lawful : IsHashes h) (s : Secp) (secp : IsSecp s) (sem : Semaphore)
    (w : World) (from_slice : Bytes → Option ClaimRequest) (config : Config)
    (random_secret random_boot : Bytes) (past : History) where
  -- The server's faucet has what the configuration says.
  Started-faucet :
      (app : AppState h s) (keeper : PowKeeper) (now : History)
      → Started h s secp w config random_secret random_boot past app keeper now
      → (from_private_key_hex h s (private_key config) ≡ ok app.faucet.signer)
        × (drip_wei config ≡ ok app.faucet.drip_wei)
        × (app.faucet.chain_id ≡ (chain_id_of w config.chain_id past).0)
  unfolding app_state new_faucet
  Started-faucet app keeper now started = rw⁻¹ started.built (started.signs, started.drips, refl)

  -- If the hashes and the curve satisfy their laws, and signatures have recovery ids 0 or 1, then
  -- where `main` starts a server, with a gas limit that is a u64 and a chain id that leaves room
  -- for `v`, and however claims then interleave: each transfer that the node acknowledged is in
  -- the history as a posted transaction that is recovered as a transfer, to the address of the
  -- challenge that was paid for, of the amount that the configuration holds, from the address of
  -- the configured key and on the chain that is configured or that the node told.
  pub main_pays :
      (app : AppState h s) (keeper : PowKeeper) (now : History) (last : Shared h s sem × List Phase)
      (marks : List Mark)
      → IsU64 config.faucet_gas_limit
      → (chain_id_of w config.chain_id past).0 * 2 + 36 < 2 ^ 64
      → main h s w config random_secret random_boot past ≡ ok (app, keeper, now)
      → ((hash : Bytes) → (s.sign hash app.faucet.signer.secret_key).0 < 2)
      → Traces h s sem w from_slice app (new_shared h s sem app keeper now, []) marks last
      → All (Backed h s app.faucet last.0.past) marks
        × (from_private_key_hex h s (private_key config) ≡ ok app.faucet.signer)
        × (drip_wei config ≡ ok app.faucet.drip_wei)
        × (app.faucet.chain_id ≡ (chain_id_of w config.chain_id past).0)
  main_pays app keeper now last marks gas_limit room e low traced =
      let configured =
        main-IsConfigured h s secp w config random_secret random_boot past app keeper now gas_limit
          room e in
      let started =
        main-Started h s secp w config random_secret random_boot past app keeper now e in
      let faucet = Started-faucet app keeper now started in
      (
        (paid-Backed h lawful s secp sem w from_slice app configured.0 low
            (new_shared h s sem app keeper now, []) last marks refl traced).0,
        faucet.0,
        faucet.1,
        faucet.2,
      )
