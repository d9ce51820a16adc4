-- ===== src/Lib.antt =====
-- A model of atlas-faucet, a faucet that pays one transfer for a solved proof of work.
--
-- The program (src/*.rs) is an HTTP server. `GET /api/challenge` signs a challenge for an address;
-- the browser solves its puzzles; `POST /api/claim` authenticates the challenge, verifies the
-- solution, reserves the address's cooldown, takes one of the queue's permits, burns the
-- challenge's salt, and submits the transfer under a lock. A claim that fails gives all of this
-- back. The files follow the sources:
--
--   Prelude      shared helpers: tests, lists and maps over byte strings, results, words, powers
--   Text         what std does with texts: trim, strip_prefix, from_str_radix, decimal forms
--   Hashes, Secp, Semaphore, World
--                what the program calls and this repository does not hold (sha2 and sha3,
--                secp256k1, tokio's semaphore, the node behind reqwest and the clock), as records
--                of operations and records of the laws relied on
--   Util         src/util.rs: hex, addresses, leading zero bits, the comparison of MACs
--   Pow          src/pow.rs: Challenge, PowKeeper with `issue`, `verify_challenge`,
--                `consume_salt`, `try_begin_claim` and their undoing, HMAC, the puzzles. A method
--                that changes the keeper returns the keeper that it leaves
--   Eth          src/eth.rs: RLP both ways, FaucetSigner, `recover_legacy_transfer`
--   Rpc          src/rpc.rs: the JSON-RPC calls, each of which extends the history of the outside
--   Faucet       src/faucet.rs: `new`, `submit`, `await_receipt`, admission
--   Server       src/server.rs: the handlers. Server.Claim runs `claim_handler` alone, and
--                Server.Honest follows a client that does its work; Server.Offer is the
--                challenge that it asks for, and Server.Index the page.
--                Server.Phases lets any number of claims interleave between their accesses to the
--                keeper, the permits, the lock and the outside; Server.Advances names the steps,
--                Server.Trace records the challenges that were accepted and the transfers that
--                the node acknowledged, Server.Lease argues that a salt and an address have one
--                holder at a time (Server.Redemption, Server.Spacing), Server.Current follows the
--                answers that the holder of the lock read (Server.Serialized) up to what it posts
--                (Server.Backed), Server.Served matches the replies with the transfers, and
--                Server.Progress counts the steps that are left
--   Config, Main src/config.rs and src/main.rs: validation, and what `main` hands to the server;
--                Main.Serving follows it to the transfers
--   Tests        toy instances of the parameters, and runs of the model on small inputs
--
-- Texts are lists of bytes, numbers are natural numbers with the wrap-around or the saturation of
-- their types written out, and errors carry what their texts interpolate. The time in seconds
-- and random bytes are arguments of the operations that read them. A world answers each request
-- from the whole history before it, so that a theorem about all worlds covers every node.
--
-- Fuel: the RLP loop runs for as many rounds as the input has bytes, and each item takes up one;
-- `solve_puzzle` tries the 2^32 nonces and the receipt loop one round for each half second of the
-- timeout and one more, since a round that goes on sleeps that long; the decimal form of n has at
-- most n + 1 digits. Each bound is shown to suffice where the loop is used.
--
-- In an interleaving, each access to the keeper's maps, the permits and the lock and each request
-- of `submit` is a step of its own; the wait for the receipt, which holds neither a permit nor the
-- lock and changes nothing that claims share, is one step. Not modelled: axum's routing and JSON
-- texts, envy's reading of the environment, logging, and the page's own text and solver (the page
-- is an argument of `index_handler`).
pub mod Prelude
pub mod Text
pub mod Hashes
pub mod Util
pub mod Pow
pub mod Secp
pub mod Eth
pub mod World
pub mod Rpc
pub mod Semaphore
pub mod Faucet
pub mod Server
pub mod Config
pub mod Main
pub mod Tests
