-- ===== src/Tests/Toys.antt =====
-- Concrete instances of what the model takes as parameters.
use atlas_faucet.Prelude.{
  ℕ, zero, suc, ◌+◌, ◌%◌, ◌≤◌, ◌≡◌, refl, Option, none, some, [], ◌∷◌, ◌++◌, Bytes, IsByte, codes,
  bytes_eq, All, arith, if◌then◌else◌,
}
use atlas_faucet.Hashes.{Hashes, IsHashes}
use atlas_faucet.Secp.{Secp, IsSecp}
use atlas_faucet.Semaphore.{Semaphore, IsSemaphore}
use atlas_faucet.World.{
  string, object, close, member, Reply, body, Event, posts, sleeps, History, World, IsClock,
}
use atlas_faucet.Pow.{PowKeeper, new_keeper}
use atlas_faucet.Eth.{FaucetSigner, LegacyTransfer, address_for_public_key}
use atlas_faucet.Faucet.{Faucet}

-- The last byte is the sum of the message.
abbrev pub sum : Bytes → ℕ
sum [] = 0
sum (b ∷ m) = b + sum m

abbrev pub toy_digest : Bytes → Bytes
toy_digest m =
    0
    ∷ 0
    ∷ 0
    ∷ 0
    ∷ 0
    ∷ 0
    ∷ 0
    ∷ 0
    ∷ 0
    ∷ 0
    ∷ 0
    ∷ 0
    ∷ 0
    ∷ 0
    ∷ 0
    ∷ 0
    ∷ 0
    ∷ 0
    ∷ 0
    ∷ 0
    ∷ 0
    ∷ 0
    ∷ 0
    ∷ 0
    ∷ 0
    ∷ 0
    ∷ 0
    ∷ 0
    ∷ 0
    ∷ 0
    ∷ 0
    ∷ sum m % 256
    ∷ []

abbrev pub toy_hashes : Hashes
toy_hashes = record { sha256 = toy_digest; keccak256 = toy_digest }

toy_digest-IsByte : (m : Bytes) → All IsByte (toy_digest m)
toy_digest-IsByte m = omega arith

pub toy_hashes-IsHashes : IsHashes toy_hashes
toy_hashes-IsHashes = record {
  length-sha256 = λ m. refl;
  sha256-IsByte = toy_digest-IsByte;
  length-keccak256 = λ m. refl;
  keccak256-IsByte = toy_digest-IsByte;
}

abbrev pub sixteen : Bytes
sixteen = codes "0123456789abcdef"

abbrev pub sixty_four : Bytes
sixty_four = sixteen ++ (sixteen ++ (sixteen ++ sixteen))

-- One key, whose signatures are all the same.
abbrev pub toy_secp : Secp
toy_secp = record {
  SecretKey = Unit {0};
  PublicKey = Unit {0};
  Signature = Unit {0};
  secret_key = λ b. some tt;
  public_key = λ k. tt;
  serialize_uncompressed = λ k. 4 ∷ sixty_four;
  sign = λ hash key. (1, sixty_four);
  from_compact = λ compact recovery. some tt;
  recover = λ hash signature. some tt;
}

pub toy_secp-IsSecp : IsSecp toy_secp
toy_secp-IsSecp = record {
  length-sign = λ hash key. refl;
  sign-IsByte = λ hash key. omega arith;
  recover-sign = λ hash key. (tt, refl, refl);
}

abbrev acquire : ℕ → Option ℕ
acquire zero = none
acquire (suc n) = some n

abbrev pub toy_semaphore : Semaphore
toy_semaphore = record {
  Permits = ℕ;
  new = λ n. n;
  available_permits = λ n. n;
  try_acquire = acquire;
  add_permit = suc;
}

acquire-none : (p : ℕ) → acquire p ≡ none → p ≡ 0
acquire-none zero e = refl
acquire-none (suc p) e = cc

acquire-some : (p q : ℕ) → acquire p ≡ some q → p ≡ suc q
acquire-some zero q e = cc
acquire-some (suc p) q e = cc

pub toy_semaphore-IsSemaphore : IsSemaphore toy_semaphore
toy_semaphore-IsSemaphore = record {
  available-new = λ n. refl;
  acquire-none = acquire-none;
  acquire-some = acquire-some;
  available-add = λ p. refl;
}

abbrev toy_reply : History → Reply
toy_reply [] = body []
toy_reply (sleeps ms ∷ past) = body []
toy_reply (posts method params ∷ past) =
    if bytes_eq method (codes "eth_getBalance")
    then body (codes "0xffffffff")
    else if bytes_eq method (codes "eth_getTransactionCount")
    then body (codes "0x5")
    else body (codes "0xabc")

abbrev toy_instant : History → ℕ
toy_instant [] = 0
toy_instant (sleeps ms ∷ past) = toy_instant past + ms
toy_instant (posts method params ∷ past) = toy_instant past

-- A node that answers each request with a text, and a clock that only sleeps move.
abbrev pub toy_world : World
toy_world = record {
  answer = toy_reply;
  from_str = λ text. some (object (member (codes "result") (string text) close));
  instant = toy_instant;
}

toy_forward : (e : Event) (past : History) → toy_instant past ≤ toy_instant (e ∷ past)
toy_forward (sleeps ms) past = omega arith
toy_forward (posts method params) past = omega arith

pub toy_world-IsClock : IsClock toy_world
toy_world-IsClock = record { forward = toy_forward; slept = λ ms past. omega arith }

abbrev pub toy_address : Bytes
toy_address = codes "abcdefghijklmnopqrst"

abbrev pub toy_keeper : PowKeeper
toy_keeper = new_keeper (codes "unit-secret") sixteen

abbrev pub toy_signer : FaucetSigner toy_hashes toy_secp
toy_signer = record { secret_key = tt; address = address_for_public_key toy_hashes toy_secp tt }

abbrev pub toy_transfer : LegacyTransfer
toy_transfer = record {
  chain_id = 1337;
  nonce = 5;
  gas_price = 1000;
  gas_limit = 21000;
  to = toy_address;
  value = 1000000;
}

abbrev pub toy_faucet : Faucet toy_hashes toy_secp
toy_faucet = record {
  signer = toy_signer;
  chain_id = 1337;
  drip_wei = 1000000;
  gas_limit = 21000;
  gas_price_override = some 1000;
  receipt_timeout = 2;
  capacity = 2;
}
