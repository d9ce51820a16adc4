-- ===== src/Main/Startup.antt =====
-- What `main` guarantees to the server, and when it starts it.
use atlas_faucet.Prelude.{
  ℕ, ◌+◌, ◌*◌, ◌^◌, ◌≤◌, ◌<◌, ◌≡◌, ◌≢◌, ◌↔◌, refl, ap, ◌∙◌, true, ◌||◌, Option, List, [], ◌∷◌,
  Bytes, codes, bytes_eq, bytes_eq_iff, ok, if◌then◌else◌, All, arith, ◌⊎◌, inl, inr, Result-cases,
  Option-cases, Bool-cases, map_err->>=-ok, ok-injective,
}
use atlas_faucet.Prelude.Words.{IsU64}
use atlas_faucet.Hashes.{Hashes}
use atlas_faucet.Secp.{Secp, IsSecp}
use atlas_faucet.Util.{decode_fixed_hex}
use atlas_faucet.World.{History, World}
use atlas_faucet.Pow.{PowKeeper, new_keeper}
use atlas_faucet.Eth.{FaucetSigner, address_for_public_key, from_private_key_hex}
use atlas_faucet.Eth.Recover.{IsSigner}
use atlas_faucet.Faucet.Submit.{IsConfigured}
use atlas_faucet.Server.{AppState}
use atlas_faucet.Config.{Config, private_key, drip_wei, gas_price_wei, validate}
use atlas_faucet.Config.Validate.{validate_iff, drip_wei-lt, gas_price_wei-lt}
use atlas_faucet.Faucet.{new_faucet}
use atlas_faucet.Main.{
  StartupAction, secret_of, run, print_version, unsupported_argument, startup_loop, startup_action,
  invalid_config, invalid_private_key, chain_id_of, app_state, main,
}

abbrev pub IsVersion : Bytes → Type 0
IsVersion a = (a ≡ codes "-v") ⊎ (a ≡ codes "--version")

-- One round: a version argument goes on to the rest, and any other ends in an error.
startup_loop_step :
    (arg : Bytes) (rest : StartupAction)
    → ((if bytes_eq arg (codes "-v") || bytes_eq arg (codes "--version")
          then rest
          else unsupported_argument arg)
        ≡ print_version)
      ↔ (IsVersion arg × (rest ≡ print_version))
startup_loop_step arg rest = elim (Bool-cases (bytes_eq arg (codes "-v"))) [
  | inl short ↦ rw short ((λ e. (inl ((bytes_eq_iff arg (codes "-v")).0 short), e)), (λ (v, e). e))
  | inr unshort ↦ elim (Bool-cases (bytes_eq arg (codes "--version"))) [
    | inl long ↦
        rw (unshort, long)
          ((λ e. (inr ((bytes_eq_iff arg (codes "--version")).0 long), e)), (λ (v, e). e))
    | inr unlong ↦
        rw (unshort, unlong)
          (
            (λ e. absurd (cc)),
            (λ (v, e). elim v [
              | inl is ↦ absurd (cc (unshort, (bytes_eq_iff arg (codes "-v")).1 is))
              | inr is ↦ absurd (cc (unlong, (bytes_eq_iff arg (codes "--version")).1 is))
            ]),
          )
  ]
]

startup_loop_never :
    (arg : Bytes) (rest : StartupAction)
    → rest ≢ run
    → (if bytes_eq arg (codes "-v") || bytes_eq arg (codes "--version")
        then rest
        else unsupported_argument arg)
      ≢ run
startup_loop_never arg rest never e = ground (arith, never, e)

-- Behind a version argument.
startup_loop_seen :
    (args : List Bytes)
    → (startup_loop true args ≢ run)
      × ((startup_loop true args ≡ print_version) ↔ All IsVersion args)
unfolding startup_loop
startup_loop_seen [] = ((λ e. cc), ((λ e. tt), (λ all. refl)))
startup_loop_seen (arg ∷ args) =
    let ih = startup_loop_seen args in
    let round = startup_loop_step arg (startup_loop true args) in
    (
      startup_loop_never arg (startup_loop true args) ih.0,
      ((λ e. ((round.0 e).0, ih.1.0 (round.0 e).1)), (λ all. round.1 (all.0, ih.1.1 all.1))),
    )

-- A server is started exactly on an empty command line, and the version printed exactly on one or
-- more version arguments and nothing else.
pub startup_action_iff :
    (args : List Bytes)
    → ((startup_action args ≡ run) ↔ (args ≡ []))
      × ((startup_action args ≡ print_version) ↔ ((args ≢ []) × All IsVersion args))
unfolding startup_action startup_loop
startup_action_iff [] = (
  ((λ e. refl), (λ e. refl)),
  ((λ e. absurd (cc)), (λ (some_given, all). absurd (some_given refl))),
)
startup_action_iff (arg ∷ args) =
    let ih = startup_loop_seen args in
    let round = startup_loop_step arg (startup_loop true args) in
    (
      ((λ e. absurd (startup_loop_never arg (startup_loop true args) ih.0 e)), (λ e. absurd (cc))),
      (
        (λ e. ((λ none_given. cc), ((round.0 e).0, ih.1.0 (round.0 e).1))),
        (λ (some_given, all). round.1 (all.0, ih.1.1 all.1)),
      ),
    )

module _ (h : Hashes) (s : Secp) (secp : IsSecp s) where
  abbrev FaucetSigner-of : s.SecretKey → FaucetSigner h s
  FaucetSigner-of key = record {
    secret_key = key;
    address = address_for_public_key h s (s.public_key key);
  }

  from_private_key_hex-IsSigner :
      (value : Bytes) (signer : FaucetSigner h s)
      → from_private_key_hex h s value ≡ ok signer
      → IsSigner h s secp signer
  unfolding from_private_key_hex
  from_private_key_hex-IsSigner value signer e = elim (Result-cases (decode_fixed_hex value 32)) [
    | inl (bytes, read) ↦ elim (Option-cases (s.secret_key bytes)) [
      | inl miss ↦ ground (arith, read, miss)
      | inr (key, hit) ↦
          let is : FaucetSigner-of key ≡ signer = ground (arith, read, hit) in rw⁻¹ is refl
    ]
    | inr (x, bad) ↦ ground (arith, bad)
  ]

  app_state-IsConfigured :
      (config : Config) (signer : FaucetSigner h s) (drip : ℕ) (price : Option ℕ) (chain_id : ℕ)
      → validate config ≡ ok tt
      → from_private_key_hex h s (private_key config) ≡ ok signer
      → drip_wei config ≡ ok drip
      → gas_price_wei config ≡ ok price
      → IsU64 config.faucet_gas_limit
      → chain_id * 2 + 36 < 2 ^ 64
      → IsConfigured h s secp (app_state h s config signer drip price chain_id).faucet
        × (0 < (app_state h s config signer drip price chain_id).pow_bits)
        × ((app_state h s config signer drip price chain_id).pow_bits ≤ 28)
        × (0 < (app_state h s config signer drip price chain_id).pow_puzzles)
        × ((app_state h s config signer drip price chain_id).pow_puzzles ≤ 100000)
  unfolding app_state new_faucet
  app_state-IsConfigured config signer drip price chain_id ev es ed ep gas_limit room =
      let ranges = (validate_iff config).0 ev in
      (
        record {
          drip_fits = drip_wei-lt config drip ed;
          gas_limit_fits = gas_limit;
          override_fits = λ p set. gas_price_wei-lt config p (ep ∙ ap ok set);
          chain_id_fits = room;
          signs_as = from_private_key_hex-IsSigner (private_key config) signer es;
        },
        ranges.0,
        ranges.1,
        ranges.2,
        ranges.3,
      )

  -- What stands behind a start: the parts that the configuration holds, and what they make.
  pub record Started (w : World) (config : Config) (random_secret random_boot : Bytes)
      (past : History) (app : AppState h s) (keeper : PowKeeper) (now : History) : Type 0 where
    pub signer : FaucetSigner h s
    pub drip : ℕ
    pub price : Option ℕ
    pub valid : validate config ≡ ok tt
    pub signs : from_private_key_hex h s (private_key config) ≡ ok signer
    pub drips : drip_wei config ≡ ok drip
    pub prices : gas_price_wei config ≡ ok price
    pub built : app_state h s config signer drip price (chain_id_of w config.chain_id past).0 ≡ app
    pub kept : new_keeper (secret_of config.pow_hmac_secret random_secret) random_boot ≡ keeper
    pub asked : (chain_id_of w config.chain_id past).1 ≡ now

  pub main-Started :
      (w : World) (config : Config) (random_secret random_boot : Bytes) (past : History)
      (app : AppState h s) (keeper : PowKeeper) (now : History)
      → main h s w config random_secret random_boot past ≡ ok (app, keeper, now)
      → Started w config random_secret random_boot past app keeper now
  unfolding main
  main-Started w config random_secret random_boot past app keeper now e =
      let (valid, ev, e₁) = map_err->>=-ok invalid_config (validate config) _ e in
      let (signer, es, e₂) =
        map_err->>=-ok invalid_private_key (from_private_key_hex h s (private_key config)) _ e₁ in
      let (drip, ed, e₃) = map_err->>=-ok invalid_config (drip_wei config) _ e₂ in
      let (price, ep, e₄) = map_err->>=-ok invalid_config (gas_price_wei config) _ e₃ in
      record {
        signer = signer;
        drip = drip;
        price = price;
        valid = ev;
        signs = es;
        drips = ed;
        prices = ep;
        built = ap (λ x. x.0) (ok-injective e₄);
        kept = ap (λ x. x.1) (ok-injective e₄);
        asked = ap (λ x. x.2) (ok-injective e₄);
      }

  -- If the gas limit is a u64 and the chain id leaves room for `v`, what `main` starts the
  -- server with is configured as the server's theorems ask for: the amounts fit their types and
  -- the signer's address is that of its key. The bits of a puzzle lie between 1 and 28, and the
  -- puzzles between 1 and 100000.
  pub main-IsConfigured :
      (w : World) (config : Config) (random_secret random_boot : Bytes) (past : History)
      (app : AppState h s) (keeper : PowKeeper) (now : History)
      → IsU64 config.faucet_gas_limit
      → (chain_id_of w config.chain_id past).0 * 2 + 36 < 2 ^ 64
      → main h s w config random_secret random_boot past ≡ ok (app, keeper, now)
      → IsConfigured h s secp app.faucet
        × (0 < app.pow_bits)
        × (app.pow_bits ≤ 28)
        × (0 < app.pow_puzzles)
        × (app.pow_puzzles ≤ 100000)
  main-IsConfigured w config random_secret random_boot past app keeper now gas_limit room e =
      let started = main-Started w config random_secret random_boot past app keeper now e in
      rw⁻¹ started.built (
        app_state-IsConfigured config started.signer started.drip started.price _ started.valid
          started.signs started.drips started.prices gas_limit room)
