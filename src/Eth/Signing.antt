-- ===== src/Eth/Signing.antt =====
-- `FaucetSigner`, EIP-155 signing, and `recover_legacy_transfer`.
use atlas_faucet.Prelude.{
  ℕ, ◌+◌, ◌-◌, ◌*◌, ◌/◌, ◌%◌, not, List, [], ◌∷◌, ◌++◌, Bytes, Result, ok, err, ◌>>=◌, map_err,
  ok_or, ltb, leb, ◌==◌, if◌then◌else◌, length, take, drop, get_or, replicate,
}
use atlas_faucet.Prelude.Words.{as_u64}
use atlas_faucet.Hashes.{Hashes}
use atlas_faucet.Secp.{Secp}
use atlas_faucet.Util.{HexError, prefixed_hex, decode_fixed_hex, decode_flexible_hex}
use atlas_faucet.Eth.Rlp.{
  RlpError, strip_leading_zeros, rlp_bytes, rlp_list, rlp_uint, be_to_u64, be_to_u128,
  rlp_decode_flat_list,
}

pub record LegacyTransfer : Type 0 where
  pub chain_id : ℕ
  pub nonce : ℕ
  pub gas_price : ℕ
  pub gas_limit : ℕ
  pub to : Bytes
  pub value : ℕ

pub record SignedTransaction : Type 0 where
  pub raw : Bytes
  pub hash : Bytes

pub record DecodedLegacyTransfer : Type 0 where
  pub from : Bytes
  pub to : Bytes
  pub value : ℕ
  pub nonce : ℕ
  pub chain_id : ℕ

-- The texts of the errors, by what they interpolate.
pub data EthError : Type 0 where
  bad_hex : HexError → EthError
  bad_rlp : RlpError → EthError
  field_count : ℕ → EthError
  bad_recipient not_eip155 bad_signature recovery_failed bad_private_key : EthError

-- How a call ends that does not return a value: with an `Err`, or with a panic.
pub data Failure : Type 0 where
  fails : EthError → Failure
  panics : Failure

unfoldable pub legacy_signing_payload : LegacyTransfer → Bytes
legacy_signing_payload tx = rlp_list (
    rlp_uint tx.nonce
    ∷ rlp_uint tx.gas_price
    ∷ rlp_uint tx.gas_limit
    ∷ rlp_bytes tx.to
    ∷ rlp_uint tx.value
    ∷ rlp_bytes []
    ∷ rlp_uint tx.chain_id
    ∷ rlp_bytes []
    ∷ rlp_bytes []
    ∷ [])

-- `left_pad_into` a buffer of `n` zero bytes: `copy_from_slice` panics on a longer source.
unfoldable pub left_pad_into : ℕ → Bytes → Result Failure Bytes
left_pad_into n src =
    if leb (length src) n then ok (replicate (n - length src) 0 ++ src) else err panics

module _ (h : Hashes) (s : Secp) where
  pub record FaucetSigner : Type 0 where
    pub secret_key : s.SecretKey
    pub address : Bytes

  unfoldable pub address_for_public_key : s.PublicKey → Bytes
  address_for_public_key public_key =
      drop 12 (h.keccak256 (drop 1 (s.serialize_uncompressed public_key)))

  unfoldable pub from_private_key_hex : Bytes → Result EthError FaucetSigner
  unfolding address_for_public_key
  from_private_key_hex value = do
    bytes ← map_err bad_hex (decode_fixed_hex value 32)
    key ← ok_or (s.secret_key bytes) bad_private_key
    ok (record { secret_key = key; address = address_for_public_key (s.public_key key) })

  -- `v`, wrapped as the `u64` sum of a release build.
  abbrev pub signature_v : LegacyTransfer → ℕ → ℕ
  signature_v tx recovery_byte = as_u64 (as_u64 (tx.chain_id * 2) + 35 + recovery_byte)

  -- The nine fields of the signed transaction, before they are encoded.
  abbrev pub signed_fields : LegacyTransfer → ℕ × Bytes → List Bytes
  signed_fields tx (recovery_byte, compact) =
      rlp_uint tx.nonce
      ∷ rlp_uint tx.gas_price
      ∷ rlp_uint tx.gas_limit
      ∷ rlp_bytes tx.to
      ∷ rlp_uint tx.value
      ∷ rlp_bytes []
      ∷ rlp_uint (signature_v tx recovery_byte)
      ∷ rlp_bytes (strip_leading_zeros (take 32 compact))
      ∷ rlp_bytes (strip_leading_zeros (drop 32 compact))
      ∷ []

  unfoldable pub sign_legacy_transfer : FaucetSigner → LegacyTransfer → SignedTransaction
  sign_legacy_transfer signer tx =
      let signing_hash = h.keccak256 (legacy_signing_payload tx) in
      let signed = rlp_list (signed_fields tx (s.sign signing_hash signer.secret_key)) in
      record { raw = prefixed_hex signed; hash = prefixed_hex (h.keccak256 signed) }

  -- The code behind the parsing of the fields. `recovery` is 0 or 1.
  unfoldable pub recover_sender : Bytes → ℕ → Bytes → Result Failure Bytes
  unfolding address_for_public_key
  recover_sender signing_hash recovery compact = do
    recoverable ← ok_or (s.from_compact compact recovery) (fails bad_signature)
    public_key ← ok_or (s.recover signing_hash recoverable) (fails recovery_failed)
    ok (address_for_public_key public_key)

  unfoldable pub recover_fields : List Bytes → Result Failure DecodedLegacyTransfer
  recover_fields items =
      let nonce = be_to_u64 (get_or items 0 []) in
      let gas_price = be_to_u128 (get_or items 1 []) in
      let gas_limit = be_to_u64 (get_or items 2 []) in
      let to = get_or items 3 [] in
      let value = be_to_u128 (get_or items 4 []) in
      let payload = get_or items 5 [] in
      let v = be_to_u64 (get_or items 6 []) in
      let chain_id = (v - 35) / 2 in
      let signing_payload = rlp_list (
        rlp_uint nonce
        ∷ rlp_uint gas_price
        ∷ rlp_uint gas_limit
        ∷ rlp_bytes to
        ∷ rlp_uint value
        ∷ rlp_bytes payload
        ∷ rlp_uint chain_id
        ∷ rlp_bytes []
        ∷ rlp_bytes []
        ∷ []) in
      if not (length to == 20)
      then err (fails bad_recipient)
      else if ltb v 35
      then err (fails not_eip155)
      else (do
        r ← left_pad_into 32 (get_or items 7 [])
        t ← left_pad_into 32 (get_or items 8 [])
        from ← recover_sender (h.keccak256 signing_payload) ((v - 35) % 2) (r ++ t)
        ok (record { from = from; to = to; value = value; nonce = nonce; chain_id = chain_id }))

  unfoldable pub recover_legacy_transfer : Bytes → Result Failure DecodedLegacyTransfer
  recover_legacy_transfer raw_hex = do
    raw ← map_err (λ e. fails (bad_hex e)) (decode_flexible_hex raw_hex)
    items ← map_err (λ e. fails (bad_rlp e)) (rlp_decode_flat_list raw)
    if length items == 9 then recover_fields items else err (fails (field_count (length items)))
