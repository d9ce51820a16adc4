-- ===== src/Eth/Recover.antt =====
-- `recover_legacy_transfer` on what `sign_legacy_transfer` returns.
use atlas_faucet.Prelude.{
  ℕ, zero, suc, ◌+◌, ◌-◌, ◌*◌, ◌/◌, ◌%◌, ◌^◌, ◌≤◌, ◌<◌, ◌≡◌, refl, sym, ap, List, [], ◌∷◌, ◌++◌,
  map, Bytes, IsByte, All, arith, length, take, drop, ok,
}
use atlas_faucet.Prelude.Words.{IsU64, IsU128}
use atlas_faucet.Hashes.{Hashes}
use atlas_faucet.Secp.{Secp, IsSecp}
use atlas_faucet.Util.{prefixed_hex, decode_flexible_hex}
use atlas_faucet.Util.Hex.{decode_fixed_hex-hex_lower}
use atlas_faucet.Util.Address.{IsAddress}
use atlas_faucet.Eth.Rlp.{
  minimal_be, strip_leading_zeros, rlp_bytes, rlp_list, rlp_uint, rlp_decode_flat_list,
}
use atlas_faucet.Eth.Numbers.{
  be_to_u64-minimal_be, be_to_u128-minimal_be, minimal_be-IsByte, length-minimal_be, strip-IsByte,
  length-strip,
}
use atlas_faucet.Eth.Lists.{rlp_decode_flat_list-rlp_list}
use atlas_faucet.Eth.RoundTrip.{
  rlp_list-IsByte, length-rlp_list-le, left_pad_into-strip_leading_zeros,
}
use atlas_faucet.Eth.Signing.{
  LegacyTransfer, legacy_signing_payload, FaucetSigner, address_for_public_key, signature_v,
  sign_legacy_transfer, recover_sender, recover_fields, recover_legacy_transfer,
}

-- The fields fit their types, and the chain id leaves room for EIP-155's `v` in a `u64`.
pub record IsTransfer (tx : LegacyTransfer) : Type 0 where
  pub nonce_fits : IsU64 tx.nonce
  pub gas_price_fits : IsU128 tx.gas_price
  pub gas_limit_fits : IsU64 tx.gas_limit
  pub recipient : IsAddress tx.to
  pub value_fits : IsU128 tx.value
  pub chain_id_fits : tx.chain_id * 2 + 36 < 2 ^ 64

take-drop : (n : ℕ) (bs : Bytes) → take n bs ++ drop n bs ≡ bs
take-drop zero bs = refl
take-drop (suc n) [] = refl
take-drop (suc n) (b ∷ bs) = ap (◌∷◌ b) (take-drop n bs)

length-take :
    (n : ℕ) (bs : Bytes)
    → n ≤ length bs
    → (length (take n bs) ≡ n) × (length (drop n bs) ≡ length bs - n)
length-take zero bs h = omega arith
length-take (suc n) [] h = absurd (omega arith)
length-take (suc n) (b ∷ bs) h = omega (arith, length-take n bs (omega arith))

All-take : (n : ℕ) (bs : Bytes) → All IsByte bs → All IsByte (take n bs) × All IsByte (drop n bs)
All-take zero bs h = (tt, h)
All-take (suc n) [] h = (tt, tt)
All-take (suc n) (b ∷ bs) h = let ih = All-take n bs h.1 in ((h.0, ih.0), ih.1)

-- The nine fields as byte strings.
abbrev raw_items : LegacyTransfer → ℕ → Bytes → List Bytes
raw_items tx v compact =
    minimal_be tx.nonce
    ∷ minimal_be tx.gas_price
    ∷ minimal_be tx.gas_limit
    ∷ tx.to
    ∷ minimal_be tx.value
    ∷ []
    ∷ minimal_be v
    ∷ strip_leading_zeros (take 32 compact)
    ∷ strip_leading_zeros (drop 32 compact)
    ∷ []

module _ (tx : LegacyTransfer) (fits : IsTransfer tx) (v : ℕ) (compact : Bytes)
    (l : length compact ≡ 64) (b : All IsByte compact) where
  raw_items-IsByte : All (All IsByte) (raw_items tx v compact)
  raw_items-IsByte =
      let m = minimal_be-IsByte in
      let halves = All-take 32 compact b in
      (
        m tx.nonce,
        (
          m tx.gas_price,
          (
            m tx.gas_limit,
            (
              fits.recipient.1,
              (m tx.value, (tt, (m v, (strip-IsByte _ halves.0, (strip-IsByte _ halves.1, tt))))),
            ),
          ),
        ),
      )

  raw_items-short : All (λ i. length i ≤ 32) (raw_items tx v compact)
  raw_items-short =
      let m = λ (n : ℕ). length-minimal_be n in
      let halves = length-take 32 compact (omega arith) in
      let r = length-strip (take 32 compact) in
      let t = length-strip (drop 32 compact) in
      (
        omega (arith, m tx.nonce),
        (
          omega (arith, m tx.gas_price),
          (
            omega (arith, m tx.gas_limit),
            (
              omega (arith, fits.recipient.0),
              (
                omega (arith, m tx.value),
                (
                  omega arith,
                  (omega (arith, m v), (omega (arith, halves, r), (omega (arith, halves, t), tt))),
                ),
              ),
            ),
          ),
        ),
      )

  -- The hexadecimal text of the encoded fields is decoded to them.
  decoded :
      (decode_flexible_hex (prefixed_hex (rlp_list (map rlp_bytes (raw_items tx v compact))))
        ≡ ok (rlp_list (map rlp_bytes (raw_items tx v compact))))
      × (rlp_decode_flat_list (rlp_list (map rlp_bytes (raw_items tx v compact)))
          ≡ ok (raw_items tx v compact))
  decoded = (
    (decode_fixed_hex-hex_lower _ (rlp_list-IsByte (raw_items tx v compact) raw_items-IsByte)).1,
    rlp_decode_flat_list-rlp_list (raw_items tx v compact)
        (omega (arith, length-rlp_list-le (raw_items tx v compact) raw_items-short refl)),
  )

module _ (h : Hashes) (s : Secp) (secp : IsSecp s) where
  -- The signer's address is that of its key, as `from_private_key_hex` sets it.
  abbrev pub IsSigner : FaucetSigner h s → Type 0
  IsSigner signer = signer.address ≡ address_for_public_key h s (s.public_key signer.secret_key)

  recover_sender-sign :
      (signer : FaucetSigner h s) (hash : Bytes)
      → IsSigner signer
      → recover_sender h s hash (s.sign hash signer.secret_key).0 (s.sign hash signer.secret_key).1
        ≡ ok signer.address
  unfolding recover_sender
  recover_sender-sign signer hash is =
      let (signature, read, key) = secp.recover-sign hash signer.secret_key in
      rw (read, key) (ap ok (sym is))

  -- `v` holds the chain id and the recovery id.
  signature_v_parts :
      (tx : LegacyTransfer) (recovery : ℕ)
      → tx.chain_id * 2 + 36 < 2 ^ 64
      → recovery < 2
      → (35 ≤ signature_v h s tx recovery)
        × (IsU64 (signature_v h s tx recovery))
        × ((signature_v h s tx recovery - 35) / 2 ≡ tx.chain_id)
        × ((signature_v h s tx recovery - 35) % 2 ≡ recovery)
  signature_v_parts tx recovery fits low = omega arith

  recover_fields_lem :
      (tx : LegacyTransfer) (v recovery : ℕ) (compact from : Bytes)
      → IsTransfer tx
      → (35 ≤ v) × IsU64 v × ((v - 35) / 2 ≡ tx.chain_id) × ((v - 35) % 2 ≡ recovery)
      → length compact ≡ 64
      → recover_sender h s (h.keccak256 (legacy_signing_payload tx)) recovery compact ≡ ok from
      → recover_fields h s (raw_items tx v compact)
        ≡ ok (record {
          from = from;
          to = tx.to;
          value = tx.value;
          nonce = tx.nonce;
          chain_id = tx.chain_id;
        })
  unfolding recover_fields legacy_signing_payload
  recover_fields_lem tx v recovery compact from fits (hv, uv, chain, rec) l sender =
      let halves = length-take 32 compact (omega (arith, l)) in
      let r = left_pad_into-strip_leading_zeros 32 (take 32 compact) halves.0 in
      let t = left_pad_into-strip_leading_zeros 32 (drop 32 compact) (omega (arith, halves, l)) in
      rw
        (
          be_to_u64-minimal_be tx.nonce fits.nonce_fits,
          be_to_u128-minimal_be tx.gas_price fits.gas_price_fits,
          be_to_u64-minimal_be tx.gas_limit fits.gas_limit_fits,
          be_to_u128-minimal_be tx.value fits.value_fits,
          be_to_u64-minimal_be v uv,
          chain,
          rec,
          r,
          t,
        )
        (rw (take-drop 32 compact, sender) (ground (arith, fits.recipient.0)))

  -- A transfer that the faucet signs is recovered with the signer's address as its sender and
  -- with its own recipient, value, nonce and chain id, if the curve satisfies its laws, the
  -- signer's address is that of its key, the fields fit their types, and the signature has a
  -- recovery id of 0 or 1.
  pub recover_legacy_transfer-sign_legacy_transfer :
      (signer : FaucetSigner h s) (tx : LegacyTransfer)
      → IsSigner signer
      → IsTransfer tx
      → (s.sign (h.keccak256 (legacy_signing_payload tx)) signer.secret_key).0 < 2
      → recover_legacy_transfer h s (sign_legacy_transfer h s signer tx).raw
        ≡ ok (record {
          from = signer.address;
          to = tx.to;
          value = tx.value;
          nonce = tx.nonce;
          chain_id = tx.chain_id;
        })
  unfolding recover_legacy_transfer sign_legacy_transfer rlp_uint
  recover_legacy_transfer-sign_legacy_transfer signer tx is fits low =
      let hash = h.keccak256 (legacy_signing_payload tx) in
      let sig = s.sign hash signer.secret_key in
      let v = signature_v h s tx sig.0 in
      let both =
        decoded tx fits v sig.1 (secp.length-sign hash signer.secret_key)
          (secp.sign-IsByte hash signer.secret_key) in
      let last =
        recover_fields_lem tx v sig.0 sig.1 signer.address fits
          (signature_v_parts tx sig.0 fits.chain_id_fits low)
          (secp.length-sign hash signer.secret_key) (recover_sender-sign signer hash is) in
      rw (both.0, both.1) last
