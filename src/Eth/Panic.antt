-- ===== src/Eth/Panic.antt =====
-- Where `recover_legacy_transfer` panics: `copy_from_slice` in `left_pad_into`.
use atlas_faucet.Prelude.{
  ℕ, ◌+◌, ◌-◌, ◌^◌, ◌≤◌, ◌<◌, ◌≡◌, ◌↔◌, ◌≢◌, refl, ap, List, [], ◌++◌, map, Bytes, IsByte, All,
  Result, ok, err, ◌>>=◌, arith, length, replicate, get_or, ltb, leb, ◌==◌, ◌⊎◌, inl, inr,
  Bool-cases, Option-cases,
}
use atlas_faucet.Hashes.{Hashes}
use atlas_faucet.Secp.{Secp}
use atlas_faucet.Util.{prefixed_hex}
use atlas_faucet.Util.Hex.{decode_fixed_hex-hex_lower}
use atlas_faucet.Eth.{
  DecodedLegacyTransfer, Failure, panics, rlp_list, rlp_bytes, be_to_u64, left_pad_into,
  recover_sender, recover_fields, recover_legacy_transfer,
}
use atlas_faucet.Eth.Lists.{rlp_decode_flat_list-rlp_list}
use atlas_faucet.Eth.RoundTrip.{rlp_list-IsByte}

left_pad_into-cases :
    (n : ℕ) (src : Bytes)
    → ((length src ≤ n) × (out : Bytes) × (left_pad_into n src ≡ ok out))
      ⊎ ((n < length src) × (left_pad_into n src ≡ err panics))
unfolding left_pad_into
left_pad_into-cases n src = elim (Bool-cases (leb (length src) n)) [
  | inl fits ↦ inl (ground (arith, fits), replicate (n - length src) 0 ++ src, rw fits refl)
  | inr long ↦ inr (ground (arith, long), rw long refl)
]

module _ (h : Hashes) (s : Secp) where
  recover_sender-ne-panics :
      (hash compact : Bytes) (recovery : ℕ) → recover_sender h s hash recovery compact ≢ err panics
  unfolding recover_sender
  recover_sender-ne-panics hash compact recovery e =
      elim (Option-cases (s.from_compact compact recovery)) [
        | inl miss ↦ ground (arith, miss)
        | inr (recoverable, hit) ↦ elim (Option-cases (s.recover hash recoverable)) [
          | inl lost ↦ ground (arith, hit, lost)
          | inr (key, found) ↦ ground (arith, hit, found)
        ]
      ]

  after_sender :
      (r : Result Failure Bytes) (f : Bytes → DecodedLegacyTransfer)
      → r ≢ err panics
      → (r >>= λ from. ok (f from)) ≢ err panics
  after_sender (ok from) f calm e = cc
  after_sender (err x) f calm e = calm (let same : x ≡ panics = cc in ap err same)

  -- The fields that panic, of those that are checked before.
  abbrev pub Overlong : List Bytes → Type 0
  Overlong items =
      (length (get_or items 3 []) ≡ 20)
      × (35 ≤ be_to_u64 (get_or items 6 []))
      × ((32 < length (get_or items 7 [])) ⊎ (32 < length (get_or items 8 [])))

  recover_fields_iff :
      (items : List Bytes) → (recover_fields h s items ≡ err panics) ↔ Overlong items
  unfolding recover_fields
  recover_fields_iff items = elim (Bool-cases (length (get_or items 3 []) == 20)) [
    | inr other ↦ (λ e. ground (arith, other), λ bad. ground (arith, other, bad.0))
    | inl twenty ↦ elim (Bool-cases (ltb (be_to_u64 (get_or items 6 [])) 35)) [
      | inl low ↦ (λ e. ground (arith, twenty, low), λ bad. ground (arith, low, bad.1))
      | inr signed ↦ elim (left_pad_into-cases 32 (get_or items 7 [])) [
        | inr (long, e₇) ↦
            rw (twenty, signed, e₇)
              (λ e. (ground (arith, twenty), ground (arith, signed), inl long), λ bad. refl)
        | inl (short, r, e₇) ↦ elim (left_pad_into-cases 32 (get_or items 8 [])) [
          | inr (long, e₈) ↦
              rw (twenty, signed, e₇, e₈)
                (λ e. (ground (arith, twenty), ground (arith, signed), inr long), λ bad. refl)
          | inl (also, t, e₈) ↦
              rw (twenty, signed, e₇, e₈)
                (
                  λ e. absurd (after_sender _ _ (recover_sender-ne-panics _ _ _) e),
                  λ bad. absurd (omega (arith, bad, short, also)),
                )
        ]
      ]
    ]
  ]

  -- Of nine fields that fit the lengths of the encoding, the encoded transaction makes
  -- `recover_legacy_transfer` panic exactly when the recipient has twenty bytes, `v` is at least
  -- 35, and `r` or `s` has more than 32 bytes.
  pub recover_legacy_transfer_panics_iff :
      (items : List Bytes)
      → length items ≡ 9
      → All (All IsByte) items
      → length (rlp_list (map rlp_bytes items)) + 18 < 2 ^ 64
      → (recover_legacy_transfer h s (prefixed_hex (rlp_list (map rlp_bytes items))) ≡ err panics)
        ↔ Overlong items
  unfolding recover_legacy_transfer
  recover_legacy_transfer_panics_iff items nine bytes fits =
      rw
        (
          (decode_fixed_hex-hex_lower _ (rlp_list-IsByte items bytes)).1,
          rlp_decode_flat_list-rlp_list items fits,
          nine,
        )
        (recover_fields_iff items)
