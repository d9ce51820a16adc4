-- ===== src/Pow/Message.antt =====
-- The text under the HMAC determines every field that it is made of.
use atlas_faucet.Prelude.{
  ℕ, ◌≡◌, ◌≢◌, refl, sym, ap, ◌∙◌, [], ◌∷◌, ◌++◌, Bytes, All, All-mono, arith, drop,
}
use atlas_faucet.Text.{to_decimal}
use atlas_faucet.Text.Decimal.{IsDecimal, to_decimal-IsDecimal, to_decimal-injective}
use atlas_faucet.Pow.Keeper.{mac_message}

-- Text without the separator.
abbrev pub Unbarred : Bytes → Type 0
Unbarred s = All (λ c. c ≢ b'|') s

-- A part without the separator ends at the first separator.
split_bar :
    (xs ys r s : Bytes)
    → Unbarred xs
    → Unbarred ys
    → xs ++ (b'|' ∷ r) ≡ ys ++ (b'|' ∷ s)
    → (xs ≡ ys) × (r ≡ s)
split_bar [] [] r s hx hy e = ground arith
split_bar [] (y ∷ ys) r s hx hy e = ground (arith, hy.0)
split_bar (x ∷ xs) [] r s hx hy e = ground (arith, hx.0)
split_bar (x ∷ xs) (y ∷ ys) r s hx hy e =
    let same : (x ≡ y) × (xs ++ (b'|' ∷ r) ≡ ys ++ (b'|' ∷ s)) = ground arith in
    let ih = split_bar xs ys r s hx.1 hy.1 same.1 in (cc (same.0, ih.0), ih.1)

pub to_decimal-Unbarred : (n : ℕ) → Unbarred (to_decimal n)
to_decimal-Unbarred n =
    All-mono IsDecimal (λ c. c ≢ b'|') (to_decimal n) (λ c d. omega arith) (to_decimal-IsDecimal n)

-- What follows the fixed front of the message.
abbrev fields_text : Bytes → Bytes → Bytes → ℕ → ℕ → ℕ → ℕ → Bytes
fields_text boot address salt bits puzzles issued expires =
    boot
    ++ (b'|'
        ∷ (address
            ++ (b'|'
                ∷ (salt
                    ++ (b'|'
                        ∷ (to_decimal bits
                            ++ (b'|'
                                ∷ (to_decimal puzzles
                                    ++ (b'|'
                                        ∷ (to_decimal issued
                                            ++ (b'|' ∷ to_decimal expires)))))))))))

drop-mac_message :
    (boot address salt : Bytes) (bits puzzles issued expires : ℕ)
    → drop 41 (mac_message boot address salt bits puzzles issued expires)
      ≡ fields_text boot address salt bits puzzles issued expires
unfolding mac_message to_decimal
drop-mac_message boot address salt bits puzzles issued expires = refl

numbers-injective :
    (bits bits' puzzles puzzles' issued issued' expires expires' : ℕ)
    → to_decimal bits
        ++ (b'|'
            ∷ (to_decimal puzzles ++ (b'|' ∷ (to_decimal issued ++ (b'|' ∷ to_decimal expires)))))
      ≡ to_decimal bits'
        ++ (b'|'
            ∷ (to_decimal puzzles'
                ++ (b'|' ∷ (to_decimal issued' ++ (b'|' ∷ to_decimal expires')))))
    → (bits ≡ bits') × (puzzles ≡ puzzles') × (issued ≡ issued') × (expires ≡ expires')
numbers-injective bits bits' puzzles puzzles' issued issued' expires expires' e =
    let u = to_decimal-Unbarred in
    let s = split_bar _ _ _ _ (u bits) (u bits') e in
    let t = split_bar _ _ _ _ (u puzzles) (u puzzles') s.1 in
    let v = split_bar _ _ _ _ (u issued) (u issued') t.1 in
    (
      to_decimal-injective bits bits' s.0,
      to_decimal-injective puzzles puzzles' t.0,
      to_decimal-injective issued issued' v.0,
      to_decimal-injective expires expires' v.1,
    )

-- Two equal messages, whose texts have no separator in them, agree in the boot nonce, the
-- address, the salt and the four numbers.
pub mac_message-injective :
    (boot boot' address address' salt salt' : Bytes)
    (bits bits' puzzles puzzles' issued issued' expires expires' : ℕ)
    → Unbarred boot
    → Unbarred boot'
    → Unbarred address
    → Unbarred address'
    → Unbarred salt
    → Unbarred salt'
    → mac_message boot address salt bits puzzles issued expires
      ≡ mac_message boot' address' salt' bits' puzzles' issued' expires'
    → (boot ≡ boot')
      × (address ≡ address')
      × (salt ≡ salt')
      × (bits ≡ bits')
      × (puzzles ≡ puzzles')
      × (issued ≡ issued')
      × (expires ≡ expires')
mac_message-injective boot boot' address address' salt salt' bits bits' puzzles puzzles' issued
      issued' expires expires' hb hb' ha ha' hs hs' e =
    let tails =
      sym (drop-mac_message boot address salt bits puzzles issued expires)
      ∙ ap (drop 41) e
      ∙ drop-mac_message boot' address' salt' bits' puzzles' issued' expires' in
    let s = split_bar boot boot' _ _ hb hb' tails in
    let t = split_bar address address' _ _ ha ha' s.1 in
    let v = split_bar salt salt' _ _ hs hs' t.1 in
    let n = numbers-injective bits bits' puzzles puzzles' issued issued' expires expires' v.1 in
    (s.0, t.0, v.0, n.0, n.1, n.2, n.3)
