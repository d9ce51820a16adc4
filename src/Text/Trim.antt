-- ===== src/Text/Trim.antt =====
-- `trim` and `strip_prefix` on text without white space.
use mathlib.Core.List.{reverse-reverse}
use atlas_faucet.Prelude.{
  ℕ, ◌≤◌, ◌<◌, ◌≡◌, refl, some, [], ◌∷◌, ◌++◌, reverse, Bytes, All, All-reverse, arith,
}
use atlas_faucet.Text.{white_front, white_back, skip_white, trim, strip_prefix}

-- A visible ASCII character.
abbrev pub IsGraphic : ℕ → Type 0
IsGraphic b = (33 ≤ b) × (b < 127)

white_front-eq_zero : (b : ℕ) (s : Bytes) → IsGraphic b → white_front (b ∷ s) ≡ 0
unfolding white_front
white_front-eq_zero b [] h = ground arith
white_front-eq_zero b (c ∷ []) h = ground arith
white_front-eq_zero b (c ∷ d ∷ s) h = ground arith

white_back-eq_zero : (b : ℕ) (s : Bytes) → IsGraphic b → white_back (b ∷ s) ≡ 0
unfolding white_back
white_back-eq_zero b [] h = ground arith
white_back-eq_zero b (c ∷ []) h = ground arith
white_back-eq_zero b (c ∷ d ∷ s) h = ground arith

skip_front : (s : Bytes) → All IsGraphic s → skip_white white_front 0 s ≡ s
unfolding skip_white
skip_front [] h = refl
skip_front (b ∷ s) h = rw (white_front-eq_zero b s h.0, skip_white)

skip_back : (s : Bytes) → All IsGraphic s → skip_white white_back 0 s ≡ s
unfolding skip_white
skip_back [] h = refl
skip_back (b ∷ s) h = rw (white_back-eq_zero b s h.0, skip_white)

pub trim_graphic : (s : Bytes) → All IsGraphic s → trim s ≡ s
unfolding trim
trim_graphic s h =
    rw (skip_front s h, skip_back (reverse s) (All-reverse IsGraphic s h)) (reverse-reverse s)

pub strip_prefix-append : (p s : Bytes) → strip_prefix p (p ++ s) ≡ some s
unfolding strip_prefix
strip_prefix-append [] s = refl
strip_prefix-append (c ∷ p) s = ground (arith, strip_prefix-append p s)
