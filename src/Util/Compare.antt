-- ===== src/Util/Compare.antt =====
-- `constant_time_eq` decides equality of byte strings.
use Prim.Native.Nat.{bit_or, bit_xor}
use atlas_faucet.Prelude.{ℕ, ◌≡◌, ◌↔◌, refl, true, [], ◌∷◌, Bytes, arith, length}
use atlas_faucet.Prelude.Bits.{bit_or-eq_zero, bit_xor-eq_zero, bit_xor_self}
use atlas_faucet.Util.Defs.{diff_loop, constant_time_eq}

-- The accumulated difference is zero exactly when no pair of bytes differs.
diff_loop-eq_zero :
    (diff : ℕ) (left right : Bytes)
    → length left ≡ length right
    → diff_loop diff left right ≡ 0
    → (diff ≡ 0) × (left ≡ right)
unfolding diff_loop
diff_loop-eq_zero diff [] [] h e = (e, refl)
diff_loop-eq_zero diff [] (b ∷ right) h e = absurd (omega arith)
diff_loop-eq_zero diff (a ∷ left) [] h e = absurd (omega arith)
diff_loop-eq_zero diff (a ∷ left) (b ∷ right) h e =
    let ih = diff_loop-eq_zero (bit_or diff (bit_xor a b)) left right (omega arith) e in
    let parts = bit_or-eq_zero diff (bit_xor a b) ih.0 in
    (parts.0, cc (bit_xor-eq_zero a b parts.1, ih.1))

diff_loop_self : (left : Bytes) → diff_loop 0 left left ≡ 0
unfolding diff_loop
diff_loop_self [] = refl
diff_loop_self (a ∷ left) = rw (bit_xor_self a) (diff_loop_self left)

-- The comparison is true exactly on equal byte strings.
pub constant_time_eq_iff :
    (left right : Bytes) → (constant_time_eq left right ≡ true) ↔ (left ≡ right)
unfolding constant_time_eq
constant_time_eq_iff left right = (
  λ e. (diff_loop-eq_zero 0 left right (ground arith) (ground arith)).1,
  λ e. rw (← e) (ground (arith, diff_loop_self left)),
)
