-- ===== src/Util/Checksum.antt =====
-- `checksum_address`, character by character.
use atlas_faucet.Prelude.{◌/◌, ◌%◌, [], ◌∷◌, Bytes}

-- The hexadecimal digits of some bytes.
abbrev pub nibbles : Bytes → Bytes
nibbles [] = []
nibbles (b ∷ bytes) = b / 16 ∷ b % 16 ∷ nibbles bytes
