-- ===== src/Text/Replace.antt =====
-- `str::replace`, for a pattern that is not empty.
use atlas_faucet.Prelude.{
  ℕ, zero, suc, ◌-◌, ◌≡◌, refl, ap, Bool, true, false, [], ◌∷◌, ◌++◌, Bytes, All, arith,
  if◌then◌else◌, length, Bool-cases, inl, inr,
}
use atlas_faucet.Text.{starts_with}

-- The copies of the pattern are found from the left and do not overlap. The number counts the
-- bytes of a copy that are still to be dropped.
unfoldable pub replace_from : Bytes → Bytes → ℕ → Bytes → Bytes
replace_from pattern by skip [] = []
replace_from pattern by (suc skip) (c ∷ text) = replace_from pattern by skip text
replace_from pattern by zero (c ∷ text) =
    let found = starts_with pattern (c ∷ text) in
    let rest = replace_from pattern by (if found then length pattern - 1 else 0) text in
    if found then by ++ rest else c ∷ rest

unfoldable pub replace : Bytes → Bytes → Bytes → Bytes
unfolding replace_from
replace text pattern by = replace_from pattern by 0 text

-- The bytes that pass a test.
unfoldable pub filter : (ℕ → Bool) → Bytes → Bytes
filter test [] = []
filter test (c ∷ text) = if test c then c ∷ filter test text else filter test text

pub filter-append :
    (test : ℕ → Bool) (front rest : Bytes)
    → filter test (front ++ rest) ≡ filter test front ++ filter test rest
unfolding filter
filter-append test [] rest = refl
filter-append test (c ∷ front) rest = elim (Bool-cases (test c)) [
  | inl passes ↦ rw passes (ap (◌∷◌ c) (filter-append test front rest))
  | inr fails ↦ rw fails (filter-append test front rest)
]

abbrev pub Fails : (ℕ → Bool) → ℕ → Type 0
Fails test c = test c ≡ false

pub filter-none : (test : ℕ → Bool) (text : Bytes) → All (Fails test) text → filter test text ≡ []
unfolding filter
filter-none test [] none_pass = refl
filter-none test (c ∷ text) none_pass = rw (none_pass.0) (filter-none test text none_pass.1)

module _ (test : ℕ → Bool) where
  -- The first bytes, as many as a number says, fail the test.
  abbrev FailsFor : ℕ → Bytes → Type 0
  FailsFor zero text = Unit
  FailsFor (suc n) [] = Unit
  FailsFor (suc n) (c ∷ text) = Fails test c × FailsFor n text

  starts_with-FailsFor :
      (pattern text : Bytes)
      → All (Fails test) pattern
      → starts_with pattern text ≡ true
      → FailsFor (length pattern) text
  unfolding starts_with
  starts_with-FailsFor [] text none_pass e = tt
  starts_with-FailsFor (p ∷ pattern) [] none_pass e = tt
  starts_with-FailsFor (p ∷ pattern) (c ∷ text) none_pass e =
      let both : (p ≡ c) × (starts_with pattern text ≡ true) = ground arith in
      (rw⁻¹ (both.0) (none_pass.0), starts_with-FailsFor pattern text none_pass.1 both.1)

  filter-replace_from :
      (p : ℕ) (pattern by text : Bytes) (skip : ℕ)
      → All (Fails test) (p ∷ pattern)
      → All (Fails test) by
      → FailsFor skip text
      → filter test (replace_from (p ∷ pattern) by skip text) ≡ filter test text
  unfolding replace_from filter
  filter-replace_from p pattern by [] skip old new dropped = refl
  filter-replace_from p pattern by (c ∷ text) (suc skip) old new dropped =
      rw (dropped.0) (filter-replace_from p pattern by text skip old new dropped.1)
  filter-replace_from p pattern by (c ∷ text) zero old new dropped =
      elim (Bool-cases (starts_with (p ∷ pattern) (c ∷ text))) [
        | inl found ↦
            let fails = starts_with-FailsFor (p ∷ pattern) (c ∷ text) old found in
            let size : length (p ∷ pattern) - 1 ≡ length pattern = omega arith in
            rw
              (
                found,
                size,
                filter-append test by (replace_from (p ∷ pattern) by (length pattern) text),
                filter-none test by new,
                fails.0,
              )
              (filter-replace_from p pattern by text (length pattern) old new fails.1)
        | inr missed ↦
            let ih = filter-replace_from p pattern by text 0 old new tt in
            elim (Bool-cases (test c)) [
              | inl passes ↦ rw (missed, passes) (ap (◌∷◌ c) ih)
              | inr fails ↦ rw (missed, fails) ih
            ]
      ]

  -- A replacement whose two texts have no byte that passes a test leaves those bytes as they were.
  pub filter-replace :
      (p : ℕ) (pattern by text : Bytes)
      → All (Fails test) (p ∷ pattern)
      → All (Fails test) by
      → filter test (replace text (p ∷ pattern) by) ≡ filter test text
  unfolding replace
  filter-replace p pattern by text old new = filter-replace_from p pattern by text 0 old new tt
