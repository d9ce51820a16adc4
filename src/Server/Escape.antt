-- ===== src/Server/Escape.antt =====
-- `escape_html`: the title cannot leave its place in the page, and no two titles look the same.
use atlas_faucet.Prelude.{ℕ, ◌≡◌, ◌≢◌, refl, sym, [], ◌∷◌, ◌++◌, Bytes, All, All-append, arith}
use atlas_faucet.Server.{escape_char, escape_html}

-- No delimiter of a tag or an attribute: `<`, `>`, `"` and `'`.
abbrev pub IsPlain : ℕ → Type 0
IsPlain c = (c ≢ 60) × (c ≢ 62) × (c ≢ 34) × (c ≢ 39)

escape_char-IsPlain : (c : ℕ) → All IsPlain (escape_char c)
unfolding escape_char
escape_char-IsPlain c = ground arith

escape_html-IsPlain : (value : Bytes) → All IsPlain (escape_html value)
unfolding escape_html
escape_html-IsPlain [] = tt
escape_html-IsPlain (c ∷ value) =
    All-append IsPlain (escape_char c) (escape_html value) (escape_char-IsPlain c)
      (escape_html-IsPlain value)

escape_char-prefix :
    (c d : ℕ) (xs ys : Bytes) → escape_char c ++ xs ≡ escape_char d ++ ys → (c ≡ d) × (xs ≡ ys)
unfolding escape_char
escape_char-prefix c d xs ys e = ground arith

escape_char-nonempty : (c : ℕ) (xs : Bytes) → escape_char c ++ xs ≢ []
unfolding escape_char
escape_char-nonempty c xs e = ground arith

escape_html-injective : (xs ys : Bytes) → escape_html xs ≡ escape_html ys → xs ≡ ys
unfolding escape_html
escape_html-injective [] [] e = refl
escape_html-injective [] (d ∷ ys) e = absurd (escape_char-nonempty d (escape_html ys) (sym e))
escape_html-injective (c ∷ xs) [] e = absurd (escape_char-nonempty c (escape_html xs) e)
escape_html-injective (c ∷ xs) (d ∷ ys) e =
    let heads = escape_char-prefix c d (escape_html xs) (escape_html ys) e in
    cc (heads.0, escape_html-injective xs ys heads.1)

-- An escaped text has none of the four delimiters of tags and attribute values, and determines
-- the text.
pub escape_html_lem :
    (xs : Bytes)
    → All IsPlain (escape_html xs) × ((ys : Bytes) → escape_html xs ≡ escape_html ys → xs ≡ ys)
escape_html_lem xs = (escape_html-IsPlain xs, escape_html-injective xs)
