-- ===== src/Server/Index.antt =====
-- `index_handler`: the page, with the configured title in its place.
use atlas_faucet.Prelude.{
  ℕ, ◌≡◌, refl, sym, ap, ◌∙◌, Bool, true, false, ◌&&◌, ◌||◌, not, List, [], ◌∷◌, ◌++◌, Bytes, codes,
  All, All-mono, arith, ◌==◌, append-nil,
}
use atlas_faucet.Hashes.{Hashes}
use atlas_faucet.Secp.{Secp}
use atlas_faucet.Text.{starts_with}
use atlas_faucet.Text.Replace.{replace_from, replace, filter, Fails, filter-replace}
use atlas_faucet.Server.{AppState, escape_html}
use atlas_faucet.Server.Escape.{IsPlain, escape_html_lem}

-- The status, the content type and the body of the reply.
pub record Page : Type 0 where
  pub status : ℕ
  pub content_type : Bytes
  pub html : Bytes

abbrev pub html_title_place : Bytes
html_title_place = codes "__HTML_TITLE__"

-- `INDEX_HTML` is an argument: the page is data, and what is stated holds of every page.
unfoldable pub index_handler : (h : Hashes) (s : Secp) → Bytes → AppState h s → Page
index_handler h s index_html app = record {
  status = 200;
  content_type = codes "text/html; charset=utf-8";
  html = replace index_html html_title_place (escape_html app.html_title);
}

-- A delimiter of tags and attribute values.
abbrev pub is_delimiter : ℕ → Bool
is_delimiter c = c == 60 || c == 62 || c == 34 || c == 39

IsPlain-Fails : (c : ℕ) → IsPlain c → Fails is_delimiter c
IsPlain-Fails c plain = ground arith

-- A piece of a page in which no place begins: no two underscores are next to each other, and it
-- does not end in one.
unfoldable pub is_clean : Bytes → Bool
is_clean [] = true
is_clean (c ∷ []) = not (c == b'_')
is_clean (c ∷ d ∷ piece) = not (c == b'_' && d == b'_') && is_clean (d ∷ piece)

abbrev pub join : Bytes → List Bytes → Bytes
join between [] = []
join between (piece ∷ []) = piece
join between (piece ∷ next ∷ pieces) = piece ++ (between ++ join between (next ∷ pieces))

starts_with-place :
    (c d : ℕ) (piece : Bytes)
    → (c == b'_' && d == b'_') ≡ false
    → starts_with html_title_place (c ∷ d ∷ piece) ≡ false
unfolding starts_with
starts_with-place c d piece e = ground arith

starts_with-place_end :
    (c : ℕ) (rest : Bytes) → (c == b'_') ≡ false → starts_with html_title_place (c ∷ rest) ≡ false
unfolding starts_with
starts_with-place_end c rest e = ground arith

replace_from-piece :
    (by piece rest : Bytes)
    → is_clean piece ≡ true
    → replace_from html_title_place by 0 (piece ++ rest)
      ≡ piece ++ replace_from html_title_place by 0 rest
unfolding replace_from is_clean
replace_from-piece by [] rest clean = refl
replace_from-piece by (c ∷ []) rest clean =
    let apart : (c == b'_') ≡ false = ground arith in rw (starts_with-place_end c rest apart) refl
replace_from-piece by (c ∷ d ∷ piece) rest clean =
    let facts : ((c == b'_' && d == b'_') ≡ false) × (is_clean (d ∷ piece) ≡ true) = ground arith in
    rw (starts_with-place c d (piece ++ rest) facts.0)
      (ap (◌∷◌ c) (replace_from-piece by (d ∷ piece) rest facts.1))

replace_from-place :
    (by rest : Bytes)
    → replace_from html_title_place by 0 (html_title_place ++ rest)
      ≡ by ++ replace_from html_title_place by 0 rest
unfolding replace_from starts_with
replace_from-place by rest = refl

abbrev IsClean : Bytes → Type 0
IsClean piece = is_clean piece ≡ true

replace_from-join :
    (by : Bytes) (pieces : List Bytes)
    → All IsClean pieces
    → replace_from html_title_place by 0 (join html_title_place pieces) ≡ join by pieces
unfolding replace_from
replace_from-join by [] clean = refl
replace_from-join by (piece ∷ []) clean =
    ap (replace_from html_title_place by 0) (sym (append-nil piece))
    ∙ replace_from-piece by piece [] clean.0
    ∙ append-nil piece
replace_from-join by (piece ∷ next ∷ pieces) clean =
    replace_from-piece by piece (html_title_place ++ join html_title_place (next ∷ pieces)) clean.0
    ∙ ap (◌++◌ piece) (
        replace_from-place by (join html_title_place (next ∷ pieces))
        ∙ ap (◌++◌ by) (replace_from-join by (next ∷ pieces) clean.1))

place-Fails : All (Fails is_delimiter) html_title_place
place-Fails = ground arith

-- Whatever the title is, the delimiters of tags and attribute values in the page that is served
-- are those of the page, in their order; and where the page is pieces with the title's place
-- between them, none of which a place begins in, the pieces stay as they are, with the escaped
-- title between them.
pub index_handler_lem :
    (h : Hashes) (s : Secp) (app : AppState h s)
    → ((index_html : Bytes)
        → filter is_delimiter (index_handler h s index_html app).html
          ≡ filter is_delimiter index_html)
      × ((pieces : List Bytes)
          → All (λ (piece : Bytes). is_clean piece ≡ true) pieces
          → (index_handler h s (join html_title_place pieces) app).html
            ≡ join (escape_html app.html_title) pieces)
unfolding index_handler
index_handler_lem h s app = (
  λ index_html.
      filter-replace is_delimiter b'_' (codes "_HTML_TITLE__") (escape_html app.html_title)
        index_html place-Fails
        (All-mono IsPlain (Fails is_delimiter) (escape_html app.html_title) IsPlain-Fails
          (escape_html_lem app.html_title).0),
  λ pieces clean. (unfold replace in replace_from-join (escape_html app.html_title) pieces clean),
)
