-- ===== src/Tests/Honest.antt =====
-- A client that solves its challenge, against src/server.rs.
use atlas_faucet.Prelude.{◌≡◌, refl, some, List, [], Bytes, codes, arith, All, true}
use atlas_faucet.Text.{starts_with, to_decimal}
use atlas_faucet.Text.Replace.{replace_from, replace, filter}
use atlas_faucet.Util.{wrong_length, prefixed_hex}
use atlas_faucet.Server.Messages.{message_text}
use atlas_faucet.Server.Offer.{Answered, challenge_handler_lem}
use atlas_faucet.Server.{challenge_handler, AppState, recently_funded, invalid_address, escape_html}
use atlas_faucet.Server.Index.{
  index_handler, is_delimiter, is_clean, join, html_title_place, index_handler_lem,
}
use atlas_faucet.Tests.Toys.{
  toy_hashes, toy_hashes-IsHashes, toy_secp, toy_address, toy_keeper, sixteen,
}
use atlas_faucet.Tests.Claims.{toy_app}

-- The page of a title with markup.
abbrev sly : AppState toy_hashes toy_secp
sly = record toy_app { html_title = codes "<b>" }

index_handler_lem_example :
    ((index_html : Bytes)
      → filter is_delimiter (index_handler toy_hashes toy_secp index_html sly).html
        ≡ filter is_delimiter index_html)
    × ((pieces : List Bytes)
        → All (λ (piece : Bytes). is_clean piece ≡ true) pieces
        → (index_handler toy_hashes toy_secp (join html_title_place pieces) sly).html
          ≡ join (escape_html (codes "<b>")) pieces)
index_handler_lem_example = index_handler_lem toy_hashes toy_secp sly

index_handler_test :
    (index_handler toy_hashes toy_secp (codes "<h1>__HTML_TITLE__</h1>") sly).html
    ≡ codes "<h1>&lt;b&gt;</h1>"
unfolding index_handler replace replace_from starts_with escape_html
index_handler_test = refl

-- The texts that a client reads.
message_text_test :
    message_text [] [] (λ e. []) (recently_funded 42)
    ≡ codes "address recently funded; try again in 42s"
unfolding message_text to_decimal
message_text_test = refl

address_text_test :
    message_text [] [] (λ e. []) (invalid_address (wrong_length 20 3))
    ≡ codes "invalid address: expected 20 bytes, got 3"
unfolding message_text to_decimal
address_text_test = refl

challenge_handler_lem_example :
    Answered toy_hashes toy_hashes-IsHashes toy_secp toy_app toy_keeper 1000 sixteen
      (some (prefixed_hex toy_address))
      (challenge_handler toy_hashes toy_secp toy_app toy_keeper
        (some (prefixed_hex toy_address))
        1000
        sixteen)
challenge_handler_lem_example =
    challenge_handler_lem toy_hashes toy_hashes-IsHashes toy_secp toy_app toy_keeper 1000 sixteen
      (refl, omega arith) (some (prefixed_hex toy_address))
