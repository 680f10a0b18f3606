-- ===== src/Cli/Tests.antt =====
-- A list of four uris.
use tweaktool.Common.{arith, refl, ◌≡◌, none, List, [], ◌∷◌, Bytes, get_elem?, All}
use tweaktool.Cli.Uris.{create_sorted_uris, pick_nth_match}
use tweaktool.Cli.Tokens.{tokenize, merge_tokens}
use tweaktool.Cli.Merge.{IsToken, tokenize-merge_tokens}
use tweaktool.Cli.Complete.{completions, pick_nth_match_lem}

abbrev four : List Bytes
four = (b'g' ∷ b'a' ∷ []) ∷ (b'v' ∷ []) ∷ (b'g' ∷ b'b' ∷ []) ∷ (b'a' ∷ b'g' ∷ []) ∷ []

pick_nth_match_lem_example :
    pick_nth_match (create_sorted_uris none four) (b'g' ∷ []) 1
    ≡ get_elem? (completions (b'g' ∷ []) (create_sorted_uris none four)) 1
pick_nth_match_lem_example = pick_nth_match_lem four none (b'g' ∷ []) 1

-- The escape and the separators of the client.
four-AreTokens : All (λ t. IsToken b'\\' (b' ' ∷ 9 ∷ []) refl t) four
four-AreTokens = (
  (omega arith, ((refl, refl), ((refl, refl), tt))),
  (
    (omega arith, ((refl, refl), tt)),
    (
      (omega arith, ((refl, refl), ((refl, refl), tt))),
      ((omega arith, ((refl, refl), ((refl, refl), tt))), tt),
    ),
  ),
)

tokenize-merge_tokens_example :
    tokenize (merge_tokens four (b' ' ∷ [])) b'\\' (b' ' ∷ 9 ∷ []) ≡ four
tokenize-merge_tokens_example =
    tokenize-merge_tokens b'\\' (b' ' ∷ 9 ∷ []) (refl) four (b' ' ∷ []) (omega arith) (refl, tt)
      four-AreTokens
