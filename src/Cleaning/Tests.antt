-- ===== src/Cleaning/Tests.antt =====
-- Runs of the tokenizer of texts.
use morcus_net.Prelude.{◌≡◌, refl, inl, inr, [], ◌∷◌, true, false, codes}
use morcus_net.Cleaning.Tokens.{process_tokens, process_words, tokens_from, is_text_break_char}
use morcus_net.Cleaning.Tokens.Cover.{TokensOf, joined, process_tokens-TokensOf}

process_tokens-TokensOf_example :
    TokensOf (codes "arma, virum") (process_tokens (codes "arma, virum"))
    × (joined (process_tokens (codes "arma, virum")) ≡ codes "arma, virum")
process_tokens-TokensOf_example = process_tokens-TokensOf (codes "arma, virum")

three_tokens :
    process_tokens (codes "et (a")
    ≡ (codes "et", true) ∷ (codes " (", false) ∷ (codes "a", true) ∷ []
unfolding process_tokens tokens_from is_text_break_char
three_tokens = refl

words_handled :
    process_words (codes "a b") (λ w. w) ≡ inr (codes "a") ∷ inl (codes " ") ∷ inr (codes "b") ∷ []
unfolding process_words process_tokens tokens_from is_text_break_char
words_handled = refl
