-- ===== src/Cleaning/Tokens.antt =====
-- `processTokens` and `processWords` of src/common/text_cleaning.ts.
pub mod Cover
use morcus_net.Prelude.{
  ℕ, suc, if◌then◌else◌, ◌⊎◌, inl, inr, List, [], ◌∷◌, map, Bool, true, false, not, ◌&&◌, ◌||◌,
  take, drop, Text, codes, has_char,
}

-- `TEXT_BREAK_CHAR_SET`.
abbrev break_chars : Text
break_chars = codes " ()[];:.,?!'\n\t—\"†‘“”’<>"

-- `isTextBreakChar` for one code unit.
unfoldable pub is_text_break_char : ℕ → Bool
is_text_break_char c = has_char c break_chars

-- The loop of `processTokens` from place i on, where `s` is what stands there: `start` and `is_in_word`
-- are its variables.
unfoldable pub tokens_from : Text → ℕ → Text → ℕ → Bool → List (Text × Bool)
tokens_from input i [] start is_in_word = (drop start input, is_in_word) ∷ []
tokens_from input i (c ∷ s) start is_in_word =
    let cut =
      (drop start (take i input), is_in_word) ∷ tokens_from input (suc i) s i (not is_in_word) in
    let goes_on = tokens_from input (suc i) s start is_in_word in
    if (is_in_word && is_text_break_char c) || (not is_in_word && not (is_text_break_char c))
    then cut
    else goes_on

-- `processTokens`, as the list of what it yields.
unfoldable pub process_tokens : Text → List (Text × Bool)
unfolding tokens_from
process_tokens [] = []
process_tokens (c ∷ s) = tokens_from (c ∷ s) 0 (c ∷ s) 0 (not (is_text_break_char c))

abbrev handled : {T : Type 0} → (Text → T) → Text × Bool → Text ⊎ T
handled handler (token, true) = inr (handler token)
handled handler (token, false) = inl token

-- `processWords`.
unfoldable pub process_words : {T : Type 0} → Text → (Text → T) → List (Text ⊎ T)
unfolding process_tokens
process_words input handler = map (handled handler) (process_tokens input)
