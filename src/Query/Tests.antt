-- ===== src/Query/Tests.antt =====
-- Runs of `tokenizeInput`, `termGroups` and `findNextOptions` on small queries.
use mathlib.Core.List.{flatten}
use morcus_net.Prelude.{List, ℕ, ◌+◌, ◌≤◌, ◌≡◌, ◌≢◌, refl, [], ◌∷◌, ◌++◌, All, ok, err, codes}
use morcus_net.Query.Tokens.{
  QueryToken, open_paren, close_paren, word_filter, logic_and, work_filter, tokenize_input,
  CorpusTokenType, space, logic_or, categorize_token, proximity,
}
use morcus_net.Query.Tokens.Cover.{Covers, tokenize_input-Covers}
use morcus_net.Query.Transitions.{
  options_for_state, feed_state_machine, find_next_options, term_groups, FedStateMachineOutput,
  no_token_before, cannot_mix, not_allowed_at_start,
}
use morcus_net.Query.Transitions.Suggestions.{find_next_options-accepted}
use morcus_net.Query.Transitions.Refusals.{feed_state_machine-refused}
use morcus_net.Query.Transitions.Groups.{non_spaces, term_groups-tokens}
use morcus_net.Query.Transitions.Balance.{count, feed_state_machine-Balanced}

abbrev word : ℕ → QueryToken
word i = record { token = codes "@a"; start = i; kind = word_filter }

abbrev and_token : QueryToken
and_token = record { token = codes "and"; start = 2; kind = logic_and }

abbrev opening : QueryToken
opening = record { token = codes "("; start = 0; kind = open_paren }

tokenize_input-Covers_example : Covers 0 (tokenize_input (codes "(a  b")) (codes "(a  b")
tokenize_input-Covers_example = tokenize_input-Covers (codes "(a  b")

two_words :
    term_groups (word 0 ∷ and_token ∷ word 6 ∷ word 9 ∷ [])
    ≡ ok ((word 0 ∷ and_token ∷ word 6 ∷ []) ∷ (word 9 ∷ []) ∷ [])
unfolding term_groups
two_words = refl

term_groups-tokens_example :
    (flatten ((word 0 ∷ and_token ∷ word 6 ∷ []) ∷ (word 9 ∷ []) ∷ [])
      ≡ non_spaces (word 0 ∷ and_token ∷ word 6 ∷ word 9 ∷ []))
    × All (λ g. g ≢ []) ((word 0 ∷ and_token ∷ word 6 ∷ []) ∷ (word 9 ∷ []) ∷ [])
term_groups-tokens_example =
    term_groups-tokens (word 0 ∷ and_token ∷ word 6 ∷ word 9 ∷ [])
      ((word 0 ∷ and_token ∷ word 6 ∷ []) ∷ (word 9 ∷ []) ∷ []) two_words

abbrev in_parentheses : FedStateMachineOutput
in_parentheses = record {
  next_options = word_filter ∷ [];
  term_groups = (opening ∷ word 1 ∷ and_token ∷ []) ∷ [];
}

opened : feed_state_machine ((opening ∷ []) ++ (word 1 ∷ and_token ∷ [])) ≡ ok in_parentheses
unfolding feed_state_machine
opened = refl

feed_state_machine-Balanced_example :
    (count close_paren (opening ∷ []) ≤ count open_paren (opening ∷ []))
    × (count open_paren (opening ∷ []) ≤ count close_paren (opening ∷ []) + 1)
    × (count work_filter (opening ∷ []) ≤ 1)
feed_state_machine-Balanced_example =
    feed_state_machine-Balanced (opening ∷ []) (word 1 ∷ and_token ∷ []) in_parentheses opened

-- Reading the token before a refused one throws if there are only spaces.
space_then_operator : find_next_options (tokenize_input (codes " and")) ≡ err no_token_before
unfolding find_next_options tokenize_input
space_then_operator = refl

operator_first :
    find_next_options (tokenize_input (codes "and")) ≡ err (not_allowed_at_start (codes "and"))
unfolding find_next_options tokenize_input
operator_first = refl

-- The operator of a term is still held in the next span.
operators_of_two_spans :
    find_next_options (tokenize_input (codes "a and b ~ (c or d)")) ≡ err cannot_mix
unfolding find_next_options tokenize_input
operators_of_two_spans = refl

abbrev space_token : QueryToken
space_token = record { token = codes " "; start = 0; kind = space }

feed_state_machine-refused_example :
    (feed_state_machine (and_token ∷ []) ≡ err (not_allowed_at_start (codes "and")))
    × (feed_state_machine ((space_token ∷ []) ++ (and_token ∷ [])) ≡ err no_token_before)
feed_state_machine-refused_example =
    feed_state_machine-refused space_token [] and_token [] refl (unfold options_for_state in refl)
      (unfold categorize_token in refl)

abbrev after_word : List CorpusTokenType
after_word = word_filter ∷ logic_and ∷ logic_or ∷ proximity ∷ open_paren ∷ []

suggested_after_word : find_next_options (word 0 ∷ []) ≡ ok after_word
unfolding find_next_options
suggested_after_word = refl

find_next_options-accepted_example :
    (more : List CorpusTokenType) × (find_next_options ((word 0 ∷ []) ++ (and_token ∷ []))
      ≡ ok more)
find_next_options-accepted_example =
    find_next_options-accepted (word 0 ∷ []) and_token after_word suggested_after_word refl
      (unfold categorize_token in refl)
