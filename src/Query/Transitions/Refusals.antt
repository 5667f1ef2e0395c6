-- ===== src/Query/Transitions/Refusals.antt =====
-- A refused token at the start of a query, alone or behind spaces.
use morcus_net.Prelude.{
  ℕ, Text, ◌≡◌, refl, ap, ◌∙◌, arith, Bool, true, false, ◌||◌, none, List, [], ◌∷◌, ◌++◌, all, err,
}
use morcus_net.Query.Tokens.{
  CorpusTokenType, space, open_paren, close_paren, word_filter, logic_and, logic_or, work_filter,
  proximity, QueryToken, categorize_token,
}
use morcus_net.Query.Transitions.{
  Machine, start, same_kind, options_for_state, span_start_or_work_filter, find_option, get_options,
  refusal, last_token, feed_token, feed_tokens, feed_state_machine, FedStateMachineError,
  no_token_before, not_allowed_at_start,
}
use morcus_net.Query.Transitions.Table.{has_option}
use morcus_net.Query.Transitions.Suggestions.{read_op}

abbrev pub are_spaces : List QueryToken → Bool
are_spaces ts = all (λ s. same_kind s.kind space) ts

-- A query can begin with a token of this type, or the type is that of spaces.
abbrev pub can_begin : CorpusTokenType → Bool
can_begin k = same_kind k space || has_option k (options_for_state span_start_or_work_filter 0 none)

abbrev after_spaces : List QueryToken → Machine
after_spaces before = record start { before = before }

last_token-none : (ts : List QueryToken) → are_spaces ts ≡ true → last_token ts ≡ none
unfolding last_token
last_token-none [] h = refl
last_token-none (t ∷ ts) h =
    let first : same_kind t.kind space ≡ true = ground arith in
    let others : are_spaces ts ≡ true = ground arith in rw (first, last_token-none ts others)

abbrev message : List QueryToken → QueryToken → FedStateMachineError
message [] t = not_allowed_at_start t.token
message (b ∷ bs) t = no_token_before

message-refusal :
    (bs : List QueryToken) (t : QueryToken)
    → are_spaces bs ≡ true
    → same_kind t.kind work_filter ≡ false
    → refusal (after_spaces bs) t ≡ message bs t
unfolding refusal
message-refusal [] t blank other = rw other
message-refusal (b ∷ bs) t blank other = rw (other, last_token-none (b ∷ bs) blank)

abbrev token_of : Text → ℕ → CorpusTokenType → QueryToken
token_of token i k = record { token = token; start = i; kind = k }

refused :
    (bs : List QueryToken) (token : Text) (i : ℕ) (k : CorpusTokenType)
    → are_spaces bs ≡ true
    → can_begin k ≡ false
    → k ≡ categorize_token token
    → feed_token (after_spaces bs) (token_of token i k) ≡ err (message bs (token_of token i k))
unfolding feed_token find_option get_options options_for_state
refused bs token i proximity blank other text =
    (ap err (message-refusal bs (token_of token i proximity) blank refl))
refused bs token i close_paren blank other text =
    (ap err (message-refusal bs (token_of token i close_paren) blank refl))
refused bs token i logic_and blank other text =
    rw (read_op (after_spaces bs) (token_of token i logic_and) logic_and refl text refl)
      (ap err (message-refusal bs (token_of token i logic_and) blank refl))
refused bs token i logic_or blank other text =
    rw (read_op (after_spaces bs) (token_of token i logic_or) logic_or refl text refl)
      (ap err (message-refusal bs (token_of token i logic_or) blank refl))
refused bs token i space blank other text = cc
refused bs token i open_paren blank other text = cc
refused bs token i word_filter blank other text = cc
refused bs token i work_filter blank other text = cc

message-append :
    (xs bs : List QueryToken) (b t : QueryToken) → message (xs ++ (b ∷ bs)) t ≡ no_token_before
message-append [] bs b t = refl
message-append (x ∷ xs) bs b t = refl

feed_spaces :
    (spaces bs : List QueryToken) (t : QueryToken) (sequence : List QueryToken)
    → are_spaces spaces ≡ true
    → are_spaces bs ≡ true
    → can_begin t.kind ≡ false
    → t.kind ≡ categorize_token t.token
    → feed_tokens (after_spaces bs) (spaces ++ (t ∷ sequence)) ≡ err (message (spaces ++ bs) t)
unfolding feed_tokens feed_token
feed_spaces [] bs t sequence blank before other text =
    rw (refused bs t.token t.start t.kind before other text)
feed_spaces (b ∷ spaces) bs t sequence blank before other text =
    let first : same_kind b.kind space ≡ true = ground arith in
    let others : are_spaces spaces ≡ true = ground arith in
    let rest = feed_spaces spaces (b ∷ bs) t sequence others (ground arith) other text in
    rw first (rest ∙ ap err (message-append spaces bs b t))

-- A query that begins with a token that cannot begin one is answered with the message for it. With
-- one or more space tokens in front, the loop throws as it looks for the token before. The type of
-- the token is that of its text.
pub feed_state_machine-refused :
    (first : QueryToken) (spaces : List QueryToken) (t : QueryToken) (sequence : List QueryToken)
    → are_spaces (first ∷ spaces) ≡ true
    → can_begin t.kind ≡ false
    → t.kind ≡ categorize_token t.token
    → (feed_state_machine (t ∷ sequence) ≡ err (not_allowed_at_start t.token))
      × (feed_state_machine ((first ∷ spaces) ++ (t ∷ sequence)) ≡ err no_token_before)
unfolding feed_state_machine
feed_state_machine-refused first spaces t sequence blank other text = (
  rw (feed_spaces [] [] t sequence refl refl other text),
  rw (feed_spaces (first ∷ spaces) [] t sequence blank refl other text),
)
