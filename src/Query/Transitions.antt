-- ===== src/Query/Transitions.antt =====
-- The state machine for queries of src/web/client/pages/corpus/autocomplete/state_transitions.ts.
pub mod Groups
pub mod Options
pub mod Balance
pub mod Table
pub mod Suggestions
pub mod Refusals
use morcus_net.Prelude.{
  ℕ, suc, ◌+◌, ◌-◌, ltb, ◌==◌, if◌then◌else◌, Bool, true, false, not, ◌&&◌, ◌||◌, Option, none,
  some, List, [], ◌∷◌, ◌++◌, map, filter, Text, codes, text_eq, Result, ok, err, ◌>>=◌,
}
use morcus_net.Query.Tokens.{
  CorpusTokenType, space, open_paren, close_paren, word_filter, logic_and, logic_or, work_filter,
  proximity, QueryToken,
}

-- `QueryProcessState`.
pub data QueryProcessState : Type 0 where
  complex_term complex_term_last_was_term in_span span_start span_start_or_work_filter :
      QueryProcessState

pub data LogicalOp : Type 0 where
  and_op or_op : LogicalOp

-- What `optionsForState` returns a list of: the next token, the state that it leads to, `isNewTerm`.
pub record StateOption : Type 0 where
  pub next_token : CorpusTokenType
  pub next_state : QueryProcessState
  pub is_new_term : Bool

abbrev pub option_of : CorpusTokenType → QueryProcessState → Bool → StateOption
option_of k s new_term = record { next_token = k; next_state = s; is_new_term = new_term }

abbrev pub is_op : LogicalOp → Option LogicalOp → Bool
is_op op none = false
is_op and_op (some and_op) = true
is_op and_op (some or_op) = false
is_op or_op (some and_op) = false
is_op or_op (some or_op) = true

abbrev span_start_options : List StateOption
span_start_options =
    option_of open_paren complex_term true ∷ option_of word_filter in_span true ∷ []

-- `optionsForState`.
unfoldable pub options_for_state : QueryProcessState → ℕ → Option LogicalOp → List StateOption
options_for_state in_span paren_depth logical_op =
    option_of word_filter in_span true
    ∷ option_of logic_and complex_term false
    ∷ option_of logic_or complex_term false
    ∷ option_of proximity span_start true
    ∷ option_of open_paren complex_term true
    ∷ []
options_for_state complex_term_last_was_term paren_depth logical_op =
    (if is_op and_op logical_op then [] else option_of logic_or complex_term false ∷ [])
    ++ ((if is_op or_op logical_op then [] else option_of logic_and complex_term false ∷ [])
        ++ (if ltb 0 paren_depth
            then option_of close_paren in_span false ∷ []
            else option_of proximity span_start true
              ∷ option_of word_filter in_span true
              ∷ option_of open_paren complex_term true
              ∷ []))
options_for_state complex_term paren_depth logical_op =
    option_of word_filter complex_term_last_was_term false ∷ []
options_for_state span_start_or_work_filter paren_depth logical_op =
    option_of work_filter span_start_or_work_filter true ∷ span_start_options
options_for_state span_start paren_depth logical_op = span_start_options

-- The variables of `feedStateMachine`, and the tokens behind `sequence[i]` in reverse.
pub record Machine : Type 0 where
  pub state : QueryProcessState
  pub paren_depth : ℕ
  pub logical_op : Option LogicalOp
  pub work_filters : ℕ
  pub last_was_close_paren : Bool
  pub term_groups : List (List QueryToken)
  pub before : List QueryToken

abbrev pub start : Machine
start = record {
  state = span_start_or_work_filter;
  paren_depth = 0;
  logical_op = none;
  work_filters = 0;
  last_was_close_paren = false;
  term_groups = [];
  before = [];
}

-- The messages. `no_token_before` is the exception of reading `sequence[-1][0]`.
pub data FedStateMachineError : Type 0 where
  cannot_mix filters_at_start only_one_filter no_token_before : FedStateMachineError
  expected_logical_op not_allowed_at_start : Text → FedStateMachineError
  not_allowed_after : Text → Text → FedStateMachineError

-- `tokenType === kind`.
abbrev pub kind_number : CorpusTokenType → ℕ
kind_number space = 0
kind_number open_paren = 1
kind_number close_paren = 2
kind_number word_filter = 3
kind_number logic_and = 4
kind_number logic_or = 5
kind_number work_filter = 6
kind_number proximity = 7

abbrev pub same_kind : CorpusTokenType → CorpusTokenType → Bool
same_kind a b = kind_number a == kind_number b

abbrev pub is_logic : CorpusTokenType → Bool
is_logic k = same_kind k logic_and || same_kind k logic_or

-- The filter of `getOptions`.
unfoldable pub get_options : Machine → List StateOption
unfolding options_for_state
get_options m =
    filter (λ o. not m.last_was_close_paren || not (is_logic o.next_token))
      (options_for_state m.state m.paren_depth m.logical_op)

-- `options.find((o) => o[0] === tokenType)`.
unfoldable pub find_option : CorpusTokenType → List StateOption → Option StateOption
find_option k [] = none
find_option k (o ∷ os) = if same_kind o.next_token k then some o else find_option k os

-- The search for the last token before `sequence[i]` that is not a space, and the message.
unfoldable pub last_token : List QueryToken → Option Text
last_token [] = none
last_token (t ∷ ts) = if same_kind t.kind space then last_token ts else some t.token

unfoldable pub refusal : Machine → QueryToken → FedStateMachineError
unfolding last_token
refusal m t = if same_kind t.kind work_filter then filters_at_start else elim m.before [
  | [] ↦ not_allowed_at_start t.token
  | p ∷ ps ↦ elim (last_token (p ∷ ps)) [
    | none ↦ no_token_before
    | some last ↦ not_allowed_after t.token last
  ]
]

-- `isLogicalOp`.
abbrev pub logical_op_of : Text → Option LogicalOp
logical_op_of token =
    if text_eq token (codes "and")
    then some and_op
    else if text_eq token (codes "or")
    then some or_op
    else none

-- The logical operator behind the token, where the token is one.
unfoldable pub read_logical_op :
    Machine → QueryToken → Result FedStateMachineError (Option LogicalOp)
read_logical_op m t =
    if is_logic t.kind
    then (if (is_op and_op m.logical_op && text_eq t.token (codes "or"))
          || (is_op or_op m.logical_op && text_eq t.token (codes "and"))
        then err cannot_mix
        else elim (logical_op_of t.token) [
          | none ↦ err (expected_logical_op t.token)
          | some op ↦ ok (some op)
        ])
    else ok m.logical_op

-- `termGroups[termGroups.length - 1].push(t)`.
unfoldable pub push_last : List (List QueryToken) → QueryToken → List (List QueryToken)
push_last [] t = []
push_last (g ∷ []) t = (g ++ (t ∷ [])) ∷ []
push_last (g ∷ h ∷ gs) t = g ∷ push_last (h ∷ gs) t

abbrev no_groups : List (List QueryToken) → Bool
no_groups [] = true
no_groups (g ∷ gs) = false

unfoldable pub add_token : Bool → List (List QueryToken) → QueryToken → List (List QueryToken)
unfolding push_last
add_token new_term groups t =
    push_last (if new_term || no_groups groups then groups ++ ([] ∷ []) else groups) t

-- The depth behind the token. The option `)` is given only at a depth above 0.
abbrev pub depth_after : CorpusTokenType → ℕ → ℕ
depth_after open_paren depth = depth + 1
depth_after close_paren depth = depth - 1
depth_after _ depth = depth

abbrev pub is_in_span : QueryProcessState → Bool
is_in_span in_span = true
is_in_span _ = false

-- The variables after a round, with the option that matches.
unfoldable pub after_option : Machine → QueryToken → StateOption → Machine
unfolding add_token
after_option m t o = record m {
  state = o.next_state;
  paren_depth = depth_after o.next_token m.paren_depth;
  logical_op = if is_in_span o.next_state then none else m.logical_op;
  term_groups = add_token o.is_new_term m.term_groups t;
  before = t ∷ m.before;
}

unfoldable pub take_option :
    Machine → QueryToken → StateOption → Result FedStateMachineError Machine
unfolding after_option
take_option m t o =
    if same_kind o.next_token work_filter && ltb 1 m.work_filters
    then err only_one_filter
    else ok (after_option m t o)

abbrev pub note_kind : Machine → QueryToken → Option LogicalOp → Machine
note_kind m t op = record m {
  logical_op = op;
  work_filters = if same_kind t.kind work_filter then m.work_filters + 1 else m.work_filters;
  last_was_close_paren = same_kind t.kind close_paren;
}

abbrev pub choose : Machine → QueryToken → Option StateOption → Result FedStateMachineError Machine
choose m t none = err (refusal m t)
choose m t (some o) = take_option m t o

-- A round of the loop.
unfoldable pub feed_token : Machine → QueryToken → Result FedStateMachineError Machine
unfolding read_logical_op get_options find_option refusal take_option
feed_token m t =
    if same_kind t.kind space
    then ok (record m { before = t ∷ m.before })
    else (read_logical_op m t >>= λ op.
        choose (note_kind m t op) t (find_option t.kind (get_options (note_kind m t op))))

-- The loop.
unfoldable pub feed_tokens : Machine → List QueryToken → Result FedStateMachineError Machine
unfolding feed_token
feed_tokens m [] = ok m
feed_tokens m (t ∷ ts) = feed_token m t >>= λ n. feed_tokens n ts

-- `FedStateMachineOutput`.
pub record FedStateMachineOutput : Type 0 where
  pub next_options : List CorpusTokenType
  pub term_groups : List (List QueryToken)

unfoldable pub next_options_of : Machine → List CorpusTokenType
unfolding get_options
next_options_of m =
    map (λ o. o.next_token)
      (filter (λ o. m.work_filters == 0 || not (same_kind o.next_token work_filter))
        (get_options m))

-- `feedStateMachine`.
unfoldable pub feed_state_machine :
    List QueryToken → Result FedStateMachineError FedStateMachineOutput
unfolding feed_tokens next_options_of
feed_state_machine sequence = do
  m ← feed_tokens start sequence
  ok (record { next_options = next_options_of m; term_groups = m.term_groups })

-- `findNextOptions`, `termGroups` and `errorOr`.
unfoldable pub find_next_options :
    List QueryToken → Result FedStateMachineError (List CorpusTokenType)
unfolding feed_state_machine
find_next_options sequence = do output ← feed_state_machine sequence; ok output.next_options

unfoldable pub term_groups : List QueryToken → Result FedStateMachineError (List (List QueryToken))
unfolding feed_state_machine
term_groups sequence = do output ← feed_state_machine sequence; ok output.term_groups
