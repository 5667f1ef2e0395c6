-- ===== src/Query/Transitions/Table.antt =====
-- Which options go on from a state, in a table of all states, operators and token types.
use morcus_net.Prelude.{
  ℕ, ltb, ◌≡◌, refl, arith, inl, inr, if◌then◌else◌, Bool, true, false, not, ◌&&◌, ◌||◌, Bool-cases,
  Option, none, some, List, [], ◌∷◌, filter, all, any,
}
use morcus_net.Query.Tokens.{
  CorpusTokenType, space, open_paren, close_paren, word_filter, logic_and, logic_or, work_filter,
  proximity,
}
use morcus_net.Query.Transitions.{
  QueryProcessState, complex_term, complex_term_last_was_term, in_span, span_start,
  span_start_or_work_filter, same_kind, StateOption, options_for_state, LogicalOp, and_op, or_op,
  is_op, is_logic, is_in_span,
}

abbrev pub has_option : CorpusTokenType → List StateOption → Bool
has_option k os = any (λ o. same_kind o.next_token k) os

-- The operator that is held behind a token.
abbrev pub op_after : CorpusTokenType → Option LogicalOp → Option LogicalOp
op_after logic_and op = some and_op
op_after logic_or op = some or_op
op_after _ op = op

abbrev pub mixes : CorpusTokenType → Option LogicalOp → Bool
mixes k op = (is_op and_op op && same_kind k logic_or) || (is_op or_op op && same_kind k logic_and)

abbrev pub is_none : Option LogicalOp → Bool
is_none none = true
is_none (some op) = false

-- In a span no operator is held.
abbrev pub is_quiet : QueryProcessState → Option LogicalOp → Bool
is_quiet s op = not (is_in_span s) || is_none op

-- The options that the loop looks among, for a token of type `k`.
abbrev pub looked_among :
    QueryProcessState → ℕ → Option LogicalOp → CorpusTokenType → List StateOption
looked_among s d op k =
    filter (λ o. not (same_kind k close_paren) || not (is_logic o.next_token))
      (options_for_state s d (op_after k op))

continues : ℕ → QueryProcessState → Option LogicalOp → CorpusTokenType → Bool
continues d s op k =
    not (is_quiet s op && has_option k (options_for_state s d op))
    || (not (same_kind k space) && not (mixes k op) && has_option k (looked_among s d op k))

abbrev states : List QueryProcessState
states =
    complex_term ∷ complex_term_last_was_term ∷ in_span ∷ span_start ∷ span_start_or_work_filter
    ∷ []

abbrev ops : List (Option LogicalOp)
ops = none ∷ some and_op ∷ some or_op ∷ []

abbrev kinds : List CorpusTokenType
kinds =
    space ∷ open_paren ∷ close_paren ∷ word_filter ∷ logic_and ∷ logic_or ∷ work_filter ∷ proximity
    ∷ []

at_state : (P : QueryProcessState → Bool) (s : QueryProcessState) → all P states ≡ true → P s ≡ true
at_state P complex_term h = ground (arith, h)
at_state P complex_term_last_was_term h = ground (arith, h)
at_state P in_span h = ground (arith, h)
at_state P span_start h = ground (arith, h)
at_state P span_start_or_work_filter h = ground (arith, h)

at_op : (P : Option LogicalOp → Bool) (op : Option LogicalOp) → all P ops ≡ true → P op ≡ true
at_op P none h = ground (arith, h)
at_op P (some and_op) h = ground (arith, h)
at_op P (some or_op) h = ground (arith, h)

at_kind : (P : CorpusTokenType → Bool) (k : CorpusTokenType) → all P kinds ≡ true → P k ≡ true
at_kind P space h = ground (arith, h)
at_kind P open_paren h = ground (arith, h)
at_kind P close_paren h = ground (arith, h)
at_kind P word_filter h = ground (arith, h)
at_kind P logic_and h = ground (arith, h)
at_kind P logic_or h = ground (arith, h)
at_kind P work_filter h = ground (arith, h)
at_kind P proximity h = ground (arith, h)

abbrev all_continue : ℕ → Bool
all_continue d = all (λ s. all (λ op. all (λ k. continues d s op k) kinds) ops) states

at_all :
    (d : ℕ) (s : QueryProcessState) (op : Option LogicalOp) (k : CorpusTokenType)
    → all_continue d ≡ true
    → continues d s op k ≡ true
at_all d s op k h = at_kind (continues d s op) k (
    at_op (λ op'. all (continues d s op') kinds) op
      (at_state (λ s'. all (λ op'. all (continues d s' op') kinds) ops) s h))

table_at_0 : all_continue 0 ≡ true
unfolding continues options_for_state
table_at_0 = refl

table_at_1 : all_continue 1 ≡ true
unfolding continues options_for_state
table_at_1 = refl

-- Of the depth, only whether it is 0 matters.
flag : ℕ → ℕ
flag d = if ltb 0 d then 1 else 0

options_for_state-flag :
    (s : QueryProcessState) (d : ℕ) (op : Option LogicalOp)
    → options_for_state s d op ≡ options_for_state s (flag d) op
unfolding options_for_state flag
options_for_state-flag complex_term d op = refl
options_for_state-flag in_span d op = refl
options_for_state-flag span_start d op = refl
options_for_state-flag span_start_or_work_filter d op = refl
options_for_state-flag complex_term_last_was_term d op = elim (Bool-cases (ltb 0 d)) [
  | inl deep ↦ rw deep
  | inr flat ↦ rw flat
]

table :
    (d : ℕ) (s : QueryProcessState) (op : Option LogicalOp) (k : CorpusTokenType)
    → continues d s op k ≡ true
unfolding continues flag
table d s op k =
    let flagged : continues (flag d) s op k ≡ true = elim (Bool-cases (ltb 0 d)) [
      | inl deep ↦ rw deep (at_all 1 s op k table_at_1)
      | inr flat ↦ rw flat (at_all 0 s op k table_at_0)
    ] in
    rw (options_for_state-flag s d op, options_for_state-flag s d (op_after k op)) flagged

pub continues-parts :
    (s : QueryProcessState) (d : ℕ) (op : Option LogicalOp) (k : CorpusTokenType)
    → is_quiet s op ≡ true
    → has_option k (options_for_state s d op) ≡ true
    → (same_kind k space ≡ false)
      × (mixes k op ≡ false)
      × (has_option k (looked_among s d op k) ≡ true)
unfolding continues
continues-parts s d op k quiet offered =
    let all_three : (not (same_kind k space)
          && not (mixes k op)
          && has_option k (looked_among s d op k))
        ≡ true =
      rw (quiet, offered) at (table d s op k) in
    split_and (same_kind k space) (mixes k op) (has_option k (looked_among s d op k)) all_three
  where
    split_and :
        (a b c : Bool) → (not a && not b && c) ≡ true → (a ≡ false) × (b ≡ false) × (c ≡ true)
    split_and true b c h = cc
    split_and false true c h = cc
    split_and false false c h = (refl, refl, h)
