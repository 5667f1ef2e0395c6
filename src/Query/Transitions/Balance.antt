-- ===== src/Query/Transitions/Balance.antt =====
-- Parentheses and filters in a query that is accepted.
use morcus_net.Prelude.{
  filter-append, ℕ, ◌+◌, ◌≤◌, ltb, ◌≡◌, refl, arith, inl, inr, if◌then◌else◌, Bool, true, false,
  ◌&&◌, Bool-cases, Option, none, List, [], ◌∷◌, ◌++◌, filter, ltb→lt, All, All-append, length,
  length-append, ok, bind-eq-ok,
}
use morcus_net.Query.Tokens.{
  CorpusTokenType, space, open_paren, close_paren, work_filter, QueryToken,
}
use morcus_net.Query.Transitions.{
  QueryProcessState, complex_term, complex_term_last_was_term, in_span, span_start,
  span_start_or_work_filter, Machine, start, same_kind, StateOption, options_for_state, LogicalOp,
  and_op, or_op, is_op, depth_after, after_option, note_kind, feed_token, feed_tokens,
  FedStateMachineOutput, feed_state_machine,
}
use morcus_net.Query.Transitions.Options.{same_kind-eq, get_options-found}
use morcus_net.Query.Transitions.Groups.{
  TakesRound, skipped, chosen, feed_tokens-induction, take_option-ok,
}

abbrev pub count : CorpusTokenType → List QueryToken → ℕ
count k ts = length (filter (λ t. same_kind t.kind k) ts)

count-snoc :
    (k : CorpusTokenType) (ts : List QueryToken) (t : QueryToken)
    → count k (ts ++ (t ∷ [])) ≡ count k ts + (if same_kind t.kind k then 1 else 0)
count-snoc k ts t =
    rw
      (
        filter-append (λ u. same_kind u.kind k) ts (t ∷ []),
        length-append (filter (λ u. same_kind u.kind k) ts)
            (filter (λ u. same_kind u.kind k) (t ∷ [])),
      )
      (elim (Bool-cases (same_kind t.kind k)) [ inl e ↦ rw e | inr e ↦ rw e ])

abbrev one_if : Bool → ℕ
one_if b = if b then 1 else 0

-- Parentheses do not nest: the depth is at most 1 inside a term, and 0 elsewhere.
abbrev DepthFits : QueryProcessState → ℕ → Type 0
DepthFits complex_term d = d ≤ 1
DepthFits complex_term_last_was_term d = d ≤ 1
DepthFits in_span d = d ≡ 0
DepthFits span_start d = d ≡ 0
DepthFits span_start_or_work_filter d = d ≡ 0

abbrev KeepsDepth : ℕ → StateOption → Type 0
KeepsDepth d o =
    DepthFits o.next_state (depth_after o.next_token d)
    × (depth_after o.next_token d + one_if (same_kind o.next_token close_paren)
        ≡ d + one_if (same_kind o.next_token open_paren))

All-if :
    {A : Type 0} (P : A → Type 0) (b : Bool) (xs ys : List A)
    → All P xs
    → All P ys
    → All P (if b then xs else ys)
All-if P true xs ys hx hy = hx
All-if P false xs ys hx hy = hy

options-KeepsDepth :
    (s : QueryProcessState) (d : ℕ) (op : Option LogicalOp)
    → DepthFits s d
    → All (KeepsDepth d) (options_for_state s d op)
unfolding options_for_state
options-KeepsDepth in_span d op h = (
  (omega arith, omega arith),
  (
    (omega arith, omega arith),
    ((omega arith, omega arith), ((omega arith, omega arith), ((omega arith, omega arith), tt))),
  ),
)
options-KeepsDepth complex_term d op h = ((omega arith, omega arith), tt)
options-KeepsDepth span_start_or_work_filter d op h =
    ((omega arith, omega arith), ((omega arith, omega arith), ((omega arith, omega arith), tt)))
options-KeepsDepth span_start d op h =
    ((omega arith, omega arith), ((omega arith, omega arith), tt))
options-KeepsDepth complex_term_last_was_term d op h =
    All-append _ _ _ (All-if _ (is_op and_op op) _ _ tt ((omega arith, omega arith), tt)) (
      All-append _ _ _ (All-if _ (is_op or_op op) _ _ tt ((omega arith, omega arith), tt))
        (elim (Bool-cases (ltb 0 d)) [
          | inl deep ↦ rw deep (let pos = ltb→lt 0 d deep in ((omega arith, omega arith), tt))
          | inr flat ↦ rw flat (
              let zero : d ≡ 0 = ground arith in
              (
                (omega arith, omega arith),
                ((omega arith, omega arith), ((omega arith, omega arith), tt)),
              ))
        ]))

abbrev Balanced : Machine → List QueryToken → Type 0
Balanced m seen =
    (count close_paren seen + m.paren_depth ≡ count open_paren seen)
    × DepthFits m.state m.paren_depth
    × (count work_filter seen ≡ m.work_filters)
    × (m.work_filters ≤ 1)

count-space :
    (k : CorpusTokenType) (seen : List QueryToken) (t : QueryToken)
    → same_kind t.kind space ≡ true
    → same_kind space k ≡ false
    → count k (seen ++ (t ∷ [])) ≡ count k seen
count-space k seen t blank other =
    let t_is = same_kind-eq t.kind space blank in
    rw (count-snoc k seen t, t_is, other) (omega arith)

DepthFits-one : (s : QueryProcessState) (d : ℕ) → DepthFits s d → d ≤ 1
DepthFits-one complex_term d h = h
DepthFits-one complex_term_last_was_term d h = h
DepthFits-one in_span d h = omega arith
DepthFits-one span_start d h = omega arith
DepthFits-one span_start_or_work_filter d h = omega arith

count_filters :
    (m : Machine) (t : QueryToken) (seen : List QueryToken)
    → count work_filter seen ≡ m.work_filters
    → m.work_filters ≤ 1
    → (same_kind t.kind work_filter && ltb 1 (note_kind m t none).work_filters) ≡ false
    → (count work_filter (seen ++ (t ∷ [])) ≡ (note_kind m t none).work_filters)
      × ((note_kind m t none).work_filters ≤ 1)
count_filters m t seen filters few allowed =
    rw (count-snoc work_filter seen t) (elim (Bool-cases (same_kind t.kind work_filter)) [
      | inl is_filter ↦
          rw is_filter (omega arith, (let e = rw is_filter at allowed in ground arith))
      | inr other ↦ rw other (omega arith, few)
    ])

TakesRound-Balanced :
    (m n : Machine) (t : QueryToken) (seen : List QueryToken)
    → TakesRound m t n
    → Balanced m seen
    → Balanced n (seen ++ (t ∷ []))
TakesRound-Balanced m n t seen (skipped blank) (balance, fits, filters, few) = (
  rw (count-space close_paren seen t blank refl, count-space open_paren seen t blank refl) balance,
  fits,
  rw (count-space work_filter seen t blank refl) filters,
  few,
)
TakesRound-Balanced m n t seen (chosen op o solid op_ok found taken) (balance, fits, filters, few) =
    let ((fits', keeps), same) =
      get_options-found (KeepsDepth m.paren_depth) (note_kind m t op) t.kind o
        (options-KeepsDepth m.state m.paren_depth op fits) found in
    let (fine, n_is) = take_option-ok (note_kind m t op) n t o taken in
    let depths = rw same at keeps in
    let after : DepthFits o.next_state (depth_after t.kind m.paren_depth) = rw same at fits' in
    let allowed = rw same at fine in
    let (counted, at_most_one) = count_filters m t seen filters few allowed in
    unfold after_option in
    rw (n_is, same)
      (
        rw (count-snoc close_paren seen t, count-snoc open_paren seen t)
            (omega (arith, balance, depths)),
        after,
        counted,
        at_most_one,
      )

accepted_prefix :
    (m n : Machine) (xs ys : List QueryToken)
    → feed_tokens m (xs ++ ys) ≡ ok n
    → (k : Machine) × (feed_tokens m xs ≡ ok k)
unfolding feed_tokens
accepted_prefix m n [] ys e = (m, refl)
accepted_prefix m n (x ∷ xs) ys e =
    let (k, first_ok, rest_ok) = bind-eq-ok (feed_token m x) _ e in
    let (l, more_ok) = accepted_prefix k n xs ys rest_ok in (l, rw first_ok more_ok)

-- In a query that is accepted, up to any place in it, the parentheses that are closed are open ones
-- and at most one is left open, and there is at most one work filter.
pub feed_state_machine-Balanced :
    (xs ys : List QueryToken) (output : FedStateMachineOutput)
    → feed_state_machine (xs ++ ys) ≡ ok output
    → (count close_paren xs ≤ count open_paren xs)
      × (count open_paren xs ≤ count close_paren xs + 1)
      × (count work_filter xs ≤ 1)
unfolding feed_state_machine
feed_state_machine-Balanced xs ys output e =
    let (n, all_ok, made) = bind-eq-ok (feed_tokens start (xs ++ ys)) _ e in
    let (m, run_ok) = accepted_prefix start n xs ys all_ok in
    let (balance, fits, filters, few) =
      feed_tokens-induction Balanced TakesRound-Balanced start m [] xs run_ok
        (refl, refl, refl, omega arith) in
    let one = DepthFits-one m.state m.paren_depth fits in
    (omega (arith, balance), omega (arith, balance, one), omega (arith, filters, few))
