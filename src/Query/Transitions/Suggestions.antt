-- ===== src/Query/Transitions/Suggestions.antt =====
-- Every suggestion is accepted.
use morcus_net.Prelude.{
  ℕ, ◌+◌, ltb, ◌==◌, ◌≡◌, refl, sym, ap, ◌∙◌, arith, inl, inr, if◌then◌else◌, Bool, true, false,
  not, ◌&&◌, ◌||◌, Bool-cases, some, List, [], ◌∷◌, ◌++◌, map, filter, any, Text, codes,
  text_eq_sound, ok, bind-eq-ok, ok-injective,
}
use morcus_net.Query.Tokens.{
  CorpusTokenType, space, open_paren, close_paren, word_filter, logic_and, logic_or, work_filter,
  proximity, QueryToken, categorize_token,
}
use morcus_net.Query.Transitions.{
  Machine, start, same_kind, StateOption, options_for_state, get_options, find_option, is_in_span,
  note_kind, take_option, after_option, read_logical_op, feed_token, feed_tokens, next_options_of,
  feed_state_machine, find_next_options,
}
use morcus_net.Query.Transitions.Options.{same_kind-eq}
use morcus_net.Query.Transitions.Groups.{
  TakesRound, skipped, chosen, feed_tokens-induction, take_option-ok,
}
use morcus_net.Query.Transitions.Table.{
  has_option, op_after, mixes, is_quiet, looked_among, continues-parts,
}

find_option-some :
    (k : CorpusTokenType) (os : List StateOption)
    → has_option k os ≡ true
    → (o : StateOption) × (find_option k os ≡ some o) × (o.next_token ≡ k)
unfolding find_option
find_option-some k [] h = cc
find_option-some k (p ∷ os) h = elim (Bool-cases (same_kind p.next_token k)) [
  | inl found ↦ (p, rw found, same_kind-eq p.next_token k found)
  | inr other ↦ let (o, e, same) = find_option-some k os (rw other at h) in (o, rw other e, same)
]

-- A passing element of a filtered list.
any-filter :
    {A : Type 0} (p q : A → Bool) (xs : List A)
    → any p (filter q xs) ≡ true
    → (x : A) × (q x ≡ true) × (p x ≡ true) × (any p xs ≡ true)
any-filter p q [] h = cc
any-filter p q (x ∷ xs) h = elim (Bool-cases (q x)) [
  | inl kept ↦ elim (Bool-cases (p x)) [
    | inl here ↦ (x, kept, here, rw here)
    | inr later ↦
        let (y, qy, py, some_y) = any-filter p q xs (rw (kept, later) at h) in
        (y, qy, py, rw later some_y)
  ]
  | inr dropped ↦
      let (y, qy, py, some_y) = any-filter p q xs (rw dropped at h) in (y, qy, py, ground arith)
]

any-map :
    {A B : Type 0} (p : B → Bool) (f : A → B) (xs : List A)
    → any p (map f xs) ≡ any (λ x. p (f x)) xs
any-map p f [] = refl
any-map p f (x ∷ xs) = rw (any-map p f xs)

-- The text of an operator, where the type is that of the text.
text_of-and : (token : Text) → logic_and ≡ categorize_token token → token ≡ codes "and"
unfolding categorize_token
text_of-and token h = text_eq_sound token (codes "and") (ground arith)

text_of-or : (token : Text) → logic_or ≡ categorize_token token → token ≡ codes "or"
unfolding categorize_token
text_of-or token h = text_eq_sound token (codes "or") (ground arith)

pub read_op :
    (m : Machine) (t : QueryToken) (k : CorpusTokenType)
    → t.kind ≡ k
    → k ≡ categorize_token t.token
    → mixes k m.logical_op ≡ false
    → read_logical_op m t ≡ ok (op_after k m.logical_op)
unfolding read_logical_op
read_op m t logic_and is_k text clean = rw (is_k, text_of-and t.token text) (ground arith)
read_op m t logic_or is_k text clean = rw (is_k, text_of-or t.token text) (ground arith)
read_op m t space is_k text clean = rw is_k
read_op m t open_paren is_k text clean = rw is_k
read_op m t close_paren is_k text clean = rw is_k
read_op m t word_filter is_k text clean = rw is_k
read_op m t work_filter is_k text clean = rw is_k
read_op m t proximity is_k text clean = rw is_k

IsQuiet-take :
    (m : Machine) (t : QueryToken) (o : StateOption)
    → is_quiet (after_option m t o).state (after_option m t o).logical_op ≡ true
unfolding after_option
IsQuiet-take m t o = elim (Bool-cases (is_in_span o.next_state)) [
  | inl quiet ↦ rw quiet
  | inr other ↦ rw other
]

TakesRound-quiet :
    (m n : Machine) (t : QueryToken) (seen : List QueryToken)
    → TakesRound m t n
    → is_quiet m.state m.logical_op ≡ true
    → is_quiet n.state n.logical_op ≡ true
TakesRound-quiet m n t seen (skipped blank) quiet = quiet
TakesRound-quiet m n t seen (chosen op o solid op_ok found taken) quiet =
    let (fine, n_is) = take_option-ok (note_kind m t op) n t o taken in
    rw n_is (IsQuiet-take (note_kind m t op) t o)

few_filters :
    (k : CorpusTokenType) (n : ℕ)
    → (n == 0 || not (same_kind k work_filter)) ≡ true
    → (same_kind k work_filter && ltb 1 (if same_kind k work_filter then n + 1 else n)) ≡ false
few_filters k n h = elim (Bool-cases (same_kind k work_filter)) [
  | inl is_filter ↦ rw is_filter (let zero_filters = rw is_filter at h in ground arith)
  | inr other ↦ rw other
]

-- A suggestion of a machine in which no operator is held in a span is accepted by the next round.
suggested-feed_token :
    (m : Machine) (t : QueryToken)
    → is_quiet m.state m.logical_op ≡ true
    → t.kind ≡ categorize_token t.token
    → any (λ k. same_kind k t.kind) (next_options_of m) ≡ true
    → (n : Machine) × (feed_token m t ≡ ok n)
unfolding next_options_of get_options feed_token take_option
suggested-feed_token m t quiet text suggested =
    let (o, few, o_is, offered) =
      any-filter (λ o. same_kind o.next_token t.kind) _ (get_options m) (rw any-map at suggested) in
    let (p, kept, p_is, base) =
      any-filter (λ o. same_kind o.next_token t.kind) _
        (options_for_state m.state m.paren_depth m.logical_op) offered in
    let (solid, clean, among) =
      continues-parts m.state m.paren_depth m.logical_op t.kind quiet base in
    let (c, found, c_is) =
      find_option-some t.kind (looked_among m.state m.paren_depth m.logical_op t.kind) among in
    let allowed =
      few_filters t.kind m.work_filters (rw (same_kind-eq o.next_token t.kind o_is) at few) in
    (
      after_option (note_kind m t (op_after t.kind m.logical_op)) t c,
      rw (solid, read_op m t t.kind refl text clean) (rw found (rw (c_is, allowed))),
    )

feed_tokens-append :
    (m n : Machine) (xs ys : List QueryToken)
    → feed_tokens m xs ≡ ok n
    → feed_tokens m (xs ++ ys) ≡ feed_tokens n ys
unfolding feed_tokens
feed_tokens-append m n [] ys e = ap (λ k. feed_tokens k ys) (ok-injective e)
feed_tokens-append m n (x ∷ xs) ys e =
    let (k, first_ok, rest_ok) = bind-eq-ok (feed_token m x) _ e in
    rw first_ok (feed_tokens-append k n xs ys rest_ok)

-- After a query that is accepted, each of the types that `findNextOptions` suggests can follow: the
-- query with a token of that type behind it, whose type is that of its text, is accepted too.
pub find_next_options-accepted :
    (sequence : List QueryToken) (t : QueryToken) (options : List CorpusTokenType)
    → find_next_options sequence ≡ ok options
    → any (λ k. same_kind k t.kind) options ≡ true
    → t.kind ≡ categorize_token t.token
    → (more : List CorpusTokenType) × (find_next_options (sequence ++ (t ∷ [])) ≡ ok more)
unfolding find_next_options feed_state_machine feed_tokens
find_next_options-accepted sequence t options e suggested text =
    let (output, fed, same) = bind-eq-ok (feed_state_machine sequence) _ e in
    let (m, run_ok, made) = bind-eq-ok (feed_tokens start sequence) _ fed in
    let options_are : options ≡ next_options_of m =
      sym (ok-injective same) ∙ sym (ap (λ o. o.next_options) (ok-injective made)) in
    let quiet =
      feed_tokens-induction (λ n seen. is_quiet n.state n.logical_op ≡ true) TakesRound-quiet start
        m [] sequence run_ok refl in
    let (n, next_ok) = suggested-feed_token m t quiet text (rw options_are at suggested) in
    (next_options_of n, rw (feed_tokens-append start m sequence (t ∷ []) run_ok) (rw next_ok))
