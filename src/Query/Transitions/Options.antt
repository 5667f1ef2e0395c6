-- ===== src/Query/Transitions/Options.antt =====
-- The options of a state and the one that is found.
use morcus_net.Prelude.{
  ℕ, ◌==◌, ==_iff, ◌≡◌, refl, sym, ap, ◌∙◌, subst, inl, inr, if◌then◌else◌, Bool, true, Bool-cases,
  some, List, [], ◌∷◌, filter, All,
}
use morcus_net.Query.Tokens.{
  CorpusTokenType, space, open_paren, close_paren, word_filter, logic_and, logic_or, work_filter,
  proximity,
}
use morcus_net.Query.Transitions.{
  StateOption, same_kind, find_option, kind_number, Machine, get_options, options_for_state,
}

kind_at : ℕ → CorpusTokenType
kind_at n =
    if n == 0
    then space
    else if n == 1
    then open_paren
    else if n == 2
    then close_paren
    else if n == 3
    then word_filter
    else if n == 4
    then logic_and
    else if n == 5
    then logic_or
    else if n == 6
    then work_filter
    else proximity

kind_at-kind_number : (k : CorpusTokenType) → kind_at (kind_number k) ≡ k
unfolding kind_at
kind_at-kind_number space = refl
kind_at-kind_number open_paren = refl
kind_at-kind_number close_paren = refl
kind_at-kind_number word_filter = refl
kind_at-kind_number logic_and = refl
kind_at-kind_number logic_or = refl
kind_at-kind_number work_filter = refl
kind_at-kind_number proximity = refl

pub same_kind-eq : (a b : CorpusTokenType) → same_kind a b ≡ true → a ≡ b
same_kind-eq a b e =
    let numbers : kind_number a ≡ kind_number b = (==_iff (kind_number a) (kind_number b)).0 e in
    sym (kind_at-kind_number a) ∙ ap kind_at numbers ∙ kind_at-kind_number b

pub find_option-All :
    (P : StateOption → Type 0) (k : CorpusTokenType) (os : List StateOption) (o : StateOption)
    → All P os
    → find_option k os ≡ some o
    → P o × (o.next_token ≡ k)
unfolding find_option
find_option-All P k [] o h e = cc
find_option-All P k (p ∷ os) o (hp, hs) e = elim (Bool-cases (same_kind p.next_token k)) [
  | inl found ↦
      let q = rw found at e in
      let here : p ≡ o = cc in (subst P here hp, same_kind-eq o.next_token k (rw here at found))
  | inr other ↦ find_option-All P k os o hs (rw other at e)
]

pub filter-All :
    {A : Type 0} (P : A → Type 0) (p : A → Bool) (xs : List A) → All P xs → All P (filter p xs)
filter-All P p [] h = tt
filter-All P p (x ∷ xs) (hx, hs) = elim (Bool-cases (p x)) [
  | inl kept ↦ rw kept (hx, filter-All P p xs hs)
  | inr dropped ↦ rw dropped (filter-All P p xs hs)
]

-- What holds of all the options of a state holds of the one that is taken.
pub get_options-found :
    (P : StateOption → Type 0) (m : Machine) (k : CorpusTokenType) (o : StateOption)
    → All P (options_for_state m.state m.paren_depth m.logical_op)
    → find_option k (get_options m) ≡ some o
    → P o × (o.next_token ≡ k)
unfolding get_options
get_options-found P m k o h e =
    find_option-All P k _ o
      (filter-All P _ (options_for_state m.state m.paren_depth m.logical_op) h) e
