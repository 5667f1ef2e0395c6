-- ===== src/Query/Transitions/Groups.antt =====
-- The term groups hold the tokens.
use mathlib.Core.List.{flatten}
use morcus_net.Prelude.{
  filter-append, ltb, ◌≡◌, ◌≢◌, refl, sym, ap, ◌∙◌, inl, inr, Bool, true, false, not, ◌&&◌,
  Bool-cases, Option, none, some, List, [], ◌∷◌, ◌++◌, append_assoc, append-nil, filter, All, ok,
  bind-eq-ok, ok-injective,
}
use morcus_net.Query.Tokens.{space, work_filter, QueryToken}
use morcus_net.Query.Transitions.{
  Machine, start, same_kind, StateOption, push_last, add_token, take_option, after_option,
  note_kind, choose, feed_token, feed_tokens, find_option, get_options, read_logical_op,
  feed_state_machine, term_groups,
}

abbrev pub non_spaces : List QueryToken → List QueryToken
non_spaces ts = filter (λ t. not (same_kind t.kind space)) ts

-- A round that succeeds: a space changes nothing but the tokens seen, and any other token takes an
-- option of its type.
pub data TakesRound (m : Machine) (t : QueryToken) : Machine → Type 0 where
  skipped : same_kind t.kind space ≡ true → TakesRound m t (record m { before = t ∷ m.before })
  chosen :
      {n : Machine} (op : _) (o : StateOption)
      → same_kind t.kind space ≡ false
      → read_logical_op m t ≡ ok op
      → find_option t.kind (get_options (note_kind m t op)) ≡ some o
      → take_option (note_kind m t op) t o ≡ ok n
      → TakesRound m t n

choose-ok :
    (m n : Machine) (t : QueryToken) (found : Option StateOption)
    → choose m t found ≡ ok n
    → (o : StateOption) × (found ≡ some o) × (take_option m t o ≡ ok n)
choose-ok m n t none e = cc
choose-ok m n t (some o) e = (o, refl, e)

pub feed_token-TakesRound :
    (m n : Machine) (t : QueryToken) → feed_token m t ≡ ok n → TakesRound m t n
unfolding feed_token
feed_token-TakesRound m n t e = elim (Bool-cases (same_kind t.kind space)) [
  | inl blank ↦ rw (← ok-injective (rw blank at e)) (skipped blank)
  | inr solid ↦
      let (op, op_ok, chosen_ok) = bind-eq-ok (read_logical_op m t) _ (rw solid at e) in
      let (o, found, taken) = choose-ok (note_kind m t op) n t _ chosen_ok in
      chosen op o solid op_ok found taken
]

-- Induction over the rounds of a run that succeeds.
pub feed_tokens-induction :
    (P : Machine → List QueryToken → Type 0)
    → ((m n : Machine) (t : QueryToken) (seen : List QueryToken)
        → TakesRound m t n
        → P m seen
        → P n (seen ++ (t ∷ [])))
    → (m n : Machine) (seen ts : List QueryToken) → feed_tokens m ts ≡ ok n
    → P m seen
    → P n (seen ++ ts)
unfolding feed_tokens
feed_tokens-induction P step m n seen [] e p = rw (append-nil, ← ok-injective e) p
feed_tokens-induction P step m n seen (t ∷ ts) e p =
    let (k, first_ok, rest_ok) = bind-eq-ok (feed_token m t) _ e in
    let q =
      feed_tokens-induction P step k n (seen ++ (t ∷ [])) ts rest_ok
        (step m k t seen (feed_token-TakesRound m k t first_ok) p) in
    rw append_assoc at q

abbrev NonEmpty : List QueryToken → Type 0
NonEmpty g = g ≢ []

flatten-push_last :
    (gs : List (List QueryToken)) (t : QueryToken)
    → gs ≢ []
    → (flatten (push_last gs t) ≡ flatten gs ++ (t ∷ []))
unfolding push_last flatten
flatten-push_last [] t ne = absurd (ne refl)
flatten-push_last (g ∷ []) t ne = rw (append-nil, append_assoc)
flatten-push_last (g ∷ h ∷ gs) t ne =
    ap (λ z. g ++ z) (flatten-push_last (h ∷ gs) t (λ p. cc))
    ∙ sym (append_assoc g (flatten (h ∷ gs)) (t ∷ []))

snoc_some : (g : List QueryToken) (t : QueryToken) → g ++ (t ∷ []) ≢ []
snoc_some [] t = λ p. cc
snoc_some (x ∷ g) t = λ p. cc

push_last-NonEmpty :
    (gs : List (List QueryToken)) (t : QueryToken) → All NonEmpty gs → All NonEmpty (push_last gs t)
unfolding push_last
push_last-NonEmpty [] t h = tt
push_last-NonEmpty (g ∷ []) t h = (snoc_some g t, tt)
push_last-NonEmpty (g ∷ h ∷ gs) t (p, ps) = (p, push_last-NonEmpty (h ∷ gs) t ps)

-- The same where the last group is new and holds nothing yet.
push_new-NonEmpty :
    (gs : List (List QueryToken)) (t : QueryToken)
    → All NonEmpty gs
    → All NonEmpty (push_last (gs ++ ([] ∷ [])) t)
unfolding push_last
push_new-NonEmpty [] t h = ((λ p. cc), tt)
push_new-NonEmpty (g ∷ []) t (p, ps) = (p, ((λ q. cc), tt))
push_new-NonEmpty (g ∷ h ∷ gs) t (p, ps) = (p, push_new-NonEmpty (h ∷ gs) t ps)

flatten-push_new :
    (gs : List (List QueryToken)) (t : QueryToken)
    → flatten (push_last (gs ++ ([] ∷ [])) t) ≡ flatten gs ++ (t ∷ [])
unfolding push_last flatten
flatten-push_new [] t = refl
flatten-push_new (g ∷ []) t = sym (append_assoc g [] (t ∷ []))
flatten-push_new (g ∷ h ∷ gs) t =
    ap (λ z. g ++ z) (flatten-push_new (h ∷ gs) t)
    ∙ sym (append_assoc g (flatten (h ∷ gs)) (t ∷ []))

add_token-groups :
    (new_term : Bool) (gs : List (List QueryToken)) (t : QueryToken)
    → All NonEmpty gs
    → (flatten (add_token new_term gs t) ≡ flatten gs ++ (t ∷ []))
      × All NonEmpty (add_token new_term gs t)
unfolding add_token
add_token-groups true gs t h = (flatten-push_new gs t, push_new-NonEmpty gs t h)
add_token-groups false [] t h = (flatten-push_new [] t, push_new-NonEmpty [] t h)
add_token-groups false (g ∷ gs) t h =
    (flatten-push_last (g ∷ gs) t (λ p. cc), push_last-NonEmpty (g ∷ gs) t h)

pub take_option-ok :
    (m n : Machine) (t : QueryToken) (o : StateOption)
    → take_option m t o ≡ ok n
    → ((same_kind o.next_token work_filter && ltb 1 m.work_filters) ≡ false)
      × (n ≡ after_option m t o)
unfolding take_option
take_option-ok m n t o e =
    elim (Bool-cases (same_kind o.next_token work_filter && ltb 1 m.work_filters)) [
      | inl excess ↦ let impossible = rw excess at e in cc
      | inr fine ↦ (fine, sym (ok-injective (rw fine at e)))
    ]

abbrev Grouped : Machine → List QueryToken → Type 0
Grouped m seen = (flatten m.term_groups ≡ non_spaces seen) × All NonEmpty m.term_groups

TakesRound-Grouped :
    (m n : Machine) (t : QueryToken) (seen : List QueryToken)
    → TakesRound m t n
    → Grouped m seen
    → Grouped n (seen ++ (t ∷ []))
TakesRound-Grouped m n t seen (skipped blank) (same, full) = (
  rw (filter-append (λ t. not (same_kind t.kind space)) seen (t ∷ []), blank, append-nil) same,
  full,
)
TakesRound-Grouped m n t seen (chosen op o solid op_ok found taken) (same, full) =
    let (fine, n_is) = take_option-ok (note_kind m t op) n t o taken in
    let (holds, full') = add_token-groups o.is_new_term m.term_groups t full in
    unfold after_option in
    rw n_is (
      rw (filter-append (λ t. not (same_kind t.kind space)) seen (t ∷ []), solid, ← same) holds,
      full',
    )

-- The term groups of a query hold all its tokens but the spaces, in their order, and none is empty.
pub term_groups-tokens :
    (sequence : List QueryToken) (groups : List (List QueryToken))
    → term_groups sequence ≡ ok groups
    → (flatten groups ≡ non_spaces sequence) × All (λ g. g ≢ []) groups
unfolding term_groups feed_state_machine flatten
term_groups-tokens sequence groups e =
    let (output, fed, same) = bind-eq-ok (feed_state_machine sequence) _ e in
    let (m, run_ok, made) = bind-eq-ok (feed_tokens start sequence) _ fed in
    let groups_are : groups ≡ m.term_groups =
      sym (ok-injective same) ∙ sym (ap (λ o. o.term_groups) (ok-injective made)) in
    rw groups_are
      (feed_tokens-induction Grouped TakesRound-Grouped start m [] sequence run_ok (refl, tt))
