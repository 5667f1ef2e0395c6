-- ===== src/Crunch/Words/Plain.antt =====
-- The cleaning of the input of `crunchWord`, src/morceus/crunch.ts, on words without combining characters.
use morcus_net.Prelude.{
  ℕ, ◌≡◌, inl, inr, refl, sym, ap, ◌∙◌, Option, none, some, [], ◌∷◌, ◌++◌, append_assoc, append-nil,
  all, Bool, Bool-cases, true, false, not, ◌&&◌, Text,
}
use morcus_net.Crunch.Words.{
  Strings, is_combiner, is_unmarked_vowel, pending_text, combine_from, combine_length_combiners,
  strip_combiners, clean_word,
}

-- The text has no combining macron or breve.
abbrev pub IsPlain : Text → Type 0
IsPlain s = all (λ c. not (is_combiner c)) s ≡ true

both_parts : (a b : Bool) → (a && b) ≡ true → (a ≡ true) × (b ≡ true)
both_parts true b h = (refl, h)
both_parts false b h = cc

is_false : (b : Bool) → not b ≡ true → b ≡ false
is_false true h = cc
is_false false h = refl

combine_from_plain :
    (normalize : Text → Text) (pending : Option ℕ) (result s : Text)
    → IsPlain s
    → combine_from normalize pending result s ≡ (result ++ pending_text pending) ++ s
unfolding combine_from
combine_from_plain normalize pending result [] h = sym (append-nil (result ++ pending_text pending))
combine_from_plain normalize pending result (c ∷ s) h =
    let (here, below) = both_parts (not (is_combiner c)) (all (λ d. not (is_combiner d)) s) h in
    let plain : is_combiner c ≡ false = is_false (is_combiner c) here in
    let so_far = result ++ pending_text pending in
    rw plain (elim (Bool-cases (is_unmarked_vowel c)) [
      | inl vowel ↦
          rw vowel
            (combine_from_plain normalize (some c) so_far s below ∙ append_assoc so_far (c ∷ []) s)
      | inr other ↦ rw other (
          combine_from_plain normalize none (so_far ++ (c ∷ [])) s below
          ∙ ap (λ t. t ++ s) (append-nil (so_far ++ (c ∷ [])))
          ∙ append_assoc so_far (c ∷ []) s)
    ])

strip_combiners_plain : (s : Text) → IsPlain s → strip_combiners s ≡ s
strip_combiners_plain [] h = refl
strip_combiners_plain (c ∷ s) h =
    let (here, below) = both_parts (not (is_combiner c)) (all (λ d. not (is_combiner d)) s) h in
    rw here (ap (λ t. c ∷ t) (strip_combiners_plain s below))

-- A word that is not empty and has no combining macron or breve is crunched as it is.
pub clean_word_plain :
    (strings : Strings) (c : ℕ) (s : Text) → IsPlain (c ∷ s) → clean_word strings (c ∷ s) ≡ c ∷ s
unfolding clean_word combine_length_combiners
clean_word_plain strings c s h =
    let (here, below) = both_parts (not (is_combiner c)) (all (λ d. not (is_combiner d)) s) h in
    let combined : combine_length_combiners strings.normalize (c ∷ s) ≡ c ∷ s =
      elim (Bool-cases (is_unmarked_vowel c)) [
        | inl vowel ↦
            rw (combine_length_combiners, vowel)
              (combine_from_plain strings.normalize (some c) [] s below)
        | inr other ↦
            rw (combine_length_combiners, other)
              (combine_from_plain strings.normalize none (c ∷ []) s below)
      ] in
    ap strip_combiners combined ∙ strip_combiners_plain (c ∷ s) h
