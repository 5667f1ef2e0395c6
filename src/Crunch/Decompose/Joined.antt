-- ===== src/Crunch/Decompose/Joined.antt =====
-- Splitting off enclitics does not change the text of a variant.
use morcus_net.Prelude.{
  ◌≡◌, inl, inr, refl, sym, ap, ◌∙◌, subst, List, [], ◌∷◌, ◌++◌, append_assoc, Bool, Bool-cases,
  true, false, not, ◌&&◌, ltb, length, Text, text_eq, codes, ok, ok-injective, bind-eq-ok, Memᴰ,
  collect-from, collect-to,
}
use mathlib.Core.List.Memᴰ.{head, cases_cons}
use morcus_net.Crunch.Exact.{ends_with, slice_off}
use morcus_net.Crunch.Exact.Rounds.{ends_with-split}
use morcus_net.Crunch.Decompose.{
  token_enclitics, split_prodelision, enclitic_split, split_variants, variants_of, split_extras,
  normalized, decompose_token,
}

-- The chunks put together.
abbrev pub flat : List Text → Text
flat [] = []
flat (chunk ∷ chunks) = chunk ++ flat chunks

both_true : (a b : Bool) → (a && b) ≡ true → a ≡ true
both_true true b h = refl
both_true false b h = h

flat-enclitic_split :
    (enclitic : Text) (variant : List Text) → flat (enclitic_split enclitic variant) ≡ flat variant
unfolding enclitic_split
flat-enclitic_split enclitic [] = refl
flat-enclitic_split enclitic (chunk ∷ variant) =
    elim (Bool-cases (
      ends_with chunk enclitic
      && not (text_eq enclitic (codes "ue") && ends_with chunk (codes "que")))) [
        | inl splits ↦
            let ends : ends_with chunk enclitic ≡ true = both_true _ _ splits in
            let (parts, _) = ends_with-split chunk enclitic ends in
            rw (splits, flat-enclitic_split enclitic variant)
              (sym (append_assoc (slice_off (length enclitic) chunk) enclitic (flat variant))
                ∙ ap (λ t. t ++ flat variant) (sym parts))
        | inr whole ↦ rw (whole, flat-enclitic_split enclitic variant) refl
      ]

split_variants-flat :
    (variant enclitics : List Text) {d : List Text}
    → Memᴰ d (split_variants variant enclitics)
    → flat d ≡ flat variant
unfolding split_variants
split_variants-flat variant [] m = elim m [ ]
split_variants-flat variant (enclitic ∷ enclitics) {d} m =
    elim (Bool-cases (ltb (length variant) (length (enclitic_split enclitic variant)))) [
      | inl longer ↦ elim (cases_cons (rw (split_variants, longer) at m)) [
        | inl same ↦ ap flat same ∙ flat-enclitic_split enclitic variant
        | inr m' ↦ split_variants-flat variant enclitics m'
      ]
      | inr same_length ↦
          split_variants-flat variant enclitics (rw (split_variants, same_length) at m)
    ]

-- Every decomposition of a token has the text of one of the ways to undo a prodelision, and each of
-- these ways is itself a decomposition.
pub decompose_token-flat :
    (token : Text) (ds : List (List Text))
    → decompose_token token ≡ ok ds
    → (variants : List (List Text)) × (split_prodelision (normalized token) ≡ ok variants)
      × ((d : List Text) → Memᴰ d ds → (v : List Text) × Memᴰ v variants × (flat d ≡ flat v))
      × ((v : List Text) → Memᴰ v variants → Memᴰ v ds)
unfolding decompose_token split_extras
decompose_token-flat token ds e =
    let (variants, parts, splits) = bind-eq-ok (split_prodelision (normalized token)) _ e in
    (
      variants,
      parts,
      λ d m.
          let (v, mv, (zs, of_v, mz)) = collect-from variants_of variants splits m in
          let in_variants : Memᴰ d (v ∷ split_variants v token_enclitics) =
            subst (λ l. Memᴰ d l) (sym (ok-injective of_v)) mz in
          (
            v,
            mv,
            elim (cases_cons in_variants) [
              | inl same ↦ ap flat same
              | inr m' ↦ split_variants-flat v token_enclitics m'
            ],
          ),
      λ v m. collect-to variants_of variants splits m refl (head refl),
    )
