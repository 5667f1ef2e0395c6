-- ===== src/Crunch/Words/Keys.antt =====
-- The cluster key of `consolidateCrunchResults` of src/morceus/crunch.ts, and the texts it is made of.
use morcus_net.Prelude.{
  ℕ, ◌≡◌, inl, inr, refl, arith, Bool, Bool-cases, false, some, List, [], ◌∷◌, ◌++◌, map, none,
  Text, text_eq, codes, has_char, join, Memᴰ,
}
use morcus_net.Crunch.Types.{
  InflectionEnding, Candidate, regular, irregular, StemMapValue, CruncherTables, CrunchResult,
}
use morcus_net.Crunch.Exact.{look_up, observed, spelled}
use morcus_net.Crunch.Exact.Parses.{Reads, as_form, as_stem, Parses, plain, enclitic}
use morcus_net.Crunch.Words.{Strings, cluster_key}

abbrev pub HasNoDollar : Text → Type 0
HasNoDollar t = has_char b'$' t ≡ false

-- The tags of a result as the source compares them: cleaned, sorted and joined.
abbrev pub tags_text : Strings → CrunchResult → Text
tags_text strings r =
    join b'@'
      (strings.sort (map strings.clean_tag (elim r.context.tags [ none ↦ [] | some ts ↦ ts ])))

-- Two results are of the same lemma, form and tags.
pub record IsSameWord (strings : Strings) (r k : CrunchResult) : Type 0 where
  pub same_lemma : k.lemma ≡ r.lemma
  pub same_form : k.form ≡ r.form
  pub same_tags : tags_text strings k ≡ tags_text strings r

abbrev pub HasPlainKey : CrunchResult → Type 0
HasPlainKey r = HasNoDollar r.lemma × HasNoDollar r.form

-- What is in front of the first sign, and what is behind it.
first_parts :
    (a b x y : Text)
    → HasNoDollar a
    → HasNoDollar b
    → a ++ (b'$' ∷ x) ≡ b ++ (b'$' ∷ y)
    → (a ≡ b) × (x ≡ y)
first_parts [] [] x y ha hb e = (refl, cc)
first_parts [] (d ∷ b) x y ha hb e = let d_is : b'$' ≡ d = cc in absurd (starts_with_it d b d_is hb)
  where
    starts_with_it : (d : ℕ) (b : Text) → b'$' ≡ d → HasNoDollar (d ∷ b) → ⊥
    starts_with_it d b e h = ground arith
first_parts (c ∷ a) [] x y ha hb e = let c_is : c ≡ b'$' = cc in ground arith
first_parts (c ∷ a) (d ∷ b) x y ha hb e =
    let tails : a ++ (b'$' ∷ x) ≡ b ++ (b'$' ∷ y) = cc in
    let heads : c ≡ d = cc in
    let (same, rest) = first_parts a b x y (ground arith) (ground arith) tails in (cc, rest)

pub cluster_key-IsSameWord :
    (strings : Strings) (r k : CrunchResult)
    → HasPlainKey r
    → HasPlainKey k
    → cluster_key strings k ≡ cluster_key strings r
    → IsSameWord strings r k
unfolding cluster_key
cluster_key-IsSameWord strings r k (lemma_r, form_r) (lemma_k, form_k) e =
    let (lemmas, behind) = first_parts k.lemma r.lemma _ _ lemma_k lemma_r e in
    let (forms, tags) = first_parts k.form r.form _ _ form_k form_r behind in
    record { same_lemma = lemmas; same_form = forms; same_tags = tags }

-- The text of a candidate.
abbrev pub text_of : Candidate → Text
text_of (regular s) = s.stem
text_of (irregular f) = f.form

-- No lemma, stem, form or ending of the tables holds the sign.
pub record HasPlainTexts (tables : CruncherTables) : Type 0 where
  pub of_values :
      (start : Text) (candidates : List StemMapValue) (v : StemMapValue)
      → tables.stem_map start ≡ some candidates
      → Memᴰ v candidates
      → HasNoDollar v.lemma × HasNoDollar (text_of v.candidate)
  pub of_endings :
      (inflection end : Text) (ends : List InflectionEnding) (e : InflectionEnding)
      → look_up tables inflection end ≡ some ends
      → Memᴰ e ends
      → HasNoDollar e.ending

HasNoDollar-append : (s t : Text) → HasNoDollar s → HasNoDollar t → HasNoDollar (s ++ t)
HasNoDollar-append [] t hs ht = ht
HasNoDollar-append (c ∷ s) t hs ht = ground (arith, HasNoDollar-append s t (ground arith) ht)

HasNoDollar-spelled : (t : Text) → HasNoDollar t → HasNoDollar (spelled t)
HasNoDollar-spelled t h = elim (Bool-cases (text_eq t (codes "*"))) [
  | inl star ↦ rw star refl
  | inr other ↦ rw other h
]

Reads-HasPlainKey :
    (tables : CruncherTables) (raw_end : Text) (v : StemMapValue) (r : CrunchResult)
    → HasPlainTexts tables
    → HasNoDollar v.lemma × HasNoDollar (text_of v.candidate)
    → Reads tables raw_end v r
    → HasPlainKey r
Reads-HasPlainKey tables raw_end v r plain_texts (lemma, text) (as_form f is_form empty r_is) =
    rw r_is (lemma, (rw is_form at text))
Reads-HasPlainKey tables raw_end v r plain_texts (lemma, text)
      (as_stem s ends end context is_stem possible found m fits r_is) =
    let ending =
      HasNoDollar-spelled end.ending
        (plain_texts.of_endings s.inflection (observed raw_end) ends end found m) in
    rw r_is (lemma, HasNoDollar-append s.stem (spelled end.ending) (rw is_stem at text) ending)

-- A reading has no such sign in its lemma and its form.
pub Parses-HasPlainKey :
    (tables : CruncherTables) (handle_enclitics : Bool) (word : Text) (r : CrunchResult)
    → HasPlainTexts tables
    → Parses tables handle_enclitics word r
    → HasPlainKey r
Parses-HasPlainKey tables handle word r plain_texts
      (plain start end candidates v cut found m reads) =
    Reads-HasPlainKey tables end v r plain_texts (plain_texts.of_values start candidates v found m)
      reads
Parses-HasPlainKey tables handle word r plain_texts
      (enclitic start end particle candidates v host handles cut mp found m reads r_is) =
    rw r_is (
      Reads-HasPlainKey tables end v host plain_texts
        (plain_texts.of_values start candidates v found m) reads)
