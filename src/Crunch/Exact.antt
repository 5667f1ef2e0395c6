-- ===== src/Crunch/Exact.antt =====
-- `crunchOptionsForEnd` and `crunchExactMatch` of src/morceus/crunch.ts.
pub mod Parses
pub mod Rounds
pub mod Match
use morcus_net.Prelude.{
  ℕ, zero, suc, ◌+◌, ◌-◌, leb, if◌then◌else◌, Option, none, some, List, [], ◌∷◌, ◌++◌, map, Bool,
  true, false, not, ◌&&◌, ◌||◌, length, take, drop, Text, text_eq, codes, Result, ok, err, assert,
  ◌>>=◌, ◌>>◌, collect,
}
use morcus_net.Inflection.Tags.{InflectionContext}
use morcus_net.Crunch.Types.{
  StemCode, vb_code, wd_code, Stem, IrregularForm, InflectionEnding, Candidate, regular, irregular,
  StemMapValue, CruncherTables, CrunchResult, CrunchError, bad_code, no_table,
}
use morcus_net.Crunch.Endings.{merge_if_compatible, expand_single_ending}

-- `ENCLITICS`.
abbrev pub enclitics : List Text
enclitics = codes "que" ∷ codes "ne" ∷ codes "ve" ∷ []

-- `hasIndeclinableCode`.
abbrev pub has_indeclinable_code : Option StemCode → Bool
has_indeclinable_code (some vb_code) = true
has_indeclinable_code (some wd_code) = true
has_indeclinable_code _ = false

abbrev pub has_no_code : Option StemCode → Bool
has_no_code none = true
has_no_code (some c) = false

-- `rawEnd || "*"`, and the other way round.
abbrev pub observed : Text → Text
observed [] = codes "*"
observed (c ∷ s) = c ∷ s

abbrev pub spelled : Text → Text
spelled ending = if text_eq ending (codes "*") then [] else ending

-- `possibleEnds?.includes(inflection)`.
unfoldable pub includes_text : List Text → Text → Bool
includes_text [] t = false
includes_text (u ∷ us) t = text_eq u t || includes_text us t

unfoldable pub is_possible : Option (List Text) → Text → Bool
is_possible none inflection = false
is_possible (some ends) inflection = includes_text ends inflection

-- `tables.inflectionLookup.get(inflection)?.get(end)`.
unfoldable pub look_up : CruncherTables → Text → Text → Option (List InflectionEnding)
look_up tables inflection end = elim (tables.inflection_lookup inflection) [
  | none ↦ none
  | some endings ↦ endings end
]

-- `checkPresent`.
abbrev check_present : {A : Type 0} → Option A → Result CrunchError A
check_present none = err no_table
check_present (some a) = ok a

-- What a stem and an ending have in common, if they fit.
abbrev context_of : Option InflectionEnding → Option InflectionContext
context_of none = none
context_of (some end) = some end.context

unfoldable pub combined : Stem → InflectionEnding → Option InflectionContext
combined s end =
    if has_no_code s.code
    then context_of (expand_single_ending s.stem s.context end)
    else merge_if_compatible s.context end.context

abbrev pub irregular_result : StemMapValue → IrregularForm → CrunchResult
irregular_result v f = record {
  context = f.context;
  lemma = v.lemma;
  form = f.form;
  stem = none;
  end = none;
  relaxed_case = false;
  enclitic = none;
  is_verb = v.is_verb;
}

abbrev pub regular_result :
    StemMapValue → Stem → InflectionEnding → InflectionContext → CrunchResult
regular_result v s end context = record {
  context = context;
  lemma = v.lemma;
  form = s.stem ++ spelled end.ending;
  stem = some s;
  end = some end;
  relaxed_case = false;
  enclitic = none;
  is_verb = v.is_verb;
}

-- One round of the loop over the endings.
abbrev pub for_ending :
    StemMapValue → Stem → InflectionEnding → Result CrunchError (List CrunchResult)
for_ending v s end = elim (combined s end) [
  | none ↦ ok []
  | some context ↦ ok (regular_result v s end context ∷ [])
]

-- One round of the loop over the candidates, for an irregular form or a stem.
unfoldable pub for_kind :
    CruncherTables → Text → StemMapValue → Candidate → Result CrunchError (List CrunchResult)
for_kind tables raw_end v (irregular f) =
    assert (has_indeclinable_code f.code || has_no_code f.code) bad_code
    >> ok (if text_eq (observed raw_end) (codes "*") then irregular_result v f ∷ [] else [])
for_kind tables raw_end v (regular s) =
    assert (not (has_indeclinable_code s.code) || has_no_code s.code) bad_code
    >> (if not (is_possible (tables.ends_map (observed raw_end)) s.inflection)
        then ok []
        else (check_present (look_up tables s.inflection (observed raw_end)) >>= λ ends.
            collect (for_ending v s) ends))

abbrev pub for_candidate :
    CruncherTables → Text → StemMapValue → Result CrunchError (List CrunchResult)
for_candidate tables raw_end v = for_kind tables raw_end v v.candidate

-- `crunchOptionsForEnd`.
unfoldable pub crunch_options_for_end :
    Text → CruncherTables → List StemMapValue → Result CrunchError (List CrunchResult)
crunch_options_for_end raw_end tables candidates = collect (for_candidate tables raw_end) candidates

-- `s.slice(0, -n)` and `s.slice(-n)` for n of at most the length of the text.
abbrev pub slice_off : ℕ → Text → Text
slice_off n s = take (length s - n) s

abbrev pub slice_end : ℕ → Text → Text
slice_end n s = drop (length s - n) s

-- `s.endsWith(t)`.
unfoldable pub ends_with : Text → Text → Bool
ends_with s t = leb (length t) (length s) && text_eq (slice_end (length t) s) t

abbrev pub with_enclitic : Text → CrunchResult → CrunchResult
with_enclitic e r = record r { enclitic = some e }

-- One round of the loop over the enclitics.
unfoldable pub for_enclitic :
    CruncherTables → List StemMapValue → Text → Text → Result CrunchError (List CrunchResult)
for_enclitic tables candidates full_end enclitic =
    if not (ends_with full_end enclitic)
    then ok []
    else (crunch_options_for_end (slice_off (length enclitic) full_end) tables candidates >>= λ rs.
        ok (map (with_enclitic (slice_end (length enclitic) full_end)) rs))

-- What the candidates for the first part of a word give.
unfoldable pub for_split :
    CruncherTables → Bool → List StemMapValue → Text → Result CrunchError (List CrunchResult)
for_split tables handle_enclitics candidates full_end =
    crunch_options_for_end full_end tables candidates >>= λ plain.
    (if handle_enclitics
      then collect (for_enclitic tables candidates full_end) enclitics
      else ok [])
    >>= λ others. ok (plain ++ others)

-- One round of the loop of `crunchExactMatch`.
unfoldable pub for_place : Text → CruncherTables → Bool → ℕ → Result CrunchError (List CrunchResult)
for_place word tables handle_enclitics i = elim (tables.stem_map (take i word)) [
  | none ↦ ok []
  | some candidates ↦ for_split tables handle_enclitics candidates (drop i word)
]

-- 0 ... n - 1, from i on.
unfoldable pub places_from : ℕ → ℕ → List ℕ
places_from i zero = []
places_from i (suc n) = i ∷ places_from (suc i) n

-- `crunchExactMatch`.
unfoldable pub crunch_exact_match :
    Text → CruncherTables → Bool → Result CrunchError (List CrunchResult)
crunch_exact_match word tables handle_enclitics =
    collect (for_place word tables handle_enclitics) (places_from 0 (suc (length word)))
