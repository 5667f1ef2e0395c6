-- ===== src/Crunch/Decompose.antt =====
-- `decomposeToken` of src/morceus/decompose_token.ts.
pub mod Joined
use morcus_net.Prelude.{
  ℕ, ◌-◌, ltb, ◌==◌, if◌then◌else◌, List, [], ◌∷◌, ◌++◌, map, Bool, true, false, not, ◌&&◌, ◌||◌,
  length, Text, text_eq, codes, has_char, trim, split, Result, ok, err, ◌>>=◌, collect,
}
use morcus_net.Crunch.Exact.{ends_with, slice_off}

-- `ENCLITICS`.
abbrev pub token_enclitics : List Text
token_enclitics =
    codes "que"
    ∷ codes "ne"
    ∷ codes "ve"
    ∷ codes "ue"
    ∷ codes "met"
    ∷ codes "cum"
    ∷ codes "dum"
    ∷ []

-- The assertion on the number of parts.
pub data DecomposeError : Type 0 where
  not_two_parts : DecomposeError

abbrev of_parts : List Text → Result DecomposeError (List (List Text))
of_parts ([] ∷ second ∷ []) = ok (((b'e' ∷ second) ∷ []) ∷ [])
of_parts ((c ∷ first) ∷ second ∷ []) = ok (((c ∷ first) ∷ (b'e' ∷ second) ∷ []) ∷ [])
of_parts _ = err not_two_parts

-- `splitProdelision`.
unfoldable pub split_prodelision : Text → Result DecomposeError (List (List Text))
split_prodelision token =
    if has_char b'\'' token
    then of_parts (split b'\'' token)
    else if ends_with token (codes "ust")
    then ok ((token ∷ []) ∷ (slice_off 1 token ∷ codes "est" ∷ []) ∷ [])
    else if ends_with token (codes "st")
    then ok ((token ∷ []) ∷ (slice_off 2 token ∷ codes "est" ∷ []) ∷ [])
    else ok ((token ∷ []) ∷ [])

-- `encliticSplit`, from a chunk on.
unfoldable pub enclitic_split : Text → List Text → List Text
enclitic_split enclitic [] = []
enclitic_split enclitic (chunk ∷ variant) =
    let rest = enclitic_split enclitic variant in
    if ends_with chunk enclitic
      && not (text_eq enclitic (codes "ue") && ends_with chunk (codes "que"))
    then slice_off (length enclitic) chunk ∷ enclitic ∷ rest
    else chunk ∷ rest

-- The loop over the enclitics.
unfoldable pub split_variants : List Text → List Text → List (List Text)
split_variants variant [] = []
split_variants variant (enclitic ∷ enclitics) =
    let rest = split_variants variant enclitics in
    if ltb (length variant) (length (enclitic_split enclitic variant))
    then enclitic_split enclitic variant ∷ rest
    else rest

abbrev pub variants_of : List Text → Result DecomposeError (List (List Text))
variants_of variant = ok (variant ∷ split_variants variant token_enclitics)

-- `splitExtras`.
unfoldable pub split_extras : Text → Result DecomposeError (List (List Text))
split_extras token =
    split_prodelision token >>= λ prodelision_parts. collect variants_of prodelision_parts

-- `normalize`: the other apostrophes become the one that is split at.
abbrev pub normalized : Text → Text
normalized token =
    map (λ c. if c == 0x2019 || c == 0x2018 || c == b'`' then b'\'' else c) (trim token)

-- `decomposeToken`.
unfoldable pub decompose_token : Text → Result DecomposeError (List (List Text))
decompose_token token = split_extras (normalized token)
