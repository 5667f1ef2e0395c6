-- ===== src/Routing/Paths/RoundTrip.antt =====
-- A path that is filled with parameters is read as those parameters.
use morcus_net.Prelude.{
  ◌==◌, ◌≡◌, refl, sym, ap, ◌∙◌, arith, ◌⊎◌, inl, inr, Bool-cases, true, false, Option-cases, none,
  some, List, [], ◌∷◌, ◌++◌, append_assoc, append-nil, all, All, Text, has_char, text_eq,
  text_eq_sound, text_eq_self, length, drop, join, split-join,
}
use morcus_net.Routing.Records.{Record, get, put, delete, has_value, get-put, get-delete, get-none}
use morcus_net.Routing.Paths.{
  Chunk, parameter, literal, read_chunk, match_chunks, fill_chunks, chunks_of, is_chunk,
  is_alphanumeric, is_valid, parse_params, to_url_path,
}

-- How a template takes parameters: the chunks that it gives, and the parameters that are left.
data Filled : List Text → Record → List Text → Record → Type 0 where
  all_filled : {ps : Record} → Filled [] ps [] ps
  with_literal :
      {t text : Text} {ts us : List Text} {ps ps' : Record}
      → read_chunk t ≡ literal text
      → Filled ts ps us ps'
      → Filled (t ∷ ts) ps (text ∷ us) ps'
  with_parameter :
      {t key value : Text} {ts us : List Text} {ps ps' : Record}
      → read_chunk t ≡ parameter key
      → get key ps ≡ some value
      → Filled ts (delete key ps) us ps'
      → Filled (t ∷ ts) ps (value ∷ us) ps'

-- Chunks behind a slash each.
slashes : List Text → Text
slashes [] = []
slashes (u ∷ us) = b'/' ∷ (u ++ slashes us)

Chunk-cases : (c : Chunk) → ((s : Text) × (c ≡ literal s)) ⊎ ((s : Text) × (c ≡ parameter s))
Chunk-cases (literal s) = inl (s, refl)
Chunk-cases (parameter s) = inr (s, refl)

fill_chunks-Filled :
    (ts : List Text) (ps ps' : Record) (result url : Text)
    → fill_chunks ts ps result ≡ some (url, ps')
    → (us : List Text) × Filled ts ps us ps' × (url ≡ result ++ slashes us)
unfolding fill_chunks slashes
fill_chunks-Filled [] ps ps' result url e =
    let same : ps ≡ ps' = cc in
    let url_is : result ≡ url = cc in ([], rw same all_filled, rw append-nil (sym url_is))
fill_chunks-Filled (t ∷ ts) ps ps' result url e = elim (Chunk-cases (read_chunk t)) [
  | inl (text, is_literal) ↦
      let (us, filled, url_is) =
        fill_chunks-Filled ts ps ps' (result ++ (b'/' ∷ text)) url
          (rw (fill_chunks, is_literal) at e) in
      (
        text ∷ us,
        with_literal is_literal filled,
        url_is ∙ append_assoc result (b'/' ∷ text) (slashes us),
      )
  | inr (key, is_parameter) ↦ elim (Option-cases (get key ps)) [
    | inl missing ↦ let impossible = rw (fill_chunks, is_parameter, missing) at e in cc
    | inr (value, found) ↦
        let (us, filled, url_is) =
          fill_chunks-Filled ts (delete key ps) ps' (result ++ (b'/' ∷ value)) url
            (rw (fill_chunks, is_parameter, found) at e) in
        (
          value ∷ us,
          with_parameter is_parameter found filled,
          url_is ∙ append_assoc result (b'/' ∷ value) (slashes us),
        )
  ]
]

-- What a key is read as behind a match: its parameter was taken, or nothing has changed.
abbrev Taken : Record → Record → Record → Record → Text → Type 0
Taken ps ps' acc acc' q =
    ((get q ps' ≡ get q ps) × (get q acc' ≡ get q acc))
    ⊎ ((value : Text) × (get q ps' ≡ none) × (get q ps ≡ some value) × (get q acc' ≡ some value))

Taken-put :
    (key value : Text) (ps ps' acc acc' : Record) (q : Text)
    → get key ps ≡ some value
    → Taken (delete key ps) ps' (put key value acc) acc' q
    → Taken ps ps' acc acc' q
Taken-put key value ps ps' acc acc' q found taken = elim (Bool-cases (text_eq key q)) [
  | inl here ↦
      let key_is : key ≡ q = text_eq_sound key q here in
      let gone : get q (delete key ps) ≡ none = rw (get-delete key q ps, here) in
      let set : get q (put key value acc) ≡ some value = rw (get-put key q value acc, here) in
      elim taken [
        | inl (left, new) ↦ inr (value, left ∙ gone, rw key_is at found, new ∙ set)
        | inr (v, none_left, had, new) ↦ let impossible : none ≡ some v = sym gone ∙ had in cc
      ]
  | inr other ↦
      let same : get q (delete key ps) ≡ get q ps = rw (get-delete key q ps, other) in
      let same_acc : get q (put key value acc) ≡ get q acc = rw (get-put key q value acc, other) in
      elim taken [
        | inl (left, new) ↦ inl (left ∙ same, new ∙ same_acc)
        | inr (v, none_left, had, new) ↦ inr (v, none_left, sym same ∙ had, new)
      ]
]

match_chunks-Filled :
    {ts us : List Text} {ps ps' : Record}
    → Filled ts ps us ps'
    → (acc : Record)
    → (acc' : Record) × (match_chunks ts us acc ≡ some acc')
      × ((q : Text) → Taken ps ps' acc acc' q)
unfolding match_chunks
match_chunks-Filled all_filled acc = (acc, refl, λ q. inl (refl, refl))
match_chunks-Filled (with_literal {t} {text} is_literal filled) acc =
    let (acc', matched, taken) = match_chunks-Filled filled acc in
    (acc', rw (match_chunks, is_literal, text_eq_self text) matched, taken)
match_chunks-Filled
      (with_parameter {t} {key} {value} {ts} {us} {ps} {ps'} is_parameter found filled) acc =
    let (acc', matched, taken) = match_chunks-Filled filled (put key value acc) in
    (
      acc',
      rw (match_chunks, is_parameter) matched,
      λ q. Taken-put key value ps ps' acc acc' q found (taken q),
    )

Filled-length : {ts us : List Text} {ps ps' : Record} → Filled ts ps us ps' → length ts ≡ length us
Filled-length all_filled = refl
Filled-length (with_literal e filled) = omega (arith, Filled-length filled)
Filled-length (with_parameter e found filled) = omega (arith, Filled-length filled)

-- A chunk that holds no slash.
abbrev NoSlash : Text → Type 0
NoSlash t = has_char b'/' t ≡ false

no_slash : (s : Text) → all is_alphanumeric s ≡ true → NoSlash s
no_slash [] h = refl
no_slash (c ∷ s) h =
    let first : is_alphanumeric c ≡ true = ground arith in ground (arith, no_slash s (ground arith))

literal-NoSlash : (t text : Text) → is_chunk t ≡ true → read_chunk t ≡ literal text → NoSlash text
unfolding read_chunk
literal-NoSlash [] text h e = cc
literal-NoSlash (c ∷ s) text h e = elim (Bool-cases (c == b':')) [
  | inl colon ↦ let impossible = rw colon at e in cc
  | inr plain ↦
      let same : c ∷ s ≡ text =
        ap (λ k. elim k [ literal t ↦ t | parameter t ↦ t ]) (rw plain at e) in
      let names : all is_alphanumeric (c ∷ s) ≡ true = rw plain at h in
      rw (← same) (no_slash (c ∷ s) names)
]

-- No value that is present holds a slash.
abbrev pub ValuesFit : Record → Type 0
ValuesFit ps = (q value : Text) → get q ps ≡ some value → has_char b'/' value ≡ false

delete-ValuesFit : (key : Text) (ps : Record) → ValuesFit ps → ValuesFit (delete key ps)
delete-ValuesFit key ps fit q value e = elim (Bool-cases (text_eq key q)) [
  | inl here ↦ let impossible : none ≡ some value = rw (get-delete key q ps, here) at e in cc
  | inr other ↦ fit q value (rw (get-delete key q ps, other) at e)
]

Filled-NoSlash :
    {ts us : List Text} {ps ps' : Record}
    → Filled ts ps us ps'
    → all is_chunk ts ≡ true
    → ValuesFit ps
    → All NoSlash us
Filled-NoSlash all_filled chunks fit = tt
Filled-NoSlash (with_literal {t} {text} e filled) chunks fit =
    (literal-NoSlash t text (ground arith) e, Filled-NoSlash filled (ground arith) fit)
Filled-NoSlash (with_parameter {t} {key} {value} {ts} {us} {ps} e found filled) chunks fit =
    (fit key value found, Filled-NoSlash filled (ground arith) (delete-ValuesFit key ps fit))

join-slashes : (u : Text) (us : List Text) → join b'/' (u ∷ us) ≡ u ++ slashes us
unfolding slashes
join-slashes u [] = rw append-nil
join-slashes u (v ∷ us) = rw (join-slashes v us)

chunks_of-slashes : (us : List Text) → All NoSlash us → chunks_of (slashes us) ≡ us
chunks_of-slashes us h =
    rw (← join-slashes [] us) (ap (λ cs. drop 1 cs) (split-join b'/' [] us (refl, h)))

Taken-all :
    (ps ps' acc' : Record) (q : Text)
    → has_value ps' ≡ false
    → Taken ps ps' [] acc' q
    → get q acc' ≡ get q ps
unfolding get
Taken-all ps ps' acc' q unused (inl (left, new)) = new ∙ sym (get-none q ps' unused) ∙ left
Taken-all ps ps' acc' q unused (inr (value, gone, had, new)) = new ∙ sym had

-- The text that a valid template makes of parameters, whose values hold no slash, is matched by the
-- template, and every key is read as the value that it had among those parameters.
pub parse_params-to_url_path :
    (path url : Text) (params : Record)
    → is_valid path ≡ true
    → ValuesFit params
    → to_url_path path params ≡ some url
    → (parsed : Record) × (parse_params path url ≡ some parsed)
      × ((q : Text) → get q parsed ≡ get q params)
unfolding parse_params to_url_path is_valid
parse_params-to_url_path path url params valid fit e =
    elim (Option-cases (fill_chunks (chunks_of path) params [])) [
      | inl fails ↦ let impossible = rw (to_url_path, fails) at e in cc
      | inr (filling, fills) ↦ elim (Bool-cases (has_value filling.1)) [
        | inl left ↦ let impossible = rw (to_url_path, fills, left) at e in cc
        | inr unused ↦
            let url_is : filling.0 ≡ url =
              ap (λ o. elim o [ none ↦ url | some r ↦ r ]) (rw (to_url_path, fills, unused) at e) in
            let (us, filled, slashed) =
              fill_chunks-Filled (chunks_of path) params filling.1 [] filling.0 fills in
            let (parsed, matched, taken) = match_chunks-Filled filled [] in
            let chunks : all is_chunk (chunks_of path) ≡ true = ground arith in
            let us_are : chunks_of url ≡ us =
              rw (← url_is, slashed) (chunks_of-slashes us (Filled-NoSlash filled chunks fit)) in
            let same : (length (chunks_of path) == length us) ≡ true =
              ground (arith, Filled-length filled) in
            (
              parsed,
              rw (us_are, same) matched,
              λ q. Taken-all params filling.1 parsed q unused (taken q),
            )
      ]
    ]
