-- ===== src/Routing/Paths.antt =====
-- `PagePath` of src/web/client/router/paths.ts, as its template text. Parameters are records whose keys
-- are not names that every JavaScript object has.
pub mod RoundTrip
use morcus_net.Prelude.{
  ℕ, leb, ◌==◌, if◌then◌else◌, Bool, true, false, not, ◌&&◌, ◌||◌, Option, none, some, List, [],
  ◌∷◌, ◌++◌, all, Text, text_eq, split, length, drop,
}
use morcus_net.Routing.Records.{Record, get, put, delete, has_value}

-- `[a-zA-Z0-9]`.
abbrev pub is_alphanumeric : ℕ → Bool
is_alphanumeric c =
    (leb b'a' c && leb c b'z') || (leb b'A' c && leb c b'Z') || (leb b'0' c && leb c b'9')

abbrev is_name : Text → Bool
is_name [] = false
is_name (c ∷ s) = all is_alphanumeric (c ∷ s)

-- `/^(?::)?[a-zA-Z0-9]+$/.test(chunk)`.
abbrev pub is_chunk : Text → Bool
is_chunk [] = false
is_chunk (c ∷ s) = if c == b':' then is_name s else is_name (c ∷ s)

-- `chunks.slice(1)`.
abbrev pub chunks_of : Text → List Text
chunks_of path = drop 1 (split b'/' path)

abbrev starts_empty : List Text → Bool
starts_empty ([] ∷ chunks) = true
starts_empty _ = false

-- `PagePath.isValid`.
unfoldable pub is_valid : Text → Bool
is_valid path = starts_empty (split b'/' path) && all is_chunk (chunks_of path)

-- `PagePath.of`, with the path for the object.
pub of : Text → Option Text
unfolding is_valid
of path = if is_valid path then some path else none

-- A chunk of a template: `:name`, or a text that stands for itself.
pub data Chunk : Type 0 where
  parameter literal : Text → Chunk

unfoldable pub read_chunk : Text → Chunk
read_chunk [] = literal []
read_chunk (c ∷ s) = if c == b':' then parameter s else literal (c ∷ s)

-- The loop of `parseParams`, over lists of the same length.
unfoldable pub match_chunks : List Text → List Text → Record → Option Record
unfolding put
match_chunks [] urls result = some result
match_chunks (t ∷ ts) [] result = none
match_chunks (t ∷ ts) (u ∷ us) result = elim (read_chunk t) [
  | parameter key ↦ match_chunks ts us (put key u result)
  | literal text ↦ if text_eq text u then match_chunks ts us result else none
]

-- `parseParams`.
unfoldable pub parse_params : Text → Text → Option Record
unfolding match_chunks
parse_params path url_path =
    if length (chunks_of path) == length (chunks_of url_path)
    then match_chunks (chunks_of path) (chunks_of url_path) []
    else none

-- `matches`.
pub matches : Text → Text → Bool
unfolding parse_params
matches path url_path = elim (parse_params path url_path) [ none ↦ false | some r ↦ true ]

-- `matchesPage`, on the paths of the page.
pub matches_page : Text → List Text → Bool
unfolding matches
matches_page url_path [] = false
matches_page url_path (path ∷ paths) = matches path url_path || matches_page url_path paths

-- The loop of `toUrlPath`: the text so far, and the parameters that are left.
unfoldable pub fill_chunks : List Text → Record → Text → Option (Text × Record)
unfolding get delete
fill_chunks [] params result = some (result, params)
fill_chunks (t ∷ ts) params result = elim (read_chunk t) [
  | literal text ↦ fill_chunks ts params (result ++ (b'/' ∷ text))
  | parameter key ↦ elim (get key params) [
    | none ↦ none
    | some value ↦ fill_chunks ts (delete key params) (result ++ (b'/' ∷ value))
  ]
]

-- `toUrlPath`. Its caller's parameters are left without those that the path takes.
unfoldable pub to_url_path : Text → Record → Option Text
unfolding fill_chunks has_value
to_url_path path params = elim (fill_chunks (chunks_of path) params []) [
  | none ↦ none
  | some (result, unused) ↦ if has_value unused then none else some result
]
