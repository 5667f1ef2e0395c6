-- ===== src/Query/Tokens.antt =====
-- `categorizeToken` of src/web/client/pages/corpus/autocomplete/token_types.ts and `tokenizeInput` of
-- src/web/client/pages/corpus/autocomplete/input_tokenizer.ts.
pub mod Cover
use morcus_net.Prelude.{
  ℕ, suc, ◌+◌, ◌==◌, if◌then◌else◌, Bool, true, false, ◌&&◌, ◌||◌, List, [], ◌∷◌, ◌++◌, Text, codes,
  text_eq, has_char, trim,
}

-- `CorpusTokenType`.
pub data CorpusTokenType : Type 0 where
  space open_paren close_paren word_filter logic_and logic_or work_filter proximity :
      CorpusTokenType

-- `token.startsWith(c)`.
abbrev starts_with : ℕ → Text → Bool
starts_with c [] = false
starts_with c (d ∷ s) = d == c

-- `categorizeToken`.
unfoldable pub categorize_token : Text → CorpusTokenType
categorize_token token =
    if text_eq token (codes "(")
    then open_paren
    else if text_eq token (codes ")")
    then close_paren
    else if text_eq token (codes "and")
    then logic_and
    else if text_eq token (codes "or")
    then logic_or
    else if text_eq (trim token) []
    then space
    else if starts_with b'@' token
    then word_filter
    else if starts_with b'#' token
    then work_filter
    else if has_char b'~' token
    then proximity
    else word_filter

-- `QueryToken`.
pub record QueryToken : Type 0 where
  pub token : Text
  pub start : ℕ
  pub kind : CorpusTokenType

-- The variables of the loop; the tokens that it has pushed are what it returns so far.
pub record Scanner : Type 0 where
  pub current_token : Text
  pub token_start : ℕ
  pub is_current_token_space : Bool

abbrev same_bool : Bool → Bool → Bool
same_bool true b = b
same_bool false true = false
same_bool false false = true

-- `flushCurrentToken`: what it pushes.
unfoldable pub flush : Scanner → List QueryToken
flush s = elim s.current_token [
  | [] ↦ []
  | c ∷ cs ↦ record { token = c ∷ cs; start = s.token_start; kind = categorize_token (c ∷ cs) } ∷ []
]

abbrev pub is_parenthesis : ℕ → Bool
is_parenthesis c = c == b'(' || c == b')'

abbrev pub parenthesis : ℕ → ℕ → QueryToken
parenthesis c i = record {
  token = c ∷ [];
  start = i;
  kind = if c == b'(' then open_paren else close_paren;
}

abbrev pub begin : ℕ → ℕ → Scanner
begin c i = record { current_token = c ∷ []; token_start = i; is_current_token_space = c == b' ' }

abbrev pub add : Scanner → ℕ → Scanner
add s c = record s { current_token = s.current_token ++ (c ∷ []) }

abbrev pub is_empty : Text → Bool
is_empty [] = true
is_empty (c ∷ s) = false

-- The loop over the characters behind position `i`.
unfoldable pub scan : Scanner → ℕ → Text → List QueryToken
unfolding flush
scan s i [] = flush s
scan s i (c ∷ input) =
    let alone =
      flush s
      ++ (parenthesis c i
          ∷ scan (record s { current_token = []; token_start = i + 1 }) (i + 1) input) in
    let started = scan (begin c i) (i + 1) input in
    let longer = scan (add s c) (i + 1) input in
    let cut = flush s ++ started in
    if is_parenthesis c
    then alone
    else if is_empty s.current_token
    then started
    else if same_bool s.is_current_token_space (c == b' ')
    then longer
    else cut

-- `tokenizeInput`.
unfoldable pub tokenize_input : Text → List QueryToken
unfolding scan categorize_token
tokenize_input input =
    scan (record { current_token = []; token_start = 0; is_current_token_space = false }) 0 input
