-- ===== src/Cleaning/Tokens/Cover.antt =====
-- The tokens of a text are its words and what stands between them.
use morcus_net.Prelude.{
  ℕ, suc, ◌+◌, ◌≡◌, ◌≢◌, inl, inr, refl, sym, ap, ◌∙◌, subst, arith, List, [], ◌∷◌, ◌++◌,
  append_assoc, append-nil, all, Bool, Bool-cases, true, false, not, ◌&&◌, ◌||◌, length,
  length-append, take, drop, take_at, drop_at, Text,
}
use morcus_net.Cleaning.Tokens.{is_text_break_char, tokens_from, process_tokens}

-- A character of a word, or of what stands between words.
abbrev pub belongs : Bool → ℕ → Bool
belongs true c = not (is_text_break_char c)
belongs false c = is_text_break_char c

-- The text is cut into tokens that are not empty, each of characters of its own kind, and the kinds
-- take turns.
pub data AreTokens : Text → Bool → List (Text × Bool) → Type 0 where
  last :
      (kind : Bool) (token : Text)
      → token ≢ []
      → all (belongs kind) token ≡ true
      → AreTokens token kind ((token, kind) ∷ [])
  cut :
      (kind : Bool) (token rest : Text) (tokens : List (Text × Bool))
      → token ≢ []
      → all (belongs kind) token ≡ true
      → AreTokens rest (not kind) tokens
      → AreTokens (token ++ rest) kind ((token, kind) ∷ tokens)

all-append : (p : ℕ → Bool) (s t : Text) → all p (s ++ t) ≡ (all p s && all p t)
all-append p [] t = refl
all-append p (c ∷ s) t = ground (arith, all-append p s t)

-- What the loop has read of its token, `cur`, stands behind `past`.
cut_out :
    (past cur s : Text) (i : ℕ)
    → i ≡ length past + length cur
    → drop (length past) (take i (past ++ (cur ++ s))) ≡ cur
cut_out past cur s i e =
    let size : i ≡ length (past ++ cur) = omega (arith, e, length-append past cur) in
    rw (size, sym (append_assoc past cur s), take_at (past ++ cur) s) (drop_at past cur)

not_empty : (cur : Text) (c : ℕ) → cur ++ (c ∷ []) ≢ []
not_empty [] c = λ e. cc
not_empty (d ∷ cur) c = λ e. cc

tokens_from-AreTokens :
    (s past cur input : Text) (i start : ℕ) (kind : Bool)
    → input ≡ past ++ (cur ++ s)
    → i ≡ length past + length cur
    → start ≡ length past
    → cur ≢ []
    → all (belongs kind) cur ≡ true
    → AreTokens (cur ++ s) kind (tokens_from input i s start kind)
unfolding tokens_from
tokens_from-AreTokens [] past cur input i start kind e ei es some_text fits =
    let token : drop start input ≡ cur = rw (e, es, append-nil cur) (drop_at past cur) in
    rw (token, append-nil cur) (last kind cur some_text fits)
tokens_from-AreTokens (c ∷ s) past cur input i start kind e ei es some_text fits =
    elim (Bool-cases (belongs kind c)) [
      | inl same ↦
          let goes_on : ((kind && is_text_break_char c) || (not kind && not (is_text_break_char c)))
              ≡ false =
            goes_on_lem kind c same in
          let step =
            tokens_from-AreTokens s past (cur ++ (c ∷ [])) input (suc i) start kind
              (e ∙ ap (λ t. past ++ t) (sym (append_assoc cur (c ∷ []) s)))
              (omega (arith, ei, length-append cur (c ∷ []))) es (not_empty cur c)
              (all-append (belongs kind) cur (c ∷ []) ∙ (rw (fits, same) refl)) in
          rw goes_on (
            subst (λ t. AreTokens t kind (tokens_from input (suc i) s start kind))
              (append_assoc cur (c ∷ []) s) step)
      | inr other ↦
          let ends : ((kind && is_text_break_char c) || (not kind && not (is_text_break_char c)))
              ≡ true =
            ends_lem kind c other in
          let token : drop start (take i input) ≡ cur =
            rw (e, es) (cut_out past cur (c ∷ s) i ei) in
          let step =
            tokens_from-AreTokens s (past ++ cur) (c ∷ []) input (suc i) i (not kind)
              (e ∙ sym (append_assoc past cur (c ∷ s))) (omega (arith, ei, length-append past cur))
              (omega (arith, ei, length-append past cur)) (λ p. cc) (other_kind kind c other) in
          rw (ends, token) (cut kind cur (c ∷ s) _ some_text fits step)
    ]
  where
    goes_on_lem :
        (kind : Bool) (c : ℕ)
        → belongs kind c ≡ true
        → ((kind && is_text_break_char c) || (not kind && not (is_text_break_char c))) ≡ false
    goes_on_lem true c h = ground arith
    goes_on_lem false c h = ground arith

    ends_lem :
        (kind : Bool) (c : ℕ)
        → belongs kind c ≡ false
        → ((kind && is_text_break_char c) || (not kind && not (is_text_break_char c))) ≡ true
    ends_lem true c h = ground arith
    ends_lem false c h = ground arith

    other_kind :
        (kind : Bool) (c : ℕ) → belongs kind c ≡ false → all (belongs (not kind)) (c ∷ []) ≡ true
    other_kind true c h = ground arith
    other_kind false c h = ground arith

-- What the tokens of an input are.
abbrev pub TokensOf : Text → List (Text × Bool) → Type 0
TokensOf [] tokens = tokens ≡ []
TokensOf (c ∷ s) tokens = AreTokens (c ∷ s) (not (is_text_break_char c)) tokens

-- The texts of the tokens, put together.
abbrev pub joined : List (Text × Bool) → Text
joined [] = []
joined ((token, kind) ∷ tokens) = token ++ joined tokens

joined-AreTokens :
    {t : Text} {kind : Bool} {tokens : List (Text × Bool)}
    → AreTokens t kind tokens
    → joined tokens ≡ t
joined-AreTokens (last kind token some_text fits) = append-nil token
joined-AreTokens (cut kind token rest tokens some_text fits below) =
    ap (λ r. token ++ r) (joined-AreTokens below)

first_kind : (c : ℕ) (kind : Bool) → kind ≡ not (is_text_break_char c) → belongs kind c ≡ true
first_kind c true e = ground arith
first_kind c false e = ground arith

first_goes_on :
    (c : ℕ) (kind : Bool)
    → kind ≡ not (is_text_break_char c)
    → ((kind && is_text_break_char c) || (not kind && not (is_text_break_char c))) ≡ false
first_goes_on c true e = ground arith
first_goes_on c false e = ground arith

-- The tokens of a text are the text when put together, none is empty, words hold no break character
-- and the others only such, and the two kinds take turns, beginning with that of the first character;
-- an empty text has none.
pub process_tokens-TokensOf :
    (input : Text) → TokensOf input (process_tokens input) × (joined (process_tokens input) ≡ input)
unfolding process_tokens
process_tokens-TokensOf [] = (refl, refl)
process_tokens-TokensOf (c ∷ s) =
    let kind = not (is_text_break_char c) in
    let fits : all (belongs kind) (c ∷ []) ≡ true = rw (first_kind c kind refl) refl in
    let tokens : AreTokens (c ∷ s) kind (tokens_from (c ∷ s) 0 (c ∷ s) 0 kind) =
      rw (tokens_from, first_goes_on c kind refl)
        (tokens_from-AreTokens s [] (c ∷ []) (c ∷ s) 1 0 kind refl (omega arith) refl (λ p. cc)
          fits) in
    (tokens, joined-AreTokens tokens)
