-- ===== src/Query/Tokens/Cover.antt =====
-- The tokens cover the input.
use morcus_net.Prelude.{
  ℕ, ◌+◌, ◌==◌, ◌≡◌, refl, arith, inl, inr, if◌then◌else◌, Bool, true, false, not, ◌&&◌, Bool-cases,
  ==_iff, List, [], ◌∷◌, ◌++◌, append_assoc, append-nil, length, length-append, all, Text,
}
use morcus_net.Query.Tokens.{
  categorize_token, QueryToken, Scanner, flush, is_parenthesis, parenthesis, is_empty, same_bool,
  scan, tokenize_input,
}

-- A parenthesis alone, or a text without parentheses that is all spaces or has none.
abbrev pub is_uniform : Text → Bool
is_uniform [] = false
is_uniform (c ∷ cs) =
    if is_parenthesis c
    then is_empty cs
    else all (λ d. not (is_parenthesis d) && same_bool (c == b' ') (d == b' ')) cs

-- The tokens in order, the first at position `i`: they stand one behind the other, each has the type
-- of its text, and together they are the text.
pub data Covers : ℕ → List QueryToken → Text → Type 0 where
  done : {i : ℕ} → Covers i [] []
  piece :
      {i : ℕ} {ts : List QueryToken} {rest : Text} (t : Text)
      → is_uniform t ≡ true
      → Covers (i + length t) ts rest
      → Covers i (record { token = t; start = i; kind = categorize_token t } ∷ ts) (t ++ rest)

abbrev scanner : Text → ℕ → Bool → Scanner
scanner cur st b = record { current_token = cur; token_start = st; is_current_token_space = b }

-- Where the text that is held or, if there is none, the next one begins.
abbrev origin : Text → ℕ → ℕ → ℕ
origin [] st i = i
origin (c ∷ cs) st i = st

-- What is known of the text that is held.
abbrev Held : Text → ℕ → Bool → ℕ → Type 0
Held [] st b i = Unit
Held (c ∷ cs) st b i =
    (st + length (c ∷ cs) ≡ i)
    × (is_parenthesis c ≡ false)
    × (b ≡ (c == b' '))
    × (is_uniform (c ∷ cs) ≡ true)

flush-Covers :
    (cur : Text) (st : ℕ) (b : Bool) (i : ℕ) {ts : List QueryToken} {rest : Text}
    → Held cur st b i
    → Covers i ts rest
    → Covers (origin cur st i) (flush (scanner cur st b) ++ ts) (cur ++ rest)
unfolding flush
flush-Covers [] st b i held cover = cover
flush-Covers (c ∷ cs) st b i (place, _, _, uniform) cover = piece (c ∷ cs) uniform (rw place cover)

parenthesis-piece :
    (c i : ℕ) {ts : List QueryToken} {rest : Text}
    → is_parenthesis c ≡ true
    → Covers (i + 1) ts rest
    → Covers i (parenthesis c i ∷ ts) (c ∷ rest)
parenthesis-piece c i paren cover = elim (Bool-cases (c == b'(')) [
  | inl is_open ↦
      let e : c ≡ b'(' = (==_iff c b'(').0 is_open in
      rw e (unfold categorize_token in piece (b'(' ∷ []) refl cover)
  | inr other ↦
      let e : c ≡ b')' = ground (arith, ==_iff c b')') in
      rw e (unfold categorize_token in piece (b')' ∷ []) refl cover)
]

all-snoc :
    (p : ℕ → Bool) (cs : Text) (d : ℕ)
    → all p cs ≡ true
    → p d ≡ true
    → all p (cs ++ (d ∷ [])) ≡ true
all-snoc p [] d h pd = rw pd
all-snoc p (c ∷ cs) d h pd = ground (arith, all-snoc p cs d (ground arith) pd)

longer-Held :
    (c d st i : ℕ) (cs : Text) (b : Bool)
    → Held (c ∷ cs) st b i
    → is_parenthesis d ≡ false
    → same_bool b (d == b' ') ≡ true
    → Held (c ∷ cs ++ (d ∷ [])) st b (i + 1)
longer-Held c d st i cs b (place, plain, blank, uniform) paren alike = (
  omega (arith, length-append cs (d ∷ [])),
  plain,
  blank,
  rw plain (all-snoc _ cs d (rw plain at uniform) (rw (paren, ← blank) alike)),
)

scan-Covers :
    (cur : Text) (st : ℕ) (b : Bool) (i : ℕ) (input : Text)
    → Held cur st b i
    → Covers (origin cur st i) (scan (scanner cur st b) i input) (cur ++ input)
unfolding scan
scan-Covers cur st b i [] held = rw append-nil at (flush-Covers cur st b i held (done {i = i}))
scan-Covers [] st b i (c ∷ input) held = elim (Bool-cases (is_parenthesis c)) [
  | inl paren ↦ rw paren (parenthesis-piece c i paren (scan-Covers [] (i + 1) b (i + 1) input tt))
  | inr plain ↦
      rw plain (scan-Covers (c ∷ []) i (c == b' ') (i + 1) input (refl, plain, refl, rw plain refl))
]
scan-Covers (k ∷ ks) st b i (c ∷ input) held = elim (Bool-cases (is_parenthesis c)) [
  | inl paren ↦ rw paren (
      flush-Covers (k ∷ ks) st b i held
        (parenthesis-piece c i paren (scan-Covers [] (i + 1) b (i + 1) input tt)))
  | inr plain ↦ elim (Bool-cases (same_bool b (c == b' '))) [
    | inl alike ↦
        let more =
          scan-Covers (k ∷ ks ++ (c ∷ [])) st b (i + 1) input
            (longer-Held k c st i ks b held plain alike) in
        rw (plain, alike) (rw append_assoc at more)
    | inr differ ↦
        rw (plain, differ)
          (flush-Covers (k ∷ ks) st b i held
            (scan-Covers (c ∷ []) i (c == b' ') (i + 1) input (refl, plain, refl, rw plain refl)))
  ]
]

-- The tokens of a text stand one behind the other from its start to its end, and together they are
-- the text. Each is a parenthesis, a run of spaces, or a run of characters that are neither, and each
-- has the type of its text.
pub tokenize_input-Covers : (input : Text) → Covers 0 (tokenize_input input) input
unfolding tokenize_input
tokenize_input-Covers input = scan-Covers [] 0 false 0 input tt
