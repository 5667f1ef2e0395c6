-- ===== src/Prelude/Splits.antt =====
-- `s.split(sep)` and `parts.join(sep)` for a separator of one code unit.
use Prim.Native.Nat.{ℕ}
use mathlib.Core.Path.{◌≡◌, refl, sym, ap, ◌∙◌}
use mathlib.Core.Bool.{false}
use mathlib.Core.List.{List, [], ◌∷◌, ◌++◌, reverse, reverse_aux, append_assoc, append-nil}
use native.Mathlib.Omega.{arith}
use morcus_net.Prelude.Tests.{◌==◌, eq_self}
use morcus_net.Prelude.Lists.{All}
use morcus_net.Prelude.Texts.{Text, has_char, split, split_from}

-- `parts.join(sep)`.
abbrev pub join : ℕ → List Text → Text
join sep [] = []
join sep (p ∷ []) = p
join sep (p ∷ q ∷ ps) = p ++ (sep ∷ join sep (q ∷ ps))

reverse_aux-append : (s t : Text) → reverse_aux s t ≡ reverse s ++ t
reverse_aux-append [] t = refl
reverse_aux-append (c ∷ s) t =
    reverse_aux-append s (c ∷ t)
    ∙ sym (append_assoc (reverse s) (c ∷ []) t)
    ∙ ap (λ r. r ++ t) (sym (reverse_aux-append s (c ∷ [])))

pub reverse_append : (cur p : Text) (c : ℕ) → reverse (c ∷ cur) ++ p ≡ reverse cur ++ (c ∷ p)
reverse_append cur p c =
    rw (reverse_aux-append cur (c ∷ [])) (append_assoc (reverse cur) (c ∷ []) p)

split_from-piece :
    (sep : ℕ) (cur p s : Text)
    → has_char sep p ≡ false
    → split_from sep cur (p ++ (sep ∷ s)) ≡ (reverse cur ++ p) ∷ split_from sep [] s
split_from-piece sep cur [] s h = rw (eq_self sep, append-nil)
split_from-piece sep cur (c ∷ p) s h =
    let other : (c == sep) ≡ false = ground arith in
    rw (other, split_from-piece sep (c ∷ cur) p s (ground arith), reverse_append cur p c)

split_from-last :
    (sep : ℕ) (cur p : Text)
    → has_char sep p ≡ false
    → split_from sep cur p ≡ (reverse cur ++ p) ∷ []
split_from-last sep cur [] h = rw append-nil
split_from-last sep cur (c ∷ p) h =
    let other : (c == sep) ≡ false = ground arith in
    rw (other, split_from-last sep (c ∷ cur) p (ground arith), reverse_append cur p c)

-- Pieces without the separator are split from the text that they are joined to.
pub split-join :
    (sep : ℕ) (p : Text) (ps : List Text)
    → All (λ t. has_char sep t ≡ false) (p ∷ ps)
    → split sep (join sep (p ∷ ps)) ≡ p ∷ ps
split-join sep p [] h = split_from-last sep [] p h.0
split-join sep p (q ∷ ps) h =
    split_from-piece sep [] p (join sep (q ∷ ps)) h.0 ∙ ap (λ r. p ∷ r) (split-join sep q ps h.1)
