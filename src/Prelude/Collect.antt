-- ===== src/Prelude/Collect.antt =====
-- Loops that push the results of each round, any of which may throw.
use mathlib.Core.Path.{◌≡◌, refl, sym, ap, ◌∙◌, subst}
use mathlib.Core.Logic.{inl, inr}
use mathlib.Core.List.{List, [], ◌∷◌, ◌++◌, Memᴰ}
use mathlib.Core.List.Memᴰ.{head, tail, append_left, append_right, append_cases, cases_cons}
use morcus_net.Prelude.Results.{Result, ok, ◌>>=◌, ok-injective, bind-eq-ok}

-- `for (const x of xs) results.push(...f(x))`.
unfoldable pub collect : {E A B : Type 0} → (A → Result E (List B)) → List A → Result E (List B)
collect f [] = ok []
collect f (x ∷ xs) = do here ← f x; rest ← collect f xs; ok (here ++ rest)

module _ {E A B : Type 0} (f : A → Result E (List B)) where
  -- Each result of the loop is one of some round.
  pub collect-from :
      (xs : List A) {ys : List B} {b : B}
      → collect f xs ≡ ok ys
      → Memᴰ b ys
      → (x : A) × Memᴰ x xs × ((zs : List B) × (f x ≡ ok zs) × Memᴰ b zs)
  unfolding collect
  collect-from [] {ys} {b} e m = elim (subst (λ l. Memᴰ b l) (sym (ok-injective e)) m) [ ]
  collect-from (x ∷ xs) {ys} {b} e m =
      let (here, fx, more) = bind-eq-ok (f x) _ e in
      let (rest, below, done) = bind-eq-ok (collect f xs) _ more in
      let m' : Memᴰ b (here ++ rest) = subst (λ l. Memᴰ b l) (sym (ok-injective done)) m in
      elim (append_cases here m') [
        | inl in_here ↦ (x, head refl, (here, fx, in_here))
        | inr in_rest ↦ let (y, my, found) = collect-from xs below in_rest in (y, tail my, found)
      ]

  -- Each result of a round is one of the loop.
  pub collect-to :
      (xs : List A) {ys zs : List B} {b : B} {a : A}
      → collect f xs ≡ ok ys
      → Memᴰ a xs
      → f a ≡ ok zs
      → Memᴰ b zs
      → Memᴰ b ys
  unfolding collect
  collect-to [] e m fa mb = elim m [ ]
  collect-to (x ∷ xs) {ys} {zs} {b} {a} e m fa mb =
      let (here, fx, more) = bind-eq-ok (f x) _ e in
      let (rest, below, done) = bind-eq-ok (collect f xs) _ more in
      subst (λ l. Memᴰ b l) (ok-injective done)
        (elim (cases_cons m) [
          | inl same ↦
              let zs_is : zs ≡ here = ok-injective (sym fa ∙ ap f same ∙ fx) in
              append_left rest (subst (λ l. Memᴰ b l) zs_is mb)
          | inr m' ↦ append_right here (collect-to xs below m' fa mb)
        ])

  -- The loop does not throw if no round does.
  pub collect_ok :
      (xs : List A)
      → ((x : A) → Memᴰ x xs → (ys : List B) × (f x ≡ ok ys))
      → (ys : List B) × (collect f xs ≡ ok ys)
  unfolding collect
  collect_ok [] h = ([], refl)
  collect_ok (x ∷ xs) h =
      let (here, fx) = h x (head refl) in
      let (rest, below) = collect_ok xs (λ y m. h y (tail m)) in (here ++ rest, rw (fx, below))
