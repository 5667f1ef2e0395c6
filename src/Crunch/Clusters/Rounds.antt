-- ===== src/Crunch/Clusters/Rounds.antt =====
-- What the loop of `consolidateResultCluster` leaves: results that do not include each other, which
-- cover all that it started with.
use morcus_net.Prelude.{
  ℕ, zero, suc, ◌+◌, ◌<◌, ◌≤◌, ◌==◌, ==_iff, ◌≡◌, ◌⊎◌, inl, inr, refl, sym, ap, subst, arith,
  Option, none, some, List, [], ◌∷◌, ◌++◌, All, All-append, Bool, Bool-cases, true, false, length,
  length-append, Memᴰ,
}
use mathlib.Core.List.Memᴰ.{head, tail, append_left, append_right, append_cases}
use morcus_net.Inflection.Types.{WordInflectionData}
use morcus_net.Inflection.Fields.{Comparison, less, equal, more}
use morcus_net.Inflection.Compare.{
  compare_grammatical_data, compare_grammatical_data-Says, Says, IsPart,
}
use morcus_net.Crunch.Types.{CrunchResult}
use morcus_net.Crunch.Clusters.{data_of, absorb_one, absorb, push_unless, one_round, merge_subsets}

pub IsPart-self : (a : WordInflectionData) → IsPart a a
IsPart-self a = record {
  case = λ v m. m;
  degree = λ v m. m;
  gender = λ v m. m;
  mood = λ v m. m;
  number = λ v m. m;
  person = λ v m. m;
  tense = λ v m. m;
  voice = λ v m. m;
}

pub IsPart-trans : {a b c : WordInflectionData} → IsPart a b → IsPart b c → IsPart a c
IsPart-trans p q = record {
  case = λ v m. q.case v (p.case v m);
  degree = λ v m. q.degree v (p.degree v m);
  gender = λ v m. q.gender v (p.gender v m);
  mood = λ v m. q.mood v (p.mood v m);
  number = λ v m. q.number v (p.number v m);
  person = λ v m. q.person v (p.person v m);
  tense = λ v m. q.tense v (p.tense v m);
  voice = λ v m. q.voice v (p.voice v m);
}

-- Neither result has all values of the other.
abbrev pub Apart : CrunchResult → CrunchResult → Type 0
Apart r k = ¬ IsPart (data_of r) (data_of k) × ¬ IsPart (data_of k) (data_of r)

-- Any two results of the list are apart.
abbrev pub AreApart : List CrunchResult → Type 0
AreApart [] = Unit
AreApart (k ∷ ks) = All (λ r. Apart r k) ks × AreApart ks

-- Some result of the list has all values of the first.
abbrev pub Covers : List CrunchResult → CrunchResult → Type 0
Covers ks r = (k : CrunchResult) × Memᴰ k ks × IsPart (data_of r) (data_of k)

pub Covers-mem : (ks : List CrunchResult) (r : CrunchResult) → Memᴰ r ks → Covers ks r
Covers-mem ks r m = (r, m, IsPart-self (data_of r))

-- Lists of which the second covers what is in the first.
pub Covers-trans :
    (ks ls : List CrunchResult) (r : CrunchResult)
    → ((k : CrunchResult) → Memᴰ k ks → Covers ls k)
    → Covers ks r
    → Covers ls r
Covers-trans ks ls r h (k, mk, part) =
    let (l, ml, part') = h k mk in (l, ml, IsPart-trans part part')

Covers-cons :
    (k : CrunchResult) (ks : List CrunchResult) (r : CrunchResult) → Covers ks r → Covers (k ∷ ks) r
Covers-cons k ks r (l, ml, part) = (l, tail ml, part)

-- What is known of a list that a result has been compared with.
record Absorbed (r : CrunchResult) (ks : List CrunchResult) (out : Bool × List CrunchResult)
    : Type 0 where
  same_length : length out.1 ≡ length ks
  left_alone : out.0 ≡ false → (out.1 ≡ ks) × All (λ k. Apart r k) ks
  covered : (k : CrunchResult) → Memᴰ k ks → Covers out.1 k
  consumed : out.0 ≡ true → Covers out.1 r
  known : (k : CrunchResult) → Memᴰ k out.1 → (k ≡ r) ⊎ Memᴰ k ks

-- A list stays covered behind a result that has all values of the one in front of it.
covered_behind :
    (r k new : CrunchResult) (ks : List CrunchResult) (out : Bool × List CrunchResult)
    → IsPart (data_of k) (data_of new)
    → Absorbed r ks out
    → (k' : CrunchResult) → Memᴰ k' (k ∷ ks)
    → Covers (new ∷ out.1) k'
covered_behind r k new ks out part h k' (head p) =
    (new, head refl, subst (λ q. IsPart (data_of q) (data_of new)) (sym p) part)
covered_behind r k new ks out part h k' (tail m) = Covers-cons new out.1 k' (h.covered k' m)

known_behind :
    (r k k' : CrunchResult) (ks : List CrunchResult) (out : Bool × List CrunchResult)
    → Absorbed r ks out
    → Memᴰ k' out.1
    → (k' ≡ r) ⊎ Memᴰ k' (k ∷ ks)
known_behind r k k' ks out h m = elim (h.known k' m) [
  | inl same ↦ inl same
  | inr m' ↦ inr (tail m')
]

-- One more comparison, whose result is an argument.
absorb_one-Absorbed :
    (r k : CrunchResult) (ks : List CrunchResult) (c : Option Comparison)
    (out : Bool × List CrunchResult)
    → Says (data_of r) (data_of k) c
    → Absorbed r ks out
    → Absorbed r (k ∷ ks) (absorb_one r k c out)
absorb_one-Absorbed r k ks none (b, out) says h = record {
  same_length = ap suc h.same_length;
  left_alone =
      λ alone. let (same, apart) = h.left_alone alone in (ap (λ l. k ∷ l) same, (says, apart));
  covered = covered_behind r k k ks (b, out) (IsPart-self (data_of k)) h;
  consumed = λ was. Covers-cons k out r (h.consumed was);
  known = λ k' m. elim m [ head p ↦ inr (head p) | tail m' ↦ known_behind r k k' ks (b, out) h m' ];
}
absorb_one-Absorbed r k ks (some more) (b, out) says h = record {
  same_length = ap suc h.same_length;
  left_alone = λ alone. cc;
  covered = covered_behind r k r ks (b, out) says.1 h;
  consumed = λ was. (r, head refl, IsPart-self (data_of r));
  known = λ k' m. elim m [ head p ↦ inl p | tail m' ↦ known_behind r k k' ks (b, out) h m' ];
}
absorb_one-Absorbed r k ks (some less) (b, out) says h = record {
  same_length = ap suc h.same_length;
  left_alone = λ alone. cc;
  covered = covered_behind r k k ks (b, out) (IsPart-self (data_of k)) h;
  consumed = λ was. (k, head refl, says.0);
  known = λ k' m. elim m [ head p ↦ inr (head p) | tail m' ↦ known_behind r k k' ks (b, out) h m' ];
}
absorb_one-Absorbed r k ks (some equal) (b, out) says h = record {
  same_length = ap suc h.same_length;
  left_alone = λ alone. cc;
  covered = covered_behind r k k ks (b, out) (IsPart-self (data_of k)) h;
  consumed = λ was. (k, head refl, says.0);
  known = λ k' m. elim m [ head p ↦ inr (head p) | tail m' ↦ known_behind r k k' ks (b, out) h m' ];
}

absorb-Absorbed : (r : CrunchResult) (ks : List CrunchResult) → Absorbed r ks (absorb r ks)
unfolding absorb
absorb-Absorbed r [] = record {
  same_length = refl;
  left_alone = λ alone. (refl, tt);
  covered = λ k m. elim m [ ];
  consumed = λ was. cc;
  known = λ k m. elim m [ ];
}
absorb-Absorbed r (k ∷ ks) =
    absorb_one-Absorbed r k ks (compare_grammatical_data (data_of r) (data_of k)) (absorb r ks)
      (compare_grammatical_data-Says (data_of r) (data_of k)) (absorb-Absorbed r ks)

AreApart-push :
    (r : CrunchResult) (ks : List CrunchResult)
    → All (λ k. Apart r k) ks
    → AreApart ks
    → AreApart (ks ++ (r ∷ []))
AreApart-push r [] h apart = (tt, tt)
AreApart-push r (k ∷ ks) (here, below) (first, apart) =
    (All-append (λ q. Apart q k) ks (r ∷ []) first (here, tt), AreApart-push r ks below apart)

-- A round that starts with consolidated results.
record Round (acc rs out : List CrunchResult) : Type 0 where
  bounded : length out ≤ length acc + length rs
  apart : length out ≡ length acc + length rs → AreApart acc → AreApart out
  covered : (k : CrunchResult) → Memᴰ k acc ⊎ Memᴰ k rs → Covers out k
  known : (k : CrunchResult) → Memᴰ k out → Memᴰ k acc ⊎ Memᴰ k rs

-- The round behind the first result, by whether that is consumed.
Absorbed-Round :
    (acc rs : List CrunchResult) (r : CrunchResult) (b : Bool) (ks out : List CrunchResult)
    → Absorbed r acc (b, ks)
    → Round (push_unless b r ks) rs out
    → Round acc (r ∷ rs) out
Absorbed-Round acc rs r true ks out a h = record {
  bounded = omega (arith, h.bounded, a.same_length);
  apart = λ full. absurd (omega (arith, h.bounded, a.same_length, full));
  covered = λ k m. elim m [
    | inl in_acc ↦ Covers-trans ks out k (λ q mq. h.covered q (inl mq)) (a.covered k in_acc)
    | inr in_rest ↦ elim in_rest [
      | head p ↦
          Covers-trans ks out k (λ q mq. h.covered q (inl mq))
            (subst (λ q. Covers ks q) (sym p) (a.consumed refl))
      | tail m' ↦ h.covered k (inr m')
    ]
  ];
  known = λ k m. elim (h.known k m) [
    | inl in_ks ↦ elim (a.known k in_ks) [ inl p ↦ inr (head p) | inr m' ↦ inl m' ]
    | inr m' ↦ inr (tail m')
  ];
}
Absorbed-Round acc rs r false ks out a h =
    let (same, alone) = a.left_alone refl in
    let size : length (ks ++ (r ∷ [])) ≡ suc (length ks) =
      omega (arith, length-append ks (r ∷ [])) in
    record {
      bounded = omega (arith, h.bounded, a.same_length, size);
      apart = λ full apart.
          h.apart (omega (arith, full, size, a.same_length))
            (rw same (AreApart-push r acc alone apart));
      covered = λ k m. elim m [
        | inl in_acc ↦
            Covers-trans ks out k (λ q mq. h.covered q (inl (append_left (r ∷ []) mq)))
              (a.covered k in_acc)
        | inr in_rest ↦ elim in_rest [
          | head p ↦ h.covered k (inl (append_right ks (head p)))
          | tail m' ↦ h.covered k (inr m')
        ]
      ];
      known = λ k m. elim (h.known k m) [
        | inl in_pushed ↦ elim (append_cases ks in_pushed) [
          | inl in_ks ↦ elim (a.known k in_ks) [ inl p ↦ inr (head p) | inr m' ↦ inl m' ]
          | inr last ↦ elim last [ head p ↦ inr (head p) | tail m' ↦ elim m' [ ] ]
        ]
        | inr m' ↦ inr (tail m')
      ];
    }

one_round-Round : (acc rs : List CrunchResult) → Round acc rs (one_round acc rs)
unfolding one_round
one_round-Round acc [] = record {
  bounded = omega arith;
  apart = λ full h. h;
  covered =
      λ k m. elim m [ inl in_acc ↦ Covers-mem acc k in_acc | inr none_left ↦ elim none_left [ ] ];
  known = λ k m. inl m;
}
one_round-Round acc (r ∷ rs) =
    Absorbed-Round acc rs r (absorb r acc).0 (absorb r acc).1 (one_round acc (r ∷ rs))
      (absorb-Absorbed r acc) (one_round-Round (push_unless (absorb r acc).0 r (absorb r acc).1) rs)

-- What the loop gives for a cluster: results of the cluster that are apart, and cover all of it.
pub record AreMerged (cluster rs : List CrunchResult) : Type 0 where
  pub apart : AreApart rs
  pub covered : (r : CrunchResult) → Memᴰ r cluster → Covers rs r
  pub known : (r : CrunchResult) → Memᴰ r rs → Memᴰ r cluster

from_either : {P : Type 0} {r : CrunchResult} → Memᴰ r [] ⊎ P → P
from_either (inl m) = elim m [ ]
from_either (inr p) = p

-- The loop ends behind at most as many rounds as there are results.
pub merge_subsets-AreMerged :
    (fuel : ℕ) (cluster : List CrunchResult)
    → length cluster < fuel
    → (rs : List CrunchResult) × (merge_subsets fuel cluster ≡ some rs) × AreMerged cluster rs
unfolding merge_subsets
merge_subsets-AreMerged zero cluster h = absurd (omega arith)
merge_subsets-AreMerged (suc fuel) cluster h =
    let once = one_round [] cluster in
    let round = one_round-Round [] cluster in
    elim (Bool-cases (length cluster == length once)) [
      | inl done ↦
          let full : length once ≡ 0 + length cluster =
            omega (arith, (==_iff (length cluster) (length once)).0 done) in
          (
            once,
            rw done refl,
            record {
              apart = round.apart full tt;
              covered = λ r m. round.covered r (inr m);
              known = λ r m. from_either (round.known r m);
            },
          )
      | inr shrunk ↦
          let smaller : length once < fuel = ground (arith, round.bounded) in
          let (rs, e, h') = merge_subsets-AreMerged fuel once smaller in
          (
            rs,
            rw shrunk e,
            record {
              apart = h'.apart;
              covered = λ r m. Covers-trans once rs r h'.covered (round.covered r (inr m));
              known = λ r m. from_either (round.known r (h'.known r m));
            },
          )
    ]
