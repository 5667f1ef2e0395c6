-- ===== src/Inflection/Upos/Shape.antt =====
-- What `convertUpos` can return.
use morcus_net.Prelude.{
  ◌≡◌, ◌≢◌, inl, inr, refl, subst, arith, Option, none, some, List, [], ◌∷◌, Bool, Bool-cases, true,
  false, ◌&&◌, ◌||◌, if◌then◌else◌, Result, ok, err, ◌>>=◌, String, Text, codes, text_eq_sound,
  has_char, trim, split,
}
use morcus_net.Inflection.Types.{
  DataField, undefined, single, multiple, WordInflectionData, LatinTense, present, imperfect,
  perfect, future_perfect, future, pluperfect,
}
use morcus_net.Inflection.Upos.{
  UposError, is_text, is_ignored, case_of, number_of, gender_of, person_of, voice_of, verb_form_of,
  mood_of, tense_of, degree_of, set_or_throw, change_or_throw, Change, set_to, keep, bad, Upos,
  switch_key, read_pair, read_parts, note_texts, split_pair, settle, set_tense, both_are, no_upos,
  convert_upos, is_empty,
}

-- At most one value.
abbrev pub AtMostOne : {A : Type 0} → DataField A → Type 0
AtMostOne undefined = Unit
AtMostOne (single a) = Unit
AtMostOne (multiple as') = ⊥

-- A tense that the result can have.
abbrev pub IsUposTense : DataField LatinTense → Type 0
IsUposTense undefined = Unit
IsUposTense (single present) = Unit
IsUposTense (single imperfect) = Unit
IsUposTense (single perfect) = ⊥
IsUposTense (single future_perfect) = ⊥
IsUposTense (single future) = Unit
IsUposTense (single pluperfect) = Unit
IsUposTense (multiple ts) = ⊥

-- The loop does not stay with a tense `Future`, which its `switch` refuses.
abbrev NotFuture : Option Text → Type 0
NotFuture none = Unit
NotFuture (some t) = is_text t "Future" ≡ false

pub record IsUposData (d : WordInflectionData) : Type 0 where
  pub case : AtMostOne d.case
  pub number : AtMostOne d.number
  pub gender : AtMostOne d.gender
  pub person : AtMostOne d.person
  pub voice : AtMostOne d.voice
  pub mood : AtMostOne d.mood
  pub tense : IsUposTense d.tense
  pub degree : AtMostOne d.degree

record IsRead (s : Upos) : Type 0 where
  shape : IsUposData s.result
  text : NotFuture s.tense

tense_of-IsUposTense :
    (value : Text) (t : LatinTense) → tense_of value ≡ set_to t → IsUposTense (single t)
unfolding tense_of
tense_of-IsUposTense value t h = ground arith

is_text_sound : (s : Text) (l : String) → is_text s l ≡ true → s ≡ codes l
unfolding is_text
is_text_sound s l h = text_eq_sound s (codes l) h

-- The `switch` on the tense throws at `Future`.
tense_of-Future : tense_of (codes "Future") ≡ bad
unfolding tense_of
tense_of-Future = refl

tense_of-not_future : (value : Text) → tense_of value ≢ bad → is_text value "Future" ≡ false
tense_of-not_future value h = elim (Bool-cases (is_text value "Future")) [
  | inl is_future ↦ absurd (h (rw (is_text_sound value "Future" is_future) tense_of-Future))
  | inr other ↦ other
]

-- What holds of a successful result.
abbrev Ensures : Upos → Result UposError Upos → Type 0
Ensures s (ok t) = IsUposData t.result × (t.tense ≡ s.tense)
Ensures s (err e) = Unit

Ensures-if :
    (s : Upos) (b : Bool) (x y : Result UposError Upos)
    → Ensures s x
    → Ensures s y
    → Ensures s (if b then x else y)
Ensures-if s true x y p q = p
Ensures-if s false x y p q = q

Ensures-set :
    {A : Type 0} (s : Upos) (o : Option A) (k : A → Result UposError Upos)
    → ((a : A) → Ensures s (k a))
    → Ensures s (set_or_throw o k)
Ensures-set s none k h = tt
Ensures-set s (some a) k h = h a

Ensures-change :
    {A : Type 0} (s : Upos) (c : Change A) (k : A → Result UposError Upos)
    → IsUposData s.result
    → ((a : A) → c ≡ set_to a → Ensures s (k a))
    → Ensures s (change_or_throw s c k)
Ensures-change s (set_to a) k h f = f a refl
Ensures-change s keep k h f = (h, refl)
Ensures-change s bad k h f = tt

switch_key-Ensures :
    (s : Upos) (key value : Text) → IsUposData s.result → Ensures s (switch_key s key value)
unfolding switch_key
switch_key-Ensures s key value h =
    Ensures-if s (is_ignored key) _ _ (h, refl)
      (Ensures-if s (is_text key "Case") _ _
        (Ensures-set s (case_of value) _ (λ x. (
          record {
            case = tt;
            number = h.number;
            gender = h.gender;
            person = h.person;
            voice = h.voice;
            mood = h.mood;
            tense = h.tense;
            degree = h.degree;
          },
          refl,
        )))
        (Ensures-if s (is_text key "Number") _ _
          (Ensures-set s (number_of value) _ (λ x. (
            record {
              case = h.case;
              number = tt;
              gender = h.gender;
              person = h.person;
              voice = h.voice;
              mood = h.mood;
              tense = h.tense;
              degree = h.degree;
            },
            refl,
          )))
          (Ensures-if s (is_text key "Gender") _ _
            (Ensures-set s (gender_of value) _ (λ x. (
              record {
                case = h.case;
                number = h.number;
                gender = tt;
                person = h.person;
                voice = h.voice;
                mood = h.mood;
                tense = h.tense;
                degree = h.degree;
              },
              refl,
            )))
            (Ensures-if s (is_text key "Person") _ _
              (Ensures-set s (person_of value) _ (λ x. (
                record {
                  case = h.case;
                  number = h.number;
                  gender = h.gender;
                  person = tt;
                  voice = h.voice;
                  mood = h.mood;
                  tense = h.tense;
                  degree = h.degree;
                },
                refl,
              )))
              (Ensures-if s (is_text key "Voice") _ _
                (Ensures-set s (voice_of value) _ (λ x. (
                  record {
                    case = h.case;
                    number = h.number;
                    gender = h.gender;
                    person = h.person;
                    voice = tt;
                    mood = h.mood;
                    tense = h.tense;
                    degree = h.degree;
                  },
                  refl,
                )))
                (Ensures-if s (is_text key "VerbForm") _ _
                  (Ensures-change s (verb_form_of value) _ h (λ x e. (
                    record {
                      case = h.case;
                      number = h.number;
                      gender = h.gender;
                      person = h.person;
                      voice = h.voice;
                      mood = tt;
                      tense = h.tense;
                      degree = h.degree;
                    },
                    refl,
                  )))
                  (Ensures-if s (is_text key "Mood") _ _
                    (Ensures-set s (mood_of value) _ (λ x. (
                      record {
                        case = h.case;
                        number = h.number;
                        gender = h.gender;
                        person = h.person;
                        voice = h.voice;
                        mood = tt;
                        tense = h.tense;
                        degree = h.degree;
                      },
                      refl,
                    )))
                    (Ensures-if s (is_text key "Tense") _ _
                      (Ensures-change s (tense_of value) _ h (λ x e. (
                        record {
                          case = h.case;
                          number = h.number;
                          gender = h.gender;
                          person = h.person;
                          voice = h.voice;
                          mood = h.mood;
                          tense = tense_of-IsUposTense value x e;
                          degree = h.degree;
                        },
                        refl,
                      )))
                      (Ensures-if s (is_text key "Degree") _ _
                        (Ensures-change s (degree_of value) _ h (λ x e. (
                          record {
                            case = h.case;
                            number = h.number;
                            gender = h.gender;
                            person = h.person;
                            voice = h.voice;
                            mood = h.mood;
                            tense = h.tense;
                            degree = tt;
                          },
                          refl,
                        )))
                        tt)))))))))

-- A text for the tense that is recorded and accepted is not `Future`.
switch_key-tense :
    (s t : Upos) (value : Text)
    → switch_key s (codes "Tense") value ≡ ok t
    → is_text value "Future" ≡ false
unfolding switch_key is_text is_ignored
switch_key-tense s t value e =
    tense_of-not_future value (λ refused. cc (rw (refused, change_or_throw) at e))

ok-eq : {s t : Upos} → ◌≡◌ {A = Result UposError Upos} (ok s) (ok t) → s ≡ t
ok-eq p = cc

read_pair-IsRead :
    (s t : Upos) (key : Text) (value : Option Text)
    → IsRead s
    → read_pair s key value ≡ ok t
    → IsRead t
unfolding read_pair
read_pair-IsRead s t key none h e = rw (← ok-eq e) h
read_pair-IsRead s t key (some value) h e = elim (Bool-cases (is_empty key || is_empty value)) [
  | inl skip ↦ rw (← ok-eq (rw skip at e)) h
  | inr full ↦ elim (Bool-cases (has_char b'[' key && has_char b']' key)) [
    | inl layered ↦ rw (← ok-eq (rw (full, layered) at e)) h
    | inr plain ↦
        let e' : switch_key (note_texts s key value) key value ≡ ok t = rw (full, plain) at e in
        let (shape, text) =
          subst (Ensures (note_texts s key value)) e'
            (switch_key-Ensures (note_texts s key value) key value h.shape) in
        elim (Bool-cases (is_text key "Tense")) [
          | inl is_tense ↦
              let key_is : key ≡ codes "Tense" = is_text_sound key "Tense" is_tense in
              let accepted : is_text value "Future" ≡ false =
                switch_key-tense (note_texts s key value) t value
                  (subst (λ k. switch_key (note_texts s key value) k value ≡ ok t) key_is e') in
              record { shape = shape; text = rw (text, is_tense) accepted }
          | inr other ↦ record { shape = shape; text = rw (text, other) h.text }
        ]
  ]
]

bind-eq-ok :
    (r : Result UposError Upos) (f : Upos → Result UposError Upos) {t : Upos}
    → (r >>= f) ≡ ok t
    → (u : Upos) × (r ≡ ok u) × (f u ≡ ok t)
bind-eq-ok (ok u) f e = (u, refl, e)
bind-eq-ok (err x) f e = cc

read_parts-IsRead :
    (s t : Upos) (parts : List Text) → IsRead s → read_parts s parts ≡ ok t → IsRead t
unfolding read_parts
read_parts-IsRead s t [] h e = rw (← ok-eq e) h
read_parts-IsRead s t ([] ∷ parts) h e = read_parts-IsRead s t parts h e
read_parts-IsRead s t ((c ∷ part) ∷ parts) h e =
    let (u, first_ok, rest_ok) =
      bind-eq-ok (read_pair s (split_pair (c ∷ part)).0 (split_pair (c ∷ part)).1) _ e in
    read_parts-IsRead u t parts
      (read_pair-IsRead s u (split_pair (c ∷ part)).0 (split_pair (c ∷ part)).1 h first_ok) rest_ok

both_are-Future : (t a : Option Text) → NotFuture t → both_are t a "Future" "Perf" ≡ false
both_are-Future none a h = refl
both_are-Future (some t) none h = refl
both_are-Future (some t) (some a) h = rw h

set_tense-IsUposData :
    (b : Bool) (t : LatinTense) (d : WordInflectionData)
    → IsUposTense (single t)
    → IsUposData d
    → IsUposData (set_tense b t d)
set_tense-IsUposData false t d ok_tense h = h
set_tense-IsUposData true t d ok_tense h = record {
  case = h.case;
  number = h.number;
  gender = h.gender;
  person = h.person;
  voice = h.voice;
  mood = h.mood;
  tense = ok_tense;
  degree = h.degree;
}

settle-IsUposData : (s : Upos) → IsRead s → IsUposData (settle s)
unfolding settle
settle-IsUposData s h =
    rw (both_are-Future s.tense s.aspect h.text)
      (set_tense-IsUposData _ imperfect _ tt (set_tense-IsUposData _ pluperfect _ tt h.shape))

ok-eq_data :
    {c d : WordInflectionData} → ◌≡◌ {A = Result UposError WordInflectionData} (ok c) (ok d) → c ≡ d
ok-eq_data p = cc

no_upos-IsRead : IsRead no_upos
no_upos-IsRead = record {
  shape = record {
    case = tt;
    number = tt;
    gender = tt;
    person = tt;
    voice = tt;
    mood = tt;
    tense = tt;
    degree = tt;
  };
  text = tt;
}

-- Whatever the tag, a result has at most one value in each field, and its tense is neither the future
-- perfect nor the perfect.
pub convert_upos-IsUposData :
    (upos : Text) (d : WordInflectionData) → convert_upos upos ≡ ok d → IsUposData d
unfolding convert_upos
convert_upos-IsUposData upos d e = finish (read_parts no_upos (split b'|' (trim upos))) refl e
  where
    finish :
        (r : Result UposError Upos)
        → read_parts no_upos (split b'|' (trim upos)) ≡ r
        → (r >>= λ s. ok (settle s)) ≡ ok d
        → IsUposData d
    finish (ok s) read same = subst IsUposData (ok-eq_data same) (
        settle-IsUposData s
          (read_parts-IsRead no_upos s (split b'|' (trim upos)) no_upos-IsRead read))
    finish (err x) read same = cc
