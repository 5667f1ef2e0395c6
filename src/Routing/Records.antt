-- ===== src/Routing/Records.antt =====
-- Objects that are used as maps from names to texts, as association lists. A key that is missing and
-- one whose value is `undefined` are both read as `none`.
use morcus_net.Prelude.{
  ◌≡◌, refl, sym, ◌∙◌, inl, inr, Bool, Bool-cases, true, false, Option, none, some, List, [], ◌∷◌,
  if◌then◌else◌, Text, text_eq, text_eq_sound, text_eq_self,
}

abbrev pub Record : Type 0
Record = List (Text × Option Text)

-- `record[key]`.
unfoldable pub get : Text → Record → Option Text
get key [] = none
get key ((k, v) ∷ r) = if text_eq k key then v else get key r

-- `record[key] = value`: in place, or behind the other keys.
unfoldable pub put : Text → Text → Record → Record
put key value [] = (key, some value) ∷ []
put key value ((k, v) ∷ r) = if text_eq k key then (k, some value) ∷ r else (k, v) ∷ put key value r

-- `delete record[key]`.
unfoldable pub delete : Text → Record → Record
delete key [] = []
delete key ((k, v) ∷ r) = if text_eq k key then delete key r else (k, v) ∷ delete key r

-- Whether a value is present under some key.
unfoldable pub has_value : Record → Bool
has_value [] = false
has_value ((k, some v) ∷ r) = true
has_value ((k, none) ∷ r) = has_value r

pub get-put :
    (key q : Text) (value : Text) (r : Record)
    → get q (put key value r) ≡ (if text_eq key q then some value else get q r)
unfolding get put
get-put key q value [] = refl
get-put key q value ((k, v) ∷ r) = elim (Bool-cases (text_eq k key)) [
  | inl here ↦
      let same : k ≡ key = text_eq_sound k key here in
      rw here (rw same (elim (Bool-cases (text_eq key q)) [ inl e ↦ rw e | inr e ↦ rw e ]))
  | inr other ↦
      rw (other, get-put key q value r)
        (elim (Bool-cases (text_eq k q)) [
          | inr there ↦ rw there
          | inl there ↦
              let k_is : k ≡ q = text_eq_sound k q there in
              elim (Bool-cases (text_eq key q)) [
                | inr e ↦ rw (there, e)
                | inl e ↦
                    let same : key ≡ k = text_eq_sound key q e ∙ sym k_is in
                    let clash : true ≡ false = sym (text_eq_self k) ∙ (rw same at other) in cc
              ]
        ])
]

pub get-delete :
    (key q : Text) (r : Record) → get q (delete key r) ≡ (if text_eq key q then none else get q r)
unfolding get delete
get-delete key q [] = elim (Bool-cases (text_eq key q)) [ inl e ↦ rw e | inr e ↦ rw e ]
get-delete key q ((k, v) ∷ r) = elim (Bool-cases (text_eq k key)) [
  | inl here ↦
      let same : k ≡ key = text_eq_sound k key here in
      rw (here, get-delete key q r)
        (rw same (elim (Bool-cases (text_eq key q)) [ inl e ↦ rw e | inr e ↦ rw e ]))
  | inr other ↦ rw other (elim (Bool-cases (text_eq k q)) [
    | inr there ↦ rw there (get-delete key q r)
    | inl there ↦
        let k_is : k ≡ q = text_eq_sound k q there in
        elim (Bool-cases (text_eq key q)) [
          | inr e ↦ rw (there, e)
          | inl e ↦
              let same : key ≡ k = text_eq_sound key q e ∙ sym k_is in
              let clash : true ≡ false = sym (text_eq_self k) ∙ (rw same at other) in cc
        ]
  ])
]

-- Without a value under any key, every key is read as `none`.
pub get-none : (q : Text) (r : Record) → has_value r ≡ false → get q r ≡ none
unfolding get has_value
get-none q [] h = refl
get-none q ((k, some v) ∷ r) h = cc
get-none q ((k, none) ∷ r) h = elim (Bool-cases (text_eq k q)) [
  | inl e ↦ rw e
  | inr e ↦ rw e (get-none q r h)
]
