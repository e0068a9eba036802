-- ===== src/Base/Assoc.antt =====
-- Association lists keyed by text, for the program's maps. An entry is replaced when it is inserted
-- again.
use mathlib.Core.Path.{◌≡◌, refl, ap}
use mathlib.Core.Logic.{inl, inr}
use mathlib.Core.Bool.{false}
use mathlib.Core.List.{List, [], ◌∷◌}
use mathlib.Core.Option.{Option, none, some}
use pulseon.Base.Tests.{if◌then◌else◌, Bool-cases}
use pulseon.Base.Bytes.{Text, text_eq, text_eq_iff, text_eq_refl}

unfoldable pub get_entry {ℓ} : {A : Type ℓ} → Text → List (Text × A) → Option A
unfolding text_eq
get_entry id [] = none
get_entry id ((key, value) ∷ rest) = if text_eq key id then some value else get_entry id rest

unfoldable pub remove_entry {ℓ} : {A : Type ℓ} → Text → List (Text × A) → List (Text × A)
unfolding text_eq
remove_entry id [] = []
remove_entry id ((key, value) ∷ rest) =
    if text_eq key id then remove_entry id rest else (key, value) ∷ remove_entry id rest

abbrev pub insert_entry {ℓ} : {A : Type ℓ} → Text → A → List (Text × A) → List (Text × A)
insert_entry id value entries = (id, value) ∷ remove_entry id entries

module _ {ℓ} {A : Type ℓ} where
  pub get_entry-insert_same :
      (id : Text) (value : A) (entries : List (Text × A))
      → get_entry id (insert_entry id value entries) ≡ some value
  unfolding get_entry
  get_entry-insert_same id value entries = rw (text_eq_refl id) refl

  pub get_entry-remove_same :
      (id : Text) (entries : List (Text × A)) → get_entry id (remove_entry id entries) ≡ none
  unfolding get_entry remove_entry
  get_entry-remove_same id [] = refl
  get_entry-remove_same id ((key, value) ∷ rest) =
      let next = get_entry-remove_same id rest in
      elim (Bool-cases (text_eq key id)) [ inl e ↦ rw e next | inr e ↦ rw (e, e) next ]

  get_entry-remove_other :
      (id other : Text) (entries : List (Text × A))
      → text_eq other id ≡ false
      → get_entry id (remove_entry other entries) ≡ get_entry id entries
  unfolding get_entry remove_entry
  get_entry-remove_other id other [] h = refl
  get_entry-remove_other id other ((key, value) ∷ rest) h =
      let next = get_entry-remove_other id other rest h in
      elim (Bool-cases (text_eq key other)) [
        | inl e ↦
            let differs : text_eq key id ≡ false = rw ((text_eq_iff key other).0 e) h in
            rw (e, differs) next
        | inr e ↦ rw e (ap (λ o. if text_eq key id then some value else o) next)
      ]

  pub get_entry-insert_other :
      (id other : Text) (value : A) (entries : List (Text × A))
      → text_eq other id ≡ false
      → get_entry id (insert_entry other value entries) ≡ get_entry id entries
  unfolding get_entry
  get_entry-insert_other id other value entries h = rw h (get_entry-remove_other id other entries h)
