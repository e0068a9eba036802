-- ===== src/Storage/Sql/Quoted.antt =====
-- A quoted text read as SQL reads it.
use pulseon.Base.{
  ℕ, ◌≡◌, inl, inr, refl, sym, ap, ◌∙◌, Bool, true, false, Option, none, some, List, [], ◌∷◌, ◌++◌,
  Text, ◌==◌, arith, Bool-cases, if◌then◌else◌,
}
use pulseon.Storage.Sql.{double_quotes, string_literal}

-- The standard's string literal after its opening quote: up to the first quote that no second one
-- follows, with the doubled quotes read as one; and the text after it.
abbrev pub read_quoted : Text → Option (Text × Text)
read_quoted [] = none
read_quoted (c ∷ []) = if c == 39 then some ([], []) else none
read_quoted (c ∷ e ∷ rest) =
    let after = read_quoted rest in
    let next = read_quoted (e ∷ rest) in
    if c == 39
    then if e == 39
      then elim after [ none ↦ none | some (value, left) ↦ some (39 ∷ value, left) ]
      else some ([], e ∷ rest)
    else elim next [ none ↦ none | some (value, left) ↦ some (c ∷ value, left) ]

abbrev pub read_literal : Text → Option (Text × Text)
read_literal [] = none
read_literal (c ∷ rest) = if c == 39 then read_quoted rest else none

abbrev pub starts_with_quote : Text → Bool
starts_with_quote [] = false
starts_with_quote (c ∷ rest) = c == 39

read_end :
    (rest : Text) → starts_with_quote rest ≡ false → read_quoted (39 ∷ rest) ≡ some ([], rest)
read_end [] h = refl
read_end (c ∷ rest) h = rw h refl

-- A byte other than the quote is read as itself.
read_plain :
    (c : ℕ) (text value left : Text)
    → (c == 39) ≡ false
    → read_quoted text ≡ some (value, left)
    → read_quoted (c ∷ text) ≡ some (c ∷ value, left)
read_plain c [] value left h e = cc
read_plain c (b ∷ text) value left h e = rw (h, e) refl

quote_eq : (c : ℕ) → (c == 39) ≡ true → c ≡ 39
quote_eq c h = ground (arith, h)

append_assoc {ℓ} : {A : Type ℓ} (s t u : List A) → (s ++ t) ++ u ≡ s ++ (t ++ u)
append_assoc [] t u = refl
append_assoc (a ∷ s) t u = ap (λ x. a ∷ x) (append_assoc s t u)

read_doubled :
    (value rest : Text)
    → starts_with_quote rest ≡ false
    → read_quoted (double_quotes value ++ (39 ∷ rest)) ≡ some (value, rest)
unfolding double_quotes
read_doubled [] rest h = read_end rest h
read_doubled (c ∷ value) rest h =
    let next = read_doubled value rest h in
    elim (Bool-cases (c == 39)) [
      | inl e ↦ rw (e, next) (ap (λ b. some (b ∷ value, rest)) (sym (quote_eq c e)))
      | inr e ↦ rw e (read_plain c (double_quotes value ++ (39 ∷ rest)) value rest e next)
    ]

-- In a statement where no quote follows it, the literal of any text reads as that text, and leaves
-- the rest of the statement: the text cannot end the literal.
pub read_literal-string_literal :
    (value rest : Text)
    → starts_with_quote rest ≡ false
    → read_literal (string_literal value ++ rest) ≡ some (value, rest)
unfolding string_literal
read_literal-string_literal value rest h =
    ap read_quoted (append_assoc (double_quotes value) (39 ∷ []) rest) ∙ read_doubled value rest h
