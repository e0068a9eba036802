-- ===== src/Storage/Encode/Injective.antt =====
-- Distinct texts have distinct encodings, so distinct runs have distinct lock files.
use pulseon.Base.{
  length, length-append, any, ℕ, ◌≡◌, ◌≢◌, inl, inr, refl, sym, ap, ap₂, ◌∙◌, ◌<◌, ◌/◌, ◌%◌, ◌+◌,
  ◌*◌, Bool, true, false, ◌==◌, List, [], ◌∷◌, ◌++◌, All, Text, codes, arith, Bool-cases,
}
use pulseon.Storage.Encode.{is_unreserved, hex_digit, percent_encode_metric_key, lock_file_name}

-- Every member is a byte.
abbrev pub IsBytes : Text → Type 0
IsBytes = All (λ b. b < 256)

percent-is_reserved : is_unreserved 37 ≡ false
percent-is_reserved = refl

hex_digit-inj : (a b : ℕ) → hex_digit a ≡ hex_digit b → a ≡ b
hex_digit-inj a b h = ground (arith, h)

divide : (a : ℕ) → a ≡ (a / 16) * 16 + a % 16
divide a = omega arith

plain :
    (b : ℕ) (s : Text)
    → is_unreserved b ≡ true
    → percent_encode_metric_key (b ∷ s) ≡ b ∷ percent_encode_metric_key s
unfolding percent_encode_metric_key
plain b s h = rw h refl

escaped :
    (b : ℕ) (s : Text)
    → is_unreserved b ≡ false
    → percent_encode_metric_key (b ∷ s)
      ≡ 37 ∷ hex_digit (b / 16) ∷ hex_digit (b % 16) ∷ percent_encode_metric_key s
unfolding percent_encode_metric_key
escaped b s h = rw h refl

empty : (b : ℕ) (s : Text) → percent_encode_metric_key (b ∷ s) ≢ []
unfolding percent_encode_metric_key
empty b s e = elim (Bool-cases (is_unreserved b)) [
  | inl h ↦ let bad : b ∷ percent_encode_metric_key s ≡ [] = sym (plain b s h) ∙ e in cc
  | inr h ↦
      let bad : 37 ∷ hex_digit (b / 16) ∷ hex_digit (b % 16) ∷ percent_encode_metric_key s ≡ [] =
        sym (escaped b s h) ∙ e in
      cc
]

-- A plain byte is not the escape's `%`.
apart : (a : ℕ) (s t : Text) → is_unreserved a ≡ true → a ∷ s ≢ 37 ∷ t
apart a s t h e =
    let same : a ≡ 37 = cc in
    let bad : true ≡ false = sym h ∙ ap is_unreserved same ∙ percent-is_reserved in cc

cons_inj {ℓ} : {A : Type ℓ} (a b : A) (s t : List A) → a ∷ s ≡ b ∷ t → (a ≡ b) × (s ≡ t)
cons_inj a b s t h = (cc, cc)

unescape :
    (a b : ℕ) (s t : Text)
    → 37 ∷ hex_digit (a / 16) ∷ hex_digit (a % 16) ∷ s
      ≡ 37 ∷ hex_digit (b / 16) ∷ hex_digit (b % 16) ∷ t
    → (a ≡ b) × (s ≡ t)
unescape a b s t h =
    let tail = cons_inj _ _ _ _ (cons_inj _ _ _ _ h).1 in
    let last = cons_inj _ _ _ _ tail.1 in
    let high = hex_digit-inj (a / 16) (b / 16) tail.0 in
    let low = hex_digit-inj (a % 16) (b % 16) last.0 in
    (divide a ∙ ap₂ (λ m n. m * 16 + n) high low ∙ sym (divide b), last.1)

-- Two texts with one encoding are one text.
pub percent_encode_metric_key-inj :
    (s t : Text) → percent_encode_metric_key s ≡ percent_encode_metric_key t → s ≡ t
unfolding percent_encode_metric_key
percent_encode_metric_key-inj [] [] h = refl
percent_encode_metric_key-inj [] (b ∷ t) h = elim (empty b t (sym h)) [ ]
percent_encode_metric_key-inj (a ∷ s) [] h = elim (empty a s h) [ ]
percent_encode_metric_key-inj (a ∷ s) (b ∷ t) h = elim (Bool-cases (is_unreserved a)) [
  | inl ha ↦ elim (Bool-cases (is_unreserved b)) [
    | inl hb ↦
        let (heads, tails) = cons_inj _ _ _ _ (sym (plain a s ha) ∙ h ∙ plain b t hb) in
        ap₂ (λ x xs. x ∷ xs) heads (percent_encode_metric_key-inj s t tails)
    | inr hb ↦ elim (apart a _ _ ha (sym (plain a s ha) ∙ h ∙ escaped b t hb)) [ ]
  ]
  | inr ha ↦ elim (Bool-cases (is_unreserved b)) [
    | inl hb ↦ elim (apart b _ _ hb (sym (plain b t hb) ∙ sym h ∙ escaped a s ha)) [ ]
    | inr hb ↦
        let (heads, tails) = unescape a b _ _ (sym (escaped a s ha) ∙ h ∙ escaped b t hb) in
        ap₂ (λ x xs. x ∷ xs) heads (percent_encode_metric_key-inj s t tails)
  ]
]

append_cancel_right {ℓ} : {A : Type ℓ} (s t u : List A) → s ++ u ≡ t ++ u → s ≡ t
append_cancel_right [] [] u h = refl
append_cancel_right [] (b ∷ t) u h =
    let lengths = ap length h in ground (arith, lengths, length-append t u)
append_cancel_right (a ∷ s) [] u h =
    let lengths = ap length h in ground (arith, lengths, length-append s u)
append_cancel_right (a ∷ s) (b ∷ t) u h =
    let (heads, tails) = cons_inj _ _ _ _ h in
    ap₂ (λ x xs. x ∷ xs) heads (append_cancel_right s t u tails)

abbrev is_slash : ℕ → Bool
is_slash byte = byte == 47

hex_digit-is_slash : (n : ℕ) → is_slash (hex_digit n) ≡ false
hex_digit-is_slash n = ground arith

unreserved-is_slash : (b : ℕ) → is_unreserved b ≡ true → is_slash b ≡ false
unreserved-is_slash b h = ground (arith, h)

-- The encoding is one file name: it holds no slash.
no_slash :
    (s u : Text) → any is_slash u ≡ false → any is_slash (percent_encode_metric_key s ++ u) ≡ false
unfolding percent_encode_metric_key
no_slash [] u h = h
no_slash (b ∷ s) u h =
    let rest = no_slash s u h in
    elim (Bool-cases (is_unreserved b)) [
      | inl e ↦ rw (e, unreserved-is_slash b e) rest
      | inr e ↦ rw (e, hex_digit-is_slash (b / 16), hex_digit-is_slash (b % 16)) rest
    ]

-- Two run identifiers with one lock file name are one identifier, and the name holds no slash.
pub lock_file_name-inj :
    (s t : Text)
    → lock_file_name s ≡ lock_file_name t
    → (s ≡ t) × (any (λ byte. byte == 47) (lock_file_name s) ≡ false)
unfolding lock_file_name
lock_file_name-inj s t h = (
  percent_encode_metric_key-inj s t (
      append_cancel_right (percent_encode_metric_key s) (percent_encode_metric_key t)
        (codes ".lock") h),
  no_slash s (codes ".lock") refl,
)
