-- ===== src/Storage/Search.antt =====
-- `str::starts_with` and `str::contains`, byte by byte.
use pulseon.Base.{Bool, true, false, ◌&&◌, ◌||◌, ◌==◌, [], ◌∷◌, Text, codes}

unfoldable pub starts_with : (prefix text : Text) → Bool
starts_with [] text = true
starts_with (a ∷ prefix) [] = false
starts_with (a ∷ prefix) (b ∷ text) = a == b && starts_with prefix text

unfoldable pub contains : (needle text : Text) → Bool
unfolding starts_with
contains needle [] = starts_with needle []
contains needle (b ∷ text) = starts_with needle (b ∷ text) || contains needle text

abbrev pub is_uri : Text → Bool
is_uri = contains (codes "://")

abbrev pub is_s3 : Text → Bool
is_s3 = starts_with (codes "s3://")
