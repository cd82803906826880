-- ===== src/Remoting/Wire/Parts/Names.antt =====
-- `_system_name` and `_actor_path` of movie/remoting/wire.py.
use movie.Common.{
  is_empty, ℕ, Bool, true, false, not, ◌&&◌, ◌||◌, List, [], ◌∷◌, leb, length, if◌then◌else◌, eqb,
}
use movie.Remoting.Errors.{Error, Result, ok, ◌>>=◌, ◌>>◌, require}
use movie.Remoting.Text.Utf8.{Text, Bytes}
use movie.Remoting.Text.{Unicode, text_bytes}
use movie.Remoting.Wire.Types.{max_u16}

abbrev pub all {ℓ} : {A : Type ℓ} → (A → Bool) → List A → Bool
all p [] = true
all p (x ∷ xs) = p x && all p xs

abbrev between : ℕ → ℕ → ℕ → Bool
between low high c = leb low c && leb c high

-- `_UNRESERVED`
unfoldable pub is_unreserved : ℕ → Bool
is_unreserved c =
    between b'a' b'z' c
    || between b'A' b'Z' c
    || between b'0' b'9' c
    || eqb c b'.'
    || eqb c b'_'
    || eqb c b'~'
    || eqb c b'-'

abbrev extend_first : ℕ → List Text → List Text
extend_first c [] = (c ∷ []) ∷ []
extend_first c (s ∷ ss) = (c ∷ s) ∷ ss

-- `value.split("/")`
unfoldable pub split : Text → List Text
split [] = [] ∷ []
split (c ∷ cs) = let rest = split cs in if eqb c b'/' then [] ∷ rest else extend_first c rest

-- A segment is 1-255 unreserved characters; these are ASCII, so each is one byte.
unfoldable pub is_segment : Text → Bool
unfolding is_unreserved
is_segment s = between 1 255 (length s) && all is_unreserved s

-- `value.startswith("/") and not value.startswith("//")`, with what follows the slash
abbrev pub after_slash : Text → Text
after_slash [] = []
after_slash (c ∷ cs) = cs

abbrev pub has_slash : Text → Bool
has_slash [] = false
has_slash (c ∷ cs) = eqb c b'/'

module _ ⦃u : Unicode⦄ where
  unfoldable pub system_name : Text → Error → Result Bytes
  unfolding is_unreserved
  system_name value e = do
    encoded ← text_bytes value 255 e true
    require (all is_unreserved value) e
    ok encoded

  unfoldable pub actor_path : Text → Error → Result Bytes
  unfolding split is_segment
  actor_path value e = do
    encoded ← text_bytes value max_u16 e true
    require (has_slash value && not (has_slash (after_slash value))) e
    let segments = split (after_slash value)
    require (all (λ s. not (is_empty s)) segments) e
    require (all is_segment segments) e
    ok encoded
