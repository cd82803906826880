-- ===== src/Actor/Path/Names.antt =====
-- The patterns of movie/actor/path.py, each as a test of a text that is its full match.
use movie.Common.{ℕ, Bool, false, ◌&&◌, ◌||◌, [], ◌∷◌, eqb, leb, length}
use movie.Remoting.Text.Utf8.{Text}
use movie.Http.Octets.{all_bytes, is_digit}

abbrev pub is_letter : ℕ → Bool
is_letter c = (leb 65 c && leb c 90) || (leb 97 c && leb c 122)

abbrev pub is_alphanumeric : ℕ → Bool
is_alphanumeric c = is_letter c || is_digit c

-- `[A-Za-z0-9+.-]`
abbrev is_protocol_char : ℕ → Bool
is_protocol_char c = is_alphanumeric c || eqb c 43 || eqb c 46 || eqb c 45

-- `_PROTOCOL`
unfoldable pub is_protocol : Text → Bool
is_protocol [] = false
is_protocol (c ∷ rest) = is_letter c && all_bytes is_protocol_char rest

-- `[A-Za-z0-9._~-]`
unfoldable pub is_name_char : ℕ → Bool
is_name_char c = is_alphanumeric c || eqb c 46 || eqb c 95 || eqb c 126 || eqb c 45

-- `_is_remote_name`, with `_REMOTE_NAME`
unfoldable pub is_remote_name : Text → Bool
is_remote_name name = leb 1 (length name) && leb (length name) 255 && all_bytes is_name_char name

-- `[A-Za-z0-9.-]`
abbrev is_host_char : ℕ → Bool
is_host_char c = is_alphanumeric c || eqb c 46 || eqb c 45

abbrev is_host_end : Text → Bool
is_host_end [] = false
is_host_end (c ∷ []) = is_alphanumeric c
is_host_end (c ∷ d ∷ rest) = is_host_char c && is_host_end (d ∷ rest)

-- `_HOST`
unfoldable pub is_host : Text → Bool
is_host [] = false
is_host (c ∷ []) = is_alphanumeric c
is_host (c ∷ d ∷ rest) = is_alphanumeric c && is_host_end (d ∷ rest)
