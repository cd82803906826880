-- ===== src/Http/Octets.antt =====
-- What movie/http/codec.py uses of Python's `bytes` and of decimal numbers.
use movie.Common.{
  ℕ, zero, suc, ◌+◌, ◌-◌, ◌*◌, ◌/◌, ◌%◌, Bool, true, false, ◌&&◌, ◌||◌, List, [], ◌∷◌, ◌++◌, Option,
  none, some, eqb, leb, ltb, drop, if◌then◌else◌,
}
use movie.Remoting.Text.Utf8.{Bytes}

-- The bytes of the two ends that the format has.
abbrev pub crlf : Bytes
crlf = 13 ∷ 10 ∷ []

abbrev pub head_end : Bytes
head_end = 13 ∷ 10 ∷ 13 ∷ 10 ∷ []

unfoldable pub starts_with : Bytes → Bytes → Bool
starts_with [] xs = true
starts_with (p ∷ ps) [] = false
starts_with (p ∷ ps) (x ∷ xs) = eqb p x && starts_with ps xs

abbrev pub later : Option ℕ → Option ℕ
later none = none
later (some n) = some (suc n)

-- `find`, with none for -1
unfoldable pub find : Bytes → Bytes → Option ℕ
find pattern [] = if starts_with pattern [] then some 0 else none
find pattern (x ∷ xs) =
    let rest = find pattern xs in if starts_with pattern (x ∷ xs) then some 0 else later rest

abbrev pub plus : ℕ → Option ℕ → Option ℕ
plus n none = none
plus n (some m) = some (n + m)

-- `find` with a start
abbrev pub find_from : Bytes → ℕ → Bytes → Option ℕ
find_from pattern start xs = plus start (find pattern (drop start xs))

abbrev pub extend_first : ℕ → List Bytes → List Bytes
extend_first c [] = (c ∷ []) ∷ []
extend_first c (part ∷ parts) = (c ∷ part) ∷ parts

-- `split(b"\r\n")`
unfoldable pub split_lines : Bytes → List Bytes
split_lines [] = [] ∷ []
split_lines (c ∷ []) = (c ∷ []) ∷ []
split_lines (c ∷ d ∷ rest) =
    let after = split_lines rest in
    let on = split_lines (d ∷ rest) in
    if eqb c 13 && eqb d 10 then [] ∷ after else extend_first c on

-- `split` at one byte
unfoldable pub split_at : ℕ → Bytes → List Bytes
split_at b [] = [] ∷ []
split_at b (c ∷ rest) =
    let parts = split_at b rest in if eqb c b then [] ∷ parts else extend_first c parts

-- `partition` at one byte: none where it does not occur
unfoldable pub partition : ℕ → Bytes → Option (Bytes × Bytes)
partition b [] = none
partition b (c ∷ rest) =
    let found = partition b rest in
    if eqb c b then some ([], rest) else elim found [ none ↦ none | some (l, r) ↦ some (c ∷ l, r) ]

abbrev is_blank : ℕ → Bool
is_blank b = eqb b 32 || eqb b 9

unfoldable pub strip_left : Bytes → Bytes
strip_left [] = []
strip_left (c ∷ rest) = let on = strip_left rest in if is_blank c then on else c ∷ rest

unfoldable pub strip_right : Bytes → Bytes
strip_right [] = []
strip_right (c ∷ rest) = elim (strip_right rest) [
  | [] ↦ if is_blank c then [] else c ∷ []
  | d ∷ ds ↦ c ∷ d ∷ ds
]

-- `strip(b" \t")`
abbrev pub strip_blanks : Bytes → Bytes
strip_blanks xs = strip_right (strip_left xs)

unfoldable pub all_bytes : (ℕ → Bool) → Bytes → Bool
all_bytes f [] = true
all_bytes f (c ∷ rest) = f c && all_bytes f rest

abbrev pub is_digit : ℕ → Bool
is_digit b = leb 48 b && leb b 57

-- `int` of decimal digits, after those read before
unfoldable pub int_from : ℕ → Bytes → ℕ
int_from n [] = n
int_from n (d ∷ ds) = int_from (n * 10 + (d - 48)) ds

-- `str` of a number that has at most so many digits
unfoldable pub str_within : ℕ → ℕ → Bytes
str_within zero n = []
str_within (suc k) n = elim (ltb n 10) [
  | true ↦ (48 + n) ∷ []
  | false ↦ str_within k (n / 10) ++ ((48 + n % 10) ∷ [])
]

-- A number has no more digits than it has units, and one more than none.
abbrev pub str : ℕ → Bytes
str n = str_within (suc n) n
