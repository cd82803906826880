-- ===== src/Remoting/Text/Utf8.antt =====
-- Python's strict UTF-8 codec, as `str.encode` and `bytes.decode` use it in
-- movie/remoting/wire.py. A text is the list of its code points.
use movie.Common.{
  ℕ, zero, suc, ◌+◌, ◌-◌, ◌*◌, ◌/◌, ◌%◌, ◌≡◌, refl, Bool, ◌&&◌, ◌||◌, List, [], ◌∷◌, ◌++◌, Option,
  none, some, arith, ltb, leb, if◌then◌else◌,
}

abbrev pub Text : Type 0
Text = List ℕ

abbrev pub Bytes : Type 0
Bytes = List ℕ

-- One code point; a surrogate, or a number past 0x10ffff, has no encoding.
encode_char : ℕ → Option Bytes
encode_char c =
    if ltb c 0x80
    then some (c ∷ [])
    else if ltb c 0x800
    then some ((0xc0 + c / 64) ∷ (0x80 + c % 64) ∷ [])
    else if leb 0xd800 c && ltb c 0xe000
    then none
    else if ltb c 0x10000
    then some ((0xe0 + c / 4096) ∷ (0x80 + c / 64 % 64) ∷ (0x80 + c % 64) ∷ [])
    else if ltb c 0x110000
    then some
        ((0xf0 + c / 262144) ∷ (0x80 + c / 4096 % 64) ∷ (0x80 + c / 64 % 64) ∷ (0x80 + c % 64) ∷ [])
    else none

abbrev append? : Option Bytes → Option Bytes → Option Bytes
append? none ys = none
append? (some xs) none = none
append? (some xs) (some ys) = some (xs ++ ys)

unfoldable pub encode : Text → Option Bytes
unfolding encode_char
encode [] = some []
encode (c ∷ cs) = append? (encode_char c) (encode cs)

-- The decoder between two bytes: so many continuation bytes are missing, the value so far, and the
-- least code point that needs this many bytes.
record State : Type 0 where
  missing : ℕ
  value : ℕ
  least : ℕ

abbrev start : State
start = record { missing = 0; value = 0; least = 0 }

abbrev lead : ℕ → Option (State × Text)
lead b =
    if ltb b 0x80
    then some (start, b ∷ [])
    else if ltb b 0xc0
    then none
    else if ltb b 0xe0
    then some (record { missing = 1; value = b - 0xc0; least = 0x80 }, [])
    else if ltb b 0xf0
    then some (record { missing = 2; value = b - 0xe0; least = 0x800 }, [])
    else if ltb b 0xf8
    then some (record { missing = 3; value = b - 0xf0; least = 0x10000 }, [])
    else none

abbrev is_scalar : ℕ → ℕ → Bool
is_scalar least c = leb least c && ltb c 0x110000 && (ltb c 0xd800 || leb 0xe000 c)

abbrev complete : ℕ → ℕ → Option (State × Text)
complete least c = if is_scalar least c then some (start, c ∷ []) else none

abbrev continue : ℕ → ℕ → ℕ → ℕ → Option (State × Text)
continue zero value least b = complete least (value * 64 + (b - 0x80))
continue (suc more) value least b =
    some (record { missing = suc more; value = value * 64 + (b - 0x80); least = least }, [])

abbrev step_at : ℕ → ℕ → ℕ → ℕ → Option (State × Text)
step_at zero value least b = lead b
step_at (suc more) value least b =
    if leb 0x80 b && ltb b 0xc0 then continue more value least b else none

-- The next state, and the code point that the byte completes.
step : State → ℕ → Option (State × Text)
step s b = step_at s.missing s.value s.least b

abbrev finish : ℕ → Option Text
finish zero = some []
finish (suc n) = none

abbrev prepend? : Text → Option Text → Option Text
prepend? out none = none
prepend? out (some cs) = some (out ++ cs)

decode_from : State → Bytes → Option Text
decode_from s [] = finish s.missing
decode_from s (b ∷ bs) = elim (step s b) [
  | none ↦ none
  | some (s', out) ↦ prepend? out (decode_from s' bs)
]

unfoldable pub decode : Bytes → Option Text
unfolding decode_from step
decode bs = decode_from start bs

decode-encode_char :
    (c : ℕ) (bytes rest : Bytes)
    → encode_char c ≡ some bytes
    → decode_from start (bytes ++ rest) ≡ prepend? (c ∷ []) (decode_from start rest)
unfolding encode_char decode_from step
decode-encode_char c bytes rest h = ground arith

prepend?_one :
    (c : ℕ) (o : Option Text) (cs : Text) → o ≡ some cs → prepend? (c ∷ []) o ≡ some (c ∷ cs)
prepend?_one c o cs h = ground arith

decode_from-append? :
    (c : ℕ) (cs : Text) (x y : Option Bytes) (bytes : Bytes)
    → encode_char c ≡ x
    → append? x y ≡ some bytes
    → ((ys : Bytes) → y ≡ some ys → decode_from start ys ≡ some cs)
    → decode_from start bytes ≡ some (c ∷ cs)
decode_from-append? c cs none y bytes e h ih = cc
decode_from-append? c cs (some xs) none bytes e h ih = cc
decode_from-append? c cs (some xs) (some ys) bytes e h ih =
    cc (decode-encode_char c xs ys e, prepend?_one c (decode_from start ys) cs (ih ys refl))

-- Every text that has an encoding is read back from it.
pub decode-encode : (t : Text) (bytes : Bytes) → encode t ≡ some bytes → decode bytes ≡ some t
unfolding encode decode
decode-encode [] bytes h = cc
decode-encode (c ∷ cs) bytes h =
    decode_from-append? c cs (encode_char c) (encode cs) bytes refl h (decode-encode cs)
