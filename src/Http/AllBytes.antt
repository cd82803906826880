-- ===== src/Http/AllBytes.antt =====
-- Tests of all bytes of a text, for what movie/http/codec.py and movie/actor/path.py test.
use movie.Common.{ℕ, ◌≡◌, refl, Bool, true, [], ◌∷◌, ◌++◌, arith}
use movie.Remoting.Text.Utf8.{Bytes}
use movie.Http.Octets.{all_bytes}

pub all_bytes-append :
    (f : ℕ → Bool) (xs ys : Bytes)
    → all_bytes f xs ≡ true
    → all_bytes f ys ≡ true
    → all_bytes f (xs ++ ys) ≡ true
unfolding all_bytes
all_bytes-append f [] ys h k = k
all_bytes-append f (x ∷ xs) ys h k = ground (arith, h, all_bytes-append f xs ys)

-- What follows from a test of each byte.
pub all_bytes_weaker :
    (f g : ℕ → Bool) (xs : Bytes)
    → ((b : ℕ) → f b ≡ true → g b ≡ true)
    → all_bytes f xs ≡ true
    → all_bytes g xs ≡ true
unfolding all_bytes
all_bytes_weaker f g [] w h = refl
all_bytes_weaker f g (x ∷ xs) w h =
    let head : f x ≡ true = ground (arith, h) in
    let rest : all_bytes f xs ≡ true = ground (arith, h) in
    ground (arith, w x head, all_bytes_weaker f g xs w rest)
