-- ===== src/Actor/Path/Cut.antt =====
-- Where movie/actor/path.py cuts the texts that it has put together.
use movie.Common.{
  ℕ, ◌≡◌, refl, ap, ◌∙◌, Bool, true, not, List, [], ◌∷◌, ◌++◌, none, some, eqb, arith, All,
}
use movie.Remoting.Text.Utf8.{Text}
use movie.Http.Octets.{all_bytes, partition, split_at}
use movie.Actor.Path.Tree.{join_slash, split_last}

abbrev pub is_other : ℕ → ℕ → Bool
is_other b c = not (eqb c b)

pub partition-append :
    (b : ℕ) (l r : Text)
    → all_bytes (is_other b) l ≡ true
    → partition b (l ++ (b ∷ r)) ≡ some (l, r)
unfolding partition all_bytes
partition-append b [] r h = ground arith
partition-append b (c ∷ l) r h = ground (arith, h, partition-append b l r)

pub partition-none : (b : ℕ) (l : Text) → all_bytes (is_other b) l ≡ true → partition b l ≡ none
unfolding partition all_bytes
partition-none b [] h = refl
partition-none b (c ∷ l) h = ground (arith, h, partition-none b l)

pub split_last-none : (b : ℕ) (l : Text) → all_bytes (is_other b) l ≡ true → split_last b l ≡ none
unfolding split_last all_bytes
split_last-none b [] h = refl
split_last-none b (c ∷ l) h = ground (arith, h, split_last-none b l)

split_at-append :
    (b : ℕ) (l r : Text)
    → all_bytes (is_other b) l ≡ true
    → split_at b (l ++ (b ∷ r)) ≡ l ∷ split_at b r
unfolding split_at all_bytes
split_at-append b [] r h = ground arith
split_at-append b (c ∷ l) r h = ground (arith, h, split_at-append b l r)

split_at_one : (b : ℕ) (l : Text) → all_bytes (is_other b) l ≡ true → split_at b l ≡ l ∷ []
unfolding split_at all_bytes
split_at_one b [] h = refl
split_at_one b (c ∷ l) h = ground (arith, h, split_at_one b l)

abbrev pub HasNoSlash : Text → Type 0
HasNoSlash name = all_bytes (is_other 47) name ≡ true

pub split_at-join_slash :
    (name : Text) (names : List Text)
    → HasNoSlash name
    → All HasNoSlash names
    → split_at 47 (join_slash (name ∷ names)) ≡ name ∷ names
unfolding join_slash
split_at-join_slash name [] h hs = split_at_one 47 name h
split_at-join_slash name (next ∷ names) h (n, ns) =
    split_at-append 47 name (join_slash (next ∷ names)) h
    ∙ ap (λ parts. name ∷ parts) (split_at-join_slash next names n ns)
