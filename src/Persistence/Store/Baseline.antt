-- ===== src/Persistence/Store/Baseline.antt =====
-- Numbers that no projection of movie/persistence/sqlite.py stands before.
use movie.Common.{ℕ, ◌≤◌, ◌≡◌, inl, inr, List, [], ◌∷◌, ◌++◌, none, some, All, arith, Option-cases}
use movie.Remoting.Text.Utf8.{Text}
use movie.Persistence.Store.Tables.{ProjectionRow}
use movie.Persistence.Store.Projection.{min_offset, update_offset, without}

abbrev pub AllFrom : ℕ → List ProjectionRow → Type 0
AllFrom n rows = All (λ (r : ProjectionRow). n ≤ r.projection_offset) rows

pub AllFrom-weaken : (m n : ℕ) (rows : List ProjectionRow) → m ≤ n → AllFrom n rows → AllFrom m rows
AllFrom-weaken m n [] l h = tt
AllFrom-weaken m n (r ∷ rows) l (a, h) = (omega (arith, l, a), AllFrom-weaken m n rows l h)

pub AllFrom-append :
    (n : ℕ) (rows : List ProjectionRow) (r : ProjectionRow)
    → AllFrom n rows
    → n ≤ r.projection_offset
    → AllFrom n (rows ++ (r ∷ []))
AllFrom-append n [] r h l = (l, tt)
AllFrom-append n (s ∷ rows) r (a, h) l = (a, AllFrom-append n rows r h l)

pub AllFrom-without :
    (n : ℕ) (name key : Text) (rows : List ProjectionRow)
    → AllFrom n rows
    → AllFrom n (without name key rows)
unfolding without
AllFrom-without n name key [] h = tt
AllFrom-without n name key (s ∷ rows) (a, h) = ground (arith, a, AllFrom-without n name key rows h)

pub AllFrom-update_offset :
    (n : ℕ) (name key : Text) (expected new : ℕ) (rows : List ProjectionRow)
    → expected ≤ new
    → AllFrom n rows
    → AllFrom n (update_offset name key expected new rows).0
unfolding update_offset
AllFrom-update_offset n name key expected new [] l h = tt
AllFrom-update_offset n name key expected new (s ∷ rows) l (a, h) =
    ground (arith, a, AllFrom-update_offset n name key expected new rows l h)

AllFrom-min_offset-none :
    (m : ℕ) (rows : List ProjectionRow) → min_offset rows ≡ none → AllFrom m rows
unfolding min_offset
AllFrom-min_offset-none m [] e = tt
AllFrom-min_offset-none m (r ∷ rows) e = absurd (ground (arith, e, Option-cases (min_offset rows)))

pub AllFrom-min_offset :
    (m : ℕ) (rows : List ProjectionRow) → min_offset rows ≡ some m → AllFrom m rows
unfolding min_offset
AllFrom-min_offset m [] e = tt
AllFrom-min_offset m (r ∷ rows) e = elim (Option-cases (min_offset rows)) [
  | inl empty ↦ (ground (arith, empty, e), AllFrom-min_offset-none m rows empty)
  | inr (n, found) ↦ (
    ground (arith, found, e),
    AllFrom-weaken m n rows (ground (arith, found, e)) (AllFrom-min_offset n rows found),
  )
]
