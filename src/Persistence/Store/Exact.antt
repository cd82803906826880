-- ===== src/Persistence/Store/Exact.antt =====
-- What a page of `_changes` in movie/persistence/sqlite.py reads of the rows it looks at.
use movie.Common.{
  ℕ, zero, suc, ◌+◌, ◌≤◌, ◌<◌, ◌≡◌, ◌≢◌, refl, sym, ap, ◌∙◌, ◌⊎◌, inl, inr, Bool, true, false, ◌&&◌,
  List, [], ◌∷◌, ◌++◌, leb, ltb, min, max, take, drop, length, is_empty, take-append-drop,
  append_assoc, arith, Bool-cases,
}
use movie.Persistence.Errors.{returned, Attempt-cases}
use movie.Persistence.Model.{DurableStateChange, DurableStateChangeBatch}
use movie.Persistence.Store.Tables.{Database}
use movie.Persistence.Store.Projection.{last_offset}
use movie.Persistence.Store.Feed.{Query, matches, window, fetch, batch, read_changes, state_bytes}
use movie.Persistence.Store.Offsets.{Above}

-- What the rows of a page are of the cursor they are fetched from.
abbrev IsPage : ℕ → Bool → List DurableStateChange → List DurableStateChange → Bool → Type 0
IsPage left any cursor rows exhausted =
    ((rest : List DurableStateChange) × (cursor ≡ rows ++ rest))
    × (exhausted ≡ true → (cursor ≡ rows) × (length cursor < left))
    × (exhausted ≡ false → any ≡ false → left ≢ 0 → is_empty rows ≡ false)

fetch-step :
    (m b left retained : ℕ) (any : Bool) (c : DurableStateChange)
    → (cursor rows : List DurableStateChange) (exhausted : Bool)
    → fetch m b (suc left) retained any (c ∷ cursor) ≡ returned (rows, exhausted)
    → ((rows ≡ []) × (exhausted ≡ false) × (any ≡ true))
      ⊎ ((rows' : List DurableStateChange) × (fetch m b left
              (retained + state_bytes c.content)
              true
              cursor
            ≡ returned (rows', exhausted))
          × (rows ≡ c ∷ rows'))
unfolding fetch
fetch-step m b left retained any c cursor rows exhausted h =
    elim (Attempt-cases (fetch m b left (retained + state_bytes c.content) true cursor)) [
      | inl (e, failed) ↦
          inl (ground (arith, failed), ground (arith, failed), ground (arith, failed))
      | inr ((rows', ended), read) ↦
          elim (Bool-cases (any && ltb b (retained + state_bytes c.content))) [
            | inl full ↦ inl (ground (arith, full), ground (arith, full), ground (arith, full))
            | inr fits ↦ inr (rows', ground (arith, fits, read), ground (arith, fits, read))
          ]
    ]

pub fetch-IsPage :
    (m b left retained : ℕ) (any : Bool) (cursor rows : List DurableStateChange) (exhausted : Bool)
    → fetch m b left retained any cursor ≡ returned (rows, exhausted)
    → IsPage left any cursor rows exhausted
unfolding fetch
fetch-IsPage m b zero retained any cursor rows exhausted h =
    ((cursor, ground (arith, h)), (λ e. absurd (cc (h, e))), λ e a l. absurd (l refl))
fetch-IsPage m b (suc left) retained any [] rows exhausted h =
    (([], ground (arith, h)), (λ e. (ground (arith, h), ground arith)), λ e a l. absurd (cc (h, e)))
fetch-IsPage m b (suc left) retained any (c ∷ cursor) rows exhausted h =
    elim (fetch-step m b left retained any c cursor rows exhausted h) [
      | inl (none_left, more, some_before) ↦ (
        (c ∷ cursor, ground (arith, none_left)),
        (λ e. absurd (cc (more, e))),
        λ e a l. absurd (cc (some_before, a)),
      )
      | inr (rows', after, all) ↦
          let ((rest, split), all_read, some_read) =
            fetch-IsPage m b left (retained + state_bytes c.content) true cursor rows' exhausted
              after in
          (
            (rest, ground (arith, split, all)),
            (λ e.
                let (same, short) = all_read e in
                (ground (arith, same, all), omega (arith, short))),
            λ e a l. ground (arith, all),
          )
    ]

-- The cut of a page at its last row.
window-below :
    (q : Query) (n lo hi : ℕ) (cs : List DurableStateChange)
    → Above n cs
    → hi ≤ n
    → window q lo hi cs ≡ []
unfolding window
window-below q n lo hi [] h l = refl
window-below q n lo hi (c ∷ cs) (a, h) l =
    ground (arith, a, l, window-below q c.offset lo hi cs h (omega (arith, a, l)))

pub window_empty :
    (q : Query) (lo hi : ℕ) (cs : List DurableStateChange) → hi ≤ lo → window q lo hi cs ≡ []
unfolding window
window_empty q lo hi [] l = refl
window_empty q lo hi (c ∷ cs) l = ground (arith, l, window_empty q lo hi cs l)

window-taken :
    (q : Query) (lo hi : ℕ) (c r : DurableStateChange) (cs rows : List DurableStateChange)
    → (matches q c && ltb lo c.offset && leb c.offset hi) ≡ true
    → window q lo hi (c ∷ cs) ≡ r ∷ rows
    → (c ≡ r) × (window q lo hi cs ≡ rows)
unfolding window
window-taken q lo hi c r cs rows taken e = (ground (arith, taken, e), ground (arith, taken, e))

pub window_cut :
    (q : Query) (n lo hi d : ℕ) (cs rows rest : List DurableStateChange)
    → Above n cs
    → d ≤ n
    → window q lo hi cs ≡ rows ++ rest
    → (window q lo (last_offset d rows) cs ≡ rows)
      × (d ≤ last_offset d rows)
      × (last_offset d rows ≤ max d hi)
unfolding window last_offset
window_cut q n lo hi d [] [] rest h l e = ground arith
window_cut q n lo hi d [] (r ∷ rows) rest h l e = absurd (cc e)
window_cut q n lo hi d (c ∷ cs) [] rest (a, h) l e =
    (window-below q n lo d (c ∷ cs) (a, h) l, omega arith, omega arith)
window_cut q n lo hi d (c ∷ cs) (r ∷ rows) rest (a, h) l e =
    elim (Bool-cases (matches q c && ltb lo c.offset && leb c.offset hi)) [
      | inl taken ↦
          let (same, tail) = window-taken q lo hi c r cs (rows ++ rest) taken e in
          let (ih, low, high) =
            window_cut q c.offset lo hi c.offset cs rows rest h (omega arith) tail in
          (
            ground (arith, taken, same, ih, low, high),
            ground (arith, same, low, a, l),
            ground (arith, same, high, taken),
          )
      | inr passed ↦
          let (ih, low, high) =
            window_cut q c.offset lo hi d cs (r ∷ rows) rest h (omega (arith, a, l))
              (ground (arith, passed, e)) in
          (ground (arith, passed, ih, low, high), low, high)
    ]

take_short : (n : ℕ) (cs : List DurableStateChange) → length (take n cs) < n → take n cs ≡ cs
take_short zero cs l = absurd (omega arith)
take_short (suc n) [] l = refl
take_short (suc n) (c ∷ cs) l = ap (◌∷◌ c) (take_short n cs (omega (arith, l)))

page-exhausted :
    (q : Query) (scan : ℕ) (cs rows : List DurableStateChange)
    → take q.limit (window q q.after_offset scan cs) ≡ rows
    → length (take q.limit (window q q.after_offset scan cs)) < q.limit
    → (rows ≡ window q q.after_offset (max q.after_offset scan) cs)
page-exhausted q scan cs rows all short =
    let whole = take_short q.limit (window q q.after_offset scan cs) short in
    ground (
      arith,
      all,
      whole,
      window_empty q q.after_offset scan cs,
      window_empty q q.after_offset q.after_offset cs,
    )

page-cut :
    (q : Query) (n scan : ℕ) (cs rows rest : List DurableStateChange)
    → Above n cs
    → take q.limit (window q q.after_offset scan cs) ≡ rows ++ rest
    → is_empty rows ≡ false
    → (rows ≡ window q q.after_offset (last_offset 0 rows) cs)
      × (q.after_offset ≤ last_offset 0 rows)
page-cut q n scan cs rows rest sorted split some_read =
    let (cut, _, _) =
      window_cut q n q.after_offset scan 0 cs rows
        (rest ++ drop q.limit (window q q.after_offset scan cs)) sorted (ground arith)
        (sym (take-append-drop q.limit (window q q.after_offset scan cs))
          ∙ ap (λ xs. xs ++ drop q.limit (window q q.after_offset scan cs)) split
          ∙ append_assoc rows rest (drop q.limit (window q q.after_offset scan cs))) in
    (sym cut, ground (arith, cut, some_read, window_empty q q.after_offset (last_offset 0 rows) cs))

module _ {F : Type 0} where
  read_changes-read :
      (m : ℕ) (q : Query) (db : Database F) (b : DurableStateChangeBatch)
      → read_changes m q db ≡ returned b
      → (rows : List DurableStateChange) × (exhausted : Bool) × (fetch m q.max_bytes q.limit 0 false
            (take q.limit (
              window q q.after_offset
                (min db.high_watermark (q.after_offset + q.scan_limit))
                db.changes))
          ≡ returned (rows, exhausted))
        × (b ≡ batch q (min db.high_watermark (q.after_offset + q.scan_limit)) (rows, exhausted))
  unfolding read_changes
  read_changes-read m q db b h =
      elim (Attempt-cases (
        fetch m q.max_bytes q.limit 0 false (
          take q.limit (
            window q q.after_offset (min db.high_watermark (q.after_offset + q.scan_limit))
              db.changes)))) [
                | inl (e, failed) ↦ absurd (ground (arith, failed, h))
                | inr ((rows, exhausted), read) ↦ (rows, exhausted, read, ground (arith, read, h))
              ]

  -- A page of the feed holds every change that the query matches and whose offset is above the query's
  -- and at most the page's, in their order, and no other; its offset is at least the query's. The
  -- changes of the tables are in the order of their offsets, and the limit is not 0.
  pub read_changes-IsExact :
      (m : ℕ) (q : Query) (db : Database F) (b : DurableStateChangeBatch)
      → Above db.compacted_through db.changes
      → q.limit ≢ 0
      → read_changes m q db ≡ returned b
      → (b.changes ≡ window q q.after_offset b.offset db.changes) × (q.after_offset ≤ b.offset)
  unfolding read_changes
  read_changes-IsExact m q db b sorted positive h =
      let (rows, exhausted, read, made) = read_changes-read m q db b h in
      let ((rest, split), all_read, some_read) =
        fetch-IsPage m q.max_bytes q.limit 0 false _ rows exhausted read in
      elim (Bool-cases exhausted) [
        | inl ended ↦
            let (all, short) = all_read ended in
            let page = page-exhausted q _ db.changes rows all short in
            (ground (arith, made, ended, page), ground (arith, made, ended))
        | inr more ↦
            let (page, forward) =
              page-cut q db.compacted_through _ db.changes rows rest sorted split
                (some_read more refl positive) in
            (ground (arith, made, more, page), ground (arith, made, more, forward))
      ]
