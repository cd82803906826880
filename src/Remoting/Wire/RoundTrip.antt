-- ===== src/Remoting/Wire/RoundTrip.antt =====
-- What a reader makes of the bytes of a writer, one rule for each way to build the two.
pub mod Numbers
pub mod Fields
pub mod Known
use movie.Common.{
  ℕ, ◌≡◌, refl, ap, sym, ◌∙◌, Bool, true, false, List, [], ◌∷◌, ◌++◌, append_assoc, append-nil,
  arith, length,
}
use movie.Remoting.Errors
use movie.Remoting.Errors.{Error, Result, ok, err}
use movie.Remoting.Text.Utf8.{Bytes}
use movie.Remoting.Wire.Writer
use movie.Remoting.Wire.Writer.{Writer}
use movie.Remoting.Wire.Reader
use movie.Remoting.Wire.Reader.{Reader}

-- What `w` appends, `r` reads as `a`, whatever follows.
pub record RoundTrip {ℓ} {A : Type ℓ} (w : Writer) (r : Reader A) (a : A) : Type ℓ where
  pub at :
      (written result : Bytes)
      → w written ≡ ok result
      → (bytes : Bytes) × (result ≡ written ++ bytes)
        × ((rest : Bytes) → r (bytes ++ rest) ≡ ok (a, rest))

module _ {ℓ} {B : Type ℓ} where
  pub lift-ok : (m : Result B) (b : B) → m ≡ ok b → Reader.lift m ≡ Reader.pure b
  unfolding Reader.lift Reader.pure
  lift-ok (ok c) b p = ap (λ r left. Errors.◌>>=◌ r (λ a. ok (a, left))) p
  lift-ok (err e) b p = cc

  pub bind-lift {κ} :
      {A : Type κ} (m : Result B) (k : B → Reader A) (b : B)
      → m ≡ ok b
      → (Reader.◌>>=◌ (Reader.lift m) k) ≡ k b
  unfolding Reader.◌>>=◌ Reader.lift
  bind-lift m k b p = ap (λ r left. Reader.◌>>=◌ (Reader.lift r) k left) p

module _ {ℓ} {A : Type ℓ} where
  pub RoundTrip-done : (a : A) → RoundTrip Writer.done (Reader.pure a) a
  unfolding Writer.done Reader.pure
  RoundTrip-done a = record {
    at = λ written result h. ([], ground (arith, append-nil written), λ rest. refl);
  }

  pub RoundTrip-write-require :
      (w : Writer) (r : Reader A) (a : A) (t : Bool) (e : Error)
      → (t ≡ true → RoundTrip w r a)
      → RoundTrip (Writer.◌>>◌ (Writer.require t e) w) r a
  unfolding Writer.◌>>◌ Writer.require
  RoundTrip-write-require w r a true e h = record {
    at = λ written result q. (h refl).at written result q;
  }
  RoundTrip-write-require w r a false e h = record { at = λ written result q. cc }

  pub RoundTrip-given {κ} :
      {B : Type κ} (r : Reader A) (a : A) (m : Result B) (k : B → Writer)
      → ((b : B) → m ≡ ok b → RoundTrip (k b) r a)
      → RoundTrip (Writer.given m k) r a
  unfolding Writer.given
  RoundTrip-given r a (ok b) k h = record {
    at = λ written result q. (h b refl).at written result q;
  }
  RoundTrip-given r a (err e) k h = record { at = λ written result q. cc }

  pub RoundTrip-lift {κ} :
      {B : Type κ} (w : Writer) (a : A) (m : Result B) (k : B → Reader A) (b : B)
      → m ≡ ok b
      → RoundTrip w (k b) a
      → RoundTrip w (Reader.◌>>=◌ (Reader.lift m) k) a
  unfolding Reader.◌>>=◌ Reader.lift
  RoundTrip-lift w a (ok c) k b p h = record {
    at = λ written result q.
        let (bytes, e, reads) = h.at written result q in
        (bytes, e, λ rest. ground (arith, reads rest));
  }
  RoundTrip-lift w a (err e) k b p h = cc

  pub RoundTrip-read-require :
      (w : Writer) (r : Reader A) (a : A) (t : Bool) (e : Error)
      → t ≡ true
      → RoundTrip w r a
      → RoundTrip w (Reader.◌>>=◌ (Reader.require t e) (λ _. r)) a
  unfolding Reader.◌>>=◌ Reader.lift
  RoundTrip-read-require w r a true e p h = record {
    at = λ written result q. h.at written result q;
  }
  RoundTrip-read-require w r a false e p h = cc

module _ {ℓ κ} {A : Type ℓ} {B : Type κ} where
  pub RoundTrip-then :
      (w w' : Writer) (r : Reader A) (k : A → Reader B) (a : A) (b : B)
      → RoundTrip w r a
      → RoundTrip w' (k a) b
      → RoundTrip (Writer.◌>>◌ w w') (Reader.◌>>=◌ r k) b
  unfolding Writer.◌>>◌ Reader.◌>>=◌
  RoundTrip-then w w' r k a b h h' = record {
    at = λ written result q.
        let (middle, p, p') = Errors.>>=-eq-ok (w written) w' q in
        let (bytes, e, reads) = h.at written middle p in
        let (bytes', e', reads') = h'.at middle result p' in
        (
          bytes ++ bytes',
          e' ∙ ap (λ m. m ++ bytes') e ∙ append_assoc written bytes bytes',
          λ rest. rw (append_assoc bytes bytes' rest, reads (bytes' ++ rest)) (reads' rest),
        );
  }

  pub RoundTrip-last :
      (w : Writer) (r : Reader A) (k : A → Reader B) (a : A) (b : B)
      → RoundTrip w r a
      → k a ≡ Reader.pure b
      → RoundTrip w (Reader.◌>>=◌ r k) b
  unfolding Reader.◌>>=◌ Reader.pure
  RoundTrip-last w r k a b h p = record {
    at = λ written result q.
        let (bytes, e, reads) = h.at written result q in
        (bytes, e, λ rest. rw (reads rest) (ap (λ m. m rest) p));
  }

pub >>-eq-ok :
    (w w' : Writer) (written result : Bytes)
    → Writer.◌>>◌ w w' written ≡ ok result
    → (middle : Bytes) × (w written ≡ ok middle) × (w' middle ≡ ok result)
unfolding Writer.◌>>◌
>>-eq-ok w w' written result q = Errors.>>=-eq-ok (w written) w' q

-- What the success of a writer says of the values that it was given.
pub record Writes {ℓ} (w : Writer) (P : Type ℓ) : Type ℓ where
  pub at : (written result : Bytes) → w written ≡ ok result → P

module _ {ℓ κ ι} {A : Type ℓ} {B : Type κ} {P : Type ι} where
  pub RoundTrip-keep :
      (w w' : Writer) (r : Reader A) (k : A → Reader B) (a : A) (b : B)
      → Writes w P
      → RoundTrip w r a
      → (P → RoundTrip w' (k a) b)
      → RoundTrip (Writer.◌>>◌ w w') (Reader.◌>>=◌ r k) b
  RoundTrip-keep w w' r k a b known h h' = record {
    at = λ written result q.
        let (middle, p, _) = >>-eq-ok w w' written result q in
        (RoundTrip-then w w' r k a b h (h' (known.at written middle p))).at written result q;
  }

  pub RoundTrip-keep-last :
      (w : Writer) (r : Reader A) (k : A → Reader B) (a : A) (b : B)
      → Writes w P
      → RoundTrip w r a
      → (P → k a ≡ Reader.pure b)
      → RoundTrip w (Reader.◌>>=◌ r k) b
  RoundTrip-keep-last w r k a b known h p = record {
    at = λ written result q.
        (RoundTrip-last w r k a b h (p (known.at written result q))).at written result q;
  }

-- A writer that only checks.
abbrev pub IsSilent : Writer → Type 0
IsSilent w = (written result : Bytes) → w written ≡ ok result → result ≡ written

pub RoundTrip-silent {ℓ} :
    {A : Type ℓ} (w w' : Writer) (r : Reader A) (a : A)
    → IsSilent w
    → RoundTrip w' r a
    → RoundTrip (Writer.◌>>◌ w w') r a
RoundTrip-silent w w' r a silent h = record {
  at = λ written result q.
      let (middle, p, p') = >>-eq-ok w w' written result q in
      h.at written result (rw (silent written middle p) at p');
}

pub IsSilent-each {ℓ} :
    {A : Type ℓ} (w : A → Writer) (xs : List A)
    → ((x : A) → IsSilent (w x))
    → IsSilent (Writer.each w xs)
unfolding Writer.each Writer.done
IsSilent-each w [] h written result q = cc
IsSilent-each w (x ∷ xs) h written result q =
    let (middle, p, p') = >>-eq-ok (w x) (Writer.each w xs) written result q in
    IsSilent-each w xs h middle result p' ∙ h x written middle p

-- A last check of what was read.
pub require-eq-pure {ℓ} :
    {A : Type ℓ} (t : Bool) (e : Error) (r : Reader A) (x : A)
    → t ≡ true
    → r ≡ Reader.pure x
    → Reader.◌>>=◌ (Reader.require t e) (λ _. r) ≡ Reader.pure x
require-eq-pure t e r x p h = bind-lift _ _ tt (ap (λ b. Errors.require b e) p) ∙ h
