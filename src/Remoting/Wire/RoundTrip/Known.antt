-- ===== src/Remoting/Wire/RoundTrip/Known.antt =====
-- What the success of a field's writer says of the field.
use movie.Common.{ℕ, ◌≤◌, ◌≡◌, refl, true, List, [], ◌∷◌, min, arith}
use movie.Remoting.Errors
use movie.Remoting.Errors.{ok, protocol_validation, serializer_registry}
use movie.Remoting.Text.Utf8.{Text, Bytes}
use movie.Remoting.Text.{Unicode, text_bytes, text_bytes-eq-ok}
use movie.Remoting.Serialization.{check_manifests, encoded_text, max_manifest_bytes}
use movie.Remoting.Wire.Types.{max_u16, max_u32}
use movie.Remoting.Wire.Writer
use movie.Remoting.Wire.Writer.{each, string16_within}
use movie.Remoting.Wire.RoundTrip.{Writes, >>-eq-ok}

pub Writes-u16 : (v : ℕ) → Writes (Writer.u16 v) (v ≤ max_u16)
unfolding Writer.u16 Writer.given
Writes-u16 v = record { at = λ written result q. ground arith }

pub Writes-u32 : (v : ℕ) → Writes (Writer.u32 v) (v ≤ max_u32)
unfolding Writer.u32 Writer.given
Writes-u32 v = record { at = λ written result q. ground arith }

module _ ⦃u : Unicode⦄ where
  -- The text passes the registry's test of it too.
  pub Writes-string16 :
      (maximum : ℕ) (value : Text)
      → maximum ≤ max_u16
      → Writes
          (string16_within maximum true value)
          ((bytes : Bytes) × (encoded_text value maximum ≡ ok bytes))
  unfolding string16_within Writer.given
  Writes-string16 maximum value h = record {
    at = λ written result q.
        let (bytes, p, _) =
          Errors.>>=-eq-ok (text_bytes value (min maximum max_u16) protocol_validation true) _ q in
        (
          bytes,
          (text_bytes-eq-ok value (min maximum max_u16) maximum protocol_validation
              serializer_registry true bytes (omega arith) p).2,
        );
  }

  check_manifests-cons :
      (m : Text) (ms : List Text) (bytes : Bytes)
      → encoded_text m max_manifest_bytes ≡ ok bytes
      → check_manifests ms ≡ ok tt
      → check_manifests (m ∷ ms) ≡ ok tt
  unfolding check_manifests
  check_manifests-cons m ms bytes p h = rw p h

  pub Writes-manifests :
      (ms : List Text)
      → Writes (each (string16_within max_manifest_bytes true) ms) (check_manifests ms ≡ ok tt)
  unfolding each
  Writes-manifests [] = record { at = λ written result q. unfold check_manifests in refl }
  Writes-manifests (m ∷ ms) = record {
    at = λ written result q.
        let (middle, p, p') =
          >>-eq-ok (string16_within max_manifest_bytes true m)
            (each (string16_within max_manifest_bytes true) ms) written result q in
        let (bytes, valid) =
          (Writes-string16 max_manifest_bytes m (omega arith)).at written middle p in
        check_manifests-cons m ms bytes valid ((Writes-manifests ms).at middle result p');
  }
