-- ===== src/Cluster/Json.antt =====
-- JSON values as movie/cluster/_protocol.py reads and writes them.
use movie.Common.{
  ℕ, Bool, true, false, ◌&&◌, List, [], ◌∷◌, Option, none, some, contains, unique, ◌==◌, nat_eq,
  list_eq, if◌then◌else◌,
}
use movie.Remoting.Text.Utf8.{Text}

-- A number that is no natural number is its text, and so is one of the constants NaN and Infinity. A dict is
-- the list of its entries.
mutual
  pub data Json : Type 0 where
    null : Json
    boolean : Bool → Json
    natural : ℕ → Json
    other_number : Text → Json
    constant : Text → Json
    string : Text → Json
    array : JsonArray → Json
    object : JsonObject → Json

  pub data JsonArray : Type 0 where
    end_array : JsonArray
    item : Json → JsonArray → JsonArray

  pub data JsonObject : Type 0 where
    end_object : JsonObject
    entry : Text → Json → JsonObject → JsonObject

unfoldable pub keys : JsonObject → List Text
keys end_object = []
keys (entry key value rest) = key ∷ keys rest

-- `_object_without_duplicates` at each object, and `_reject_json_constant` at each constant: whether
-- neither raises
unfoldable mutual
  pub is_plain : Json → Bool
  is_plain null = true
  is_plain (boolean b) = true
  is_plain (natural n) = true
  is_plain (other_number text) = true
  is_plain (constant text) = false
  is_plain (string text) = true
  is_plain (array items) = is_plain_array items
  is_plain (object entries) = unique (keys entries) && is_plain_object entries

  pub is_plain_array : JsonArray → Bool
  is_plain_array end_array = true
  is_plain_array (item value rest) = is_plain value && is_plain_array rest

  pub is_plain_object : JsonObject → Bool
  is_plain_object end_object = true
  is_plain_object (entry key value rest) = is_plain value && is_plain_object rest

-- What follows a call that returns; none is `ProtocolValidationError`.
infixl 5 ◌>>=◌
abbrev pub ◌>>=◌ : {A B : Type 0} → Option A → (A → Option B) → Option B
none >>= next = none
some a >>= next = next a

unfoldable pub lookup : Text → JsonObject → Option Json
lookup key end_object = none
lookup key (entry name value rest) =
    let on = lookup key rest in if name == key then some value else on

unfoldable pub has_all : List Text → List Text → Bool
has_all names [] = true
has_all names (key ∷ rest) = contains names key && has_all names rest

-- `_require_object`, whose keys are as a set those that are expected
unfoldable pub require_object : List Text → Json → Option JsonObject
require_object expected (object entries) =
    if has_all expected (keys entries) && has_all (keys entries) expected
    then some entries
    else none
require_object expected value = none

-- `isinstance(value, str)`, as the constructors and `_uuid_from_json` ask
abbrev pub as_text : Json → Option Text
as_text (string text) = some text
as_text value = none

-- An `int` that is not negative and no `bool`
abbrev pub as_natural : Json → Option ℕ
as_natural (natural n) = some n
as_natural value = none

-- What a constructor returns.
abbrev pub checked : {A : Type 0} → Bool → A → Option A
checked true a = some a
checked false a = none

abbrev pub text_at : Text → JsonObject → Option Text
text_at key entries = lookup key entries >>= as_text

abbrev pub natural_at : Text → JsonObject → Option ℕ
natural_at key entries = lookup key entries >>= as_natural
