-- ===== src/Json.antt =====
-- JSON values, as rapidjson holds them: a number is an integer or a double, and an object is the
-- list of its members in the order of the document. A double stands as the text that
-- `std::to_string` prints of it, since the program only prints and compares doubles.
use ldp.Base.{ℕ, suc, Bool, ◌∷◌, Option, none, some, Bytes, equal, to_string, if◌then◌else◌}

-- `negsuc n` is -(n + 1).
pub data ℤ : Type 0 where
  pos : ℕ → ℤ
  negsuc : ℕ → ℤ

-- `to_string` of a signed integer.
unfoldable pub integer_to_string : ℤ → Bytes
integer_to_string (pos n) = to_string n
integer_to_string (negsuc n) = b'-' ∷ to_string (suc n)

pub data Number : Type 0 where
  integer : ℤ → Number
  double : Bytes → Number

mutual
  pub data Value : Type 0 where
    null : Value
    boolean : Bool → Value
    number : Number → Value
    string : Bytes → Value
    array : Items → Value
    object : Members → Value

  pub data Items : Type 0 where
    nil : Items
    cons : Value → Items → Items

  pub data Members : Type 0 where
    end : Members
    member : Bytes → Value → Members → Members

-- What the program uses of rapidjson, which is no part of the repository.
pub record Rapidjson : Type 0 where
  -- `ParseInsitu` with trailing commas allowed.
  pub parse : Bytes → Value
  -- `PrettyWriter` and `Writer`.
  pub pretty : Value → Bytes
  pub compact : Value → Bytes
  -- `Pointer(path).Get(document)`.
  pub pointer_get : Bytes → Value → Option Value
  -- `Pointer(path).Set(document, value)`: the document that it leaves.
  pub pointer_set : Bytes → Value → Value → Value
  pub get_int : Value → ℤ
  pub get_bool : Value → Bool
  -- `to_string(value.GetDouble())`, and whether the double is above 10^10.
  pub get_double : Value → Bytes
  pub exceeds_limit : Value → Bool

-- The first member of a name, as `HasMember` and `operator[]` find it.
first_member : Bytes → Members → Option Value
first_member name end = none
first_member name (member k v ms) = if equal k name then some v else first_member name ms

unfoldable pub get_member : Bytes → Value → Option Value
unfolding first_member
get_member name (object ms) = first_member name ms
get_member name _ = none
