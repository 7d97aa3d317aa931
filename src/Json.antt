-- ===== src/Json.antt =====
-- What the code uses of the JSON library nlohmann::json, as it documents it: values of a type `J`.
-- An exception of the library is `thrown`.
pub mod Plain
use reduct_cpp.Common.{
  ℕ, ◌≡◌, ◌≢◌, Bool, true, false, Option, none, some, List, Bytes, Except, ok, thrown,
}

pub record Json : Type 1 where
  pub J : Type 0
  -- A value that is not set.
  pub null : J
  pub text : Bytes → J
  pub number : ℕ → J
  pub boolean : Bool → J
  pub array : List J → J
  -- `json[key] = value`
  pub set : Bytes → J → J → J
  -- `json[key]`, none where `contains` is false.
  pub at : Bytes → J → Option J
  pub as_text : J → Except Bytes
  pub as_number : J → Except ℕ
  pub as_boolean : J → Except Bool
  pub as_items : J → Except (List J)
  -- What a loop over a value goes through, and the members that `items` gives.
  pub elements : J → List J
  pub members : J → List (Bytes × J)
  pub is_null : J → Bool
  -- `parse` and `dump`
  pub parse : Bytes → Except J
  pub dump : J → Except Bytes
  pub at-null : (key : Bytes) → at key null ≡ none
  pub at-set : (key : Bytes) (v json : J) → at key (set key v json) ≡ some v
  pub at-set_other :
      (key other : Bytes) (v json : J) → key ≢ other → at key (set other v json) ≡ at key json
  pub as_text-text : (s : Bytes) → as_text (text s) ≡ ok s
  pub as_number-number : (n : ℕ) → as_number (number n) ≡ ok n
  pub as_boolean-boolean : (b : Bool) → as_boolean (boolean b) ≡ ok b
  pub as_items-array : (vs : List J) → as_items (array vs) ≡ ok vs
  pub is_null-text : (s : Bytes) → is_null (text s) ≡ false
