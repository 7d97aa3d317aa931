-- ===== src/Serialisation/Fields.antt =====
-- How a member of a document is read (src/reduct/internal/serialisation.cc and
-- src/reduct/client.cc): `at`, `value`, and the tests with `contains` and `is_null`.
use reduct_cpp.Common.{
  ℕ, Bool, Option, none, some, List, [], ◌∷◌, Bytes, if◌then◌else◌, Except, ok, thrown, ◌>>=◌,
}
use reduct_cpp.Json.{Json}

-- A call for each of some values, in their order.
unfoldable pub for_each : {A B : Type 0} → (A → Except B) → List A → Except (List B)
for_each f [] = ok []
for_each f (a ∷ as') = f a >>= λ b. for_each f as' >>= λ bs. ok (b ∷ bs)

module _ (json : Json) where
  -- `json.at(key)`, which throws where the member is missing.
  unfoldable pub need : Bytes → json.J → Except json.J
  need key doc = elim (json.at key doc) [ none ↦ thrown | some v ↦ ok v ]

  unfoldable pub text_at : Bytes → json.J → Except Bytes
  unfolding need
  text_at key doc = need key doc >>= json.as_text

  unfoldable pub count_at : Bytes → json.J → Except ℕ
  unfolding need
  count_at key doc = need key doc >>= json.as_number

  unfoldable pub flag_at : Bytes → json.J → Except Bool
  unfolding need
  flag_at key doc = need key doc >>= json.as_boolean

  -- A list of texts.
  unfoldable pub as_texts : json.J → Except (List Bytes)
  unfolding for_each
  as_texts v = json.as_items v >>= for_each json.as_text

  unfoldable pub texts_at : Bytes → json.J → Except (List Bytes)
  unfolding need as_texts
  texts_at key doc = need key doc >>= as_texts

  -- `json.value(key, otherwise)` of an object.
  unfoldable pub value_or : {A : Type 0} → (json.J → Except A) → A → Bytes → json.J → Except A
  value_or read otherwise key doc = elim (json.at key doc) [ none ↦ ok otherwise | some v ↦ read v ]

  -- A member that is there and not null.
  unfoldable pub optional_at :
      {A : Type 0} → (json.J → Except A) → Bytes → json.J → Except (Option A)
  optional_at read key doc = elim (json.at key doc) [
    | none ↦ ok none
    | some v ↦ if json.is_null v then ok none else (read v >>= λ a. ok (some a))
  ]
