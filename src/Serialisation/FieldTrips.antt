-- ===== src/Serialisation/FieldTrips.antt =====
-- Reading back a member of a document.
use mathlib.Core.Option
use reduct_cpp.Common.{◌≡◌, refl, false, Option, none, some, List, [], ◌∷◌, map, Bytes, ok}
use reduct_cpp.Json.{Json}
use reduct_cpp.Serialisation.{set_some, set_parsed}
use reduct_cpp.Serialisation.Fields.{for_each, need, text_at, as_texts, texts_at, optional_at}

module _ (json : Json) where
  pub text_at_lem :
      (key s : Bytes) (doc : json.J)
      → json.at key doc ≡ some (json.text s)
      → text_at json key doc ≡ ok s
  unfolding text_at need
  text_at_lem key s doc h = rw (h, need) (json.as_text-text s)

  for_each-text : (ss : List Bytes) → for_each json.as_text (map json.text ss) ≡ ok ss
  unfolding for_each
  for_each-text [] = refl
  for_each-text (s ∷ ss) = rw (json.as_text-text s, for_each-text ss) refl

  pub texts_at_lem :
      (key : Bytes) (ss : List Bytes) (doc : json.J)
      → json.at key doc ≡ some (json.array (map json.text ss))
      → texts_at json key doc ≡ ok ss
  unfolding texts_at need as_texts
  texts_at_lem key ss doc h =
      rw (h, need, json.as_items-array (map json.text ss)) (for_each-text ss)

  pub optional_text_lem :
      (key : Bytes) (v : Option Bytes) (doc : json.J)
      → json.at key doc ≡ Option.map json.text v
      → optional_at json json.as_text key doc ≡ ok v
  unfolding optional_at
  optional_text_lem key none doc h = rw (h, optional_at) refl
  optional_text_lem key (some s) doc h =
      rw (h, optional_at, json.is_null-text s, json.as_text-text s) refl

  -- A condition that is read back as the text that it is given as: a JSON text, not null, in the
  -- form in which it is written.
  abbrev pub IsCondition : Option Bytes → Type 0
  IsCondition none = Unit
  IsCondition (some text) =
      (v : json.J) × (json.parse text ≡ ok v) × (json.is_null v ≡ false) × (json.dump v ≡ ok text)

  -- The value of a condition.
  abbrev pub condition : (when : Option Bytes) → IsCondition when → Option json.J
  condition none h = none
  condition (some text) h = some h.0

  pub optional_when_lem :
      (key : Bytes) (when : Option Bytes) (h : IsCondition when) (doc : json.J)
      → json.at key doc ≡ Option.map (λ v. v) (condition when h)
      → optional_at json json.dump key doc ≡ ok when
  unfolding optional_at
  optional_when_lem key none h doc e = rw (e, optional_at) refl
  optional_when_lem key (some text) (v, parsed, not_null, dumped) doc e =
      rw (e, optional_at, not_null, dumped) refl

  pub set_parsed_lem :
      (key : Bytes) (when : Option Bytes) (h : IsCondition when) (doc : json.J)
      → set_parsed json key when doc ≡ ok (set_some json (λ v. v) key (condition when h) doc)
  unfolding set_parsed set_some
  set_parsed_lem key none h doc = refl
  set_parsed_lem key (some text) (v, parsed, not_null, dumped) doc = rw (parsed, set_parsed) refl
