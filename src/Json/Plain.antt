-- ===== src/Json/Plain.antt =====
-- A small JSON library with the documented behaviour, for examples: it reads nothing but `{}`.
use reduct_cpp.Common.{
  ℕ, ◌≡◌, ◌≢◌, refl, sym, Bool, true, false, Option, none, some, List, [], ◌∷◌, Bytes, codes, ◌=?◌,
  =?_iff, =?_refl, if◌then◌else◌, Except, ok, thrown, ◌>>=◌, Bool-cases, inl, inr,
}
use reduct_cpp.Json.{Json}

pub data Value : Type 0 where
  nothing no_items no_members : Value
  word : Bytes → Value
  count : ℕ → Value
  flag : Bool → Value
  item : Value → Value → Value
  member : Bytes → Value → Value → Value

unfoldable pub member_at : Bytes → Value → Option Value
member_at key (member k v rest) = if k =? key then some v else member_at key rest
member_at key _ = none

abbrev pub items : List Value → Value
items [] = no_items
items (v ∷ vs) = item v (items vs)

abbrev pub read_items : Value → Except (List Value)
read_items no_items = ok []
read_items (item v rest) = do vs ← read_items rest; ok (v ∷ vs)
read_items _ = thrown

abbrev pub read_word : Value → Except Bytes
read_word (word s) = ok s
read_word _ = thrown

abbrev pub read_count : Value → Except ℕ
read_count (count n) = ok n
read_count _ = thrown

abbrev pub read_flag : Value → Except Bool
read_flag (flag b) = ok b
read_flag _ = thrown

-- The values behind a loop: the items of an array, or the members of an object.
abbrev elements_of : Value → List Value
elements_of (item v rest) = v ∷ elements_of rest
elements_of (member k v rest) = v ∷ elements_of rest
elements_of _ = []

abbrev members_of : Value → List (Bytes × Value)
members_of (member k v rest) = (k, v) ∷ members_of rest
members_of _ = []

abbrev pub is_nothing : Value → Bool
is_nothing nothing = true
is_nothing _ = false

pub member_at-set : (key : Bytes) (v rest : Value) → member_at key (member key v rest) ≡ some v
unfolding member_at
member_at-set key v rest = rw (=?_refl key) refl

pub member_at-set_other :
    (key other : Bytes) (v rest : Value)
    → key ≢ other
    → member_at key (member other v rest) ≡ member_at key rest
unfolding member_at
member_at-set_other key other v rest ne = elim (Bool-cases (other =? key)) [
  | inl same ↦ absurd (ne (sym ((=?_iff other key).0 same)))
  | inr differ ↦ rw differ refl
]

pub read_items-items : (vs : List Value) → read_items (items vs) ≡ ok vs
read_items-items [] = refl
read_items-items (v ∷ vs) = rw (read_items-items vs) refl

unfoldable pub plain_json : Json
unfolding member_at
plain_json = record {
  J = Value;
  null = nothing;
  text = word;
  number = count;
  boolean = flag;
  array = items;
  set = member;
  at = member_at;
  as_text = read_word;
  as_number = read_count;
  as_boolean = read_flag;
  as_items = read_items;
  elements = elements_of;
  members = members_of;
  is_null = is_nothing;
  parse = λ s. if s =? codes "{}" then ok no_members else thrown;
  dump = λ v. ok (codes "{}");
  at-null = λ key. refl;
  at-set = member_at-set;
  at-set_other = member_at-set_other;
  as_text-text = λ s. refl;
  as_number-number = λ n. refl;
  as_boolean-boolean = λ b. refl;
  as_items-array = read_items-items;
  is_null-text = λ s. refl;
}
