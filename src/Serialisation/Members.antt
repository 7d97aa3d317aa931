-- ===== src/Serialisation/Members.antt =====
-- What stands under a key of a document that was written member by member.
use mathlib.Core.Option
use reduct_cpp.Common.{
  ◌≡◌, refl, ap, ◌∙◌, ◌=?◌, =?_iff, Bool-cases, inl, inr, if◌then◌else◌, Option, none, some, Bytes,
  arith,
}
use reduct_cpp.Json.{Json}
use reduct_cpp.Serialisation.{set_some}

module _ (json : Json) where
  -- What an optional member leaves of what stood under its key.
  abbrev pub set_over : {A : Type 0} → (A → json.J) → Option A → Option json.J → Option json.J
  set_over write none before = before
  set_over write (some a) before = some (write a)

  pub set_over_nothing :
      {A : Type 0} (write : A → json.J) (v : Option A) → set_over write v none ≡ Option.map write v
  set_over_nothing write none = refl
  set_over_nothing write (some a) = refl

  pub at-set_if :
      (key other : Bytes) (v doc : json.J)
      → json.at key (json.set other v doc) ≡ (if key =? other then some v else json.at key doc)
  at-set_if key other v doc = elim (Bool-cases (key =? other)) [
    | inl same ↦ rw same (
        ap (λ k. json.at k (json.set other v doc)) ((=?_iff key other).0 same)
        ∙ json.at-set other v doc)
    | inr differ ↦
        rw differ (json.at-set_other key other v doc (λ e. let t = (=?_iff key other).1 e in cc))
  ]

  pub at-set_some :
      {A : Type 0} (write : A → json.J) (key other : Bytes) (v : Option A) (doc : json.J)
      → json.at key (set_some json write other v doc)
        ≡ (if key =? other then set_over write v (json.at key doc) else json.at key doc)
  unfolding set_some
  at-set_some write key other none doc = ground arith
  at-set_some write key other (some v) doc = at-set_if key other (write v) doc

-- The laws that find a member, which simp uses down to the empty document.
pub ruleset member_laws = (at-set_if, at-set_some, set_over_nothing)
