-- ===== src/BatchV2/Answers.antt =====
-- What `ProcessBatchV2` and `ProcessBatchV2Records` share: no request is sent for no records.
use reduct_cpp.Common.{
  ℕ, ◌≡◌, ◌≢◌, refl, sym, ap, ◌∙◌, Option, none, some, List, [], ◌∷◌, map, get_elem?, Except, ok,
  no_error, Result, arith,
}
use reduct_cpp.Batch.{Batch, Record}
use reduct_cpp.BatchV1.{record_at}
use reduct_cpp.BatchV2.Build.{BatchRequest}

-- The answer to a request for some records; for none it is empty.
abbrev pub answer : {A : Type 0} → List ℕ → Except (Result (List A)) → Except (Result (List A))
answer [] resp = ok (record { result = []; error = no_error })
answer (idx ∷ rest) resp = resp

pub answer_lem :
    {A W : Type 0} (ordered : List ℕ) (w : W) (resp : Except (Result (List A)) × W)
    → (elim ordered as (λ _. Except (Result (List A)) × W) [
      | [] ↦ (ok (record { result = []; error = no_error }), w)
      | idx ∷ rest ↦ resp
    ]).0
      ≡ answer ordered resp.0
answer_lem [] w resp = refl
answer_lem (idx ∷ rest) w resp = refl

-- A request for no records has none at any place.
pub no_record :
    (request : BatchRequest) (batch : Batch) (i : ℕ) (r : Record)
    → request.ordered ≡ []
    → get_elem? (map (record_at batch.records) request.ordered) i ≢ some r
no_record request batch i r e at =
    let bad : ◌≡◌ {A = Option Record} none (some r) =
      sym (ap (λ (o : List ℕ). get_elem? (map (record_at batch.records) o) i) e) ∙ at in
    absurd (ground arith)
