-- ===== src/Bucket/Returns.antt =====
-- How the loop of a query ends.
use reduct_cpp.Common.{
  ◌≡◌, refl, ◌∙◌, ℕ, zero, suc, ◌<◌, Bool, true, false, not, ◌&&◌, ◌||◌, some, Run, done, is_error,
  Result, Error, no_error, ◌==ℤ◌, pos, if◌then◌else◌, Bool-cases, inl, inr, arith,
}
use reduct_cpp.Bucket.Query.{query_loop}

-- After such an answer the loop asks again.
abbrev pub goes_on : Bool → Result Bool → Bool
goes_on continuous r =
    not r.result && (not (is_error r.error) || (continuous && (r.error.code ==ℤ pos 204)))

-- What a query returns after its last answer: no content is the regular end.
abbrev pub end_error : Result Bool → Error
end_error r =
    if not r.result && is_error r.error && not (r.error.code ==ℤ pos 204) then r.error else no_error

-- The tests of the loop as one test.
branches :
    {A : Type 0} (stopped failed no_content continuous : Bool) (rest : A) (f : Error → A)
    (err : Error)
    → (if stopped
        then f no_error
        else if failed
        then (if no_content then (if continuous then rest else f no_error) else f err)
        else rest)
      ≡ (if not stopped && (not failed || (continuous && no_content))
          then rest
          else f (if not stopped && failed && not no_content then err else no_error))
branches true failed no_content continuous rest f err = refl
branches false false no_content continuous rest f err = refl
branches false true false true rest f err = refl
branches false true false false rest f err = refl
branches false true true true rest f err = refl
branches false true true false rest f err = refl

module _ {W : Type 0} (round : W → Run (Result Bool × W)) (continuous : Bool) where
  -- States that are joined by answers after which the loop asks again.
  pub data Polls : W → W → Type 0 where
    here : {w : W} → Polls w w
    next :
        {w v u : W} (r : Result Bool)
        → round w ≡ done (r, v)
        → goes_on continuous r ≡ true
        → Polls v u
        → Polls w u

  -- The last answer `r` of a query that began at `w`, and the state that it leaves.
  pub record End (w : W) : Type 0 where
    pub before : W
    pub answer : Result Bool
    pub after : W
    pub polled : Polls w before
    pub last_round : round before ≡ done (answer, after)
    pub ends : goes_on continuous answer ≡ false

  query_loop_step :
      (n : ℕ) {w v : W} (r : Result Bool)
      → round w ≡ done (r, v)
      → query_loop (suc n) round continuous w ≡ (
          if goes_on continuous r
          then query_loop n round continuous v
          else some (done (end_error r, v)))
  unfolding query_loop
  query_loop_step n {w} {v} r e =
      rw (e, query_loop)
        (branches r.result (is_error r.error) (r.error.code ==ℤ pos 204) continuous
          (query_loop n round continuous v) (λ err. some (done (err, v))) r.error)

  module _ (left : W → ℕ)
      (answers : (w : W)
        → (r : Result Bool) × (v : W) × (round w ≡ done (r, v))
          × (goes_on continuous r ≡ true → left v < left w)) where
    -- Where each answer that lets the loop ask again leaves fewer of them to come, as counted by
    -- `left`, the loop returns within so many rounds: at the first answer that ends it, with that
    -- answer's error unless the callback stopped the query or the error is 204, no content.
    pub query_loop_returns :
        (n : ℕ) (w : W)
        → left w < n
        → (e : End w) × (query_loop n round continuous w
            ≡ some (done (end_error e.answer, e.after)))
    query_loop_returns zero w h = absurd (omega arith)
    query_loop_returns (suc n) w h =
        let given = answers w in
        let found = query_loop_step n given.0 given.2 in
        elim (Bool-cases (goes_on continuous given.0)) [
          | inr stop ↦ (
            record {
              before = w;
              answer = given.0;
              after = given.1;
              polled = here;
              last_round = given.2;
              ends = stop;
            },
            found ∙ rw stop refl,
          )
          | inl again ↦
              let less = given.3 again in
              let ih = query_loop_returns n given.1 (omega arith) in
              (
                record {
                  before = ih.0.before;
                  answer = ih.0.answer;
                  after = ih.0.after;
                  polled = next given.0 given.2 again ih.0.polled;
                  last_round = ih.0.last_round;
                  ends = ih.0.ends;
                },
                found ∙ rw again ih.1,
              )
        ]
