-- ===== src/Bucket/Calls.antt =====
-- Which records the callback sees, and that both ways to call it agree.
use reduct_cpp.Common.{
  ◌≡◌, ◌⊎◌, inl, inr, refl, ap, Bool, true, false, not, List, [], ◌∷◌, ◌++◌, if◌then◌else◌,
}
use reduct_cpp.Batch.{ReadableRecord}
use reduct_cpp.Bucket.{ReadRecordCallback}
use reduct_cpp.Bucket.Callbacks.{call, run_callbacks_inline, run_task, run_tasks}

module _ {W : Type 0} (callback : ReadRecordCallback W) where
  -- Tasks behind a stop change nothing.
  run_tasks_stopped :
      (rs : List ReadableRecord) (w : W) → run_tasks callback rs (true, w) ≡ (true, w)
  unfolding run_tasks run_task
  run_tasks_stopped [] w = refl
  run_tasks_stopped (r ∷ rs) w = run_tasks_stopped rs w

  -- Records queued for the worker thread have the same effects and give the same stop as records
  -- that are handed over inline, from any state.
  pub run_tasks_inline :
      (rs : List ReadableRecord) (s : Bool × W)
      → run_tasks callback rs s ≡ run_callbacks_inline callback rs s
  unfolding run_tasks run_task run_callbacks_inline
  run_tasks_inline [] s = refl
  run_tasks_inline (r ∷ rs) (true, w) = run_tasks_stopped rs w
  run_tasks_inline (r ∷ rs) (false, w) = run_tasks_inline rs (call callback r w)

-- A callback that decides by the record and notes it.
abbrev pub noting : (ReadableRecord → Bool) → ReadRecordCallback (List ReadableRecord)
noting keep r seen = (keep r, seen ++ r ∷ [])

module _ {W : Type 0} (callback : ReadRecordCallback W) where
  -- The state behind calls for all of these records.
  abbrev pub effects : List ReadableRecord → W → W
  effects [] w = w
  effects (r ∷ rs) w = effects rs (callback r w).1

  -- The callback accepts each of them in its turn, and none is marked as the last one.
  abbrev pub AllGo : List ReadableRecord → W → Type 0
  AllGo [] w = Unit
  AllGo (r ∷ rs) w = ((callback r w).0 ≡ true) × (r.last ≡ false) × AllGo rs (callback r w).1

  abbrev pub Stops : ReadableRecord → W → Type 0
  Stops r w = ((callback r w).0 ≡ false) ⊎ (r.last ≡ true)

  -- Either no record stops and all are seen, or the first one that stops is the last one seen.
  abbrev pub Seen : List ReadableRecord → W → Bool × W → Type 0
  Seen rs w result =
      (AllGo rs w × (result ≡ (false, effects rs w)))
      ⊎ ((front : List ReadableRecord) × (r : ReadableRecord) × (back : List ReadableRecord) × (rs
            ≡ front ++ r ∷ back)
          × AllGo front w
          × Stops r (effects front w)
          × (result ≡ (true, effects (r ∷ []) (effects front w))))

  inline_stopped :
      (rs : List ReadableRecord) (w : W) → run_callbacks_inline callback rs (true, w) ≡ (true, w)
  unfolding run_callbacks_inline
  inline_stopped [] w = refl
  inline_stopped (r ∷ rs) w = refl

  -- One record, by the callback's answer and the record's mark.
  sees_step :
      (r : ReadableRecord) (rs : List ReadableRecord) (w : W) (goes is_last : Bool)
      → (callback r w).0 ≡ goes
      → r.last ≡ is_last
      → Seen rs (callback r w).1 (run_callbacks_inline callback rs (false, (callback r w).1))
      → Seen
          (r ∷ rs)
          w
          (run_callbacks_inline callback rs (if not goes then true else is_last, (callback r w).1))
  sees_step r rs w false is_last e f ih =
      inr ([], r, rs, refl, tt, inl e, inline_stopped rs (callback r w).1)
  sees_step r rs w true true e f ih =
      inr ([], r, rs, refl, tt, inr f, inline_stopped rs (callback r w).1)
  sees_step r rs w true false e f (inl (all, g)) = inl ((e, f, all), g)
  sees_step r rs w true false e f (inr (front, s, back, split, all, stops, g)) =
      inr (r ∷ front, s, back, ap (◌∷◌ r) split, (e, f, all), stops, g)

  -- For any callback and any state: the callback is called for the records in their order, up to
  -- and including the first one that it refuses or that is marked as the last one, and for no
  -- record behind that. The run is stopped exactly if there is such a record.
  pub run_callbacks_inline_sees :
      (rs : List ReadableRecord) (w : W) → Seen rs w (run_callbacks_inline callback rs (false, w))
  unfolding run_callbacks_inline call
  run_callbacks_inline_sees [] w = inl (tt, refl)
  run_callbacks_inline_sees (r ∷ rs) w =
      sees_step r rs w (callback r w).0 r.last refl refl
        (run_callbacks_inline_sees rs (callback r w).1)
