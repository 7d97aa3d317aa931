-- ===== src/Bucket/Callbacks.antt =====
-- Handing records to the user's callback: inline, or as tasks in the queue of the worker thread
-- (`RunCallbacksInline` and the lambdas of `ReadRecord` and `ReadRecordV2`).
use reduct_cpp.Common.{Bool, true, false, not, List, [], ◌∷◌, if◌then◌else◌}
use reduct_cpp.Batch.{ReadableRecord}
use reduct_cpp.Bucket.{ReadRecordCallback}

module _ {W : Type 0} (callback : ReadRecordCallback W) where
  -- `stopped = !callback(record)`, and the record's own mark if the callback goes on.
  unfoldable pub call : ReadableRecord → W → Bool × W
  call record_ w =
      let answer = callback record_ w in (if not answer.0 then true else record_.last, answer.1)

  -- `RunCallbacksInline`, over `*stopped` and the world.
  unfoldable pub run_callbacks_inline : List ReadableRecord → Bool × W → Bool × W
  unfolding call
  run_callbacks_inline [] s = s
  run_callbacks_inline (r ∷ rs) (true, w) = (true, w)
  run_callbacks_inline (r ∷ rs) (false, w) = run_callbacks_inline rs (call r w)

  -- The body of a task.
  unfoldable pub run_task : ReadableRecord → Bool × W → Bool × W
  unfolding call
  run_task r (true, w) = (true, w)
  run_task r (false, w) = call r w

  -- The worker runs the tasks in the order in which they were queued.
  unfoldable pub run_tasks : List ReadableRecord → Bool × W → Bool × W
  unfolding run_task
  run_tasks [] s = s
  run_tasks (r ∷ rs) s = run_tasks rs (run_task r s)
