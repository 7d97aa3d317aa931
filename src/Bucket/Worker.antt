-- ===== src/Bucket/Worker.antt =====
-- The worker thread of a bucket, its queue of tasks, and the destructor that ends it (the
-- constructor and the destructor of `Bucket`), as steps that interleave.
use reduct_cpp.Common.{ℕ, ◌≡◌, ◌≢◌, Bool, true, false, Option, none, some, List, [], ◌∷◌, ◌++◌, All}

-- A task: the thread that queued it, and a number that stands for what it does.
pub record Task : Type 0 where
  pub producer : ℕ
  pub id : ℕ

-- Where the worker is in its loop: before the test of `stop_`, in `wait_dequeue`, with a task that
-- it has taken (`none` is the empty `Task{}`, which is not valid), or behind the loop.
pub data Phase : Type 0 where
  testing waiting ended : Phase
  holding : Option Task → Phase

-- Where the owner is: using the bucket, behind `stop_ = true` of the destructor, or behind the
-- empty task, in `worker_.join()`.
pub data Owner : Type 0 where
  using stopping joining : Owner

-- The bucket with its thread. `sent` and `ran` keep what was queued and what was run, in their
-- order.
pub record System : Type 0 where
  pub queue : List (Option Task)
  pub stop : Bool
  pub worker : Phase
  pub owner : Owner
  pub sent : List Task
  pub ran : List Task

abbrev pub started : System
started = record { queue = []; stop = false; worker = testing; owner = using; sent = []; ran = [] }

-- A task that another one of the same thread stands before is not taken; an empty one may be.
abbrev pub MayPass : Option Task → Option Task → Type 0
MayPass none o = Unit
MayPass (some t) none = Unit
MayPass (some t) (some u) = u.producer ≢ t.producer

-- What is relied on of `moodycamel::BlockingConcurrentQueue`: a task that is taken stood in the
-- queue, with none of the same producer before it, and is taken out of it; and where the queue is
-- not empty, `wait_dequeue` returns. How the tasks of several producers are mixed is left open.
pub record TaskQueue : Type 1 where
  pub takes : List (Option Task) → Option Task → List (Option Task) → Type 0
  pub in_order :
      (queue : List (Option Task)) (o : Option Task) (rest : List (Option Task))
      → takes queue o rest
      → (front : List (Option Task)) × (back : List (Option Task)) × (queue ≡ front ++ (o ∷ back))
        × (rest ≡ front ++ back)
        × All (MayPass o) front
  pub gives :
      (queue : List (Option Task))
      → queue ≢ []
      → (o : Option Task) × (rest : List (Option Task)) × takes queue o rest

-- One step of a thread.
pub data Step (q : TaskQueue) : System → System → Type 0 where
  submit :
      (s : System) (t : Task)
      → s.owner ≡ using
      → Step q s (record s { queue = s.queue ++ some t ∷ []; sent = s.sent ++ t ∷ [] })
  go_on :
      (s : System) → s.worker ≡ testing → s.stop ≡ false → Step q s (record s { worker = waiting })
  leave : (s : System) → s.worker ≡ testing → s.stop ≡ true → Step q s (record s { worker = ended })
  dequeue :
      (s : System) (o : Option Task) (rest : List (Option Task))
      → s.worker ≡ waiting
      → q.takes s.queue o rest
      → Step q s (record s { queue = rest; worker = holding o })
  perform :
      (s : System) (t : Task)
      → s.worker ≡ holding (some t)
      → Step q s (record s { worker = testing; ran = s.ran ++ t ∷ [] })
  pass : (s : System) → s.worker ≡ holding none → Step q s (record s { worker = testing })
  set_stop : (s : System) → s.owner ≡ using → Step q s (record s { stop = true; owner = stopping })
  wake :
      (s : System)
      → s.owner ≡ stopping
      → Step q s (record s { queue = s.queue ++ none ∷ []; owner = joining })

-- What is reached from a bucket that was just built.
pub data Reach (q : TaskQueue) : System → Type 0 where
  start : Reach q started
  later : {s t : System} → Reach q s → Step q s t → Reach q t
