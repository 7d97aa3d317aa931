-- ===== src/Bucket/WorkerTests.antt =====
-- Examples of a bucket's worker and its destructor.
use reduct_cpp.Common.{
  ◌≤◌, ◌≡◌, ◌≢◌, refl, true, Option, none, All, some, List, [], ◌∷◌, ◌++◌, arith,
}
use reduct_cpp.Bucket.Worker.{
  Task, TaskQueue, MayPass, waiting, ended, joining, System, started, submit, go_on, leave, dequeue,
  perform, set_stop, wake, Reach, start, later,
}
use reduct_cpp.Bucket.Turns.{of, held, values, ran-sent, last_ran}
use reduct_cpp.Bucket.Joins.{Steps, GoesOn, joining_ends}

-- A queue that gives each task that may be given.
abbrev Allowed : List (Option Task) → Option Task → List (Option Task) → Type 0
Allowed queue o rest =
    (front : List (Option Task)) × (back : List (Option Task)) × (queue ≡ front ++ (o ∷ back))
    × (rest ≡ front ++ back)
    × All (MayPass o) front

Allowed-gives :
    (queue : List (Option Task))
    → queue ≢ []
    → (o : Option Task) × (rest : List (Option Task)) × Allowed queue o rest
Allowed-gives [] n = absurd (n refl)
Allowed-gives (o ∷ rest) n = (o, rest, ([], rest, refl, refl, tt))

abbrev any_queue : TaskQueue
any_queue = record { takes = Allowed; in_order = λ queue o rest h. h; gives = Allowed-gives }

-- Tasks of two threads.
abbrev first_task : Task
first_task = record { producer = 1; id = 10 }

abbrev second_task : Task
second_task = record { producer = 2; id = 20 }

-- Both are queued, and the worker has run the second one first.
abbrev one_ran : System
one_ran = record started {
  queue = some first_task ∷ [];
  sent = first_task ∷ second_task ∷ [];
  ran = second_task ∷ [];
}

one_ran-Reach : Reach any_queue one_ran
one_ran-Reach =
    later
      (later
        (later (later (later start (submit _ first_task refl)) (submit _ second_task refl))
          (go_on _ refl refl))
        (dequeue _ (some second_task) (some first_task ∷ []) refl
          (some first_task ∷ [], [], refl, refl, ((λ e. absurd (omega (arith, e))), tt))))
      (perform _ second_task refl)

ran-sent_example :
    of 2 one_ran.ran ++ of 2 (held one_ran.worker ++ values one_ran.queue) ≡ of 2 one_ran.sent
ran-sent_example = ran-sent any_queue 2 one_ran-Reach

last_ran_example : of 2 (held one_ran.worker ++ values one_ran.queue) ≡ []
last_ran_example = last_ran any_queue 2 [] second_task 0 one_ran-Reach refl tt refl

-- The destructor waits, and the worker is still to run the task.
abbrev at_join : System
at_join = record one_ran {
  queue = some first_task ∷ none ∷ [];
  stop = true;
  worker = waiting;
  owner = joining;
}

at_join-Reach : Reach any_queue at_join
at_join-Reach =
    later (later (later one_ran-Reach (go_on _ refl refl)) (set_stop _ refl)) (wake _ refl)

abbrev all_ran : System
all_ran = record at_join { queue = none ∷ []; worker = ended; ran = second_task ∷ first_task ∷ [] }

three-Steps : Steps any_queue 3 at_join all_ran
three-Steps = (
  _,
  dequeue at_join (some first_task) (none ∷ []) refl ([], none ∷ [], refl, refl, tt),
  (_, perform _ first_task refl, (_, leave _ refl refl, refl)),
)

joining_ends_example : (3 ≤ 3) × GoesOn any_queue all_ran
joining_ends_example = joining_ends any_queue 3 at_join all_ran at_join-Reach refl three-Steps
