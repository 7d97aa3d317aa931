-- ===== src/Bucket/Turns.antt =====
-- The worker runs the tasks of each thread once and in the order in which the thread queued them.
use mathlib.Core.Path.{subst, ap₂}
use reduct_cpp.Common.{
  ℕ, zero, suc, get_elem?, ◌⊎◌, inl, inr, ◌≡◌, ◌≢◌, refl, sym, ap, ◌∙◌, Option, none, some, List,
  [], ◌∷◌, ◌++◌, append_assoc, append-nil, ◌==◌, All, arith, if◌then◌else◌,
}
use reduct_cpp.Bucket.Worker.{
  Task, Phase, testing, waiting, ended, holding, System, TaskQueue, MayPass, Step, submit, go_on,
  leave, dequeue, perform, pass, set_stop, wake, Reach, start, later,
}

-- The tasks of one thread.
abbrev pub of : ℕ → List Task → List Task
of p [] = []
of p (t ∷ ts) = if t.producer == p then t ∷ of p ts else of p ts

-- The tasks in the queue, and the one that the worker holds.
abbrev pub values : List (Option Task) → List Task
values [] = []
values (none ∷ queue) = values queue
values (some t ∷ queue) = t ∷ values queue

abbrev pub held : Phase → List Task
held (holding (some t)) = t ∷ []
held (holding none) = []
held testing = []
held waiting = []
held ended = []

of-append : (p : ℕ) (ts us : List Task) → of p (ts ++ us) ≡ of p ts ++ of p us
of-append p [] us = refl
of-append p (t ∷ ts) us = ground (arith, of-append p ts us)

values-append : (q r : List (Option Task)) → values (q ++ r) ≡ values q ++ values r
values-append [] r = refl
values-append (none ∷ q) r = values-append q r
values-append (some t ∷ q) r = ap (◌∷◌ t) (values-append q r)

-- A task that is taken from behind others was the first of its thread.
dequeue_first :
    (p : ℕ) (front : List (Option Task)) (o : Option Task) (back : List (Option Task))
    → All (MayPass o) front
    → of p (values (front ++ (o ∷ back))) ≡ of p (held (holding o) ++ values (front ++ back))
dequeue_first p [] none back h = refl
dequeue_first p [] (some t) back h = refl
dequeue_first p (none ∷ front) o back (_, h) = dequeue_first p front o back h
dequeue_first p (some u ∷ front) none back (_, h) =
    ground (arith, dequeue_first p front none back h)
dequeue_first p (some u ∷ front) (some t) back (other, h) =
    ground (arith, dequeue_first p front (some t) back h, other)

-- What was run and what is still to run, in their order, are what was queued.
abbrev Matches : ℕ → List Task → Phase → List (Option Task) → List Task → Type 0
Matches p ran worker queue sent = of p ran ++ of p (held worker ++ values queue) ≡ of p sent

submit-Matches :
    (p : ℕ) (ran : List Task) (w : Phase) (queue : List (Option Task)) (sent : List Task) (t : Task)
    → Matches p ran w queue sent
    → Matches p ran w (queue ++ some t ∷ []) (sent ++ t ∷ [])
submit-Matches p ran w queue sent t h =
    let more : List Task = t ∷ [] in
    ap (λ vs. of p ran ++ of p (held w ++ vs)) (values-append queue (some t ∷ []))
    ∙ ap (λ vs. of p ran ++ of p vs) (sym (append_assoc (held w) (values queue) more))
    ∙ ap (◌++◌ (of p ran)) (of-append p (held w ++ values queue) more)
    ∙ sym (append_assoc (of p ran) (of p (held w ++ values queue)) (of p more))
    ∙ ap (λ vs. vs ++ of p more) h
    ∙ sym (of-append p sent more)

perform-Matches :
    (p : ℕ) (ran : List Task) (queue : List (Option Task)) (sent : List Task) (t : Task)
    → Matches p ran (holding (some t)) queue sent
    → Matches p (ran ++ t ∷ []) testing queue sent
perform-Matches p ran queue sent t h =
    let more : List Task = t ∷ [] in
    ap (λ vs. vs ++ of p (values queue)) (of-append p ran more)
    ∙ append_assoc (of p ran) (of p more) (of p (values queue))
    ∙ ap (◌++◌ (of p ran)) (sym (of-append p more (values queue)))
    ∙ h

wake-Matches :
    (p : ℕ) (ran : List Task) (w : Phase) (queue : List (Option Task)) (sent : List Task)
    → Matches p ran w queue sent
    → Matches p ran w (queue ++ none ∷ []) sent
wake-Matches p ran w queue sent h =
    ap (λ vs. of p ran ++ of p (held w ++ vs))
      (values-append queue (none ∷ []) ∙ append-nil (values queue))
    ∙ h

dequeue-Matches :
    (p : ℕ) (ran : List Task) (front : List (Option Task)) (o : Option Task)
    (back : List (Option Task)) (sent : List Task)
    → All (MayPass o) front
    → Matches p ran waiting (front ++ (o ∷ back)) sent
    → Matches p ran (holding o) (front ++ back) sent
dequeue-Matches p ran front o back sent first h =
    ap (◌++◌ (of p ran)) (sym (dequeue_first p front o back first)) ∙ h

Step-Matches :
    (q : TaskQueue) (p : ℕ) {s t : System}
    → Step q s t
    → Matches p s.ran s.worker s.queue s.sent
    → Matches p t.ran t.worker t.queue t.sent
Step-Matches q p (submit s t e) h = submit-Matches p s.ran s.worker s.queue s.sent t h
Step-Matches q p (go_on s e f) h = subst (λ w. Matches p s.ran w s.queue s.sent) e h
Step-Matches q p (leave s e f) h = subst (λ w. Matches p s.ran w s.queue s.sent) e h
Step-Matches q p (dequeue s o rest e taken) h =
    let (front, back, whole, left, first) = q.in_order s.queue o rest taken in
    subst (λ queue. Matches p s.ran (holding o) queue s.sent) (sym left)
      (dequeue-Matches p s.ran front o back s.sent first (
        subst (λ queue. Matches p s.ran waiting queue s.sent) whole
          (subst (λ w. Matches p s.ran w s.queue s.sent) e h)))
Step-Matches q p (perform s t e) h =
    perform-Matches p s.ran s.queue s.sent t (subst (λ w. Matches p s.ran w s.queue s.sent) e h)
Step-Matches q p (pass s e) h = subst (λ w. Matches p s.ran w s.queue s.sent) e h
Step-Matches q p (set_stop s e) h = h
Step-Matches q p (wake s e) h = wake-Matches p s.ran s.worker s.queue s.sent h

-- In each state that a bucket reaches, by whatever steps of its user, its destructor and its
-- worker, the tasks of a thread that were run, followed by the one that the worker holds and those
-- in the queue, are the tasks that the thread queued, each once and in their order: where a task
-- was run, all that its thread queued before it were run.
pub ran-sent :
    (q : TaskQueue) (p : ℕ) {s : System}
    → Reach q s
    → of p s.ran ++ of p (held s.worker ++ values s.queue) ≡ of p s.sent
ran-sent q p start = refl
ran-sent q p (later r st) = Step-Matches q p st (ran-sent q p r)

append-ne-nil : (xs : List Task) (y : Task) (ys : List Task) → (xs ++ (y ∷ ys)) ≢ []
append-ne-nil [] y ys = cc
append-ne-nil (x ∷ xs) y ys = cc

-- What ends with one element holds all of it, or ends before it.
append_split :
    (xs ys zs : List Task) (t : Task)
    → xs ++ ys ≡ zs ++ t ∷ []
    → (ys ≡ []) ⊎ ((ws : List Task) × (zs ≡ xs ++ ws))
append_split xs [] zs t e = inl refl
append_split [] (y ∷ ys) zs t e = inr (zs, refl)
append_split (x ∷ xs) (y ∷ ys) [] t e = absurd (append-ne-nil xs y ys (ground arith))
append_split (x ∷ xs) (y ∷ ys) (z ∷ zs) t e =
    let first : z ≡ x = ground arith in
    let rest : xs ++ (y ∷ ys) ≡ zs ++ t ∷ [] = ground arith in
    elim (append_split xs (y ∷ ys) zs t rest) [
      | inl none_left ↦ inl none_left
      | inr (ws, split) ↦ inr (ws, ap₂ ◌∷◌ first split)
    ]

get_elem?-All :
    (P : Task → Type 0) (xs ws : List Task) (i : ℕ) (t : Task)
    → All P (xs ++ ws)
    → get_elem? xs i ≡ some t
    → P t
get_elem?-All P [] ws i t h e = cc
get_elem?-All P (x ∷ xs) ws zero t (p, h) e = subst P (ground arith) p
get_elem?-All P (x ∷ xs) ws (suc i) t (p, h) e = get_elem?-All P xs ws i t h e

-- In each state that a bucket reaches: if the task that a thread queued last was run, and no other
-- of its tasks has its number, then none of the thread's tasks is left, in the queue or with the
-- worker. So a call that waits for its last task may let go of what its tasks refer to.
pub last_ran :
    (q : TaskQueue) (p : ℕ) {s : System} (before : List Task) (t : Task) (i : ℕ)
    → Reach q s
    → of p s.sent ≡ before ++ t ∷ []
    → All (λ u. u.id ≢ t.id) before
    → get_elem? (of p s.ran) i ≡ some t
    → of p (held s.worker ++ values s.queue) ≡ []
last_ran q p {s} before t i r sent others ran =
    elim (append_split (of p s.ran) (of p (held s.worker ++ values s.queue)) before t
      (ran-sent q p r ∙ sent)) [
        | inl none_left ↦ none_left
        | inr (ws, split) ↦ absurd (
            get_elem?-All (λ u. u.id ≢ t.id) (of p s.ran) ws i t
              (subst (All (λ u. u.id ≢ t.id)) split others) ran refl)
      ]
