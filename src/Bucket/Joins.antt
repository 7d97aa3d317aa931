-- ===== src/Bucket/Joins.antt =====
-- The destructor of a bucket returns: once it waits for the worker's thread, the worker ends.
use mathlib.Core.Path.{subst}
use reduct_cpp.Common.{
  ℕ, zero, suc, ◌+◌, ◌≤◌, ◌<◌, ◌≡◌, ◌≢◌, ◌⊎◌, inl, inr, refl, sym, ap, ◌∙◌, Bool, true, false,
  Option, none, some, List, [], ◌∷◌, ◌++◌, arith,
}
use reduct_cpp.Bucket.Worker.{
  Task, Phase, testing, waiting, ended, holding, Owner, using, stopping, joining, System, TaskQueue,
  Step, submit, go_on, leave, dequeue, perform, pass, set_stop, wake, Reach, start, later,
}

-- What is so while the owner uses the bucket, stops it and waits for the worker: in the end the
-- worker does not wait for an empty queue.
abbrev Wakes : Owner → Bool → Phase → List (Option Task) → Type 0
Wakes using stop worker queue = Unit
Wakes stopping stop worker queue = stop ≡ true
Wakes joining stop worker queue = (stop ≡ true) × ((worker ≢ waiting) ⊎ (queue ≢ []))

append-ne-nil : {A : Type 0} (xs : List A) (x : A) → (xs ++ x ∷ []) ≢ []
append-ne-nil [] x = cc
append-ne-nil (y ∷ xs) x = cc

-- A step of the worker that does not lead into `wait_dequeue` keeps it.
moved-Wakes :
    (o : Owner) (stop : Bool) (worker next : Phase) (queue rest : List (Option Task))
    → next ≢ waiting
    → Wakes o stop worker queue
    → Wakes o stop next rest
moved-Wakes using stop worker next queue rest n h = tt
moved-Wakes stopping stop worker next queue rest n h = h
moved-Wakes joining stop worker next queue rest n (e, h) = (e, inl n)

waits-Wakes :
    (o : Owner) (stop : Bool) (worker : Phase) (queue : List (Option Task))
    → stop ≡ false
    → Wakes o stop worker queue
    → Wakes o stop waiting queue
waits-Wakes using stop worker queue e h = tt
waits-Wakes stopping stop worker queue e h = h
waits-Wakes joining stop worker queue e (f, h) = cc

-- How many steps the worker still takes.
abbrev cost : Phase → ℕ
cost ended = 0
cost testing = 1
cost (holding o) = 2
cost waiting = 3

-- What stays while the owner waits.
abbrev Joined : System → Type 0
Joined s = (s.owner ≡ joining) × (s.stop ≡ true)

cost_small : (w : Phase) → cost w ≤ 3
cost_small ended = omega arith
cost_small testing = omega arith
cost_small (holding o) = omega arith
cost_small waiting = omega arith

module _ (q : TaskQueue) where
  Step-Wakes :
      {s t : System}
      → Step q s t
      → Wakes s.owner s.stop s.worker s.queue
      → Wakes t.owner t.stop t.worker t.queue
  Step-Wakes (submit s t e) h =
      subst (λ o. Wakes o s.stop s.worker (s.queue ++ some t ∷ [])) (sym e) tt
  Step-Wakes (go_on s e f) h = waits-Wakes s.owner s.stop s.worker s.queue f h
  Step-Wakes (leave s e f) h = moved-Wakes s.owner s.stop s.worker ended s.queue s.queue (cc) h
  Step-Wakes (dequeue s o rest e taken) h =
      moved-Wakes s.owner s.stop s.worker (holding o) s.queue rest (cc) h
  Step-Wakes (perform s t e) h = moved-Wakes s.owner s.stop s.worker testing s.queue s.queue (cc) h
  Step-Wakes (pass s e) h = moved-Wakes s.owner s.stop s.worker testing s.queue s.queue (cc) h
  Step-Wakes (set_stop s e) h = refl
  Step-Wakes (wake s e) h =
      (subst (λ o. Wakes o s.stop s.worker s.queue) e h, inr (append-ne-nil s.queue none))

  Reach-Wakes : {s : System} → Reach q s → Wakes s.owner s.stop s.worker s.queue
  Reach-Wakes start = tt
  Reach-Wakes (later r st) = Step-Wakes st (Reach-Wakes r)

  -- A number of steps, one behind the other.
  abbrev pub Steps : ℕ → System → System → Type 0
  Steps zero s u = s ≡ u
  Steps (suc n) s u = (t : System) × Step q s t × Steps n t u

  Step-cost : {s t : System} → Step q s t → Joined s → (cost t.worker < cost s.worker) × Joined t
  Step-cost (submit s t e) (j, f) = cc (sym e ∙ j)
  Step-cost (go_on s e g) (j, f) = cc (sym f ∙ g)
  Step-cost (leave s e g) h = (omega (arith, ap cost e), h)
  Step-cost (dequeue s o rest e taken) h = (omega (arith, ap cost e), h)
  Step-cost (perform s t e) h = (omega (arith, ap cost e), h)
  Step-cost (pass s e) h = (omega (arith, ap cost e), h)
  Step-cost (set_stop s e) (j, f) = cc (sym e ∙ j)
  Step-cost (wake s e) (j, f) = cc (sym e ∙ j)

  Steps-cost :
      (n : ℕ) (s u : System)
      → Steps n s u
      → Joined s
      → (n + cost u.worker ≤ cost s.worker) × Joined u
  Steps-cost zero s u e h = (omega (arith, ap (λ (t : System). cost t.worker) e), subst Joined e h)
  Steps-cost (suc n) s u (t, st, rest) h =
      let (less, g) = Step-cost st h in let (bound, k) = Steps-cost n t u rest g in (omega arith, k)

  Reach-Steps : (n : ℕ) (s u : System) → Reach q s → Steps n s u → Reach q u
  Reach-Steps zero s u r e = subst (Reach q) e r
  Reach-Steps (suc n) s u r (t, st, rest) = Reach-Steps n t u (later r st) rest

  -- The worker has ended, or it can go on.
  abbrev pub GoesOn : System → Type 0
  GoesOn s = (s.worker ≡ ended) ⊎ ((t : System) × Step q s t)

  waiting-GoesOn :
      (s : System) → s.worker ≡ waiting → (s.worker ≢ waiting) ⊎ (s.queue ≢ []) → GoesOn s
  waiting-GoesOn s e (inl n) = absurd (n e)
  waiting-GoesOn s e (inr n) =
      let (o, rest, taken) = q.gives s.queue n in inr (_, dequeue s o rest e taken)

  joined-GoesOn :
      (s : System) (w : Phase)
      → s.worker ≡ w
      → s.stop ≡ true
      → (s.worker ≢ waiting) ⊎ (s.queue ≢ [])
      → GoesOn s
  joined-GoesOn s testing e f h = inr (_, leave s e f)
  joined-GoesOn s waiting e f h = waiting-GoesOn s e h
  joined-GoesOn s ended e f h = inl e
  joined-GoesOn s (holding none) e f h = inr (_, pass s e)
  joined-GoesOn s (holding (some t)) e f h = inr (_, perform s t e)

  -- Whatever a bucket reached before its destructor waits for the worker's thread: from there at
  -- most three steps are taken, and where no more step can be taken the worker has ended, so that
  -- the wait is over. The empty task that the destructor queues is enough to wake the worker.
  pub joining_ends :
      (n : ℕ) (s u : System) → Reach q s → s.owner ≡ joining → Steps n s u → (n ≤ 3) × GoesOn u
  joining_ends n s u r e steps =
      let (stop, _) = subst (λ o. Wakes o s.stop s.worker s.queue) e (Reach-Wakes r) in
      let (bound, (j, f)) = Steps-cost n s u steps (e, stop) in
      let (_, h) =
        subst (λ o. Wakes o u.stop u.worker u.queue) j (Reach-Wakes (Reach-Steps n s u r steps)) in
      (omega (arith, cost_small s.worker), joined-GoesOn u u.worker refl f h)
