-- ===== src/Messaging/Goroutines/Waiting.antt =====
-- messaging.go, ProcessBatch: how many goroutines run at a time, and that the wait for them ends.
use go_messaging.Prelude.{
  ℕ, suc, ◌+◌, ◌*◌, ◌<◌, ◌≤◌, ◌≡◌, ◌≢◌, refl, ap, ◌∙◌, arith, pos_part, Bool, List, [], ◌∷◌, ◌++◌,
  Option, none, some, length, if◌then◌else◌, ◌⊎◌, inl, inr,
}
use go_messaging.Message.{Message}
use go_messaging.Config.{CallOptions}
use go_messaging.Database.Rows.{count_where}
use go_messaging.Messaging.{Messaging, Handler}
use go_messaging.Messaging.Process.{route}
use go_messaging.Messaging.Goroutines.{
  Pool, begun, BatchStep, dead_letters, launches, acquires, gives_up, releases, cancels, BatchSteps,
  stay, step_on,
}

-- wg.Wait() is passed, and the loop is at its end.
pub IsSettled : Pool → Type 0
IsSettled p = (p.coming ≡ []) × (p.waiting ≡ []) × (p.running ≡ [])

-- Each step takes a message further.
to_go : Pool → ℕ
to_go p =
    3 * length p.coming + 2 * length p.waiting + length p.running + (if p.is_done then 0 else 1)

-- How many of the messages pass a test, wherever they are.
pub tally : (Message → Bool) → Pool → ℕ
tally test p =
    count_where test p.coming
    + count_where test p.waiting
    + count_where test p.running
    + count_where test p.through
    + count_where test p.given_up

count_where-split :
    (test : Message → Bool) (before : List Message) (msg : Message) (after : List Message)
    → count_where test (before ++ msg ∷ after)
      ≡ count_where test (msg ∷ []) + count_where test (before ++ after)
unfolding count_where
count_where-split test [] msg after = omega arith
count_where-split test (x ∷ xs) msg after = omega (arith, count_where-split test xs msg after)

length-split :
    (before : List Message) (msg : Message) (after : List Message)
    → length (before ++ msg ∷ after) ≡ suc (length (before ++ after))
length-split [] msg after = refl
length-split (x ∷ xs) msg after = omega (arith, length-split xs msg after)

is_empty : (xs : List Message) → (xs ≡ []) ⊎ ((x : Message) × (ys : List Message) × (xs ≡ x ∷ ys))
is_empty [] = inl refl
is_empty (x ∷ xs) = inr (x, xs, refl)

is_none : {A : Type 0} → (o : Option A) → (o ≡ none) ⊎ (o ≢ none)
is_none none = inl refl
is_none (some a) = inr (λ e. cc)

module _ (m : Messaging) (given : Option Handler) (co : CallOptions) where
  BatchStep-to_go : {p q : Pool} → BatchStep m given co p q → suc (to_go q) ≤ to_go p
  unfolding to_go
  BatchStep-to_go (dead_letters p msg msgs e none_for) = omega (arith, ap length e)
  BatchStep-to_go (launches p msg msgs e routed) = omega (arith, ap length e)
  BatchStep-to_go (acquires p before msg after e free) =
      omega (arith, ap length e, length-split before msg after)
  BatchStep-to_go (gives_up p before msg after e done) =
      omega (arith, ap length e, length-split before msg after)
  BatchStep-to_go (releases p before msg after e) =
      omega (arith, ap length e, length-split before msg after)
  BatchStep-to_go (cancels p e) = ground (arith, e)

  BatchStep-running :
      {p q : Pool}
      → BatchStep m given co p q
      → length p.running ≤ p.slots
      → length q.running ≤ q.slots
  BatchStep-running (dead_letters p msg msgs e none_for) h = h
  BatchStep-running (launches p msg msgs e routed) h = h
  BatchStep-running (acquires p before msg after e free) h = omega (arith, free)
  BatchStep-running (gives_up p before msg after e done) h = h
  BatchStep-running (releases p before msg after e) h =
      omega (arith, ap length e, length-split before msg after, h)
  BatchStep-running (cancels p e) h = h

  BatchStep-tally :
      (test : Message → Bool) {p q : Pool} → BatchStep m given co p q → tally test q ≡ tally test p
  unfolding tally count_where
  BatchStep-tally test (dead_letters p msg msgs e none_for) = omega (arith, ap (count_where test) e)
  BatchStep-tally test (launches p msg msgs e routed) = omega (arith, ap (count_where test) e)
  BatchStep-tally test (acquires p before msg after e free) =
      omega (arith, ap (count_where test) e, count_where-split test before msg after)
  BatchStep-tally test (gives_up p before msg after e done) =
      omega (arith, ap (count_where test) e, count_where-split test before msg after)
  BatchStep-tally test (releases p before msg after e) =
      omega (arith, ap (count_where test) e, count_where-split test before msg after)
  BatchStep-tally test (cancels p e) = refl

  BatchStep-slots : {p q : Pool} → BatchStep m given co p q → q.slots ≡ p.slots
  BatchStep-slots (dead_letters p msg msgs e none_for) = refl
  BatchStep-slots (launches p msg msgs e routed) = refl
  BatchStep-slots (acquires p before msg after e free) = refl
  BatchStep-slots (gives_up p before msg after e done) = refl
  BatchStep-slots (releases p before msg after e) = refl
  BatchStep-slots (cancels p e) = refl

  -- A step of the loop or of a goroutine.
  abbrev pub Advance : Pool → Type 0
  Advance p = (q : Pool) × BatchStep m given co p q × (q.is_done ≡ p.is_done)

  loop_advances :
      (p : Pool) (msg : Message) (msgs : List Message) → p.coming ≡ msg ∷ msgs → Advance p
  loop_advances p msg msgs e = elim (is_none (route m given co msg.topic)) [
    | inl none_for ↦ (_, dead_letters p msg msgs e none_for, refl)
    | inr routed ↦ (_, launches p msg msgs e routed, refl)
  ]

  -- A pool that is not settled can go on, whether or not the context is done.
  progress : (p : Pool) → 0 < p.slots → IsSettled p ⊎ Advance p
  unfolding IsSettled
  progress p some_slot = elim (is_empty p.running) [
    | inr (msg, msgs, e) ↦ inr (_, releases p [] msg msgs e, refl)
    | inl idle ↦ elim (is_empty p.waiting) [
      | inr (msg, msgs, e) ↦
          inr (_, acquires p [] msg msgs e (omega (arith, ap length idle, some_slot)), refl)
      | inl nobody ↦ elim (is_empty p.coming) [
        | inr (msg, msgs, e) ↦ inr (loop_advances p msg msgs e)
        | inl over ↦ inl (over, nobody, idle)
      ]
    ]
  ]

  -- What holds of each pool that a batch comes to.
  record IsReached (msgs : List Message) (k : ℕ) (p : Pool) : Type 0 where
    bounded : length p.running ≤ p.slots
    spent : k + to_go p ≤ 3 * length msgs + 1
    counted : (test : Message → Bool) → tally test p ≡ count_where test msgs
    same_slots : p.slots ≡ pos_part m.cfg.concurrency

  BatchSteps-IsReached :
      (msgs : List Message) {k : ℕ} {p : Pool} (q : Pool)
      → BatchSteps m given co k p q
      → IsReached msgs 0 p
      → IsReached msgs k q
  BatchSteps-IsReached msgs q (stay p) h = h
  BatchSteps-IsReached msgs r (step_on {k} {p} {q} steps step) h =
      let o = BatchSteps-IsReached msgs q steps h in
      record {
        bounded = BatchStep-running step o.bounded;
        spent = omega (arith, BatchStep-to_go step, o.spent);
        counted = λ test. BatchStep-tally test step ∙ o.counted test;
        same_slots = BatchStep-slots step ∙ o.same_slots;
      }

  begun-IsReached : (msgs : List Message) → IsReached msgs 0 (begun m msgs)
  unfolding begun to_go tally count_where
  begun-IsReached msgs = record {
    bounded = omega arith;
    spent = omega arith;
    counted = λ test. omega arith;
    same_slots = refl;
  }

-- A batch of ProcessBatch, where the concurrency is positive: in any order of the loop, the goroutines and
-- the context's end, at most as many messages are being handled as the concurrency; each message is in
-- one place; no more than 3 steps for each message and one more are taken; and until the loop is over and
-- every goroutine has returned, the loop or a goroutine has a next step, whether or not the context is
-- done.
pub wait_returns :
    (m : Messaging) (given : Option Handler) (co : CallOptions) (msgs : List Message) (k : ℕ)
    (p : Pool)
    → 0 < pos_part m.cfg.concurrency
    → BatchSteps m given co k (begun m msgs) p
    → (length p.running ≤ pos_part m.cfg.concurrency)
      × ((test : Message → Bool) → tally test p ≡ count_where test msgs)
      × (k ≤ 3 * length msgs + 1)
      × (IsSettled p ⊎ Advance m given co p)
wait_returns m given co msgs k p positive steps =
    let h = BatchSteps-IsReached m given co msgs p steps (begun-IsReached m given co msgs) in
    (
      omega (arith, h.bounded, h.same_slots),
      h.counted,
      omega (arith, h.spent),
      progress m given co p (omega (arith, positive, h.same_slots)),
    )
