-- ===== src/Messaging/Goroutines.antt =====
-- messaging.go, ProcessBatch: the goroutines of a batch, the semaphore that bounds them, and the wait for
-- all of them.
pub mod Waiting
use go_messaging.Prelude.{
  ℕ, suc, ◌+◌, ◌*◌, ◌<◌, ◌≡◌, ◌≢◌, ℤ, pos_part, Bool, true, false, List, [], ◌∷◌, ◌++◌, Option,
  none, some, length,
}
use go_messaging.Message.{Message}
use go_messaging.Config.{CallOptions}
use go_messaging.Messaging.{Messaging, Handler}
use go_messaging.Messaging.Process.{route}

-- The messages that the loop has yet to come to, those whose goroutine waits for a slot, those that hold
-- one, and those that are through: handled or without a handler, or given up since the context was done.
pub record Pool : Type 0 where
  pub slots : ℕ
  pub coming : List Message
  pub waiting : List Message
  pub running : List Message
  pub through : List Message
  pub given_up : List Message
  pub is_done : Bool

-- sem := make(chan struct{}, m.cfg.Concurrency), before the loop.
unfoldable pub begun : Messaging → List Message → Pool
begun m msgs = record {
  slots = pos_part m.cfg.concurrency;
  coming = msgs;
  waiting = [];
  running = [];
  through = [];
  given_up = [];
  is_done = false;
}

module _ (m : Messaging) (given : Option Handler) (co : CallOptions) where
  -- The loop and the goroutines, in any order, and the context, which may be done at any time.
  pub data BatchStep : Pool → Pool → Type 0 where
    dead_letters :
        (p : Pool) (msg : Message) (msgs : List Message)
        → p.coming ≡ msg ∷ msgs
        → route m given co msg.topic ≡ none
        → BatchStep p (record p { coming = msgs; through = msg ∷ p.through })
    launches :
        (p : Pool) (msg : Message) (msgs : List Message)
        → p.coming ≡ msg ∷ msgs
        → route m given co msg.topic ≢ none
        → BatchStep p (record p { coming = msgs; waiting = msg ∷ p.waiting })
    acquires :
        (p : Pool) (before : List Message) (msg : Message) (after : List Message)
        → p.waiting ≡ before ++ msg ∷ after
        → length p.running < p.slots
        → BatchStep p (record p { waiting = before ++ after; running = msg ∷ p.running })
    gives_up :
        (p : Pool) (before : List Message) (msg : Message) (after : List Message)
        → p.waiting ≡ before ++ msg ∷ after
        → p.is_done ≡ true
        → BatchStep p (record p { waiting = before ++ after; given_up = msg ∷ p.given_up })
    releases :
        (p : Pool) (before : List Message) (msg : Message) (after : List Message)
        → p.running ≡ before ++ msg ∷ after
        → BatchStep p (record p { running = before ++ after; through = msg ∷ p.through })
    cancels : (p : Pool) → p.is_done ≡ false → BatchStep p (record p { is_done = true })

  -- So many steps, one after another.
  pub data BatchSteps : ℕ → Pool → Pool → Type 0 where
    stay : (p : Pool) → BatchSteps 0 p p
    step_on : {k : ℕ} {p q r : Pool} → BatchSteps k p q → BatchStep q r → BatchSteps (suc k) p r
