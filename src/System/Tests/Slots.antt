-- ===== src/System/Tests/Slots.antt =====
-- A batch of two messages, of which one has a slot and the other waits for one.
use go_messaging.Prelude.{
  ◌≤◌, ◌*◌, ◌+◌, ◌≡◌, ◌⊎◌, refl, arith, pos, Bool, false, some, none, List, [], ◌∷◌, codes,
}
use go_messaging.Message.{Message}
use go_messaging.Config.{apply_call_options}
use go_messaging.Database.Rows.{count_where}
use go_messaging.Messaging.{Messaging, Handler}
use go_messaging.Messaging.Process.{route}
use go_messaging.Messaging.Goroutines.{Pool, begun, BatchSteps, stay, step_on, launches, acquires}
use go_messaging.Messaging.Goroutines.Waiting.{IsSettled, Advance, tally, wait_returns}
use go_messaging.System.Fixtures.{instance_one, order, config}

abbrev handler : Handler
handler t msg w = (none, w)

abbrev other : Message
other = record order { message_id = codes "m2" }

abbrev batch : List Message
batch = order ∷ other ∷ []

-- One slot.
abbrev narrow : Messaging
narrow = record instance_one { cfg = record config { concurrency = pos 1 } }

abbrev now : Pool
now = record {
  slots = 1;
  coming = [];
  waiting = other ∷ [];
  running = order ∷ [];
  through = [];
  given_up = [];
  is_done = false;
}

three_steps : BatchSteps narrow (some handler) (apply_call_options []) 3 (begun narrow batch) now
unfolding begun route
three_steps =
    step_on
      (step_on (step_on (stay (begun narrow batch)) (launches _ order (other ∷ []) refl (λ e. cc)))
        (launches _ other [] refl (λ e. cc)))
      (acquires _ (other ∷ []) order [] refl (omega arith))

wait_returns_example :
    (1 ≤ 1)
    × ((test : Message → Bool) → tally test now ≡ count_where test batch)
    × (3 ≤ 3 * 2 + 1)
    × (IsSettled now ⊎ Advance narrow (some handler) (apply_call_options []) now)
wait_returns_example =
    wait_returns narrow (some handler) (apply_call_options []) batch 3 now (omega arith) three_steps
