-- ===== src/Runner.antt =====
-- runner.go: Start, Stop and the goroutine of the loop, as steps that may come in any order. A done
-- channel is the number of the Start that made it; the fields cancel and done are set and cleared
-- together.
pub mod Stopping
pub mod Prompt
pub mod Serving
pub mod Returning
use go_messaging.Prelude.{
  ℕ, suc, ltb, leb_ℤ, ltb_ℤ, ℤ, pos, ◌≡◌, Bool, true, false, Option, none, some, List, [], ◌∷◌,
  ◌++◌, if◌then◌else◌, ◌==◌,
}
use go_messaging.Cipher.{Result, ok, err}
use go_messaging.Config.{RunnerOptions}

-- A goroutine of the loop by the number of its context: started, or past `defer close(r.done)`, which read the
-- field r.done then.
pub data Loop : Type 0 where
  born : ℕ → Loop
  polling : ℕ → Option ℕ → Loop

-- `waits` are the channels that a Stop waits for, `ended` the contexts that are done.
pub record Runner : Type 0 where
  pub slot : Option ℕ
  pub starts : ℕ
  pub loops : List Loop
  pub waits : List ℕ
  pub closed : List ℕ
  pub ended : List ℕ
  pub panicked : Bool

unfoldable pub is_closed : ℕ → List ℕ → Bool
is_closed n [] = false
is_closed n (k ∷ ks) = if k == n then true else is_closed n ks

-- close(ch), which panics on nil and on a channel that is closed.
unfoldable pub close_done : Option ℕ → Runner → Runner
unfolding is_closed
close_done none r = record r { panicked = true }
close_done (some n) r =
    if is_closed n r.closed
    then record r { panicked = true }
    else record r { closed = n ∷ r.closed }

-- Start, where no loop is recorded; where one is, it does nothing.
unfoldable pub start : Runner → Runner
start r = record r {
  slot = some r.starts;
  starts = suc r.starts;
  loops = r.loops ++ born r.starts ∷ [];
}

-- Stop, up to its wait: cancel ends the context of the loop.
unfoldable pub stop : ℕ → Runner → Runner
stop n r = record r { slot = none; waits = n ∷ r.waits; ended = n ∷ r.ended }

-- A loop returns when its context is done; the caller of Start may end the context that it gave, at any time.
pub data Step : Runner → Runner → Type 0 where
  starts_loop : (r : Runner) → r.slot ≡ none → Step r (start r)
  stops_loop : (r : Runner) (n : ℕ) → r.slot ≡ some n → Step r (stop n r)
  parent_ends : (r : Runner) (n : ℕ) → Step r (record r { ended = n ∷ r.ended })
  enters :
      (r : Runner) (before after : List Loop) (k : ℕ)
      → r.loops ≡ before ++ born k ∷ after
      → Step r (record r { loops = before ++ polling k r.slot ∷ after })
  returns :
      (r : Runner) (before after : List Loop) (k : ℕ) (ch : Option ℕ)
      → r.loops ≡ before ++ polling k ch ∷ after
      → is_closed k r.ended ≡ true
      → Step r (close_done ch (record r { loops = before ++ after }))

pub data Steps : Runner → Runner → Type 0 where
  stay : (r : Runner) → Steps r r
  step_on : {r s t : Runner} → Step r s → Steps s t → Steps r t

unfoldable delay_after : RunnerOptions → Result ℕ → ℤ
delay_after o (ok n) = if ltb 0 n then o.poll_interval else o.idle_interval
delay_after o (err e) = o.idle_interval

-- The pause after a batch, none where the loop goes on at once.
unfoldable pause : RunnerOptions → Result ℕ → Option ℤ
unfolding delay_after
pause o batch = let delay = delay_after o batch in if leb_ℤ delay (pos 0) then none else some delay
