-- ===== src/Runner/Stopping.antt =====
-- runner.go, Stop: its wait against a goroutine that has not yet read the channel.
use go_messaging.Prelude.{
  ℕ, ◌<◌, ◌≢◌, arith, Option, none, some, List, [], ◌∷◌, ◌++◌, All, All-append, Bool-cases, inl,
  inr,
}
use mathlib.Core.Path.{subst}
use go_messaging.Runner.{
  Loop, born, polling, Runner, is_closed, close_done, start, stop, Step, starts_loop, stops_loop,
  parent_ends, enters, returns, Steps, stay, step_on,
}

-- The field, or what a loop has read of it, is not the channel `n`.
abbrev Differs : ℕ → Option ℕ → Type 0
Differs n none = Unit {0}
Differs n (some k) = k ≢ n

abbrev DiffersLoop : ℕ → Loop → Type 0
DiffersLoop n (born k) = Unit {0}
DiffersLoop n (polling k ch) = Differs n ch

-- Nobody can close the channel `n`.
record IsOrphan (n : ℕ) (r : Runner) : Type 0 where
  made : n < r.starts
  field_differs : Differs n r.slot
  loops_differ : All (DiffersLoop n) r.loops
  open_yet : All (λ k. k ≢ n) r.closed

pub All-split :
    {A : Type 0} (P : A → Type 0) (xs ys : List A) → All P (xs ++ ys) → All P xs × All P ys
All-split P [] ys h = (tt, h)
All-split P (x ∷ xs) ys h = let (a, b) = All-split P xs ys h.1 in ((h.0, a), b)

close_done-IsOrphan :
    (n : ℕ) (ch : Option ℕ) (r : Runner)
    → Differs n ch
    → IsOrphan n r
    → IsOrphan n (close_done ch r)
unfolding close_done
close_done-IsOrphan n none r d o = record {
  made = o.made;
  field_differs = o.field_differs;
  loops_differ = o.loops_differ;
  open_yet = o.open_yet;
}
close_done-IsOrphan n (some k) r d o = elim (Bool-cases (is_closed k r.closed)) [
  | inl again ↦ rw again (record {
    made = o.made;
    field_differs = o.field_differs;
    loops_differ = o.loops_differ;
    open_yet = o.open_yet;
  })
  | inr first ↦ rw first (record {
    made = o.made;
    field_differs = o.field_differs;
    loops_differ = o.loops_differ;
    open_yet = (d, o.open_yet);
  })
]

Step-IsOrphan : (n : ℕ) {r s : Runner} → Step r s → IsOrphan n r → IsOrphan n s
unfolding start stop
Step-IsOrphan n (starts_loop r e) o = record {
  made = omega (arith, o.made);
  field_differs = λ e. omega (arith, o.made, e);
  loops_differ = All-append (DiffersLoop n) r.loops (born r.starts ∷ []) o.loops_differ (tt, tt);
  open_yet = o.open_yet;
}
Step-IsOrphan n (stops_loop r k e) o = record {
  made = o.made;
  field_differs = tt;
  loops_differ = o.loops_differ;
  open_yet = o.open_yet;
}
Step-IsOrphan n (parent_ends r k) o = record {
  made = o.made;
  field_differs = o.field_differs;
  loops_differ = o.loops_differ;
  open_yet = o.open_yet;
}
Step-IsOrphan n (enters r before after k e) o =
    let (a, b) =
      All-split (DiffersLoop n) before (born k ∷ after)
        (subst (All (DiffersLoop n)) e o.loops_differ) in
    record {
      made = o.made;
      field_differs = o.field_differs;
      loops_differ =
          All-append (DiffersLoop n) before (polling k r.slot ∷ after) a (o.field_differs, b.1);
      open_yet = o.open_yet;
    }
Step-IsOrphan n (returns r before after k ch e done) o =
    let (a, b) =
      All-split (DiffersLoop n) before (polling k ch ∷ after)
        (subst (All (DiffersLoop n)) e o.loops_differ) in
    close_done-IsOrphan n ch (record r { loops = before ++ after }) b.0
      (record {
        made = o.made;
        field_differs = o.field_differs;
        loops_differ = All-append (DiffersLoop n) before after a b.1;
        open_yet = o.open_yet;
      })

Steps-IsOrphan : (n : ℕ) {r s : Runner} → Steps r s → IsOrphan n r → IsOrphan n s
Steps-IsOrphan n (stay r) o = o
Steps-IsOrphan n (step_on one rest) o = Steps-IsOrphan n rest (Step-IsOrphan n one o)

-- Take a channel that a Start has made, that is not closed, and that no loop holds, as where Stop comes
-- before the goroutine of its Start has reached `defer close(r.done)`. Once Stop has taken this channel
-- and waits for it, it is never closed, whatever is started, stopped, entered and left afterwards: Stop
-- does not return.
pub stop_never_returns :
    (n : ℕ) (r r' : Runner)
    → n < r.starts
    → All (DiffersLoop n) r.loops
    → All (λ k. k ≢ n) r.closed
    → Steps (stop n r) r'
    → All (λ k. k ≢ n) r'.closed
unfolding stop
stop_never_returns n r r' made loops closed steps =
    (Steps-IsOrphan n steps (record {
      made = made;
      field_differs = tt;
      loops_differ = loops;
      open_yet = closed;
    })).open_yet
