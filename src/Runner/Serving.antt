-- ===== src/Runner/Serving.antt =====
-- runner.go: that Start, Stop, the goroutines and the caller of Start keep IsServed.
use go_messaging.Prelude.{
  ℕ, suc, ◌+◌, ◌<◌, ◌≤◌, ◌≡◌, refl, sym, ap, ◌∙◌, arith, Bool, true, false, Option, none, some,
  List, [], ◌∷◌, ◌++◌, All, All-append, All-map, ltb, ◌==◌,
}
use mathlib.Core.Path.{subst}
use go_messaging.Runner.{
  Loop, born, polling, Runner, is_closed, close_done, start, stop, Step, starts_loop, stops_loop,
  parent_ends, enters, returns,
}
use go_messaging.Runner.Stopping.{All-split}
use go_messaging.Runner.Prompt.{
  Prompt, idle, goes_on, IsCurrent, number_of, one_if, count_loops, count_closed,
  count_loops-append, count_closed-none, is_closed_first, is_closed_more, IsOwn, IsBelow, IsServed,
}

some-eq : {m n : ℕ} → some m ≡ some n → m ≡ n
some-eq e = cc

one_more :
    (k : ℕ) (ls : List Loop) (c n : ℕ)
    → count_loops k ls + c ≡ one_if (ltb k n)
    → count_loops k (ls ++ born n ∷ []) + c ≡ one_if (ltb k (suc n))
unfolding one_if count_loops
one_more k ls c n h = ground (arith, h, count_loops-append k ls (born n ∷ []))

start-IsServed :
    (r : Runner)
    → r.slot ≡ none
    → IsServed r
    → All (IsCurrent (start r).slot) (start r).loops
    → IsServed (start r)
unfolding start
start-IsServed r e o now = record {
  current = now;
  own = All-append IsOwn r.loops (born r.starts ∷ []) o.own (tt, tt);
  placed = λ k. one_more k r.loops (count_closed k r.closed) r.starts (o.placed k);
  field = omega arith;
  awaited =
      All-map
        (λ n h. record {
          made = omega (arith, h.made);
          done = h.done;
          taken = λ e. omega (arith, h.made, some-eq e);
        })
        r.waits o.awaited;
  calm = o.calm;
}

stop-IsServed :
    (r : Runner) (n : ℕ)
    → r.slot ≡ some n
    → IsServed r
    → All (IsCurrent (stop n r).slot) (stop n r).loops
    → IsServed (stop n r)
unfolding stop
stop-IsServed r n e o now = record {
  current = now;
  own = o.own;
  placed = o.placed;
  field = tt;
  awaited = (
    record { made = below r.slot e o.field; done = is_closed_first n r.ended; taken = λ e. cc },
    All-map
        (λ m h. record { made = h.made; done = is_closed_more m n r.ended h.done; taken = λ e. cc })
        r.waits o.awaited,
  );
  calm = o.calm;
}
  where
    below : (o : Option ℕ) → o ≡ some n → IsBelow r.starts o → n < r.starts
    below none e h = cc
    below (some k) e h = omega (arith, h, some-eq e)

parent-IsServed : (r : Runner) (n : ℕ) → IsServed r → IsServed (record r { ended = n ∷ r.ended })
parent-IsServed r n o = record {
  current = o.current;
  own = o.own;
  placed = o.placed;
  field = o.field;
  awaited =
      All-map
        (λ m h. record { made = h.made; done = is_closed_more m n r.ended h.done; taken = h.taken })
        r.waits o.awaited;
  calm = o.calm;
}

same_count :
    (j : ℕ) (before after : List Loop) (l l' : Loop)
    → number_of l ≡ number_of l'
    → count_loops j (before ++ l' ∷ after) ≡ count_loops j (before ++ l ∷ after)
unfolding count_loops
same_count j before after l l' e =
    count_loops-append j before (l' ∷ after)
    ∙ ap (λ k. count_loops j before + (one_if (k == j) + count_loops j after)) (sym e)
    ∙ sym (count_loops-append j before (l ∷ after))

enter-IsServed :
    (r : Runner) (before after : List Loop) (k : ℕ)
    → r.loops ≡ before ++ born k ∷ after
    → IsServed r
    → All (IsCurrent r.slot) (before ++ polling k r.slot ∷ after)
    → IsServed (record r { loops = before ++ polling k r.slot ∷ after })
enter-IsServed r before after k e o now =
    let (mine, others) = All-split IsOwn before (born k ∷ after) (subst (All IsOwn) e o.own) in
    let (past, here) =
      All-split (IsCurrent r.slot) before (born k ∷ after)
        (subst (All (IsCurrent r.slot)) e o.current) in
    record {
      current = now;
      own = All-append IsOwn before (polling k r.slot ∷ after) mine (here.0, others.1);
      placed = λ j.
          ap (λ c. c + count_closed j r.closed)
            (same_count j before after (born k) (polling k r.slot) refl
              ∙ ap (count_loops j) (sym e))
          ∙ o.placed j;
      field = o.field;
      awaited =
          All-map (λ m h. record { made = h.made; done = h.done; taken = h.taken }) r.waits
            o.awaited;
      calm = o.calm;
    }

one_held :
    (k : ℕ) (before after : List Loop) (l : Loop)
    → number_of l ≡ k
    → 1 ≤ count_loops k (before ++ l ∷ after)
unfolding count_loops one_if
one_held k before after l e = ground (arith, e, count_loops-append k before (l ∷ after))

moved :
    (j : ℕ) (before after : List Loop) (l : Loop) (closed : List ℕ)
    → count_loops j (before ++ after) + count_closed j (number_of l ∷ closed)
      ≡ count_loops j (before ++ l ∷ after) + count_closed j closed
unfolding count_loops count_closed
moved j before after l closed =
    omega (arith, count_loops-append j before after, count_loops-append j before (l ∷ after))

-- The channel of a goroutine is still open.
held_open :
    (r : Runner) (before after : List Loop) (l : Loop)
    → r.loops ≡ before ++ l ∷ after
    → IsServed r
    → is_closed (number_of l) r.closed ≡ false
unfolding one_if
held_open r before after l e o =
    count_closed-none k r.closed (by_room (ltb k r.starts) held (o.placed k))
  where
    k : ℕ
    k = number_of l

    held : 1 ≤ count_loops k r.loops
    held = rw e (one_held k before after l refl)

    by_room :
        (b : Bool)
        → 1 ≤ count_loops k r.loops
        → count_loops k r.loops + count_closed k r.closed ≡ one_if b
        → count_closed k r.closed ≡ 0
    by_room true h e = omega (arith, h, e)
    by_room false h e = omega (arith, h, e)

-- Such a goroutine closes its channel when it returns.
pub closes :
    (r : Runner) (before after : List Loop) (k : ℕ) (ch : Option ℕ)
    → r.loops ≡ before ++ polling k ch ∷ after
    → IsServed r
    → close_done ch (record r { loops = before ++ after })
      ≡ record r { loops = before ++ after; closed = k ∷ r.closed }
unfolding close_done
closes r before after k ch e o =
    let (mine, here) = All-split IsOwn before (polling k ch ∷ after) (subst (All IsOwn) e o.own) in
    let still_open = held_open r before after (polling k ch) e o in rw (here.0, still_open) refl

return-IsServed :
    (r : Runner) (before after : List Loop) (k : ℕ) (ch : Option ℕ)
    → r.loops ≡ before ++ polling k ch ∷ after
    → IsServed r
    → IsServed (record r { loops = before ++ after; closed = k ∷ r.closed })
return-IsServed r before after k ch e o =
    let (mine, others) =
      All-split IsOwn before (polling k ch ∷ after) (subst (All IsOwn) e o.own) in
    let (past, here) =
      All-split (IsCurrent r.slot) before (polling k ch ∷ after)
        (subst (All (IsCurrent r.slot)) e o.current) in
    record {
      current = All-append (IsCurrent r.slot) before after past here.1;
      own = All-append IsOwn before after mine others.1;
      placed = λ j.
          moved j before after (polling k ch) r.closed
          ∙ ap (λ c. count_loops j c + count_closed j r.closed) (sym e)
          ∙ o.placed j;
      field = o.field;
      awaited =
          All-map (λ m h. record { made = h.made; done = h.done; taken = h.taken }) r.waits
            o.awaited;
      calm = o.calm;
    }

Step-IsServed : {r s : Runner} → Step r s → IsServed r → All (IsCurrent s.slot) s.loops → IsServed s
Step-IsServed (starts_loop r e) o now = start-IsServed r e o now
Step-IsServed (stops_loop r n e) o now = stop-IsServed r n e o now
Step-IsServed (parent_ends r n) o now = parent-IsServed r n o
Step-IsServed (enters r before after k e) o now = enter-IsServed r before after k e o now
Step-IsServed (returns r before after k ch e done) o now =
    subst IsServed (sym (closes r before after k ch e o)) (return-IsServed r before after k ch e o)

pub Prompt-IsServed : {r : Runner} → Prompt r → IsServed r
unfolding one_if count_loops count_closed
Prompt-IsServed idle = record {
  current = tt;
  own = tt;
  placed = λ k. ground arith;
  field = tt;
  awaited = tt;
  calm = refl;
}
Prompt-IsServed (goes_on p one now) = Step-IsServed one (Prompt-IsServed p) now
