-- ===== src/Runner/Returning.antt =====
-- runner.go, Stop: its wait where the goroutine has read its channel before.
use go_messaging.Prelude.{
  ℕ, ◌≤◌, ◌≡◌, refl, sym, ap, ◌∙◌, arith, true, false, some, List, [], ◌∷◌, ◌++◌, All, All-map,
  Bool-cases, inl, inr, ◌⊎◌, ◌==◌,
}
use mathlib.Core.Path.{subst}
use go_messaging.Runner.{Loop, born, polling, Runner, is_closed, Step, returns}
use go_messaging.Runner.Stopping.{All-split}
use go_messaging.Runner.Prompt.{
  Prompt, IsCurrent, number_of, one_if, count_loops, count_closed, is_closed_first, IsAwaited,
  IsServed,
}
use go_messaging.Runner.Serving.{closes, Prompt-IsServed}

-- Where the goroutine of a channel stands.
find_loop :
    (k : ℕ) (ls : List Loop)
    → 1 ≤ count_loops k ls
    → (before : List Loop) × (l : Loop) × (after : List Loop) × (ls ≡ before ++ l ∷ after)
      × (number_of l ≡ k)
unfolding count_loops one_if
find_loop k [] h = absurd (omega (arith, h))
find_loop k (l ∷ ls) h = elim (Bool-cases (number_of l == k)) [
  | inl found ↦ ([], l, ls, refl, ground (arith, found))
  | inr other ↦
      let (before, l', after, e, same) = find_loop k ls (later other) in
      (l ∷ before, l', after, ap (λ xs. l ∷ xs) e, same)
]
  where
    later : (number_of l == k) ≡ false → 1 ≤ count_loops k ls
    later other = ground (arith, other, h)

-- A step after which the channel is closed.
abbrev pub CanClose : ℕ → Runner → Type 0
CanClose n r = (s : Runner) × Step r s × (is_closed n s.closed ≡ true)

held_closes :
    (n : ℕ) (r : Runner) (before after : List Loop) (l : Loop)
    → r.loops ≡ before ++ l ∷ after
    → number_of l ≡ n
    → IsServed r
    → IsAwaited r n
    → CanClose n r
held_closes n r before after (born k) e same o a =
    let (past, here) =
      All-split (IsCurrent r.slot) before (born k ∷ after)
        (subst (All (IsCurrent r.slot)) e o.current) in
    absurd (a.taken (here.0 ∙ ap some same))
held_closes n r before after (polling k ch) e same o a = (
  record r { loops = before ++ after; closed = k ∷ r.closed },
  subst (Step r) (closes r before after k ch e o)
      (returns r before after k ch e (subst (λ m. is_closed m r.ended ≡ true) (sym same) a.done)),
  subst (λ m. is_closed n (m ∷ r.closed) ≡ true) (sym same) (is_closed_first n r.closed),
)

not_counted : (k : ℕ) (cs : List ℕ) → is_closed k cs ≡ false → count_closed k cs ≡ 0
unfolding count_closed is_closed one_if
not_counted k [] h = refl
not_counted k (c ∷ cs) h = ground (arith, not_counted k cs, h)

awaited-held :
    (n : ℕ) (r : Runner)
    → IsServed r
    → IsAwaited r n
    → is_closed n r.closed ≡ false
    → 1 ≤ count_loops n r.loops
unfolding one_if
awaited-held n r o a h = ground (arith, o.placed n, not_counted n r.closed h, a.made)

-- As long as no step takes the field from a goroutine that has yet to read its channel there, no goroutine
-- panics, and each channel that a Stop waits for is closed or is closed by one step, the return of the
-- goroutine that holds it, whose context is done: Stop returns.
pub stops_return :
    (r : Runner)
    → Prompt r
    → (r.panicked ≡ false) × All (λ n. (is_closed n r.closed ≡ true) ⊎ CanClose n r) r.waits
stops_return r p = (o.calm, All-map (λ n a. by_closing n a) r.waits o.awaited)
  where
    o : IsServed r
    o = Prompt-IsServed p

    by_closing : (n : ℕ) → IsAwaited r n → (is_closed n r.closed ≡ true) ⊎ CanClose n r
    by_closing n a = elim (Bool-cases (is_closed n r.closed)) [
      | inl shut ↦ inl shut
      | inr still_open ↦
          let (before, l, after, e, same) = find_loop n r.loops (awaited-held n r o a still_open) in
          inr (held_closes n r before after l e same o a)
    ]
