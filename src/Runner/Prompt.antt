-- ===== src/Runner/Prompt.antt =====
-- runner.go: runners where no Stop comes before the goroutine of its Start has read the channel, and what
-- they keep.
use go_messaging.Prelude.{
  ℕ, ◌+◌, ◌<◌, ◌≡◌, ◌≢◌, refl, arith, Bool, true, false, Option, none, some, List, [], ◌∷◌, ◌++◌,
  All, ltb, ◌==◌,
}
use go_messaging.Runner.{Loop, born, polling, Runner, is_closed, Step}

abbrev pub new_runner : Runner
new_runner = record {
  slot = none;
  starts = 0;
  loops = [];
  waits = [];
  closed = [];
  ended = [];
  panicked = false;
}

-- A goroutine that has not yet read the field r.done would still read its own channel there.
abbrev pub IsCurrent : Option ℕ → Loop → Type 0
IsCurrent slot (born k) = slot ≡ some k
IsCurrent slot (polling k ch) = Unit {0}

-- What a new runner comes to, as long as no step takes the field from a goroutine that has yet to read it.
pub data Prompt : Runner → Type 0 where
  idle : Prompt new_runner
  goes_on : {r s : Runner} → Prompt r → Step r s → All (IsCurrent s.slot) s.loops → Prompt s

abbrev pub number_of : Loop → ℕ
number_of (born k) = k
number_of (polling k ch) = k

unfoldable pub one_if : Bool → ℕ
one_if true = 1
one_if false = 0

unfoldable pub count_loops : ℕ → List Loop → ℕ
unfolding one_if
count_loops k [] = 0
count_loops k (l ∷ ls) = one_if (number_of l == k) + count_loops k ls

unfoldable pub count_closed : ℕ → List ℕ → ℕ
unfolding one_if
count_closed k [] = 0
count_closed k (c ∷ cs) = one_if (c == k) + count_closed k cs

pub count_loops-append :
    (k : ℕ) (xs ys : List Loop) → count_loops k (xs ++ ys) ≡ count_loops k xs + count_loops k ys
unfolding count_loops
count_loops-append k [] ys = omega arith
count_loops-append k (x ∷ xs) ys = omega (arith, count_loops-append k xs ys)

pub count_closed-none : (k : ℕ) (cs : List ℕ) → count_closed k cs ≡ 0 → is_closed k cs ≡ false
unfolding count_closed is_closed one_if
count_closed-none k [] h = refl
count_closed-none k (c ∷ cs) h = ground (arith, count_closed-none k cs)

pub is_closed_first : (n : ℕ) (ks : List ℕ) → is_closed n (n ∷ ks) ≡ true
unfolding is_closed
is_closed_first n ks = ground arith

pub is_closed_more : (n k : ℕ) (ks : List ℕ) → is_closed n ks ≡ true → is_closed n (k ∷ ks) ≡ true
unfolding is_closed
is_closed_more n k ks h = ground (arith, h)

abbrev pub IsOwn : Loop → Type 0
IsOwn (born k) = Unit {0}
IsOwn (polling k ch) = ch ≡ some k

abbrev pub IsBelow : ℕ → Option ℕ → Type 0
IsBelow n none = Unit {0}
IsBelow n (some k) = k < n

-- A channel that a Stop waits for.
pub record IsAwaited (r : Runner) (n : ℕ) : Type 0 where
  pub made : n < r.starts
  pub done : is_closed n r.ended ≡ true
  pub taken : r.slot ≢ some n

pub record IsServed (r : Runner) : Type 0 where
  pub current : All (IsCurrent r.slot) r.loops
  pub own : All IsOwn r.loops
  -- The channel of each Start is held by one goroutine, or closed once.
  pub placed : (k : ℕ) → count_loops k r.loops + count_closed k r.closed ≡ one_if (ltb k r.starts)
  pub field : IsBelow r.starts r.slot
  pub awaited : All (IsAwaited r) r.waits
  pub calm : r.panicked ≡ false
