-- ===== src/Admin/Query/Narrowing.antt =====
-- messaging_admin.go, whereBuilder: what a clause means with its arguments.
use mathlib.Core.List.{append_assoc, append-nil}
use go_messaging.Prelude.{
  ℕ, zero, suc, ◌≤◌, ◌≡◌, refl, ap, sym, ◌∙◌, arith, Bool, true, false, ◌&&◌, Option, none, some,
  List, [], ◌∷◌, ◌++◌, Bytes, bytes_eq, codes, decimal, leb, ◌==◌, length, length-append, All,
  All-append, All-map,
}
use go_messaging.Admin.Query.Where.{
  SqlValue, string_value, time_value, WhereBuilder, and_where, and_text,
}

-- The columns that the queries compare, and the comparisons.
pub data Column : Type 0 where
  status_column topic_column key_column processed_column final_column : Column

pub data Comparison : Type 0 where
  equal at_most : Comparison

-- What a column is compared with: an argument, by its number, or a literal.
pub data Operand : Type 0 where
  argument : ℕ → Operand
  literal : Bytes → Operand

-- `1=1`, and a comparison.
pub data Condition : Type 0 where
  always : Condition
  compares : Column → Comparison → Operand → Condition

unfoldable pub column_text : Column → Bytes
column_text status_column = codes "status"
column_text topic_column = codes "topic"
column_text key_column = codes "partition_key"
column_text processed_column = codes "processed_at"
column_text final_column = codes "final_status"

unfoldable pub comparison_text : Comparison → Bytes
comparison_text equal = codes "="
comparison_text at_most = codes "<="

-- The text before an operand: a column, a space and a comparison.
unfoldable pub cond_text : Column → Comparison → Bytes
unfolding column_text comparison_text
cond_text c op = column_text c ++ codes " " ++ comparison_text op

unfoldable pub operand_text : Operand → Bytes
operand_text (argument n) = codes " $" ++ decimal n
operand_text (literal t) = codes " '" ++ t ++ codes "'"

unfoldable pub condition_text : Condition → Bytes
unfolding cond_text operand_text
condition_text always = codes "1=1"
condition_text (compares c op x) = cond_text c op ++ operand_text x

-- A comparison in SQL: strings with strings and times with times, and nothing else compares.
unfoldable pub compare_values : Comparison → SqlValue → SqlValue → Bool
compare_values equal (string_value a) (string_value b) = bytes_eq a b
compare_values equal (time_value a) (time_value b) = a == b
compare_values at_most (time_value a) (time_value b) = leb a b
compare_values _ _ _ = false

-- NULL, which `none` stands for, passes no comparison.
unfoldable pub compare_operand : Comparison → Option SqlValue → Option SqlValue → Bool
unfolding compare_values
compare_operand op (some a) (some b) = compare_values op a b
compare_operand op _ _ = false

-- $1 is the first argument.
nth : ℕ → List SqlValue → Option SqlValue
nth n [] = none
nth zero (v ∷ vs) = some v
nth (suc n) (v ∷ vs) = nth n vs

unfoldable pub argument_at : ℕ → List SqlValue → Option SqlValue
unfolding nth
argument_at zero vs = none
argument_at (suc n) vs = nth n vs

nth-append : (n : ℕ) (vs ws : List SqlValue) → suc n ≤ length vs → nth n (vs ++ ws) ≡ nth n vs
unfolding nth
nth-append n [] ws h = absurd (omega (arith, h))
nth-append zero (v ∷ vs) ws h = refl
nth-append (suc n) (v ∷ vs) ws h = nth-append n vs ws (omega (arith, h))

nth-last : (vs ws : List SqlValue) (v : SqlValue) → nth (length vs) (vs ++ v ∷ ws) ≡ some v
unfolding nth
nth-last [] ws v = refl
nth-last (x ∷ vs) ws v = nth-last vs ws v

-- An argument that is there stays where it is when others are appended.
pub argument_at-append :
    (n : ℕ) (vs ws : List SqlValue)
    → 1 ≤ n
    → n ≤ length vs
    → argument_at n (vs ++ ws) ≡ argument_at n vs
unfolding argument_at
argument_at-append zero vs ws lo hi = refl
argument_at-append (suc n) vs ws lo hi = nth-append n vs ws hi

pub argument_at-last :
    (vs ws : List SqlValue) (v : SqlValue) → argument_at (suc (length vs)) (vs ++ v ∷ ws) ≡ some v
unfolding argument_at
argument_at-last vs ws v = nth-last vs ws v

-- What an operand stands for.
unfoldable pub operand_value : Operand → List SqlValue → Option SqlValue
unfolding argument_at
operand_value (argument n) vs = argument_at n vs
operand_value (literal t) vs = some (string_value t)

unfoldable pub IsBound : List SqlValue → Condition → Type 0
IsBound vs (compares c op (argument n)) = (1 ≤ n) × (n ≤ length vs)
IsBound vs _ = Unit {0}

pub render : List Condition → Bytes
render [] = []
render (c ∷ cs) = codes " AND " ++ condition_text c ++ render cs

-- `value` gives a column of a row.
module _ {Row : Type 0} (value : Column → Row → Option SqlValue) where
  unfoldable pub holds : Condition → List SqlValue → Row → Bool
  unfolding compare_operand operand_value
  holds always vs r = true
  holds (compares c op x) vs r = compare_operand op (value c r) (operand_value x vs)

  pub all_hold : List Condition → List SqlValue → Row → Bool
  unfolding holds
  all_hold [] vs r = true
  all_hold (c ∷ cs) vs r = holds c vs r && all_hold cs vs r

  -- The clause of `w` is conditions joined by AND, each of whose placeholders has an argument, and the
  -- rows of which they hold with the arguments of `w` are those of `p`.
  pub record IsQuery (w : WhereBuilder) (p : Row → Bool) : Type 0 where
    pub first : Condition
    pub others : List Condition
    pub text : w.clause ≡ condition_text first ++ render others
    pub first_bound : IsBound w.args first
    pub bound : All (IsBound w.args) others
    pub exact : (r : Row) → holds first w.args r && all_hold others w.args r ≡ p r

render-append : (cs ds : List Condition) → render (cs ++ ds) ≡ render cs ++ render ds
unfolding render
render-append [] ds = refl
render-append (c ∷ cs) ds =
    ap (λ t. codes " AND " ++ condition_text c ++ t) (render-append cs ds)
    ∙ ap (λ t. codes " AND " ++ t) (sym (append_assoc (condition_text c) (render cs) (render ds)))

-- What `and` appends is the text of one condition.
render-one :
    (c : Column) (op : Comparison) (n : ℕ)
    → render (compares c op (argument n) ∷ []) ≡ and_text (cond_text c op) n
unfolding render condition_text operand_text and_text
render-one c op n =
    ap (λ t. codes " AND " ++ t)
      (append-nil (cond_text c op ++ (codes " $" ++ decimal n))
        ∙ sym (append_assoc (cond_text c op) (codes " $") (decimal n)))

IsBound-more : (vs ws : List SqlValue) (c : Condition) → IsBound vs c → IsBound (vs ++ ws) c
unfolding IsBound
IsBound-more vs ws always h = tt
IsBound-more vs ws (compares c op (literal t)) h = tt
IsBound-more vs ws (compares c op (argument n)) h = (h.0, omega (arith, h.1, length-append vs ws))

module _ {Row : Type 0} (value : Column → Row → Option SqlValue) where
  all_hold-append :
      (cs ds : List Condition) (vs : List SqlValue) (r : Row)
      → all_hold value (cs ++ ds) vs r ≡ all_hold value cs vs r && all_hold value ds vs r
  unfolding all_hold
  all_hold-append [] ds vs r = refl
  all_hold-append (c ∷ cs) ds vs r = ground (arith, all_hold-append cs ds vs r)

  holds-more :
      (c : Condition) (vs ws : List SqlValue) (r : Row)
      → IsBound vs c
      → holds value c (vs ++ ws) r ≡ holds value c vs r
  unfolding holds operand_value IsBound
  holds-more always vs ws r h = refl
  holds-more (compares c op (literal t)) vs ws r h = refl
  holds-more (compares c op (argument n)) vs ws r h =
      ap (compare_operand op (value c r)) (argument_at-append n vs ws h.0 h.1)

  all_hold-more :
      (cs : List Condition) (vs ws : List SqlValue) (r : Row)
      → All (IsBound vs) cs
      → all_hold value cs (vs ++ ws) r ≡ all_hold value cs vs r
  unfolding all_hold
  all_hold-more [] vs ws r h = refl
  all_hold-more (c ∷ cs) vs ws r h =
      rw (holds-more c vs ws r h.0, all_hold-more cs vs ws r h.1) refl

  -- The condition that `and` adds holds of its own argument.
  added_hold :
      (c : Column) (op : Comparison) (v : SqlValue) (vs : List SqlValue) (r : Row)
      → all_hold value (compares c op (argument (length (vs ++ v ∷ []))) ∷ []) (vs ++ v ∷ []) r
        ≡ compare_operand op (value c r) (some v)
  unfolding all_hold holds operand_value
  added_hold c op v vs r =
      let n : length (vs ++ v ∷ []) ≡ suc (length vs) = omega (arith, length-append vs (v ∷ [])) in
      rw (ap (λ k. argument_at k (vs ++ v ∷ [])) n ∙ argument_at-last vs [] v) (ground arith)

  pub and_where-IsQuery :
      (w : WhereBuilder) (p : Row → Bool) (c : Column) (op : Comparison) (v : SqlValue)
      → IsQuery value w p
      → IsQuery value
          (and_where w (cond_text c op) v)
          (λ r. p r && compare_operand op (value c r) (some v))
  unfolding and_where
  and_where-IsQuery w p c op v h =
      let n = length (w.args ++ v ∷ []) in
      let added : Condition = compares c op (argument n) in
      let piece = and_text (cond_text c op) n in
      record {
        first = h.first;
        others = h.others ++ added ∷ [];
        text =
            ap (λ t. t ++ piece) h.text
            ∙ append_assoc (condition_text h.first) (render h.others) piece
            ∙ ap (λ t. condition_text h.first ++ t)
                (sym (
                  render-append h.others (added ∷ [])
                  ∙ ap (λ t. render h.others ++ t) (render-one c op n)));
        first_bound = IsBound-more w.args (v ∷ []) h.first h.first_bound;
        bound =
            All-append _ h.others (added ∷ [])
              (All-map (IsBound-more w.args (v ∷ [])) h.others h.bound)
              (unfold IsBound in (omega (arith, length-append w.args (v ∷ [])), omega arith), tt);
        exact = λ r. ground (
          arith,
          h.exact r,
          holds-more h.first w.args (v ∷ []) r h.first_bound,
          all_hold-append h.others (added ∷ []) (w.args ++ v ∷ []) r,
          all_hold-more h.others w.args (v ∷ []) r h.bound,
          added_hold c op v w.args r,
        );
      }

  -- Arguments that no condition uses.
  pub more_args-IsQuery :
      (w : WhereBuilder) (p : Row → Bool) (vs : List SqlValue)
      → IsQuery value w p
      → IsQuery value (record w { args = w.args ++ vs }) p
  more_args-IsQuery w p vs h = record {
    first = h.first;
    others = h.others;
    text = h.text;
    first_bound = IsBound-more w.args vs h.first h.first_bound;
    bound = All-map (IsBound-more w.args vs) h.others h.bound;
    exact = λ r. ground (
      arith,
      h.exact r,
      holds-more h.first w.args vs r h.first_bound,
      all_hold-more h.others w.args vs r h.bound,
    );
  }

  -- A clause of one condition.
  pub start-IsQuery :
      (w : WhereBuilder) (c : Condition) (p : Row → Bool)
      → w.clause ≡ condition_text c
      → IsBound w.args c
      → ((r : Row) → holds value c w.args r ≡ p r)
      → IsQuery value w p
  unfolding render all_hold
  start-IsQuery w c p same bound means = record {
    first = c;
    others = [];
    text = same ∙ sym (append-nil (condition_text c));
    first_bound = bound;
    bound = tt;
    exact = λ r. ground (arith, means r);
  }

  pub IsQuery-meaning :
      (w : WhereBuilder) (p p' : Row → Bool)
      → ((r : Row) → p r ≡ p' r)
      → IsQuery value w p
      → IsQuery value w p'
  IsQuery-meaning w p p' same h = record {
    first = h.first;
    others = h.others;
    text = h.text;
    first_bound = h.first_bound;
    bound = h.bound;
    exact = λ r. h.exact r ∙ same r;
  }
