-- ===== src/Admin/Query/Selection.antt =====
-- messaging_admin.go: the queries of RetryFailed, GetMetrics, listByStatus and ListArchived ask for the
-- rows that their models take.
use mathlib.Core.List.{append_assoc}
use mathlib.Core.Option
use go_messaging.Prelude.{
  suc, ◌-◌, ◌≡◌, refl, ap, sym, ◌∙◌, arith, Bool, true, ◌&&◌, Option, none, some, [], ◌∷◌, ◌++◌,
  Bytes, bytes_eq, codes, decimal, List, leb, length, length-append, ℤ, pos,
}
use go_messaging.Message.{
  Status, pending, processing, retry, failed, Time, FinalStatus, final_processed, final_failed,
}
use go_messaging.Config.{PageOptions, page_defaults, positive_or}
use go_messaging.Database.{HotRow, ArchiveRow}
use go_messaging.Database.Rows.{at_value}
use go_messaging.Store.Claims.{is_failed, is_pending, is_processing, is_retry}
use go_messaging.Admin.{
  FilterOptions, passes, topic_passes, key_passes, before_passes, is_value, retryable,
}
use go_messaging.Admin.Query.{
  ListArchivedOptions, status_name, has_status, is_final, archive_topic_passes,
}
use go_messaging.Admin.Query.Where.{
  SqlValue, string_value, time_value, number_value, WhereBuilder, and_where, and_string,
  apply_filter, and_before, retry_failed_start, retry_failed_where, any_row, and_page, page_slots,
  list_start, list_where, final_name, and_final, list_archived_where,
}
use go_messaging.Admin.Query.Narrowing.{
  Column, status_column, topic_column, key_column, processed_column, final_column, equal, at_most,
  argument, literal, always, compares, cond_text, operand_text, condition_text, compare_values,
  compare_operand, operand_value, IsBound, holds, IsQuery, argument_at, and_where-IsQuery,
  more_args-IsQuery, start-IsQuery, IsQuery-meaning, argument_at-last,
}

-- The columns of the hot table and of the archive.
unfoldable pub hot_value : Column → HotRow → Option SqlValue
hot_value status_column r = some (string_value (status_name r.status))
hot_value topic_column r = some (string_value r.topic)
hot_value key_column r = Option.map string_value r.partition_key
hot_value processed_column r = Option.map time_value r.processed_at
hot_value final_column r = none

unfoldable pub archive_value : Column → ArchiveRow → Option SqlValue
archive_value status_column r = none
archive_value topic_column r = some (string_value r.topic)
archive_value key_column r = Option.map string_value r.partition_key
archive_value processed_column r = Option.map time_value r.processed_at
archive_value final_column r = some (string_value (final_name r.final_status))

-- A condition that is there where its string is not empty.
string_test : {Row : Type 0} → (Column → Row → Option SqlValue) → Column → Bytes → Row → Bool
string_test value c [] r = true
string_test value c (b ∷ bs) r = compare_operand equal (value c r) (some (string_value (b ∷ bs)))

and_true : (b : Bool) → b ≡ b && true
and_true b = ground arith

module _ {Row : Type 0} (value : Column → Row → Option SqlValue) where
  and_string-IsQuery :
      (w : WhereBuilder) (p : Row → Bool) (c : Column) (s : Bytes)
      → IsQuery value w p
      → IsQuery value (and_string (cond_text c equal) s w) (λ r. p r && string_test value c s r)
  unfolding and_string string_test
  and_string-IsQuery w p c [] h = IsQuery-meaning value w p _ (λ r. and_true (p r)) h
  and_string-IsQuery w p c (b ∷ bs) h =
      and_where-IsQuery value w p c equal (string_value (b ∷ bs)) h

topic-test : (t : Bytes) (r : HotRow) → string_test hot_value topic_column t r ≡ topic_passes t r
unfolding string_test hot_value compare_operand compare_values topic_passes
topic-test [] r = refl
topic-test (c ∷ cs) r = refl

key_equals :
    (k : Bytes) (o : Option Bytes)
    → compare_operand equal (Option.map string_value o) (some (string_value k)) ≡ is_value k o
unfolding compare_operand compare_values is_value
key_equals k none = refl
key_equals k (some x) = refl

key-test : (k : Bytes) (r : HotRow) → string_test hot_value key_column k r ≡ key_passes k r
unfolding string_test hot_value key_passes
key-test [] r = refl
key-test (c ∷ cs) r = key_equals (c ∷ cs) r.partition_key

filter-passes :
    (b : Bool) (o : FilterOptions) (r : HotRow)
    → (b && string_test hot_value topic_column o.topic r)
        && string_test hot_value key_column o.partition_key r
      ≡ b && passes o r
unfolding passes
filter-passes b o r = ground (arith, topic-test o.topic r, key-test o.partition_key r)

apply_filter-IsQuery :
    (w : WhereBuilder) (p : HotRow → Bool) (o : FilterOptions)
    → IsQuery hot_value w p
    → IsQuery hot_value (apply_filter o w) (λ r. p r && passes o r)
unfolding apply_filter cond_text
apply_filter-IsQuery w p o h =
    IsQuery-meaning hot_value _ _ _ (λ r. filter-passes (p r) o r)
      (and_string-IsQuery hot_value (and_string (codes "topic =") o.topic w)
        (λ r. p r && string_test hot_value topic_column o.topic r) key_column o.partition_key
        (and_string-IsQuery hot_value w p topic_column o.topic h))

before-test :
    (t : Time) (o : Option Time)
    → compare_operand at_most (Option.map time_value o) (some (time_value t))
      ≡ at_value (λ p. leb p t) o
unfolding compare_operand compare_values at_value
before-test t none = refl
before-test t (some p) = refl

and_before-IsQuery :
    (w : WhereBuilder) (p : HotRow → Bool) (before : Option Time)
    → IsQuery hot_value w p
    → IsQuery hot_value (and_before before w) (λ r. p r && before_passes before r)
unfolding and_before before_passes cond_text hot_value
and_before-IsQuery w p none h = IsQuery-meaning hot_value w p _ (λ r. and_true (p r)) h
and_before-IsQuery w p (some t) h =
    IsQuery-meaning hot_value _ _ _ (λ r. ap (λ b. p r && b) (before-test t r.processed_at))
      (and_where-IsQuery hot_value w p processed_column at_most (time_value t) h)

-- The first argument stays the first.
module _ (v : SqlValue) where
  StartsWith : WhereBuilder → Type 0
  StartsWith w = (more : List SqlValue) × (w.args ≡ v ∷ more)

  and_where-StartsWith :
      (w : WhereBuilder) (cond : Bytes) (x : SqlValue)
      → StartsWith w
      → StartsWith (and_where w cond x)
  unfolding and_where StartsWith
  and_where-StartsWith w cond x (more, e) = (more ++ x ∷ [], ap (λ vs. vs ++ x ∷ []) e)

  and_string-StartsWith :
      (cond s : Bytes) (w : WhereBuilder) → StartsWith w → StartsWith (and_string cond s w)
  unfolding and_string
  and_string-StartsWith cond [] w h = h
  and_string-StartsWith cond (c ∷ cs) w h = and_where-StartsWith w cond _ h

  apply_filter-StartsWith :
      (o : FilterOptions) (w : WhereBuilder) → StartsWith w → StartsWith (apply_filter o w)
  unfolding apply_filter
  apply_filter-StartsWith o w h =
      and_string-StartsWith _ o.partition_key _ (and_string-StartsWith _ o.topic w h)

  and_before-StartsWith :
      (b : Option Time) (w : WhereBuilder) → StartsWith w → StartsWith (and_before b w)
  unfolding and_before
  and_before-StartsWith none w h = h
  and_before-StartsWith (some t) w h = and_where-StartsWith w _ _ h

  and_page-StartsWith :
      (page : PageOptions) (w : WhereBuilder) → StartsWith w → StartsWith (and_page page w)
  unfolding and_page StartsWith
  and_page-StartsWith page w (more, e) = (
    more ++ number_value page.limit ∷ number_value page.offset ∷ [],
    ap (λ vs. vs ++ number_value page.limit ∷ number_value page.offset ∷ []) e,
  )

  StartsWith-argument_at : (w : WhereBuilder) → StartsWith w → argument_at 1 w.args ≡ some v
  unfolding argument_at StartsWith
  StartsWith-argument_at w (more, e) = ap (argument_at 1) e

failed_name : (s : Status) → bytes_eq (status_name s) (codes "FAILED") ≡ is_failed s
unfolding status_name is_failed bytes_eq
failed_name pending = refl
failed_name processing = refl
failed_name retry = refl
failed_name failed = refl

-- The WHERE clause of RetryFailed is conditions joined by AND, with every placeholder bound to an
-- argument, that hold of a row just if the model of RetryFailed takes it; $1, its LIMIT, is the limit, or
-- 1000 where that is not positive.
pub retry_failed_where-IsQuery :
    (o : FilterOptions) (before : Option Time) (limit : ℤ)
    → IsQuery hot_value (retry_failed_where o before limit) (retryable o before)
      × (argument_at 1 (retry_failed_where o before limit).args
          ≡ some (number_value (positive_or (pos 1_000) limit)))
unfolding retry_failed_where retryable
retry_failed_where-IsQuery o before limit =
    let start = retry_failed_start limit in
    let v = number_value (positive_or (pos 1_000) limit) in
    let dead : HotRow → Bool = λ r. is_failed r.status in
    let started : IsQuery hot_value start dead =
      unfold retry_failed_start condition_text cond_text operand_text holds hot_value
        compare_operand compare_values operand_value in
      start-IsQuery hot_value start (compares status_column equal (literal (codes "FAILED"))) dead
        refl (unfold IsBound in tt) (λ r. failed_name r.status) in
    (
      IsQuery-meaning hot_value _ _ (retryable o before) (λ r. ground arith)
          (and_before-IsQuery (apply_filter o start) (λ r. dead r && passes o r) before
            (apply_filter-IsQuery start dead o started)),
      StartsWith-argument_at v _ (
          and_before-StartsWith v before _ (
            apply_filter-StartsWith v o start
              (unfold retry_failed_start StartsWith in ([], refl)))),
    )

-- The arguments of LIMIT and OFFSET.
abbrev pub HasPage : WhereBuilder → PageOptions → Type 0
HasPage w page =
    (argument_at (page_slots w).0 w.args ≡ some (number_value page.limit))
    × (argument_at (page_slots w).1 w.args ≡ some (number_value page.offset))

and_page-HasPage : (w : WhereBuilder) (page : PageOptions) → HasPage (and_page page w) page
unfolding and_page page_slots
and_page-HasPage w page =
    let (l, o) : SqlValue × SqlValue = (number_value page.limit, number_value page.offset) in
    let first : length (w.args ++ l ∷ o ∷ []) - 1 ≡ suc (length w.args) =
      omega (arith, length-append w.args (l ∷ o ∷ [])) in
    let second : length (w.args ++ l ∷ o ∷ []) ≡ suc (length (w.args ++ l ∷ [])) =
      omega (arith, length-append w.args (l ∷ o ∷ []), length-append w.args (l ∷ [])) in
    let two_steps : w.args ++ l ∷ o ∷ [] ≡ (w.args ++ l ∷ []) ++ o ∷ [] =
      sym (append_assoc w.args (l ∷ []) (o ∷ [])) in
    (
      ap (λ n. argument_at n (w.args ++ l ∷ o ∷ [])) first ∙ argument_at-last w.args (o ∷ []) l,
      ap (λ n. argument_at n (w.args ++ l ∷ o ∷ [])) second
          ∙ ap (argument_at (suc (length (w.args ++ l ∷ [])))) two_steps
          ∙ argument_at-last (w.args ++ l ∷ []) [] o,
    )

has_status-name : (s t : Status) → bytes_eq (status_name t) (status_name s) ≡ has_status s t
unfolding status_name has_status is_pending is_processing is_retry is_failed bytes_eq
has_status-name pending pending = refl
has_status-name pending processing = refl
has_status-name pending retry = refl
has_status-name pending failed = refl
has_status-name processing pending = refl
has_status-name processing processing = refl
has_status-name processing retry = refl
has_status-name processing failed = refl
has_status-name retry pending = refl
has_status-name retry processing = refl
has_status-name retry retry = refl
has_status-name retry failed = refl
has_status-name failed pending = refl
has_status-name failed processing = refl
has_status-name failed retry = refl
has_status-name failed failed = refl

-- The WHERE clause of listByStatus is conditions joined by AND, with every placeholder bound to an
-- argument, that hold of a row just if it has the status, $1, and passes the filter; the numbers behind
-- LIMIT and OFFSET are those of the page's limit and offset.
pub list_where-IsQuery :
    (s : Status) (o : FilterOptions) (page : PageOptions)
    → IsQuery hot_value (list_where s o page) (λ r. has_status s r.status && passes o r)
      × (argument_at 1 (list_where s o page).args ≡ some (string_value (status_name s)))
      × HasPage (list_where s o page) (page_defaults page)
unfolding list_where
list_where-IsQuery s o page =
    let start = list_start s in
    let asked : HotRow → Bool = λ r. has_status s r.status in
    let started : IsQuery hot_value start asked =
      unfold list_start condition_text cond_text operand_text holds hot_value compare_operand
        compare_values operand_value argument_at decimal in
      start-IsQuery hot_value start (compares status_column equal (argument 1)) asked refl
        (unfold IsBound in (omega arith, omega arith)) (λ r. has_status-name s r.status) in
    let narrowed : IsQuery hot_value (list_where s o page) (λ r. asked r && passes o r) =
      unfold and_page in
      more_args-IsQuery hot_value (apply_filter o start) _
        (number_value (page_defaults page).limit ∷ number_value (page_defaults page).offset ∷ [])
        (apply_filter-IsQuery start asked o started) in
    let v = string_value (status_name s) in
    (
      narrowed,
      StartsWith-argument_at v _ (
          and_page-StartsWith v (page_defaults page) _
            (apply_filter-StartsWith v o start (unfold list_start StartsWith in ([], refl)))),
      and_page-HasPage (apply_filter o start) (page_defaults page),
    )

archived-test :
    (t : Bytes) (r : ArchiveRow)
    → string_test archive_value topic_column t r ≡ archive_topic_passes t r
unfolding string_test archive_value compare_operand compare_values archive_topic_passes
archived-test [] r = refl
archived-test (c ∷ cs) r = refl

final_name-test : (f g : FinalStatus) → bytes_eq (final_name g) (final_name f) ≡ is_final (some f) g
unfolding is_final final_name bytes_eq
final_name-test final_processed final_processed = refl
final_name-test final_processed final_failed = refl
final_name-test final_failed final_processed = refl
final_name-test final_failed final_failed = refl

and_final-IsQuery :
    (w : WhereBuilder) (p : ArchiveRow → Bool) (f : Option FinalStatus)
    → IsQuery archive_value w p
    → IsQuery archive_value (and_final f w) (λ r. p r && is_final f r.final_status)
unfolding and_final is_final cond_text archive_value compare_operand compare_values
and_final-IsQuery w p none h = IsQuery-meaning archive_value w p _ (λ r. and_true (p r)) h
and_final-IsQuery w p (some f) h =
    IsQuery-meaning archive_value _ _ _ (λ r. ap (λ b. p r && b) (final_name-test f r.final_status))
      (and_where-IsQuery archive_value w p final_column equal (string_value (final_name f)) h)

-- The WHERE clause of ListArchived is conditions joined by AND, with every placeholder bound to an
-- argument, that hold of an archived row just if the model of ListArchived takes it; the numbers behind
-- LIMIT and OFFSET are those of the page's limit and offset.
pub list_archived_where-IsQuery :
    (o : ListArchivedOptions) (page : PageOptions)
    → IsQuery archive_value
        (list_archived_where o page)
        (λ r. archive_topic_passes o.topic r && is_final o.final_status r.final_status)
      × HasPage (list_archived_where o page) (page_defaults page)
unfolding list_archived_where cond_text
list_archived_where-IsQuery o page =
    let every : ArchiveRow → Bool = λ r. true in
    let named : WhereBuilder = and_string (codes "topic =") o.topic any_row in
    let started : IsQuery archive_value any_row every =
      unfold condition_text holds in
      start-IsQuery archive_value any_row always every refl (unfold IsBound in tt) (λ r. refl) in
    let by_topic : IsQuery archive_value named (archive_topic_passes o.topic) =
      IsQuery-meaning archive_value _ _ (archive_topic_passes o.topic)
        (λ r. archived-test o.topic r)
        (and_string-IsQuery archive_value any_row every topic_column o.topic started) in
    (
      unfold and_page in
          more_args-IsQuery archive_value (and_final o.final_status named) _
            (number_value (page_defaults page).limit
              ∷ number_value (page_defaults page).offset
              ∷ [])
            (and_final-IsQuery named (archive_topic_passes o.topic) o.final_status by_topic),
      and_page-HasPage (and_final o.final_status named) (page_defaults page),
    )
