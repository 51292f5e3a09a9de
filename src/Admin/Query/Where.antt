-- ===== src/Admin/Query/Where.antt =====
-- messaging_admin.go: whereBuilder, and the conditions that each query has of it.
use go_messaging.Prelude.{
  ℕ, ◌-◌, ℤ, pos, Option, none, some, List, [], ◌∷◌, ◌++◌, Bytes, codes, decimal, length,
}
use go_messaging.Message.{Status, Time, FinalStatus, final_processed, final_failed}
use go_messaging.Config.{PageOptions, page_defaults, positive_or}
use go_messaging.Admin.{FilterOptions}
use go_messaging.Admin.Query.{ListArchivedOptions, status_name}

-- What the methods hand to a query as an argument.
pub data SqlValue : Type 0 where
  string_value : Bytes → SqlValue
  time_value : Time → SqlValue
  number_value : ℤ → SqlValue

-- type whereBuilder struct
pub record WhereBuilder : Type 0 where
  pub clause : Bytes
  pub args : List SqlValue

-- fmt.Sprintf(" AND %s $%d", cond, n)
unfoldable pub and_text : Bytes → ℕ → Bytes
and_text cond n = codes " AND " ++ cond ++ codes " $" ++ decimal n

-- (*whereBuilder).and
unfoldable pub and_where : WhereBuilder → Bytes → SqlValue → WhereBuilder
and_where w cond val =
    let args = w.args ++ val ∷ [] in
    record { clause = w.clause ++ and_text cond (length args); args = args }

-- if s != "" { w.and(cond, s) }
unfoldable pub and_string : Bytes → Bytes → WhereBuilder → WhereBuilder
unfolding and_where
and_string cond [] w = w
and_string cond (c ∷ cs) w = and_where w cond (string_value (c ∷ cs))

-- (*whereBuilder).applyFilter
unfoldable pub apply_filter : FilterOptions → WhereBuilder → WhereBuilder
unfolding and_string
apply_filter o w =
    and_string (codes "partition_key =") o.partition_key (and_string (codes "topic =") o.topic w)

-- if opts.Before != nil { … }
unfoldable pub and_before : Option Time → WhereBuilder → WhereBuilder
unfolding and_where
and_before none w = w
and_before (some t) w = and_where w (codes "processed_at <=") (time_value t)

-- The builder of RetryFailed, whose LIMIT is $1.
unfoldable pub retry_failed_start : ℤ → WhereBuilder
unfolding positive_or
retry_failed_start limit = record {
  clause = codes "status = 'FAILED'";
  args = number_value (positive_or (pos 1000) limit) ∷ [];
}

unfoldable pub retry_failed_where : FilterOptions → Option Time → ℤ → WhereBuilder
unfolding retry_failed_start apply_filter and_before
retry_failed_where o before limit = and_before before (apply_filter o (retry_failed_start limit))

-- A clause that every row passes.
abbrev pub any_row : WhereBuilder
any_row = record { clause = codes "1=1"; args = [] }

-- The builder of GetMetrics.
unfoldable pub get_metrics_where : FilterOptions → WhereBuilder
unfolding apply_filter
get_metrics_where o = apply_filter o any_row

-- wb.args = append(wb.args, page.Limit, page.Offset)
unfoldable pub and_page : PageOptions → WhereBuilder → WhereBuilder
and_page page w = record w {
  args = w.args ++ number_value page.limit ∷ number_value page.offset ∷ [];
}

-- LIMIT $%d OFFSET $%d, with len(wb.args)-1 and len(wb.args)
unfoldable pub page_slots : WhereBuilder → ℕ × ℕ
page_slots w = (length w.args - 1, length w.args)

-- The builder of listByStatus.
unfoldable pub list_start : Status → WhereBuilder
list_start s = record { clause = codes "status = $1"; args = string_value (status_name s) ∷ [] }

unfoldable pub list_where : Status → FilterOptions → PageOptions → WhereBuilder
unfolding list_start apply_filter and_page
list_where s o page = and_page (page_defaults page) (apply_filter o (list_start s))

-- FinalStatus as it is stored.
unfoldable pub final_name : FinalStatus → Bytes
final_name final_processed = codes "PROCESSED"
final_name final_failed = codes "FAILED"

-- if opts.FinalStatus != "" { … }
unfoldable pub and_final : Option FinalStatus → WhereBuilder → WhereBuilder
unfolding and_where final_name
and_final none w = w
and_final (some s) w = and_where w (codes "final_status =") (string_value (final_name s))

-- The builder of ListArchived.
unfoldable pub list_archived_where : ListArchivedOptions → PageOptions → WhereBuilder
unfolding and_string and_final and_page
list_archived_where o page =
    and_page (page_defaults page)
      (and_final o.final_status (and_string (codes "topic =") o.topic any_row))
