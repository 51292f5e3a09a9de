-- ===== src/Tests/Queries.antt =====
-- The queries of messaging_admin.go at concrete filters.
use go_messaging.Prelude.{◌≡◌, refl, pos, ◌&&◌, some, codes, decimal}
use go_messaging.Message.{failed, final_failed}
use go_messaging.Config.{PageOptions, page_defaults, positive_or}
use go_messaging.Admin.{FilterOptions, passes, retryable}
use go_messaging.Admin.Query.{
  ListArchivedOptions, status_name, has_status, is_final, archive_topic_passes,
}
use go_messaging.Admin.Query.Where.{
  string_value, number_value, retry_failed_start, retry_failed_where, list_where,
  list_archived_where, and_text,
}
use go_messaging.Admin.Query.Narrowing.{IsQuery, argument_at}
use go_messaging.Admin.Query.Selection.{
  HasPage, hot_value, archive_value, retry_failed_where-IsQuery, list_where-IsQuery,
  list_archived_where-IsQuery,
}

abbrev orders : FilterOptions
orders = record { topic = codes "orders"; partition_key = codes "k1" }

abbrev second_page : PageOptions
second_page = record { limit = pos 20; offset = pos 20 }

abbrev dead_orders : ListArchivedOptions
dead_orders = record { topic = codes "orders"; final_status = some final_failed }

retry_failed_where_text :
    (retry_failed_where orders (some 7) (pos 5)).clause
    ≡ codes "status = 'FAILED' AND topic = $2 AND partition_key = $3 AND processed_at <= $4"
unfolding retry_failed_where retry_failed_start and_text decimal
retry_failed_where_text = refl

retry_failed_where-IsQuery_example :
    IsQuery hot_value (retry_failed_where orders (some 7) (pos 5)) (retryable orders (some 7))
    × (argument_at 1 (retry_failed_where orders (some 7) (pos 5)).args
        ≡ some (number_value (positive_or (pos 1_000) (pos 5))))
retry_failed_where-IsQuery_example = retry_failed_where-IsQuery orders (some 7) (pos 5)

list_where-IsQuery_example :
    IsQuery hot_value
      (list_where failed orders second_page)
      (λ r. has_status failed r.status && passes orders r)
    × (argument_at 1 (list_where failed orders second_page).args
        ≡ some (string_value (status_name failed)))
    × HasPage (list_where failed orders second_page) (page_defaults second_page)
list_where-IsQuery_example = list_where-IsQuery failed orders second_page

list_archived_where-IsQuery_example :
    IsQuery archive_value (list_archived_where dead_orders second_page) (λ r.
      archive_topic_passes dead_orders.topic r && is_final dead_orders.final_status r.final_status)
    × HasPage (list_archived_where dead_orders second_page) (page_defaults second_page)
list_archived_where-IsQuery_example = list_archived_where-IsQuery dead_orders second_page
