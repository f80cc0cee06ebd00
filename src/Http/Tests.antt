-- ===== src/Http/Tests.antt =====
-- A body with something behind a closing bracket, which is bound.
use hzchat_server.Common.{◌≡◌, ◌↔◌, true, Option, some}
use hzchat_server.Text.{Bytes, bytes, has_prefix}
use hzchat_server.Http.{bind_json, bound}
use hzchat_server.Http.Laws.{NothingMore, bind_json_iff}

abbrev decode : Bytes → Option (Bytes × Bytes)
decode body = some (bytes "{}", bytes " }junk")

bind_json_iff_example :
    (bind_json decode (bytes "application/json; charset=utf-8") (bytes "{} }junk")
      ≡ bound (bytes "{}"))
    ↔ ((has_prefix (bytes "application/json; charset=utf-8") (bytes "application/json") ≡ true)
        × (rest : Bytes) × (decode (bytes "{} }junk") ≡ some (bytes "{}", rest))
        × NothingMore rest)
bind_json_iff_example =
    bind_json_iff decode (bytes "application/json; charset=utf-8") (bytes "{} }junk") (bytes "{}")
