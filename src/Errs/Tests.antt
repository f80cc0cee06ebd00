-- ===== src/Errs/Tests.antt =====
-- The laws of NewError at one code.
use hzchat_server.Common.{◌≡◌, ◌≢◌, ◌⊎◌, [], none}
use hzchat_server.Errs.{new_error, find_template, error_map, err_unknown}
use hzchat_server.Errs.Laws.{new_error_total}

new_error_total_example :
    (((new_error 4242).code ≡ 4242)
      ⊎ ((find_template 4242 error_map ≡ none) × ((new_error 4242).code ≡ err_unknown)))
    × ((new_error 4242).message ≢ [])
    × ((new_error 4242).status ≢ 0)
new_error_total_example = new_error_total 4242
