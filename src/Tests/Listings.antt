-- ===== src/Tests/Listings.antt =====
-- The properties of the listings of parameters, log records and VCL, at concrete inputs.
use vagent.Vcl.Json.Rows.{vcl_list_json-rows, objects, list_text, Row, IsRow}
use vagent.Vcl.Json.{vcl_list_json, no_fields, scan_vcl}
use vagent.Vcl.Json.Columns.{scan_vcl-long_temp, columns, row, IsColumn}
use vagent.Vparams.RoundTrip.{vparams_show_json-shown}
use vagent.Vparams.EmptyValue.{vparams_show_json-empty, empty_value}
use vagent.Vlog.Limit.{log_json_lem, all_entries, listed}
use vagent.Vparams.Json.{show_params, vparams_show_json}
use vagent.Vlog.{r_rxreq, t_req, log_json, Transaction}
use vagent.Vparams.Shown.{to_param, show_all, field_text, Shown, IsShown}
use vagent.Prelude.{arith, ℕ, [], ◌∷◌, ◌++◌, true, false, none, some, Str, text, refl, ◌≡◌, take}

abbrev thread_pool : Shown
thread_pool = record {
  name = text "thread_pools";
  value = text "2";
  unit = some (text "pools");
  default = none;
  min = some (text "1");
  max = none;
  lines = (false, text "Number of worker thread pools.") ∷ [];
}

thread_pool-IsShown : IsShown thread_pool
unfolding text vagent.Vparams.Parse.Description.joined_lines
thread_pool-IsShown = record {
  name_text = (ground arith);
  value_text = (ground arith);
  unit_line = (ground arith);
  default_line = tt;
  min_line = (ground arith);
  max_line = tt;
  some_line = (λ e. ground arith);
  lines_text = (ground arith);
  room = (ground arith);
}

vparams_show_json-shown_example :
    vparams_show_json (show_all 4 (thread_pool ∷ []))
    ≡ some (text "{\n" ++ (show_params (to_param thread_pool ∷ []) ++ text "\n}"))
vparams_show_json-shown_example =
    vparams_show_json-shown 3 (thread_pool ∷ []) (thread_pool-IsShown, tt)

vparams_show_json-empty_example :
    vparams_show_json (
      text "vcl_dir"
      ++ b'\n' ∷ field_text 8 (text "Value is: ") (some (empty_value true)) (text "\n"))
    ≡ none
unfolding text
vparams_show_json-empty_example =
    vparams_show_json-empty 7 (text "vcl_dir") (text "\n") true (ground arith)

abbrev quoted : Str → Str
quoted s = b'"' ∷ s ++ text "\""

abbrev one_record : Transaction
one_record = record {
  vxid = 7;
  type = t_req;
  reason = r_rxreq;
  records =
      record { matches = true; tag = text "ReqURL"; cdata = text "/" }
      ∷ record { matches = false; tag = text "VCL_call"; cdata = text "RECV" }
      ∷ record { matches = true; tag = text "ReqURL"; cdata = text "/x" }
      ∷ [];
}

log_json_lem_example :
    log_json quoted 1 (((one_record ∷ []) ∷ [], true) ∷ ([], false) ∷ [])
    ≡ some (
        (text "{ \"log\": ["
          ++ listed quoted
              (take 1 (all_entries quoted (((one_record ∷ []) ∷ [], true) ∷ ([], false) ∷ []))))
        ++ text "\n] }\n")
log_json_lem_example = log_json_lem quoted 1 (((one_record ∷ []) ∷ [], true) ∷ ([], false) ∷ []) tt

abbrev vcl_row : ℕ → Str → ℕ → Str → Row
vcl_row k available digit name = record {
  k = k;
  j = 9;
  available = available;
  state = text "auto";
  temp = text "cold";
  refs = [];
  digit = digit;
  name = name;
}

abbrev boot_row : Row
boot_row = vcl_row 1 (text "available") b'0' (text "boot")

abbrev other_row : Row
other_row = vcl_row 4 (text "active") b'2' (text "b")

boot_row-IsRow : IsRow boot_row
unfolding text vagent.Ipc.is_space
boot_row-IsRow = record {
  available_column = ground arith;
  available_fits = omega arith;
  state_column = ground arith;
  state_fits = refl;
  temp_column = ground arith;
  temp_fits = omega arith;
  refs_column = ground arith;
  refs_fit = omega arith;
  digit_shown = refl;
  name_column = ground arith;
  name_fits = omega arith;
  aligned = refl;
}

other_row-IsRow : IsRow other_row
unfolding text vagent.Ipc.is_space
other_row-IsRow = record {
  available_column = ground arith;
  available_fits = omega arith;
  state_column = ground arith;
  state_fits = refl;
  temp_column = ground arith;
  temp_fits = omega arith;
  refs_column = ground arith;
  refs_fit = omega arith;
  digit_shown = refl;
  name_column = ground arith;
  name_fits = omega arith;
  aligned = refl;
}

vcl_list_json-rows_example :
    vcl_list_json (list_text (boot_row ∷ other_row ∷ []))
    ≡ some
        ((text "{\n\t\"vcls\": [" ++ objects [] (boot_row ∷ other_row ∷ [])) ++ text "\n\t]\n}\n")
vcl_list_json-rows_example =
    vcl_list_json-rows boot_row (other_row ∷ []) boot_row-IsRow (other_row-IsRow, tt)

cooling_row :
    IsColumn (text "available")
    × IsColumn (text "auto")
    × IsColumn (text "cool")
    × IsColumn (text "ing")
    × IsColumn (text "3")
unfolding text vagent.Ipc.is_space
cooling_row = ground arith

scan_vcl-long_temp_example :
    scan_vcl true
      (row 1 6
        (text "available")
        (text "auto")
        (text "cool" ++ text "ing")
        (text "3")
        (text "boot")
        [])
      no_fields
    ≡ some (some (columns (text "available") (text "auto") (text "cool") (text "3")))
unfolding text
scan_vcl-long_temp_example =
    scan_vcl-long_temp 1 6 (text "available") (text "auto") (text "cool") (text "ing") (text "3")
      (text "boot") [] no_fields cooling_row.0 (omega arith) cooling_row.1 refl cooling_row.2 refl
      cooling_row.3 (omega arith) cooling_row.4 (omega arith)
