-- ===== src/Vparams/Json.antt =====
-- vparams_show_json and vparams_json_reply of src/modules/vparams.c.
use vagent.Prelude.{
  suc, List, [], ◌∷◌, ◌++◌, Option, none, some, Str, text, ◌==◌, if◌then◌else◌, length, show_ptr,
}
use vagent.Exec.{M, Peers, ◌>>=◌, ipc_run}
use vagent.Foreign.{VsbOps}
use vagent.Http.{HttpRequest, http_reply}
use vagent.Helpers.{c_str}
use vagent.Vbackends.{reply_json}
use vagent.Vparams.Parse.{ParamOpt, parse_entries}

unfoldable pub show_param : ParamOpt → Str
show_param p =
    text "\t\""
    ++ (p.name
        ++ (text "\": {\n\t\t\"value\": \""
            ++ (show_ptr p.value
                ++ (text "\",\n\t\t\"default\": \""
                    ++ (show_ptr p.def
                        ++ (text "\",\n\t\t\"min\": \""
                            ++ (show_ptr p.min
                                ++ (text "\",\n\t\t\"max\": \""
                                    ++ (show_ptr p.max
                                        ++ (text "\",\n\t\t\"unit\": \""
                                            ++ (show_ptr p.unit
                                                ++ (text "\",\n\t\t\"description\": \""
                                                    ++ (p.description ++ text "\"\n\t}")))))))))))))

-- The loop over the list, with the separator of `tmp != top`.
unfoldable pub show_params : List ParamOpt → Str
show_params [] = []
show_params (p ∷ []) = show_param p
show_params (p ∷ q ∷ ps) = show_param p ++ (text ",\n" ++ show_params (q ∷ ps))

unfoldable pub vparams_show_json : Str → Option Str
vparams_show_json raw = elim (parse_entries (suc (length raw)) raw []) [
  | none ↦ none
  | some top ↦ some (text "{\n" ++ (show_params top ++ text "\n}"))
]

module _ (v : VsbOps) {S : Type 0} (peers : Peers S) where
  unfoldable pub vparams_json_reply : HttpRequest → Option Str → M S (Unit {0})
  vparams_json_reply request arg = do
    vret ← ipc_run peers (text "param.show " ++ (elim arg [ none ↦ text "-l" | some a ↦ a ]))
    if vret.status == 200
        then reply_json v peers request (vparams_show_json (c_str vret.answer))
        else http_reply request.connection 500 (some (text "foo"))
