-- ===== src/Vcl/Json.antt =====
-- src/modules/vcl.c: the list of VCLs as JSON, and the help text. sscanf is written out for the two
-- formats of vcl_list_json.
pub mod Columns
pub mod Reply
pub mod Rows
use vagent.Prelude.{
  ℕ, zero, suc, ◌+◌, List, [], ◌∷◌, ◌++◌, Bool, true, false, not, Option, none, some, Str, text,
  ltb, ◌==◌, if◌then◌else◌, strchr, drop, length,
}
use vagent.Prelude.Options.{◌>>=◌}
use vagent.Ipc.{is_space}

-- struct vcl_list. A field that no conversion has stored is `none`.
pub record VclList : Type 0 where
  pub available : Option Str
  pub state : Option Str
  pub temp : Option Str
  pub name : Option Str

abbrev pub no_fields : VclList
no_fields = record { available = none; state = none; temp = none; name = none }

unfoldable pub skip_white : Str → Str
skip_white [] = []
skip_white (c ∷ s) = if is_space c then skip_white s else c ∷ s

-- At most so many bytes that are no white space, and what follows them.
unfoldable pub scan_chars : ℕ → Str → Str × Str
scan_chars zero s = ([], s)
scan_chars (suc n) [] = ([], [])
scan_chars (suc n) (c ∷ s) =
    let (w, r) = scan_chars n s in if is_space c then ([], c ∷ s) else (c ∷ w, r)

-- A conversion "%<n>s": `none` where no byte matches.
unfoldable pub scan_word : ℕ → Str → Option (Str × Str)
scan_word n s = elim (scan_chars n (skip_white s)).0 [
  | [] ↦ none
  | c ∷ w ↦ some (c ∷ w, (scan_chars n (skip_white s)).1)
]

-- The last conversion, "%s", into 1024 bytes: a longer name runs over them.
unfoldable pub scan_name : Str → VclList → Option VclList
scan_name s tmp = elim (scan_word (length s) s) [
  | none ↦ some tmp
  | some (name, rest) ↦
      if ltb (length name) 1024 then some (record tmp { name = some name }) else none
]

-- " %6s" in the first format alone.
unfoldable pub scan_refs : Bool → Str → VclList → Option VclList
scan_refs false s tmp = scan_name s tmp
scan_refs true s tmp = elim (scan_word 6 s) [
  | none ↦ some tmp
  | some (refs, rest) ↦ scan_name rest tmp
]

-- "/%4s": the slash has to follow at once.
unfoldable pub scan_temp : Bool → Str → VclList → Option VclList
scan_temp refs [] tmp = some tmp
scan_temp refs (c ∷ s) tmp =
    if c == b'/'
    then elim (scan_word 4 s) [
      | none ↦ some tmp
      | some (temp, rest) ↦ scan_refs refs rest (record tmp { temp = some temp })
    ]
    else some tmp

-- The fields after sscanf on a line; the inner `none` where it stores nothing and returns 0 or EOF,
-- the outer one where it writes behind the name.
unfoldable pub scan_vcl : Bool → Str → VclList → Option (Option VclList)
scan_vcl refs pos tmp = elim (scan_word 10 pos) [
  | none ↦ some none
  | some (available, s₁) ↦
      let tmp₁ : VclList = record tmp { available = some available } in
      elim (scan_word 4 s₁) [
        | none ↦ some (some tmp₁)
        | some (state, s₂) ↦ elim (scan_temp refs s₂ (record tmp₁ { state = some state })) [
          | none ↦ none
          | some tmp₂ ↦ some (some tmp₂)
        ]
      ]
]

-- An object; `none` where a field that was never stored is read.
unfoldable pub show_vcl : Str → VclList → Option Str
show_vcl sep tmp = do
  name ← tmp.name
  available ← tmp.available
  temp ← tmp.temp
  state ← tmp.state
  some (
      sep
      ++ (text "\n\t\t{\n\t\t\t\"name\": \""
          ++ (name
              ++ (text "\",\n\t\t\t\"status\": \""
                  ++ (available
                      ++ (text "\",\n\t\t\t\"temp\": \""
                          ++ (temp
                              ++ (text "\",\n\t\t\t\"mode\": \""
                                  ++ (state ++ text "\"\n\t\t}")))))))))

-- pos[30] != ' '; `none` where the line is too short for that.
unfoldable pub has_refs : Str → Option Bool
has_refs pos =
    if ltb (length pos) 30
    then none
    else elim (drop 30 pos) [ [] ↦ some true | c ∷ s ↦ some (not (c == b' ')) ]

-- The text of the list so far; `some none` where it gets confused and clears the buffer. Every line
-- but the last takes a byte or more, so the length of the text is enough fuel.
unfoldable pub list_entries : ℕ → Str → VclList → Str → Str → Option (Option Str)
list_entries zero pos tmp sep out = none
list_entries (suc fuel) pos tmp sep out = do
  refs ← has_refs pos
  scanned ← scan_vcl refs pos tmp
  elim scanned [
    | none ↦ some none
    | some tmp' ↦ elim (show_vcl sep tmp') [
      | none ↦ none
      | some object ↦ elim (strchr b'\n' pos) [
        | none ↦ some (some (out ++ object))
        | some line_end ↦ elim (drop 1 line_end) [
          | [] ↦ some (some (out ++ object))
          | c ∷ s ↦ elim (c == b'\n') [
            | true ↦ some (some (out ++ object))
            | false ↦ list_entries fuel (c ∷ s) tmp' (text ",") (out ++ object)
          ]
        ]
      ]
    ]
  ]

-- The JSON of a list; empty where it gets confused. `none` where memory behind the answer or the
-- name is touched, or a field is printed that was never stored.
unfoldable pub vcl_list_json : Str → Option Str
vcl_list_json raw = do
  entries ← list_entries (suc (length raw)) raw no_fields [] (text "{\n\t\"vcls\": [")
  some (elim entries [ none ↦ [] | some out ↦ out ++ text "\n\t]\n}\n" ])

-- The help text, with the directory of the -p option.
unfoldable pub mk_help : Str → Str
mk_help p_arg =
    text "The following logic can be used:\n"
    ++ (text "GET /vcl/ - Fetch a list of VCLs (e.g: vcl.list)\n"
        ++ (text "GET /vcl/vclname - Fetch the vcl named vclname (vcl.show)\n"
            ++ (text "POST /vcl/ - Upload a new VCL, named dynamically. (vcl.inline).\n"
                ++ (text "PUT /vcl/vclname - Upload a new VCL with the specified name.\n"
                    ++ (text "DELETE /vcl/vclname - Discard a named VCL (vcl.discard)\n"
                        ++ (text "GET /vclactive/ - Get the name of the active vcl config\n"
                            ++ (text "PUT /vcldeploy/vclname - Deploy the vcl (e.g: vcl.use)\n\n"
                                ++ (text "VCL is saved to '"
                                    ++ (p_arg
                                        ++ (text
                                              "/<name>.auto.vcl'.\nA successful vcl.deploy through the agent will update\n'"
                                            ++ (p_arg
                                                ++ (text
                                                      "/boot.vcl'\nThat way, you can start varnishd with the most recent VCL\nby using:\n"
                                                    ++ (text "\"varnishd (...) -f "
                                                        ++ (p_arg
                                                            ++ text "/boot.vcl\"\n"))))))))))))))
