-- ===== src/Vcl/Handlers.antt =====
-- The request handlers of src/modules/vcl.c, but for vcl_json and vcl_active.
pub mod Names
use vagent.Prelude.{
  ℕ, zero, suc, ◌+◌, ◌/◌, ◌%◌, [], ◌∷◌, ◌++◌, Bool, true, false, ◌&&◌, ◌||◌, Option, none, some,
  Str, text, ltb, leb, ◌==◌, if◌then◌else◌, length, take, starts_with, show_ptr,
}
use vagent.Exec.{IpcRet, answered, M, Peers, ◌>>=◌, ◌>>◌, pure, assert, log, ipc_run, aborted}
use vagent.Http.{HttpRequest, http_reply, m_get, m_post, m_put, m_delete}
use vagent.Helpers.{c_str}
use vagent.Vcl.Files.{FileOps, vcl_persist, vcl_persist_active}

-- isalnum, in the C locale
unfoldable pub is_alnum : ℕ → Bool
is_alnum c =
    (leb b'0' c && leb c b'9') || ((leb b'A' c && leb c b'Z') || (leb b'a' c && leb c b'z'))

unfoldable pub ident_char : ℕ → Bool
unfolding is_alnum
ident_char c = is_alnum c || (c == b'_')

unfoldable pub valid_c_ident : Str → Bool
valid_c_ident [] = true
valid_c_ident (c ∷ s) = ident_char c && valid_c_ident s

-- The last byte of a body that is not empty, as `body[bodylen - 1] == '\n'`.
ends_in_newline : Str → Bool
ends_in_newline [] = false
ends_in_newline (c ∷ s) = elim s [ [] ↦ c == b'\n' | d ∷ t ↦ ends_in_newline s ]

-- "vcl.inline %s << __EOF_%s__\n%s%s__EOF_%s__"
unfoldable pub inline_command : Str → Str → Str
unfolding ends_in_newline
inline_command id body =
    text "vcl.inline "
    ++ (id
        ++ (text " << __EOF_"
            ++ (id
                ++ (text "__\n"
                    ++ (c_str body
                        ++ ((if ends_in_newline body then [] else text "\n")
                            ++ (text "__EOF_" ++ (id ++ text "__"))))))))

-- `%ju`
decimal_on : ℕ → ℕ → Str → Str
decimal_on zero n acc = acc
decimal_on (suc fuel) n acc =
    let rest = decimal_on fuel (n / 10) ((b'0' + n % 10) ∷ acc) in
    if ltb n 10 then (b'0' + n) ∷ acc else rest

-- 20 digits hold every 64-bit number.
unfoldable pub decimal : ℕ → Str
unfolding decimal_on
decimal n = decimal_on 20 n []

module _ {S : Type 0} (peers : Peers S) (files : FileOps S) (p_arg : Str) where
  -- From ipc_run on: the status of the response, and the answer.
  unfoldable pub after_inline : Str → Str → IpcRet → M S (ℕ × IpcRet)
  after_inline id body vret =
      if vret.status == 200
      then (do
        log 2
        stored ← vcl_persist files p_arg id (c_str body)
        if stored then pure (201, vret) else (do
          log 1
          pure (
            500,
            record vret {
              answer = text "VCL stored in varnish OK, but persisting to disk failed.";
            },
          )))
      else (do log 1; pure (500, vret))

  unfoldable pub vcl_store_body : Str → Str → M S (ℕ × IpcRet)
  vcl_store_body id body =
      if length body == 0 then (do log 1; pure (500, answered 400 (text "No VCL found"))) else (do
        assert (ltb 0 (length id))
        if valid_c_ident id
            then (do vret ← ipc_run peers (inline_command id body); after_inline id body vret)
            else pure (500, answered 400 (text "VCL name is not valid")))

  unfoldable pub vcl_store : HttpRequest → Str → M S (ℕ × IpcRet)
  vcl_store request id = elim request.body [
    | none ↦ λ _. aborted
    | some body ↦ vcl_store_body id body
  ]

  -- The name of an upload: by the clock, or the argument of the URL, cut to the buffer.
  unfoldable pub upload_id : ℕ → HttpRequest → Option Str → Str
  upload_id now request arg =
      take 255 (if request.method == m_post then text "vcl" ++ decimal now else show_ptr arg)

  unfoldable pub push_as : HttpRequest → Str → M S (Unit {0})
  push_as request id =
      if length id == 0 then http_reply request.connection 400 (some (text "Bad URL?")) else (do
        (status, vret) ← vcl_store request id
        http_reply request.connection status (some vret.answer))

  -- `now` is time(NULL).
  unfoldable pub vcl_push : ℕ → HttpRequest → Option Str → M S (Unit {0})
  vcl_push now request arg = do
    assert (starts_with request.url (text "/vcl"))
    assert ((request.method == m_post) || (request.method == m_put))
    push_as request (upload_id now request arg)

  unfoldable pub vcl_deploy : HttpRequest → Option Str → M S (Unit {0})
  vcl_deploy request arg = do
    assert (starts_with request.url (text "/vcldeploy"))
    assert (request.method == m_put)
    vret ← ipc_run peers (text "vcl.use " ++ show_ptr arg)
    if vret.status == 200
        then (do
          linked ← vcl_persist_active files p_arg (show_ptr arg)
          if linked
              then http_reply request.connection 200 (some vret.answer)
              else http_reply request.connection 500
                  (some (text "Deployed ok, but NOT PERSISTED.")))
        else http_reply request.connection 500 (some vret.answer)

module _ {S : Type 0} (peers : Peers S) where
  -- vcl.list, or vcl.show with the argument
  unfoldable pub show_command : Option Str → Str
  show_command none = text "vcl.list"
  show_command (some arg) = text "vcl.show " ++ arg

  unfoldable pub vcl_listshow : HttpRequest → Option Str → M S (Unit {0})
  vcl_listshow request arg = do
    assert (starts_with request.url (text "/vcl"))
    assert (request.method == m_get)
    vret ← ipc_run peers (show_command arg)
    http_reply request.connection (if vret.status == 200 then 200 else 400) (some vret.answer)

  unfoldable pub vcl_delete : HttpRequest → Option Str → M S (Unit {0})
  vcl_delete request arg = do
    assert (request.method == m_delete)
    assert (starts_with request.url (text "/vcl"))
    vret ← ipc_run peers (text "vcl.discard " ++ show_ptr arg)
    http_reply request.connection
        (if (vret.status == 400) || (vret.status == 106) then 500 else 200) (some vret.answer)
