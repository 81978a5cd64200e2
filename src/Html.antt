-- ===== src/Html.antt =====
-- src/modules/html.c: the files below the directory -H. The file system is a parameter.
use vagent.Prelude.{
  ℕ, ◌≡◌, List, [], ◌∷◌, ◌++◌, Bool, true, false, ◌||◌, Option, none, some, Str, text, ◌==◌,
  if◌then◌else◌, length, take, starts_with, strcmp_eq,
}
use vagent.Exec.{M, World, ◌>>=◌, ◌>>◌, pure, log, aborted}
use vagent.Http.{
  HttpRequest, HttpResponse, http_reply, http_mkresp, http_add_header, http_get_header,
  send_response, http_set_content_type,
}
use vagent.Vadmin.{strstr}
pub mod Paths

-- What the file system answers for a path.
pub record FileSystem : Type 0 where
  -- stat: whether it is a regular file, and its size
  pub stat : Str → Option (Bool × ℕ)
  -- open for reading, and the bytes that a read of the given size then returns
  pub open_read : Str → Option (ℕ → Str)

-- `strstr(arg, "/../") || STARTS_WITH(arg, "../")`
unfoldable pub leaves_root : Str → Bool
leaves_root arg = strstr arg (text "/../") || starts_with arg (text "../")

-- snprintf into `path`, of PATH_MAX bytes.
unfoldable pub file_path : Str → Str → Str
file_path root arg = take 4095 (root ++ b'/' ∷ arg)

abbrev pub html_name : Option Str → Str
html_name none = text "index.html"
html_name (some a) = a

module _ {S : Type 0} where
  unfoldable pub send_redirect : HttpRequest → Str → M S (Unit {0})
  send_redirect request location =
      send_response
        (http_add_header (http_mkresp request.connection 301 none) (text "Location") location)

  unfoldable pub redirect : HttpRequest → M S (Unit {0})
  redirect request = elim (http_get_header request.connection (text "Host")) [
    | none ↦ do log 2; send_redirect request (text "/html/")
    | some host ↦ send_redirect request (text "http://" ++ (host ++ text "/html/"))
  ]

  -- From `buffer = malloc(...)` on. A read that returns another count fails the assert.
  unfoldable pub send_file : HttpRequest → Str → ℕ → Str → M S (Unit {0})
  send_file request path size buffer =
      if length buffer == size
      then send_response
          (http_set_content_type (http_mkresp request.connection 200 (some buffer)) path)
      else λ _. aborted

  unfoldable pub opened_file : HttpRequest → Str → Bool → ℕ → Option (ℕ → Str) → M S (Unit {0})
  opened_file request path regular size none = do
    log 1
    http_reply request.connection 500 (some (text "open() was not happy"))
  opened_file request path false size (some fd) = do
    log 1
    http_reply request.connection 500 (some (text "not a file"))
  opened_file request path true size (some fd) = send_file request path size (fd size)

  unfoldable pub stat_file :
      HttpRequest → Str → Option (Bool × ℕ) → Option (ℕ → Str) → M S (Unit {0})
  stat_file request path none fd = do
    log 1
    http_reply request.connection 500 (some (text "stat() was not happy"))
  stat_file request path (some (regular, size)) fd = opened_file request path regular size fd

  unfoldable pub serve_file : FileSystem → HttpRequest → Str → M S (Unit {0})
  serve_file fs request path = stat_file request path (fs.stat path) (fs.open_read path)

  -- `H_arg` is the directory -H.
  unfoldable pub html_reply : FileSystem → Str → HttpRequest → Option Str → M S (Unit {0})
  html_reply fs H_arg request arg =
      if strcmp_eq request.url (text "/html")
      then redirect request
      else if leaves_root (html_name arg)
      then http_reply request.connection 500 (some (text "Invalid URL"))
      else serve_file fs request (file_path H_arg (html_name arg))
