-- ===== src/Html/Paths.antt =====
-- Which files html_reply of src/modules/html.c reads.
use vagent.Prelude.{
  ◌≢◌, ◌++◌, ◌∷◌, [], starts_with, starts_with-append, ap, ◌∙◌, arith, ◌≡◌, refl, Bool, true, false,
  Option, Str, text, strcmp_eq, if◌then◌else◌,
}
use vagent.Exec.{M}
use vagent.Vadmin.{strstr}
use vagent.Http.{HttpRequest}
use vagent.Html.{FileSystem, leaves_root, file_path, html_name, serve_file, html_reply}

-- The two file systems answer alike at a path.
abbrev pub Agree : FileSystem → FileSystem → Str → Type 0
Agree fs fs' path = (fs.stat path ≡ fs'.stat path) × (fs.open_read path ≡ fs'.open_read path)

serve_file-Agree :
    {S : Type 0} (fs fs' : FileSystem) (request : HttpRequest) (path : Str)
    → Agree fs fs' path
    → serve_file {S = S} fs request path ≡ serve_file fs' request path
unfolding serve_file
serve_file-Agree fs fs' request path h = rw h.0 (rw h.1)

replies-alike :
    {S : Type 0} (a b : Bool) (m n k k' : M S (Unit {0}))
    → (b ≡ false → k ≡ k')
    → (if a then m else if b then n else k) ≡ (if a then m else if b then n else k')
replies-alike true b m n k k' h = refl
replies-alike false true m n k k' h = refl
replies-alike false false m n k k' h = h refl

-- A name that neither starts with "../" nor holds "/../".
pub record IsInside (name : Str) : Type 0 where
  pub start : (s : Str) → name ≢ text "../" ++ s
  pub middle : (a b : Str) → name ≢ a ++ (text "/../" ++ b)

strstr-middle : (a b : Str) → strstr (a ++ (text "/../" ++ b)) (text "/../") ≡ true
unfolding strstr text starts_with
strstr-middle [] b = refl
strstr-middle (c ∷ a) b = ground (arith, strstr-middle a b)

inside : (name : Str) → leaves_root name ≡ false → IsInside name
unfolding leaves_root
inside name h = record {
  start = λ s e.
      let at_start : starts_with name (text "../") ≡ true =
        ap (λ n. starts_with n (text "../")) e ∙ starts_with-append (text "../") s in
      ground (arith, h, at_start);
  middle = λ a b e.
      let held : strstr name (text "/../") ≡ true =
        ap (λ n. strstr n (text "/../")) e ∙ strstr-middle a b in
      ground (arith, h, held);
}

-- The reply of html_reply depends on the file system only at the names, behind the root and a slash,
-- that neither start with "../" nor hold "/../": file systems that agree there give equal replies.
-- The name ".." itself is one of them.
pub html_reply-confined :
    {S : Type 0} (fs fs' : FileSystem) (H_arg : Str) (request : HttpRequest) (arg : Option Str)
    → ((name : Str) → IsInside name → Agree fs fs' (file_path H_arg name))
    → html_reply {S = S} fs H_arg request arg ≡ html_reply fs' H_arg request arg
unfolding html_reply
html_reply-confined fs fs' H_arg request arg agree =
    replies-alike (strcmp_eq request.url (text "/html")) (leaves_root (html_name arg)) _ _ _ _
      λ stays.
        serve_file-Agree fs fs' request (file_path H_arg (html_name arg))
          (agree (html_name arg) (inside (html_name arg) stays))
