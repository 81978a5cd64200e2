-- ===== src/Vcl/Handlers/Names.antt =====
-- The names of uploads that vcl_push of src/modules/vcl.c turns down.
use vagent.Prelude.{
  ℕ, zero, suc, ◌≡◌, refl, ◌≢◌, ◌<◌, ◌⊎◌, inl, inr, [], ◌∷◌, ◌++◌, true, false, ◌||◌, ◌==◌, Option,
  some, Str, text, take, length, length-pos, starts_with, arith,
}
use vagent.Exec.{World, Peers}
use vagent.Http.{HttpRequest, http_reply, m_post, m_put}
use vagent.Vcl.Files.{FileOps}
use vagent.Vcl.Handlers.{
  is_alnum, ident_char, valid_c_ident, upload_id, push_as, vcl_store, vcl_store_body, vcl_push,
}

-- A byte that is no ASCII letter, no digit and no underscore.
abbrev pub IsForeign : ℕ → Type 0
IsForeign c =
    (c < b'0')
    ⊎ (((b'9' < c) × (c < b'A'))
        ⊎ (((b'Z' < c) × (c < b'_')) ⊎ (((b'_' < c) × (c < b'a')) ⊎ (b'z' < c))))

ident_char-IsForeign : (c : ℕ) → IsForeign c → ident_char c ≡ false
unfolding ident_char is_alnum
ident_char-IsForeign c (inl p) = ground (arith, p)
ident_char-IsForeign c (inr (inl p)) = ground (arith, p.0, p.1)
ident_char-IsForeign c (inr (inr (inl p))) = ground (arith, p.0, p.1)
ident_char-IsForeign c (inr (inr (inr (inl p)))) = ground (arith, p.0, p.1)
ident_char-IsForeign c (inr (inr (inr (inr p)))) = ground (arith, p)

valid_c_ident-IsForeign :
    (n : ℕ) (a b : Str) (c : ℕ)
    → IsForeign c
    → length a < n
    → valid_c_ident (take n (a ++ c ∷ b)) ≡ false
unfolding valid_c_ident
valid_c_ident-IsForeign zero a b c h room = absurd (omega arith)
valid_c_ident-IsForeign (suc n) [] b c h room = ground (arith, ident_char-IsForeign c h)
valid_c_ident-IsForeign (suc n) (x ∷ a) b c h room =
    ground (arith, valid_c_ident-IsForeign n a b c h (omega arith))

take-pos : (n : ℕ) (a b : Str) (c : ℕ) → take (suc n) (a ++ c ∷ b) ≢ []
take-pos n [] b c = λ e. cc
take-pos n (x ∷ a) b c = λ e. cc

upload_id-put :
    {S : Type 0} (peers : Peers S) (files : FileOps S) (p_arg : Str) (now : ℕ)
    (request : HttpRequest) (arg : Str)
    → request.method ≡ m_put
    → upload_id peers files p_arg now request (some arg) ≡ take 255 arg
unfolding upload_id vagent.Prelude.show_ptr
upload_id-put peers files p_arg now request arg put = rw put refl

push_as-refused :
    {S : Type 0} (peers : Peers S) (files : FileOps S) (p_arg : Str) (request : HttpRequest)
    (id body : Str)
    → request.body ≡ some body
    → 0 < length body
    → 0 < length id
    → valid_c_ident id ≡ false
    → (w : World S)
    → push_as peers files p_arg request id w
      ≡ http_reply request.connection 500 (some (text "VCL name is not valid")) w
unfolding push_as vcl_store vcl_store_body
push_as-refused peers files p_arg request id body given full named bad w =
    ground (arith, given, full, named, bad)

-- A PUT to a path of /vcl, with a body, for a name that holds a byte other than a letter, a digit and
-- an underscore among its first 255, such as the dot or the slash of a path, is answered 500 and
-- nothing else: varnishd is sent nothing, and no file is touched.
pub vcl_push-IsForeign :
    {S : Type 0} (peers : Peers S) (files : FileOps S) (p_arg : Str) (now : ℕ)
    (request : HttpRequest) (a b body : Str) (c : ℕ)
    → starts_with request.url (text "/vcl") ≡ true
    → request.method ≡ m_put
    → request.body ≡ some body
    → body ≢ []
    → length a < 255
    → IsForeign c
    → (w : World S)
    → vcl_push peers files p_arg now request (some (a ++ c ∷ b)) w
      ≡ http_reply request.connection 500 (some (text "VCL name is not valid")) w
unfolding vcl_push
vcl_push-IsForeign peers files p_arg now request a b body c at_vcl put given full room foreign w =
    let id = upload_id-put peers files p_arg now request (a ++ c ∷ b) put in
    let allowed : ((request.method == m_post) || (request.method == m_put)) ≡ true =
      ground (arith, put) in
    rw (at_vcl, id, allowed)
      (push_as-refused peers files p_arg request (take 255 (a ++ c ∷ b)) body given
        (length-pos body full) (length-pos (take 255 (a ++ c ∷ b)) (take-pos 254 a b c))
        (valid_c_ident-IsForeign 255 a b c foreign room) w)
