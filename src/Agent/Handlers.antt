-- ===== src/Agent/Handlers.antt =====
-- How many responses each handler under src/modules queues, and where it may abort.
use vagent.Prelude.{
  ◌≡◌, refl, Bool, true, false, Option, none, some, Str, ℕ, text, ◌==◌, starts_with,
}
use vagent.Exec.{oversized, M, World, Run, Peers, IpcRet, EndsOr, done, aborted, assert, pure, log}
use vagent.Foreign.{VsbOps}
use vagent.Http.{HttpRequest, m_get, m_put, m_delete}
use vagent.Helpers.Respond.{
  Once-reply, once_rules, Silent-log, Silent-pure, Silent-if, Once-send, Once, OnceOr, SilentOr,
  Silent-assert, Silent-bind,
}
use vagent.Vcl.Files.{
  FileOps, sys, SysResult, vcl_persist, vcl_persist_active, write_temp, move_into_place,
  link_active, unlink_active, give_up, unless_failed, if_regular, ok, enoent, failed,
}
use vagent.Vcl.Handlers.{
  vcl_push, push_as, vcl_store, vcl_store_body, after_inline, vcl_deploy, vcl_listshow, vcl_delete,
}
use vagent.Vcl.Listing.{vcl_active, reply_active}
use vagent.Vcl.Json.Reply.{vcl_json, send_list}
use vagent.Vbackends.{reply_json, backends_json, vbackends_json_reply}
use vagent.Vparams.Json.{vparams_json_reply}

weaken :
    {S A : Type 0} (C : Type 0) (P : A → World S → Type 0) (r : Run S A)
    → EndsOr ⊥ P r
    → EndsOr C P r
weaken C P (done a w) p = p
weaken C P aborted p = absurd p
weaken C P (oversized cmd) p = p

module _ {S : Type 0} {C : Type 0} where
  -- Whatever aborts are allowed.
  pub OnceOr-Once : {A : Type 0} (m : M S A) → Once m → OnceOr C m
  OnceOr-Once m once = record { run = λ w. weaken C _ (m w) (once.run w) }

  pub Once-abort : {A : Type 0} → C → OnceOr {S = S} {A = A} C (λ _. aborted)
  Once-abort c = record { run = λ w. c }

  pub Silent-may_assert : C → (b : Bool) → SilentOr {S = S} C (assert b)
  Silent-may_assert c true = record { run = λ w. refl }
  Silent-may_assert c false = record { run = λ w. c }

  pub Once-option :
      {A B : Type 0} (o : Option A) (m : M S B) (f : A → M S B)
      → OnceOr C m
      → ((a : A) → OnceOr C (f a))
      → OnceOr C (elim o [ none ↦ m | some a ↦ f a ])
  Once-option none m f km kf = km
  Once-option (some a) m f km kf = kf a

  Silent-sys : {A : Type 0} (f : S → S × A) → SilentOr C (sys f)
  Silent-sys f = record { run = λ w. refl }

ruleset file_rules = (once_rules, Silent-sys, Silent-may_assert, Once-abort, Once-option)

module _ {S : Type 0} (C : Type 0) (files : FileOps S) where
  Silent-give_up : SilentOr C (give_up files)
  Silent-give_up = Silent-bind (log 1) (λ _. pure false) (Silent-log 1) (λ _. Silent-pure false)

  Silent-unless_failed :
      (r : SysResult) (next : M S Bool) → SilentOr C next → SilentOr C (unless_failed files r next)
  Silent-unless_failed ok next h = h
  Silent-unless_failed enoent next h = h
  Silent-unless_failed failed next h = Silent-give_up

  Silent-if_regular :
      (r : Option Bool) (next : M S Bool) → SilentOr C next → SilentOr C (if_regular files r next)
  Silent-if_regular none next h = Silent-give_up
  Silent-if_regular (some false) next h = Silent-give_up
  Silent-if_regular (some true) next h = h

  Silent-move : (temp target : Str) → SilentOr C (move_into_place files temp target)
  unfolding move_into_place
  Silent-move temp target =
      Silent-bind _ _ (Silent-sys _)
        (λ renamed. Silent-if renamed _ _ (Silent-pure true) Silent-give_up)

  Silent-write_temp : C → (temp target vcl : Str) → SilentOr C (write_temp files temp target vcl)
  unfolding write_temp
  Silent-write_temp c temp target vcl =
      search (file_rules, Silent-bind, Silent-may_assert c, Silent-move, Silent-give_up) depth 12

  Silent-vcl_persist : C → (p_arg id vcl : Str) → SilentOr C (vcl_persist files p_arg id vcl)
  unfolding vcl_persist
  Silent-vcl_persist c p_arg id vcl =
      search (file_rules, Silent-bind, Silent-unless_failed, Silent-write_temp c) depth 8

  Silent-unlink_active : (p_arg id : Str) → SilentOr C (unlink_active files p_arg id)
  unfolding unlink_active link_active
  Silent-unlink_active p_arg id =
      search (file_rules, Silent-bind, Silent-unless_failed, Silent-move, Silent-give_up) depth 12

  Silent-vcl_persist_active : (p_arg id : Str) → SilentOr C (vcl_persist_active files p_arg id)
  unfolding vcl_persist_active
  Silent-vcl_persist_active p_arg id = record {
    run = λ w.
        (Silent-if_regular _ (unlink_active files p_arg id) (Silent-unlink_active p_arg id)).run w;
  }

module _ {S : Type 0} (C : Type 0) (peers : Peers S) (request : HttpRequest) where
  pub vcl_listshow-OnceOr :
      (arg : Option Str)
      → starts_with request.url (text "/vcl") ≡ true
      → (request.method == m_get) ≡ true
      → OnceOr C (vcl_listshow peers request arg)
  unfolding vcl_listshow
  vcl_listshow-OnceOr arg u m = search (file_rules, Silent-assert, u, m) depth 8

  pub vcl_delete-OnceOr :
      (arg : Option Str)
      → starts_with request.url (text "/vcl") ≡ true
      → (request.method == m_delete) ≡ true
      → OnceOr C (vcl_delete peers request arg)
  unfolding vcl_delete
  vcl_delete-OnceOr arg u m = search (file_rules, Silent-assert, u, m) depth 8

  reply_active-OnceOr : (o : Option Str) → OnceOr C (reply_active peers request o)
  unfolding reply_active
  reply_active-OnceOr none = Once-reply _ _ _
  reply_active-OnceOr (some name) = Once-reply _ _ _

  pub vcl_active-OnceOr :
      (arg : Option Str)
      → starts_with request.url (text "/vclactive") ≡ true
      → (request.method == m_get) ≡ true
      → OnceOr C (vcl_active peers request arg)
  unfolding vcl_active
  vcl_active-OnceOr arg u m = search (file_rules, Silent-assert, u, m, reply_active-OnceOr) depth 8

  send_list-OnceOr : C → (o : Option Str) → OnceOr {S = S} C (send_list request o)
  unfolding send_list
  send_list-OnceOr c none = Once-abort c
  send_list-OnceOr c (some json) = Once-send _

  pub vcl_json-OnceOr : C → (arg : Option Str) → OnceOr C (vcl_json peers request arg)
  unfolding vcl_json
  vcl_json-OnceOr c none = search (file_rules, send_list-OnceOr c) depth 8
  vcl_json-OnceOr c (some a) = search (file_rules) depth 8

  reply_json-OnceOr : (v : VsbOps) → C → (o : Option Str) → OnceOr C (reply_json v peers request o)
  unfolding reply_json
  reply_json-OnceOr v c none = Once-abort c
  reply_json-OnceOr v c (some json) = Once-send _

  pub vbackends_json_reply-OnceOr :
      (v : VsbOps) → C → (arg : Option Str) → OnceOr C (vbackends_json_reply v peers request arg)
  unfolding vbackends_json_reply backends_json
  vbackends_json_reply-OnceOr v c arg = search (file_rules, reply_json-OnceOr v c) depth 8

  pub vparams_json_reply-OnceOr :
      (v : VsbOps) → C → (arg : Option Str) → OnceOr C (vparams_json_reply v peers request arg)
  unfolding vparams_json_reply
  vparams_json_reply-OnceOr v c arg = search (file_rules, reply_json-OnceOr v c) depth 8

  module _ (files : FileOps S) (p_arg : Str) where
    pub vcl_deploy-OnceOr :
        (arg : Option Str)
        → starts_with request.url (text "/vcldeploy") ≡ true
        → (request.method == m_put) ≡ true
        → OnceOr C (vcl_deploy peers files p_arg request arg)
    unfolding vcl_deploy
    vcl_deploy-OnceOr arg u m =
        search (once_rules, Silent-assert, u, m, Silent-vcl_persist_active C files) depth 10

    Silent-after_inline :
        C
        → (id body : Str) (vret : IpcRet) → SilentOr C (after_inline peers files p_arg id body vret)
    unfolding after_inline
    Silent-after_inline c id body vret =
        search (file_rules, Silent-bind, Silent-vcl_persist C files c) depth 12

    Silent-store_body : C → (id body : Str) → SilentOr C (vcl_store_body peers files p_arg id body)
    unfolding vcl_store_body
    Silent-store_body c id body =
        search (file_rules, Silent-bind, Silent-may_assert c, Silent-after_inline c) depth 12

    Silent-body :
        C
        → (id : Str) (b : Option Str)
        → SilentOr {S = S} C (elim b [
          | none ↦ (λ _. aborted)
          | some body ↦ vcl_store_body peers files p_arg id body
        ])
    Silent-body c id none = record { run = λ w. c }
    Silent-body c id (some body) = Silent-store_body c id body

    Silent-vcl_store : C → (id : Str) → SilentOr C (vcl_store peers files p_arg request id)
    unfolding vcl_store
    Silent-vcl_store c id = Silent-body c id request.body

    pub vcl_push-OnceOr :
        C → (now : ℕ) (arg : Option Str) → OnceOr C (vcl_push peers files p_arg now request arg)
    unfolding vcl_push push_as
    vcl_push-OnceOr c now arg =
        search (file_rules, Silent-may_assert c, Silent-vcl_store c) depth 10
