-- ===== src/Vcl/Files/Active.antt =====
-- vcl_persist_active of src/modules/vcl.c replaces boot.vcl whole or not at all.
use vagent.Prelude.{
  ◌≡◌, ◌≢◌, sym, ◌∙◌, Bool, true, false, Option, none, some, Str, Bool-cases, inl, inr,
}
use vagent.Exec.{World, Ends, log}
use vagent.Vcl.Files.{
  if_regular, unless_failed, FileOps, SysResult, ok, enoent, failed, IsPosix, stored_path,
  boot_path, boot_temp_path, move_into_place, link_active, unlink_active, vcl_persist_active,
}

module _ {S : Type 0} (files : FileOps S) (posix : IsPosix files) (p_arg id : Str)
    (apart : boot_path p_arg ≢ boot_temp_path p_arg)
    (apart' : stored_path p_arg id ≢ boot_temp_path p_arg) (before : S) where
  abbrev stored : S → Option Str
  stored s = files.contents s (stored_path p_arg id)

  abbrev booted : S → Option Str
  booted s = files.contents s (boot_path p_arg)

  -- Neither the stored file nor boot.vcl has changed so far.
  abbrev Untouched : S → Type 0
  Untouched s = (stored s ≡ stored before) × (booted s ≡ booted before)

  -- 0: boot.vcl has the contents of the stored file; -1: it is as before.
  abbrev pub Replaced : Bool → World S → Type 0
  Replaced true w = booted w.peer ≡ stored before
  Replaced false w = booted w.peer ≡ booted before

  move-Replaced :
      (w : World S)
      → files.contents w.peer (boot_temp_path p_arg) ≡ stored before
      → booted w.peer ≡ booted before
      → Ends Replaced (move_into_place files (boot_temp_path p_arg) (boot_path p_arg) w)
  unfolding move_into_place log
  move-Replaced w new old =
      let r = files.rename w.peer (boot_temp_path p_arg) (boot_path p_arg) in
      elim (Bool-cases r.1) [
        | inl e ↦ rw e (posix.rename-moves w.peer _ _ (λ q. apart (sym q)) e ∙ new)
        | inr e ↦ rw e (posix.rename-failed w.peer _ _ _ e ∙ old)
      ]

  link-Replaced : (w : World S) → Untouched w.peer → Ends Replaced (link_active files p_arg id w)
  unfolding link_active log
  link-Replaced w (same, old) =
      let r = files.link w.peer (stored_path p_arg id) (boot_temp_path p_arg) in
      let still =
        posix.link-other w.peer (stored_path p_arg id) (boot_temp_path p_arg) _ apart ∙ old in
      elim (Bool-cases r.1) [
        | inl e ↦ rw e (move-Replaced _ (posix.link-names w.peer _ _ e ∙ same) still)
        | inr e ↦ rw e still
      ]

  unless-Replaced :
      (r : SysResult) (w : World S)
      → Untouched w.peer
      → Ends Replaced (unless_failed files r (link_active files p_arg id) w)
  unfolding log
  unless-Replaced failed w u = u.1
  unless-Replaced ok w u = link-Replaced w u
  unless-Replaced enoent w u = link-Replaced w u

  unlink-Replaced :
      (w : World S) → Untouched w.peer → Ends Replaced (unlink_active files p_arg id w)
  unfolding unlink_active
  unlink-Replaced w (same, old) =
      let r = files.unlink w.peer (boot_temp_path p_arg) in
      let w' : World S = record w { peer = r.0 } in
      unless-Replaced r.1 w' (
        posix.unlink-other w.peer (boot_temp_path p_arg) _ apart' ∙ same,
        posix.unlink-other w.peer (boot_temp_path p_arg) _ apart ∙ old,
      )

  regular-Replaced :
      (r : Option Bool) (w : World S)
      → Untouched w.peer
      → Ends Replaced (if_regular files r (unlink_active files p_arg id) w)
  unfolding log
  regular-Replaced none w u = u.1
  regular-Replaced (some false) w u = u.1
  regular-Replaced (some true) w u = unlink-Replaced w u

  -- With paths that do not fall together, vcl_persist_active always ends. Where it returns 0,
  -- boot.vcl reads as the stored VCL did before; where it returns -1, boot.vcl reads as it did
  -- before, whichever step failed.
  pub vcl_persist_active-Replaced :
      (w : World S) → w.peer ≡ before → Ends Replaced (vcl_persist_active files p_arg id w)
  unfolding vcl_persist_active
  vcl_persist_active-Replaced w e =
      regular-Replaced (files.stat w.peer (stored_path p_arg id)) w (rw e, rw e)
