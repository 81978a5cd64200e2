-- ===== src/Vcl/Files/Persist.antt =====
-- vcl_persist of src/modules/vcl.c replaces <id>.auto.vcl whole or not at all.
use vagent.Prelude.{
  ◌⊎◌, ℕ, ◌≡◌, ◌≢◌, ◌<◌, refl, sym, ◌∙◌, Bool, true, false, Option, some, Str, Bool-cases, inl, inr,
  arith, take, ltb,
}
use vagent.Exec.{World, M, Run, done, aborted, oversized, Ends, ◌>>◌, log, assert}
use vagent.Vcl.Files.{
  FileOps, SysResult, ok, enoent, failed, IsPosix, auto_path, temp_path, move_into_place,
  write_temp, vcl_persist, unless_failed,
}

module _ {S : Type 0} (files : FileOps S) (posix : IsPosix files) (p_arg id vcl : Str)
    (apart : auto_path p_arg id ≢ temp_path p_arg id) (before : S) where
  abbrev target : S → Option Str
  target s = files.contents s (auto_path p_arg id)

  -- The asserts of vcl_persist behind the open, from the state in which the temporary file has been
  -- removed: its write takes no byte of the VCL, or its fsync or close does not return 0.
  abbrev pub AssertFails : S → Type 0
  AssertFails s =
      let x = files.write (files.create s (temp_path p_arg id)).0 (temp_path p_arg id) vcl in
      (x.1 ≡ 0) ⊎ ((files.finish x.0 (temp_path p_arg id)).1 ≡ false)

  -- The run ends with the property, or aborts at one of these asserts.
  abbrev pub EndsOrFails : S → (Bool → World S → Type 0) → Run S Bool → Type 0
  EndsOrFails s P (done a w) = P a w
  EndsOrFails s P aborted = AssertFails s
  EndsOrFails s P (oversized cmd) = ⊥

  -- 0: the file holds what write took of the VCL, which is at least a byte; -1: it is as before.
  abbrev pub Stored : Bool → World S → Type 0
  Stored true w = (n : ℕ) × (0 < n) × (target w.peer ≡ some (take n vcl))
  Stored false w = target w.peer ≡ target before

  move-Stored :
      (n : ℕ) (w : World S)
      → 0 < n
      → files.contents w.peer (temp_path p_arg id) ≡ some (take n vcl)
      → target w.peer ≡ target before
      → Ends Stored (move_into_place files (temp_path p_arg id) (auto_path p_arg id) w)
  unfolding move_into_place log
  move-Stored n w pos new old =
      let r = files.rename w.peer (temp_path p_arg id) (auto_path p_arg id) in
      elim (Bool-cases r.1) [
        | inl e ↦ rw e (n, pos, posix.rename-moves w.peer _ _ (λ q. apart (sym q)) e ∙ new)
        | inr e ↦ rw e (posix.rename-failed w.peer _ _ _ e ∙ old)
      ]

  assert-then :
      (s : S) (b : Bool) (m : M S Bool) (w : World S)
      → (b ≡ true → EndsOrFails s Stored (m w))
      → (b ≡ false → AssertFails s)
      → EndsOrFails s Stored ((assert b >> m) w)
  assert-then s true m w h f = h refl
  assert-then s false m w h f = f refl

  weaken : (s : S) (r : Run S Bool) → Ends Stored r → EndsOrFails s Stored r
  weaken s (done a w) h = h
  weaken s aborted h = absurd h
  weaken s (oversized cmd) h = absurd h

  write-Stored :
      (w : World S)
      → target w.peer ≡ target before
      → EndsOrFails w.peer Stored (write_temp files (temp_path p_arg id) (auto_path p_arg id) vcl w)
  unfolding write_temp
  write-Stored w old =
      let c = files.create w.peer (temp_path p_arg id) in
      let old₁ = posix.create-other w.peer (temp_path p_arg id) (auto_path p_arg id) apart ∙ old in
      let x = files.write c.0 (temp_path p_arg id) vcl in
      let old₂ = posix.write-other c.0 (temp_path p_arg id) (auto_path p_arg id) vcl apart ∙ old₁ in
      let f = files.finish x.0 (temp_path p_arg id) in
      let old₃ = posix.finish-same x.0 (temp_path p_arg id) (auto_path p_arg id) ∙ old₂ in
      let new =
        posix.finish-same x.0 (temp_path p_arg id) (temp_path p_arg id)
        ∙ posix.write-self c.0 (temp_path p_arg id) vcl in
      elim (Bool-cases c.1) [
        | inl e ↦ rw e (
            assert-then w.peer (ltb 0 x.1) _ _
              (λ pos.
                assert-then w.peer f.1 _ _
                  (λ fin. weaken w.peer _ (move-Stored x.1 _ (ground arith) new old₃))
                  (λ bad. inr bad))
              (λ empty. inl (ground arith)))
        | inr e ↦ rw e (unfold log in old₁)
      ]

  unless-Stored :
      (r : SysResult) (w : World S)
      → target w.peer ≡ target before
      → EndsOrFails w.peer Stored
          (unless_failed files r (write_temp files (temp_path p_arg id) (auto_path p_arg id) vcl) w)
  unfolding log
  unless-Stored failed w u = u
  unless-Stored ok w u = write-Stored w u
  unless-Stored enoent w u = write-Stored w u

  -- With two paths that differ, vcl_persist ends, or it aborts because its own write took no byte of
  -- the VCL, as it takes none of an empty one, or its fsync or close did not return 0. Where it
  -- returns 0, the file of the VCL holds the bytes that write took, one at least; where it returns -1,
  -- the file is as it was before, whichever step failed.
  pub vcl_persist-Stored :
      (w : World S)
      → w.peer ≡ before
      → EndsOrFails
          (files.unlink w.peer (temp_path p_arg id)).0
          Stored
          (vcl_persist files p_arg id vcl w)
  unfolding vcl_persist
  vcl_persist-Stored w e =
      let r = files.unlink w.peer (temp_path p_arg id) in
      let w' : World S = record w { peer = r.0 } in
      unless-Stored r.1 w'
        (posix.unlink-other w.peer (temp_path p_arg id) (auto_path p_arg id) apart ∙ rw e)
