-- ===== src/Vcl/Files.antt =====
-- The files of src/modules/vcl.c: <id>.auto.vcl for each VCL that was uploaded, and the link boot.vcl
-- to the one that was deployed last. The file system is an interface over the state `S`.
pub mod Persist
pub mod Active
use vagent.Prelude.{
  ℕ, ◌≡◌, ◌≢◌, ◌<◌, List, [], ◌∷◌, ◌++◌, Bool, true, false, not, Option, none, some, Str, text, ltb,
  ◌==◌, if◌then◌else◌, take,
}
use vagent.Exec.{World, M, done, ◌>>=◌, ◌>>◌, pure, assert, log}

-- How a call ended, where the code asks for ENOENT.
pub data SysResult : Type 0 where
  ok enoent failed : SysResult

pub record FileOps (S : Type 0) : Type 0 where
  pub unlink : S → Str → S × SysResult
  -- open(path, O_CREAT | O_WRONLY | O_TRUNC | O_EXCL)
  pub create : S → Str → S × Bool
  -- write to the file that was created: how many bytes it took
  pub write : S → Str → Str → S × ℕ
  -- fsync and close: whether both returned 0
  pub finish : S → Str → S × Bool
  pub rename : S → Str → Str → S × Bool
  pub link : S → Str → Str → S × Bool
  -- stat: whether the path is a regular file, if it is there
  pub stat : S → Str → Option Bool
  -- what is read at a path
  pub contents : S → Str → Option Str

-- A call of the kernel.
abbrev pub sys : {S A : Type 0} → (S → S × A) → M S A
sys f w = let (s, a) = f w.peer in done a (record w { peer = s })

-- snprintf into PATH_MAX bytes, and into 1024
unfoldable pub auto_path : Str → Str → Str
auto_path p_arg id = take 4095 (p_arg ++ (text "/" ++ (id ++ text ".auto.vcl")))

unfoldable pub temp_path : Str → Str → Str
temp_path p_arg id = take 4095 (p_arg ++ (text "/.tmp." ++ (id ++ text ".auto.vcl")))

unfoldable pub stored_path : Str → Str → Str
stored_path p_arg id = take 1023 (p_arg ++ (text "/" ++ (id ++ text ".auto.vcl")))

unfoldable pub boot_path : Str → Str
boot_path p_arg = take 1023 (p_arg ++ text "/boot.vcl")

unfoldable pub boot_temp_path : Str → Str
boot_temp_path p_arg = take 1023 (p_arg ++ text "/boot.vcl.tmp")

module _ {S : Type 0} (files : FileOps S) where
  -- warnlog, and the result -1
  abbrev pub give_up : M S Bool
  give_up = do log 1; pure false

  -- `if (unlink(...) < 0 && errno != ENOENT)`: the file that is to be made may be missing.
  abbrev pub unless_failed : SysResult → M S Bool → M S Bool
  unless_failed failed next = give_up
  unless_failed ok next = next
  unless_failed enoent next = next

  -- The last two steps of both functions: the rename over the file that is served.
  unfoldable pub move_into_place : Str → Str → M S Bool
  move_into_place temp target = do
    renamed ← sys (λ s. files.rename s temp target)
    if renamed then pure true else give_up

  -- From open on.
  unfoldable pub write_temp : Str → Str → Str → M S Bool
  write_temp temp target vcl = do
    created ← sys (λ s. files.create s temp)
    if created
        then (do
          n ← sys (λ s. files.write s temp vcl)
          assert (ltb 0 n)
          finished ← sys (λ s. files.finish s temp)
          assert finished
          move_into_place temp target)
        else give_up

  unfoldable pub vcl_persist : Str → Str → Str → M S Bool
  vcl_persist p_arg id vcl = do
    r ← sys (λ s. files.unlink s (temp_path p_arg id))
    unless_failed r (write_temp (temp_path p_arg id) (auto_path p_arg id) vcl)

  -- From link on.
  unfoldable pub link_active : Str → Str → M S Bool
  link_active p_arg id = do
    linked ← sys (λ s. files.link s (stored_path p_arg id) (boot_temp_path p_arg))
    if linked then move_into_place (boot_temp_path p_arg) (boot_path p_arg) else give_up

  unfoldable pub unlink_active : Str → Str → M S Bool
  unlink_active p_arg id = do
    r ← sys (λ s. files.unlink s (boot_temp_path p_arg))
    unless_failed r (link_active p_arg id)

  -- What stat says of the stored file decides whether it is linked.
  abbrev pub if_regular : Option Bool → M S Bool → M S Bool
  if_regular none next = give_up
  if_regular (some false) next = give_up
  if_regular (some true) next = next

  unfoldable pub vcl_persist_active : Str → Str → M S Bool
  vcl_persist_active p_arg id w =
      if_regular (files.stat w.peer (stored_path p_arg id)) (unlink_active p_arg id) w

-- What POSIX says of the calls, as seen by readers of paths. A call that fails changes nothing.
pub record IsPosix {S : Type 0} (files : FileOps S) : Type 0 where
  pub unlink-other :
      (s : S) (p q : Str) → q ≢ p → files.contents (files.unlink s p).0 q ≡ files.contents s q
  pub create-other :
      (s : S) (p q : Str) → q ≢ p → files.contents (files.create s p).0 q ≡ files.contents s q
  pub write-self :
      (s : S) (p c : Str)
      → files.contents (files.write s p c).0 p ≡ some (take (files.write s p c).1 c)
  pub write-other :
      (s : S) (p q c : Str) → q ≢ p → files.contents (files.write s p c).0 q ≡ files.contents s q
  pub finish-same : (s : S) (p q : Str) → files.contents (files.finish s p).0 q ≡ files.contents s q
  pub rename-moves :
      (s : S) (p q : Str)
      → p ≢ q
      → (files.rename s p q).1 ≡ true
      → files.contents (files.rename s p q).0 q ≡ files.contents s p
  pub rename-other :
      (s : S) (p q r : Str)
      → r ≢ p
      → r ≢ q
      → files.contents (files.rename s p q).0 r ≡ files.contents s r
  pub rename-failed :
      (s : S) (p q r : Str)
      → (files.rename s p q).1 ≡ false
      → files.contents (files.rename s p q).0 r ≡ files.contents s r
  pub link-names :
      (s : S) (p q : Str)
      → (files.link s p q).1 ≡ true
      → files.contents (files.link s p q).0 q ≡ files.contents s p
  pub link-other :
      (s : S) (p q r : Str) → r ≢ q → files.contents (files.link s p q).0 r ≡ files.contents s r
