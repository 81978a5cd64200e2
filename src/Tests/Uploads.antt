-- ===== src/Tests/Uploads.antt =====
-- The properties of src/modules/vcl.c at a file system that is a function, and those of the handlers
-- that only send a command.
use vagent.Prelude.{
  ◌∷◌, ◌++◌, ◌<◌, inl, [], if◌then◌else◌, true, false, Option, none, some, is_some, Str, text, refl,
  ap, sym, ◌∙◌, ◌≡◌, ◌≢◌, length, take-all, strcmp_eq, strcmp_eq_refl, strcmp_eq_sound, arith,
}
use vagent.Exec.{answered, World, Ends}
use vagent.Exec.{Peers}
use vagent.Http.{http_reply, HttpRequest, m_put}
use vagent.Prelude.{starts_with}
use vagent.Vcl.Handlers.{vcl_push}
use vagent.Vcl.Handlers.Names.{vcl_push-IsForeign}
use vagent.Tests.Data.{request}
use vagent.Vcl.Files.{
  FileOps, ok, enoent, IsPosix, boot_path, boot_temp_path, stored_path, auto_path, temp_path,
  vcl_persist, vcl_persist_active,
}
use vagent.Vcl.Files.Active.{vcl_persist_active-Replaced, Replaced}
use vagent.Vcl.Files.Persist.{vcl_persist-Stored, Stored, EndsOrFails}

-- What is at each path.
abbrev Disk : Type 0
Disk = Str → Option Str

abbrev put : Disk → Str → Option Str → Disk
put s p c q = if strcmp_eq q p then c else s q

abbrev disk : FileOps Disk
disk = record {
  unlink = λ s p. (put s p none, if is_some (s p) then ok else enoent);
  create = λ s p. (put s p (some []), true);
  write = λ s p c. (put s p (some c), length c);
  finish = λ s p. (s, true);
  rename = λ s p q. (put (put s p none) q (s p), true);
  link = λ s p q. (put s q (s p), true);
  stat = λ s p. if is_some (s p) then some true else none;
  contents = λ s p. s p;
}

other : (q p : Str) → q ≢ p → strcmp_eq q p ≡ false
other q p ne = ground (arith, strcmp_eq_sound q p)

put-other : (s : Disk) (p q : Str) (c : Option Str) → q ≢ p → put s p c q ≡ s q
put-other s p q c ne = rw (other q p ne) refl

put_self : (s : Disk) (p : Str) (c : Option Str) → put s p c p ≡ c
put_self s p c = rw (strcmp_eq_refl p) refl

disk-IsPosix : IsPosix disk
disk-IsPosix = record {
  unlink-other = λ s p q ne. put-other s p q none ne;
  create-other = λ s p q ne. put-other s p q (some []) ne;
  write-self =
      λ s p c. put_self s p (some c) ∙ ap (λ l. some l) (sym (take-all (length c) c (omega arith)));
  write-other = λ s p q c ne. put-other s p q (some c) ne;
  finish-same = λ s p q. refl;
  rename-moves = λ s p q ne e. put_self (put s p none) q (s p);
  rename-other = λ s p q r np nq. put-other (put s p none) q r (s p) nq ∙ put-other s p r none np;
  rename-failed = λ s p q r e. ground arith;
  link-names = λ s p q e. put_self s q (s p);
  link-other = λ s p q r ne. put-other s q r (s p) ne;
}

apart : (a b : Str) → strcmp_eq a b ≡ false → a ≢ b
apart a b h e = ground (arith, strcmp_eq_refl a, ap (strcmp_eq a) e)

abbrev dir : Str
dir = text "/var"

abbrev empty_disk : World Disk
empty_disk = record { peer = λ p. none; trace = [] }

persist_paths : strcmp_eq (auto_path dir (text "a")) (temp_path dir (text "a")) ≡ false
unfolding text strcmp_eq auto_path temp_path boot_path boot_temp_path stored_path
persist_paths = refl

boot_paths : strcmp_eq (boot_path dir) (boot_temp_path dir) ≡ false
unfolding text strcmp_eq auto_path temp_path boot_path boot_temp_path stored_path
boot_paths = refl

stored_paths : strcmp_eq (stored_path dir (text "a")) (boot_temp_path dir) ≡ false
unfolding text strcmp_eq auto_path temp_path boot_path boot_temp_path stored_path
stored_paths = refl

vcl_persist-Stored_example :
    EndsOrFails disk disk-IsPosix dir
      (text "a")
      (text "vcl 4.0;")
      (apart _ _ persist_paths)
      (λ p. none)
      (disk.unlink (λ p. none) (temp_path dir (text "a"))).0
      (Stored disk disk-IsPosix dir
        (text "a")
        (text "vcl 4.0;")
        (apart _ _ persist_paths)
        (λ p. none))
      (vcl_persist disk dir (text "a") (text "vcl 4.0;") empty_disk)
vcl_persist-Stored_example =
    vcl_persist-Stored disk disk-IsPosix dir (text "a") (text "vcl 4.0;") (apart _ _ persist_paths)
      (λ p. none) empty_disk refl

abbrev one_vcl : World Disk
one_vcl = record {
  peer = put (λ p. none) (text "/var/a.auto.vcl") (some (text "vcl 4.0;"));
  trace = [];
}

vcl_persist_active-Replaced_example :
    Ends
      (Replaced disk disk-IsPosix dir
        (text "a")
        (apart _ _ boot_paths)
        (apart _ _ stored_paths)
        one_vcl.peer)
      (vcl_persist_active disk dir (text "a") one_vcl)
vcl_persist_active-Replaced_example =
    vcl_persist_active-Replaced disk disk-IsPosix dir (text "a") (apart _ _ boot_paths)
      (apart _ _ stored_paths) one_vcl.peer one_vcl refl

-- A varnishd that says OK and leaves the disk alone.
abbrev quiet : Peers Disk
quiet = record { vadmin = λ s cmd. (s, answered 200 []); curl = λ s cmd. (s, answered 200 []) }

abbrev bad_name : HttpRequest
bad_name = request m_put (text "/vcl/a-b") (some (text "vcl 4.0;"))

bad_name-at_vcl : starts_with bad_name.url (text "/vcl") ≡ true
unfolding starts_with text
bad_name-at_vcl = refl

one_letter : length (text "a") < 255
unfolding text
one_letter = omega arith

not_empty_vcl : text "vcl 4.0;" ≢ []
unfolding text
not_empty_vcl e = cc

vcl_push-IsForeign_example :
    vcl_push quiet disk dir 0 bad_name (some (text "a" ++ b'-' ∷ text "b")) empty_disk
    ≡ http_reply [] 500 (some (text "VCL name is not valid")) empty_disk
vcl_push-IsForeign_example =
    vcl_push-IsForeign quiet disk dir 0 bad_name (text "a") (text "b") (text "vcl 4.0;") b'-'
      bad_name-at_vcl refl refl not_empty_vcl one_letter (inl (omega arith)) empty_disk
