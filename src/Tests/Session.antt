-- ===== src/Tests/Session.antt =====
-- The properties of src/modules/vadmin.c, helpers.c and main.c at a varnishd that says OK.
use vagent.Prelude.{
  ℕ, [], ◌∷◌, ◌++◌, if◌then◌else◌, true, false, none, some, Str, text, refl, ◌≡◌, ◌≢◌, ◌⊎◌, arith,
}
use vagent.Exec.{answered}
use vagent.Vadmin.{Net, Vadmin, opened, wrote, received, is_open, vadmin_init, read_cmd}
use vagent.Vadmin.Connect.{IsNet, IsConnected, Unless}
use vagent.Vadmin.Session.{read_cmd-IsConnected}
use vagent.Helpers.{url_arg, at, past_end, last_is}
use vagent.Helpers.Endpoint.{url_arg_lem}

-- A varnishd behind every connection that answers as long as it is open.
abbrev answering : Str → Net
answering greeting = record {
  shm = λ t. record { n_arg_taken = true; readable = false; t_value = none; s_value = none };
  vss_open = λ t address. some 4;
  write = λ t fd s. true;
  close = λ t fd. is_open fd t;
  read_result = λ t fd. if is_open fd t then answered 200 (text "PONG") else answered 400 [];
  open_secret = λ t path. some 6;
  auth_response = λ t fd challenge. text "deadbeef";
}

abbrev pub net : Net
net = answering []

net-IsNet : IsNet net
net-IsNet = record { closed_fails = λ t fd e. ground arith }

abbrev pub fresh_vadmin : Vadmin
fresh_vadmin = record {
  sock = none;
  state = false;
  s_arg_fd = none;
  t_arg_orig = some (text "localhost:6082");
  t_arg = none;
  s_arg = some (text "secret");
  trace = [];
}

fresh_vadmin-IsConnected : IsConnected fresh_vadmin
fresh_vadmin-IsConnected = λ up. ground arith

read_cmd-IsConnected_example :
    Unless (λ r. IsConnected r.0) (read_cmd net (text "status") (answered 0 []) fresh_vadmin)
read_cmd-IsConnected_example =
    read_cmd-IsConnected net net-IsNet (text "status") (answered 0 []) fresh_vadmin
      fresh_vadmin-IsConnected

-- What cli_sock leaves.
abbrev pub first_connection : Vadmin
first_connection = record fresh_vadmin {
  sock = some 4;
  state = true;
  t_arg = some (text "localhost:6082");
  trace = received 4 ∷ wrote 4 (text "ping\n") ∷ received 4 ∷ opened 4 ∷ [];
}

pub connects_first : vadmin_init net none fresh_vadmin ≡ some first_connection
unfolding vadmin_init vagent.Vadmin.cli_sock vagent.Vadmin.n_arg_sock vagent.Vadmin.n_arg_found
    vagent.Vadmin.connect_to vagent.Vadmin.with_sock vagent.Vadmin.greet
    vagent.Vadmin.after_greeting vagent.Vadmin.ping vagent.Vadmin.after_ping
    vagent.Vadmin.read_answer vagent.Vadmin.cli_write is_open vagent.Vadmin.strstr text
    vagent.Prelude.starts_with vagent.Prelude.cut_at
connects_first = refl

not_empty : text "/vcl" ≢ []
unfolding text
not_empty = ground arith

url_arg_lem_example :
    ((last_is b'/' (text "/vcl") ≡ true)
      → url_arg (text "/vcl" ++ text "/boot") (text "/vcl") ≡ some (at (text "/boot")))
    × ((s : Str)
        → last_is b'/' (text "/vcl") ≡ false
        → text "/boot" ≡ b'/' ∷ s
        → url_arg (text "/vcl" ++ text "/boot") (text "/vcl") ≡ some (at s))
    × ((c : ℕ) (s : Str)
        → last_is b'/' (text "/vcl") ≡ false
        → c ≢ b'/'
        → text "/boot" ≡ c ∷ s
        → url_arg (text "/vcl" ++ text "/boot") (text "/vcl") ≡ none)
    × (last_is b'/' (text "/vcl") ≡ false
        → text "/boot" ≡ []
        → url_arg (text "/vcl" ++ text "/boot") (text "/vcl") ≡ some past_end)
url_arg_lem_example = url_arg_lem (text "/vcl") (text "/boot") not_empty
