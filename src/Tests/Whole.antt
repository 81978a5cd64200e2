-- ===== src/Tests/Whole.antt =====
-- Requests to the agent with all its callbacks.
use vagent.Prelude.{ℕ, ◌+◌, List, [], ◌∷◌, none, some, true, false, Str, text}
use vagent.Exec.{World}
use vagent.Http.Connection.{HttpPriv, Call}
use vagent.Init.Routes.{registered}
use vagent.Vcl.Files.{FileOps, ok}
use vagent.Agent.{Agent, Outside, callbacks}
use vagent.Agent.Session.{Request}
use vagent.Tests.Data.{buffers, peers, config, token}

-- A disk on which every call succeeds.
abbrev full_disk : FileOps (List Str)
full_disk = record {
  unlink = λ s p. (s, ok);
  create = λ s p. (s, true);
  write = λ s p c. (s, 1);
  finish = λ s p. (s, true);
  rename = λ s p q. (s, true);
  link = λ s p q. (s, true);
  stat = λ s p. some true;
  contents = λ s p. none;
}

abbrev pub world : Outside (List Str)
world = record {
  peers = peers;
  disk = full_disk;
  html = λ s. record { stat = λ p. none; open_read = λ p. none };
  now = λ s. 1;
  vsm = λ s. record { abandoned = false; open_fails = false; time_stamp = []; points = [] };
  vsl = λ s. record {
    n_arg = λ n. none;
    open_log = none;
    tag_arg = λ t. none;
    cursor = none;
    query = λ args. none;
    dispatches = λ args. [];
  };
  quote = λ s. s;
  p_arg = text "/var/lib/varnish-agent";
  H_arg = text "/usr/share/varnish-agent/html";
  n_arg = [];
  help = λ t. text "help";
}

abbrev pub sockets : ℕ → ℕ × ℕ
sockets n = (n + n, n + n + 1)

abbrev deploy : Call
deploy = record {
  connection = token;
  url = text "/vcldeploy/main";
  method = text "PUT";
  upload = [];
}

abbrev all_plugins : HttpPriv (Agent buffers (List Str))
all_plugins = record { help_page = none; listener = registered (callbacks buffers world) sockets }

-- The statistics, and a ban in two parts.
abbrev stats : Call
stats = record deploy { url = text "/stats"; method = text "GET" }

abbrev ban : Call
ban = record deploy { url = text "/ban"; method = text "POST" }

abbrev requests : List Request
requests =
    (deploy, []) ∷ (stats, []) ∷ (ban, (b'o', text "bj.hits ") ∷ (b'=', text "= 0") ∷ []) ∷ []

abbrev first_world : World (Agent buffers (List Str))
first_world = record {
  peer = record {
    outside = [];
    vstat = record { http_vsb = []; timer_vsb = []; push_url = none };
    vac_priv = record {
      config = record {
        remote_port = text "6085";
        user = text "agent";
        password = text "x";
        n_arg = [];
      };
      vsb_out = [];
      vac_url = none;
    };
  };
  trace = [];
}
