-- ===== src/Tests/Boot.antt =====
-- A start as root on a system where every call succeeds.
use vagent.Prelude.{List, [], ◌∷◌, true, false, some, text, refl, ◌≢◌, arith}
use vagent.Config.{AgentConfig, defaults}
use vagent.Exec.{Ends}
use vagent.Http.Server.{
  no_family, Family, Network, address, invalid, http_run, http_run-Outcome, Outcome, af_inet,
  af_inet6,
}
use vagent.Plugins.{AgentPlugin, ipc_init}
use vagent.Start.{Kernel, main, opened}
use vagent.Start.Order.{Ordered, acts_of}
use vagent.Start.Privileges.{main-Ordered}
use vagent.Tests.Data.{idle}

abbrev root : Kernel
root = record {
  geteuid = 0;
  getpwnam = λ u. some (100, 101);
  getgrnam = λ g. some 102;
  setgid = λ g. true;
  setuid = λ u. true;
  daemon = true;
  pidfile_open = λ p. opened;
  pthread_create = λ name. true;
  returns = λ name. false;
}

abbrev options : AgentConfig
unfolding defaults
options = record (defaults (record { persist_dir = []; html_dir = []; conf_dir = [] })) {
  P_arg = some (text "/run/agent.pid");
  g_arg = some (text "varnish");
}

abbrev two_plugins : List AgentPlugin
two_plugins =
    record { name = text "http"; ipc = ipc_init; has_start = true }
    ∷ record { name = text "echo"; ipc = ipc_init; has_start = false }
    ∷ []

main-Ordered_example : Ordered root options (acts_of (main root options two_plugins []))
main-Ordered_example = main-Ordered root options two_plugins refl

-- A network with one IPv6 address.
abbrev network : Network
network = record {
  inet_pton = λ family a. elim family [ af_inet ↦ invalid | af_inet6 ↦ address a ];
  start_daemon = λ family a p. true;
}

network-known : (family : Family) → network.inet_pton family (text "::1") ≢ no_family
unfolding text
network-known af_inet e = cc e
network-known af_inet6 e = cc e

http_run-Outcome_example :
    Ends
      (λ r w'. Outcome network (text "::1") 70000 r)
      (http_run network (text "70000") (text "::1") idle)
unfolding text vagent.Ipc.atoi vagent.Ipc.atoi_digits vagent.Ipc.is_digit vagent.Ipc.is_space
http_run-Outcome_example =
    http_run-Outcome network (text "70000") (text "::1") 70000 idle refl (omega arith) (omega arith)
      network-known
