-- ===== src/Tests/Commands.antt =====
-- Tests of internal/cli.
use mockingo_agent.Base.{
  true, some, [], ◌∷◌, codes, pos, refl, bytes_eq, cut, has, split, ends_with, all_of, some_of,
  to_lower, trim_suffix, trim_left,
}
use mockingo_agent.Base.Maps.{insert}
use mockingo_agent.Cli.Args.{
  RunOptions, check_run, normalize_proxy_bind, parse_environment, add_environment,
  normalize_passthrough_hosts, add_hosts, insert_host, valid_proxy_host, valid_proxy_label,
}
use mockingo_agent.Cli.Args.Checked.{Runnable, check_run-Runnable}
use mockingo_agent.Tests.Data.{no_addresses}

abbrev options : RunOptions
options = record {
  name = codes "shop";
  http_port = pos 8080;
  dependency_proxy = true;
  proxy_bind = codes "127.0.0.1";
  proxy_port = pos 8899;
  startup_timeout = pos 60;
  request_timeout = pos 60;
  expected_gateway_host = codes "gateway.test";
  protocol_version = pos 1;
  reconnect_initial_delay = pos 1;
  reconnect_max_delay = pos 30;
  env = codes "A=1" ∷ [];
  passthrough = codes "Bank.test." ∷ [];
  environment = [];
  passthrough_hosts = [];
}

abbrev checked : RunOptions
checked = record options {
  environment = (codes "A", codes "1") ∷ [];
  passthrough_hosts = codes "bank.test" ∷ [];
}

check_run-Runnable_example : Runnable checked
check_run-Runnable_example =
    check_run-Runnable no_addresses (λ s. some s) options checked
      (unfold check_run normalize_proxy_bind parse_environment add_environment
          normalize_passthrough_hosts add_hosts insert_host valid_proxy_host valid_proxy_label
          bytes_eq cut has split ends_with all_of some_of to_lower trim_suffix trim_left insert in
        refl)
