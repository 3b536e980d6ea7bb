-- ===== src/Cli/Args/Checked.antt =====
-- What the options have that ParseRun of internal/cli/args.go returns.
use mockingo_agent.Base.{
  true, false, Option, none, some, List, Bytes, is_empty, pos, lt_int, eq_int, ◌≡◌, arith, subst,
}
use mockingo_agent.Protocol.Text.{Externals}
use mockingo_agent.Cli.Args.{
  RunOptions, run_with, check_run, with_bind, with_environment, with_hosts, parse_environment,
  normalize_passthrough_hosts, normalize_proxy_bind,
}

-- Options that the agent can run with.
pub record Runnable (o : RunOptions) : Type 0 where
  pub named : is_empty o.name ≡ false
  pub ports :
      (lt_int o.http_port (pos 1) ≡ false)
      × (lt_int (pos 65535) o.http_port ≡ false)
      × (lt_int o.proxy_port (pos 1) ≡ false)
      × (lt_int (pos 65535) o.proxy_port ≡ false)
  pub distinct : o.dependency_proxy ≡ true → eq_int o.proxy_port o.http_port ≡ false
  pub first_delay : lt_int (pos 0) o.reconnect_initial_delay ≡ true
  pub longest_delay : lt_int o.reconnect_max_delay o.reconnect_initial_delay ≡ false

run_with-injective : (a o : RunOptions) → run_with a ≡ run_with o → a ≡ o
run_with-injective a o h = cc

abbrev completed : RunOptions → List (Bytes × Bytes) → List Bytes → RunOptions
completed options environment hosts = record options {
  environment = environment;
  passthrough_hosts = hosts;
}

module _ (ext : Externals) (o : RunOptions) where
  with_hosts-completed :
      (options : RunOptions) (environment : List (Bytes × Bytes)) (hosts : Option (List Bytes))
      → with_hosts options environment hosts ≡ run_with o
      → (e : List (Bytes × Bytes)) × (h : List Bytes) × (completed options e h ≡ o)
  with_hosts-completed options environment none h = absurd cc
  with_hosts-completed options environment (some hosts) h =
      (environment, hosts, run_with-injective (completed options environment hosts) o h)

  with_environment-completed :
      (options : RunOptions) (environment : Option (List (Bytes × Bytes)))
      → with_environment ext options environment ≡ run_with o
      → (e : List (Bytes × Bytes)) × (h : List Bytes) × (completed options e h ≡ o)
  with_environment-completed options none h = absurd cc
  with_environment-completed options (some environment) h =
      with_hosts-completed options environment (normalize_passthrough_hosts ext options.passthrough)
        h

  with_bind-Runnable :
      (options : RunOptions) (bind : Option Bytes)
      → is_empty options.name ≡ false
      → (lt_int options.http_port (pos 1) ≡ false)
        × (lt_int (pos 65535) options.http_port ≡ false)
        × (lt_int options.proxy_port (pos 1) ≡ false)
        × (lt_int (pos 65535) options.proxy_port ≡ false)
      → with_bind ext options bind ≡ run_with o
      → Runnable o
  with_bind-Runnable options none named ports h = absurd cc
  with_bind-Runnable options (some bind) named ports h =
      let bound = record options { proxy_bind = bind } in
      let rest : with_environment ext bound (parse_environment options.env) ≡ run_with o =
        ground arith in
      let (e, hosts, same) =
        with_environment-completed bound (parse_environment options.env) rest in
      subst Runnable same (record {
        named = named;
        ports = ports;
        distinct = λ on. ground arith;
        first_delay = ground arith;
        longest_delay = ground arith;
      })

-- Options that ParseRun returns have a name, both ports between 1 and 65535, different ports if the
-- dependency proxy is on, a positive first delay and a longest delay that is not below it.
pub check_run-Runnable :
    (ext : Externals) (ip_text : Bytes → Option Bytes) (options o : RunOptions)
    → check_run ext ip_text options ≡ run_with o
    → Runnable o
unfolding check_run
check_run-Runnable ext ip_text options o h =
    with_bind-Runnable ext o options (normalize_proxy_bind ip_text options.proxy_bind)
      (ground arith) (ground arith, ground arith, ground arith, ground arith) (ground arith)
