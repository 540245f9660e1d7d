-- ===== src/Server/Running/Tests.antt =====
-- Runs of the server with a group that does what errgroup documents.
use nodefoundry.Base.{◌≡◌, ◌≢◌, refl, true, none, some, [], ◌∷◌, arith}
use nodefoundry.Server.Running.{
  StartError, first_error, dhcp_listen_failed, serving, returned, offline, ended, Process,
  first_process, dhcp_fails, http_serves, ProcessReach, begins, continues, by_dhcp, by_http,
}
use nodefoundry.Server.Running.Outcomes.{failures_wait}
use nodefoundry.Server.Running.Shutdown.{run_can_end}
use nodefoundry.Server.Running.Samples.{plain_group, plain_group-IsGroup}

-- The port of DHCP is taken, and HTTP listens.
abbrev half_served : Process
half_served = record first_process {
  dhcp = returned;
  http = serving;
  results = some dhcp_listen_failed ∷ [];
}

dhcp_is_down : ProcessReach plain_group first_process half_served
dhcp_is_down =
    continues (continues begins (by_dhcp (dhcp_fails true refl))) (by_http (http_serves refl refl))

failures_wait_example :
    (half_served.err_chan ≡ none) × ((e : StartError) → half_served.run ≢ ended (some e))
failures_wait_example =
    failures_wait plain_group plain_group-IsGroup dhcp_is_down (λ e. absurd (ground arith))

run_can_end_example :
    (q : Process) × ProcessReach plain_group half_served q
    × (q.run ≡ ended none)
    × (q.db_close ≡ some true)
    × (q.http_closed ≡ true)
    × (first_error q.results ≡ some dhcp_listen_failed)
    × (q.dhcp ≡ returned)
    × (q.mqtt ≡ offline)
    × (q.http ≡ returned)
unfolding first_error
run_can_end_example =
    run_can_end plain_group plain_group-IsGroup dhcp_is_down (λ r e. absurd (ground arith))
