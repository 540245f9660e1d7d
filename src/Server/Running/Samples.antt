-- ===== src/Server/Running/Samples.antt =====
-- A group that does what errgroup documents, and a run that a signal stops.
use nodefoundry.Base.{
  refl, Bool, true, false, Option, none, some, ◌==◌, length, if◌then◌else◌, arith,
}
use nodefoundry.Server.Running.{
  StartError, Group, IsGroup, ended, Process, first_process, first_error, signal, run_stops,
  http_shuts_down, http_drained, db_closes, ProcessReach, begins, continues, by_run,
}

abbrev pub is_error : Option StartError → Bool
is_error none = false
is_error (some _) = true

abbrev pub plain_group : Group
plain_group = record {
  wait = λ n h. if length h == n then some (first_error h) else none;
  is_cancelled = λ h. is_error (first_error h);
}

pub plain_group-IsGroup : IsGroup plain_group
plain_group-IsGroup = record {
  wait_blocks = λ n h less. ground arith;
  wait_returns = λ n h all. ground arith;
  cancels = λ h e found. rw found refl;
}

-- A signal right after the start.
abbrev pub stopped : Process
stopped = record first_process {
  sig_chan = true;
  cancelled = true;
  http_closed = true;
  db_close = some true;
  run = ended none;
}

pub stops : ProcessReach plain_group first_process stopped
stops =
    continues
      (continues
        (continues (continues (continues begins (by_run signal)) (by_run (run_stops refl refl)))
          (by_run (http_shuts_down refl)))
        (by_run (http_drained refl)))
      (by_run (db_closes true refl))
