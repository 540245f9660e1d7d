-- ===== src/Server/Main/Tests.antt =====
-- A server in an empty environment that a signal stops.
use nodefoundry.Base.{◌≡◌, ◌⊎◌, refl, true, Option, none, some, ℤ}
use nodefoundry.Config.{Config, load_config}
use nodefoundry.Config.Samples.{empty_environment}
use nodefoundry.Db.Bolt.Memory.{memory_bucket, plain_codec}
use nodefoundry.Server.Samples.{small_network}
use nodefoundry.Server.Running.{StartError}
use nodefoundry.Server.Running.Samples.{plain_group, plain_group-IsGroup, stopped, stops}
use nodefoundry.Server.Main.{
  Exit, exits, log_level, server_main, HasStopped, HasFailed, server_main-exits,
}

abbrev no_error : Option StartError
no_error = none

abbrev exited : Exit
exited =
    server_main memory_bucket plain_codec small_network empty_environment (some none) true no_error

server_main-exits_example :
    (c : Config ℤ) × (load_config empty_environment ≡ some c)
    × (((exited ≡ exits (log_level c.log_level) 0)
          × HasStopped memory_bucket plain_codec small_network empty_environment
              (some none)
              c
              true
              stopped)
        ⊎ ((exited ≡ exits (log_level c.log_level) 1)
            × HasFailed memory_bucket plain_codec small_network empty_environment
                (some none)
                c
                true
                stopped))
server_main-exits_example =
    server_main-exits memory_bucket plain_codec small_network empty_environment (some none)
      plain_group plain_group-IsGroup true no_error stops refl
