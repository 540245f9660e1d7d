-- ===== src/System/Interleaved/Race.antt =====
-- Two handlers in flight that undo an installation.
use nodefoundry.Dhcp.Message.{Message}
use nodefoundry.System.Calls.{Calls}
