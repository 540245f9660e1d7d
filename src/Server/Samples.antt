-- ===== src/Server/Samples.antt =====
-- What the DHCP server calls, for the tests of the server.
use nodefoundry.Dhcp.Pool.Samples.{parse_ip, parse_mac}
use nodefoundry.Dhcp.Server.Samples.{plain_reply}
use nodefoundry.Server.{Network}

abbrev pub small_network : Network
small_network = record { parse_ip = parse_ip; parse_mac = parse_mac; reply = plain_reply; fuel = 4 }
