-- ===== src/Dhcp/Server/Options.antt =====
-- Which fields of a message the builders of internal/dhcp/server.go write.
use nodefoundry.Base.{
  ◌≡◌, refl, some, Option, List, Text, Bool-cases, text_eq, [], inl, inr, List-cases, ◌∷◌,
}
use nodefoundry.Dhcp.Pool.{IpManager}
use nodefoundry.Dhcp.Message.{Message, set_boot_options, get_boot_file}
use nodefoundry.Dhcp.Server.{DhcpServer, Ip, set_network_options}

module _ (srv : DhcpServer) where
  abbrev pub booted : Option Ip → Option Text → Message → Message
  booted id name resp = record resp {
    server_identifier = id;
    tftp_server_name = name;
    boot_file_name = some (get_boot_file resp);
  }

  -- `setBootOptions` writes three options and no other field.
  pub set_boot_options-fields :
      (resp : Message)
      → (id : Option Ip) × (name : Option Text) × (set_boot_options srv.parse_ip srv.tftp_server
            resp
          ≡ booted id name resp)
  unfolding set_boot_options
  set_boot_options-fields resp = elim (Bool-cases (text_eq srv.tftp_server [])) [
    | inl nil ↦ (resp.server_identifier, resp.tftp_server_name, rw nil refl)
    | inr given ↦ elim (Bool-cases (text_eq (srv.parse_ip srv.tftp_server) [])) [
      | inl nil ↦ (resp.server_identifier, some srv.tftp_server, rw (given, nil) refl)
      | inr addr ↦
          (some (srv.parse_ip srv.tftp_server), some srv.tftp_server, rw (given, addr) refl)
    ]
  ]

abbrev pub networked : IpManager → Option Ip → Option (List Ip) → Message → Message
networked m gateway servers resp = record resp {
  subnet_mask = some m.netmask;
  router = gateway;
  dns = servers;
  lease_time = some m.lease_time;
}

-- `buildResponse` sets four options of the network and no other field.
pub set_network_options-fields :
    (m : IpManager) (resp : Message)
    → (gateway : Option Ip) × (servers : Option (List Ip)) × (set_network_options m resp
        ≡ networked m gateway servers resp)
unfolding set_network_options
set_network_options-fields m resp = elim (List-cases m.dns) [
  | inl no_dns ↦ elim (Bool-cases (text_eq m.gateway [])) [
    | inl nil ↦ (resp.router, resp.dns, rw (no_dns, nil) refl)
    | inr given ↦ (some m.gateway, resp.dns, rw (no_dns, given) refl)
  ]
  | inr (d, ds, is) ↦ elim (Bool-cases (text_eq m.gateway [])) [
    | inl nil ↦ (resp.router, some (d ∷ ds), rw (is, nil) refl)
    | inr given ↦ (some m.gateway, some (d ∷ ds), rw (is, given) refl)
  ]
]
