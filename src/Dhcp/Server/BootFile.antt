-- ===== src/Dhcp/Server/BootFile.antt =====
-- The boot file that the DHCP server names (internal/dhcp/server.go).
use nodefoundry.Base.{
  ◌≡◌, if◌then◌else◌, refl, ◌∙◌, Option-cases, Result-cases, none, some, Option, arith, ok, text_eq,
  [], inl, inr,
}
use nodefoundry.Model.{Time}
use nodefoundry.Dhcp.Pool.{IpManager, returns, Run-cases}
use nodefoundry.Dhcp.Message.{Message, set_boot_options, ipxe_efi, get_boot_file}
use nodefoundry.Dhcp.Server.{
  DhcpServer, response_type, default_lease_time, assigned_ip, build_response, fill_response,
  set_network_options,
}
use nodefoundry.Dhcp.Server.Options.{set_boot_options-fields, set_network_options-fields}

set_boot_options-boot_file :
    (srv : DhcpServer) (resp : Message)
    → resp.system_architecture ≡ none
    → (set_boot_options srv.parse_ip srv.tftp_server resp).boot_file_name ≡ some ipxe_efi
unfolding get_boot_file
set_boot_options-boot_file srv resp plain =
    let (id, name, boots) = set_boot_options-fields srv resp in rw (boots, plain) refl

set_network_options-architecture :
    (m : IpManager) (resp : Message)
    → (set_network_options m resp).system_architecture ≡ resp.system_architecture
set_network_options-architecture m resp =
    let (gateway, servers, networks) = set_network_options-fields m resp in rw networks refl

fill_response-boot_file :
    (srv : DhcpServer) (now : Time) (req resp : Message) (pool pool' : Option IpManager)
    (out : Message)
    → resp.system_architecture ≡ none
    → fill_response srv now req pool resp ≡ returns (ok out, pool')
    → out.boot_file_name ≡ some ipxe_efi
unfolding fill_response
fill_response-boot_file srv now req resp none pool' out plain h =
    let answer : Message = record resp {
      your_ip = if text_eq req.requested_ip [] then req.client_ip else req.requested_ip;
      lease_time = some default_lease_time;
    } in
    let is : set_boot_options srv.parse_ip srv.tftp_server answer ≡ out = ground arith in
    rw (← is) (set_boot_options-boot_file srv answer plain)
fill_response-boot_file srv now req resp (some m) pool' out plain h =
    elim (Run-cases (assigned_ip srv now req m)) [
      | inr other ↦ absurd (ground arith)
      | inl (assigned, run) ↦ elim (Result-cases assigned.0) [
        | inr (e, failed) ↦ absurd (ground arith)
        | inl (ip, got) ↦
            let addressed : Message = record resp { your_ip = ip } in
            let answer = set_network_options m addressed in
            let is : set_boot_options srv.parse_ip srv.tftp_server answer ≡ out = ground arith in
            rw (← is) (
              set_boot_options-boot_file srv answer
                (set_network_options-architecture m addressed ∙ plain))
      ]
    ]

-- If no reply that the library makes holds the architecture option, every answer names the UEFI
-- loader, whatever the architecture of the client: it is looked up in the reply.
pub build_response-boot_file :
    (srv : DhcpServer) (now : Time) (req : Message) (pool pool' : Option IpManager) (out : Message)
    → ((q p : Message) → srv.reply q ≡ some p → p.system_architecture ≡ none)
    → build_response srv now req pool ≡ returns (ok out, pool')
    → out.boot_file_name ≡ some ipxe_efi
unfolding build_response fill_response
build_response-boot_file srv now req pool pool' out plain h =
    elim (Result-cases (response_type req.message_type)) [
      | inr (e, refused) ↦ absurd (ground arith)
      | inl (type', kind) ↦ elim (Option-cases (srv.reply req)) [
        | inl nothing ↦ absurd (ground arith)
        | inr (resp, reply) ↦
            fill_response-boot_file srv now req (record resp { message_type = type' }) pool pool'
              out (plain req resp reply) (ground arith)
      ]
    ]
