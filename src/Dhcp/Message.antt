-- ===== src/Dhcp/Message.antt =====
-- The DHCP messages that internal/dhcp/server.go reads and builds, and the builders that do not touch
-- the pool. A message is what the code sees of the `DHCPv4` of github.com/insomniacslk/dhcp;
-- `NewReplyFromRequest` of that library and `net.ParseIP` are parameters.
use nodefoundry.Base.{
  ℕ, ◌+◌, ◌*◌, Option, none, some, List, [], ◌∷◌, leb, ◌==◌, if◌then◌else◌, Result, ok, err, Text,
  codes, text_eq, ℤ,
}
use nodefoundry.Dhcp.Ip.{Ip}
use nodefoundry.Dhcp.Pool.{PoolError}

pub data MessageType : Type 0 where
  discover offer request ack : MessageType
  other_type : ℕ → MessageType

-- An option that is absent is `none`; an absent requested address is nil.
pub record Message : Type 0 where
  pub message_type : MessageType
  pub client_hw_addr : List ℕ
  pub client_ip : Ip
  pub your_ip : Ip
  pub requested_ip : Ip
  pub system_architecture : Option (List ℕ)
  pub subnet_mask : Option (List ℕ)
  pub router : Option Ip
  pub dns : Option (List Ip)
  pub lease_time : Option ℤ
  pub server_identifier : Option Ip
  pub tftp_server_name : Option Text
  pub boot_file_name : Option Text
  pub broadcast_address : Option Ip

-- What `buildResponse` and `buildProxyOffer` return as an error.
pub data ResponseError : Type 0 where
  unexpected_message_type : MessageType → ResponseError
  no_reply : ResponseError
  failed_to_allocate failed_to_get_lease : PoolError → ResponseError

abbrev pub undionly : Text
undionly = codes "undionly.kpxe"

abbrev pub ipxe_efi : Text
ipxe_efi = codes "ipxe.efi"

-- `getBootFile`, from the option's bytes
unfoldable pub arch_boot_file : List ℕ → Text
arch_boot_file (high ∷ low ∷ _) =
    let arch = high * 256 + low in
    if arch == 0 then undionly else if leb 7 arch then ipxe_efi else ipxe_efi
arch_boot_file _ = ipxe_efi

unfoldable pub get_boot_file : Message → Text
unfolding arch_boot_file
get_boot_file resp = elim resp.system_architecture [
  | none ↦ ipxe_efi
  | some arch_opt ↦ arch_boot_file arch_opt
]

module _ (parse_ip : Text → Ip) where
  -- `setBootOptions`
  unfoldable pub set_boot_options : Text → Message → Message
  unfolding get_boot_file
  set_boot_options tftp_server resp =
      let identified =
        if text_eq tftp_server []
        then resp
        else if text_eq (parse_ip tftp_server) []
        then resp
        else record resp { server_identifier = some (parse_ip tftp_server) } in
      let named =
        if text_eq tftp_server []
        then identified
        else record identified { tftp_server_name = some tftp_server } in
      record named { boot_file_name = some (get_boot_file named) }

  -- `buildProxyOffer`
  unfoldable pub build_proxy_offer :
      (Message → Option Message) → Text → Message → Result ResponseError Message
  unfolding set_boot_options
  build_proxy_offer reply tftp_server req = elim (reply req) [
    | none ↦ err no_reply
    | some resp ↦
        let booted = set_boot_options tftp_server (record resp { message_type = offer }) in
        ok (record booted { broadcast_address = some (255 ∷ 255 ∷ 255 ∷ 255 ∷ []) })
  ]
