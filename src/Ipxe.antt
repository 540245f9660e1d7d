-- ===== src/Ipxe.antt =====
-- internal/ipxe/generator.go and internal/ipxe/preseed.go: the scripts that a machine boots, and the
-- answers of the installer. `GetBootScript` and `GetPreseed` of internal/api/handler.go serve them.
pub mod Scripts
pub mod Queries
mod Tests
use nodefoundry.Base.{
  Bool, true, not, ◌&&◌, Option, none, some, [], ◌∷◌, ◌++◌, ◌==◌, if◌then◌else◌, Result, ok, err,
  Text, codes, text_eq,
}
use nodefoundry.Model.{Node, normalize_mac, state_discovered, state_installing, state_installed}
use nodefoundry.Db.{NodeRepository, RepoError}

-- What both generators hold beside the repository.
pub record Generator : Type 0 where
  pub server_addr : Text
  pub mirror_url : Text

pub data ScriptError : Type 0 where
  lookup_failed : RepoError → ScriptError
  unknown_node_status : Text → ScriptError

-- `generateWaitLoopScript`
unfoldable pub wait_loop_script : Generator → Text → Text
wait_loop_script g mac =
    codes "#!ipxe\nset node_url http://"
    ++ (g.server_addr
        ++ (codes "\nset mac "
            ++ (mac
                ++ codes
                    "\n\n:loop\necho Node in discovered state, waiting for installation trigger...\nsleep 90\nchain ${node_url}/boot/${mac}/boot.ipxe || goto loop\n")))

-- A parameter of the URL, left out if it is empty.
abbrev pub given : Text → Text → Text
given name value = if text_eq value [] then [] else name ++ value

-- The parameters that `generateInstallScript` puts behind the URL.
unfoldable pub net_params : Node → Text
net_params node =
    if text_eq node.ip []
    then []
    else codes "?ip="
      ++ (node.ip
          ++ (given (codes "&netmask=") node.netmask
              ++ (given (codes "&gateway=") node.gateway ++ given (codes "&dns=") node.dns)))

-- The text of `generateInstallScript`.
unfoldable pub install_script : Generator → Text → Text → Text
install_script g mac params =
    codes "#!ipxe\nset node_url http://"
    ++ (g.server_addr
        ++ (codes "\nset mac "
            ++ (mac
                ++ (codes "\nset arch ${buildarch}\n\nkernel https://"
                    ++ (g.mirror_url
                        ++ (codes
                              "/debian/dists/bookworm/main/installer-${arch}/current/images/netboot/debian-installer/${arch}/linux\ninitrd https://"
                            ++ (g.mirror_url
                                ++ (codes
                                      "/debian/dists/bookworm/main/installer-${arch}/current/images/netboot/debian-installer/${arch}/initrd.gz\nimgargs linux auto=true priority=critical url=${node_url}/preseed/${mac}/preseed.cfg"
                                    ++ (params ++ codes "\nboot\n")))))))))

-- `generateLocalBootScript`
unfoldable pub local_boot_script : Text
local_boot_script = codes "#!ipxe\necho Booting from local disk...\nexit\n"

-- `getServerIP`: the text before the first colon.
unfoldable pub get_server_ip : Text → Text
get_server_ip [] = []
get_server_ip (c ∷ rest) = let host = get_server_ip rest in if c == b':' then [] else c ∷ host

-- `getHostname`
unfoldable pub get_hostname : Node → Text
get_hostname node = if text_eq node.hostname [] then codes "node-" ++ node.mac else node.hostname

-- `generateLateCommand`
unfoldable pub late_command : Generator → Text
unfolding get_server_ip
late_command g =
    codes
      "d-i preseed/late_command string \\\n  DHCP_iface=$(ip route | grep default | awk '{print $$5}') && \\\n  DHCP_MAC=$$(cat /sys/class/net/$${DHCP_iface}/address | tr -d ':') && \\\n  echo \"Detected DHCP MAC: $${DHCP_MAC}\" > /target/var/log/nodefoundry-agent-install.log && \\\n  in-target wget http://"
    ++ (g.server_addr
        ++ (codes
              "/agent/nodefoundry-agent -O /usr/local/bin/nodefoundry-agent && \\\n  in-target chmod +x /usr/local/bin/nodefoundry-agent && \\\n  in-target wget http://"
            ++ (g.server_addr
                ++ (codes
                      "/agent/nodefoundry-agent.service -O /etc/systemd/system/nodefoundry-agent.service && \\\n  in-target sh -c 'echo \"NF_MAC=$${DHCP_MAC}\" > /etc/default/nodefoundry-agent' && \\\n  in-target sh -c 'echo \"NF_MQTT_BROKER="
                    ++ (get_server_ip g.server_addr
                        ++ (codes
                            ":1883\" >> /etc/default/nodefoundry-agent' && \\\n  in-target sh -c 'echo \"NF_LOG_LEVEL=info\" >> /etc/default/nodefoundry-agent' && \\\n  in-target sh -c 'echo \"NF_HEARTBEAT_INTERVAL=30\" >> /etc/default/nodefoundry-agent' && \\\n  in-target systemctl enable nodefoundry-agent.service"))))))

-- The network configuration that the installer is given; `query.Get` of each name, in a request.
pub record Netcfg : Type 0 where
  pub ip : Text
  pub netmask : Text
  pub gateway : Text
  pub dns : Text

-- The parameters of the query, or, if it has no address and the node has one, the node's own.
unfoldable pub chosen_netcfg : Netcfg → Node → Netcfg
chosen_netcfg query node =
    if text_eq query.ip [] && not (text_eq node.ip [])
    then record { ip = node.ip; netmask = node.netmask; gateway = node.gateway; dns = node.dns }
    else query

-- The section `netcfgSection` of the configuration.
unfoldable pub netcfg_section : Netcfg → Text
netcfg_section cfg =
    if text_eq cfg.ip []
    then codes "\n# DHCP network configuration (default)\nd-i netcfg/disable_dhcp boolean false"
    else codes
        "\n# Static network configuration\nd-i netcfg/disable_autoconfig boolean true\nd-i netcfg/disable_dhcp boolean true\nd-i netcfg/get_ipaddress string "
      ++ (cfg.ip
          ++ (given (codes "\nd-i netcfg/get_netmask string ") cfg.netmask
              ++ (given (codes "\nd-i netcfg/get_gateway string ") cfg.gateway
                  ++ (given (codes "\nd-i netcfg/get_nameservers string ") cfg.dns
                      ++ codes "\nd-i netcfg/confirm_static boolean true"))))

-- The text that `GenerateWithQuery` fills in.
unfoldable pub preseed_text : Generator → Text → Text → Text
unfolding late_command
preseed_text g hostname section =
    codes
      "d-i debian-installer/locale string en_US\nd-i keyboard-configuration/xkb-keymap select us\nd-i netcfg/choose_interface select auto\nd-i netcfg/get_hostname string "
    ++ (hostname
        ++ (codes "\n"
            ++ (section
                ++ (codes "\nd-i mirror/country string manual\nd-i mirror/http/hostname string "
                    ++ (g.mirror_url
                        ++ (codes
                              "\nd-i mirror/http/directory string /debian\nd-i mirror/http/proxy string\nd-i time/zone string Asia/Shanghai\nd-i clock-setup/utc-auto boolean true\nd-i clock-setup/utc boolean true\nd-i partman-auto/method string regular\nd-i partman-lvm/device_remove_lvm boolean true\nd-i partman-md/device_remove_md boolean true\nd-i partman-lvm/confirm boolean true\nd-i partman-partitioning/confirm_write_new_label boolean true\nd-i partman/choose_partition select finish\nd-i partman/confirm boolean true\nd-i partman/confirm_nooverwrite boolean true\nd-i pkgsel/upgrade select none\nd-i grub-installer/only_debian boolean true\nd-i grub-installer/with_other_os boolean true\nd-i grub-installer/bootdev string default\nd-i finish-install/reboot_in_progress note\n\n# Install NodeFoundry agent\n"
                            ++ (late_command g ++ (codes "\n"))))))))

abbrev pub no_query : Netcfg
no_query = record { ip = []; netmask = []; gateway = []; dns = [] }

module _ {S : Type 0} (repo : NodeRepository S) (g : Generator) where
  -- `generateInstallScript`, which looks the node up again.
  unfoldable pub generate_install_script : Text → S → Text
  unfolding net_params install_script
  generate_install_script mac store = elim (repo.find_by_mac mac store) [
    | err _ ↦ install_script g mac []
    | ok node ↦ install_script g mac (net_params node)
  ]

  -- The `switch` of `GenerateByStatus`.
  unfoldable pub script_for : Text → Text → S → Result ScriptError Text
  unfolding wait_loop_script generate_install_script local_boot_script
  script_for status mac store =
      if text_eq status state_discovered
      then ok (wait_loop_script g mac)
      else if text_eq status state_installing
      then ok (generate_install_script mac store)
      else if text_eq status state_installed
      then ok local_boot_script
      else err (unknown_node_status status)

  -- `GenerateByStatus`
  unfoldable pub generate_by_status : Text → S → Result ScriptError Text
  unfolding script_for
  generate_by_status mac store = elim (repo.find_by_mac (normalize_mac mac) store) [
    | err e ↦ err (lookup_failed e)
    | ok node ↦ script_for node.status (normalize_mac mac) store
  ]

  -- `GenerateWithQuery`
  unfoldable pub generate_with_query : Text → Netcfg → S → Result ScriptError Text
  unfolding get_hostname chosen_netcfg netcfg_section preseed_text
  generate_with_query mac query store = elim (repo.find_by_mac (normalize_mac mac) store) [
    | err e ↦ err (lookup_failed e)
    | ok node ↦ ok (preseed_text g (get_hostname node) (netcfg_section (chosen_netcfg query node)))
  ]

  -- `Generate`
  unfoldable pub generate : Text → S → Result ScriptError Text
  unfolding generate_with_query
  generate mac store = generate_with_query mac no_query store
