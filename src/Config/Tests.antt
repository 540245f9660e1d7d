-- ===== src/Config/Tests.antt =====
-- The settings in an empty environment.
use nodefoundry.Base.{◌≡◌, refl, some, text_eq, codes, [], ◌∷◌, split, All, ℤ}
use nodefoundry.Config.{Config, parse_dns_list, load_config}
use nodefoundry.Config.Defaults.{IsGiven, load_config_lem}
use nodefoundry.Config.Samples.{empty_environment}

load_config_lem_example :
    (c : Config ℤ) × (load_config empty_environment ≡ some c)
    × IsGiven c.http_addr
    × IsGiven c.server_addr
    × IsGiven c.dhcp_tftp_server
    × All IsGiven c.dhcp_dns
load_config_lem_example = load_config_lem empty_environment

public_dns :
    parse_dns_list empty_environment (codes "8.8.8.8,,8.8.4.4")
    ≡ codes "8.8.8.8" ∷ codes "8.8.4.4" ∷ []
unfolding parse_dns_list split text_eq
public_dns = refl
