-- ===== src/Server/Assembly.antt =====
-- What `NewServer` makes of the settings, and what the server that it returns does.
use nodefoundry.Base.{
  ℕ, ◌+◌, ◌≤◌, ◌<◌, ◌≡◌, refl, err, ◌||◌, true, false, ◌⊎◌, inl, inr, Bool-cases, Result-cases,
  Option, none, some, [], ok, ap, ◌∙◌, arith, text_eq, text_eq_iff, Result, ℤ,
}
use nodefoundry.Config.{Config}
use nodefoundry.Db.{RepoError}
use nodefoundry.Db.Bolt.{
  Bucket, Codec, OpenError, initialize_db, new_repository, bolt_node_repository, failed_to_open,
  init_bucket, failed_to_create_bucket,
}
use nodefoundry.Dhcp.Ip.{int_to_ip}
use nodefoundry.Dhcp.Pool.Leases.{HasUniqueLeases}
use nodefoundry.Dhcp.Pool.{IpManager, new_ip_manager, PoolError}
use nodefoundry.Dhcp.Pool.Histories.{new_ip_manager-IsConsistent}
use nodefoundry.Dhcp.Server.{DhcpServer}
use nodefoundry.Dhcp.Server.Totality.{HasPool}
use nodefoundry.System.Interleaved.{Running, Reach}
use nodefoundry.System.Interleaved.Progress.{interleaved_leases}
use nodefoundry.Server.{
  Network, DhcpService, Server, ServerError, new_dhcp_server, configure_pool, configure_boot,
  assemble, new_server, failed_to_initialize, failed_to_create_ip_manager, first_world,
  set_tftp_server, set_proxy_mode, set_ip_manager,
}

module _ (n : Network) (c : Config ℤ) where
  -- What `NewIPManager` answers on the settings.
  abbrev pub pool_of : Result PoolError IpManager
  pool_of =
      new_ip_manager n.parse_ip c.dhcp_ip_pool_start c.dhcp_ip_pool_end c.dhcp_netmask
        c.dhcp_gateway c.dhcp_dns c.dhcp_lease_time

  abbrev pub IsConfigured : DhcpService → Type 0
  IsConfigured d =
      (((text_eq c.dhcp_ip_pool_start [] || text_eq c.dhcp_ip_pool_end []) ≡ true)
        × (d.ip_manager ≡ none))
      ⊎ ((m : IpManager) × (pool_of ≡ ok m) × (d.ip_manager ≡ some m))

  configure_pool_lem :
      (d d' : DhcpService)
      → d.ip_manager ≡ none
      → configure_pool n c d ≡ ok d'
      → IsConfigured d' × (d'.handler ≡ d.handler)
  unfolding configure_pool set_ip_manager
  configure_pool_lem d d' nil h =
      elim (Bool-cases (text_eq c.dhcp_ip_pool_start [] || text_eq c.dhcp_ip_pool_end [])) [
        | inl unset ↦ (inl (unset, ground arith), ground arith)
        | inr given ↦ elim (Result-cases pool_of) [
          | inr (e, failed) ↦ absurd (ground arith)
          | inl (m, made) ↦ (inr (m, made, ground arith), ground arith)
        ]
      ]

  configure_boot_lem :
      (d : DhcpService)
      → d.handler.tftp_server ≡ []
      → d.handler.proxy_mode ≡ false
      → ((configure_boot c d).handler.tftp_server ≡ c.dhcp_tftp_server)
        × ((configure_boot c d).handler.proxy_mode ≡ c.dhcp_proxy_mode)
        × ((configure_boot c d).handler.fuel ≡ d.handler.fuel)
        × ((configure_boot c d).ip_manager ≡ d.ip_manager)
  unfolding configure_boot set_tftp_server set_proxy_mode
  configure_boot_lem d no_tftp no_proxy =
      let named = text_eq_iff c.dhcp_tftp_server [] in
      elim (Bool-cases (text_eq c.dhcp_tftp_server [])) [
        | inl nil ↦
            let is = named.0 nil in
            elim (Bool-cases c.dhcp_proxy_mode) [
              | inl proxy ↦ (ground arith, ground arith, ground arith, ground arith)
              | inr standard ↦ (ground arith, ground arith, ground arith, ground arith)
            ]
        | inr given ↦ elim (Bool-cases c.dhcp_proxy_mode) [
          | inl proxy ↦ (ground arith, ground arith, ground arith, ground arith)
          | inr standard ↦ (ground arith, ground arith, ground arith, ground arith)
        ]
      ]

  module _ {Database Data : Type 0} (b : Bucket Database Data) (codec : Codec Data) where
    assemble_lem :
        (db : Database) (srv : Server Database)
        → assemble n c db ≡ ok srv
        → IsConfigured srv.dhcp_server
          × (srv.dhcp_server.handler.tftp_server ≡ c.dhcp_tftp_server)
          × (srv.dhcp_server.handler.proxy_mode ≡ c.dhcp_proxy_mode)
          × (srv.dhcp_server.handler.fuel ≡ n.fuel)
          × (srv.db ≡ db)
    unfolding assemble new_dhcp_server
    assemble_lem db srv h =
        let d : DhcpService = new_dhcp_server n c.dhcp_addr c.dhcp_interface in
        elim (Result-cases (configure_pool n c d)) [
          | inr (e, failed) ↦ absurd (ground arith)
          | inl (d', made) ↦
              let (pool, kept) = configure_pool_lem d d' refl made in
              let (tftp, proxy, fuel, same) =
                configure_boot_lem d' (ap (λ (x : DhcpServer). x.tftp_server) kept)
                  (ap (λ (x : DhcpServer). x.proxy_mode) kept) in
              let is : srv.dhcp_server ≡ configure_boot c d' = ground arith in
              (
                rw is (rw same pool),
                ap (λ (x : DhcpService). x.handler.tftp_server) is ∙ tftp,
                ap (λ (x : DhcpService). x.handler.proxy_mode) is ∙ proxy,
                ap (λ (x : DhcpService). x.handler.fuel) is
                    ∙ fuel
                    ∙ ap (λ (x : DhcpServer). x.fuel) kept,
                ground arith,
              )
        ]

    -- Why there is no database: it did not open, or the transaction for its bucket failed.
    abbrev pub HasNoDatabase : Option Database → OpenError → Type 0
    HasNoDatabase opened e =
        ((opened ≡ none) × (e ≡ failed_to_open))
        ⊎ ((db : Database) × (f : RepoError) × (opened ≡ some db)
            × ((init_bucket b codec db).0 ≡ some f)
            × (e ≡ failed_to_create_bucket f))

    -- The database opened, and has its bucket.
    abbrev pub HasDatabase : Option Database → Database → Type 0
    HasDatabase opened db' =
        (db : Database) × (opened ≡ some db)
        × ((init_bucket b codec db).0 ≡ none)
        × (db' ≡ (init_bucket b codec db).1)

    -- What `NewServer` returns for a database that opened, or did not.
    abbrev pub NewServerOutcome : Option Database → Result ServerError (Server Database) → Type 0
    NewServerOutcome opened r =
        ((e : OpenError) × HasNoDatabase opened e × (r ≡ err (failed_to_initialize e)))
        ⊎ (((e : PoolError) × (db : Database) × HasDatabase opened db
              × ((text_eq c.dhcp_ip_pool_start [] || text_eq c.dhcp_ip_pool_end []) ≡ false)
              × (pool_of ≡ err e)
              × (r ≡ err (failed_to_create_ip_manager e)))
            ⊎ ((srv : Server Database) × (db : Database) × HasDatabase opened db
                × (r ≡ ok srv)
                × (srv.db ≡ new_repository b codec db)
                × IsConfigured srv.dhcp_server
                × (srv.dhcp_server.handler.tftp_server ≡ c.dhcp_tftp_server)
                × (srv.dhcp_server.handler.proxy_mode ≡ c.dhcp_proxy_mode)))

    new_server-HasPool :
        {s e : ℕ} (opened : Option Database) (srv : Server Database) (m : IpManager)
        → new_server b codec n c opened ≡ ok srv
        → (text_eq c.dhcp_ip_pool_start [] || text_eq c.dhcp_ip_pool_end []) ≡ false
        → pool_of ≡ ok m
        → m.start ≡ int_to_ip s
        → m.end_ip ≡ int_to_ip e
        → s < 4294967296
        → e < 4294967296
        → HasPool s e (first_world srv) × (srv.dhcp_server.handler.fuel ≡ n.fuel)
    unfolding new_server
    new_server-HasPool opened srv m built given made starts ends s_fits e_fits =
        elim (Result-cases (initialize_db b codec opened)) [
          | inr (f, failed) ↦ absurd (ground arith)
          | inl (db, opens) ↦
              let (pool, tftp, proxy, fuel, same) =
                assemble_lem (new_repository b codec db) srv (ground arith) in
              elim pool [
                | inl (unset, nil) ↦ absurd (ground arith)
                | inr (m', made', there) ↦ (
                  (
                    m',
                    there,
                    new_ip_manager-IsConsistent n.parse_ip c.dhcp_ip_pool_start c.dhcp_ip_pool_end
                        c.dhcp_netmask c.dhcp_gateway c.dhcp_dns c.dhcp_lease_time made'
                        (ground arith) (ground arith) s_fits e_fits,
                  ),
                  fuel,
                )
              ]
        ]

    -- A server that `NewServer` returns for a pool of IPv4 addresses in order, which ends below
    -- 255.255.255.255, has a pool in every state that it reaches, however many handlers of it run and
    -- however they interleave, and no two clients hold a lease of one address. The loop of the pool has a
    -- turn for each address and one more.
    pub new_server-leases :
        {s e : ℕ} {r' : Running Database} (opened : Option Database) (srv : Server Database)
        (m : IpManager)
        → new_server b codec n c opened ≡ ok srv
        → (text_eq c.dhcp_ip_pool_start [] || text_eq c.dhcp_ip_pool_end []) ≡ false
        → pool_of ≡ ok m
        → m.start ≡ int_to_ip s
        → m.end_ip ≡ int_to_ip e
        → e < 4294967295
        → s ≤ e + 1
        → e + 1 < s + n.fuel
        → Reach
            (bolt_node_repository b codec)
            srv.dhcp_server.handler
            r'
            (record { world = first_world srv; in_flight = [] })
        → (m' : IpManager) × (r'.world.pool ≡ some m') × HasUniqueLeases m'
    new_server-leases {s} {e} opened srv m built given made starts ends top order enough reach =
        let (pool, fuel) =
          new_server-HasPool {s = s} {e = e} opened srv m built given made starts ends (omega arith)
            (omega arith) in
        interleaved_leases (bolt_node_repository b codec) srv.dhcp_server.handler top order
          (rw fuel enough) pool refl reach
