-- ===== src/System/Interleaved.antt =====
-- Handlers in flight: any number of them, started at any time, whose calls interleave in any order.
-- gin, the DHCP server and the MQTT client each run a handler in a goroutine of its own.
pub mod Requests
pub mod Progress
pub mod Race
use nodefoundry.Base.{
  ℕ, ◌+◌, ◌≤◌, ◌<◌, ◌≡◌, refl, ◌∙◌, sym, Option, none, some, ok, List, [], ◌∷◌, ◌++◌, Result, Text,
  All, arith, inl, inr,
}
use nodefoundry.Model.{Time, Node}
use nodefoundry.Db.{NodeRepository, IsRepository, RepoError}
use nodefoundry.Db.WellFormed.{IsWellFormed, save-IsWellFormed, update-IsWellFormed}
use nodefoundry.Db.Creation.{Keeps, Keeps-refl, Keeps-trans, save-Keeps, update-Keeps}
use nodefoundry.Mqtt.{StatusMessage}
use nodefoundry.Api.{RegisterNodeRequest}
use nodefoundry.Dhcp.Ip.Four.{IsBytes}
use nodefoundry.Dhcp.Pool.{IpManager, returns}
use nodefoundry.Dhcp.Message.{Message, ResponseError}
use nodefoundry.Dhcp.Server.{DhcpServer, World, build_response}
use nodefoundry.Dhcp.Server.Totality.{HasPool, build_response-returns}
use nodefoundry.System.Calls.{
  Outcome, Calls, done, finds, saves, updates, builds, sends, register_calls, update_calls,
  status_calls, dhcp_calls,
}

pub record Running (S : Type 0) : Type 0 where
  pub world : World S
  pub in_flight : List Calls

-- A handler at its start. A DHCP message that is read from a socket requests an address of bytes.
pub data IsHandler (s : DhcpServer) (c : Calls) : Type 0 where
  registers :
      (clock : ℕ → Time) (req : Option RegisterNodeRequest)
      → c ≡ register_calls clock req
      → IsHandler s c
  installs :
      (now : Time) (mac : Text) (action : Option Text)
      → c ≡ update_calls now mac action
      → IsHandler s c
  reports :
      (now saved_at : Time) (topic : Text) (payload : Option StatusMessage)
      → c ≡ status_calls now saved_at topic payload
      → IsHandler s c
  serves :
      (clock : ℕ → Time) (msg : Message)
      → IsBytes msg.requested_ip
      → c ≡ dhcp_calls s clock (some msg)
      → IsHandler s c

module _ {S : Type 0} (repo : NodeRepository S) (s : DhcpServer) where
  -- One call of one handler.
  pub data CallStep (w : World S) : Calls → World S → Calls → Type 0 where
    found :
        {mac : Text} {k : Result RepoError Node → Calls}
        → CallStep w (finds mac k) w (k (repo.find_by_mac mac w.store))
    saved :
        {now : Time} {n : Node} {k : Option RepoError → Node → Calls}
        → CallStep w
            (saves now n k)
            (record w { store = (repo.save now n w.store).2 })
            (k (repo.save now n w.store).0 (repo.save now n w.store).1)
    updated :
        {now : Time} {mac status : Text} {k : Option RepoError → Calls}
        → CallStep w
            (updates now mac status k)
            (record w { store = (repo.update_status now mac status w.store).1 })
            (k (repo.update_status now mac status w.store).0)
    built :
        {now : Time} {msg : Message} {k : Result ResponseError Message → Option IpManager → Calls}
        {r : Result ResponseError Message} {pool : Option IpManager}
        → build_response s now msg w.pool ≡ returns (r, pool)
        → CallStep w (builds now msg k) (record w { pool = pool }) (k r pool)
    sent :
        {resp : Message} {k : Calls}
        → CallStep w (sends resp k) (record w { sent = resp ∷ w.sent }) k

  pub data Step (r : Running S) : Running S → Type 0 where
    starts : (c : Calls) → IsHandler s c → Step r (record r { in_flight = c ∷ r.in_flight })
    moves :
        (before after : List Calls) {c c' : Calls} {w' : World S}
        → r.in_flight ≡ before ++ c ∷ after
        → CallStep r.world c w' c'
        → Step r (record { world = w'; in_flight = before ++ c' ∷ after })

  -- `Reach t r`: steps lead from `r` to `t`.
  pub data Reach (t : Running S) : Running S → Type 0 where
    here : Reach t t
    later : {r r' : Running S} → Step r r' → Reach t r' → Reach t r

  module _ (laws : IsRepository repo) where
    CallStep-safe :
        {w w' : World S} {c c' : Calls}
        → CallStep w c w' c'
        → IsWellFormed repo w.store
        → IsWellFormed repo w'.store × Keeps repo w.store w'.store
    CallStep-safe {w} found wf = (wf, Keeps-refl repo w.store)
    CallStep-safe {w} (saved {now} {n}) wf =
        (save-IsWellFormed repo laws now n w.store wf, save-Keeps repo laws now n w.store)
    CallStep-safe {w} (updated {now} {mac} {status}) wf = (
      update-IsWellFormed repo laws now mac status w.store wf,
      update-Keeps repo laws now mac status w.store,
    )
    CallStep-safe {w} (built run) wf = (wf, Keeps-refl repo w.store)
    CallStep-safe {w} sent wf = (wf, Keeps-refl repo w.store)

    -- However the calls of the handlers in flight interleave, with new handlers started at any time: a
    -- well-formed store stays well formed, and every node stays in it with the time of its creation.
    pub interleaved_store :
        {r' r : Running S}
        → Reach r' r
        → IsWellFormed repo r.world.store
        → IsWellFormed repo r'.world.store × Keeps repo r.world.store r'.world.store
    interleaved_store {r = r} here wf = (wf, Keeps-refl repo r.world.store)
    interleaved_store (later (starts c h) rest) wf = interleaved_store rest wf
    interleaved_store {r'} {r} (later {r' = mid} (moves before after is step) rest) wf =
        let (wf', first) = CallStep-safe step wf in
        let (wf'', more) = interleaved_store rest wf' in
        (wf'', Keeps-trans repo r.world.store mid.world.store r'.world.store first more)
