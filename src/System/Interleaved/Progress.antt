-- ===== src/System/Interleaved/Progress.antt =====
-- The pool between the calls of handlers in flight, and the end of every handler.
use nodefoundry.Base.{subst, ◌≡◌, ℕ, ◌+◌, ◌≤◌, ◌<◌, refl, some, List, [], ◌∷◌, ◌++◌, All, arith}
use nodefoundry.Db.{NodeRepository}
use nodefoundry.Dhcp.Pool.{IpManager}
use nodefoundry.Dhcp.Pool.Leases.{HasUniqueLeases, lease_unique}
use nodefoundry.Dhcp.Server.{DhcpServer, World}
use nodefoundry.Dhcp.Server.Totality.{HasPool, build_response-returns}
use nodefoundry.System.Calls.{Outcome, Calls, done, finds, saves, updates, builds, sends}
use nodefoundry.System.Interleaved.{
  Running, found, saved, updated, built, sent, moves, Reach, here, later, CallStep, Step, starts,
}
use nodefoundry.System.Interleaved.Requests.{AsksBytes, IsHandler-AsksBytes}

All-middle :
    (before after : List Calls) (c : Calls)
    → All AsksBytes (before ++ c ∷ after)
    → AsksBytes c × ((c' : Calls) → AsksBytes c' → All AsksBytes (before ++ c' ∷ after))
All-middle [] after c all = (all.0, λ c' b'. (b', all.1))
All-middle (x ∷ before) after c all =
    let (here', rest) = All-middle before after c all.1 in (here', λ c' b'. (all.0, rest c' b'))

module _ {S : Type 0} (repo : NodeRepository S) (srv : DhcpServer) {s e : ℕ} (top : e < 4294967295)
    (order : s ≤ e + 1) (enough : e + 1 < s + srv.fuel) where
  ends :
      (c : Calls) (before after : List Calls) (w : World S)
      → HasPool s e w
      → AsksBytes c
      → (o : Outcome) × (w' : World S) × Reach repo srv
          (record { world = w'; in_flight = before ++ done o ∷ after })
          (record { world = w; in_flight = before ++ c ∷ after })
  ends (done o) before after w h b = (o, w, here)
  ends (finds mac k) before after w h b =
      let (o, w', r) =
        ends (k (repo.find_by_mac mac w.store)) before after w h
          (b (repo.find_by_mac mac w.store)) in
      (o, w', later (moves before after refl found) r)
  ends (saves now n k) before after w h b =
      let saved_at = repo.save now n w.store in
      let (o, w', r) =
        ends (k (saved_at.0) (saved_at.1)) before after (record w { store = saved_at.2 }) h
          (b (saved_at.0) (saved_at.1)) in
      (o, w', later (moves before after refl saved) r)
  ends (updates now mac status k) before after w h b =
      let u = repo.update_status now mac status w.store in
      let (o, w', r) = ends (k (u.0)) before after (record w { store = u.1 }) h (b (u.0)) in
      (o, w', later (moves before after refl updated) r)
  ends (builds now msg k) before after w (m, pool, c) (bytes, b) =
      let (answer, m', run, c') = build_response-returns srv top order enough now msg m c bytes in
      let (o, w', r) =
        ends (k answer (some m')) before after (record w { pool = some m' }) (m', refl, c')
          (b answer (some m')) in
      (o, w', later (moves before after refl (built (rw pool run))) r)
  ends (sends resp k) before after w h b =
      let (o, w', r) = ends k before after (record w { sent = resp ∷ w.sent }) h b in
      (o, w', later (moves before after refl sent) r)

  CallStep-HasPool :
      {w w' : World S} {c c' : Calls}
      → CallStep repo srv w c w' c'
      → HasPool s e w
      → AsksBytes c
      → HasPool s e w' × AsksBytes c'
  CallStep-HasPool {w} (found {mac}) h b = (h, b (repo.find_by_mac mac w.store))
  CallStep-HasPool {w} (saved {now} {n}) h b =
      (h, b (repo.save now n w.store).0 (repo.save now n w.store).1)
  CallStep-HasPool {w} (updated {now} {mac} {status}) h b =
      (h, b (repo.update_status now mac status w.store).0)
  CallStep-HasPool (built {now} {msg} {k} {r} {pool = p} run) (m, pool, c) (bytes, b) =
      let (answer, m', run', c') = build_response-returns srv top order enough now msg m c bytes in
      ((m', ground arith, c'), b r p)
  CallStep-HasPool sent h b = (h, b)

  abbrev IsReady : Running S → Type 0
  IsReady r = HasPool s e r.world × All AsksBytes r.in_flight

  Step-IsReady : {r r' : Running S} → Step repo srv r r' → IsReady r → IsReady r'
  Step-IsReady (starts c h) (pool, all) = (pool, (IsHandler-AsksBytes h, all))
  Step-IsReady {r} (moves before after {c} {c'} is step) (pool, all) =
      let (here', rest) = All-middle before after c (subst (All AsksBytes) is all) in
      let (pool', b') = CallStep-HasPool step pool here' in (pool', rest c' b')

  Reach-IsReady : {r' r : Running S} → Reach repo srv r' r → IsReady r → IsReady r'
  Reach-IsReady here ready = ready
  Reach-IsReady (later step rest) ready = Reach-IsReady rest (Step-IsReady step ready)

  -- A server that starts with a consistent pool and no handler in flight keeps it consistent however
  -- its handlers interleave: no two clients ever hold a lease of one address.
  pub interleaved_leases :
      {r r' : Running S}
      → HasPool s e r.world
      → r.in_flight ≡ []
      → Reach repo srv r' r
      → (m : IpManager) × (r'.world.pool ≡ some m) × HasUniqueLeases m
  interleaved_leases {r} pool idle reach =
      let ((m, there, c), _) = Reach-IsReady reach (pool, rw idle tt) in
      (m, there, λ k j l l' hk hj same. lease_unique c k j l l' hk hj same)

  -- In every state that a server reaches from one with a consistent pool and no handler in flight,
  -- however its handlers interleaved, each handler in flight can be brought to its end by its own calls
  -- alone. The range of the pool ends below 255.255.255.255, and its loop has a turn for each address
  -- and one more.
  pub handler_ends :
      {r r' : Running S} (before after : List Calls) (c : Calls)
      → HasPool s e r.world
      → r.in_flight ≡ []
      → Reach repo srv r' r
      → r'.in_flight ≡ before ++ c ∷ after
      → (o : Outcome) × (w : World S) × Reach repo srv
          (record { world = w; in_flight = before ++ done o ∷ after })
          (record { world = r'.world; in_flight = before ++ c ∷ after })
  handler_ends {r} {r'} before after c pool idle reach is =
      let (pool', all) = Reach-IsReady reach (pool, rw idle tt) in
      let (b, rest) = All-middle before after c (subst (All AsksBytes) is all) in
      ends c before after r'.world pool' b
