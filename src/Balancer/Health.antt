-- ===== src/Balancer/Health.antt =====
-- `healthCheck`: the health of every server afterwards, and what the syncer is told.
use ote_stack.Prelude.{
  String, ◌≡◌, refl, ◌∙◌, Bool, false, not, ◌&&◌, ◌||◌, List, [], ◌∷◌, ◌++◌, ◌==◌, eq_iff, arith,
  if◌then◌else◌, elem,
}
use ote_stack.Maps.{lookup-insert}
use ote_stack.Balancer.{
  LoadBalancer, get_health_status, set_health_status, check_servers, send_signal, health_check,
}

health-set :
    (a s : String) (status : Bool) (lb : LoadBalancer)
    → get_health_status s (set_health_status a status lb)
      ≡ (if a == s then status else get_health_status s lb)
unfolding get_health_status set_health_status
health-set a s status lb = ground (arith, lookup-insert a s status lb.server_health_status)

abbrev pub differ : Bool → Bool → Bool
differ a b = a && not b || not a && b

health-send_signal :
    (ready : Bool) (s : String) (lb : LoadBalancer)
    → get_health_status s (send_signal ready lb) ≡ get_health_status s lb
unfolding send_signal get_health_status
health-send_signal ready s lb = ground arith

random_servers-send_signal :
    (ready : Bool) (lb : LoadBalancer) → (send_signal ready lb).random_servers ≡ lb.random_servers
unfolding send_signal
random_servers-send_signal ready lb = ground arith

enabled-send_signal :
    (ready : Bool) (lb : LoadBalancer) → (send_signal ready lb).remote_enable ≡ ready
unfolding send_signal
enabled-send_signal ready lb = ground arith

signals-send_signal :
    (ready : Bool) (lb : LoadBalancer)
    → (send_signal ready lb).signals
      ≡ (if differ lb.remote_enable ready then lb.signals ++ ready ∷ [] else lb.signals)
unfolding send_signal
signals-send_signal ready lb = ground arith

module _ (dial : String → Bool) where
  -- Can one of the servers be dialled?
  abbrev pub reachable : List String → Bool
  reachable [] = false
  reachable (s ∷ ss) = dial s || reachable ss

  health-check_servers :
      (servers : List String) (healthy : Bool) (lb : LoadBalancer) (s : String)
      → get_health_status s (check_servers dial servers healthy lb).1
        ≡ (if elem s servers then dial s else get_health_status s lb)
  unfolding check_servers
  health-check_servers [] healthy lb s = refl
  health-check_servers (a ∷ rest) healthy lb s =
      health-check_servers rest (dial a || healthy) (set_health_status a (dial a) lb) s
      ∙ ground (arith, health-set a s (dial a) lb, eq_iff a s)

  reachable-check_servers :
      (servers : List String) (healthy : Bool) (lb : LoadBalancer)
      → (check_servers dial servers healthy lb).0 ≡ (healthy || reachable servers)
  unfolding check_servers
  reachable-check_servers [] healthy lb = ground arith
  reachable-check_servers (a ∷ rest) healthy lb =
      reachable-check_servers rest (dial a || healthy) (set_health_status a (dial a) lb)
      ∙ ground arith

  rest-check_servers :
      (servers : List String) (healthy : Bool) (lb : LoadBalancer)
      → ((check_servers dial servers healthy lb).1.remote_enable ≡ lb.remote_enable)
        × ((check_servers dial servers healthy lb).1.signals ≡ lb.signals)
        × ((check_servers dial servers healthy lb).1.random_servers ≡ lb.random_servers)
  unfolding check_servers set_health_status
  rest-check_servers [] healthy lb = (refl, refl, refl)
  rest-check_servers (a ∷ rest) healthy lb =
      rest-check_servers rest (dial a || healthy) (set_health_status a (dial a) lb)

  -- After a check every listed server is healthy exactly if it can be dialled, and the health of
  -- the others and the list stay. The remote side is enabled exactly if some listed server can be
  -- dialled, and the syncer gets that value as a signal exactly if it has changed.
  health_check_lem :
      (lb : LoadBalancer)
      → let lb' = health_check dial lb in
        let ready = reachable lb.random_servers in
        ((s : String)
          → get_health_status s lb'
            ≡ (if elem s lb.random_servers then dial s else get_health_status s lb))
        × (lb'.random_servers ≡ lb.random_servers)
        × (lb'.remote_enable ≡ ready)
        × (lb'.signals
            ≡ (if differ lb.remote_enable ready then lb.signals ++ ready ∷ [] else lb.signals))
  unfolding health_check
  health_check_lem lb =
      let (healthy, lb₁) = check_servers dial lb.random_servers false lb in
      let ready = reachable-check_servers lb.random_servers false lb in
      let (enabled, signals, servers) = rest-check_servers lb.random_servers false lb in
      (
        λ s. health-send_signal healthy s lb₁ ∙ health-check_servers lb.random_servers false lb s,
        random_servers-send_signal healthy lb₁ ∙ servers,
        enabled-send_signal healthy lb₁ ∙ ready,
        signals-send_signal healthy lb₁ ∙ rw ready (rw enabled (rw signals refl)),
      )
