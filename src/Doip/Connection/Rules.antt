-- ===== src/Doip/Connection/Rules.antt =====
-- Which connections route, and for which tester.
use diagnostic_vehicle_simul.Prelude.{
  ℕ, ◌<◌, ◌≡◌, ◌≢◌, ◌↔◌, ◌⊎◌, Bool, true, false, none, some, List, [], ◌∷◌, arith, is_some,
}
use diagnostic_vehicle_simul.Doip.Messages.{
  RoutingActivationRequest, RoutingActivationOutcome, activated, outcome_closes_socket,
  is_activated,
}
use diagnostic_vehicle_simul.Doip.Connection.{
  initialized, routing_active, finalized, Connection, new, is_routing_active, note_activity,
  deadline_ms, advance, tick, is_supported_activation_type, decide_registered,
  decide_routing_activation, settle, apply_routing_activation, finalize,
}

-- What the entity decides about a request when it looks at the other connections.
pub record Situation : Type 0 where
  pub is_acceptable : Bool
  pub is_active_elsewhere : Bool
  pub has_free_socket : Bool

-- What can happen to a connection.
pub data Event : Type 0 where
  activity closing : Event
  elapsed : ℕ → Event
  activation : RoutingActivationRequest → Situation → Event

-- The decided outcome, applied.
unfoldable pub activate : Connection → RoutingActivationRequest → Situation → Connection
activate c request s =
    apply_routing_activation c request
      (decide_routing_activation c request s.is_acceptable s.is_active_elsewhere s.has_free_socket)

-- A request is activated exactly when its type is supported, its tester acceptable, and the
-- socket either has this same tester registered, or has none, with the tester active on no
-- other socket and a socket free.
pub decide_routing_activation-activated :
    (c : Connection) (request : RoutingActivationRequest) (s : Situation)
    → (decide_routing_activation c request s.is_acceptable s.is_active_elsewhere s.has_free_socket
        ≡ activated)
      ↔ ((is_supported_activation_type request.activation_type ≡ true)
          × (s.is_acceptable ≡ true)
          × ((c.source_address ≡ some request.source_address)
              ⊎ ((c.source_address ≡ none)
                  × (s.is_active_elsewhere ≡ false)
                  × (s.has_free_socket ≡ true))))
unfolding decide_routing_activation decide_registered
decide_routing_activation-activated c request s = ground arith

unfoldable pub apply : Event → Connection → Connection
apply activity c = note_activity c
apply closing c = finalize c
apply (elapsed ms) c = (tick c ms).0
apply (activation request s) c = activate c request s

unfoldable pub apply_all : List Event → Connection → Connection
apply_all [] c = c
apply_all (e ∷ es) c = apply_all es (apply e c)

-- A connection routes only for a registered tester, and one that has not been finalized is
-- within its deadline; before it is activated it has no tester.
pub record IsSettled (c : Connection) : Type 0 where
  pub routing_registered : (c.state ≢ routing_active) ⊎ (is_some c.source_address ≡ true)
  pub initialized_unregistered : (c.state ≢ initialized) ⊎ (c.source_address ≡ none)
  pub within_deadline : (c.state ≡ finalized) ⊎ (c.idle_ms < deadline_ms c.state)

new-IsSettled : IsSettled new
unfolding new deadline_ms
new-IsSettled = ground arith

apply-IsSettled : (e : Event) (c : Connection) → IsSettled c → IsSettled (apply e c)
unfolding apply note_activity finalize tick advance activate apply_routing_activation settle
    decide_routing_activation decide_registered deadline_ms
apply-IsSettled activity c h = ground arith
apply-IsSettled closing c h = ground arith
apply-IsSettled (elapsed ms) c h = ground arith
apply-IsSettled (activation request s) c h = ground arith

-- However a new connection is used, it satisfies the invariant: it never routes without a
-- registered tester, and it never outlives its deadline unfinalized.
pub apply_all-IsSettled :
    (es : List Event) (c : Connection) → IsSettled c → IsSettled (apply_all es c)
unfolding apply_all
apply_all-IsSettled [] c h = h
apply_all-IsSettled (e ∷ es) c h = apply_all-IsSettled es (apply e c) (apply-IsSettled e c h)

apply-source_address :
    (e : Event) (c : Connection) (a : ℕ)
    → c.source_address ≡ some a
    → (apply e c).source_address ≡ some a
unfolding apply note_activity finalize tick advance activate apply_routing_activation settle
    decide_routing_activation decide_registered
apply-source_address activity c a h = ground arith
apply-source_address closing c a h = ground arith
apply-source_address (elapsed ms) c a h = ground arith
apply-source_address (activation request s) c a h = ground arith

-- The tester registered on a connection is never replaced: not by other testers' requests, however
-- they are decided, nor by anything else that happens to it.
pub apply_all-source_address :
    (es : List Event) (c : Connection) (a : ℕ)
    → c.source_address ≡ some a
    → (apply_all es c).source_address ≡ some a
unfolding apply_all
apply_all-source_address [] c a h = h
apply_all-source_address (e ∷ es) c a h =
    apply_all-source_address es (apply e c) a (apply-source_address e c a h)

-- An outcome leaves the socket open exactly when it does not finalize the connection, so the
-- response and the state machine agree on which denials close.
pub settle-outcome_closes_socket :
    (c : Connection) (request : RoutingActivationRequest) (outcome : RoutingActivationOutcome)
    → (outcome_closes_socket outcome ≡ true
        ↔ (apply_routing_activation c request outcome).state ≡ finalized)
      × (is_activated outcome
          ≡ is_routing_active (apply_routing_activation c request outcome).state)
unfolding apply_routing_activation settle outcome_closes_socket is_activated is_routing_active
settle-outcome_closes_socket c request outcome = ground arith
