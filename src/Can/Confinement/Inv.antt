-- ===== src/Can/Confinement/Inv.antt =====
-- What holds of the error counters between two events, and what a run of events can do.
use diagnostic_vehicle_simul.Prelude.{
  ℕ, zero, suc, ◌+◌, ◌*◌, ◌≤◌, ◌≡◌, refl, true, false, List, [], ◌∷◌, arith, All, replicate, ltb,
  Bool-cases, inl, inr,
}
use diagnostic_vehicle_simul.Can.Confinement.{
  BusState, error_active, error_passive, bus_off, FaultConfinement, state, on_transmit_error,
  on_receive_error, on_transmit_success, on_receive_success, recover, force_state, can_transmit,
}

-- The flag is set exactly while the transmit counter is past its threshold, and neither counter
-- comes near the end of a u16.
pub record IsConfined (c : FaultConfinement) : Type 0 where
  pub off_counted : c.is_bus_off ≡ ltb 255 c.transmit_error_count
  pub transmit_small : c.transmit_error_count ≤ 263
  pub receive_small : c.receive_error_count ≤ 255

-- What can happen to a node.
pub data Event : Type 0 where
  transmit_error receive_error transmit_success receive_success recovery : Event
  forced : BusState → Event

pub apply : Event → FaultConfinement → FaultConfinement
apply transmit_error c = on_transmit_error c
apply receive_error c = on_receive_error c
apply transmit_success c = on_transmit_success c
apply receive_success c = on_receive_success c
apply recovery c = recover c
apply (forced s) c = force_state c s

pub apply_all : List Event → FaultConfinement → FaultConfinement
apply_all [] c = c
apply_all (e ∷ es) c = apply_all es (apply e c)

apply-IsConfined : (e : Event) (c : FaultConfinement) → IsConfined c → IsConfined (apply e c)
unfolding apply on_transmit_error on_receive_error on_transmit_success on_receive_success recover
    force_state
apply-IsConfined transmit_error c h = ground arith
apply-IsConfined receive_error c h = ground arith
apply-IsConfined transmit_success c h = ground arith
apply-IsConfined receive_success c h = ground arith
apply-IsConfined recovery c h = ground arith
apply-IsConfined (forced error_active) c h = ground arith
apply-IsConfined (forced error_passive) c h = ground arith
apply-IsConfined (forced bus_off) c h = ground arith

-- Whatever errors, successes, recoveries and forced states a node that satisfies the invariant
-- meets, it still satisfies it afterwards.
pub apply_all-IsConfined :
    (es : List Event) (c : FaultConfinement) → IsConfined c → IsConfined (apply_all es c)
unfolding apply_all
apply_all-IsConfined [] c h = h
apply_all-IsConfined (e ∷ es) c h = apply_all-IsConfined es (apply e c) (apply-IsConfined e c h)

-- Everything but a transmit error and a forced state.
abbrev pub IsQuiet : Event → Type 0
IsQuiet transmit_error = ⊥
IsQuiet (forced s) = ⊥
IsQuiet _ = Unit {0}

-- Everything but a recovery and a forced state.
abbrev pub IsTraffic : Event → Type 0
IsTraffic recovery = ⊥
IsTraffic (forced s) = ⊥
IsTraffic _ = Unit {0}

apply_quiet :
    (e : Event) (c : FaultConfinement)
    → IsQuiet e
    → c.is_bus_off ≡ false
    → (apply e c).is_bus_off ≡ false
unfolding apply on_receive_error on_transmit_success on_receive_success recover
apply_quiet transmit_error c q h = absurd q
apply_quiet receive_error c q h = ground arith
apply_quiet transmit_success c q h = ground arith
apply_quiet receive_success c q h = ground arith
apply_quiet recovery c q h = refl
apply_quiet (forced s) c q h = absurd q

-- Only transmit errors take a node off the bus: after any receive errors, successes and
-- recoveries, however many, a node that was on the bus is still on it and may still transmit.
pub quiet-can_transmit :
    (es : List Event) (c : FaultConfinement)
    → All IsQuiet es
    → c.is_bus_off ≡ false
    → ((apply_all es c).is_bus_off ≡ false) × (can_transmit (state (apply_all es c)) ≡ true)
unfolding apply_all state can_transmit
quiet-can_transmit [] c q h = ground arith
quiet-can_transmit (e ∷ es) c q h = quiet-can_transmit es (apply e c) q.1 (apply_quiet e c q.0 h)

apply_traffic_off :
    (e : Event) (c : FaultConfinement) → IsTraffic e → c.is_bus_off ≡ true → apply e c ≡ c
unfolding apply on_transmit_error on_receive_error on_transmit_success on_receive_success
apply_traffic_off transmit_error c q h = ground arith
apply_traffic_off receive_error c q h = ground arith
apply_traffic_off transmit_success c q h = ground arith
apply_traffic_off receive_success c q h = ground arith
apply_traffic_off recovery c q h = absurd q
apply_traffic_off (forced s) c q h = absurd q

-- A node that is off the bus stays off, counters and all, through any traffic: only a recovery
-- or a forced state brings it back.
pub bus_off_absorbs :
    (es : List Event) (c : FaultConfinement)
    → All IsTraffic es
    → c.is_bus_off ≡ true
    → apply_all es c ≡ c
unfolding apply_all
bus_off_absorbs [] c q h = refl
bus_off_absorbs (e ∷ es) c q h = rw (apply_traffic_off e c q.0 h) (bus_off_absorbs es c q.1 h)

transmit_error_step :
    (c : FaultConfinement)
    → IsConfined c
    → c.is_bus_off ≡ false
    → ((on_transmit_error c).transmit_error_count ≡ c.transmit_error_count + 8)
      × ((on_transmit_error c).is_bus_off ≡ ltb 255 (c.transmit_error_count + 8))
unfolding on_transmit_error
transmit_error_step c v h = ground arith

abbrev errors : ℕ → List Event
errors n = replicate n transmit_error

errors-IsTraffic : (n : ℕ) → All IsTraffic (errors n)
errors-IsTraffic zero = tt
errors-IsTraffic (suc n) = (tt, errors-IsTraffic n)

-- A node on the bus goes off it at exactly the transmit error, with nothing in between, at which
-- its counter, eight for each, would pass 255.
pub bus_off_after_errors :
    (n : ℕ) (c : FaultConfinement)
    → IsConfined c
    → c.is_bus_off ≡ false
    → (apply_all (errors n) c).is_bus_off ≡ ltb 255 (c.transmit_error_count + 8 * n)
unfolding apply_all apply
bus_off_after_errors zero c v h = ground arith
bus_off_after_errors (suc n) c v h = elim (Bool-cases (ltb 255 (c.transmit_error_count + 8))) [
  | inl off ↦ ground (
    arith,
    transmit_error_step c v h,
    bus_off_absorbs (errors n) (on_transmit_error c) (errors-IsTraffic n),
  )
  | inr stays ↦ ground (
    arith,
    transmit_error_step c v h,
    apply-IsConfined transmit_error c v,
    bus_off_after_errors n (on_transmit_error c),
  )
]
