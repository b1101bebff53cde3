-- ===== src/Doip/Connection/Deadline.antt =====
-- When a connection runs out of time.
use diagnostic_vehicle_simul.Prelude.{
  ℕ, ◌+◌, ◌<◌, ◌≡◌, refl, List, [], ◌∷◌, All, arith, min, if◌then◌else◌, leb, Bool-cases, inl, inr,
}
use diagnostic_vehicle_simul.Doip.Connection.{
  initialized, routing_active, finalized, Connection, note_activity, deadline_ms, advance, tick,
  initial_inactivity, general_inactivity,
}
use diagnostic_vehicle_simul.Doip.Connection.Rules.{Event, activity, elapsed, apply, apply_all}

-- Traffic that never activates the connection: what is sent or received, and the time that passes.
pub data Traffic : Type 0 where
  talk : Traffic
  wait : ℕ → Traffic

pub event : Traffic → Event
event talk = activity
event (wait ms) = elapsed ms

pub events : List Traffic → List Event
events [] = []
events (t ∷ ts) = event t ∷ events ts

-- The time that passes in all.
pub total : List Traffic → ℕ
total [] = 0
total (talk ∷ ts) = total ts
total (wait ms ∷ ts) = ms + total ts

finalized_stays :
    (ts : List Traffic) (c : Connection)
    → c.state ≡ finalized
    → (apply_all (events ts) c).state ≡ finalized
unfolding apply_all events event apply note_activity tick
finalized_stays [] c h = h
finalized_stays (talk ∷ ts) c h = ground (arith, finalized_stays ts (note_activity c))
finalized_stays (wait ms ∷ ts) c h = ground (arith, finalized_stays ts c)

-- A connection on which nothing is activated is finalized as soon as the times that have passed
-- add up to the initial deadline, and not before, however much is sent or received in between.
pub initial_deadline :
    (ts : List Traffic) (c : Connection)
    → c.state ≡ initialized
    → c.idle_ms < initial_inactivity
    → (apply_all (events ts) c).state
      ≡ (if leb initial_inactivity (c.idle_ms + total ts) then finalized else initialized)
unfolding apply_all events event apply total note_activity tick advance deadline_ms
initial_deadline [] c h l = ground arith
initial_deadline (talk ∷ ts) c h l = ground (arith, initial_deadline ts c h l)
initial_deadline (wait ms ∷ ts) c h l =
    elim (Bool-cases (leb initial_inactivity (c.idle_ms + ms))) [
      | inl late ↦ ground (
        arith,
        finalized_stays ts
            (record c { state = finalized; idle_ms = min (c.idle_ms + ms) 18446744073709551615 }),
      )
      | inr early ↦ ground (arith, initial_deadline ts (record c { idle_ms = c.idle_ms + ms }))
    ]

-- Silences of these lengths, each ended by something sent or received.
pub silences : List ℕ → List Event
silences [] = []
silences (ms ∷ rest) = elapsed ms ∷ activity ∷ silences rest

-- A connection that routes goes on routing through any number of silences, each shorter than the
-- general deadline and ended by something sent or received, and a silence as long as the deadline
-- then ends it.
pub general_deadline :
    (gaps : List ℕ) (n : ℕ) (c : Connection)
    → c.state ≡ routing_active
    → c.idle_ms ≡ 0
    → All (λ (ms : ℕ). ms < general_inactivity) gaps
    → ((apply_all (silences gaps) c).state ≡ routing_active)
      × ((apply (elapsed n) (apply_all (silences gaps) c)).state
          ≡ (if leb general_inactivity n then finalized else routing_active))
unfolding apply_all apply silences note_activity tick advance deadline_ms
general_deadline [] n c h z a = ground arith
general_deadline (ms ∷ gaps) n c h z a =
    ground (arith, general_deadline gaps n (record c { idle_ms = 0 }) h refl a.1)
