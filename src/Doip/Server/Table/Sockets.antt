-- ===== src/Doip/Server/Table/Sockets.antt =====
-- Opening, closing and timing out sockets keep the table exclusive.
use diagnostic_vehicle_simul.Prelude.{
  ℕ, ◌<◌, ◌≤◌, ◌≡◌, inl, inr, [], ◌∷◌, All, ltb, ◌==◌, Bool-cases, arith,
}
use diagnostic_vehicle_simul.Doip.Connection.{Connection, new, tick, advance}
use diagnostic_vehicle_simul.Doip.Server.{
  Connections, insert_connection, remove_connection, tick_connections,
}
use diagnostic_vehicle_simul.Doip.Server.Table.{Apart, IsExclusive}

-- The clock changes no tester.
tick-source_address : (c : Connection) (ms : ℕ) → (tick c ms).0.source_address ≡ c.source_address
unfolding tick advance
tick-source_address c ms = ground arith

tick_connections-Apart :
    (s : ℕ) (c d : Connection) (cs : Connections) (ms : ℕ)
    → d.source_address ≡ c.source_address
    → All (Apart (s, c)) cs
    → All (Apart (s, d)) (tick_connections cs ms).0
unfolding tick_connections
tick_connections-Apart s c d [] ms e a = tt
tick_connections-Apart s c d ((t, x) ∷ rest) ms e (a, as_) = elim (Bool-cases (tick x ms).1) [
  | inl h ↦ rw h (tick_connections-Apart s c d rest ms e as_)
  | inr h ↦
      rw h (ground (arith, tick-source_address x ms), tick_connections-Apart s c d rest ms e as_)
]

pub tick_connections-IsExclusive :
    (cs : Connections) (ms : ℕ) → IsExclusive cs → IsExclusive (tick_connections cs ms).0
unfolding tick_connections
tick_connections-IsExclusive [] ms x = tt
tick_connections-IsExclusive ((s, c) ∷ rest) ms (a, x) = elim (Bool-cases (tick c ms).1) [
  | inl h ↦ rw h (tick_connections-IsExclusive rest ms x)
  | inr h ↦ rw h (
    tick_connections-Apart s c (tick c ms).0 rest ms (tick-source_address c ms) a,
    tick_connections-IsExclusive rest ms x,
  )
]

remove_connection-Apart :
    (socket s : ℕ) (c : Connection) (cs : Connections)
    → All (Apart (s, c)) cs
    → All (Apart (s, c)) (remove_connection socket cs)
unfolding remove_connection
remove_connection-Apart socket s c [] a = tt
remove_connection-Apart socket s c ((t, d) ∷ rest) (a, as_) = elim (Bool-cases (t == socket)) [
  | inl h ↦ rw h (remove_connection-Apart socket s c rest as_)
  | inr h ↦ rw h (a, remove_connection-Apart socket s c rest as_)
]

pub remove_connection-IsExclusive :
    (socket : ℕ) (cs : Connections) → IsExclusive cs → IsExclusive (remove_connection socket cs)
unfolding remove_connection
remove_connection-IsExclusive socket [] x = tt
remove_connection-IsExclusive socket ((s, c) ∷ rest) (a, x) = elim (Bool-cases (s == socket)) [
  | inl h ↦ rw h (remove_connection-IsExclusive socket rest x)
  | inr h ↦
      rw h (remove_connection-Apart socket s c rest a, remove_connection-IsExclusive socket rest x)
]

-- A new connection has no tester, so only its place matters.
new-Apart :
    (s t : ℕ) (c : Connection) (cs : Connections)
    → s ≤ t
    → All (Apart (t, c)) cs
    → All (Apart (s, new)) cs
unfolding new
new-Apart s t c [] h a = tt
new-Apart s t c ((u, d) ∷ rest) h (a, as_) = (ground arith, new-Apart s t c rest h as_)

insert_connection-Apart :
    (socket s : ℕ) (c : Connection) (cs : Connections)
    → s < socket
    → All (Apart (s, c)) cs
    → All (Apart (s, c)) (insert_connection socket new cs)
unfolding insert_connection new
insert_connection-Apart socket s c [] h a = (ground arith, tt)
insert_connection-Apart socket s c ((t, d) ∷ rest) h (a, as_) = elim (Bool-cases (ltb socket t)) [
  | inl l ↦ rw l (ground arith, (a, as_))
  | inr l ↦ rw l (elim (Bool-cases (t == socket)) [
    | inl e ↦ rw e (ground arith, as_)
    | inr e ↦ rw e (a, insert_connection-Apart socket s c rest h as_)
  ])
]

pub insert_connection-IsExclusive :
    (socket : ℕ) (cs : Connections) → IsExclusive cs → IsExclusive (insert_connection socket new cs)
unfolding insert_connection new
insert_connection-IsExclusive socket [] x = (tt, tt)
insert_connection-IsExclusive socket ((s, c) ∷ rest) (a, x) = elim (Bool-cases (ltb socket s)) [
  | inl l ↦ rw l ((ground arith, new-Apart socket s c rest (ground arith) a), (a, x))
  | inr l ↦ rw l (elim (Bool-cases (s == socket)) [
    | inl e ↦ rw e (new-Apart socket s c rest (ground arith) a, x)
    | inr e ↦ rw e (
      insert_connection-Apart socket s c rest (ground arith) a,
      insert_connection-IsExclusive socket rest x,
    )
  ])
]
