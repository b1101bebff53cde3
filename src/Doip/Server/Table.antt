-- ===== src/Doip/Server/Table.antt =====
-- The connection table: in ascending order of sockets, with no tester registered twice.
pub mod Sockets
use diagnostic_vehicle_simul.Prelude.{
  ℕ, ◌<◌, ◌≡◌, ◌≢◌, ◌⊎◌, inl, inr, refl, Bool, true, false, not, ◌&&◌, Option, none, some, List, [],
  ◌∷◌, All, if◌then◌else◌, ltb, ◌==◌, Bool-cases, arith,
}
use diagnostic_vehicle_simul.Doip.Connection.{Connection, new, tick, advance}
use diagnostic_vehicle_simul.Doip.Server.{
  Connections, find_connection, insert_connection, remove_connection, tick_connections,
}
use diagnostic_vehicle_simul.Doip.Server.Tcp.{update_connection, is_active_elsewhere, is_address}

-- Whether two registrations are of the same tester.
abbrev pub is_same_tester : Option ℕ → Option ℕ → Bool
is_same_tester none o = false
is_same_tester (some a) o = is_address o a

-- One socket's entry before another's: its number is smaller, and their testers differ.
abbrev pub Apart : ℕ × Connection → ℕ × Connection → Type 0
Apart (s, c) (t, d) = (s < t) × (is_same_tester c.source_address d.source_address ≡ false)

abbrev pub IsExclusive : Connections → Type 0
IsExclusive [] = Unit {0}
IsExclusive (p ∷ rest) = All (Apart p) rest × IsExclusive rest

-- Whether an address, if it is one, is registered on another socket.
abbrev pub is_taken : Connections → ℕ → Option ℕ → Bool
is_taken cs socket none = false
is_taken cs socket (some address) = is_active_elsewhere cs socket address

is_taken-cons :
    (t : ℕ) (d : Connection) (rest : Connections) (socket : ℕ) (o : Option ℕ)
    → is_taken ((t, d) ∷ rest) socket o ≡ false
    → ((t == socket) ≡ true ⊎ is_same_tester o d.source_address ≡ false)
      × (is_taken rest socket o ≡ false)
unfolding is_active_elsewhere
is_taken-cons t d rest socket none h = (inr refl, refl)
is_taken-cons t d rest socket (some a) h = (ground arith, ground arith)

module _ (f : Connection → Connection) (socket : ℕ) (o : Option ℕ)
    (source : (d : Connection)
      → ((f d).source_address ≡ d.source_address) ⊎ ((f d).source_address ≡ o)) where
  -- A socket's own entry is the only one that an update changes.
  update_connection-Apart_self :
      (s : ℕ) (c : Connection) (cs : Connections)
      → (s == socket) ≡ true
      → All (Apart (s, c)) cs
      → is_taken cs socket o ≡ false
      → All (Apart (s, f c)) (update_connection f socket cs)
  unfolding update_connection
  update_connection-Apart_self s c [] h a free = tt
  update_connection-Apart_self s c ((t, d) ∷ rest) h (a, as_) free =
      let (differs, later) = is_taken-cons t d rest socket o free in
      (ground (arith, source c), update_connection-Apart_self s c rest h as_ later)

  update_connection-Apart :
      (s : ℕ) (c : Connection) (cs : Connections)
      → (s == socket) ≡ false
      → is_same_tester o c.source_address ≡ false
      → All (Apart (s, c)) cs
      → All (Apart (s, c)) (update_connection f socket cs)
  unfolding update_connection
  update_connection-Apart s c [] h differs a = tt
  update_connection-Apart s c ((t, d) ∷ rest) h differs (a, as_) =
      (ground (arith, source d), update_connection-Apart s c rest h differs as_)

  pub update_connection-IsExclusive :
      (cs : Connections)
      → is_taken cs socket o ≡ false
      → IsExclusive cs
      → IsExclusive (update_connection f socket cs)
  unfolding update_connection
  update_connection-IsExclusive [] free x = tt
  update_connection-IsExclusive ((s, c) ∷ rest) free (a, x) =
      let (differs, later) = is_taken-cons s c rest socket o free in
      (
        elim (Bool-cases (s == socket)) [
          | inl h ↦ rw h (update_connection-Apart_self s c rest h a later)
          | inr h ↦ rw h (update_connection-Apart s c rest h (ground arith) a)
        ],
        update_connection-IsExclusive rest later x,
      )
