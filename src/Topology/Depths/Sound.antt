-- ===== src/Topology/Depths/Sound.antt =====
-- Only networks behind an entry point get a depth.
use Prim.Native.String.{String}
use mathlib.Core.Path.{subst}
use mathlib.Core.List.{Memᴰ}
use text.Mathlib.Text.{◌==◌}
use text.Mathlib.TextEquality.{eq_iff}
use diagnostic_vehicle_simul.Prelude.{
  ℕ, zero, suc, ◌≡◌, refl, true, some, List, [], ◌∷◌, if◌then◌else◌, Bool-cases, inl, inr, sym,
  arith,
}
use diagnostic_vehicle_simul.Topology.{Network, PlacedEcu, Vehicle, contains_id, is_own}
use diagnostic_vehicle_simul.Topology.Depths.{
  DepthSearch, has_depth, discover, seed_entry_points, visit_behind, visit_ecus, search,
}
use diagnostic_vehicle_simul.Topology.Depths.Closed.{has_depth-append, empty, meet, at}

-- A chain of gateways connects the network to an entry point.
pub data IsConnected (v : Vehicle) : String → Type 0 where
  entry : (n : Network) → Memᴰ n v.networks → n.is_entry_point ≡ true → IsConnected v n.network_id
  behind :
      (a b : String) (e : PlacedEcu)
      → IsConnected v a
      → Memᴰ e v.ecus
      → is_own e.on_network a ≡ true
      → contains_id e.gateway_for b ≡ true
      → IsConnected v b

-- What is found has a property that entry points have and gateways hand on.
abbrev pub IsSound : (String → Type 0) → DepthSearch → Type 0
IsSound P s =
    ((a : String) → has_depth s.depths a ≡ true → P a)
    × ((a : String) → has_depth s.frontier a ≡ true → P a)

discover-IsSound :
    (P : String → Type 0) (s : DepthSearch) (id : String) (depth : ℕ)
    → P id
    → IsSound P s
    → IsSound P (discover s id depth)
unfolding discover has_depth
discover-IsSound P s id depth p (sd, sf) = (
  (λ a h. elim (Bool-cases (id == a)) [
    | inl q ↦ subst P ((eq_iff id a).0 q) p
    | inr q ↦ sd a (ground (arith, q, h))
  ]),
  (λ a h. elim (Bool-cases (id == a)) [
    | inl q ↦ subst P ((eq_iff id a).0 q) p
    | inr q ↦ sf a (ground (arith, q, h, has_depth-append s.frontier ((id, depth) ∷ []) a))
  ]),
)

visit_behind-IsSound :
    (P : String → Type 0) (s : DepthSearch) (depth : ℕ) (ids : List String)
    → ((a : String) → contains_id ids a ≡ true → P a)
    → IsSound P s
    → IsSound P (visit_behind s depth ids)
unfolding visit_behind contains_id
visit_behind-IsSound P s depth [] p x = x
visit_behind-IsSound P s depth (id ∷ ids) p x =
    visit_behind-IsSound P (meet s id depth) depth ids (λ a c. p a (ground (arith, c)))
      (elim (Bool-cases (has_depth s.depths id)) [
        | inl h ↦ rw h x
        | inr h ↦ rw h (discover-IsSound P s id depth (p id (ground (arith, eq_iff id id))) x)
      ])

visit_ecus-IsSound :
    (P : String → Type 0) (s : DepthSearch) (id : String) (depth : ℕ) (es : List PlacedEcu)
    → ((b : String) (e : PlacedEcu)
        → Memᴰ e es
        → is_own e.on_network id ≡ true
        → contains_id e.gateway_for b ≡ true
        → P b)
    → IsSound P s
    → IsSound P (visit_ecus s id depth es)
unfolding visit_ecus
visit_ecus-IsSound P s id depth [] p x = x
visit_ecus-IsSound P s id depth (e ∷ es) p x =
    visit_ecus-IsSound P (if is_own e.on_network id then visit_behind s depth e.gateway_for else s)
      id depth es (λ b f m o c. p b f (Memᴰ.tail m) o c)
      (elim (Bool-cases (is_own e.on_network id)) [
        | inl h ↦
            rw h
              (visit_behind-IsSound P s depth e.gateway_for (λ a c. p a e (Memᴰ.head refl) h c) x)
        | inr h ↦ rw h x
      ])

pub search-IsSound :
    (v : Vehicle) (fuel : ℕ) (depths frontier result : List (String × ℕ))
    → search v.ecus fuel depths frontier ≡ some result
    → IsSound (IsConnected v) (at depths frontier)
    → (a : String) → has_depth result a ≡ true
    → IsConnected v a
unfolding search has_depth
search-IsSound v fuel depths [] result e (sd, sf) a h =
    sd a (subst (λ r. has_depth r a ≡ true) (sym (cc e)) h)
search-IsSound v zero depths (p ∷ frontier) result e x a h = absurd (cc)
search-IsSound v (suc fuel) depths ((id, depth) ∷ frontier) result e (sd, sf) a h =
    let s = visit_ecus (at depths frontier) id (suc depth) v.ecus in
    search-IsSound v fuel s.depths s.frontier result e
      (visit_ecus-IsSound (IsConnected v) (at depths frontier) id (suc depth) v.ecus
        (λ b g m o c. behind id b g (sf id (ground (arith, eq_iff id id))) m o c)
        (sd, (λ b q. sf b (ground (arith, q)))))
      a h

pub seed_entry_points-IsSound :
    (P : String → Type 0) (s : DepthSearch) (ns : List Network)
    → ((n : Network) → Memᴰ n ns → n.is_entry_point ≡ true → P n.network_id)
    → IsSound P s
    → IsSound P (seed_entry_points s ns)
unfolding seed_entry_points
seed_entry_points-IsSound P s [] p x = x
seed_entry_points-IsSound P s (n ∷ ns) p x =
    seed_entry_points-IsSound P (if n.is_entry_point then discover s n.network_id 0 else s) ns
      (λ m i h. p m (Memᴰ.tail i) h)
      (elim (Bool-cases n.is_entry_point) [
        | inl h ↦ rw h (discover-IsSound P s n.network_id 0 (p n (Memᴰ.head refl) h) x)
        | inr h ↦ rw h x
      ])

pub empty-IsSound : (P : String → Type 0) → IsSound P empty
unfolding has_depth
empty-IsSound P = ((λ a h. absurd (cc)), (λ a h. absurd (cc)))
