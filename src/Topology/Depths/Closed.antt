-- ===== src/Topology/Depths/Closed.antt =====
-- Whatever a network with a depth forwards onto gets a depth.
use Prim.Native.String.{String}
use mathlib.Core.Path.{subst}
use mathlib.Core.List.{Memᴰ}
use text.Mathlib.Text.{◌==◌}
use text.Mathlib.TextEquality.{eq_iff}
use diagnostic_vehicle_simul.Prelude.{
  ℕ, zero, suc, ◌≡◌, refl, Bool, true, false, ◌||◌, some, List, [], ◌∷◌, ◌++◌, if◌then◌else◌,
  Bool-cases, inl, inr, sym, arith,
}
use diagnostic_vehicle_simul.Topology.{Network, PlacedEcu, contains_id, is_own}
use diagnostic_vehicle_simul.Topology.Depths.{
  DepthSearch, has_depth, discover, seed_entry_points, visit_behind, visit_ecus, search,
}

pub has_depth-append :
    (xs ys : List (String × ℕ)) (a : String)
    → has_depth (xs ++ ys) a ≡ (has_depth xs a || has_depth ys a)
unfolding has_depth
has_depth-append [] ys a = refl
has_depth-append ((i, d) ∷ xs) ys a = ground (arith, has_depth-append xs ys a)

-- One search state holds all that another does, and whatever it adds is in its frontier.
abbrev pub Extends : DepthSearch → DepthSearch → Type 0
Extends s t =
    ((a : String) → has_depth s.depths a ≡ true → has_depth t.depths a ≡ true)
    × ((a : String) → has_depth s.frontier a ≡ true → has_depth t.frontier a ≡ true)
    × ((a : String)
        → has_depth t.depths a ≡ true
        → (has_depth s.depths a || has_depth t.frontier a) ≡ true)

Extends-refl : (s : DepthSearch) → Extends s s
Extends-refl s = ((λ a h. h), (λ a h. h), (λ a h. ground arith))

Extends-trans : (s t u : DepthSearch) → Extends s t → Extends t u → Extends s u
Extends-trans s t u (st, sf, sn) (tt', tf, tn) = (
  (λ a h. tt' a (st a h)),
  (λ a h. tf a (sf a h)),
  (λ a h. ground (arith, h, tn a h, sn a, tf a)),
)

Extends-discover : (s : DepthSearch) (id : String) (depth : ℕ) → Extends s (discover s id depth)
unfolding discover has_depth
Extends-discover s id depth = (
  (λ a h. ground (arith, h)),
  (λ a h. ground (arith, h, has_depth-append s.frontier ((id, depth) ∷ []) a)),
  (λ a h. ground (arith, h, has_depth-append s.frontier ((id, depth) ∷ []) a)),
)

Extends-if : (c : Bool) (s t : DepthSearch) → Extends s t → Extends s (if c then t else s)
Extends-if true s t x = x
Extends-if false s t x = Extends-refl s

-- Looking at one network behind a gateway.
abbrev pub meet : DepthSearch → String → ℕ → DepthSearch
meet s id depth = if has_depth s.depths id then s else discover s id depth

meet-Extends : (s : DepthSearch) (id : String) (depth : ℕ) → Extends s (meet s id depth)
meet-Extends s id depth = elim (Bool-cases (has_depth s.depths id)) [
  | inl h ↦ rw h (Extends-refl s)
  | inr h ↦ rw h (Extends-discover s id depth)
]

meet-covers :
    (s : DepthSearch) (id : String) (depth : ℕ) → has_depth (meet s id depth).depths id ≡ true
unfolding discover has_depth
meet-covers s id depth = ground (arith, eq_iff id id)

visit_behind-Extends :
    (s : DepthSearch) (depth : ℕ) (ids : List String) → Extends s (visit_behind s depth ids)
unfolding visit_behind
visit_behind-Extends s depth [] = Extends-refl s
visit_behind-Extends s depth (id ∷ ids) =
    Extends-trans s (meet s id depth) (visit_behind (meet s id depth) depth ids)
      (meet-Extends s id depth) (visit_behind-Extends (meet s id depth) depth ids)

visit_behind-covers :
    (s : DepthSearch) (depth : ℕ) (ids : List String) (a : String)
    → contains_id ids a ≡ true
    → has_depth (visit_behind s depth ids).depths a ≡ true
unfolding visit_behind contains_id
visit_behind-covers s depth [] a c = absurd (ground arith)
visit_behind-covers s depth (id ∷ ids) a c = elim (Bool-cases (id == a)) [
  | inl h ↦ (visit_behind-Extends (meet s id depth) depth ids).0 a (
      subst (λ b. has_depth (meet s id depth).depths b ≡ true) ((eq_iff id a).0 h)
        (meet-covers s id depth))
  | inr h ↦ visit_behind-covers (meet s id depth) depth ids a (ground arith)
]

visit_ecus-Extends :
    (s : DepthSearch) (id : String) (depth : ℕ) (es : List PlacedEcu)
    → Extends s (visit_ecus s id depth es)
unfolding visit_ecus
visit_ecus-Extends s id depth [] = Extends-refl s
visit_ecus-Extends s id depth (e ∷ es) =
    let t = if is_own e.on_network id then visit_behind s depth e.gateway_for else s in
    Extends-trans s t (visit_ecus t id depth es)
      (Extends-if (is_own e.on_network id) s (visit_behind s depth e.gateway_for)
        (visit_behind-Extends s depth e.gateway_for))
      (visit_ecus-Extends t id depth es)

visit_ecus-covers :
    (s : DepthSearch) (id : String) (depth : ℕ) (es : List PlacedEcu) (e : PlacedEcu) (a : String)
    → Memᴰ e es
    → is_own e.on_network id ≡ true
    → contains_id e.gateway_for a ≡ true
    → has_depth (visit_ecus s id depth es).depths a ≡ true
unfolding visit_ecus
visit_ecus-covers s id depth [] e a m o c = elim m [ ]
visit_ecus-covers s id depth (x ∷ es) e a (Memᴰ.head p) o c =
    let q = subst (λ y. is_own y.on_network id ≡ true) p o in
    rw (q, visit_ecus)
      ((visit_ecus-Extends (visit_behind s depth x.gateway_for) id depth es).0 a (
        visit_behind-covers s depth x.gateway_for a
          (subst (λ y. contains_id y.gateway_for a ≡ true) p c)))
visit_ecus-covers s id depth (x ∷ es) e a (Memᴰ.tail m) o c =
    visit_ecus-covers (if is_own x.on_network id then visit_behind s depth x.gateway_for else s) id
      depth es e a m o c

-- Once nothing waits in the frontier, the depths are closed under forwarding.
abbrev pub IsClosed : List PlacedEcu → (depths frontier : List (String × ℕ)) → Type 0
IsClosed es depths frontier =
    (a b : String) (e : PlacedEcu)
    → has_depth depths a ≡ true
    → has_depth frontier a ≡ false
    → Memᴰ e es
    → is_own e.on_network a ≡ true
    → contains_id e.gateway_for b ≡ true
    → has_depth depths b ≡ true

abbrev pub at : (depths frontier : List (String × ℕ)) → DepthSearch
at depths frontier = record { depths = depths; frontier = frontier }

visit_ecus-IsClosed :
    (es : List PlacedEcu) (depths frontier : List (String × ℕ)) (id : String) (depth n : ℕ)
    → IsClosed es depths ((id, depth) ∷ frontier)
    → IsClosed es
        (visit_ecus (at depths frontier) id n es).depths
        (visit_ecus (at depths frontier) id n es).frontier
unfolding has_depth
visit_ecus-IsClosed es depths frontier id depth n closed a b e h f m o c =
    let (keeps, waits, adds) = visit_ecus-Extends (at depths frontier) id n es in
    let old : has_depth depths a ≡ true = ground (arith, h, f, adds a h) in
    elim (Bool-cases (id == a)) [
      | inl q ↦
          visit_ecus-covers (at depths frontier) id n es e b m
            (subst (λ x. is_own e.on_network x ≡ true) (sym ((eq_iff id a).0 q)) o) c
      | inr q ↦ keeps b (closed a b e old (ground (arith, q, f, waits a)) m o c)
    ]

pub search-IsClosed :
    (es : List PlacedEcu) (fuel : ℕ) (depths frontier result : List (String × ℕ))
    → search es fuel depths frontier ≡ some result
    → IsClosed es depths frontier
    → IsClosed es result [] × ((a : String) → has_depth depths a ≡ true → has_depth result a ≡ true)
unfolding search
search-IsClosed es fuel depths [] result e closed =
    subst
      (λ r. IsClosed es r [] × ((a : String) → has_depth depths a ≡ true → has_depth r a ≡ true))
      (cc e) (closed, (λ a h. h))
search-IsClosed es zero depths (p ∷ frontier) result e closed = absurd (cc)
search-IsClosed es (suc fuel) depths ((id, depth) ∷ frontier) result e closed =
    let s = visit_ecus (at depths frontier) id (suc depth) es in
    let (c, k) =
      search-IsClosed es fuel s.depths s.frontier result e
        (visit_ecus-IsClosed es depths frontier id depth (suc depth) closed) in
    (c, (λ a h. k a ((visit_ecus-Extends (at depths frontier) id (suc depth) es).0 a h)))

seed_entry_points-Extends :
    (s : DepthSearch) (ns : List Network) → Extends s (seed_entry_points s ns)
unfolding seed_entry_points
seed_entry_points-Extends s [] = Extends-refl s
seed_entry_points-Extends s (n ∷ ns) =
    let t = if n.is_entry_point then discover s n.network_id 0 else s in
    Extends-trans s t (seed_entry_points t ns)
      (Extends-if n.is_entry_point s (discover s n.network_id 0)
        (Extends-discover s n.network_id 0))
      (seed_entry_points-Extends t ns)

discover-covers :
    (s : DepthSearch) (id : String) (depth : ℕ) → has_depth (discover s id depth).depths id ≡ true
unfolding discover has_depth
discover-covers s id depth = ground (arith, eq_iff id id)

pub seed_entry_points-covers :
    (s : DepthSearch) (ns : List Network) (n : Network)
    → Memᴰ n ns
    → n.is_entry_point ≡ true
    → has_depth (seed_entry_points s ns).depths n.network_id ≡ true
unfolding seed_entry_points
seed_entry_points-covers s [] n m h = elim m [ ]
seed_entry_points-covers s (x ∷ ns) n (Memᴰ.tail m) h =
    seed_entry_points-covers (if x.is_entry_point then discover s x.network_id 0 else s) ns n m h
seed_entry_points-covers s (x ∷ ns) n (Memᴰ.head p) h =
    let q : x.is_entry_point ≡ true = subst (λ (y : Network). y.is_entry_point ≡ true) p h in
    rw (q, seed_entry_points)
      ((seed_entry_points-Extends (discover s x.network_id 0) ns).0 n.network_id (
        subst (λ (y : Network). has_depth (discover s x.network_id 0).depths y.network_id ≡ true)
          (sym p) (discover-covers s x.network_id 0)))

abbrev pub empty : DepthSearch
empty = at [] []

pub seed_entry_points-IsClosed :
    (es : List PlacedEcu) (ns : List Network)
    → IsClosed es (seed_entry_points empty ns).depths (seed_entry_points empty ns).frontier
unfolding has_depth
seed_entry_points-IsClosed es ns a b e h f m o c =
    let (keeps, waits, adds) = seed_entry_points-Extends empty ns in
    absurd (ground (arith, h, f, adds a h))
