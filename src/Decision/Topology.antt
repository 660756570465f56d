-- ===== src/Decision/Topology.antt =====
-- What the topology database says of each system after `computeSPF`.
use go_is_is.Common.{
  ℕ, ◌+◌, ◌≤◌, ◌≡◌, ◌≢◌, refl, ap, subst, ◌∙◌, ◌⊎◌, inl, inr, List, [], ◌∷◌, true, false, Option,
  some, arith, Returns, Returns-imp, ◌==◌, ==_refl, ==→eq, All, All-and, All-imp, Any, Any-imp,
  Bool-cases,
}
use go_is_is.Bytes.{bytes_equal}
use go_is_is.Bytes.Equal.{bytes_equal_refl, bytes_equal→eq}
use go_is_is.Avl.{Avl, search}
use go_is_is.Avl.Contract.{IsAvl}
use go_is_is.SystemId.{system_id_to_key}
use go_is_is.SystemId.Keys.{IsSystem, system_id_to_key-injective}
use go_is_is.Node.{Node, Intf}
use go_is_is.Decision.{Triple, load_tent, compute_spf}
use go_is_is.Decision.Graph.{Graph, Edge, IsAdjacent, Walk, source, first, next}
use go_is_is.Decision.Tent.{Covers, is_known}
use go_is_is.Decision.Round.{IsWalk}
use go_is_is.Decision.Loop.{Shortest}
use go_is_is.Decision.Once.{Once, occurs, occurs-unknown}
use go_is_is.Decision.Install.{key_of, stored}
use go_is_is.Decision.Correct.{Describes, origin_of, compute_spf-Computed}

-- The systems that the node and its graph name are texts of IDs of six bytes.
pub record AreSystems (local : List ℕ) (is : List Intf) (g : Graph) : Type 0 where
  pub of_local : IsSystem local
  pub of_adjacent : (v : List ℕ) (w : ℕ) → IsAdjacent is v w → IsSystem v
  pub of_edge : (u v : List ℕ) (w : ℕ) → Edge g u v w → IsSystem v

Walk-IsSystem :
    (local : List ℕ) (is : List Intf) (g : Graph)
    → AreSystems local is g
    → {v : List ℕ} {d : ℕ} → Walk is g local v d
    → IsSystem v
Walk-IsSystem local is g h source = h.of_local
Walk-IsSystem local is g h (first {v} {w} a) = h.of_adjacent v w a
Walk-IsSystem local is g h (next u {v} d w {c} walk e q) = h.of_edge u v w e

-- No triple's system stands again behind it.
abbrev pub Distinct : List Triple → Type 0
Distinct [] = Unit
Distinct (t ∷ ts) = (is_known t.system_id ts ≡ false) × Distinct ts

occurs-head :
    (v : List ℕ) (t : Triple) (ts : List Triple)
    → t.system_id ≡ v
    → occurs v (t ∷ ts) ≡ 1 + occurs v ts
unfolding occurs
occurs-head v t ts e = rw (e, bytes_equal_refl v) refl

occurs-tail : (v : List ℕ) (t : Triple) (ts : List Triple) → occurs v ts ≤ occurs v (t ∷ ts)
unfolding occurs
occurs-tail v t ts = omega arith

occurs-Any : (v : List ℕ) (ts : List Triple) → Any (λ t. t.system_id ≡ v) ts → 1 ≤ occurs v ts
occurs-Any v [] a = absurd a
occurs-Any v (t ∷ ts) (inl e) = omega (arith, occurs-head v t ts e)
occurs-Any v (t ∷ ts) (inr a) = omega (arith, occurs-tail v t ts, occurs-Any v ts a)

None-occurs : (v : List ℕ) (ts : List Triple) → occurs v ts ≡ 0 → All (λ t. t.system_id ≢ v) ts
None-occurs v [] z = tt
None-occurs v (t ∷ ts) z =
    (λ e. omega (arith, occurs-head v t ts e), None-occurs v ts (omega (arith, occurs-tail v t ts)))

-- Where a system stands once, what one of its triples is near to, all are.
pub Covers-All :
    (v : List ℕ) (d : ℕ) (ts : List Triple)
    → occurs v ts ≤ 1
    → Any (Covers v d) ts
    → All (λ t. t.system_id ≡ v → t.distance ≤ d) ts
Covers-All v d [] o a = tt
Covers-All v d (t ∷ ts) o (inl (e, h)) = (
  λ f. h,
  All-imp (λ u. u.system_id ≢ v) (λ u. u.system_id ≡ v → u.distance ≤ d) (λ u k f. absurd (k f)) ts
      (None-occurs v ts (omega (arith, occurs-head v t ts e))),
)
Covers-All v d (t ∷ ts) o (inr a) = (
  λ f. absurd (
      omega (
        arith,
        occurs-head v t ts f,
        occurs-Any v ts (Any-imp (Covers v d) (λ u. u.system_id ≡ v) (λ u c. c.0) ts a),
      )),
  Covers-All v d ts (omega (arith, occurs-tail v t ts)) a,
)

-- A system that is not known behind its triple stands nowhere there.
occurs-behind :
    (v : List ℕ) (t : Triple) (ts : List Triple)
    → is_known t.system_id ts ≡ false
    → bytes_equal v t.system_id ≡ true
    → occurs v ts ≡ 0
occurs-behind v t ts k e =
    ap (λ (x : List ℕ). occurs x ts) (bytes_equal→eq v t.system_id e)
    ∙ occurs-unknown t.system_id ts k

occurs-Distinct : (ts : List Triple) → Distinct ts → (v : List ℕ) → occurs v ts ≤ 1
unfolding occurs
occurs-Distinct [] h v = omega arith
occurs-Distinct (t ∷ ts) (k, h) v = elim (Bool-cases (bytes_equal v t.system_id)) [
  | inl e ↦ rw e (omega (arith, occurs-behind v t ts k e))
  | inr e ↦ rw e (omega (arith, occurs-Distinct ts h v))
]

pub Distinct-Once : (t : Triple) (ts : List Triple) → Distinct (t ∷ ts) → Once (t ∷ []) ts
unfolding occurs
Distinct-Once t ts h v = omega (arith, occurs-Distinct (t ∷ ts) h v)

pub All-swap :
    {E : Type 0} (P : E → Triple → Type 0) (ts : List Triple)
    → ((e : E) → All (P e) ts)
    → All (λ t. (e : E) → P e t) ts
All-swap P [] h = tt
All-swap P (t ∷ ts) h = (λ e. (h e).0, All-swap P ts (λ e. (h e).1))

-- What the last of the paths under a key says, if all of them say it.
stored_last :
    (P : Triple → Type 0) (k : ℕ) (ts : List Triple) (o : Option Triple)
    → All (λ t. key_of t ≡ k → P t) ts
    → (Any (λ t. key_of t ≡ k) ts) ⊎ ((t : Triple) × (o ≡ some t) × P t)
    → (t : Triple) × (stored k ts o ≡ some t) × P t
unfolding stored
stored_last P k [] o h (inl a) = absurd a
stored_last P k [] o h (inr r) = r
stored_last P k (t ∷ ts) o h a = elim (Bool-cases (key_of t == k)) [
  | inl e ↦ rw e (stored_last P k ts (some t) h.1 (inr (t, refl, h.0 (==→eq (key_of t) k e))))
  | inr e ↦ rw e (
      stored_last P k ts o h.1 (elim a [
        | inr r ↦ inr r
        | inl (inr b) ↦ inl b
        | inl (inl f) ↦ cc (rw (f, ==_refl k) at e)
      ]))
]

-- A triple of the system, as near as any walk.
abbrev pub IsNearest : List ℕ → List Intf → Graph → List ℕ → Triple → Type 0
IsNearest local is g v t =
    (t.system_id ≡ v)
    × Walk is g local v t.distance
    × ((e : ℕ) → Walk is g local v e → t.distance ≤ e)

nearest :
    (local : List ℕ) (is : List Intf) (g : Graph) (paths : List Triple) (v : List ℕ) (d : ℕ)
    → AreSystems local is g
    → Shortest is g local paths
    → ((u : List ℕ) → occurs u paths ≤ 1)
    → Walk is g local v d
    → All (λ t. key_of t ≡ system_id_to_key v → IsNearest local is g v t) paths
nearest local is g paths v d systems s once walk =
    let E = (e : ℕ) × Walk is g local v e in
    let least =
      All-swap {E = E} (λ p t. t.system_id ≡ v → t.distance ≤ p.0) paths
        (λ p. Covers-All v p.0 paths (once v) (s.minimal v p.0 p.1)) in
    All-imp (λ t. IsWalk is g local t × ((p : E) → t.system_id ≡ v → t.distance ≤ p.0)) _
      (λ t (w, m) k.
        let same =
          system_id_to_key-injective t.system_id v (Walk-IsSystem local is g systems w)
            (Walk-IsSystem local is g systems walk) k in
        (
          same,
          subst (λ (x : List ℕ). Walk is g local x t.distance) same w,
          λ e walk'. m (e, walk') same,
        ))
      paths
      (All-and (IsWalk is g local) (λ t. (p : E) → t.system_id ≡ v → t.distance ≤ p.0) paths s.walks
        least)

-- When the LSP database has exactly one LSP of the node, all LSPs can be read, the metrics are too
-- small to overflow, the topology database is a balanced search tree, no two adjacencies that are up
-- lead to one system and none to the node itself, and all systems are texts of IDs of six bytes:
-- whatever system a walk of the graph leads to, `computeSPF` leaves a triple of it in the topology
-- database under its key, whose distance is the cost of a walk to it, and no walk to it costs less.
pub compute_spf-Walk :
    (n : Node) (topo : Avl Triple) (local : List ℕ) (is : List Intf) (g : Graph) (limit : ℕ)
    (v : List ℕ) (d : ℕ)
    → Describes n local is g limit
    → IsAvl topo
    → Distinct (origin_of local ∷ load_tent is)
    → AreSystems local is g
    → Walk is g local v d
    → Returns
        (compute_spf n topo local is)
        λ r. (t : Triple) × (search r.0 (system_id_to_key v) ≡ some t) × IsNearest local is g v t
compute_spf-Walk n topo local is g limit v d h a distinct systems walk =
    Returns-imp (compute_spf n topo local is) _ _
      (λ r c.
        let once = c.once (Distinct-Once (origin_of local) (load_tent is) distinct) in
        let (t, e, near) =
          stored_last (IsNearest local is g v) (system_id_to_key v) c.paths
            (search topo (system_id_to_key v))
            (nearest local is g c.paths v d systems c.shortest once walk)
            (inl (
              Any-imp (Covers v d) (λ t. key_of t ≡ system_id_to_key v)
                (λ t k. ap system_id_to_key k.0) c.paths (c.shortest.minimal v d walk))) in
        (t, c.installed.topology (system_id_to_key v) ∙ e, near))
      (compute_spf-Computed n topo local is g limit h a)
