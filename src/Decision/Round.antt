-- ===== src/Decision/Round.antt =====
-- A round of the loop of `computeSPF` keeps what makes the paths shortest.
use go_is_is.Common.{
  ℕ, ◌+◌, ◌*◌, ◌≤◌, ◌<◌, ◌≡◌, ap, subst, inl, inr, List, [], ◌∷◌, ◌++◌, map, arith, length,
  length-append, All, All-append, All-append_left, All-append_right, Any, Any-append_left,
  Any-append_right, Any-append_cases,
}
use go_is_is.Node.{Intf}
use go_is_is.Reach.{Neighbor}
use go_is_is.Decision.{Triple, Spf, max_uint32}
use go_is_is.Decision.Graph.{Graph, HasNeighbor, Edge, IsAdjacent, Walk}
use go_is_is.Decision.Tent.{Covers, Covered, fresh, fresh_ext, is_known, is_known-append}
use go_is_is.Decision.Best.{Above, Nearest}

-- The systems that the LSPs name as neighbors.
unfoldable pub systems : Graph → List (List ℕ)
systems [] = []
systems ((u, ns) ∷ g) = map (λ n. n.system_id) ns ++ systems g

HasNeighbor-systems :
    (ns : List Neighbor) (v : List ℕ) (w : ℕ)
    → HasNeighbor ns v w
    → Any (λ x. x ≡ v) (map (λ n. n.system_id) ns)
HasNeighbor-systems [] v w h = absurd h
HasNeighbor-systems (n ∷ ns) v w (inl p) = inl p.0
HasNeighbor-systems (n ∷ ns) v w (inr h) = inr (HasNeighbor-systems ns v w h)

pub Edge-systems : (g : Graph) (u v : List ℕ) (w : ℕ) → Edge g u v w → Any (λ x. x ≡ v) (systems g)
unfolding systems
Edge-systems [] u v w e = absurd e
Edge-systems ((x, ns) ∷ g) u v w (inl (_, h)) =
    Any-append_left _ _ (systems g) (HasNeighbor-systems ns v w h)
Edge-systems ((x, ns) ∷ g) u v w (inr e) =
    Any-append_right _ (map (λ (n : Neighbor). n.system_id) ns) _ (Edge-systems g u v w e)

pub mul_mono : (a b m : ℕ) → a ≤ b → a * m ≤ b * m
mul_mono a b m h = grind arith

pub suc_mul : (k m : ℕ) → (k + 1) * m ≡ k * m + m
suc_mul k m = grind arith

-- The entry taken and those left behind, out of what holds for the whole list.
pub All-Nearest :
    (P : Triple → Type 0) (ts : List Triple) (cost i : ℕ) (n : Nearest ts cost i)
    → All P ts
    → P n.best × All P (n.before ++ n.after)
All-Nearest P ts cost i n a =
    let a' : All P (n.before ++ n.best ∷ n.after) = subst (All P) n.split a in
    let right = All-append_right P n.before (n.best ∷ n.after) a' in
    (
      right.0,
      All-append P n.before n.after (All-append_left P n.before (n.best ∷ n.after) a') right.1,
    )

pub length-Nearest :
    (ts : List Triple) (cost i : ℕ) (n : Nearest ts cost i)
    → length (n.before ++ n.after) + 1 ≡ length ts
length-Nearest ts cost i n = omega (
  arith,
  ap length n.split,
  length-append n.before n.after,
  length-append n.before (n.best ∷ n.after),
)

-- What was in one of the lists still is when an entry moves from the second to the first.
pub Covered-move :
    (v : List ℕ) (d : ℕ) (paths ts : List Triple) (cost i : ℕ) (n : Nearest ts cost i)
    → Covered v d paths ts
    → Covered v d (paths ++ n.best ∷ []) (n.before ++ n.after)
Covered-move v d paths ts cost i n (inl a) = inl (Any-append_left _ paths _ a)
Covered-move v d paths ts cost i n (inr a) =
    elim (Any-append_cases (Covers v d) n.before (n.best ∷ n.after)
      (subst (Any (Covers v d)) n.split a)) [
        | inl b ↦ inr (Any-append_left _ n.before _ b)
        | inr (inl b) ↦ inl (Any-append_right _ paths _ (inl b))
        | inr (inr b) ↦ inr (Any-append_right _ n.before _ b)
      ]

pub fresh-move :
    (vs : List (List ℕ)) (paths ts : List Triple) (cost i : ℕ) (n : Nearest ts cost i)
    → fresh vs (paths ++ n.best ∷ []) (n.before ++ n.after) ≡ fresh vs paths ts
unfolding is_known
fresh-move vs paths ts cost i n =
    fresh_ext vs paths ts (paths ++ n.best ∷ []) (n.before ++ n.after) λ v.
      rw
        (
          n.split,
          is_known-append v paths (n.best ∷ []),
          is_known-append v n.before n.after,
          is_known-append v n.before (n.best ∷ n.after),
        )
        (ground arith)

-- The rounds that are left at most.
abbrev pub work : Graph → Spf → ℕ
work g s = length s.tent + fresh (systems g) s.paths s.tent

-- `limit` bounds all metrics.
pub record IsLight (is : List Intf) (g : Graph) (limit : ℕ) : Type 0 where
  pub edges : (u v : List ℕ) (w : ℕ) → Edge g u v w → w ≤ limit
  pub adjacencies : (v : List ℕ) (w : ℕ) → IsAdjacent is v w → w ≤ limit

-- The triple's distance is the cost of a walk to its system.
abbrev pub IsWalk : List Intf → Graph → List ℕ → Triple → Type 0
IsWalk is g local t = Walk is g local t.system_id t.distance

module _ (is : List Intf) (g : Graph) (local : List ℕ) (limit : ℕ) where
  -- Paths are nearer than what is tentative; both are walks; whatever one edge from a path or an
  -- adjacency leads to is in the lists, no farther away; and no distance can overflow.
  pub record Inv (s : Spf) : Type 0 where
    pub size : s.tent_size ≡ length s.tent
    pub sorted : All (λ p. Above p.distance s.tent) s.paths
    pub paths_walks : All (IsWalk is g local) s.paths
    pub tent_walks : All (IsWalk is g local) s.tent
    pub origin : Covered local 0 s.paths s.tent
    pub firsts : (v : List ℕ) (w : ℕ) → IsAdjacent is v w → Covered v w s.paths s.tent
    pub closed :
        All
          (λ p.
            (v : List ℕ) (w : ℕ)
            → Edge g p.system_id v w
            → Covered v (p.distance + w) s.paths s.tent)
          s.paths
    pub small : All (λ t. t.distance + work g s * limit < max_uint32) s.tent
