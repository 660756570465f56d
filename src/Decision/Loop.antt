-- ===== src/Decision/Loop.antt =====
-- The loop of `computeSPF` ends, and the paths that it has found are shortest ones.
use go_is_is.Common.{
  ℕ, zero, suc, ◌+◌, ◌*◌, ◌≤◌, ◌<◌, ◌≡◌, refl, sym, ap, subst, inl, inr, List, [], ◌∷◌, map, Option,
  none, some, Returns, Returns-bind, arith, ltb, ltb→lt, length, length-append, All, All-imp, Any,
  Any-imp, Bool-cases,
}
use go_is_is.Avl.{AvlNode}
use go_is_is.Lsp.{Lsp}
use go_is_is.Node.{Intf}
use go_is_is.Reach.{Neighbor}
use go_is_is.Decision.{
  Triple, Spf, max_uint32, expand_best, spf_round, spf_loop, best_path, load_tent, advertised,
}
use go_is_is.Decision.Graph.{
  Graph, Reads, Edge, Walk, source, first, next, get_adjacencies-links, load_tent-IsAdjacent,
  All-load_tent,
}
use go_is_is.Decision.Tent.{Covers, Covered, fresh}
use go_is_is.Decision.Best.{Above, Chosen, best_path-Chosen, get_elem?-Nearest, remove-Nearest}
use go_is_is.Decision.Round.{systems, work, mul_mono, suc_mul, IsLight, IsWalk, Inv}
use go_is_is.Decision.Step.{after-Inv, work-after}

-- Every path is a walk from the node, with its cost as distance, and to every system that a walk
-- leads to there is a path that is no longer.
pub record Shortest (is : List Intf) (g : Graph) (local : List ℕ) (paths : List Triple)
    : Type 0 where
  pub walks : All (IsWalk is g local) paths
  pub minimal : (v : List ℕ) (d : ℕ) → Walk is g local v d → Any (Covers v d) paths

pub fresh-le : (vs : List (List ℕ)) (paths tent : List Triple) → fresh vs paths tent ≤ length vs
unfolding fresh
fresh-le [] paths tent = omega arith
fresh-le (v ∷ vs) paths tent = ground (arith, fresh-le vs paths tent)

pub length-map {ℓ κ} :
    {A : Type ℓ} {B : Type κ} (f : A → B) (xs : List A) → length (map f xs) ≡ length xs
length-map f [] = refl
length-map f (x ∷ xs) = ap suc (length-map f xs)

pub length-systems :
    (unknown : List (AvlNode Lsp)) (g : Graph)
    → Reads unknown g
    → length (systems g) ≡ advertised unknown
unfolding systems advertised
length-systems [] [] r = refl
length-systems [] (_ ∷ _) r = absurd r
length-systems (_ ∷ _) [] r = absurd r
length-systems (node ∷ unknown) ((u, ns) ∷ g) (e, f, r) = rw f (
    omega (
      arith,
      length-append (map (λ (n : Neighbor). n.system_id) ns) (systems g),
      length-map (λ (n : Neighbor). n.system_id) ns,
      length-systems unknown g r,
    ))

empty_of_length : (ts : List Triple) → length ts ≡ 0 → ts ≡ []
empty_of_length [] e = refl
empty_of_length (t ∷ ts) e = absurd (omega arith)

in_paths :
    (s : Spf)
    → s.tent ≡ []
    → (v : List ℕ) (d : ℕ) → Covered v d s.paths s.tent
    → Any (Covers v d) s.paths
in_paths s e v d (inl a) = a
in_paths s e v d (inr a) = absurd (subst (Any (Covers v d)) e a)

-- A property of all that holds, used at the one that some property singles out.
Any-All :
    (P Q R : Triple → Type 0) (ts : List Triple)
    → ((t : Triple) → P t → Q t → R t)
    → All P ts
    → Any Q ts
    → (t : Triple) × R t
Any-All P Q R [] f a b = absurd b
Any-All P Q R (t ∷ ts) f a (inl q) = (t, f t a.0 q)
Any-All P Q R (t ∷ ts) f a (inr b) = Any-All P Q R ts f a.1 b

module _ (is : List Intf) (g : Graph) (local : List ℕ) (limit : ℕ) (light : IsLight is g limit)
    (unknown : List (AvlNode Lsp)) (reads : Reads unknown g) where
  pub expand-Inv :
      (s : Spf) (cost : ℕ) (best : Option ℕ)
      → Inv is g local limit s
      → 0 < s.tent_size
      → Chosen s.tent (cost, best)
      → Returns
          (expand_best is unknown s (cost, best))
          λ s'. Inv is g local limit s' × (work g s' < work g s)
  unfolding expand_best
  expand-Inv s cost none inv more (e, a) = absurd (far s.tent (omega (arith, inv.size)) a inv.small)
    where
      far :
          (ts : List Triple)
          → 0 < length ts
          → Above max_uint32 ts
          → All (λ t. t.distance + work g s * limit < max_uint32) ts
          → ⊥
      far [] h a b = omega arith
      far (t ∷ ts) h a b = omega (arith, a.0, b.0)
  expand-Inv s cost (some i) inv more n =
      rw
        (
          get_elem?-Nearest s.tent cost i n,
          get_adjacencies-links is n.best unknown g reads,
          remove-Nearest s.tent cost i n,
        )
        (
          after-Inv is g local limit light s cost i n inv,
          omega (arith, work-after is g local limit light s cost i n inv),
        )

  pub spf_round-Inv :
      (s : Spf)
      → Inv is g local limit s
      → 0 < s.tent_size
      → Returns (spf_round is unknown s) λ s'. Inv is g local limit s' × (work g s' < work g s)
  unfolding spf_round
  spf_round-Inv s inv more =
      expand-Inv s (best_path 0 max_uint32 none s.tent).0 (best_path 0 max_uint32 none s.tent).1 inv
        more (best_path-Chosen s.tent)

  -- With nothing tentative, every walk is covered by a path.
  Walk-Covers :
      (s : Spf)
      → Inv is g local limit s
      → s.tent ≡ []
      → {v : List ℕ} {d : ℕ} → Walk is g local v d
      → Any (Covers v d) s.paths
  Walk-Covers s inv e source = in_paths s e local 0 inv.origin
  Walk-Covers s inv e (first {v} {w} a) = in_paths s e v w (inv.firsts v w a)
  Walk-Covers s inv e (next u {v} d w {c} walk edge q) =
      let closed = λ (p : Triple).
        (v' : List ℕ) (w' : ℕ)
        → Edge g p.system_id v' w'
        → Covered v' (p.distance + w') s.paths s.tent in
      let (p, (c', h)) =
        Any-All closed (Covers u d)
          (λ p. Covered v (p.distance + w) s.paths s.tent × (p.distance ≤ d)) s.paths
          (λ p k (f, h). (k v w (subst (λ (x : List ℕ). Edge g x v w) (sym f) edge), h)) inv.closed
          (Walk-Covers s inv e walk) in
      Any-imp (Covers v (p.distance + w)) (Covers v c) (λ t (f, k). (f, omega arith)) s.paths
        (in_paths s e v (p.distance + w) c')

  spf_loop-Shortest :
      (fuel : ℕ) (s : Spf)
      → Inv is g local limit s
      → work g s < fuel
      → Returns (spf_loop fuel is unknown s) (Shortest is g local)
  unfolding spf_loop
  spf_loop-Shortest zero s inv h = absurd (omega arith)
  spf_loop-Shortest (suc fuel) s inv h = elim (Bool-cases (ltb 0 s.tent_size)) [
    | inl more ↦ rw more (
        Returns-bind (spf_round is unknown s) _ _ _
          (spf_round-Inv s inv (ltb→lt 0 s.tent_size more))
          λ s' (inv', fewer). spf_loop-Shortest fuel s' inv' (omega arith))
    | inr stop ↦ rw stop (record {
      walks = inv.paths_walks;
      minimal =
          λ v d walk. Walk-Covers s inv (empty_of_length s.tent (ground (arith, inv.size))) walk;
    })
  ]

  -- The state before the first round.
  pub start-Inv :
      (paths : List Triple)
      → All (λ p. (p.system_id ≡ local) × (p.distance ≡ 0)) paths
      → Any (λ p. (p.system_id ≡ local) × (p.distance ≡ 0)) paths
      → ((v : List ℕ) (w : ℕ) → ¬ Edge g local v w)
      → (length (load_tent is) + advertised unknown + 1) * limit < max_uint32
      → Inv is g local limit
          (record { paths = paths; tent = load_tent is; tent_size = length (load_tent is) })
  start-Inv paths heads own none_of_ours small =
      let tent = load_tent is in
      let head = λ (p : Triple). (p.system_id ≡ local) × (p.distance ≡ 0) in
      let steps = work g (record { paths = paths; tent = tent; tent_size = length tent }) in
      let bound =
        mul_mono (steps + 1) (length tent + advertised unknown + 1) limit
          (omega (arith, fresh-le (systems g) paths tent, length-systems unknown g reads)) in
      record {
        size = refl;
        sorted =
            All-imp head _
              (λ (p : Triple) h.
                All-load_tent (λ v w. p.distance ≤ w) is (λ v w a. omega (arith, h.1)))
              paths heads;
        paths_walks = All-imp head (IsWalk is g local) (λ p (e, f). rw (e, f) source) paths heads;
        tent_walks = All-load_tent (Walk is g local) is (λ v w a. first a);
        origin = inl (Any-imp head (Covers local 0) (λ p (e, f). (e, omega arith)) paths own);
        firsts = λ v w a. inr (
            Any-imp (λ (t : Triple). (t.system_id ≡ v) × (t.distance ≡ w)) (Covers v w)
              (λ t (e, f). (e, omega arith)) tent (load_tent-IsAdjacent is v w a));
        closed =
            All-imp head _
              (λ (p : Triple) (e, f) v w edge.
                absurd (none_of_ours v w (subst (λ (x : List ℕ). Edge g x v w) e edge)))
              paths heads;
        small =
            All-load_tent (λ v d. d + steps * limit < max_uint32) is
              (λ v w a. omega (arith, bound, suc_mul steps limit, light.adjacencies v w a));
      }

  -- With as many rounds as there are adjacencies and advertised neighbors, and one more.
  pub spf_loop-start :
      (paths : List Triple)
      → All (λ p. (p.system_id ≡ local) × (p.distance ≡ 0)) paths
      → Any (λ p. (p.system_id ≡ local) × (p.distance ≡ 0)) paths
      → ((v : List ℕ) (w : ℕ) → ¬ Edge g local v w)
      → (length (load_tent is) + advertised unknown + 1) * limit < max_uint32
      → Returns
          (spf_loop
            (length (load_tent is) + advertised unknown + 1)
            is
            unknown
            (record { paths = paths; tent = load_tent is; tent_size = length (load_tent is) }))
          (Shortest is g local)
  spf_loop-start paths heads own none_of_ours small =
      spf_loop-Shortest _ _ (start-Inv paths heads own none_of_ours small)
        (omega (arith, fresh-le (systems g) paths (load_tent is), length-systems unknown g reads))
