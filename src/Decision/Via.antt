-- ===== src/Decision/Via.antt =====
-- The next hop of a path, where all metrics are the same: the adjacency that its walk starts with.
use go_is_is.Common.{
  ℕ, zero, suc, ◌+◌, ◌≤◌, ◌≡◌, refl, subst, inl, inr, List, [], ◌∷◌, ◌++◌, Option, none, some,
  Returns-Ensures, Ensures, Ensures-bind, Ensures-imp, Ensures-and, arith, ltb, ltb→lt, length, All,
  All-append, All-and, All-imp, Bool-cases,
}
use go_is_is.Avl.{AvlNode}
use go_is_is.Lsp.{Lsp}
use go_is_is.Node.{Intf, Adjacency}
use go_is_is.Decision.{
  Triple, Spf, max_uint32, add_distance, expand_best, spf_round, spf_loop, best_path, load_tent,
}
use go_is_is.Decision.Graph.{Graph, Reads, Edge, links, All-links, get_adjacencies-links}
use go_is_is.Decision.Best.{Chosen, best_path-Chosen, get_elem?-Nearest, remove-Nearest}
use go_is_is.Decision.Round.{All-Nearest, IsLight, Inv}
use go_is_is.Decision.Step.{sum}
use go_is_is.Decision.Loop.{spf_round-Inv}
use go_is_is.Decision.Hop.{
  here, onward, HasHop, IsVia, IsUniform, add_adjacencies-far, load_tent-IsUsable,
}

module _ (is : List Intf) (g : Graph) (metric : ℕ) (uniform : IsUniform is g metric) where
  -- What is tentative has a next hop, and lies in a band that is one metric wide.
  abbrev InBand : ℕ → Triple → Type 0
  InBand c t =
      HasHop is g t.system_id t.distance t.adj × (c ≤ t.distance) × (t.distance ≤ c + metric)

  pub record Hops (s : Spf) : Type 0 where
    pub paths_via : All (IsVia is g) s.paths
    pub from_cost : ℕ
    pub band : All (InBand from_cost) s.tent

  HasHop-Edge :
      (u v : List ℕ) (d w : ℕ) (a : Option Adjacency)
      → HasHop is g u d a
      → Edge g u v w
      → HasHop is g v (d + w) a
  HasHop-Edge u v d w none h e = h
  HasHop-Edge u v d w (some a) h e = record {
    usable = h.usable;
    cost = h.cost + w;
    walk = onward u h.cost w h.walk e refl;
    total = omega (arith, h.total);
  }

  pub load_tent-Hops :
      (paths : List Triple)
      → All (IsVia is g) paths
      → Hops (record { paths = paths; tent = load_tent is; tent_size = length (load_tent is) })
  load_tent-Hops paths v = record {
    paths_via = v;
    from_cost = 0;
    band = load_tent-IsUsable (InBand 0) is (λ a u. (
      record { usable = u; cost = 0; walk = here; total = omega arith },
      omega arith,
      omega (arith, uniform.adjacencies a u),
    ));
  }

  module _ (local : List ℕ) (limit : ℕ) (light : IsLight is g limit) (unknown : List (AvlNode Lsp))
      (reads : Reads unknown g) where
    expand-Hops :
        (s : Spf) (cost : ℕ) (best : Option ℕ)
        → Inv is g local limit s
        → Chosen s.tent (cost, best)
        → Hops s
        → Ensures (expand_best is unknown s (cost, best)) Hops
    unfolding expand_best
    expand-Hops s cost none inv n h = tt
    expand-Hops s cost (some i) inv n h =
        let (best, others) = All-Nearest (InBand h.from_cost) s.tent cost i n h.band in
        let above = (All-Nearest (λ t. cost ≤ t.distance) s.tent cost i n n.above).1 in
        let rest = n.before ++ n.after in
        let paths = s.paths ++ n.best ∷ [] in
        let found = links is n.best.system_id g in
        let next = λ (v : List ℕ) (w : ℕ) (e : Edge g n.best.system_id v w).
          sum is g local limit light s cost i n inv v w e in
        rw
          (
            get_elem?-Nearest s.tent cost i n,
            get_adjacencies-links is n.best unknown g reads,
            remove-Nearest s.tent cost i n,
          )
          (record {
            paths_via = All-append (IsVia is g) s.paths (n.best ∷ []) h.paths_via (inr best.0, tt);
            from_cost = cost;
            band =
                add_adjacencies-far (InBand cost) cost n.best.adj (cost + metric) (λ t k. k.2) found
                  rest paths
                  (All-links
                    (λ v w.
                      (add_distance w cost ≡ cost + metric)
                      × InBand cost (record {
                        system_id = v;
                        distance = add_distance w cost;
                        adj = n.best.adj;
                      }))
                    is n.best.system_id g
                    (λ v w e.
                      let far = next v w e in
                      let same : n.best.distance + w ≡ add_distance w cost =
                        omega (arith, n.cost_of, far) in
                      let same_metric = uniform.edges n.best.system_id v w e in
                      (
                        omega arith,
                        (
                          subst (λ (d : ℕ). HasHop is g v d n.best.adj) same
                              (HasHop-Edge n.best.system_id v n.best.distance w n.best.adj best.0
                                e),
                          omega arith,
                          omega arith,
                        ),
                      )))
                  (All-imp (λ t. InBand h.from_cost t × (cost ≤ t.distance)) (InBand cost)
                    (λ t ((hop, low, high), near). (hop, near, omega (arith, best.1, n.cost_of)))
                    rest (All-and (InBand h.from_cost) (λ t. cost ≤ t.distance) rest others above));
          })

    -- If it holds before the loop, every path that is found has the next hop that its walk starts with.
    pub spf_loop-Hops :
        (fuel : ℕ) (s : Spf)
        → Inv is g local limit s
        → Hops s
        → Ensures (spf_loop fuel is unknown s) (All (IsVia is g))
    unfolding spf_loop spf_round
    spf_loop-Hops zero s inv h = tt
    spf_loop-Hops (suc fuel) s inv h = elim (Bool-cases (ltb 0 s.tent_size)) [
      | inr stop ↦ rw stop h.paths_via
      | inl more ↦ rw more (
          let round = spf_round is unknown s in
          let kept = Returns-Ensures round _ (
            spf_round-Inv is g local limit light unknown reads s inv (ltb→lt 0 s.tent_size more)) in
          let hops =
            expand-Hops s (best_path 0 max_uint32 none s.tent).0
              (best_path 0 max_uint32 none s.tent).1 inv (best_path-Chosen s.tent) h in
          Ensures-bind round _ (λ s'. Inv is g local limit s' × Hops s') _
            (Ensures-and round (Inv is g local limit) Hops
              (Ensures-imp round _ _ (λ s' p. p.0) kept) hops)
            λ s' (inv', h'). spf_loop-Hops fuel s' inv' h')
    ]
