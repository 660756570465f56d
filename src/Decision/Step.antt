-- ===== src/Decision/Step.antt =====
-- The loop of `computeSPF` keeps its invariant, falls in its measure, and does not panic.
use go_is_is.Common.{
  ℕ, ◌+◌, ◌-◌, ◌*◌, ◌^◌, ◌≤◌, ◌<◌, ◌≡◌, refl, sym, subst, List, [], ◌∷◌, ◌++◌, arith, All,
  All-append, All-imp, Any,
}
use go_is_is.Node.{Intf}
use go_is_is.Decision.{Triple, Spf, max_uint32, add_distance, add_adjacencies}
use go_is_is.Decision.Graph.{Graph, Edge, Walk, next, links, links-Edge, All-links}
use go_is_is.Decision.Tent.{Covered}
use go_is_is.Decision.Expand.{
  Extended, add_adjacencies-Extended, All-add_adjacencies, Covered-add_adjacencies,
}
use go_is_is.Decision.Best.{Above, Nearest}
use go_is_is.Decision.Round.{
  systems, Edge-systems, mul_mono, suc_mul, All-Nearest, length-Nearest, Covered-move, fresh-move,
  work, IsLight, Inv,
}

module _ (is : List Intf) (g : Graph) (local : List ℕ) (limit : ℕ)
    (light : IsLight is g limit) where
  module _ (s : Spf) (cost i : ℕ) (n : Nearest s.tent cost i) (inv : Inv is g local limit s) where
    abbrev pub rest : List Triple
    rest = n.before ++ n.after

    abbrev pub paths : List Triple
    paths = s.paths ++ n.best ∷ []

    abbrev pub found : List Triple
    found = links is n.best.system_id g

    abbrev pub result : List Triple × ℕ
    result = add_adjacencies cost n.best.adj found rest paths

    -- The state after the round.
    abbrev pub after : Spf
    after = record { paths = paths; tent = result.0; tent_size = s.tent_size - 1 + result.1 }

    extended : Extended (systems g) paths rest result.0 result.1
    extended = add_adjacencies-Extended (systems g) cost n.best.adj found rest paths (
        All-links (λ v w. Any (λ x. x ≡ v) (systems g)) is n.best.system_id g
          (λ v w e. Edge-systems g n.best.system_id v w e))

    pub work-after : work g after + 1 ≤ work g s
    work-after = omega (
      arith,
      extended.work,
      length-Nearest s.tent cost i n,
      fresh-move (systems g) s.paths s.tent cost i n,
    )

    near : All (λ p. p.distance ≤ cost) paths
    near =
        All-append _ s.paths (n.best ∷ [])
          (All-imp _ (λ (p : Triple). p.distance ≤ cost)
            (λ p a.
              omega (
                arith,
                (All-Nearest (λ t. p.distance ≤ t.distance) s.tent cost i n a).0,
                n.cost_of,
              ))
            s.paths inv.sorted)
          (omega (arith, n.cost_of), tt)

    best_small : cost + limit + work g after * limit < max_uint32
    best_small = omega (
      arith,
      (All-Nearest (λ t. t.distance + work g s * limit < max_uint32) s.tent cost i n inv.small).0,
      n.cost_of,
      mul_mono (work g after + 1) (work g s) limit work-after,
      suc_mul (work g after) limit,
    )

    -- No metric makes the sum with the cost of the round overflow.
    pub sum : (v : List ℕ) (w : ℕ) → Edge g n.best.system_id v w → add_distance w cost ≡ cost + w
    sum v w e = omega (arith, light.edges n.best.system_id v w e, best_small)

    -- What holds for the distances over the new edges and in the old list holds in the new one.
    All-result :
        (P : List ℕ → ℕ → Type 0)
        → ((v : List ℕ) (w : ℕ) → Edge g n.best.system_id v w → P v (cost + w))
        → All (λ t. P t.system_id t.distance) s.tent
        → All (λ t. P t.system_id t.distance) result.0
    All-result P new old =
        All-add_adjacencies P cost n.best.adj found rest paths
          (All-links (λ v w. P v (add_distance w cost)) is n.best.system_id g
            (λ v w e. subst (P v) (sym (sum v w e)) (new v w e)))
          (All-Nearest (λ t. P t.system_id t.distance) s.tent cost i n old).1

    kept : (v : List ℕ) (d : ℕ) → Covered v d s.paths s.tent → Covered v d paths result.0
    kept v d c = extended.covers v d (Covered-move v d s.paths s.tent cost i n c)

    best-Walk : Walk is g local n.best.system_id cost
    best-Walk =
        subst (Walk is g local n.best.system_id) n.cost_of
          (All-Nearest (λ t. Walk is g local t.system_id t.distance) s.tent cost i n
            inv.tent_walks).0

    relaxed :
        (v : List ℕ) (w : ℕ)
        → Edge g n.best.system_id v w
        → Covered v (n.best.distance + w) paths result.0
    relaxed v w e =
        subst (λ (c : ℕ). Covered v (c + w) paths result.0) (sym n.cost_of)
          (Covered-add_adjacencies (systems g) cost n.best.adj found rest paths v w
            (All-links (λ v' w'. Any (λ x. x ≡ v') (systems g)) is n.best.system_id g
              (λ v' w' e'. Edge-systems g n.best.system_id v' w' e'))
            near
            (All-links (λ v' w'. w' + cost < 2 ^ 32) is n.best.system_id g
              (λ v' w' e'. omega (arith, light.edges n.best.system_id v' w' e', best_small)))
            (links-Edge is n.best.system_id v w g e))

    pub after-Inv : Inv is g local limit after
    after-Inv =
        let above = All-result (λ v d. cost ≤ d) (λ v w e. omega arith) n.above in
        record {
          size = omega (arith, inv.size, extended.size, length-Nearest s.tent cost i n);
          sorted =
              All-imp _ (λ (p : Triple). Above p.distance result.0)
                (λ p h.
                  All-imp (λ (t : Triple). cost ≤ t.distance) (λ t. p.distance ≤ t.distance)
                    (λ t k. omega arith) result.0 above)
                paths near;
          paths_walks =
              All-append _ s.paths (n.best ∷ []) inv.paths_walks
                (subst (Walk is g local n.best.system_id) (sym n.cost_of) best-Walk, tt);
          tent_walks =
              All-result (Walk is g local) (λ v w e. next n.best.system_id cost w best-Walk e refl)
                inv.tent_walks;
          origin = kept local 0 inv.origin;
          firsts = λ v w a. kept v w (inv.firsts v w a);
          closed =
              All-append _ s.paths (n.best ∷ [])
                (All-imp _ _ (λ p c v w e. kept v (p.distance + w) (c v w e)) s.paths inv.closed)
                (relaxed, tt);
          small =
              All-result (λ v d. d + work g after * limit < max_uint32)
                (λ v w e. omega (arith, light.edges n.best.system_id v w e, best_small))
                (All-imp _ (λ (t : Triple). t.distance + work g after * limit < max_uint32)
                  (λ t h.
                    omega
                      (arith, mul_mono (work g after) (work g s) limit (omega (arith, work-after))))
                  s.tent inv.small);
        }
