-- ===== src/Decision/Ends.antt =====
-- `computeSPF` ends on every LSP database: it returns, or panics on an LSP that it cannot read.
use go_is_is.Common.{
  ℕ, zero, suc, ◌+◌, ◌<◌, ◌≡◌, refl, inl, inr, List, [], ◌∷◌, ◌++◌, Bool, true, false,
  if◌then◌else◌, Option, none, some, ok, Ends, Ends-bind, Ends-bind_Ensures, Returns, Returns-Ends,
  Returns-imp, Returns-Ensures, Ensures, Ensures-bind, arith, ltb, length, take, drop, All,
  Bool-cases,
}
use go_is_is.Bytes.{bytes_equal}
use go_is_is.Avl.{Avl, AvlNode, insert}
use go_is_is.Avl.Contract.{IsAvl, insert-IsAvl}
use go_is_is.Avl.Traverse.{nodes, get_all-nodes}
use go_is_is.Lsp.{Lsp}
use go_is_is.SystemId.{system_id_to_key}
use go_is_is.Node.{Node, Intf}
use go_is_is.Reach.Ends.{get_directly_connected_prefixes-Ends}
use go_is_is.Decision.{
  Triple, Spf, max_uint32, get_adjacencies, expand_best, spf_round, spf_loop, best_path, load_tent,
  advertised, find_local, install_paths, install_route_from_path, compute_from, compute_spf,
  isis_decision,
}
use go_is_is.Decision.Heard.{heard, length-heard, get_adjacencies-Ends, get_adjacencies-Among}
use go_is_is.Decision.Tent.{fresh}
use go_is_is.Decision.Expand.{Among, add_adjacencies-Extended}
use go_is_is.Decision.Best.{Chosen, best_path-Chosen, get_elem?-Nearest, remove-Nearest}
use go_is_is.Decision.Round.{length-Nearest, fresh-move}
use go_is_is.Decision.Loop.{fresh-le}

-- The rounds that are left at most.
abbrev work : List (List ℕ) → Spf → ℕ
work vs s = length s.tent + fresh vs s.paths s.tent

-- A round leaves fewer rounds to come.
abbrev Fewer : List (List ℕ) → Spf → Spf → Type 0
Fewer vs s s' = (s'.tent_size ≡ length s'.tent) × (work vs s' < work vs s)

module _ (is : List Intf) (unknown : List (AvlNode Lsp)) where
  expand_best-Fewer :
      (s : Spf) (cost : ℕ) (best : Option ℕ)
      → s.tent_size ≡ length s.tent
      → Chosen s.tent (cost, best)
      → Ensures (expand_best is unknown s (cost, best)) (Fewer (heard unknown) s)
  unfolding expand_best
  expand_best-Fewer s cost none size n = tt
  expand_best-Fewer s cost (some i) size n =
      rw (get_elem?-Nearest s.tent cost i n, remove-Nearest s.tent cost i n)
        (Ensures-bind (get_adjacencies is n.best unknown) _ (All (Among (heard unknown))) _
          (get_adjacencies-Among is n.best unknown)
          λ found a.
            let x =
              add_adjacencies-Extended (heard unknown) cost n.best.adj found (n.before ++ n.after)
                (s.paths ++ n.best ∷ []) a in
            (
              omega (arith, size, x.size, length-Nearest s.tent cost i n),
              omega (
                arith,
                x.work,
                length-Nearest s.tent cost i n,
                fresh-move (heard unknown) s.paths s.tent cost i n,
              ),
            ))

  expand_best-Ends :
      (s : Spf) (cost : ℕ) (best : Option ℕ)
      → Chosen s.tent (cost, best)
      → Ends (expand_best is unknown s (cost, best))
  unfolding expand_best
  expand_best-Ends s cost none n = tt
  expand_best-Ends s cost (some i) n =
      rw (get_elem?-Nearest s.tent cost i n)
        (Ends-bind _ _ (get_adjacencies-Ends is n.best unknown) λ found. tt)

  spf_loop-Ends :
      (fuel : ℕ) (s : Spf)
      → s.tent_size ≡ length s.tent
      → work (heard unknown) s < fuel
      → Ends (spf_loop fuel is unknown s)
  unfolding spf_loop spf_round
  spf_loop-Ends zero s size h = absurd (omega arith)
  spf_loop-Ends (suc fuel) s size h = elim (Bool-cases (ltb 0 s.tent_size)) [
    | inr stop ↦ rw stop tt
    | inl more ↦
        let best = best_path 0 max_uint32 none s.tent in
        let n = best_path-Chosen s.tent in
        rw more (
          Ends-bind_Ensures (expand_best is unknown s best) _ (Fewer (heard unknown) s)
            (expand_best-Ends s best.0 best.1 n) (expand_best-Fewer s best.0 best.1 size n)
            λ s' (size', fewer). spf_loop-Ends fuel s' size' (omega arith))
  ]

install_route_from_path-Ends : (n : Node) (path : Triple) → Ends (install_route_from_path n path)
unfolding install_route_from_path
install_route_from_path-Ends n path =
    Ends-bind _ _ (get_directly_connected_prefixes-Ends n path.system_id) λ prefixes. tt

install_paths-Ends :
    (n : Node) (paths : List Triple) (topo : Avl Triple)
    → IsAvl topo
    → Ends (install_paths n paths topo)
unfolding install_paths
install_paths-Ends n [] topo a = tt
install_paths-Ends n (path ∷ paths) topo a =
    let stored = insert topo (system_id_to_key path.system_id) path true in
    let inserted : Returns stored IsAvl =
      Returns-imp stored _ _ (λ t p. p.0)
        (insert-IsAvl topo (system_id_to_key path.system_id) path true a) in
    Ends-bind_Ensures stored _ IsAvl (Returns-Ends stored IsAvl inserted)
      (Returns-Ensures stored IsAvl inserted)
      λ topo' a'.
        Ends-bind _ _ (routes path)
          λ routes. Ends-bind _ _ (install_paths-Ends n paths topo' a') λ r. tt
  where
    routes :
        (path : Triple)
        → Ends (
            if bytes_equal path.system_id n.config.sid
            then ok []
            else install_route_from_path n path)
    routes path = elim (Bool-cases (bytes_equal path.system_id n.config.sid)) [
      | inl e ↦ rw e tt
      | inr e ↦ rw e (install_route_from_path-Ends n path)
    ]

compute_from-Ends :
    (n : Node) (topo : Avl Triple) (is : List Intf) (unknown : List (AvlNode Lsp))
    (found : List Triple × Option ℕ)
    → IsAvl topo
    → Ends (compute_from n topo is unknown found)
unfolding compute_from
compute_from-Ends n topo is unknown (paths, none) a = tt
compute_from-Ends n topo is unknown (paths, some i) a =
    let others = take i unknown ++ drop (suc i) unknown in
    let start : Spf = record {
      paths = paths;
      tent = load_tent is;
      tent_size = length (load_tent is);
    } in
    Ends-bind _ _
      (spf_loop-Ends is others (length (load_tent is) + advertised others + 1) start refl
        (omega (arith, fresh-le (heard others) paths (load_tent is), length-heard others)))
      λ paths'. install_paths-Ends n paths' topo a

pub isis_decision-Ends :
    (spf : Bool) (n : Node) (topo : Avl Triple) → IsAvl topo → Ends (isis_decision spf n topo)
unfolding isis_decision compute_spf
isis_decision-Ends false n topo a = tt
isis_decision-Ends true n topo a = rw (get_all-nodes n.update_db) (
    compute_from-Ends n topo n.config.interfaces (nodes n.update_db)
      (find_local n.config.sid 0 [] none (nodes n.update_db)) a)
