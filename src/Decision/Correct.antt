-- ===== src/Decision/Correct.antt =====
-- `computeSPF` finds shortest paths over the graph that the LSP database describes.
use go_is_is.Common.{
  ℕ, ◌+◌, ◌*◌, ◌≤◌, ◌<◌, ◌≡◌, ◌≢◌, refl, ap, ◌∙◌, inl, inr, List, [], ◌∷◌, ◌++◌, false, Option,
  none, some, Go, ok, panic, out_of_fuel, Returns, Returns-bind, Returns-and, Returns-imp, Ensures,
  arith, length, All, All-append_left, All-append_right, Bool-cases, take-append, drop-append_suc,
}
use go_is_is.Bytes.{bytes_equal}
use go_is_is.Bytes.Equal.{bytes_equal→eq, bytes_equal_refl}
use go_is_is.Avl.{Avl, AvlNode}
use go_is_is.Avl.Contract.{IsAvl}
use go_is_is.Avl.Traverse.{nodes, get_all-nodes}
use go_is_is.Lsp.{Lsp}
use go_is_is.Node.{Node, Intf}
use go_is_is.Decision.{
  Triple, Spf, Route, max_uint32, system_of, find_local, load_tent, advertised, spf_loop,
  install_paths, compute_from, compute_spf,
}
use go_is_is.Decision.Graph.{Graph, Reads, Edge}
use go_is_is.Decision.Round.{IsLight}
use go_is_is.Decision.Loop.{Shortest, spf_loop-start}
use go_is_is.Decision.Once.{Once, occurs, spf_loop-Once}
use go_is_is.Decision.Install.{PrefixesRead, Installed, install_paths-Installed}

-- The database has exactly one LSP of the node itself.
pub record HasOwn (unknown : List (AvlNode Lsp)) (local : List ℕ) : Type 0 where
  pub before : List (AvlNode Lsp)
  pub own : AvlNode Lsp
  pub after : List (AvlNode Lsp)
  pub split : unknown ≡ before ++ own ∷ after
  pub ours : system_of own ≡ local
  pub others : All (λ x. system_of x ≢ local) (before ++ after)

-- The triple of the node itself.
abbrev pub origin_of : List ℕ → Triple
origin_of local = record { system_id = local; distance = 0; adj = none }

not_ours :
    (x : AvlNode Lsp) (local : List ℕ)
    → system_of x ≢ local
    → bytes_equal (system_of x) local ≡ false
not_ours x local h = elim (Bool-cases (bytes_equal (system_of x) local)) [
  | inl e ↦ absurd (h (bytes_equal→eq (system_of x) local e))
  | inr e ↦ e
]

find_local-others :
    (local : List ℕ) (i : ℕ) (paths : List Triple) (index : Option ℕ) (xs ys : List (AvlNode Lsp))
    → All (λ x. system_of x ≢ local) xs
    → find_local local i paths index (xs ++ ys) ≡ find_local local (i + length xs) paths index ys
unfolding find_local
find_local-others local i paths index [] ys h =
    ap (λ (j : ℕ). find_local local j paths index ys) (omega arith)
find_local-others local i paths index (x ∷ xs) ys h =
    rw (not_ours x local h.0, find_local)
      (find_local-others local (i + 1) paths index xs ys h.1
        ∙ ap (λ (j : ℕ). find_local local j paths index ys) (omega arith))

find_local-end :
    (local : List ℕ) (i : ℕ) (paths : List Triple) (index : Option ℕ) (xs : List (AvlNode Lsp))
    → All (λ x. system_of x ≢ local) xs
    → find_local local i paths index xs ≡ (paths, index)
unfolding find_local
find_local-end local i paths index [] h = refl
find_local-end local i paths index (x ∷ xs) h =
    rw (not_ours x local h.0) (find_local-end local (i + 1) paths index xs h.1)

find_local-own :
    (local : List ℕ) (unknown : List (AvlNode Lsp)) (h : HasOwn unknown local)
    → find_local local 0 [] none unknown ≡ (origin_of local ∷ [], some (length h.before))
unfolding find_local
find_local-own local unknown h = rw h.split (
    find_local-others local 0 [] none h.before (h.own ∷ h.after)
      (All-append_left (λ x. system_of x ≢ local) h.before h.after h.others)
    ∙ rw (h.ours, bytes_equal_refl local)
        (find_local-end local _ _ _ h.after
            (All-append_right (λ x. system_of x ≢ local) h.before h.after h.others)
          ∙ ap (λ (j : ℕ). (origin_of local ∷ [], some j)) (omega arith)))

pub no_own-Edge :
    (local : List ℕ) (xs : List (AvlNode Lsp)) (g : Graph)
    → All (λ x. system_of x ≢ local) xs
    → Reads xs g
    → (v : List ℕ) (w : ℕ) → ¬ Edge g local v w
no_own-Edge local [] [] h r v w e = e
no_own-Edge local [] (_ ∷ _) h r v w e = absurd r
no_own-Edge local (_ ∷ _) [] h r v w e = absurd r
no_own-Edge local (x ∷ xs) ((u, ns) ∷ g) h (p, q, r) v w (inl (f, _)) = h.0 (p ∙ f)
no_own-Edge local (x ∷ xs) ((u, ns) ∷ g) h (p, q, r) v w (inr e) =
    no_own-Edge local xs g h.1 r v w e

-- What the run starts from: the graph is what the LSPs of the other nodes describe, and the metrics
-- are too small for any distance to overflow.
pub record Describes (n : Node) (local : List ℕ) (is : List Intf) (g : Graph) (limit : ℕ)
    : Type 0 where
  pub own : HasOwn (nodes n.update_db) local
  pub reads : Reads (own.before ++ own.after) g
  pub light : IsLight is g limit
  pub small :
      (length (load_tent is) + advertised (own.before ++ own.after) + 1) * limit < max_uint32
  pub prefixes : PrefixesRead n

-- What the run leaves, in terms of the paths that it finds.
pub record Computed (n : Node) (local : List ℕ) (is : List Intf) (g : Graph) (topo : Avl Triple)
    (r : Avl Triple × List Route) : Type 0 where
  pub paths : List Triple
  pub shortest : Shortest is g local paths
  pub once : Once (origin_of local ∷ []) (load_tent is) → (v : List ℕ) → occurs v paths ≤ 1
  pub installed : Installed n paths topo r

under {ℓ κ} :
    {A : Type ℓ} (H : Type 0) (m : Go A) (Q : A → Type κ)
    → (H → Ensures m Q)
    → Ensures m (λ a. H → Q a)
under H (ok a) Q h = h
under H panic Q h = tt
under H out_of_fuel Q h = tt

-- The state before the first round, and the rounds.
abbrev pub start_of : List ℕ → List Intf → Spf
start_of local is = record {
  paths = origin_of local ∷ [];
  tent = load_tent is;
  tent_size = length (load_tent is);
}

abbrev pub loop_of :
    (n : Node) (local : List ℕ) (is : List Intf)
    → HasOwn (nodes n.update_db) local
    → Go (List Triple)
loop_of n local is own =
    spf_loop (length (load_tent is) + advertised (own.before ++ own.after) + 1) is
      (own.before ++ own.after) (start_of local is)

-- The paths that a run finds, with what more is known of them.
pub record Found (n : Node) (is : List Intf) (g : Graph) (local : List ℕ) (topo : Avl Triple)
    (Q : List Triple → Type 0) (r : Avl Triple × List Route) : Type 0 where
  pub paths : List Triple
  pub shortest : Shortest is g local paths
  pub known : Q paths
  pub installed : Installed n paths topo r

pub compute_spf-Found :
    (n : Node) (topo : Avl Triple) (local : List ℕ) (is : List Intf) (g : Graph) (limit : ℕ)
    (Q : List Triple → Type 0) (d : Describes n local is g limit)
    → IsAvl topo
    → Ensures (loop_of n local is d.own) Q
    → Returns (compute_spf n topo local is) (Found n is g local topo Q)
unfolding compute_spf compute_from
compute_spf-Found n topo local is g limit Q d a known =
    let others = d.own.before ++ d.own.after in
    let found =
      spf_loop-start is g local limit d.light others d.reads (origin_of local ∷ [])
        ((refl, refl), tt) (inl (refl, refl)) (no_own-Edge local others g d.own.others d.reads)
        d.small in
    rw
      (
        get_all-nodes n.update_db,
        find_local-own local (nodes n.update_db) d.own,
        d.own.split,
        take-append d.own.before (d.own.own ∷ d.own.after),
        drop-append_suc d.own.before d.own.after d.own.own,
      )
      (Returns-bind (loop_of n local is d.own) _ _ _
        (Returns-and (loop_of n local is d.own) _ _ found known)
        λ paths (s, q).
          Returns-imp (install_paths n paths topo) _ _
            (λ r i. record { paths = paths; shortest = s; known = q; installed = i })
            (install_paths-Installed n paths topo d.prefixes a))

-- When the LSP database has exactly one LSP of the node, all LSPs can be read, the metrics are too
-- small to overflow, and the topology database is a balanced search tree, `computeSPF` ends without
-- a panic. The paths that it has found are walks of the graph, one to every system that a walk leads
-- to and no longer than that walk; they are stored in the topology database, the last of a key, and
-- the routes are those that they call for.
pub compute_spf-Computed :
    (n : Node) (topo : Avl Triple) (local : List ℕ) (is : List Intf) (g : Graph) (limit : ℕ)
    → Describes n local is g limit
    → IsAvl topo
    → Returns (compute_spf n topo local is) (Computed n local is g topo)
compute_spf-Computed n topo local is g limit d a =
    let start = start_of local is in
    let loop = loop_of n local is d.own in
    Returns-imp (compute_spf n topo local is) _ _
      (λ r f. record {
        paths = f.paths;
        shortest = f.shortest;
        once = f.known;
        installed = f.installed;
      })
      (compute_spf-Found n topo local is g limit
        (λ paths. Once start.paths start.tent → (v : List ℕ) → occurs v paths ≤ 1) d a
        (under (Once start.paths start.tent) loop (λ paths. (v : List ℕ) → occurs v paths ≤ 1)
          (spf_loop-Once is (d.own.before ++ d.own.after) _ start)))
