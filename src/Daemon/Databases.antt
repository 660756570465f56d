-- ===== src/Daemon/Databases.antt =====
-- What the rounds do to the LSP database and to the topology database.
use go_is_is.Common.{
  ℕ, suc, ◌≡◌, refl, sym, ap, ◌∙◌, List, [], ◌∷◌, Bool, true, false, Option, none, some, Go, ok,
  Ensures, Ensures-bind, Returns-Ensures, Returns-imp, if◌then◌else◌, ◌==◌, ==→eq, ◌&&◌, ◌++◌, ◌+◌,
  length, take, drop, always,
}
use Prim.Native.String.{String}
use go_is_is.Bytes.{bytes_equal}
use go_is_is.Avl.{Avl, AvlNode, search, insert, get_all}
use go_is_is.Avl.Contract.{IsAvl, insert-IsAvl}
use go_is_is.SystemId.{system_id_to_key}
use go_is_is.Lsp.{Lsp}
use go_is_is.Node.{Node}
use go_is_is.Update.{local_lsp}
use go_is_is.Update.Database.{Processed, is_newer}
use go_is_is.Update.Local.{Generated, key-local_lsp}
use go_is_is.Decision.{
  Triple, Route, isis_decision, compute_spf, compute_from, install_paths, install_route_from_path,
  all_nodes, find_local, spf_loop, load_tent, advertised,
}
use go_is_is.Decision.Install.{key_of}

abbrev pub Keyed : (ℕ → Option Lsp) → Type 0
Keyed db = (k : ℕ) (lsp : Lsp) → db k ≡ some lsp → lsp.key ≡ k

-- An LSP put in at keys that are its own.
put-Keyed :
    (db : ℕ → Option Lsp) (lsp : Lsp) (k : ℕ) (at_key : Bool)
    → (at_key ≡ true → lsp.key ≡ k)
    → Keyed db
    → (l : Lsp) → (if at_key then some lsp else db k) ≡ some l
    → l.key ≡ k
put-Keyed db lsp k true own old l e = ap (λ (o : Option Lsp). key_in o) (sym e) ∙ own refl
  where
    key_in : Option Lsp → ℕ
    key_in none = 0
    key_in (some x) = x.key
put-Keyed db lsp k false own old l e = old k l e

pub and_left : (a b : Bool) → (a && b) ≡ true → a ≡ true
and_left true b e = refl
and_left false b e = e

pub Keyed-Processed :
    (name : String) (lsp : Lsp) (n : Node) (r : Node × Bool)
    → Processed name lsp n r
    → Keyed (search n.update_db)
    → Keyed (search r.0.update_db)
Keyed-Processed name lsp n r p old k l e =
    let newer = is_newer (search n.update_db lsp.key) lsp in
    put-Keyed (search n.update_db) lsp k (lsp.key == k && newer)
      (λ t. ==→eq lsp.key k (and_left (lsp.key == k) newer t)) old l (sym (p.stored k) ∙ e)

pub Keyed-Generated :
    (n n' : Node) → Generated n n' → Keyed (search n.update_db) → Keyed (search n'.update_db)
Keyed-Generated n n' g old k l e =
    let own = system_id_to_key n.config.sid in
    put-Keyed (search n.update_db) (local_lsp n) k (own == k) (λ t. key-local_lsp n ∙ ==→eq own k t)
      old l (sym (g.stored k) ∙ e)

install_paths-IsAvl :
    (n : Node) (paths : List Triple) (topo : Avl Triple)
    → IsAvl topo
    → Ensures (install_paths n paths topo) λ r. IsAvl r.0
unfolding install_paths
install_paths-IsAvl n [] topo a = a
install_paths-IsAvl n (path ∷ paths) topo a =
    Ensures-bind (insert topo (key_of path) path true) _ IsAvl _
      (Returns-Ensures (insert topo (key_of path) path true) IsAvl (
        Returns-imp (insert topo (key_of path) path true) _ _ (λ t p. p.0)
          (insert-IsAvl topo (key_of path) path true a)))
      λ topo' a'.
        let routes : Go (List Route) =
          if bytes_equal path.system_id n.config.sid
          then ok []
          else install_route_from_path n path in
        Ensures-bind routes _ (λ _. Unit {0}) _ (always routes _ (λ _. tt))
          λ rs _.
            Ensures-bind (install_paths n paths topo') _ (λ r. IsAvl r.0) _
              (install_paths-IsAvl n paths topo' a') λ r b. b

pub isis_decision-IsAvl :
    (spf : Bool) (n : Node) (topo : Avl Triple)
    → IsAvl topo
    → Ensures (isis_decision spf n topo) λ r. IsAvl r.0
unfolding isis_decision compute_spf compute_from
isis_decision-IsAvl false n topo a = a
isis_decision-IsAvl true n topo a =
    Ensures-bind (all_nodes (get_all n.update_db)) _ (λ _. Unit {0}) _
      (always (all_nodes (get_all n.update_db)) _ (λ _. tt))
      λ unknown _. go unknown (find_local n.config.sid 0 [] none unknown)
  where
    go :
        (unknown : List (AvlNode Lsp)) (found : List Triple × Option ℕ)
        → Ensures (compute_from n topo n.config.interfaces unknown found) λ r. IsAvl r.0
    go unknown (paths, none) = a
    go unknown (paths, some i) =
        let loop =
          spf_loop
            (length (load_tent n.config.interfaces)
              + advertised (take i unknown ++ drop (suc i) unknown)
              + 1)
            n.config.interfaces (take i unknown ++ drop (suc i) unknown)
            (record {
              paths = paths;
              tent = load_tent n.config.interfaces;
              tent_size = length (load_tent n.config.interfaces);
            }) in
        Ensures-bind loop _ (λ _. Unit {0}) _ (always loop _ (λ _. tt))
          λ paths' _. install_paths-IsAvl n paths' topo a
