-- ===== src/Decision/Install.antt =====
-- The topology database and the routes, out of the paths.
use go_is_is.Common.{
  ℕ, ◌≡◌, refl, ap, subst, ◌∙◌, List, [], ◌∷◌, ◌++◌, true, Option, none, some, Go, ok, panic,
  out_of_fuel, Returns, Returns-bind, Returns-and, Returns-Ensures, Returns-cases, if◌then◌else◌,
  ◌==◌, Option-cases, Bool-cases, inl, inr, ltb, All, All-append_left, All-append_right,
}
use go_is_is.Assoc.{merged}
use go_is_is.Bytes.{bytes_equal}
use go_is_is.Avl.{Avl, AvlNode, nil, node, insert, search}
use go_is_is.Avl.Traverse.{nodes}
use go_is_is.Lsp.{Lsp}
use go_is_is.Avl.Contract.{IsAvl, insert-IsAvl, search-insert}
use go_is_is.SystemId.{system_id_to_key}
use go_is_is.Node.{Node, IpNet}
use go_is_is.Reach.{get_directly_connected_prefixes, lookup_prefixes}
use go_is_is.Decision.{Triple, Route, gateway, routes_over, install_route_from_path, install_paths}

abbrev pub key_of : Triple → ℕ
key_of t = system_id_to_key t.system_id

-- What a key holds after the paths are stored in order.
unfoldable pub stored : ℕ → List Triple → Option Triple → Option Triple
stored k [] o = o
stored k (path ∷ paths) o = stored k paths (if key_of path == k then some path else o)

abbrev pub read_prefixes : Go (List IpNet) → List IpNet
read_prefixes (ok prefixes) = prefixes
read_prefixes panic = []
read_prefixes out_of_fuel = []

-- The routes that the paths call for: to the prefixes of every other system, over the gateway of
-- its path, if that is known.
unfoldable pub route_list : Node → Triple → List Route
route_list n path =
    routes_over (gateway path.adj)
      (read_prefixes (get_directly_connected_prefixes n path.system_id))

unfoldable pub asked : Node → List Triple → List Route
unfolding route_list
asked n [] = []
asked n (path ∷ paths) =
    (if bytes_equal path.system_id n.config.sid then [] else route_list n path) ++ asked n paths

-- No LSP's prefixes make the reader panic.
abbrev pub PrefixesRead : Node → Type 0
PrefixesRead n =
    All (λ x. Returns (lookup_prefixes x.payload.core_lsp.first_tlv) (λ _. Unit {0}))
      (nodes n.update_db)

-- What is found in a tree is the payload of one of its nodes.
search-nodes :
    (P : Lsp → Type 0) (t : Avl Lsp) (k : ℕ) (lsp : Lsp)
    → All (λ x. P x.payload) (nodes t)
    → search t k ≡ some lsp
    → P lsp
unfolding search nodes
search-nodes P nil k lsp h e = cc
search-nodes P (node l q d x r) k lsp h e =
    let right = All-append_right (λ (y : AvlNode Lsp). P y.payload) (nodes l) _ h in
    elim (Bool-cases (q == k)) [
      | inl a ↦ subst P (cc (rw a at e)) right.0
      | inr a ↦ elim (Bool-cases (ltb k q)) [
        | inl b ↦
            search-nodes P l k lsp
              (All-append_left (λ (y : AvlNode Lsp). P y.payload) (nodes l) _ h) (rw (a, b) at e)
        | inr b ↦ search-nodes P r k lsp right.1 (rw (a, b) at e)
      ]
    ]

prefixes_return :
    (n : Node) (v : List ℕ)
    → PrefixesRead n
    → Returns (get_directly_connected_prefixes n v) (λ _. Unit {0})
unfolding get_directly_connected_prefixes
prefixes_return n v read = elim (Option-cases (search n.update_db (system_id_to_key v))) [
  | inl e ↦ rw e tt
  | inr (lsp, e) ↦ rw e (
      search-nodes (λ l. Returns (lookup_prefixes l.core_lsp.first_tlv) (λ _. Unit {0})) n.update_db
        (system_id_to_key v) lsp read e)
]

merged_overwrite : (o : Option Triple) (t : Triple) → merged o t true ≡ t
merged_overwrite none t = refl
merged_overwrite (some old) t = refl

install_route-list :
    (n : Node) (path : Triple)
    → PrefixesRead n
    → install_route_from_path n path ≡ ok (route_list n path)
unfolding install_route_from_path route_list
install_route-list n path read =
    let (prefixes, e, _) =
      Returns-cases (get_directly_connected_prefixes n path.system_id) _
        (prefixes_return n path.system_id read) in
    rw e refl

own_or_route :
    (n : Node) (path : Triple)
    → PrefixesRead n
    → (if bytes_equal path.system_id n.config.sid then ok [] else install_route_from_path n path)
      ≡ ok (if bytes_equal path.system_id n.config.sid then [] else route_list n path)
own_or_route n path read = elim (Bool-cases (bytes_equal path.system_id n.config.sid)) [
  | inl own ↦ rw own refl
  | inr other ↦ rw other (install_route-list n path read)
]

pub record Installed (n : Node) (paths : List Triple) (topo : Avl Triple)
    (r : Avl Triple × List Route) : Type 0 where
  pub valid : IsAvl r.0
  pub topology : (k : ℕ) → search r.0 k ≡ stored k paths (search topo k)
  pub routes : r.1 ≡ asked n paths

pub install_paths-Installed :
    (n : Node) (paths : List Triple) (topo : Avl Triple)
    → PrefixesRead n
    → IsAvl topo
    → Returns (install_paths n paths topo) (Installed n paths topo)
unfolding install_paths stored asked
install_paths-Installed n [] topo read a = record { valid = a; topology = λ k. refl; routes = refl }
install_paths-Installed n (path ∷ paths) topo read a =
    Returns-bind (insert topo (key_of path) path true) _ _ _
      (Returns-and (insert topo (key_of path) path true) _ _
        (insert-IsAvl topo (key_of path) path true a)
        (Returns-Ensures (insert topo (key_of path) path true) _
          (search-insert topo (key_of path) path true a)))
      λ topo' (v, s).
        let (r, e, h) =
          Returns-cases (install_paths n paths topo') _
            (install_paths-Installed n paths topo' read v.0) in
        let found = λ (k : ℕ).
          h.topology k
          ∙ ap (stored k paths)
              (s k ∙ rw (merged_overwrite (search topo (key_of path)) path) refl) in
        let first = if bytes_equal path.system_id n.config.sid then [] else route_list n path in
        rw (own_or_route n path read, e)
          (record {
            valid = h.valid;
            topology = found;
            routes = ap (λ (rs : List Route). first ++ rs) h.routes;
          })
