-- ===== src/Decision/Heard.antt =====
-- The neighbors that the LSPs are read to have, and that `getAdjacencies` ends and gives only these.
use go_is_is.Common.{
  ℕ, ◌+◌, ◌≡◌, refl, inl, inr, List, [], ◌∷◌, ◌++◌, map, Go, ok, panic, out_of_fuel, Ends,
  Ends-bind, Ensures, Ensures-bind, Ensures-imp, arith, length, length-append, All, All-append,
  All-imp, Any-append_left, Any-append_right, Bool-cases, ◌>>=◌,
}
use go_is_is.Bytes.{bytes_equal}
use go_is_is.Avl.{AvlNode}
use go_is_is.Lsp.{Lsp}
use go_is_is.Node.{Intf}
use go_is_is.Reach.{Neighbor, lookup_neighbors}
use go_is_is.Reach.Ends.{lookup_neighbors-Ends}
use go_is_is.Decision.{Triple, system_of, triple_to, get_adjacencies, advertised, neighbor_count}
use go_is_is.Decision.Expand.{Among}
use go_is_is.Decision.Loop.{length-map}

-- The systems of the neighbors that an LSP is read to have.
abbrev ids : Go (List Neighbor) → List (List ℕ)
ids (ok ns) = map (λ n. n.system_id) ns
ids panic = []
ids out_of_fuel = []

unfoldable pub heard : List (AvlNode Lsp) → List (List ℕ)
unfolding lookup_neighbors
heard [] = []
heard (node ∷ unknown) = ids (lookup_neighbors node.payload.core_lsp.first_tlv) ++ heard unknown

pub length-heard : (unknown : List (AvlNode Lsp)) → length (heard unknown) ≡ advertised unknown
unfolding heard advertised
length-heard [] = refl
length-heard (node ∷ unknown) =
    go (lookup_neighbors node.payload.core_lsp.first_tlv) (length-heard unknown)
  where
    go :
        (m : Go (List Neighbor))
        → length (heard unknown) ≡ advertised unknown
        → length (ids m ++ heard unknown) ≡ neighbor_count m + advertised unknown
    go (ok ns) h = omega (
      arith,
      length-append (map (λ (n : Neighbor). n.system_id) ns) (heard unknown),
      length-map (λ (n : Neighbor). n.system_id) ns,
      h,
    )
    go panic h = omega (arith, h)
    go out_of_fuel h = omega (arith, h)

Among-triples :
    (is : List Intf) (ns : List Neighbor)
    → All (Among (map (λ (n : Neighbor). n.system_id) ns)) (map (triple_to is) ns)
Among-triples is [] = tt
Among-triples is (n ∷ ns) = (
  inl refl,
  All-imp (Among (map (λ (n : Neighbor). n.system_id) ns)) _ (λ t a. inr a) (map (triple_to is) ns)
      (Among-triples is ns),
)

pub get_adjacencies-Ends :
    (is : List Intf) (source : Triple) (unknown : List (AvlNode Lsp))
    → Ends (get_adjacencies is source unknown)
unfolding get_adjacencies
get_adjacencies-Ends is source [] = tt
get_adjacencies-Ends is source (node ∷ unknown) =
    elim (Bool-cases (bytes_equal source.system_id (system_of node))) [
      | inr e ↦ rw e (get_adjacencies-Ends is source unknown)
      | inl e ↦ rw e (
          Ends-bind _ _ (lookup_neighbors-Ends node.payload.core_lsp.first_tlv)
            λ ns. Ends-bind _ _ (get_adjacencies-Ends is source unknown) λ trips. tt)
    ]

pub get_adjacencies-Among :
    (is : List Intf) (source : Triple) (unknown : List (AvlNode Lsp))
    → Ensures (get_adjacencies is source unknown) (All (Among (heard unknown)))
unfolding get_adjacencies heard
get_adjacencies-Among is source [] = tt
get_adjacencies-Among is source (node ∷ unknown) =
    let found = lookup_neighbors node.payload.core_lsp.first_tlv in
    let later : Ensures (get_adjacencies is source unknown)
        (All (Among (ids found ++ heard unknown))) =
      Ensures-imp (get_adjacencies is source unknown) (All (Among (heard unknown))) _
        (λ ts a.
          All-imp (Among (heard unknown)) _
            (λ t b. Any-append_right _ (ids found) (heard unknown) b) ts a)
        (get_adjacencies-Among is source unknown) in
    elim (Bool-cases (bytes_equal source.system_id (system_of node))) [
      | inr e ↦ rw e later
      | inl e ↦ rw e (go found later)
    ]
  where
    go :
        (m : Go (List Neighbor))
        → Ensures (get_adjacencies is source unknown) (All (Among (ids m ++ heard unknown)))
        → Ensures
            (m >>= λ ns.
              get_adjacencies is source unknown >>= λ trips. ok (map (triple_to is) ns ++ trips))
            (All (Among (ids m ++ heard unknown)))
    go panic h = tt
    go out_of_fuel h = tt
    go (ok ns) h = Ensures-bind (get_adjacencies is source unknown) _ _ _ h λ trips a.
        All-append _ (map (triple_to is) ns) trips
          (All-imp (Among (map (λ (n : Neighbor). n.system_id) ns)) _
            (λ t b. Any-append_left _ _ (heard unknown) b) (map (triple_to is) ns)
            (Among-triples is ns))
          a
