-- ===== src/Decision/Once.antt =====
-- No system enters the lists twice, unless two adjacencies lead to it.
use go_is_is.Common.{
  ℕ, zero, suc, ◌+◌, ◌≤◌, ◌≡◌, refl, ap, inl, inr, List, [], ◌∷◌, ◌++◌, false, Option, none, some,
  Ensures, Ensures-bind, arith, ltb, if◌then◌else◌, Bool-cases, always,
}
use go_is_is.Bytes.{bytes_equal}
use go_is_is.Bytes.Equal.{bytes_equal→eq}
use go_is_is.Avl.{AvlNode}
use go_is_is.Lsp.{Lsp}
use go_is_is.Node.{Intf, Adjacency}
use go_is_is.Decision.{
  Triple, Spf, max_uint32, update_tent, add_adj_to_tent, add_adjacencies, get_adjacencies,
  expand_best, spf_round, spf_loop, best_path,
}
use go_is_is.Decision.Tent.{is_known, add_adj_to_tent-cases}
use go_is_is.Decision.Best.{Nearest, Chosen, best_path-Chosen, get_elem?-Nearest, remove-Nearest}

-- How often a system stands in a list.
unfoldable pub occurs : List ℕ → List Triple → ℕ
unfolding bytes_equal
occurs v [] = 0
occurs v (t ∷ ts) = (if bytes_equal v t.system_id then 1 else 0) + occurs v ts

pub occurs-append :
    (v : List ℕ) (xs ys : List Triple) → occurs v (xs ++ ys) ≡ occurs v xs + occurs v ys
unfolding occurs
occurs-append v [] ys = omega arith
occurs-append v (x ∷ xs) ys = omega (arith, occurs-append v xs ys)

occurs-update_tent :
    (v : List ℕ) (c : ℕ) (nb : Triple) (tent : List Triple)
    → occurs v (update_tent c nb tent) ≡ occurs v tent
unfolding occurs update_tent
occurs-update_tent v c nb [] = refl
occurs-update_tent v c nb (t ∷ tent) =
    rw (occurs-update_tent v c nb tent) (elim (Bool-cases (bytes_equal nb.system_id t.system_id)) [
      | inl e ↦ rw e refl
      | inr e ↦ rw e refl
    ])

pub occurs-unknown : (v : List ℕ) (ts : List Triple) → is_known v ts ≡ false → occurs v ts ≡ 0
unfolding occurs is_known
occurs-unknown v [] k = refl
occurs-unknown v (t ∷ ts) k = elim (Bool-cases (bytes_equal v t.system_id)) [
  | inl e ↦ cc (rw e at k)
  | inr e ↦ rw e (omega (arith, occurs-unknown v ts (rw e at k)))
]

abbrev pub Once : List Triple → List Triple → Type 0
Once paths tent = (v : List ℕ) → occurs v paths + occurs v tent ≤ 1

Once-append :
    (paths tent : List Triple) (t : Triple)
    → is_known t.system_id paths ≡ false
    → is_known t.system_id tent ≡ false
    → Once paths tent
    → Once paths (tent ++ t ∷ [])
unfolding occurs
Once-append paths tent t p q h v = elim (Bool-cases (bytes_equal v t.system_id)) [
  | inr e ↦ rw (occurs-append v tent (t ∷ []), e) (omega (arith, h v))
  | inl e ↦
      rw (occurs-append v tent (t ∷ []), e)
        (omega (
          arith,
          ap (λ (x : List ℕ). occurs x paths) (bytes_equal→eq v t.system_id e),
          ap (λ (x : List ℕ). occurs x tent) (bytes_equal→eq v t.system_id e),
          occurs-unknown t.system_id paths p,
          occurs-unknown t.system_id tent q,
        ))
]

add-Once :
    (c : ℕ) (a : Option Adjacency) (nb : Triple) (tent paths : List Triple)
    → Once paths tent
    → Once paths (add_adj_to_tent c a nb tent paths).0
add-Once c a nb tent paths h = elim (add_adj_to_tent-cases c a nb tent paths) [
  | inl (p, e) ↦ rw e h
  | inr (inl (p, q, e)) ↦ rw e (λ v. omega (arith, occurs-update_tent v c nb tent, h v))
  | inr (inr (p, q, e)) ↦ rw e (Once-append paths tent _ p q h)
]

add_adjacencies-Once :
    (c : ℕ) (a : Option Adjacency) (nbs tent paths : List Triple)
    → Once paths tent
    → Once paths (add_adjacencies c a nbs tent paths).0
unfolding add_adjacencies
add_adjacencies-Once c a [] tent paths h = h
add_adjacencies-Once c a (nb ∷ nbs) tent paths h =
    add_adjacencies-Once c a nbs (add_adj_to_tent c a nb tent paths).0 paths
      (add-Once c a nb tent paths h)

Once-move :
    (paths ts : List Triple) (cost i : ℕ) (n : Nearest ts cost i)
    → Once paths ts
    → Once (paths ++ n.best ∷ []) (n.before ++ n.after)
unfolding occurs
Once-move paths ts cost i n h v = omega (
  arith,
  h v,
  ap (occurs v) n.split,
  occurs-append v paths (n.best ∷ []),
  occurs-append v n.before n.after,
  occurs-append v n.before (n.best ∷ n.after),
)

module _ (is : List Intf) (unknown : List (AvlNode Lsp)) where
  expand-Once :
      (s : Spf) (cost : ℕ) (best : Option ℕ)
      → Chosen s.tent (cost, best)
      → Once s.paths s.tent
      → Ensures (expand_best is unknown s (cost, best)) λ s'. Once s'.paths s'.tent
  unfolding expand_best
  expand-Once s cost none n h = tt
  expand-Once s cost (some i) n h = rw (get_elem?-Nearest s.tent cost i n) (
      Ensures-bind (get_adjacencies is n.best unknown) _ (λ _. Unit {0}) _
        (always (get_adjacencies is n.best unknown) _ (λ _. tt))
        λ nbs _. rw (remove-Nearest s.tent cost i n) (
          add_adjacencies-Once cost n.best.adj nbs (n.before ++ n.after) (s.paths ++ n.best ∷ [])
            (Once-move s.paths s.tent cost i n h)))

  -- If it holds before the loop, it holds of the paths that are found.
  pub spf_loop-Once :
      (fuel : ℕ) (s : Spf)
      → Once s.paths s.tent
      → Ensures (spf_loop fuel is unknown s) λ paths. (v : List ℕ) → occurs v paths ≤ 1
  unfolding spf_loop spf_round
  spf_loop-Once zero s h = tt
  spf_loop-Once (suc fuel) s h = elim (Bool-cases (ltb 0 s.tent_size)) [
    | inl more ↦ rw more (
        Ensures-bind (spf_round is unknown s) _ _ _
          (expand-Once s (best_path 0 max_uint32 none s.tent).0
            (best_path 0 max_uint32 none s.tent).1 (best_path-Chosen s.tent) h)
          λ s' h'. spf_loop-Once fuel s' h')
    | inr stop ↦ rw stop (λ v. omega (arith, h v))
  ]
