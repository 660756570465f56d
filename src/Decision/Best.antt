-- ===== src/Decision/Best.antt =====
-- The candidate that a round takes is the nearest one.
use go_is_is.Common.{
  ℕ, suc, ◌+◌, ◌≤◌, ◌≡◌, refl, sym, ap, subst, ◌∙◌, inl, inr, List, [], ◌∷◌, ◌++◌, append_assoc,
  append-nil, Option, none, some, arith, ltb, ltb→lt, if◌then◌else◌, length, length-append, All,
  All-append, All-imp, Bool-cases, take, drop, take-append, drop-append_suc, get_elem?,
  get_elem?-append,
}
use go_is_is.Decision.{Triple, best_path, max_uint32}

abbrev pub Above : ℕ → List Triple → Type 0
Above c ts = All (λ t. c ≤ t.distance) ts

-- The list with one entry singled out, that of the index, which has the cost, and no other less.
pub record Nearest (ts : List Triple) (cost i : ℕ) : Type 0 where
  pub before : List Triple
  pub best : Triple
  pub after : List Triple
  pub split : ts ≡ before ++ best ∷ after
  pub at : i ≡ length before
  pub cost_of : best.distance ≡ cost
  pub above : Above cost ts

-- What the loop has found in the entries that it has seen.
abbrev pub Chosen : List Triple → ℕ × Option ℕ → Type 0
Chosen ts (cost, none) = (cost ≡ max_uint32) × Above max_uint32 ts
Chosen ts (cost, some i) = Nearest ts cost i

snoc-Nearest :
    (ts : List Triple) (t : Triple) (cost i : ℕ)
    → Nearest ts cost i
    → cost ≤ t.distance
    → Nearest (ts ++ t ∷ []) cost i
snoc-Nearest ts t cost i n h = record {
  before = n.before;
  best = n.best;
  after = n.after ++ t ∷ [];
  split =
      ap (λ (xs : List Triple). xs ++ t ∷ []) n.split
      ∙ append_assoc n.before (n.best ∷ n.after) (t ∷ []);
  at = n.at;
  cost_of = n.cost_of;
  above = All-append _ ts (t ∷ []) n.above (h, tt);
}

Above-Chosen :
    (ts : List Triple) (cost : ℕ) (best : Option ℕ) → Chosen ts (cost, best) → Above cost ts
Above-Chosen ts cost none (e, a) = rw e a
Above-Chosen ts cost (some i) n = n.above

-- One round of the loop over the candidates.
Chosen-snoc :
    (ts : List Triple) (t : Triple) (cost : ℕ) (best : Option ℕ)
    → Chosen ts (cost, best)
    → let better = ltb t.distance cost in
      Chosen
        (ts ++ t ∷ [])
        ((if better then t.distance else cost), (if better then some (length ts) else best))
Chosen-snoc ts t cost best c = elim (Bool-cases (ltb t.distance cost)) [
  | inl h ↦ rw h (record {
    before = ts;
    best = t;
    after = [];
    split = refl;
    at = refl;
    cost_of = refl;
    above =
        All-append _ ts (t ∷ [])
          (All-imp (λ (u : Triple). cost ≤ u.distance) (λ u. t.distance ≤ u.distance)
            (λ u k. omega (arith, ltb→lt t.distance cost h)) ts (Above-Chosen ts cost best c))
          (omega arith, tt);
  })
  | inr h ↦ rw h (keep best c (ground arith))
]
  where
    keep :
        (best : Option ℕ)
        → Chosen ts (cost, best)
        → cost ≤ t.distance
        → Chosen (ts ++ t ∷ []) (cost, best)
    keep none (e, a) k = (e, All-append _ ts (t ∷ []) a (omega arith, tt))
    keep (some i) n k = snoc-Nearest ts t cost i n k

best_path-from :
    (ts rest : List Triple) (i cost : ℕ) (best : Option ℕ)
    → i ≡ length ts
    → Chosen ts (cost, best)
    → Chosen (ts ++ rest) (best_path i cost best rest)
unfolding best_path
best_path-from ts [] i cost best e c =
    subst (λ (xs : List Triple). Chosen xs (cost, best)) (sym (append-nil ts)) c
best_path-from ts (t ∷ rest) i cost best e c =
    let better = ltb t.distance cost in
    subst (λ (xs : List Triple). Chosen xs (best_path i cost best (t ∷ rest)))
      (append_assoc ts (t ∷ []) rest)
      (best_path-from (ts ++ t ∷ []) rest (i + 1) (if better then t.distance else cost)
        (if better then some i else best) (omega (arith, length-append ts (t ∷ [])))
        (rw e (Chosen-snoc ts t cost best c)))

pub best_path-Chosen : (ts : List Triple) → Chosen ts (best_path 0 max_uint32 none ts)
best_path-Chosen ts = best_path-from [] ts 0 max_uint32 none refl (refl, tt)

-- What the round reads and keeps at the index.
pub get_elem?-Nearest :
    (ts : List Triple) (cost i : ℕ) (n : Nearest ts cost i) → get_elem? ts i ≡ some n.best
get_elem?-Nearest ts cost i n = rw (n.split, n.at) (get_elem?-append n.before n.after n.best)

pub remove-Nearest :
    (ts : List Triple) (cost i : ℕ) (n : Nearest ts cost i)
    → take i ts ++ drop (suc i) ts ≡ n.before ++ n.after
remove-Nearest ts cost i n =
    rw
      (
        n.split,
        n.at,
        take-append n.before (n.best ∷ n.after),
        drop-append_suc n.before n.after n.best,
      )
      refl
