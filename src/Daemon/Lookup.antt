-- ===== src/Daemon/Lookup.antt =====
-- The interface at an index, through what the rounds do.
use go_is_is.Common.{ℕ, zero, suc, ◌≡◌, refl, List, [], ◌∷◌, Bool, true, some, get_elem?, All}
use go_is_is.Lsp.{Lsp}
use go_is_is.Node.{Intf, is_up}
use go_is_is.Update.Flood.{Flooded, Marked}
use go_is_is.Daemon.{Daemon, set_at}
use go_is_is.Daemon.Kept.{Keeps, Kept}

-- The interface of this index is there, with its adjacency up.
pub record IsUpAt (d : Daemon) (n : ℕ) : Type 0 where
  pub intf : Intf
  pub at : get_elem? d.node.config.interfaces n ≡ some intf
  pub is_up_there : is_up intf.adj.state ≡ true

pub get_elem?-set_at :
    (is : List Intf) (n : ℕ) (i j : Intf)
    → get_elem? is n ≡ some i
    → get_elem? (set_at is n j) n ≡ some j
get_elem?-set_at [] n i j e = cc
get_elem?-set_at (x ∷ xs) zero i j e = refl
get_elem?-set_at (x ∷ xs) (suc n) i j e = get_elem?-set_at xs n i j e

same_intf : (i j : Intf) → some i ≡ some j → i ≡ j
same_intf i j e = cc

-- What stands at an index after flooding.
pub get_elem?-Flooded :
    (flag : Intf → Bool) (lsp : Lsp) (is js : List Intf) (n : ℕ) (i : Intf)
    → Flooded flag lsp is js
    → get_elem? is n ≡ some i
    → (j : Intf) × (get_elem? js n ≡ some j) × Marked lsp (flag i) i j
get_elem?-Flooded flag lsp [] [] n i h e = cc
get_elem?-Flooded flag lsp [] (_ ∷ _) n i h e = absurd h
get_elem?-Flooded flag lsp (_ ∷ _) [] n i h e = absurd h
get_elem?-Flooded flag lsp (x ∷ xs) (y ∷ ys) zero i (m, h) e = (y, refl, rw (same_intf x i e) at m)
get_elem?-Flooded flag lsp (x ∷ xs) (y ∷ ys) (suc n) i (m, h) e =
    get_elem?-Flooded flag lsp xs ys n i h e

pub get_elem?-Kept :
    (is js : List Intf) (n : ℕ) (i : Intf)
    → Kept is js
    → get_elem? is n ≡ some i
    → (j : Intf) × (get_elem? js n ≡ some j) × Keeps i j
get_elem?-Kept [] [] n i h e = cc
get_elem?-Kept [] (_ ∷ _) n i h e = absurd h
get_elem?-Kept (_ ∷ _) [] n i h e = absurd h
get_elem?-Kept (x ∷ xs) (y ∷ ys) zero i (k, h) e = (y, refl, rw (same_intf x i e) at k)
get_elem?-Kept (x ∷ xs) (y ∷ ys) (suc n) i (_, h) e = get_elem?-Kept xs ys n i h e

pub IsUpAt-Kept :
    (d d' : Daemon) (n : ℕ)
    → Kept d.node.config.interfaces d'.node.config.interfaces
    → IsUpAt d n
    → IsUpAt d' n
IsUpAt-Kept d d' n k u =
    let (j, e, f) =
      get_elem?-Kept d.node.config.interfaces d'.node.config.interfaces n u.intf k u.at in
    record { intf = j; at = e; is_up_there = f.stays_up u.is_up_there }

pub All-at :
    (P : Intf → Type 0) (is : List Intf) (n : ℕ) (i : Intf)
    → All P is
    → get_elem? is n ≡ some i
    → P i
All-at P [] n i h e = cc
All-at P (x ∷ xs) zero i (h, _) e = rw (← same_intf x i e) h
All-at P (x ∷ xs) (suc n) i (_, h) e = All-at P xs n i h e
