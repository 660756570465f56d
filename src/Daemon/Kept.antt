-- ===== src/Daemon/Kept.antt =====
-- What no round changes about the interfaces of a node.
use go_is_is.Common.{
  ℕ, zero, suc, ◌≡◌, refl, ◌∙◌, List, [], ◌∷◌, Bool, true, some, get_elem?, length,
}
use go_is_is.Node.{Intf, is_up}
use go_is_is.Lsp.{Lsp}
use go_is_is.Update.Flood.{Flooded, HasOwnKeys}
use go_is_is.Daemon.{set_at}

-- An adjacency that is up has a system ID of six bytes.
abbrev pub HasId : Intf → Type 0
HasId i = is_up i.adj.state ≡ true → length i.adj.neighbor_system_id ≡ 6

-- What a round keeps of the interface it runs on.
pub record Keeps (i j : Intf) : Type 0 where
  pub same_name : j.name ≡ i.name
  pub same_routes : j.routes ≡ i.routes
  pub stays_up : is_up i.adj.state ≡ true → is_up j.adj.state ≡ true
  pub has_id : HasId i → HasId j
  pub own_keys : HasOwnKeys i.lsp_flood_states → HasOwnKeys j.lsp_flood_states

pub Keeps-refl : (i : Intf) → Keeps i i
Keeps-refl i = record {
  same_name = refl;
  same_routes = refl;
  stays_up = λ u. u;
  has_id = λ h. h;
  own_keys = λ h. h;
}

Keeps-trans : (i j k : Intf) → Keeps i j → Keeps j k → Keeps i k
Keeps-trans i j k a b = record {
  same_name = b.same_name ∙ a.same_name;
  same_routes = b.same_routes ∙ a.same_routes;
  stays_up = λ u. b.stays_up (a.stays_up u);
  has_id = λ h. b.has_id (a.has_id h);
  own_keys = λ h. b.own_keys (a.own_keys h);
}

-- The same interfaces in the same order.
abbrev pub Kept : List Intf → List Intf → Type 0
Kept [] [] = Unit
Kept (i ∷ is) (j ∷ js) = Keeps i j × Kept is js
Kept [] (_ ∷ _) = ⊥
Kept (_ ∷ _) [] = ⊥

pub Kept-refl : (is : List Intf) → Kept is is
Kept-refl [] = tt
Kept-refl (i ∷ is) = (Keeps-refl i, Kept-refl is)

pub Kept-trans : (is js ks : List Intf) → Kept is js → Kept js ks → Kept is ks
Kept-trans [] [] [] a b = tt
Kept-trans [] [] (_ ∷ _) a b = absurd b
Kept-trans [] (_ ∷ _) ks a b = absurd a
Kept-trans (_ ∷ _) [] ks a b = absurd a
Kept-trans (_ ∷ _) (_ ∷ _) [] a b = absurd b
Kept-trans (i ∷ is) (j ∷ js) (k ∷ ks) (p, a) (q, b) =
    (Keeps-trans i j k p q, Kept-trans is js ks a b)

pub Kept-Flooded :
    (flag : Intf → Bool) (lsp : Lsp) (is js : List Intf) → Flooded flag lsp is js → Kept is js
Kept-Flooded flag lsp [] [] h = tt
Kept-Flooded flag lsp [] (_ ∷ _) h = absurd h
Kept-Flooded flag lsp (_ ∷ _) [] h = absurd h
Kept-Flooded flag lsp (i ∷ is) (j ∷ js) (m, h) = (
  record {
    same_name = m.same_name;
    same_routes = m.same_routes;
    stays_up = λ u. rw m.same_adj u;
    has_id = λ g. rw m.same_adj g;
    own_keys = m.own_keys;
  },
  Kept-Flooded flag lsp is js h,
)

pub Kept-set_at :
    (is : List Intf) (n : ℕ) (i j : Intf)
    → get_elem? is n ≡ some i
    → Keeps i j
    → Kept is (set_at is n j)
Kept-set_at [] n i j e k = tt
Kept-set_at (x ∷ xs) zero i j e k = (rw x-eq at k, Kept-refl xs)
  where
    x-eq : i ≡ x
    x-eq = cc
Kept-set_at (x ∷ xs) (suc n) i j e k = (Keeps-refl x, Kept-set_at xs n i j e k)
