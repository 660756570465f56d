-- ===== src/Daemon/Fits.antt =====
-- Nodes whose own LSP has room for what they advertise.
use go_is_is.Common.{
  suc, ◌≤◌, ◌≡◌, refl, ap, List, [], ◌∷◌, Bool-cases, inl, inr, arith, length, All,
}
use go_is_is.Bytes.Slices.{length-copy_into}
use go_is_is.SystemId.{system_id_to_bytes}
use go_is_is.Node.{Node, Intf, is_up}
use go_is_is.Update.{local_lsp}
use go_is_is.Update.Wire.{IsSendable}
use go_is_is.Update.Flood.{HasOwnKeys}
use go_is_is.Reach.Neighbors.{up_ids, get_neighbor_tlv-IsWellFormed}
use go_is_is.Reach.Prefixes.{IsV4, all_routes, get_ip_reach_tlv-IsWellFormed}
use go_is_is.Daemon.Kept.{HasId, Kept}

-- At most 23 interfaces and 21 routes, all of these IPv4, system IDs of six bytes, and flood states
-- under the keys of their LSPs.
pub record Fits (is : List Intf) : Type 0 where
  pub interfaces : length is ≤ 23
  pub routes : length (all_routes is) ≤ 21
  pub v4 : All IsV4 (all_routes is)
  pub ids : All HasId is
  pub own_keys : All (λ (i : Intf). HasOwnKeys i.lsp_flood_states) is

length-Kept : (is js : List Intf) → Kept is js → length js ≡ length is
length-Kept [] [] k = refl
length-Kept [] (_ ∷ _) k = absurd k
length-Kept (_ ∷ _) [] k = absurd k
length-Kept (i ∷ is) (j ∷ js) (_, k) = ap suc (length-Kept is js k)

pub all_routes-Kept : (is js : List Intf) → Kept is js → all_routes js ≡ all_routes is
unfolding all_routes
all_routes-Kept [] [] k = refl
all_routes-Kept [] (_ ∷ _) k = absurd k
all_routes-Kept (_ ∷ _) [] k = absurd k
all_routes-Kept (i ∷ is) (j ∷ js) (p, k) = rw (p.same_routes, all_routes-Kept is js k) refl

HasId-Kept : (is js : List Intf) → Kept is js → All HasId is → All HasId js
HasId-Kept [] [] k h = tt
HasId-Kept [] (_ ∷ _) k h = absurd k
HasId-Kept (_ ∷ _) [] k h = absurd k
HasId-Kept (i ∷ is) (j ∷ js) (p, k) (g, h) = (p.has_id g, HasId-Kept is js k h)

own_keys-Kept :
    (is js : List Intf)
    → Kept is js
    → All (λ (i : Intf). HasOwnKeys i.lsp_flood_states) is
    → All (λ (i : Intf). HasOwnKeys i.lsp_flood_states) js
own_keys-Kept [] [] k h = tt
own_keys-Kept [] (_ ∷ _) k h = absurd k
own_keys-Kept (_ ∷ _) [] k h = absurd k
own_keys-Kept (i ∷ is) (j ∷ js) (p, k) (g, h) = (p.own_keys g, own_keys-Kept is js k h)

pub Fits-Kept : (is js : List Intf) → Kept is js → Fits is → Fits js
Fits-Kept is js k f = record {
  interfaces = rw (length-Kept is js k) f.interfaces;
  routes = rw (all_routes-Kept is js k) f.routes;
  v4 = rw (all_routes-Kept is js k) f.v4;
  ids = HasId-Kept is js k f.ids;
  own_keys = own_keys-Kept is js k f.own_keys;
}

pub HasId-up_ids : (is : List Intf) → All HasId is → All (λ id. length id ≡ 6) (up_ids is)
unfolding up_ids
HasId-up_ids [] h = tt
HasId-up_ids (i ∷ is) (g, h) = elim (Bool-cases (is_up i.adj.state)) [
  | inl u ↦ rw u (g u, HasId-up_ids is h)
  | inr d ↦ rw d (HasId-up_ids is h)
]

pub length-up_ids : (is : List Intf) → length (up_ids is) ≤ length is
unfolding up_ids
length-up_ids [] = omega arith
length-up_ids (i ∷ is) = ground (arith, length-up_ids is)

-- The LSP that such a node generates survives the way over a link.
pub local_lsp-IsSendable : (n : Node) → Fits n.config.interfaces → IsSendable (local_lsp n)
unfolding local_lsp
local_lsp-IsSendable n f =
    let is = n.config.interfaces in
    record {
      well_formed = record {
        key_of_id = refl;
        id_of_header = refl;
        sizes = record {
          size_length = refl;
          size_lifetime = refl;
          size_id = length-copy_into 8 (system_id_to_bytes n.config.sid);
          size_sequence = refl;
          size_checksum = refl;
        };
        tlvs = (
          get_ip_reach_tlv-IsWellFormed is f.v4 f.routes,
          (
            get_neighbor_tlv-IsWellFormed is (HasId-up_ids is f.ids)
                (omega (arith, length-up_ids is, f.interfaces)),
            tt,
          ),
        );
      };
      discriminator = refl;
      type_pdu = refl;
    }
