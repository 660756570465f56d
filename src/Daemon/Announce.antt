-- ===== src/Daemon/Announce.antt =====
-- From the answer to a hello to the routes that the neighbor reads.
use go_is_is.Common.{
  ℕ, ◌+◌, ◌-◌, ◌*◌, ◌/◌, ◌%◌, ◌^◌, ◌≤◌, ◌≡◌, refl, ap, sym, ◌∙◌, List, [], ◌∷◌, ◌++◌, map, true,
  false, some, Go, ok, ◌>>=◌, arith, length, length-append, take, get_elem?, Returns, Returns-bind,
  Returns-and, Returns-imp, ◌==◌, Option, append-nil, take-append,
}
use Prim.Native.String.{String}
use go_is_is.Bytes.{Slice, bytes_equal, copy_into}
use go_is_is.Avl.{search}
use go_is_is.SystemId.{system_id_to_string, system_id_to_bytes, system_id_to_key}
use go_is_is.Lsp.{write_pdu_header}
use go_is_is.Node.{Node, Intf, IpNet, Adjacency, is_up}
use go_is_is.Hello.{HelloPdu, hello_tlvs, send_hello, serialize_hello, build_l1_hello_pdu}
use go_is_is.Hello.Frame.{heard}
use go_is_is.Hello.Handshake.{with_neighbor}
use go_is_is.Update.{local_lsp}
use go_is_is.Update.Local.{key-local_lsp}
use go_is_is.Update.Send.{Pending, srm_of-Pending}
use go_is_is.Update.Database.{level}
use go_is_is.Reach.{get_directly_connected_prefixes, found_prefixes, lookup_neighbors}
use go_is_is.Reach.Own.{lookup_prefixes-local_lsp, lookup_neighbors-local_lsp}
use go_is_is.Reach.Neighbors.{up_ids, neighbor_of, get_neighbors-get_neighbor_tlv}
use go_is_is.Reach.Prefixes.{all_routes, get_prefixes_from_tlv-get_ip_reach_tlv}
use go_is_is.Daemon.Kept.{Keeps, Kept-set_at}
use go_is_is.Bytes.Slices.{length-copy_into}
use go_is_is.Tlv.{Tlv, build_ethernet_frame}
use go_is_is.Daemon.{Daemon, Output, received, step, set_intf}
use go_is_is.Daemon.Exchange.{Renewed, step-send_hello}
use go_is_is.Daemon.Lookup.{get_elem?-set_at, get_elem?-Flooded, All-at}
use go_is_is.Daemon.Safety.{Inv}
use go_is_is.Daemon.Sound.{IsSound, IsLong, step-IsSound}
use go_is_is.Daemon.Fits.{Fits, Fits-Kept, all_routes-Kept, HasId-up_ids, length-up_ids}
use go_is_is.Daemon.Spread.{spread, spread-UpToDate}

-- The node's own LSP, where it stands and how it is marked.
record Marks (node : Node) (d : Daemon) (n : ℕ) : Type 0 where
  intf : Intf
  at : get_elem? d.node.config.interfaces n ≡ some intf
  is_up_there : is_up intf.adj.state ≡ true
  stored : search d.node.update_db (system_id_to_key node.config.sid) ≡ some (local_lsp node)
  marked : Pending (system_id_to_key node.config.sid) intf.lsp_flood_states

own_key : (k : ℕ) → (k == k) ≡ true
own_key k = ground arith

Marks-Renewed :
    (d : Daemon) (n : ℕ) (i : Intf) (id ip : List ℕ) (r : Daemon × List Output)
    → get_elem? d.node.config.interfaces n ≡ some i
    → IsSound r.0
    → Renewed (set_intf d.node n (with_neighbor i id ip)) d r
    → Marks (set_intf d.node n (with_neighbor i id ip)) r.0 n
Marks-Renewed d n i id ip r e s g =
    let up = with_neighbor i id ip in
    let node = set_intf d.node n up in
    let key = system_id_to_key d.node.config.sid in
    let (j, at, m) =
      get_elem?-Flooded (λ _. true) (local_lsp node) node.config.interfaces
        r.0.node.config.interfaces n up g.generated.flooded
        (get_elem?-set_at d.node.config.interfaces n i up e) in
    record {
      intf = j;
      at = at;
      is_up_there = ap (λ (a : Adjacency). is_up a.state) m.same_adj;
      stored = g.generated.stored key ∙ rw (own_key key) refl;
      marked =
          srm_of-Pending j.lsp_flood_states key
            (All-at _ r.0.node.config.interfaces n j s.fits.own_keys at)
            (m.flags key ∙ rw (key-local_lsp node, own_key key) refl);
    }

-- What the neighbor then has and reads.
pub record Announced (d : Daemon) (node : Node) (e' : Daemon) : Type 0 where
  pub stored : search e'.node.update_db (system_id_to_key d.node.config.sid) ≡ some (local_lsp node)
  pub prefixes :
      get_directly_connected_prefixes e'.node d.node.config.sid
      ≡ ok (all_routes d.node.config.interfaces)
  pub neighbors :
      lookup_neighbors (local_lsp node).core_lsp.first_tlv
      ≡ ok (map neighbor_of (up_ids node.config.interfaces))

take_all : {A : Type 0} (n : ℕ) (xs : List A) → n ≡ length xs → take n xs ≡ xs
take_all n xs e = rw e (ap (take (length xs)) (sym (append-nil xs)) ∙ take-append xs [])

with_neighbor-Keeps : (i : Intf) (id ip : List ℕ) → length id ≡ 6 → Keeps i (with_neighbor i id ip)
with_neighbor-Keeps i id ip six = record {
  same_name = refl;
  same_routes = refl;
  stays_up = λ u. refl;
  has_id = λ h u. six;
  own_keys = λ h. h;
}

announced :
    (d : Daemon) (n : ℕ) (i j : Intf) (e' : Daemon)
    → Fits d.node.config.interfaces
    → get_elem? d.node.config.interfaces n ≡ some i
    → Keeps i j
    → search e'.node.update_db (system_id_to_key d.node.config.sid)
      ≡ some (local_lsp (set_intf d.node n j))
    → Announced d (set_intf d.node n j) e'
unfolding get_directly_connected_prefixes found_prefixes
announced d n i j e' f at k stored =
    let is = d.node.config.interfaces in
    let node = set_intf d.node n j in
    let js = node.config.interfaces in
    let kept = Kept-set_at is n i j at k in
    let g = Fits-Kept is js kept f in
    record {
      stored = stored;
      prefixes = rw stored (
          lookup_prefixes-local_lsp node
          ∙ get_prefixes_from_tlv-get_ip_reach_tlv js g.v4
          ∙ ap (λ (rs : List IpNet). ok rs)
              (take_all ((12 * length (all_routes js)) % 256 / 12) (all_routes js)
                  (omega (arith, g.routes))
                ∙ all_routes-Kept is js kept));
      neighbors =
          lookup_neighbors-local_lsp node
          ∙ get_neighbors-get_neighbor_tlv js (HasId-up_ids js g.ids)
          ∙ ap (λ (ids : List (List ℕ)). ok (map neighbor_of ids))
              (take_all (((1 + 11 * length (up_ids js)) % 256 - 1) / 11) (up_ids js)
                (omega (arith, length-up_ids js, g.interfaces)));
    }

pub length-build_ethernet_frame :
    (dst src payload : List ℕ)
    → length (build_ethernet_frame dst src payload) ≡ length dst + length src + 2 + length payload
unfolding build_ethernet_frame
length-build_ethernet_frame dst src payload = omega (
  arith,
  length-append dst (src ++ (0x08 ∷ 0x00 ∷ payload)),
  length-append src (0x08 ∷ 0x00 ∷ payload),
)

length-serialize_hello : (pdu : HelloPdu) → 8 ≤ length (serialize_hello pdu)
unfolding serialize_hello write_pdu_header
length-serialize_hello pdu = omega arith

module _ (l1_multicast : List ℕ) (get_mac : String → List ℕ) (to4 : List ℕ → List ℕ) where
  -- A frame comes in on an interface of the first node; then its timer of `isisUpdate` fires there, and
  -- what it sends reaches the second one.
  unfoldable pub announce : Daemon → ℕ → Slice → Daemon → ℕ → Go (Daemon × Daemon)
  unfolding step spread
  announce d n frame e m = step l1_multicast get_mac to4 d (received n frame) >>= λ (d', _).
      spread l1_multicast get_mac to4 d' n e m

  send_hello-IsLong :
      (i : Intf) (sid : List ℕ) (o : Option Tlv) (spare : List ℕ) (n : ℕ)
      → length l1_multicast ≡ 6
      → length (get_mac i.name) ≡ 6
      → IsLong (
          received n
            (record { items = send_hello l1_multicast get_mac to4 i sid o; spare = spare }))
  unfolding IsLong send_hello
  send_hello-IsLong i sid o spare n a b =
      let pdu = record (build_l1_hello_pdu (system_id_to_bytes sid)) {
        first_tlv = hello_tlvs l1_multicast get_mac to4 i o;
      } in
      omega (
        arith,
        length-build_ethernet_frame l1_multicast (get_mac i.name) (serialize_hello pdu),
        length-serialize_hello pdu,
      )

  module _ (six : length l1_multicast ≡ 6)
      (macs : (name : String) → length (get_mac name) ≡ 6) where
    -- All addresses have six bytes; the first node is sound and the second keeps the invariant of its
    -- state; their system IDs differ, and they have an interface each on the link. The second node has
    -- no LSP of the first one, or one whose number is smaller than that which the next one gets. When
    -- the second's answer to a hello comes in at the first node, its timer of `isisUpdate` then fires,
    -- and what it sends is delivered, nothing panics. The second node then has the LSP that the first
    -- one generated. The prefixes that it finds for the first node's system ID are all its routes,
    -- and the neighbors in the LSP are all its adjacencies that are up after the answer.
    -- A sound node has its databases in order, room in its LSP for what it advertises, and only LSPs
    -- that survive the way over a link.
    pub announce-Announced :
        (sid : List ℕ) (j : Intf) (spare : List ℕ) (d : Daemon) (n : ℕ) (e : Daemon) (m : ℕ)
        (i j' : Intf)
        → IsSound d
        → Inv e
        → bytes_equal (system_id_to_string (system_id_to_bytes sid)) d.node.config.sid ≡ false
        → bytes_equal (system_id_to_string (system_id_to_bytes d.node.config.sid)) sid ≡ false
        → get_elem? d.node.config.interfaces n ≡ some i
        → get_elem? e.node.config.interfaces m ≡ some j'
        → level (search e.node.update_db (system_id_to_key d.node.config.sid))
          ≤ (d.node.sequence_number + 1) % 2 ^ 32
        → let answer = send_hello l1_multicast get_mac to4 j sid (some (heard (get_mac i.name))) in
          let node =
            set_intf d.node n
              (with_neighbor i (system_id_to_bytes sid) (copy_into 4 (to4 j.prefix))) in
          Returns
            (announce d n (record { items = answer; spare = spare }) e m)
            λ r. Announced d node r.1
    unfolding announce system_id_to_bytes
    announce-Announced sid j spare d n e m i j' s w other other' at at' old =
        let answer = send_hello l1_multicast get_mac to4 j sid (some (heard (get_mac i.name))) in
        let frame : Slice = record { items = answer; spare = spare } in
        let id = system_id_to_bytes sid in
        let ip = copy_into 4 (to4 j.prefix) in
        let up = with_neighbor i id ip in
        let node = set_intf d.node n up in
        let key = system_id_to_key d.node.config.sid in
        let round = step l1_multicast get_mac to4 d (received n frame) in
        Returns-bind round _ (λ q. Renewed node d q × IsSound q.0) _
          (Returns-and round (Renewed node d) (λ q. IsSound q.0)
            (step-send_hello l1_multicast get_mac to4 sid j spare d n i six (macs i.name)
              (macs j.name) other other' at s.inv.db)
            (step-IsSound l1_multicast get_mac to4 d (received n frame)
              (send_hello-IsLong j sid (some (heard (get_mac i.name))) spare n six (macs j.name))
              s))
          λ q (g, t).
            let k = Marks-Renewed d n i id ip q at t g in
            Returns-imp (spread l1_multicast get_mac to4 q.0 n e m) _ _
              (λ r u.
                announced d n i up r.1 s.fits at
                  (with_neighbor-Keeps i id ip (length-copy_into 6 _))
                  (u.learned key (local_lsp node) k.stored k.marked
                    (omega (arith, old, g.generated.numbered, g.generated.counted))))
              (spread-UpToDate l1_multicast get_mac to4 six macs q.0 n e m k.intf j' t w k.at at'
                k.is_up_there)
