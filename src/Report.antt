-- ===== src/Report.antt =====
-- main.go: what the daemon reports over gRPC, and the texts of LSPs and triples, IsisLsp.String of
-- update.go and Triple.String of decision.go.
--
-- A text is the list of its bytes. The texts of addresses, masks and prefixes, which net makes, are
-- parameters.
pub mod Dump
mod Examples
use Prim.Native.Char.{code}
use go_is_is.Common.{
  ℕ, zero, suc, ◌+◌, ◌*◌, ◌/◌, ◌%◌, ◌^◌, List, [], ◌∷◌, ◌++◌, map, Option, none, some, Go, ok,
  ◌>>=◌, ltb, ◌==◌, if◌then◌else◌, take, length,
}
use Prim.Native.String.{String}
use go_is_is.Bytes.{slice, index, be_uint}
use go_is_is.Avl.{Avl, AvlNode, get_all}
use go_is_is.SystemId.{system_id_to_string}
use go_is_is.Tlv.{Tlv}
use go_is_is.Lsp.{Lsp}
use go_is_is.Node.{Node, Intf, Adjacency, AdjState, new, init, up, IpNet, is_up}
use go_is_is.Reach.{whole}
use go_is_is.Decision.{Triple, all_nodes}

-- The bytes of a literal.
abbrev pub codes : String → List ℕ
codes String.[] = []
codes (String.◌∷◌ c s) = code c ∷ codes s

-- `%d`: as many rounds as the number, and one more, are enough, since each divides it by ten.
unfoldable pub decimal_from : ℕ → ℕ → List ℕ → List ℕ
decimal_from zero n digits = digits
decimal_from (suc fuel) n digits =
    let more = decimal_from fuel (n / 10) ((b'0' + n % 10) ∷ digits) in
    if ltb n 10 then (b'0' + n) ∷ digits else more

unfoldable pub decimal : ℕ → List ℕ
unfolding decimal_from
decimal n = decimal_from (suc n) n []

abbrev pub tab : List ℕ
tab = 9 ∷ []

abbrev pub newline : List ℕ
newline = 10 ∷ []

-- The loop over the neighbors: those left, and `i`.
unfoldable pub neighbor_lines : ℕ → ℕ → List ℕ → Go (List ℕ)
unfolding index slice system_id_to_string decimal
neighbor_lines zero i value = ok []
neighbor_lines (suc count) i value = index (whole value) (i * 11 + 4) >>= λ metric.
    slice (whole value) (i * 11 + 1 + 4) 6 >>= λ id. neighbor_lines count (suc i) value >>= λ rest.
    ok (
      tab
      ++ (tab
          ++ (system_id_to_string id
              ++ (codes " Metric " ++ (decimal metric ++ (newline ++ rest))))))

-- The texts of the adjacency's states.
abbrev pub state_text : AdjState → List ℕ
state_text new = codes "NEW"
state_text init = codes "INIT"
state_text up = codes "UP"

-- `Triple.String`; a nil adjacency is printed as `<nil>`.
abbrev pub hop_text : Option Adjacency → List ℕ
hop_text none = codes "<nil>"
hop_text (some adj) =
    system_id_to_string adj.neighbor_system_id ++ (codes " Intf " ++ codes adj.intf_name)

unfoldable pub triple_string : Triple → List ℕ
unfolding system_id_to_string decimal
triple_string t =
    codes "SystemID "
    ++ (t.system_id
        ++ (codes " Distance " ++ (decimal t.distance ++ (codes " Next Hop " ++ hop_text t.adj))))

-- The handler `GetTopo`.
unfoldable pub get_topo : List ℕ → Avl Triple → Go (List (List ℕ))
unfolding get_all triple_string
get_topo sid topo =
    all_nodes (get_all topo) >>= λ found. ok (sid ∷ map (λ x. triple_string x.payload) found)

module _ (show_net : IpNet → List ℕ) (show_ip : List ℕ → List ℕ) (show_mask : List ℕ → List ℕ) where
  -- The loop over the prefixes.
  unfoldable pub prefix_lines : ℕ → ℕ → List ℕ → Go (List ℕ)
  unfolding slice be_uint decimal
  prefix_lines zero i value = ok []
  prefix_lines (suc count) i value = slice (whole value) (i * 12) 4 >>= λ ip.
      slice (whole value) (i * 12 + 4) 4 >>= λ mask.
      slice (whole value) (i * 12 + 8) 4 >>= λ metric. prefix_lines count (suc i) value >>= λ rest.
      ok (
        tab
        ++ (tab
            ++ (show_net (record { ip = ip; ip_mask = mask })
                ++ (codes " Metric " ++ (decimal (be_uint metric) ++ (newline ++ rest))))))

  -- The body of a TLV. `curr.lengthTLV-1` is a byte, so it is 255 for a length of 0.
  unfoldable pub tlv_body : Tlv → Go (List ℕ)
  unfolding prefix_lines neighbor_lines
  tlv_body t =
      if t.type_tlv == 128
      then prefix_lines (t.length_tlv / 12) 0 t.value_tlv
      else if t.type_tlv == 2
      then neighbor_lines ((t.length_tlv + 255) % 2 ^ 8 / 11) 0 t.value_tlv
      else ok []

  unfoldable pub tlvs_text : List Tlv → Go (List ℕ)
  unfolding tlv_body decimal
  tlvs_text [] = ok []
  tlvs_text (t ∷ ts) = tlv_body t >>= λ body. tlvs_text ts >>= λ rest. ok (
      tab
      ++ (codes "TLV "
          ++ (decimal t.type_tlv
              ++ (newline
                  ++ (tab
                      ++ (codes "TLV size "
                          ++ (decimal t.length_tlv ++ (newline ++ (body ++ rest)))))))))

  -- `IsisLsp.String`
  unfoldable pub lsp_string : Lsp → Go (List ℕ)
  unfolding tlvs_text system_id_to_string
  lsp_string lsp =
      tlvs_text lsp.core_lsp.first_tlv >>= λ text. ok (system_id_to_string (take 6 lsp.id) ++ text)

  unfoldable pub lsp_strings : List (AvlNode Lsp) → Go (List (List ℕ))
  unfolding lsp_string
  lsp_strings [] = ok []
  lsp_strings (x ∷ xs) =
      lsp_string x.payload >>= λ text. lsp_strings xs >>= λ rest. ok (text ∷ rest)

  -- The handler `GetLsp`.
  unfoldable pub get_lsp : Node → Go (List (List ℕ))
  unfolding get_all lsp_strings
  get_lsp n = all_nodes (get_all n.update_db) >>= λ found. lsp_strings found

  -- The text of an interface, by whether its adjacency is up.
  unfoldable pub intf_string : Intf → List ℕ
  unfolding system_id_to_string
  intf_string intf =
      let start =
        show_ip intf.prefix
        ++ (codes " "
            ++ (show_mask intf.mask ++ (codes ", adjacency " ++ state_text intf.adj.state))) in
      if is_up intf.adj.state
      then start ++ (codes " with " ++ system_id_to_string intf.adj.neighbor_system_id)
      else start

  -- The handler `GetIntf`.
  unfoldable pub get_intf : Node → List (List ℕ)
  unfolding intf_string
  get_intf n = map intf_string n.config.interfaces
