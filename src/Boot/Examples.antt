-- ===== src/Boot/Examples.antt =====
-- A node with the loopback interface and one other comes up.
use go_is_is.Common.{
  ℕ, ◌+◌, ◌≡◌, refl, List, [], ◌∷◌, some, none, ok, panic, length, if◌then◌else◌, ◌==◌,
}
use Prim.Native.String.{String}
use go_is_is.Boot.{ip_net, other, Iface, boot}
use go_is_is.Boot.Table.{intfs_of, fresh_node, boot-intfs_of}

abbrev same : List ℕ → List ℕ
same ip = ip

abbrev iface : String → ℕ → Iface
iface name b = record {
  name = name;
  addrs = some (ip_net (10 ∷ 0 ∷ 0 ∷ b ∷ []) (255 ∷ 255 ∷ 255 ∷ 0 ∷ []) ∷ other ∷ []);
  route_dsts = none ∷ [];
}

abbrev sample : List Iface
sample = iface "lo" 9 ∷ iface "eth0" 1 ∷ []

boot-intfs_of_example : boot same sample ≡ (
    if length (intfs_of same sample) + 1 == length sample
    then ok (fresh_node (intfs_of same sample))
    else panic)
boot-intfs_of_example = boot-intfs_of same sample

-- Without a loopback interface there is one more than the table has room for.
no_loopback : boot same (iface "eth0" 1 ∷ []) ≡ panic
unfolding boot
no_loopback = refl
