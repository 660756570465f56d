-- ===== src/Boot/Table.antt =====
-- When a node comes up, and with which interfaces.
use go_is_is.Common.{
  ℕ, zero, suc, ◌+◌, ◌-◌, ◌<◌, ◌≡◌, refl, ap, subst, inl, inr, List, [], ◌∷◌, ◌++◌, append_assoc,
  append-nil, map, Option, none, some, Go, ok, panic, ◌>>=◌, arith, if◌then◌else◌, length,
  length-append, replicate, Bool-cases, dec_lt, compare-cases, ◌==◌,
}
use text.Mathlib.Text.{◌==◌ as str_eq}
use go_is_is.Avl.{nil}
use go_is_is.Node.{Node, Intf}
use go_is_is.Boot.{
  Addr, ip_net, other, Iface, new_intf, Table, set_entry, is_nil, init_addrs, init_iface,
  init_ifaces, init_interfaces, open_sockets, boot,
}

-- A table whose first entries are filled.
abbrev filled : List Intf → ℕ → Table
filled is free = map some is ++ replicate free none

set_entry-filled :
    (is : List Intf) (free : ℕ) (intf : Intf)
    → set_entry (filled is (suc free)) (length is) intf ≡ ok (filled (is ++ intf ∷ []) free)
unfolding set_entry
set_entry-filled [] free intf = refl
set_entry-filled (i ∷ is) free intf = rw (set_entry-filled is free intf) refl

set_entry-full : (is : List Intf) (intf : Intf) → set_entry (filled is 0) (length is) intf ≡ panic
unfolding set_entry
set_entry-full [] intf = refl
set_entry-full (i ∷ is) intf = rw (set_entry-full is intf) refl

open_sockets-filled : (is : List Intf) → open_sockets (filled is 0) ≡ ok is
unfolding open_sockets
open_sockets-filled [] = refl
open_sockets-filled (i ∷ is) = rw (open_sockets-filled is) refl

open_sockets-free : (is : List Intf) (free : ℕ) → open_sockets (filled is (suc free)) ≡ panic
unfolding open_sockets
open_sockets-free [] free = refl
open_sockets-free (i ∷ is) free = rw (open_sockets-free is free) refl

-- The node that starts with these interfaces.
abbrev pub fresh_node : List Intf → Node
fresh_node is = record {
  update_db = nil;
  sequence_number = 0;
  config = record { sid = []; interfaces = is };
}

module _ (to4 : List ℕ → List ℕ) where
  -- An interface for every v4 address, in order.
  unfoldable pub addr_intfs : Iface → List Addr → List Intf
  addr_intfs i [] = []
  addr_intfs i (other ∷ addrs) = addr_intfs i addrs
  addr_intfs i (ip_net ip mask ∷ addrs) =
      if is_nil (to4 ip) then addr_intfs i addrs else new_intf i ip mask ∷ addr_intfs i addrs

  abbrev pub iface_intfs : Iface → Option (List Addr) → List Intf
  iface_intfs i none = []
  iface_intfs i (some addrs) = addr_intfs i addrs

  unfoldable pub intfs_of : List Iface → List Intf
  unfolding addr_intfs
  intfs_of [] = []
  intfs_of (i ∷ ifaces) =
      (if str_eq i.name "lo" then [] else iface_intfs i i.addrs) ++ intfs_of ifaces

  -- What a loop makes of a table with free entries: it fills them in order, and panics if there are
  -- too few.
  abbrev Fills : List Intf → List Intf → ℕ → Go (Table × ℕ) → Type 0
  Fills is more free r =
      ((left : ℕ)
        → free ≡ length more + left
        → r ≡ ok (filled (is ++ more) left, length (is ++ more)))
      × (free < length more → r ≡ panic)

  -- One entry is filled, and the rest of the loop fills others.
  set_entry-Fills :
      (is more : List Intf) (free : ℕ) (intf : Intf) (rest : Table → ℕ → Go (Table × ℕ))
      → ((is' : List Intf) (free' : ℕ)
          → Fills is' more free' (rest (filled is' free') (length is')))
      → Fills is
          (intf ∷ more)
          free
          (set_entry (filled is free) (length is) intf >>= λ table. rest table (suc (length is)))
  set_entry-Fills is more zero intf rest ih =
      (λ left e. absurd (omega arith), λ h. rw (set_entry-full is intf) refl)
  set_entry-Fills is more (suc free) intf rest ih =
      let next : suc (length is) ≡ length (is ++ intf ∷ []) =
        omega (arith, length-append is (intf ∷ [])) in
      let (fits, full) = ih (is ++ intf ∷ []) free in
      (
        λ left e.
            rw (set_entry-filled is free intf, next)
              (subst
                (λ (js : List Intf).
                  rest (filled (is ++ intf ∷ []) free) (length (is ++ intf ∷ []))
                  ≡ ok (filled js left, length js))
                (append_assoc is (intf ∷ []) more) (fits left (omega arith))),
        λ h. rw (set_entry-filled is free intf, next) (full (omega arith)),
      )

  init_addrs-Fills :
      (i : Iface) (addrs : List Addr) (is : List Intf) (free : ℕ)
      → Fills is (addr_intfs i addrs) free (init_addrs to4 i addrs (filled is free) (length is))
  unfolding init_addrs addr_intfs
  init_addrs-Fills i [] is free = (
    λ left e. rw (append-nil is) (ap (λ (n : ℕ). ok (filled is n, length is)) (omega arith)),
    λ h. absurd (omega arith),
  )
  init_addrs-Fills i (other ∷ addrs) is free = init_addrs-Fills i addrs is free
  init_addrs-Fills i (ip_net ip mask ∷ addrs) is free = elim (Bool-cases (is_nil (to4 ip))) [
    | inl e ↦ rw e (init_addrs-Fills i addrs is free)
    | inr e ↦ rw e (
        set_entry-Fills is (addr_intfs i addrs) free (new_intf i ip mask)
          (λ t n. init_addrs to4 i addrs t n) (λ is' free'. init_addrs-Fills i addrs is' free'))
  ]

  iface-Fills :
      (i : Iface) (addrs : Option (List Addr)) (is : List Intf) (free : ℕ)
      → Fills is (iface_intfs i addrs) free (init_iface to4 i addrs (filled is free) (length is))
  iface-Fills i none is free = (
    λ left e. rw (append-nil is) (ap (λ (n : ℕ). ok (filled is n, length is)) (omega arith)),
    λ h. absurd (omega arith),
  )
  iface-Fills i (some addrs) is free = init_addrs-Fills i addrs is free

  -- The whole table: the loops fill it in order, or panic.
  abbrev FillsTable : List Intf → List Intf → ℕ → Go Table → Type 0
  FillsTable is more free r =
      ((left : ℕ) → free ≡ length more + left → r ≡ ok (filled (is ++ more) left))
      × (free < length more → r ≡ panic)

  bind-FillsTable :
      (is a b : List Intf) (free : ℕ) (r : Go (Table × ℕ)) (f : Table × ℕ → Go Table)
      → Fills is a free r
      → ((left : ℕ) → FillsTable (is ++ a) b left (f (filled (is ++ a) left, length (is ++ a))))
      → FillsTable is (a ++ b) free (r >>= f)
  bind-FillsTable is a b free r f (fits, full) next = elim (dec_lt free (length a)) [
    | yes h ↦ (λ left e. absurd (omega (arith, length-append a b)), λ _. rw (full h) refl)
    | no h ↦
        let rest : ℕ = free - length a in
        let (fits', full') = next rest in
        rw (fits rest (omega arith)) (
          λ left e.
              subst
                (λ (js : List Intf).
                  f (filled (is ++ a) rest, length (is ++ a)) ≡ ok (filled js left))
                (append_assoc is a b) (fits' left (omega (arith, length-append a b))),
          λ k. full' (omega (arith, length-append a b)),
        )
  ]

  init_ifaces-FillsTable :
      (ifaces : List Iface) (is : List Intf) (free : ℕ)
      → FillsTable is (intfs_of ifaces) free (init_ifaces to4 ifaces (filled is free) (length is))
  unfolding init_ifaces intfs_of
  init_ifaces-FillsTable [] is free = (
    λ left e. rw (append-nil is) (ap (λ (n : ℕ). ok (filled is n)) (omega arith)),
    λ h. absurd (omega arith),
  )
  init_ifaces-FillsTable (i ∷ ifaces) is free = elim (Bool-cases (str_eq i.name "lo")) [
    | inl e ↦ rw e (init_ifaces-FillsTable ifaces is free)
    | inr e ↦ rw e (
        bind-FillsTable is (iface_intfs i i.addrs) (intfs_of ifaces) free
          (init_iface to4 i i.addrs (filled is free) (length is))
          (λ (table, index). init_ifaces to4 ifaces table index) (iface-Fills i i.addrs is free)
          (λ left. init_ifaces-FillsTable ifaces (is ++ iface_intfs i i.addrs) left))
  ]

  -- `main` brings the node up exactly if the v4 addresses, of the interfaces other than the loopback
  -- one, are one fewer than all interfaces: then there is a new interface for each of these
  -- addresses, in order, and nothing else in the node's state. Else it panics.
  pub boot-intfs_of :
      (ifaces : List Iface)
      → boot to4 ifaces ≡ (
          if length (intfs_of ifaces) + 1 == length ifaces
          then ok (fresh_node (intfs_of ifaces))
          else panic)
  unfolding boot init_interfaces
  boot-intfs_of [] = ground arith
  boot-intfs_of (i ∷ ifaces) =
      let more = intfs_of (i ∷ ifaces) in
      let (fits, full) = init_ifaces-FillsTable (i ∷ ifaces) [] (length ifaces) in
      elim (compare-cases (length more + 1) (length (i ∷ ifaces))) [
        | inl (e, k) ↦ rw (e, fits 0 (omega arith), open_sockets-filled more) refl
        | inr (inr (e, _, k)) ↦ rw (e, full (omega arith)) refl
        | inr (inl (e, _, k)) ↦
            let left : ℕ = length ifaces - length more - 1 in
            rw (e, fits (suc left) (omega arith), open_sockets-free more left) refl
      ]
