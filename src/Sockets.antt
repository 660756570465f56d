-- ===== src/Sockets.antt =====
-- ethernet.go: the raw sockets of the interfaces, their opening, reading and writing.
--
-- What the system answers to a call is an argument, an `errno` of 0 being no error; what it is asked
-- is a result. The sockets of the interfaces are an association list, the newest entry first.
pub mod Open
pub mod Link
mod Examples
use go_is_is.Common.{
  ℕ, zero, suc, ◌+◌, ◌*◌, ◌/◌, ◌%◌, ◌^◌, List, [], ◌∷◌, ◌++◌, Option, none, some, Go, ok, panic,
  ◌>>=◌, ltb, ◌==◌, if◌then◌else◌, take, length, get_elem?,
}
use Prim.Native.String.{String}
use text.Mathlib.Text.{◌==◌ as str_eq}
use go_is_is.Bytes.{or_panic}
use go_is_is.Daemon.{Read, failed, got, recv_frame}

-- `net.Interface`
pub record NetIntf : Type 0 where
  pub index : ℕ
  pub hardware_addr : List ℕ

pub record RawSock : Type 0 where
  pub fd : ℕ
  pub intf : NetIntf

-- `syscall.RawSockaddrLinklayer`; a field that is not set is zero.
pub record Sll : Type 0 where
  pub family : ℕ
  pub protocol : ℕ
  pub ifindex : ℕ
  pub addr : List ℕ
  pub halen : ℕ

-- What the system is asked: a socket of a protocol, to bind a socket, to send on one.
pub data Call : Type 0 where
  socket : ℕ → Call
  bind : ℕ → Sll → Call
  sendto : ℕ → List ℕ → Sll → Call

-- On a `uint16`; the two parts have no bit in common.
unfoldable pub htons : ℕ → ℕ
htons host = (host % 2 ^ 8) * 2 ^ 8 + host / 2 ^ 8

-- `syscall.IPPROTO_RAW`
abbrev pub ipproto_raw : ℕ
ipproto_raw = 255

abbrev pub pf_packet : ℕ
pf_packet = 17

abbrev pub eth_p_all : ℕ
eth_p_all = 0x0003

abbrev pub read_buf_size : ℕ
read_buf_size = 1000

-- The answers to a look-up of the interface, to `Socket`, and to `SYS_BIND`; `none` is an error.
pub record Answers : Type 0 where
  pub looked_up : Option NetIntf
  pub opened : Option ℕ
  pub bound : ℕ

-- The new socket, `none` where nil is returned with an error, and what was asked.
unfoldable pub new_raw_sock : Answers → Option RawSock × List Call
new_raw_sock a = elim a.looked_up [
  | none ↦ (none, [])
  | some intf ↦ (elim a.opened [
    | none ↦ (none, socket ipproto_raw ∷ [])
    | some fd ↦ (some (record { fd = fd; intf = intf }), socket ipproto_raw ∷ [])
  ])
]

abbrev pub bind_address : NetIntf → Sll
bind_address intf = record {
  family = pf_packet;
  protocol = htons eth_p_all;
  ifindex = intf.index;
  addr = 0 ∷ 0 ∷ 0 ∷ 0 ∷ 0 ∷ 0 ∷ 0 ∷ 0 ∷ [];
  halen = 0;
}

unfoldable pub new_raw_sock_recv : Answers → Option RawSock × List Call
unfolding htons
new_raw_sock_recv a = elim a.looked_up [
  | none ↦ (none, [])
  | some intf ↦ (elim a.opened [
    | none ↦ (none, socket (htons eth_p_all) ∷ [])
    | some fd ↦ (
      if ltb 0 a.bound then none else some (record { fd = fd; intf = intf }),
      socket (htons eth_p_all) ∷ bind fd (bind_address intf) ∷ [],
    )
  ])
]

abbrev pub Sockets : Type 0
Sockets = List (String × Option RawSock × Option RawSock)

-- `RawSocks[ifname]`; the array of a name that is not there holds two nil pointers.
unfoldable pub socks_of : Sockets → String → Option RawSock × Option RawSock
socks_of [] ifname = (none, none)
socks_of ((name, s, r) ∷ socks) ifname =
    if str_eq name ifname then (s, r) else socks_of socks ifname

-- `ethernetIntfInit`, with the answers for the one socket and for the other. An error is only logged,
-- and nil is stored.
unfoldable pub ethernet_intf_init : String → Answers → Answers → Sockets → Sockets
unfolding new_raw_sock new_raw_sock_recv
ethernet_intf_init ifname for_send for_recv socks =
    (ifname, (new_raw_sock for_send).0, (new_raw_sock_recv for_recv).0) ∷ socks

-- The loop over `dst`: the first bytes of the frame, as many as are left, from the index on.
unfoldable pub first_bytes : ℕ → ℕ → List ℕ → Go (List ℕ)
first_bytes zero i b = ok []
first_bytes (suc count) i b =
    or_panic (get_elem? b i) >>= λ x. first_bytes count (suc i) b >>= λ rest. ok (x ∷ rest)

-- `RawSock.Write`: the number that is returned, and what was asked. The answer is an `errno` and the
-- number of bytes sent. A nil socket panics.
unfoldable pub write : Option RawSock → List ℕ → ℕ → ℕ → Go (ℕ × Call)
unfolding first_bytes
write none b errno written = panic
write (some c) b errno written = first_bytes 8 0 b >>= λ dst. ok (
  if ltb 0 errno then 0 else written,
  sendto c.fd b
      (record { family = 0; protocol = 0; ifindex = c.intf.index; addr = dst; halen = 6 }),
)

-- `sendFrame`: what was asked; that no byte was sent is only logged.
unfoldable pub send_frame : Sockets → String → List ℕ → ℕ → ℕ → Go Call
unfolding socks_of write
send_frame socks ifname frame errno written =
    write (socks_of socks ifname).0 frame errno written >>= λ (n, asked). ok asked

-- `RawSock.Read` into the buffer of `recvFrame`, when the answer is an `errno` and a frame came in:
-- what does not fit is lost.
unfoldable pub read : ℕ → List ℕ → Read
read errno frame = if ltb 0 errno then failed else got (take read_buf_size frame)

-- The answers to the reads to come.
unfoldable pub reads_of : List (ℕ × List ℕ) → List Read
unfolding read
reads_of [] = []
reads_of ((errno, frame) ∷ answers) = read errno frame ∷ reads_of answers

-- `recvFrame` on the socket of an interface; a nil socket panics.
unfoldable pub recv_on :
    Option RawSock → List ℕ → List ℕ → List Read → Go (Option (List ℕ × List Read))
unfolding recv_frame
recv_on none src stale reads = panic
recv_on (some c) src stale reads = ok (recv_frame src stale reads)

-- `getMac`, by the answer to the look-up, whose error is dropped: a nil interface panics.
unfoldable pub get_mac : Option NetIntf → Go (List ℕ)
get_mac none = panic
get_mac (some intf) = ok intf.hardware_addr
