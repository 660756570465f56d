-- ===== src/Lib.antt =====
-- A model of the IS-IS routing daemon, with proofs about it.
--
-- The daemon runs on every node of a network. It finds its neighbors by hello packets (hello.go),
-- describes them in a link state PDU (LSP), floods the LSPs of all nodes through the network and
-- keeps the newest of each in a database, an AVL tree (update.go, avl.go), and computes shortest
-- paths from it (decision.go). Frames are read and written on raw sockets (ethernet.go); the system
-- ID is configured over gRPC (main.go).
--
-- Which file models what:
--   Avl        avl.go: AvlInsert, AvlDelete, AvlSearch, AvlUpdate, AvlGetAll and their rotations.
--              Assoc is what they are compared with, operations on an ordered list.
--   Bytes      what the code uses of Go's slices, encoding/binary and encoding/hex.
--   Tlv        ethernet.go: IsisTLV, parseTLVs, buildEthernetFrame; update.go: the serialization.
--   SystemId   main.go: systemIDToString, systemIDToBytes; update.go: lspIDToKey, systemIDToKey,
--              systemIDToLspID.
--   Lsp        update.go: IsisLsp, serializeLsp, deserializeLsp, buildEmptyLSP.
--   Node       main.go: Config, Intf, Adjacency, LspFloodState, getAdjacency, the handlers of the
--              system ID; with the globals of update.go, the state of a node.
--   Update     update.go: isisUpdateInput, floodNewLsp, isisUpdate, generateLocalLsp.
--   Hello      hello.go: the hello packets, sendHello, recvHello and the rounds of isisHelloSend and
--              isisHelloRecv.
--   Decision   decision.go: computeSPF and what it calls, isisDecision, installRouteFromPath.
--   Boot       main.go: initInterfaces and main up to the sockets.
--   Daemon     ethernet.go: recvFrame, recvPdus; main.go: the goroutines that main starts, as steps of
--              a node on events; topoDBInit and the trigger channel of decision.go.
--   Sockets    ethernet.go: NewRawSock, NewRawSockRecv, RawSock.Read and Write, ethernetIntfInit,
--              sendFrame, recvFrame on a socket, getMac, htons.
--   Report     main.go: GetIntf, GetLsp, GetTopo; IsisLsp.String of update.go, Triple.String of
--              decision.go.
--   Reach      update.go: getNeighbors, lookupNeighbors, getPrefixesFromTLV,
--              getDirectlyConnectedPrefixes.
--   Common     results that may panic, lists, and the names that all files use.
--
-- How the code is read. A function that can panic returns a `Go` value: a result, `panic`, or
-- `out_of_fuel` for a loop cut short. Pointers to tree nodes and TLVs are never shared, so trees
-- and lists of TLVs are values. A round of a goroutine's loop is one function from the state to its
-- next, as if nothing else ran meanwhile; a channel send is a part of its result. Log output is
-- left out. A string or byte array is a list of numbers; lengths of TLVs and sequence numbers wrap
-- as their types do. A slice has its elements and its spare capacity, since slicing up to the
-- capacity is legal.
--
-- Fuel. `get_all` gives its loop as many rounds as twice the nodes and one more: a round pushes a
-- node on the stack or takes one off. `parse_tlvs` gives as many as the bytes and one more: a round
-- moves on by two bytes at least. The loop of `compute_spf` gets as many as the adjacencies that are
-- up, the neighbors that the other LSPs advertise, and one more: a round takes one off `tent`, and only
-- these enter it.
--
-- The parts together. A step of the node (`Daemon.step`) is a round of one goroutine, on an event: a
-- frame that comes in, a timer, a trigger of SPF, a call over gRPC; `Daemon.run` takes any sequence of
-- them. The goroutines of a node share its state as in the code: the interfaces, the databases, the
-- system ID. Frames and routes are the output of a step. Steps of several nodes are put together where
-- one receives what another sends: `Daemon.Meet.exchange` for hellos, `Daemon.Spread.spread` for the
-- LSPs marked on a link, `Daemon.Announce.announce` for an answer and the LSP that follows from it,
-- `Daemon.Chain.flood` for a path of nodes. A node is called sound (`Daemon.Sound.IsSound`) if its
-- databases are balanced search trees with every LSP under its own key, it has at most 23 interfaces
-- and 21 routes, all IPv4, adjacencies that are up have IDs of six bytes, flood states are under the keys
-- of their LSPs, and every LSP stored has the form with which it survives a link. The bounds are what
-- the length byte of a TLV can count.
--
-- The MAC address of an interface, the multicast address and `net.IP.To4` are parameters of what
-- sends frames, and the texts that net makes of addresses are parameters of the reports. What the
-- system answers to a call on a socket is an argument; a read gives at most the bytes of the buffer.
-- Where several nodes are put together, a frame is handed over whole, as a read gives it if it has at
-- most READ_BUF_SIZE bytes (`Sockets.Link.carry` goes through the sockets); an LSP that a sound node
-- generates has at most two TLVs of 257 bytes behind 41 bytes of headers. `getMac` is one function of
-- an interface's name there, so the names are to differ between nodes where the addresses do; only
-- `Sockets.Link` and the steps on a received LSP or first hello take the sender's addresses apart. A triple holds the
-- adjacency as it was when the triple was made, where the code keeps a pointer to it.
-- What net and netlink say of interfaces and routes is an input of the start; the calls of netlink
-- that add routes are results. Not modelled: races of goroutines inside a round; the gRPC layer, which
-- is generated, and its start; signals, flags and logs, with the functions that only log a database
-- or a list; the script that prints what the handlers report.
pub mod Common
pub mod Assoc
pub mod Avl
pub mod Bytes
pub mod Tlv
pub mod SystemId
pub mod Lsp
pub mod Node
pub mod Update
pub mod Reach
pub mod Hello
pub mod Decision
pub mod Boot
pub mod Daemon
pub mod Report
pub mod Sockets
