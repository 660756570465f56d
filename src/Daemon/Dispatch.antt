-- ===== src/Daemon/Dispatch.antt =====
-- ethernet.go: which frames come in, and where they go.
use go_is_is.Common.{
  ℕ, zero, suc, ◌+◌, ◌≤◌, ◌≡◌, refl, ap, List, [], ◌∷◌, ◌++◌, true, false, some, ok, arith, length,
  length-append, replicate, get_elem?, leb,
}
use go_is_is.Bytes.{index, bytes_equal}
use go_is_is.Tlv.{build_ethernet_frame}
use go_is_is.Lsp.{PduHeader, write_pdu_header}
use go_is_is.Daemon.{Read, failed, got, recv_frame, recv_pdu, hello_chan, update_chan}

-- A read that fails is followed by the next one. When the memory of the emptied buffer does not hold
-- the interface's own address, `recvFrame` returns the first frame that is read, whatever its source
-- is, and leaves the reads behind it.
pub recv_frame-first :
    (src stale frame : List ℕ) (errors : ℕ) (reads : List Read)
    → bytes_equal stale src ≡ false
    → recv_frame src stale (replicate errors failed ++ got frame ∷ reads) ≡ some (frame, reads)
unfolding recv_frame
recv_frame-first src stale frame zero reads e = rw e refl
recv_frame-first src stale frame (suc errors) reads e =
    recv_frame-first src stale frame errors reads e

elem_behind :
    (xs ys : List ℕ) (i k : ℕ) → i ≡ length xs + k → get_elem? (xs ++ ys) i ≡ get_elem? ys k
elem_behind [] ys i k e = ap (get_elem? ys) (omega arith)
elem_behind (x ∷ xs) ys zero k e = absurd (omega arith)
elem_behind (x ∷ xs) ys (suc i) k e = elem_behind xs ys i k (omega arith)

-- A byte of the payload of a frame.
index-frame :
    (dst src payload spare : List ℕ) (i k : ℕ)
    → length dst ≡ 6
    → length src ≡ 6
    → i ≡ 14 + k
    → index (record { items = build_ethernet_frame dst src payload; spare = spare }) i
      ≡ index (record { items = payload; spare = spare }) k
unfolding index build_ethernet_frame
index-frame dst src payload spare i k d s e = rw (
  elem_behind dst (src ++ 0x08 ∷ 0x00 ∷ payload) i (8 + k) (omega arith),
  elem_behind src (0x08 ∷ 0x00 ∷ payload) (8 + k) (2 + k) (omega arith),
  elem_behind (0x08 ∷ 0x00 ∷ []) payload (2 + k) k refl,
)

long-frame :
    (dst src spare : List ℕ) (h : PduHeader) (rest : List ℕ)
    → length dst ≡ 6
    → length src ≡ 6
    → 10 ≤ length rest
    → leb 32 (length (build_ethernet_frame dst src (write_pdu_header h ++ rest)) + length spare)
      ≡ true
unfolding build_ethernet_frame write_pdu_header
long-frame dst src spare h rest d s l = ground (
  arith,
  length-append dst (src ++ 0x08 ∷ 0x00 ∷ (write_pdu_header h ++ rest)),
  length-append src (0x08 ∷ 0x00 ∷ (write_pdu_header h ++ rest)),
)

-- An LSP of the protocol's discriminator and type in a frame goes to the update process, if it has
-- the bytes that are logged.
pub recv_pdu-update :
    (dst src spare : List ℕ) (h : PduHeader) (rest : List ℕ)
    → length dst ≡ 6
    → length src ≡ 6
    → h.discriminator ≡ 0x83
    → h.type_pdu ≡ 0x12
    → 10 ≤ length rest
    → recv_pdu (record {
      items = build_ethernet_frame dst src (write_pdu_header h ++ rest);
      spare = spare;
    })
      ≡ ok update_chan
unfolding recv_pdu write_pdu_header
recv_pdu-update dst src spare h rest d s a b l = rw (
  index-frame dst src (write_pdu_header h ++ rest) spare 14 0 d s refl,
  index-frame dst src (write_pdu_header h ++ rest) spare 18 4 d s refl,
  a,
  b,
  long-frame dst src spare (record h { discriminator = 0x83; type_pdu = 0x12 }) rest d s l,
)

-- A hello of the protocol's discriminator and type goes to the hello process.
pub recv_pdu-hello :
    (dst src spare : List ℕ) (h : PduHeader) (rest : List ℕ)
    → length dst ≡ 6
    → length src ≡ 6
    → h.discriminator ≡ 0x83
    → h.type_pdu ≡ 0x0f
    → recv_pdu (record {
      items = build_ethernet_frame dst src (write_pdu_header h ++ rest);
      spare = spare;
    })
      ≡ ok hello_chan
unfolding recv_pdu write_pdu_header
recv_pdu-hello dst src spare h rest d s a b =
    rw
      (
        index-frame dst src (write_pdu_header h ++ rest) spare 14 0 d s refl,
        index-frame dst src (write_pdu_header h ++ rest) spare 18 4 d s refl,
        a,
        b,
      )
      refl
