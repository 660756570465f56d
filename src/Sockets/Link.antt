-- ===== src/Sockets/Link.antt =====
-- An LSP on its way through the sockets of two nodes.
use go_is_is.Common.{
  ℕ, zero, suc, ◌≤◌, ◌<◌, ◌≡◌, refl, ap, List, [], ◌∷◌, ◌++◌, map, replicate, false, Option, none,
  some, Go, ok, ◌>>=◌, Returns, length, take, lt→ltb, arith, All, get_elem?,
}
use Prim.Native.String.{String}
use go_is_is.Bytes.{bytes_equal}
use go_is_is.Avl.Contract.{IsAvl}
use go_is_is.Lsp.{Lsp}
use go_is_is.Node.{Intf}
use go_is_is.Update.{lsp_frame}
use go_is_is.Lsp.{serialize_lsp}
use go_is_is.Tlv.{build_ethernet_frame}
use go_is_is.Daemon.Announce.{length-build_ethernet_frame}
use go_is_is.Daemon.Dispatch.{recv_frame-first}
use go_is_is.Sockets.Open.{first_bytes-take}
use go_is_is.Update.Wire.{IsSendable}
use go_is_is.Daemon.{Daemon, Output, Read, got, failed, received, step}
use go_is_is.Daemon.Exchange.{Taken, step-lsp_frame}
use go_is_is.Sockets.{
  RawSock, Call, socket, bind, sendto, write, read, reads_of, recv_on, read_buf_size,
}

-- What the system is asked to send.
abbrev pub payload : Call → List ℕ
payload (socket protocol) = []
payload (bind fd addr) = []
payload (sendto fd b addr) = b

take_whole : (n : ℕ) (xs : List ℕ) → length xs ≤ n → take n xs ≡ xs
take_whole zero [] h = refl
take_whole zero (x ∷ xs) h = absurd (omega arith)
take_whole (suc n) [] h = refl
take_whole (suc n) (x ∷ xs) h = ap (◌∷◌ x) (take_whole n xs (omega arith))

-- Reads that fail, by their `errno`.
abbrev pub failures : List ℕ → List (ℕ × List ℕ)
failures errors = map (λ e. (e, [])) errors

module _ (l1_multicast : List ℕ) (get_mac : String → List ℕ) (to4 : List ℕ → List ℕ) where
  -- The rounds on what `recvFrame` returns; it may wait for ever.
  unfoldable pub take_in :
      Daemon → ℕ → List ℕ → Option (List ℕ × List Read) → Go (Daemon × List Output)
  unfolding step
  take_in d n spare none = ok (d, [])
  take_in d n spare (some (frame, reads)) =
      step l1_multicast get_mac to4 d (received n (record { items = frame; spare = spare }))

  -- A frame is written to a socket of one node. The other node's `recvFrame`, whose interface has the
  -- address `src` and whose buffer holds `stale`, gets it after some reads that fail.
  unfoldable pub carry :
      Option RawSock
      → List ℕ
      → Option RawSock
      → List ℕ
      → List ℕ
      → List ℕ
      → List ℕ
      → Daemon
      → ℕ
      → Go (Daemon × List Output)
  unfolding write reads_of recv_on take_in
  carry out frame into src stale errors spare d n =
      write out frame 0 (length frame) >>= λ (_, asked).
      recv_on into src stale (reads_of (failures errors ++ (0, payload asked) ∷ [])) >>= λ r.
      take_in d n spare r

  reads_of-failures :
      (errors : List ℕ) (frame : List ℕ)
      → All (λ e. 0 < e) errors
      → length frame ≤ read_buf_size
      → reads_of (failures errors ++ (0, frame) ∷ [])
        ≡ replicate (length errors) failed ++ got frame ∷ []
  unfolding reads_of read
  reads_of-failures [] frame p h = rw (take_whole read_buf_size frame h) refl
  reads_of-failures (e ∷ errors) frame (q, p) h =
      rw (lt→ltb 0 e q, reads_of-failures errors frame p h) refl

  -- A node writes an LSP to the open socket of an interface, and the frame is at most as long as the
  -- buffer of `recvFrame` on the other node, 1000 bytes. Addresses have six bytes, the LSP has the
  -- form that survives a link, and the other node's interface is there, with an open socket, its
  -- database is a balanced search tree, and the memory of its emptied buffer does not hold the
  -- interface's own address. Then, however many reads fail before, the frame is read whole and goes
  -- to the update process, which does with it what that LSP calls for, and nothing panics.
  pub carry-lsp_frame :
      (out into : RawSock) (sender_mac : String → List ℕ) (name : String) (lsp : Lsp)
      (src stale errors spare : List ℕ) (d : Daemon) (n : ℕ) (intf : Intf)
      → length l1_multicast ≡ 6
      → length (sender_mac name) ≡ 6
      → IsSendable lsp
      → length (lsp_frame l1_multicast sender_mac name lsp) ≤ read_buf_size
      → All (λ e. 0 < e) errors
      → bytes_equal stale src ≡ false
      → get_elem? d.node.config.interfaces n ≡ some intf
      → IsAvl d.node.update_db
      → Returns
          (carry
            (some out)
            (lsp_frame l1_multicast sender_mac name lsp)
            (some into)
            src
            stale
            errors
            spare
            d
            n)
          (Taken intf.name lsp d)
  unfolding carry write recv_on take_in
  carry-lsp_frame out into sender_mac name lsp src stale errors spare d n intf a b s short pos other
        at v =
      let frame = lsp_frame l1_multicast sender_mac name lsp in
      rw
        (
          first_bytes-take 8 0 frame (
              omega (
                arith,
                length-build_ethernet_frame l1_multicast (sender_mac name)
                    (serialize_lsp lsp.core_lsp),
                long,
              )),
          reads_of-failures errors frame pos short,
          recv_frame-first src stale frame (length errors) [] other,
        )
        (step-lsp_frame l1_multicast get_mac to4 sender_mac name lsp spare d n intf a b
          s.well_formed s.discriminator s.type_pdu at v)
    where
      long :
          length (lsp_frame l1_multicast sender_mac name lsp)
          ≡ length
              (build_ethernet_frame l1_multicast (sender_mac name) (serialize_lsp lsp.core_lsp))
      long = unfold lsp_frame in refl
