-- ===== src/Sockets/Open.antt =====
-- What is sent and received on the sockets that were opened.
use go_is_is.Common.{
  ℕ, zero, suc, ◌+◌, ◌^◌, ◌≤◌, ◌<◌, ◌≡◌, refl, sym, List, [], ◌∷◌, Bool, true, false, Option, none,
  some, Go, ok, panic, ◌>>=◌, ltb, if◌then◌else◌, take, drop, length, get_elem?, arith, Bool-cases,
  inl, inr, get_elem?-lt, get_elem?-none, ltb→lt,
}
use Prim.Native.String.{String}
use text.Mathlib.Text.{◌==◌ as str_eq}
use go_is_is.Sockets.{
  Answers, NetIntf, Sockets, Call, sendto, htons, first_bytes, write, send_frame, socks_of,
  ethernet_intf_init, new_raw_sock,
}

-- In network byte order and back.
pub htons-htons : (n : ℕ) → n < 2 ^ 16 → htons (htons n) ≡ n
unfolding htons
htons-htons n h = omega arith

drop_get : (b : List ℕ) (i x : ℕ) → get_elem? b i ≡ some x → drop i b ≡ x ∷ drop (suc i) b
drop_get [] i x e = cc
drop_get (y ∷ b) zero x e = cc
drop_get (y ∷ b) (suc i) x e = drop_get b i x e

pub first_bytes-take :
    (count i : ℕ) (b : List ℕ)
    → i + count ≤ length b
    → first_bytes count i b ≡ ok (take count (drop i b))
unfolding first_bytes
first_bytes-take zero i b h = refl
first_bytes-take (suc count) i b h =
    let (x, e) = get_elem?-lt b i (omega arith) in
    rw (e, drop_get b i x e, first_bytes-take count (suc i) b (omega arith)) refl

first_bytes_short :
    (count i : ℕ) (b : List ℕ) → i ≤ length b → length b < i + count → first_bytes count i b ≡ panic
unfolding first_bytes
first_bytes_short zero i b h k = absurd (omega arith)
first_bytes_short (suc count) i b h k = elim (Bool-cases (ltb i (length b))) [
  | inr f ↦ rw (get_elem?-none b i (ground arith)) refl
  | inl f ↦
      let (x, e) = get_elem?-lt b i (ltb→lt i (length b) f) in
      rw (e, first_bytes_short count (suc i) b (omega (arith, ltb→lt i (length b) f)) (omega arith))
        refl
]

-- The frame as it is sent on a socket that was opened.
abbrev pub sent_on : Answers → List ℕ → Go Call
sent_on a frame = elim a.looked_up [
  | none ↦ panic
  | some intf ↦ elim a.opened [
    | none ↦ panic
    | some fd ↦ ok (
        sendto fd frame (record {
          family = 0;
          protocol = 0;
          ifindex = intf.index;
          addr = take 8 frame;
          halen = 6;
        }))
  ]
]

same_branches {ℓ} : {A : Type ℓ} (b : Bool) (x : A) → (if b then x else x) ≡ x
same_branches true x = refl
same_branches false x = refl

first_eight :
    (frame : List ℕ)
    → first_bytes 8 0 frame ≡ (if ltb (length frame) 8 then panic else ok (take 8 frame))
first_eight frame = elim (Bool-cases (ltb (length frame) 8)) [
  | inl f ↦
      rw (f, first_bytes_short 8 0 frame (omega arith) (omega (arith, ltb→lt (length frame) 8 f)))
        refl
  | inr f ↦ rw (f, first_bytes-take 8 0 frame (ground arith)) refl
]

write-sent_on :
    (looked_up : Option NetIntf) (opened : Option ℕ) (bound : ℕ) (frame : List ℕ)
    (errno written : ℕ)
    → let a : Answers = record { looked_up = looked_up; opened = opened; bound = bound } in
      (write (new_raw_sock a).0 frame errno written >>= λ (n, asked). ok asked)
      ≡ (if ltb (length frame) 8 then panic else sent_on a frame)
unfolding write new_raw_sock
write-sent_on none opened bound frame errno written =
    sym (same_branches (ltb (length frame) 8) panic)
write-sent_on (some intf) none bound frame errno written =
    sym (same_branches (ltb (length frame) 8) panic)
write-sent_on (some intf) (some fd) bound frame errno written =
    rw (first_eight frame)
      (elim (Bool-cases (ltb (length frame) 8)) [ inl f ↦ rw f refl | inr f ↦ rw f refl ])

-- What is sent on an interface whose sockets were just opened is the whole frame, on its socket, to
-- the interface's index and the frame's first bytes; a frame of less than 8 bytes panics, and so does
-- every frame if the interface was not found or its socket not opened, since that is only logged. On
-- another interface all is as before.
pub send_frame-ethernet_intf_init :
    (socks : Sockets) (name other : String) (s r : Answers) (frame : List ℕ) (errno written : ℕ)
    → send_frame (ethernet_intf_init name s r socks) other frame errno written ≡ (
        if str_eq name other
        then (if ltb (length frame) 8 then panic else sent_on s frame)
        else send_frame socks other frame errno written)
unfolding send_frame ethernet_intf_init socks_of
send_frame-ethernet_intf_init socks name other s r frame errno written =
    elim (Bool-cases (str_eq name other)) [
      | inl e ↦ rw e (write-sent_on s.looked_up s.opened s.bound frame errno written)
      | inr e ↦ rw e refl
    ]
