-- ===== src/Daemon/Meet.antt =====
-- Two nodes on a link: from the first hello to adjacencies that are up on both sides.
use go_is_is.Common.{
  ℕ, ◌≤◌, ◌≡◌, refl, ap, subst, List, [], ◌∷◌, ◌++◌, true, false, none, some, Go, ok, ◌>>=◌, arith,
  length, get_elem?, Returns, Returns-bind, Returns-and, Returns-imp, Ensures, Bool-cases, inl, inr,
}
use Prim.Native.String.{String}
use go_is_is.Bytes.{bytes_equal, copy_into}
use go_is_is.SystemId.{system_id_to_string, system_id_to_bytes}
use go_is_is.Node.{Intf, Adjacency, is_up}
use go_is_is.Hello.{send_hello, hello_send}
use go_is_is.Hello.Frame.{heard}
use go_is_is.Hello.Handshake.{with_neighbor, raise}
use go_is_is.Daemon.{
  Daemon, Output, sent, route, sent_by, hello_timer, received, step, set_at, set_intf, with_node,
  intf_step,
}
use go_is_is.Daemon.Kept.{Kept-refl}
use go_is_is.Daemon.Safety.{Inv, After, step-After}
use go_is_is.Daemon.Exchange.{Renewed, step-send_hello-none, step-send_hello}
use go_is_is.Daemon.Lookup.{
  IsUpAt, IsUpAt-Kept, get_elem?-set_at, get_elem?-Flooded, get_elem?-Kept,
}

-- Two nodes that are configured, with an interface each.
pub record Ready (d : Daemon) (n : ℕ) (e : Daemon) (m : ℕ) : Type 0 where
  pub inv_here : Inv d
  pub inv_there : Inv e
  pub intf_here : Intf
  pub at_here : get_elem? d.node.config.interfaces n ≡ some intf_here
  pub intf_there : Intf
  pub at_there : get_elem? e.node.config.interfaces m ≡ some intf_there
  pub configured_here : 1 ≤ length d.node.config.sid
  pub configured_there : 1 ≤ length e.node.config.sid
  pub distinct_here :
      bytes_equal (system_id_to_string (system_id_to_bytes d.node.config.sid)) e.node.config.sid
      ≡ false
  pub distinct_there :
      bytes_equal (system_id_to_string (system_id_to_bytes e.node.config.sid)) d.node.config.sid
      ≡ false

-- The two nodes go on from there, seen from the other side.
Ready-After :
    (d d' : Daemon) (n : ℕ) (e e' : Daemon) (m : ℕ)
    → Ready d n e m
    → After d d'
    → After e e'
    → d'.node.config.sid ≡ d.node.config.sid
    → e'.node.config.sid ≡ e.node.config.sid
    → Ready e' m d' n
Ready-After d d' n e e' m r (v, k) (w, l) s t =
    let (i, at, _) =
      get_elem?-Kept d.node.config.interfaces d'.node.config.interfaces n r.intf_here k r.at_here in
    let (j, at', _) =
      get_elem?-Kept e.node.config.interfaces e'.node.config.interfaces m r.intf_there l
        r.at_there in
    record {
      inv_here = w;
      inv_there = v;
      intf_here = j;
      at_here = at';
      intf_there = i;
      at_there = at;
      configured_here = rw t r.configured_there;
      configured_there = rw s r.configured_here;
      distinct_here = rw (s, t) r.distinct_there;
      distinct_there = rw (s, t) r.distinct_here;
    }

-- What one exchange of hellos leaves.
pub record Met (d : Daemon) (n : ℕ) (e : Daemon) (r : Daemon × Daemon) : Type 0 where
  pub here_up : IsUpAt r.0 n
  pub after_here : After d r.0
  pub after_there : After e r.1
  pub same_here : r.0.node.config.sid ≡ d.node.config.sid
  pub same_there : r.1.node.config.sid ≡ e.node.config.sid

-- What the answer leaves.
abbrev Joined : Daemon → ℕ → Daemon → Type 0
Joined d n d' = IsUpAt d' n × After d d' × (d'.node.config.sid ≡ d.node.config.sid)

-- An adjacency that is set up is up after the local LSP is flooded.
IsUpAt-Renewed :
    (d : Daemon) (n : ℕ) (i : Intf) (id ip : List ℕ) (r : Daemon × List Output)
    → get_elem? d.node.config.interfaces n ≡ some i
    → Renewed (set_intf d.node n (with_neighbor i id ip)) d r
    → IsUpAt r.0 n
IsUpAt-Renewed d n i id ip r e g =
    let j = with_neighbor i id ip in
    let (k, at, m) =
      get_elem?-Flooded _ _ (set_at d.node.config.interfaces n j) r.0.node.config.interfaces n j
        g.generated.flooded (get_elem?-set_at d.node.config.interfaces n i j e) in
    record { intf = k; at = at; is_up_there = ap (λ (a : Adjacency). is_up a.state) m.same_adj }

module _ (l1_multicast : List ℕ) (get_mac : String → List ℕ) (to4 : List ℕ → List ℕ) where
  -- The frames that a node has sent, received one after the other on an interface of another.
  unfoldable pub deliver_all : Daemon → ℕ → List Output → Go (Daemon × List Output)
  unfolding step
  deliver_all d n [] = ok (d, [])
  deliver_all d n (sent name frame ∷ out) =
      step l1_multicast get_mac to4 d (received n (record { items = frame; spare = [] }))
      >>= λ (d', back). deliver_all d' n out >>= λ (d'', more). ok (d'', back ++ more)
  deliver_all d n (route r ∷ out) = deliver_all d n out

  -- The hello timer of the first node fires; what it sends reaches the second node, and the answer
  -- the first one.
  unfoldable pub exchange : Daemon → ℕ → Daemon → ℕ → Go (Daemon × Daemon)
  unfolding step deliver_all
  exchange d n e m = step l1_multicast get_mac to4 d (hello_timer n) >>= λ (d', out).
      deliver_all e m out >>= λ (e', back). deliver_all d' n back >>= λ (d'', _). ok (d'', e')

  hello_send-up :
      (sid : List ℕ) (i : Intf)
      → is_up i.adj.state ≡ true
      → hello_send l1_multicast get_mac to4 sid i ≡ none
  unfolding hello_send
  hello_send-up [] i u = refl
  hello_send-up (c ∷ sid) i u = rw u refl

  hello_send-down :
      (sid : List ℕ) (i : Intf)
      → 1 ≤ length sid
      → is_up i.adj.state ≡ false
      → hello_send l1_multicast get_mac to4 sid i
        ≡ some (send_hello l1_multicast get_mac to4 i sid none)
  unfolding hello_send
  hello_send-down [] i l u = absurd (omega arith)
  hello_send-down (c ∷ sid) i l u = rw u refl

  step-hello_timer :
      (d : Daemon) (n : ℕ) (i : Intf)
      → get_elem? d.node.config.interfaces n ≡ some i
      → step l1_multicast get_mac to4 d (hello_timer n)
        ≡ ok (d, sent_by i (hello_send l1_multicast get_mac to4 d.node.config.sid i))
  unfolding step intf_step
  step-hello_timer d n i e = rw e refl

  module _ (six : length l1_multicast ≡ 6)
      (macs : (name : String) → length (get_mac name) ≡ 6) where
    answer-Joined :
        (d : Daemon) (n : ℕ) (e : Daemon) (m : ℕ) (r : Ready d n e m) (name : String)
        → let answer =
            send_hello l1_multicast get_mac to4 r.intf_there e.node.config.sid
              (some (heard (get_mac r.intf_here.name))) in
          Returns (deliver_all d n (sent name answer ∷ [])) λ q. Joined d n q.0
    unfolding deliver_all
    answer-Joined d n e m r name =
        let i = r.intf_here in
        let j = r.intf_there in
        let event = received n (record {
          items =
              send_hello l1_multicast get_mac to4 j e.node.config.sid
                (some (heard (get_mac i.name)));
          spare = [];
        }) in
        let round = step l1_multicast get_mac to4 d event in
        let up =
          set_intf d.node n
            (with_neighbor i (system_id_to_bytes e.node.config.sid) (copy_into 4 (to4 j.prefix))) in
        Returns-bind round _ (λ q. Renewed up d q × After d q.0) _
          (Returns-and round _ _
            (step-send_hello l1_multicast get_mac to4 e.node.config.sid j [] d n i six (macs i.name)
              (macs j.name) r.distinct_there r.distinct_here r.at_here r.inv_here.db)
            (step-After l1_multicast get_mac to4 d event r.inv_here))
          λ q (g, a). (IsUpAt-Renewed d n i _ _ q r.at_here g, a, g.generated.same_sid)

    exchange-down :
        (d : Daemon) (n : ℕ) (e : Daemon) (m : ℕ) (r : Ready d n e m)
        → is_up r.intf_here.adj.state ≡ false
        → Returns (exchange d n e m) (Met d n e)
    unfolding exchange deliver_all
    exchange-down d n e m r u =
        let i = r.intf_here in
        let j = r.intf_there in
        let answer =
          send_hello l1_multicast get_mac to4 j e.node.config.sid (some (heard (get_mac i.name))) in
        let first =
          step-send_hello-none l1_multicast get_mac to4 d.node.config.sid i [] e m j six
            (macs i.name) r.distinct_here r.at_there in
        let there : After e (with_node e (set_intf e.node m (raise j))) =
          subst (λ (x : Go (Daemon × List Output)). Ensures x (λ r'. After e r'.0)) first
            (step-After l1_multicast get_mac to4 e
              (received m (record {
                items = send_hello l1_multicast get_mac to4 i d.node.config.sid none;
                spare = [];
              }))
              r.inv_there) in
        rw
          (
            step-hello_timer d n i r.at_here,
            hello_send-down d.node.config.sid i r.configured_here u,
            first,
          )
          (Returns-bind (deliver_all d n (sent j.name answer ∷ []))
            (λ q. ok (q.0, with_node e (set_intf e.node m (raise j)))) (λ q. Joined d n q.0)
            (Met d n e) (answer-Joined d n e m r j.name)
            λ q (u', a, s). record {
              here_up = u';
              after_here = a;
              after_there = there;
              same_here = s;
              same_there = refl;
            })

    exchange-Met :
        (d : Daemon) (n : ℕ) (e : Daemon) (m : ℕ)
        → Ready d n e m
        → Returns (exchange d n e m) (Met d n e)
    unfolding exchange deliver_all
    exchange-Met d n e m r = elim (Bool-cases (is_up r.intf_here.adj.state)) [
      | inl u ↦
          rw
            (
              step-hello_timer d n r.intf_here r.at_here,
              hello_send-up d.node.config.sid r.intf_here u,
            )
            (record {
              here_up = record { intf = r.intf_here; at = r.at_here; is_up_there = u };
              after_here = (r.inv_here, Kept-refl d.node.config.interfaces);
              after_there = (r.inv_there, Kept-refl e.node.config.interfaces);
              same_here = refl;
              same_there = refl;
            })
      | inr u ↦ exchange-down d n e m r u
    ]

    -- All addresses have six bytes; both nodes keep the invariant of their state, have an interface on
    -- the link and are configured, with system IDs that differ. Then, when first the one's hello timer
    -- fires and then the other's, and the frames that this makes the two send are delivered, nothing
    -- panics and the adjacency is up on both sides.
    pub exchange-IsUpAt :
        (d : Daemon) (n : ℕ) (e : Daemon) (m : ℕ)
        → Ready d n e m
        → Returns (exchange d n e m >>= λ r. exchange r.1 m r.0 n) λ r. IsUpAt r.0 m × IsUpAt r.1 n
    exchange-IsUpAt d n e m r =
        Returns-bind (exchange d n e m) _ (Met d n e) _ (exchange-Met d n e m r) λ (d', e') p.
          Returns-imp (exchange e' m d' n) (Met e' m d') _
            (λ q s. (s.here_up, IsUpAt-Kept d' q.1 n s.after_there.1 p.here_up))
            (exchange-Met e' m d' n
              (Ready-After d d' n e e' m r p.after_here p.after_there p.same_here p.same_there))
