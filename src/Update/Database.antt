-- ===== src/Update/Database.antt =====
-- What the LSP database holds after LSPs are received.
use go_is_is.Common.{
  ℕ, ◌≡◌, refl, suc, fun_ext, ==→eq, sym, subst, ◌∙◌, List, [], ◌∷◌, Bool, true, false, ◌&&◌,
  Option, none, some, arith, Go, ok, ◌>>=◌, Returns, Returns-bind, Returns-imp, Returns-and,
  Returns-Ensures, ltb, ◌==◌, if◌then◌else◌, Bool-cases, inl, inr,
}
use Prim.Native.Nat.{max}
use Prim.Native.String.{String}
use go_is_is.Assoc.{merged}
use go_is_is.Avl.{search, insert}
use go_is_is.Avl.Contract.{IsAvl, insert-IsAvl, search-insert}
use go_is_is.Lsp.{Lsp, sequence}
use go_is_is.Node.{Node}
use go_is_is.Update.{process_lsp, accept_lsp, compare_copy}
use go_is_is.Update.Flood.{Flooded, is_other, flood_new_lsp-Flooded}

-- A copy is newer than none, and than one with a smaller sequence number.
abbrev pub is_newer : Option Lsp → Lsp → Bool
is_newer none lsp = true
is_newer (some old) lsp = ltb (sequence old) (sequence lsp)

-- The step on the abstract database, a function from keys.
abbrev pub receive : (ℕ → Option Lsp) → Lsp → ℕ → Option Lsp
receive db lsp k = if lsp.key == k && is_newer (db lsp.key) lsp then some lsp else db k

and-true : (b : Bool) → (b && true) ≡ b
and-true true = refl
and-true false = refl

and-false : (b : Bool) → (b && false) ≡ false
and-false true = refl
and-false false = refl

-- What a round of the update process does, by whether the LSP is newer than the stored copy.
pub record Processed (name : String) (lsp : Lsp) (n : Node) (r : Node × Bool) : Type 0 where
  pub valid : IsAvl r.0.update_db
  pub stored : (k : ℕ) → search r.0.update_db k ≡ receive (search n.update_db) lsp k
  pub triggers : r.1 ≡ is_newer (search n.update_db lsp.key) lsp
  pub flooded : r.1 ≡ true → Flooded (is_other name) lsp n.config.interfaces r.0.config.interfaces
  pub ignored : r.1 ≡ false → r.0 ≡ n
  pub same_sequence : r.0.sequence_number ≡ n.sequence_number
  pub same_sid : r.0.config.sid ≡ n.config.sid

accept-Processed :
    (name : String) (lsp : Lsp) (o : Bool) (n : Node)
    → IsAvl n.update_db
    → is_newer (search n.update_db lsp.key) lsp ≡ true
    → merged (search n.update_db lsp.key) lsp o ≡ lsp
    → Returns (accept_lsp name lsp o n) (Processed name lsp n)
unfolding accept_lsp
accept-Processed name lsp o n a newer new =
    Returns-bind (insert n.update_db lsp.key lsp o) _ _ _
      (Returns-and (insert n.update_db lsp.key lsp o) _ _ (insert-IsAvl n.update_db lsp.key lsp o a)
        (Returns-Ensures (insert n.update_db lsp.key lsp o) _
          (search-insert n.update_db lsp.key lsp o a)))
      λ db (p, q). record {
        valid = p.0;
        stored = λ k. q k ∙ rw (newer, new, and-true) refl;
        triggers = sym newer;
        flooded = λ _. flood_new_lsp-Flooded name lsp n.config.interfaces;
        ignored = λ e. cc;
        same_sequence = refl;
        same_sid = refl;
      }

compare_copy-Processed :
    (name : String) (lsp : Lsp) (n : Node) (found : Option Lsp)
    → IsAvl n.update_db
    → search n.update_db lsp.key ≡ found
    → Returns (compare_copy name lsp n found) (Processed name lsp n)
unfolding compare_copy
compare_copy-Processed name lsp n none a e =
    accept-Processed name lsp false n a (rw e refl) (rw e refl)
compare_copy-Processed name lsp n (some old) a e =
    elim (Bool-cases (ltb (sequence old) (sequence lsp))) [
      | inl t ↦ rw t (accept-Processed name lsp true n a (rw e t) (rw e refl))
      | inr t ↦ rw t (record {
        valid = a;
        stored = λ k. rw (e, t, and-false) refl;
        triggers = rw e (sym t);
        flooded = λ q. cc;
        ignored = λ q. refl;
        same_sequence = refl;
        same_sid = refl;
      })
    ]

-- On a node whose database is a balanced search tree, a round of the update process does not panic.
-- The LSP replaces the stored copy exactly if there is none or its sequence number is smaller, and
-- no other key changes; exactly then SPF is triggered, and the LSP is marked for sending on every
-- interface but the receiving one, where the mark is cleared. Else the node is as before.
pub process_lsp-Processed :
    (name : String) (lsp : Lsp) (n : Node)
    → IsAvl n.update_db
    → Returns (process_lsp name lsp n) (Processed name lsp n)
unfolding process_lsp
process_lsp-Processed name lsp n a =
    compare_copy-Processed name lsp n (search n.update_db lsp.key) a refl

-- The rounds of all interfaces, one after the other: each is an interface's name and the LSP that
-- came in there.
unfoldable pub run : List (String × Lsp) → Node → Go Node
unfolding process_lsp
run [] n = ok n
run ((name, lsp) ∷ events) n = process_lsp name lsp n >>= λ r. run events r.0

abbrev pub receive_all : (ℕ → Option Lsp) → List (String × Lsp) → ℕ → Option Lsp
receive_all db [] = db
receive_all db ((name, lsp) ∷ events) = receive_all (receive db lsp) events

-- Any sequence of received LSPs, on any interfaces, is processed without a panic, and leaves the
-- database that the abstract one becomes: a function from keys that a newer copy replaces.
pub run_refines :
    (events : List (String × Lsp)) (n : Node)
    → IsAvl n.update_db
    → Returns
        (run events n)
        λ n'. IsAvl n'.update_db × (search n'.update_db ≡ receive_all (search n.update_db) events)
unfolding run
run_refines [] n a = (a, refl)
run_refines ((name, lsp) ∷ events) n a =
    Returns-bind (process_lsp name lsp n) _ _ _ (process_lsp-Processed name lsp n a)
      λ r p. rw (← fun_ext p.stored) (run_refines events r.0 p.valid)

-- The sequence number stored under a key, one more than it, or zero if there is none.
abbrev pub level : Option Lsp → ℕ
level none = 0
level (some lsp) = suc (sequence lsp)

abbrev pub received_level : ℕ → List (String × Lsp) → ℕ
received_level k [] = 0
received_level k ((name, lsp) ∷ events) =
    max (if lsp.key == k then suc (sequence lsp) else 0) (received_level k events)

level_newer :
    (o : Option Lsp) (lsp : Lsp)
    → level (if is_newer o lsp then some lsp else o) ≡ max (level o) (suc (sequence lsp))
level_newer none lsp = omega arith
level_newer (some old) lsp = ground arith

pub level-receive :
    (db : ℕ → Option Lsp) (lsp : Lsp) (k : ℕ)
    → level (receive db lsp k) ≡ max (level (db k)) (if lsp.key == k then suc (sequence lsp) else 0)
level-receive db lsp k = elim (Bool-cases (lsp.key == k)) [
  | inl t ↦ rw t (
      subst
        (λ (j : ℕ).
          level (if is_newer (db lsp.key) lsp then some lsp else db j)
          ≡ max (level (db j)) (suc (sequence lsp)))
        (==→eq lsp.key k t) (level_newer (db lsp.key) lsp))
  | inr t ↦ rw t (omega arith)
]

level-receive_all :
    (events : List (String × Lsp)) (db : ℕ → Option Lsp) (k : ℕ)
    → level (receive_all db events k) ≡ max (level (db k)) (received_level k events)
level-receive_all [] db k = omega arith
level-receive_all ((name, lsp) ∷ events) db k =
    omega (arith, level-receive_all events (receive db lsp) k, level-receive db lsp k)

-- Whatever the order in which LSPs arrive, the sequence number that the database ends up with under
-- a key is the largest of those that were stored or received for it.
pub run-newest :
    (events : List (String × Lsp)) (n : Node) (k : ℕ)
    → IsAvl n.update_db
    → Returns (run events n) λ n'.
      level (search n'.update_db k) ≡ max (level (search n.update_db k)) (received_level k events)
run-newest events n k a =
    Returns-imp (run events n) _ _
      (λ n' r. rw r.1 (level-receive_all events (search n.update_db) k)) (run_refines events n a)
