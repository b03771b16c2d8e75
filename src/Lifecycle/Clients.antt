-- ===== src/Lifecycle/Clients.antt =====
-- The clients of the managed nodes, and the calls that dereference them.
pub mod Commands
pub mod Bonds
pub mod Shutdown
use mathlib.Core.List.{reverse-cons}
use nav2_3d.Prelude.{
  All-append, is_empty, ℕ, ◌≡◌, ◌≢◌, refl, sym, ap, subst, ◌∙◌, ◌⊎◌, inl, inr, Bool, true, false,
  not, ◌&&◌, ◌||◌, List, [], ◌∷◌, ◌++◌, reverse, Eq, contains, erase, if◌then◌else◌, if_rule, All,
  Covers, Bool-cases, arith, beq_self, eq_cases,
}
use nav2_3d.Prelude.Int.{ℤ, is_positive}
use nav2_3d.Lifecycle.Services.{
  Transition, configure, cleanup, activate, deactivate, unconfigured_shutdown, State, unconfigured,
  inactive, active, finalized, unknown, in_transition, Result, returns, throws, null_dereference,
  Nodes, result_cases, is_returned, is_thrown, is_null, Exchange, response, change_state, get_state,
}
use nav2_3d.Lifecycle.Manager.{
  Manager, Done, create_bond_connection, transition_state, state_eq, change_state_for_node,
  change_loop, order, change_state_for_all_nodes,
}
use nav2_3d.Lifecycle.Operations.{
  Command, startup_command, pause_command, resume_command, reset_command, shutdown_command,
  other as other_command, manager_callback, then_with, done, startup, resume, pause, reset,
  shutdown, on_activated, on_configured, now_inactive, now_active, on_deactivated, on_cleaned,
  shutdown_all_nodes, after_deactivation, after_cleanup, after_shutdown,
}
use nav2_3d.Lifecycle.Bonds.{check_bond_connections, on_broken, bond_loop, after_hard_reset}
use nav2_3d.Lifecycle.Changes.{Frame, node-Frame, loop-Frame, names_of_Frame}
use nav2_3d.Lifecycle.Invariant.{Inv, pass-Frame}

-- Every managed node has a client.
abbrev pub HasClients : {Name : Type 0} ⦃e : Eq Name⦄ → Manager Name → Type 0
HasClients m = Covers m.node_names m.clients

-- A call returns: it neither throws nor dereferences a null pointer.
abbrev pub Answers : Result Bool → Type 0
Answers (returns b) = Unit
Answers throws = ⊥
Answers null_dereference = ⊥

-- A call returns, and the clients are all there.
abbrev pub IsSafe {ℓ} : {Name : Type 0} {W : Type ℓ} ⦃e : Eq Name⦄ → Done Name W → Type 0
IsSafe d = Answers d.result × HasClients d.manager

All-reverse {ℓ κ} : {A : Type ℓ} (P : A → Type κ) (xs : List A) → All P xs → All P (reverse xs)
All-reverse P [] h = h
All-reverse P (x ∷ xs) h =
    rw (reverse-cons x xs) (All-append P (reverse xs) (x ∷ []) (All-reverse P xs h.1) (h.0, tt))

pub All-order {κ} :
    {A : Type 0} (P : A → Type κ) (t : Transition) (xs : List A) → All P xs → All P (order t xs)
All-order P configure xs h = h
All-order P activate xs h = h
All-order P cleanup xs h = All-reverse P xs h
All-order P deactivate xs h = All-reverse P xs h
All-order P unconfigured_shutdown xs h = All-reverse P xs h

append-cons : {A : Type 0} (xs : List A) (y : A) → (x : A) × (zs : List A) × (xs ++ y ∷ [] ≡ x ∷ zs)
append-cons [] y = (y, [], refl)
append-cons (x ∷ xs) y = (x, xs ++ y ∷ [], refl)

pub order-cons :
    {A : Type 0} (t : Transition) (n : A) (ns : List A)
    → (x : A) × (xs : List A) × (order t (n ∷ ns) ≡ x ∷ xs)
order-cons configure n ns = (n, ns, refl)
order-cons activate n ns = (n, ns, refl)
order-cons _ n ns = let (x, xs, e) = append-cons (reverse ns) n in (x, xs, reverse-cons n ns ∙ e)

pub clients_of_Frame : {Name : Type 0} (m m' : Manager Name) → Frame m m' → m'.clients ≡ m.clients
clients_of_Frame {Name} m m' h = ap {A = Manager Name} (λ x. x.clients) h

pub Frame-HasClients :
    {Name : Type 0} ⦃e : Eq Name⦄ (m m' : Manager Name) → Frame m m' → HasClients m → HasClients m'
Frame-HasClients m m' f h = subst HasClients (sym f) h

pub then-IsSafe {ℓ} :
    {Name : Type 0} {W : Type ℓ} ⦃e : Eq Name⦄ (d : Done Name W)
    (k : Bool → Manager Name → W → Done Name W)
    → IsSafe d
    → ((b : Bool) → IsSafe (k b d.manager d.world))
    → IsSafe (then_with d k)
then-IsSafe d k safe on = elim (result_cases d.result) [
  | is_returned b r ↦
      let e : then_with d k ≡ k b d.manager d.world = rw r in subst IsSafe (sym e) (on b)
  | is_thrown r ↦ absurd (subst Answers r safe.0)
  | is_null r ↦ absurd (subst Answers r safe.0)
]

pub then-shutdown {ℓ} :
    {Name : Type 0} {W : Type ℓ} (d : Done Name W)
    → Answers d.result
    → ((then_with d after_shutdown).result ≡ returns true)
      × ((then_with d after_shutdown).manager.clients ≡ [])
unfolding after_shutdown
then-shutdown d answers = elim (result_cases d.result) [
  | is_returned b r ↦ rw r (refl, refl)
  | is_thrown r ↦ absurd (subst Answers r answers)
  | is_null r ↦ absurd (subst Answers r answers)
]
