-- ===== src/BehaviorTree.antt =====
-- What the nodes of nav3d_behavior_tree use of BehaviorTree.CPP, whose code is not in the repository:
-- the five statuses, and the calls that a node makes on its base class and on its children. The calls
-- are a parameter of every node: `W` is all that lies outside the node's own members, its base object,
-- the children and what they act on.
pub mod Pipeline
pub mod Recovery
pub mod RoundRobin
pub mod Decorators
pub mod Actions
pub mod Conditions
pub mod ActionNode
pub mod ServiceNode
mod Examples
use nav2_3d.Prelude.{ℕ, ◌≡◌, refl, Bool, true, false, Option, none, some}

pub data NodeStatus : Type 0 where
  idle running success failure skipped : NodeStatus

pub record BtNode {ℓ} (W : Type ℓ) : Type ℓ where
  pub count : ℕ  -- children_nodes_.size()
  pub execute_tick : ℕ → W → NodeStatus × W  -- children_nodes_[i]->executeTick()
  pub child_status : ℕ → W → NodeStatus  -- children_nodes_[i]->status()
  pub halt_child : ℕ → W → W  -- ControlNode::haltChild(i)
  pub halt_children : W → W  -- ControlNode::haltChildren()
  pub base_halt : W → W  -- ControlNode::halt()
  pub reset_child : W → W  -- DecoratorNode::resetChild()
  pub status : W → NodeStatus  -- status()
  pub set_status : NodeStatus → W → W  -- setStatus(s)
  pub is_status_active : NodeStatus → Bool  -- BT::isStatusActive(s)

-- A tick returns a status or throws.
pub data Outcome : Type 0 where
  returned : NodeStatus → Outcome
  thrown : Outcome

-- What a tick leaves behind: its outcome, the node's members `S` and the world.
pub record Ticked {ℓ} (S : Type 0) (W : Type ℓ) : Type ℓ where
  pub outcome : Outcome
  pub node : S
  pub world : W

-- getInput(port, member): the member keeps its value where the port has none.
abbrev pub get_input {ℓ} : {A : Type ℓ} → Option A → A → A
get_input none old = old
get_input (some v) old = v

-- To split on a returned status and keep the equation.
pub data StatusCases (s : NodeStatus) : Type 0 where
  is_idle : s ≡ idle → StatusCases s
  is_running : s ≡ running → StatusCases s
  is_success : s ≡ success → StatusCases s
  is_failure : s ≡ failure → StatusCases s
  is_skipped : s ≡ skipped → StatusCases s

pub status_cases : (s : NodeStatus) → StatusCases s
status_cases idle = is_idle refl
status_cases running = is_running refl
status_cases success = is_success refl
status_cases failure = is_failure refl
status_cases skipped = is_skipped refl
