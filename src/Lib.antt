-- ===== src/Lib.antt =====
-- nav2-3D, a 3D navigation stack for drones over ROS 2.
--
-- The parts that are modelled, and how they interact.
--
-- BehaviorTree: the nodes of nav3d_behavior_tree. A behaviour tree ticks its root; a control node
--   (plugins/control: PipelineSequence, RecoveryNode, RoundRobinNode) ticks its children in turn, and its
--   members carry the position from one tick to the next. The base class and the children are code of
--   BehaviorTree.CPP, so they are a parameter of each node, the record BtNode. A tick gives an Outcome (a
--   status, or an exception), the node's members and the world. The loops of RecoveryNode and of
--   RoundRobinNode take fuel: a round of RecoveryNode is two steps and each uses a retry, and a step of
--   RoundRobinNode counts one more child as failed or skipped, so that the fuel which `tick` gives is
--   enough. The unsigned members wrap at 2 ^ 32. Decorators has the seven nodes of plugins/decorator, which
--   decide at each tick whether they tick their child, Actions those of plugins/action that compute on goals
--   and paths, and Conditions those of plugins/condition that remember what they saw last. ActionNode is
--   BtActionNode (include/nav3d_behavior_tree/bt_action_node.hpp), which sends goals to the servers. Clocks,
--   poses, velocities and the arithmetic of doubles (Prelude/Double) are parameters; sizes of paths are
--   below 2 ^ 31. ServiceNode is BtServiceNode (include/nav3d_behavior_tree/bt_service_node.hpp), over an
--   executor that is a parameter, and the tick of BtCancelActionNode beside it. Conditions also has
--   TransformAvailable, the conditions on distances and those that watch the odometry, the battery and the
--   path.
-- Lifecycle: the manager that brings the servers up and takes them down
--   (nav3d_lifecycle_manager/src/lifecycle_manager.cpp), over the client of a node's services
--   (nav3d_util/src/lifecycle_service_client.cpp). Services has the client, Manager the members and the
--   change of one node and of all nodes, Operations the commands, Bonds the two timers. A call returns,
--   throws or dereferences a null pointer (Result). The nodes, their services and the bonds are a parameter,
--   the record Nodes, and the laws that a theorem needs of them are the record AreNodes. The methods keep
--   their names, in small letters; the parts of a method that follow one of its calls are definitions of
--   their own (on_configured, on_deactivated, after_cleanup and so on). ServiceClient is the client that
--   waits for a service and its response (nav3d_util/include/nav3d_util/service_client.hpp): a wait of a
--   second is a step of fuel, and enough fuel is a bound on the waits before the service appears or ROS is
--   shut down. ManagerClient sends the manager its commands over it
--   (nav3d_lifecycle_manager/src/lifecycle_manager_client.cpp), and Retries is
--   nav3d_util/src/lifecycle_utils.cpp, whose loop takes one step for each retry; the wait of
--   a client for its service, of which a round is a step of fuel, has no end but the service. What a
--   request gives (Exchange) is modelled where the call comes to an end: without a timeout a node that
--   never answers blocks the call.
-- ActionServer: SimpleActionServer, through which every server of the stack takes its goals
--   (nav3d_util/include/nav3d_util/simple_action_server.hpp). The goal handles are a parameter, the record
--   Handles. Each method but publish_feedback runs under one mutex, and each is one step;
--   Worker has the entry of goals and the
--   thread's loop cut into the parts between which the mutex is free, and Events the histories in which the
--   owner, the clients and the thread take steps in any order.
-- Navigation: a navigation goal from its arrival to its result. Muxer is the NavigatorMuxer that lets one
--   navigator run (nav3d_core/include/nav3d_core/behavior_tree_navigator.hpp), Engine the loop that ticks
--   the tree (nav3d_behavior_tree/src/behavior_tree_engine.cpp), ToPose the NavigateToPoseNavigator
--   (nav3d_bt_navigator/src/navigators/navigate_to_pose.cpp), and BtServer executeCallback, which calls them
--   over the action server (nav3d_behavior_tree/include/nav3d_behavior_tree/bt_action_server_impl.hpp);
--   Errors is the code that it reports. The tree, the files and the transforms are parameters (Session).
--   ThroughPoses is NavigateThroughPosesNavigator
--   (nav3d_bt_navigator/src/navigators/navigate_through_poses.cpp): it begins with the goals and their
--   statuses, and Feedback is its onLoop, with the path length of
--   nav3d_util/include/nav3d_util/geometry_utils.hpp. A round of the loop that ticks the tree is a step of
--   fuel. While a tick runs, other threads may do anything to the server, and then as well as before and
--   after the run the other navigators may do anything to the muxer. An error code is an int on the
--   blackboard and is cut to 16 bits in the result.
-- Planner: PlannerServer (nav3d_planner/src/planner_server.cpp): the planners that it loads, computePlan
--   and isPathValid. A planner is a function that gives a path or throws one of the exceptions.
-- Controller: ControllerServer (nav3d_controller/src/controller_server.cpp): the filter that smooths the
--   reference, Trajectory with the times of the path and the command at a time, and Control with
--   computeControl. The loop over the path takes as much fuel as the path is long; a round of the control
--   loop is a step of fuel. Checkers has the goal and the progress checkers of nav3d_controller/plugins.
-- Offboard: OffboardControl (nav3d_px4_bridge/src/offboard_control.cpp), which turns waypoints into
--   setpoints of PX4: its callbacks, Timer with the call of the timer and the messages that it publishes,
--   and History with the sequences of callbacks. The loops that bring the yaw into its range take two turns,
--   which is enough since getRPY gives a yaw within pi of 0; a float is a double that was rounded.
-- Utilities: the text utilities of nav3d_util (src/string_utils.cpp and src/array_parser.cpp); parseVVF
--   takes as much fuel as the text is long, and a step more. LineIterator
--   (include/nav3d_util/line_iterator.hpp) walks over the cells between two points; its integers are
--   unbounded, which is right where the differences of the coordinates, their sums and the coordinates fit
--   an int. OdomSmoother (src/odometry_utils.cpp) averages the velocities of a window of time,
--   the length of which, like the times that have passed in the other parts, is not negative.
-- Prelude: shared helpers, with no code of the repository.
--
-- Not modelled: log messages, diagnostics, parameters and the set-up of publishers, subscriptions and
-- timers, which keep no state that the operations read; the bridge of the visual odometry, the MoveIt
-- plug-in, the conversions of bt_utils.hpp and those of robot_utils, whose work lies in messages, in
-- transforms and in arithmetic on doubles; bt_navigator.cpp, which loads plug-ins; the launch files and
-- the messages.
pub mod Prelude
pub mod BehaviorTree
pub mod Lifecycle
pub mod ActionServer
pub mod Navigation
pub mod Planner
pub mod Controller
pub mod Offboard
pub mod Utilities
