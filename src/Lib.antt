-- ===== src/Lib.antt =====
-- A model of the parts of robosw that decide what goes over its wires, which mode a robot is
-- in and how it plans its way, with the theorems that make them correct.
--
-- The parts and the files that model them (paths from the root of the repository):
--   RingBuffer    src/driver/async_port/include/async_port/ring_buffer.hpp: `RingBuffer<T, N>`. The
--                 record has the fields of the class, with N as `size`; an index is a number below
--                 2 ^ 64. `write_all`, `read_from` and `peek_from` are the methods on a vector.
--   Ddsm210       src/driver/motor_waveshare/src/ddsm_210_frame.cpp and ddsm_210.cpp: the frames of a
--                 hub motor (Frame, Checksum) and its driver (Driver), which stores what the serial
--                 port receives in a ring buffer and looks for frames in it.
--   Sbus          src/driver/input_sbus/src/sbus_decoder.cpp: the decoder of a remote control.
--   Vesc          src/driver/motor_vesc: command packets (Command), status packets (Status) and the
--                 interface on the CAN bus (Interface).
--   Akelc         src/driver/motor_akelc/src/motor_akelc_modbus.cpp: a controller's registers over Modbus,
--                 whose port is a parameter.
--   Event         src/common/event: the bounded queue (Queue), the dispatcher (Dispatcher) and the one
--                 between two threads (Async).
--   Fsm           src/control/fsm: the state machine template, which the robots' modes fill.
--   Quadruped     src/platform/quadruped: keyboard handler, key queue, poll and mode transitions.
--   Swervebot     src/platform/swervebot/src/sbot_fsm.cpp: the modes, which take their input from the
--                 queues of src/common/event, and src/sbot_system.cpp: what a receiver's message puts
--                 on these queues (Receiver).
--   Decomp        src/planning/decomp: grids of tiles (RectGrid), of square cells (SquareGrid), of
--                 numbers (DenseGrid) and along a curve (CurvilinearGrid). A cell stands in its tile, since each
--                 has one owner; a violated assertion or an index past a vector's end is `none`.
--   Sampling      src/planning/sampling: the basic tree (Tree) with RRT (Rrt), and the tree with costs
--                 (MotionTree) with RRT* (RrtStar), and RRG on a graph (Rrg); spaces of vectors, the
--                 straight steering and the polygon checker (RealVector). The graph library's tree, the
--                 k-d tree, <cmath>, the random numbers and the functions that the user sets are parameters; `TreeLaws` is what is documented of the first.
--   Tbot          src/platform/tbot/src/messenger.cpp: commands to the board and what it reports.
--   RobotBase     src/control/robot_base: groups of actuators (Actuators).
--   Base          tests, lists, bits, integers and bytes that these share.
--   Tests         the theorems at concrete inputs.
--
-- Conventions. Functions have the names of the source in snake case. State is passed explicitly; a
-- port is what was sent on it and whether it is open. An `intN_t` is an integer of `Base.Int`, a
-- `uintN_t` a number with its wrap written out. A `float` or `double` belongs to a record of operations
-- that a definition takes as an argument, and what a theorem needs of them is a named record of laws.
-- A method that holds a mutex throughout is one step; Peek of the ring buffer locks for each element only, and
-- its loop is given the buffer that each element is read from.
--
-- Fuel. `process_feedback` loops while ten bytes are in the buffer and drops at least one in each
-- round, so that one more than the number of bytes is enough; `handle_events` needs one round for each
-- event that waits; the loop of `poll_key_function` needs none, or does not end.
-- Tracing a path back needs a round for each vertex of the tree at most; the search of RRT counts its rounds;
-- the walk along a leg needs one for each step below its length.
-- The loop that counts the knots of a curve ends when the steps reach its length, which depends on the
-- numbers, so that a theorem about the grid assumes the number of knots.
--
-- Not modelled: ports and devices, logging, configuration files, and the numerical parts (estimation,
-- kinematics, control laws, geometry), which are floating point linear algebra.
pub mod Akelc
pub mod Base
pub mod Ddsm210
pub mod Decomp
pub mod Event
pub mod Fsm
pub mod Quadruped
pub mod RingBuffer
pub mod RobotBase
pub mod Sampling
pub mod Sbus
pub mod Swervebot
pub mod Tbot
pub mod Tests
pub mod Vesc
