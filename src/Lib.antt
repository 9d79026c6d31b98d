-- ===== src/Lib.antt =====
-- The simulator of a two-player strategy game: soldiers walk and fight, towers hold territory,
-- money buys towers, and a syncer checks the commands of the players. The paths below start at the
-- root of the repository; `state/` stands for `src/state/`.
--
-- The program's parts and the files that model them:
-- - Players: the players and the kinds of actor (state/include/state/utilities.h).
-- - Physics: `Physics.Vector` is src/physics (`Vector`). `double` and the functions of <cmath> belong
--   to the compiler: the record `Double` of Physics/Double.antt is a parameter of every definition
--   that calculates with them, and what a proof needs of them is a named hypothesis (`IsMonotone`,
--   `IsExact`).
-- - Actor: `Actor`, `Tower` and `Soldier` (state/src/actor/*.cpp). A pointer to an actor is an
--   `ActorPtr`, which names the object; `AnyActor` is what it points to.
-- - Money: `MoneyManager` (state/src/money_manager).
-- - Soldier: `Scene` is what a soldier's update can reach: itself, its target and the money manager.
--   States has Enter, Update and Exit of the five states (state/src/actor/soldier_states), Machine the
--   loop of `Soldier::Update` and `Soldier::LateUpdate` (state/src/actor/soldier.cpp).
-- - Map: `Map` and `MapElement` (state/src/map).
-- - Towers: `TowerManager` (state/src/tower_manager). Territory has the loops over the cells of a
--   tower's bounds, Handlers the request queues, the four handlers of `Update` and the constructor.
-- - Game: `State` (state/src/state.cpp). Defs has the getters and commands, Updates has `Update`, which
--   runs the tower managers, then every soldier's update, then every late update, on one store.
-- - Syncer: `ExecutePlayerCommands` of `StateSyncer` (state/src/state_syncer): Commands has the six
--   commands, each of which checks its arguments, logs an error or passes the request on to the
--   state, and Turns the loops over what the two players wrote (PlayerState).
-- - View: `UpdatePlayerStates` of `StateSyncer`, which writes what the players see: Actors has the
--   loops over towers and soldiers, Flip the turning of the map in place, Defs the rest. Game and
--   Syncer do not use it; it uses their state and the positions as a player sees them.
-- - Driver: `MainDriver::Start` and `Run` (src/drivers): each turn reads what the players wrote, checks
--   their instruction counters, and calls Syncer, Game and View in this order.
-- - Logger: `Logger` (src/logger): Errors numbers the error messages, Towers compares the towers of a
--   turn with those of the turn before, Defs has `LogState`. Messages are the records of game.proto.
-- - Planner: `PathPlanner` and `SimplePathPlanner` (state/src/path_planner): Defs has the neighbors of a
--   node and the search, Positions the constructor and the next position of a soldier. A node is a pair of numbers.
-- - Tests: concrete inputs and the theorems applied to them.
--
-- State is passed explicitly. A call that may throw returns a `Result`; the error `undefined` stands
-- for undefined behaviour of C++ (a null pointer followed, an index out of range, an `int64_t` that
-- overflows). Integers are whole numbers; where the code can leave `int64_t`, `increase` says so, and the
-- pending damage of a soldier wraps around, as the processor forms the sum.
-- The loop of `Soldier::Update` runs on fuel for three changes of state: an idle soldier moves or
-- engages, a moving one engages or rests, an engaged one moves or rests once, and no state is entered
-- twice. The three loops over a player's tower log run on fuel for one round more than there are
-- entries or towers, and the search of the path planner on fuel for as many rounds as there are
-- cells. All other loops are bounded by the data that they go over.
-- The turns of a game are counted down. What runs beside the driver is a parameter, `Environment`: for
-- each turn what a player wrote and counted when the wait for the player ended, and whether the game
-- was cancelled or timed out by then. That each wait ends is taken for granted.
--
-- The path planner is an argument of a soldier's update; Planner models the two that there are.
--
-- Not modelled: the output of the log as bytes, the shared memory, timers and threads, main.cpp with the constants, the LLVM pass, and the players'
-- own code. The driver's calls of the logger are left out: they do not change its results. The text of
-- an error message in the commands is left out, its kind is kept; `LogError` takes any text. The
-- logger's casts of identifiers and levels to `int` are left out.
pub mod Prelude
pub mod Physics
pub mod Players
pub mod Actor
pub mod Money
pub mod Soldier
pub mod Map
pub mod Towers
pub mod Game
pub mod Syncer
pub mod View
pub mod Driver
pub mod Logger
pub mod Planner
pub mod Tests
