-- ===== src/Events/Sessions.antt =====
-- The Timeline's sessions: addon/petkit_local/events/sessions.py. `Cards` builds one card, `Board`
-- is the list of cards that the passes share with the set of used ids, `Passes` are the passes in
-- their order, and `Chips` is the filter chips.
pub mod Cards
pub mod Board
pub mod Groups
pub mod Passes
pub mod Media
pub mod Chips
pub mod Shown
use petkit_local.Prelude.{Bool, List, ◌++◌, map}
use petkit_local.Events.Rows.{Event, CodeTables}
use Cards.{Card}
use Passes.{passes, standalone_rows}
use Media.{finish_card}
use Groups.{sort_newest_first}

-- group_sessions
unfoldable pub group_sessions : CodeTables → List Event → List Card
group_sessions codes events =
    let board = passes codes events in
    sort_newest_first
      (map (finish_card codes events) board.cards ++ standalone_rows events board.used)
