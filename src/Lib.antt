-- ===== src/Lib.antt =====
-- A verification library for the bridge between WhatsApp and Matrix in this repository.
--
-- The bridge keeps one client for each WhatsApp login (pkg/connector). It names chats, users,
-- messages and media by identifiers of its own (pkg/waid), and keeps the history that WhatsApp
-- pushes after a login in tables of its own (pkg/connector/wadb) until the portals ask for it.
--
-- Which module models what:
-- - Waid.Jid: the JIDs of whatsmeow, an outside library, as a record of the fields that the program
--   reads, and the interface JidLib of the functions that it calls, with their documented behaviour.
--   Waid.Jid.Plain fills the interface with concrete functions.
-- - Waid.Id: pkg/waid/id.go. Each `MakeX` is `make_x` and each `ParseX` is `parse_x`.
-- - Waid.Media: pkg/waid/mediaid.go. A function that may panic answers a `Call`.
-- - Wadb.Message, Wadb.Conversation, Wadb.MediaRequest, Wadb.PollOption: the files of those names in
--   pkg/connector/wadb. A table is a list of rows, and each query is a function on it that does what
--   its SQL says. The order of rows with one timestamp is a parameter (Sorter), as is which chunk of
--   an insertion the database refuses.
-- - Connector.Ids: pkg/connector/id.go, with two functions of pkg/connector/events.go.
-- - Connector.MessageType: pkg/connector/wamsgtype.go, whose switch is a table of cases in order.
-- - Connector.HistorySync: `handleWAHistorySync` of pkg/connector/backfill.go, which fills the tables.
-- - Connector.SyncLoop: `historySyncLoop` of the same file, as steps over its timer.
-- - Connector.Backfill: `FetchMessages` of pkg/connector/backfill.go, which empties them, page by page.
-- - Connector.MediaRequest: pkg/connector/mediarequest.go, on the table of media requests.
-- - Connector.DirectMedia: the retries of pkg/connector/directmedia.go, as a state and its steps.
-- - Connector.MediaEditCache: pkg/connector/mediaeditcache.go, a Go map as a function.
-- - Connector.Portals: `createPortalsFromHistorySync` of pkg/connector/backfill.go.
-- - Connector.Inbox: the handlers of pkg/connector/handlewhatsapp.go that queue an event for a chat,
--   and Connector.Connection: the cases of its `handleWAEvent` that set the bridge state.
-- - Connector.ChatInfo: pkg/connector/chatinfo.go. A Go map by user ID is a list of entries in which an
--   assignment replaces, and Connector.ChatInfo.Rooms says what it means for a room. The module
--   Connector.ChatInfo.Events has the handlers of handlewhatsapp.go that use it.
-- - Connector.Groups: the joined groups of pkg/connector/client.go; the maps that it encodes as JSON
--   are records.
-- - Msgconv.WaText: pkg/msgconv/wa-text.go. What is written to the output is a list of pieces, whose
--   text is `html_of`. The loop over the code blocks is on fuel, one round more than the text has
--   bytes, which is enough since a round takes two fences.
-- - Msgconv.Keys: `KeyToMessageID` of pkg/msgconv/wa-poll.go. Msgconv.Polls: polls and votes of
--   pkg/msgconv/matrixpoll.go and wa-poll.go, on the table of Wadb.PollOption. Msgconv.Ephemeral: the
--   disappearing timer in pkg/msgconv/wa-misc.go and pkg/msgconv/from-matrix.go.
-- - Connector.Matrix: the handlers of Matrix events of pkg/connector/handlematrix.go, as what they
--   send.
-- - Connector.Phone: pkg/connector/phoneping.go. Connector.Resync: the queue of
--   pkg/connector/userinfo.go.
--
-- The parts meet in the tables: the history sync stores rows under the types that
-- Connector.MessageType gives, a page reads and deletes them by Wadb.Message, and a message that
-- misses its media leaves a row for Connector.MediaRequest, whose identifiers Waid.Id reads back.
--
-- Times are seconds on the natural numbers, and the zero `time.Time` is `none`. Integers that are
-- stored in 64 bits are bounded where it matters: the decimal printer has fuel for 20 digits, which
-- is enough below 2 ^ 64. The clock, the database's failures, the conversion of messages and the
-- network's answers are arguments of the functions that use them.
--
-- Not modelled: the conversion of messages beside the parts of pkg/msgconv above (media,
-- contacts, locations, templates and the texts of polls), most event types of events.go, the
-- regular expressions of the styles of a line, the avatar fetcher, the life cycle of the client,
-- the login, the configuration and the commands, and what is only logging or network calls.
pub mod Common
pub mod Waid
pub mod Wadb
pub mod Connector
pub mod Msgconv
