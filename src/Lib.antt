-- ===== src/Lib.antt =====
-- The console of ForgeQueue, the program under web/src: its stores, its requests, its tables, and what
-- its pages offer to a session.
--
-- Parts and files. A file of the program is named by its path from the root of the repository.
--   Types: web/src/types/forgequeue.ts, the data of the API, with a type of JSON values.
--   Stores: `localStorage` and the types that it keeps. Stores/Auth is web/src/lib/auth.ts and
--     Stores/Preferences is web/src/lib/prefs.ts. The variables of each module (`state`, `loaded`,
--     `listeners`) and the storage are one record, passed on by each function; `reload` is the page that
--     follows over the same storage. In these two the set of listeners is represented by how often it was
--     called.
--     Stores/Auth/Refinement has the specification of the session store and what implements it, and
--     Stores/Auth/Tabs the same for several tabs over one storage. Stores/Watch has the listeners:
--     `Observable` is what the three stores have in common (both of web/src/lib and the connection of
--     web/src/api/client.ts), the components that watch a store are its clients, and Stores/Watch/Instances
--     and Client/Watched show that the stores keep to it.
--   Client: web/src/api/client.ts. The page (`World`) is both stores and `conn`. `request` is cut at its
--     `await`: `start` is what runs before it, `finish` what runs once the reply is there. Client/Runs
--     puts sends, replies, sign-ins, sign-outs and changes of preferences in any order.
--   Endpoints: web/src/api/endpoints.ts, a constructor of `Call` for each member of `Api`, `request_of`
--     for `httpApi`, and Endpoints/Encoding for `encodeURIComponent`, with the decoding of a server beside
--     it; Endpoints/Identifiers is about the members that take an identifier.
--   Queries: web/src/api/queries.ts, the keys of the cache (`key_of`, `cache_key`), what a query asks of
--     the query library (Queries/Polling) and what an action does once it has settled (`use_action`,
--     `use_bulk`).
--   Format: web/src/lib/format.ts, with Format/Fixed for `toFixed`.
--   DataTable: web/src/components/data-table.tsx. `Table` is its state; `sorted_rows`, `view`, `counter`
--     and the buttons are what it renders, `click_header`, `change_size`, `go_on`, `go_back`, `toggle`
--     and `select_page` are its handlers. Its children are about order, pages and selection;
--     DataTable/Selection/Clicks forgets the order in which the set of selected rows holds its members,
--     and DataTable/Markup has the heads of the columns and the rows with their boxes.
--   Console: a page is represented by its controls (`Control`), each with the calls that a click makes,
--     and by the columns of its tables. Console/Confirm is web/src/components/confirm-dialog.tsx,
--     Console/Tables is web/src/components/job-tables.tsx and Console/Tables/Views its two tables as
--     wholes, with a bulk action over one page; Console/Tables/Runs has a table
--     with actions over its selection through its renderings, clicks and replies, where the page is an
--     interface (`BulkTable`) that the table of jobs and that of web/src/routes/dlq.tsx fill. Console/Pages holds the controls and filters
--     of web/src/routes, and Console/QueueTables, Console/DeadLetters and Console/Workers the columns of
--     their tables; Console/Heads has the numbers at their heads, Console/Filters the options of their
--     filters, Console/Details the heads of the pages of one queue, job or worker and what stands there
--     without them, Console/JobPage the timeline, the retries and the lease of a job, and Console/Metrics the
--     ranges and charts of web/src/routes/metrics.tsx and web/src/components/charts.tsx. Console/Shared is
--     web/src/components/shared.tsx, and Console/Shared/Copying its copy button with the timers, which
--     run when time has passed up to a moment. Console/Shell is the navigation of
--     web/src/components/app-shell.tsx and the root of web/src/routes/__root.tsx; Console/Frame is the
--     bars, the footer and the keyboard of the same file (Frame/Sidebar the bar at the side), and
--     Console/Palette its command palette.
--     Console/Settings is web/src/routes/settings.tsx with the radio groups of the bar and the toggle of
--     web/src/components/toolbar.tsx, Console/ConnectionPage is web/src/routes/connection.tsx, and
--     Console/Login is web/src/routes/login.tsx. Console/Viewer is web/src/components/json-viewer.tsx:
--     the mounted nodes and their state (Tree), the rows (Rows), `JSON.stringify` (Stringify), the
--     invariant of the nodes (Fits) and the rows against the text (Lines). Console/Guards compares the
--     controls with the permissions that internal/httpapi/server.go asks for, Console/Guards/Reads
--     what the pages read with them, and Console/Defaults is about how the tables are sorted.
--     Console/Bulk follows a bulk action of the tables of jobs and dead letters from the click through the requests and their
--     replies to the toast.
--   ErrorCapture: web/src/lib/error-capture.ts; an error is a data type with its cause. ErrorCapture/Causes
--     has errors as objects, whose causes may come back to an error, and the loop over them.
--   Server: web/src/server.ts and `errorMiddleware` of web/src/start.ts, with the page of
--     web/src/lib/error-page.ts. What the framework does with a request is an argument. Server/Overlaps has
--     requests that overlap: `fetch` is cut where it waits for its handler.
--   Common: helpers, texts as lists of UTF-16 units, numbers that may be NaN, and sets of texts.
--   Examples: the theorems of the list below at concrete inputs, and tests.
--
-- How the parts meet: a request reads the API base from the preferences and the token from the session,
-- and its reply may end the session; the pages read the permissions of the session and offer calls, which
-- the endpoints turn into requests.
--
-- Parameters: `Date.parse`, `JSON.parse` of the server, the clock, the base URL of the build, what
-- `localStorage` accepts, what the network answers, `toLowerCase`, and the texts of times and numbers
-- that other libraries make. A theorem holds for every value of them.
--
-- Numbers: counts are natural numbers and times are whole milliseconds or NaN. The digits of a number are
-- printed with a fuel above the number, which is enough (Format/Digits reads them back); the exponent of a
-- double is sought among 53, enough for the times below 1000 * 2 ^ 52 ms to which Format/Fixed keeps.
-- `describeError` runs at most 5 rounds, as in the source; over objects it is a loop on fuel, of which 6 is
-- enough.
--
-- Not modelled: the markup and its styles, web/src/components/ui (a copy of a component library),
-- web/src/routeTree.gen.ts (generated), web/src/router.tsx (configuration), web/src/lib/utils.ts, the cache
-- of the query library, how the library of the palette matches what is typed, the drawing of the charts,
-- and the Go services beyond the permissions of their routes.
pub mod Common
pub mod Types
pub mod DataTable
pub mod Stores
pub mod Client
pub mod Endpoints
pub mod Queries
pub mod Format
pub mod Console
pub mod ErrorCapture
pub mod Server
mod Examples
