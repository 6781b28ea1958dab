-- ===== src/Lib.antt =====
-- Fletchling finds the nests of a map: it counts the pokemon that a scanner reports, by nest and over
-- the whole world, for periods of time that it rotates, and names the pokemon that nests in each.
--
-- Which file models which part:
--   Models: processor/models/pokemon.go, the key of a pokemon.
--   Stats/Counts: CountsByPokemon of processor/stats.go (subtract, clone, the increments of
--     AddPokemon). The map field is an option, `none` for the nil map, since a write to it panics.
--   Stats/Period: CountsForTimePeriod of processor/stats.go (AddPokemon, subtract, clone, Duration).
--   Stats/Collection: StatsCollection of processor/stats.go (AddPokemon, KeepRecent, PurgeOldest,
--     PurgeNewest). Its loops are recursion on the list of periods, so no fuel is used.
--   Stats/Rotation: Rotate, GetSnapshot and FrozenStatsCollection of processor/stats.go.
--   Stats/Overlap: a GetSnapshot of processor/stats.go that falls within an AddPokemon.
--   Stats/Reach: every collection that whole calls of the operations lead to, with at most one such
--     overlap, at the end.
--   DbStore: rows and updateNestPartial of db_store/nests.go. An update is a list of assignments to
--     columns, which are applied to a row in order.
--   Stats/Summary: GetSummaryForNest and GetOrderedGlobalPokemon of processor/stats.go, and
--     processor/sorter.go.
--   Models/Summary, Models/Nest: processor/models/stats.go and processor/models/nest.go;
--     Models/Ranking: the Swap of a sort.
--   Processor/Config: processor/config.go.
--   Processor/Nesting: logPokemonAndComputeNesting and processTimePeriodSummary of
--     processor/processor.go.
--   Processor/Update: what ProcessStatsCollection of processor/processor.go does with one nest.
--   Processor/Rotating: NestProcessor of processor/processor.go, AddPokemon and RotateStats.
--   DbStore/Rows, DbStore/Getters, DbStore/Streaming, DbStore/Batches: the queries of db_store/nests.go.
--   Geo: names and ids of features, geo/util.go; Geo/Files: geo/geofences.go; Geo/Fences: the index
--     of geo/rtree.go; Geo/Features: the features of exporters/db.go.
--   Importers: importers/db.go; Importers/Runner: importer/runner.go.
--   Models/Loading: NewNestFromDBStore and NewNestFromKojiFeature of processor/models/nest.go.
--   Processor/Matcher: processor/matcher.go.
--   Processor/Manager: Run and ProcessPokemon of processor/manager.go; Processor/Manager/Loading: its
--     LoadConfig, with the store of statistics that the nests of two configurations share.
--   Processor/Loaders: processor/nest_loader/.
--   Koji: the client of the administration in koji_client/; Koji/Requests: doOneRequest, login and
--     makeInternalRequest, with the server as a function that changes its state.
--   Overpass: overpass/client.go and overpass/errors.go, its loop on the tries in order.
--   Importers/Koji: importers/koji.go, on that client.
--   Areas/Loader, Areas/Config: areas/loader.go and areas/config.go, the file system as a record of
--     what fails.
--   HttpServer: the handlers of httpserver/.
--   Areas: areas/area.go.
--   Webhooks: the queue of webhook_sender/poracle.go.
--   Filters: refreshNest of filters/db_refresher.go; Filters/Config: filters/config.go.
--   Stats/Examples, Processor/Examples, Filters/Examples,
--     Areas/Examples, Webhooks/Examples, and the Examples beside the other parts: concrete states, to
--     which the theorems are applied.
--   Prelude: what the files share; Prelude/Map is a Go map as an association list, Prelude/Word the
--     wrap-around of uint64, Prelude/Time instants and durations, Prelude/Float the float64 format as
--     a parameter, Prelude/Faults the panics of the runtime as values.
--
-- How the parts interact: a period holds counts for each nest and for the world; the collection holds
-- the periods, oldest first, and totals that count what all periods count; a purge subtracts each
-- period it drops from the totals; a rotation ends the current period, begins a new one, purges the
-- old ones, and hands out the periods and a copy of the totals.
--
-- Bounds: counters are uint64 with their wrap-around, and a theorem that counts up asks for room below
-- 2 ^ 64. Durations are integers that do not wrap: a time.Duration holds 292 years. A whole call
-- is a function of the state and an instant `now`. Rotate and the purges hold the mutex of the
-- collection alone, AddPokemon and GetSnapshot hold it for reading, and write all the same. The order
-- of a map's entries is that of the association list; no theorem depends on it.
-- Rounding of floats is left open: the theorems hold for every choice.
--
-- A polygon, its area, the answers of the databases and the swaps of sort.Sort are parameters.
-- Processor/Config: an int and a time.Duration have 64 bits, and a product of hours wraps.
--
-- DbStore: StreamNests takes fuel for its pages and GetNestsWithoutPolygon for its batches; their
-- theorems show that more fuel than the table has rows, and as much as there are ids, is enough.
-- Koji, Overpass and Areas/Loader: what a service answers is an argument of each call, or a server that
-- is a function of its own state, so any order of answers and failures is covered. The loop of Overpass
-- has no bound on timeouts, so it runs on the list of its tries and says when they are used up.
-- Processor/Manager: Run is a relation, since a select may take any channel that is ready.
--
-- Not modelled: logging, metrics, the command line programs and the start of the HTTP server, which are
-- input and output; the features of OSM as geofences in koji_client/osm.go and their properties in
-- overpass/util.go, and the exporters other than that of the database.
pub mod Prelude
pub mod DbStore
pub mod Geo
pub mod Importers
pub mod Models
pub mod Stats
pub mod Filters
pub mod Areas
pub mod Webhooks
pub mod Processor
pub mod HttpServer
pub mod Koji
pub mod Overpass
