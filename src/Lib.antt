-- ===== src/Lib.antt =====
-- A model of obcrawler, the crawler of the OpenBazaar network, with what its parts promise.
--
-- The program keeps a table of peers and a table of CID records (repo/). Peers come in through
-- pubsub messages and connections (crawler/pubsub.go, listenPeers in crawler/crawler.go). Tickers
-- and CrawlNode queue jobs; a worker's processJob (crawler/worker.go) fetches a peer's record and
-- files, replaces its CID records, pins and unpins, and notifies subscribers. An HTTP handler
-- (crawler/resolver.go) answers with a peer's record, and a gRPC server stands behind a token
-- (crawler/rpc.go).
--
-- Files:
--   Base, Go, Ipfs      helpers; Go's errors and results; the values of the IPFS libraries
--   Repo.Models, .Gorm  the rows; the statements of gorm that the code runs, with their laws
--   Repo.Database       View and Update of repo/database.go; Mutex: calls of several threads;
--                       Options and Open: NewDatabase
--   Repo.Memory         a database in memory, for runs and witnesses
--   Repo.Config, .Version, .AppData, .Ulimit   the files of those names in repo/;
--                       Config.Files: the files that config.go writes; Config.Logging: its log
--   Repo.Bindata        repo/bindata.go, the sample configuration
--   Crawler.Peers       CrawlNode, BanNode, UnbanNode, unpinCID, listenPeers
--   Crawler.Network     what a crawl asks of the network
--   Crawler.Graph       dagGet and fetchGraph, against reachability
--   Crawler.Records     the transaction of processJob on the CID records
--   Crawler.Worker      processJob: Defs and Run are the code, Loop is worker, the others prove;
--                       Marked: the row a crawl saves; Frame: what it leaves as it is; Week:
--                       the ticker behind it
--   Crawler.Ticks       the tickers of Start; Ticks.Loop: their goroutine; Due and Alive: for
--                       which peers they queue jobs and unpin
--   Crawler.Pubsub      listenPubsub; Pubsub.Loop: its loop with the timers
--   Crawler.Subs        Subscribe, Close, notifySubscribers; Subs.Lock is their lock
--   Crawler.Cancel      how shutdown cancels cat and dagGet
--   Crawler.Launch      NewCrawler and the database's address; Launch.Servers: newGrpcServer and
--                       newResolver; Crawler.Start, .Stop: Start and Stop
--   Crawler.System      the whole crawler as steps on the database and the queue; System.Spec: a
--                       specification of one peer; System.Genuine: which records are kept
--   Crawler.Server      tokens, listen addresses; Crawler.Resolver: the handler
--   Rpc                 rpc/server.go: Profile and Stream for Subscribe, Unary for the other calls
--   Main                main of obcrawler.go
--   Tests               runs at concrete values
--
-- State is passed explicitly: an operation on the database is a function from its state to what
-- the closure captured, the error, and the new state. A job that is sent from a goroutine of its
-- own is a part of the result of the operation. The clock is an argument wherever it is read.
-- Concurrency is modelled where it matters to the code: Subs.Lock, Cancel, Pubsub.Loop and
-- Repo.Database.Mutex are step relations. The last is about the mutex that makes transactions run
-- one by one; so Crawler.System is a step relation whose steps are the operations of the parts, in
-- any order.
--
-- fetchGraph loops over a map that it changes; the model has fuel, one unit for each key taken
-- out, and any choice of keys. Fuel of the root's weight is enough where links have no cycle.
-- RestoreAssets has fuel for the levels of directories, of which two are enough for its tree.
-- A call that never returns (dagGet and cat where coreapi.NewCoreAPI fails, or where shutdown has
-- ended the goroutine that receives their deferred send: `stranded` of Crawler.Network) is `stuck`.
-- A processJob that meets one, or runs out of fuel, or whose notices not all subscribers receive
-- (`received`), is none. Cancel and Subs.Lock show how the last two come about.
--
-- A goroutine may panic: that of the tickers at an interval that is not positive, and that which
-- handles messages on shutdown. In Main both end the program, at a moment that is an input.
--
-- Not modelled: gorm, IPFS and gRPC, which are parameters with named laws; logging; opening of
-- files and sockets; the functions of the generated rpc/pb.
pub mod Base
pub mod Go
pub mod Repo
pub mod Ipfs
pub mod Crawler
pub mod Rpc
pub mod Main
pub mod Tests
