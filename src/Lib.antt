-- ===== src/Lib.antt =====
-- The backend of sneakerbid: bidding with held money, the soft close, closing, finalizing and paying,
-- with the lists, notifications, streams, sessions, wishes and reviews around them; and what its
-- client in the browser decides.
--
-- The parts. A controller calls a service; a service runs transactions on the PostgreSQL database
-- and sends events and notifications after they commit. The auction service takes the bids and asks
-- the wallet service to hold their money. The order service closes auctions, has the wallet
-- service release the losers' holds, and takes the payments.
--   * Store: backend/src/database. Rows are the records of Store.Rows, a table is a list, and the
--     first row with an id is the row of that id. Store.Tx has a transaction as a function of the
--     database that returns a value and a new database, or throws; a throw rolls back. Store.Client
--     has the calls of createTxClient with the CHECK and UNIQUE constraints of
--     backend/supabase/migrations/001_init.sql, and Store.Lock has
--     backend/src/auctions/auction-lock.helper.ts.
--     Store.Pages has the shape of a query ORDER BY ... LIMIT with a cursor, for any order and row.
--   * Wallet: backend/src/wallet/wallet.service.ts (holdForBid is hold_for_bid, and so on), and what a
--     user is shown by getMeWithStats of backend/src/users/users.service.ts (Wallet.Held).
--   * Service: the events and notifications that a method sends, and the database between its
--     transactions.
--   * Auctions: backend/src/auctions/auctions.service.ts. Auctions has the transactions of placeBid
--     and placeBidAsBot and buildBidUpdateData; Auctions.Methods has the methods around them.
--     Auctions.Editing has createAuction, patchAuctions and deleteAuction, over the raw queries of
--     Store.Deletes (backend/src/database/repositories/auctions-tx.repository.ts).
--   * Bots: tryPlaceBid and relistBotWonAuctions of backend/src/bots/bots.service.ts, with the keys
--     of backend/src/bots/redis-cooldown.store.ts; Bots.Attempts has selectBidAttempts and the merging
--     of fetchData, Bots.TopUp the daily money.
--   * Orders: backend/src/orders/orders.service.ts. Orders has the transactions; Orders.Payload the
--     stored result of a closing; Orders.Finalize what follows the commit of a closing, with its
--     retry; Orders.Methods the methods. The two transactions that cancel an order and reopen its
--     auction differ in a text and are one definition, cancel_and_reopen.
--   * System: the committed transactions of Auctions, Orders and Bots as the steps of one database
--     (Step), and runs of them (Reach). System.Moves has what a step does to the table of orders,
--     System.Machine the life of one order, System.Reaching what holds of whatever is reached.
--   * Events: backend/src/events/events.service.ts. A Hub is one of its two maps of subjects with the
--     counts; stream and end_stream are a subscription's begin and end, on_message is the handler of
--     onModuleInit. Events.Live compares a hub with the list of open subscriptions.
--   * Notifications: backend/src/notifications/notifications.service.ts over the table of
--     backend/src/database/repositories/notification.repository.ts.
--   * Auth: the refresh tokens and the accounts of backend/src/auth/auth.service.ts, over the keys of
--     backend/src/redis/redis.service.ts.
--   * Wishlist: backend/src/wishlist, whose alerts call Notifications.
--   * Reviews: backend/src/reviews/reviews.service.ts, which reads the orders.
--   * Retention: backend/src/retention/data-retention.service.ts; purge_batches is the loop that its
--     methods share, and Retention.Daily is about a whole run.
--   * Listing: the reading methods of backend/src/auctions/auctions.service.ts over
--     backend/src/database/repositories/auction.repository.ts. Listing has listAuctions and its
--     cursors, Listing.Views, Listing.Status, Listing.Detail, Listing.History and Listing.Figures the
--     summaries, the lists of a seller and of a bidder, the page of an auction, the history of
--     trades and the figures beside a live auction.
--   * Http: the interceptors, filters and guards of backend/src/common and backend/src/auth, which
--     every request and answer of a controller passes; Http.Body has the values of JSON.
--   * Browser: the client, frontend. Browser.Fetching is its requests with the refreshing of a
--     login, which reads what Http wrote; Browser.Caches, Browser.Bidding and Browser.Items are
--     what it shows of bids and wishes before and after the answers and the events of Events arrive;
--     Browser.Reconnecting, Browser.Scrolling, Browser.Times and Browser.Forms the streams, the
--     endless lists, the clocks and the checks of forms.
-- Base has the shared names, Samples the rows on which the tests run.
--
-- What stands for what. Ids and texts of JSON are numbers, since they are only compared. Times are
-- milliseconds, prices are natural numbers (the DTOs ask for integers from a minimum on), and
-- balances are integers. Bids, closings, cancellations and purchases lock the row of their auction
-- first, so that those on one auction are steps one after the other; a payment claims its order by a
-- conditional update. Releases lock nothing, and nothing locks a user: Wallet.Overlap has what two holds
-- or two releases come to that overlap, System lets balances, ledger and bids be anything where
-- transactions overlap, and elsewhere a theorem about a method is about transactions that do not.
-- Between the two queries of a notification about a wish, and between setting the keys of a bot's
-- attempt, which expire, and clearing them, other calls may do theirs; what other requests commit
-- between the reads of a method and its transaction is an argument, as are `now`, the ids of new
-- rows, whether the database can be reached at a call, and the rows that a query with a limit
-- returned. `ORDER BY "bidPrice" DESC` is a stable insertion sort; SQL leaves the order of equal
-- prices open. `randInt` and the floating-point limit of a bot are functions that are given, as are
-- the signing of tokens, the client's single(), String.trim and the texts of toLocaleString. Every
-- loop of the code is over a list, but for selectBidAttempts, whose loop is over the draws that it
-- makes, and which has ended when every pair was drawn. The client that follows the pages of the
-- notifications has fuel, and one page more than there are notifications is enough; a loop of the
-- retention has fuel too, and one batch more than there are rows is enough; so is one page more than
-- rows for the client that follows the cursors of the auctions (walk). Comparing with ILIKE, parsing
-- texts and numbers, the digits of ids and the texts of dates are functions that are given.
--
-- Not modelled: overflow of int4, foreign keys but those of a deletion, clashes of random ids,
-- columns that no modelled decision reads (version, updatedAt, pictures), logging, averages in
-- floating point, the routing of the controllers, failures of Redis while it publishes, the heartbeat of
-- the streams, the exchange with OAuth providers, uploads, the import of products, the deletion of
-- sneakers, administration, the rest of the configuration, and of the client the drawing of its
-- components, its other pages and the widget of the payments.
pub mod Base
pub mod Samples
pub mod Store
pub mod Wallet
pub mod Service
pub mod Auctions
pub mod Orders
pub mod Bots
pub mod System
pub mod Events
pub mod Notifications
pub mod Listing
pub mod Http
pub mod Browser
pub mod Auth
pub mod Wishlist
pub mod Reviews
pub mod Retention
