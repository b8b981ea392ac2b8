-- ===== src/Lib.antt =====
-- The Go SDK for Polymarket. A MarketMonitor (polymarket/market_monitor.go) is the handler of a
-- WSClient (utils/websocket_client.go): the client dials, reads, writes and reconnects, and
-- hands each message to the monitor, which keeps the newest order book of each token and passes
-- events on through bounded channels. A CryptoPriceMonitor (polymarket/crypto_price_monitor.go)
-- and a TradeMonitor (polymarket/trade_monitor.go) are handlers of the same kind.
-- PolymarketClient (polymarket/polymarket.go) resolves tick sizes and fees, builds and signs
-- orders from decimal amounts (orders/, signature/, utils/utils.go), and posts, cancels and
-- lists them with the headers of headers/headers.go; the relayer client (relayer/) packs and
-- signs the transactions of a Safe.
-- Files:
--   - Common, with its children: native numbers, lists, maps as functions, int64 with its
--     wrap-around.
--   - Chan: a buffered channel as its capacity and its values, the non-blocking selects on it,
--     and the emission that drops the oldest value; Chan.Bounded and Chan.Latest prove what it
--     keeps.
--   - WsClient: utils/websocket_client.go. WsClient.Config has WSConfig and the defaults,
--     WsClient the state with Send, Close and Reset, WsClient.Run the loop of Run one turn at a
--     time, WsClient.Loops the loops of its goroutines; Sessions, Announce and Retries are
--     about runs.
--   - Wire: JSON values that are sent, and gjson as an interface.
--   - Market: the state of polymarket/market_monitor.go. Market.Books is the book store (Race:
--     its steps as concurrent workers run them), Market.Tokens the subscriptions, Market.Events
--     the messages.
--   - Decimals: float64 and shopspring/decimal as interfaces, and the rounding of
--     utils/utils.go.
--   - Orders: orders/types_impl.go and orders/utils.go; Orders.MarketPrice and Orders.Amounts
--     are orders/order_helper.go.
--   - Retry: GetContext and rateLimitDelay of polymarket/polymarket.go; Retry.Bounds is about
--     the loop, Retry.Delays about the delays.
--   - Client: the caches of polymarket/polymarket.go; Client.Pages has GetOpenOrders and
--     Client.Pages.Positions SearchPositions.
--   - Trades: polymarket/trade_monitor.go.
--   - Crypto: utils/encryptor.go.
--   - Orders.Build and Orders.Signature: BuildOrder and the creation arguments of
--     orders/order_builder_impl.go and orders/order_helper.go, the message of PostOrder, and
--     signature/signer.go.
--   - Prices: polymarket/crypto_price_monitor.go, the messages and what is shown (Quotes,
--     Feeds), the symbols (Symbols), the topics (Topics) and FetchOpenPrice (Open).
--   - Tags: polymarket/helper.go, with the start times in Start.
--   - Orders.Build.Signed: the hash and the signature of an order in
--     orders/order_builder_impl.go; Layout is about signatures of POLY_1271, Checks about which
--     are given.
--   - Client.Create: CreateOrder and CreateMarketOrder of polymarket/polymarket.go; Sound is
--     about what they give.
--   - Relayer: relayer/safe.go, relayer/utils.go and relayer/derive.go; Packing is about the
--     multi-send bytes, Execute and Orderly about the requests of relayer/relay_client.go,
--     Actions about the transactions that it makes.
--   - Headers: headers/headers.go and signature/sign.go.
--   - Client.Requests and Client.Answers: the calls of polymarket/polymarket.go that send one
--     request, and what they read from its reply; Signed is about the calls that need
--     credentials.
--   - Model: the reading of a SafeFloat64 in model/subscribe.go.
--   - WsClient.Connect: connect and the read deadline (Alive: how long reads go on).
--     WsClient.Workers: the message buffer between readLoop and messageLoop as a step relation
--     (Conserved, Ordered). WsClient.Listener: Run of a client with a monitor as its handler
--     (Resubscribed); Market.Runs, Trades.Runs and Prices.Runs are the three monitors' Run, and
--     Market.Books.Pooled the book store behind the worker pool (Orderless: how far the order
--     of the books matters).
--   - Orders.Build.Signed.Cached is about the cache of domain separators, Client.Create.Market
--     about CreateMarketOrder.
--   - Floats: FloatToString and GetFloatArray of utils/utils.go (Places: what the text keeps of
--     a number); Tags.Stamp: ToTimestamp.
--   - Relayer.Calls: the requests of relayer/relay_client.go with their headers, and what it
--     reads from the replies (Submitted: the headers of a submission; Exchange: the requests of
--     EexecuteSafeTransactions as they are sent).
--   - Config: polymarket/config.go and polymarket/config_impl.go, with the parts of the
--     settings that Retry, Client.Requests and Client.Create read; Config.Defaults is about
--     DefaultConfig.
--   - Market.Events.Stored: where a message book ends up; Market.Events.Shown: what the
--     channels hold after messages.
--   - Examples: runs on concrete values.
-- A function that returns an error gives a result type or an Option. What the outside decides
-- (the network, the context, the clock, other goroutines) is an argument: Run takes a list of
-- turns, an update takes its time, and an emission takes what runs between its selects. Only
-- the digits of a number in Relayer run on fuel, which is the number itself and so more than it
-- has digits. Run goes on for as many turns as it is given, and a theorem that it returns says
-- after how many turns.
-- Not modelled: HTTP and socket I/O, logging, the deadlines of writes, and the code of
-- libraries (gorilla/websocket, gjson, shopspring/decimal, go-ethereum), which is taken as
-- interfaces. The texts of times, of float64 values and of hexadecimal numbers are read and
-- written by libraries, and so they are arguments. The settings are values: reading them from
-- files is left out. The float64 values are the finite ones: NaN and the infinities, on which
-- decimal.NewFromFloat panics, are left out, and so are RoundToMinutes, whose local time
-- depends on a zone, and the chains that GetContractConfig does not know where an order is
-- built (the source dereferences nil there). The test programs have no model.
pub mod Common
pub mod Chan
pub mod WsClient
pub mod Wire
pub mod Market
pub mod Decimals
pub mod Orders
pub mod Retry
pub mod Crypto
pub mod Client
pub mod Relayer
pub mod Examples
pub mod Config
pub mod Floats
pub mod Headers
pub mod Model
pub mod Prices
pub mod Tags
pub mod Trades
