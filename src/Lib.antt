-- ===== src/Lib.antt =====
-- Tools around a Filecoin node: a service that watches the node's message pool and raises the fees
-- of stuck messages, and a synchroniser that copies the chain's messages into MongoDB. This is a
-- model of the Go code, with theorems about it.
--
-- The parts and how they work together. The fee service (baseFeeAuto) runs two loops on one state.
-- Every RefreshTime seconds `syncMsg` looks at the pending messages of the configured addresses,
-- shows them on a gauge and, by their number, moves the base-fee cap within its configured bounds.
-- Every RefreshBaseFee seconds `DoClean` records the base fee of the chain's head and, where that
-- is below the cap, starts `doImprove` for the first OnceMax messages, with the cap as their new
-- fee. Both loops convert messages to documents (types/message.go) by the table of actor methods
-- (stmgr/utils.go). The synchroniser (synchain) reads the last synchronised height from the
-- database, starts a job for each height after it that is missing, and stores where it came to.
--
-- Which file models what:
--   Prelude            Go's values: int64 and big.Int (Int, Int64), decimal text (Decimal), maps
--                      (Assoc), errors and panics (Go), lists and tests
--   Config             types/baseFeeAuto/types.go, and the defaults of cli/baseFeeAuto/main.go
--   Loading            LoadYaml of types/baseFeeAuto/types.go and loadYaml of synchain/config.go, with
--                      initConfig
--   Node               the values and the calls of the lotus node and of the storage miner
--   FeeController      baseFeeAuto/baseFeeController.go: ResetBaseFeeCap is reset_base_fee_cap,
--                      queueTop queue_top, addFee add_fee, getNextFeeCap get_next_fee_cap,
--                      checkMsgTooMore check_msg_too_more, checkMsgTooLow check_msg_too_low;
--                      baseFeeAuto/prometheus.go: ResetBaseFeeCap is set_gauge
--   Improve            baseFeeAuto/mpool.go: doImprove is do_improve, an Outcome for each return
--   Pool               baseFeeAuto/mpoolQueue.go: NewLocalPool is new_local_pool, its getCode
--                      get_code, syncMsg sync_msg, getTickerEpoch get_ticker_epoch, handleMsg
--                      handle_msg;
--                      baseFeeAuto/mpool.go: MpoolClean is mpool_clean, the body of DoClean
--                      clean_tick
--   BaseFee            api/baseFee.go: GetBase is get_base; baseFee/baseFee.go: watchBaseFee is
--                      watch_base_fee; baseFee/prometheus.go: the function that Monitor passes is
--                      setter; cli/baseFee/main.go: run
--   Stmgr              stmgr/utils.go: init is register, the others keep their names
--   Convert            types/message.go: LotusMessageConvert is message_convert and
--                      lotus_message_convert, LotusMessageReceiptConvert
--                      lotus_message_receipt_convert, the readers of parameters keep their names,
--                      LotusExecutionTraceConvert is the relation Converts,
--                      LotusInvocResultConvert is invoc_result_convert
--   Synchain           synchain/height.go: getSyncHeight, setSyncHeight and heightHasSynced keep
--                      their names; synchain/parseMessage.go: a tick of DoSync is sync_tick, its
--                      inner loop sync_rounds and its outer loop do_sync, the start of main is
--                      start and main itself Main.main, syncHeight is sync_height, and the
--                      jobs of a round together run_interleaved;
--                      synchain/sync.go: syncHeightBlocks is sync_height_blocks, getEpochTrace is
--                      get_epoch_trace on what the relation Gathers gives; types/blocks.go:
--                      LotusTipSetConvert is lotus_tip_set_convert; synchain/config.go and
--                      types/conf.go: Settings
--   Clients            the addresses and headers of the connections that cli/baseFeeAuto/main.go and
--                      getNode of synchain/parseMessage.go ask for; Rpc: client/client.go;
--                      Redis: db/redis/redis.go, RedisConnect is redis_connect, SetObj set_obj,
--                      GetObj get_obj; Mongo: db/mongo/mongo.go, with the names of its functions
--   Power              cli/pow/main.go: run is pow_run, toFile to_file; cli/pow/calcu_fun.go:
--                      Points2Func is points_to_func; pow/pow.go: GetSupply is get_supply
--   Util               util/parse.go: GetValueFromFields is get_value_from_fields (Fields);
--                      util/versionHelper.go (Versions), util/arrayTools.go (Arrays, with its proofs
--                      in Bracketed and Delimited), util/time2height.go (Epochs),
--                      util/aes256cfb.go (Cipher) and util/random.go (Random) keep the names of their
--                      functions; Text is what they take of the package strings, Xor the exclusive
--                      or of bytes
--   Tests              runs on concrete inputs
--
-- How state and control are modelled. A state is a record and a method takes it and returns the
-- new one. A computation that may end the process by a panic is a `Run`; a value beside an error
-- is a `Result`. `int`, `int64` and `abi.ChainEpoch` wrap at 64 bits, `big.Int` does not. The
-- answers of the node are an argument (`Node`): one for a handler, and one for each message where
-- a loop calls the node again. The database is an argument too (`Database`), with `Documented` for
-- what it does, and `Growing`. A `go` statement is a value (`Job`), work that is run in the order in
-- which it ends (`run_jobs`) or by a schedule of its steps (`run_interleaved`), or a relation that
-- allows every order in which the goroutines end. The ticks of the fee service's two loops are steps
-- that come in any order, one after the other (`Reachable`); what they do to the fees is also
-- modelled as steps that overlap, one for each call of a method of the fee controller (`Access`).
-- Logging is left out. `logrus.Fatalf` is the value `fatal` where a program starts; where DoSync
-- cannot connect to its node again it is a `panic`, which is the event `node_lost` of do_sync and no
-- case of sync_tick.
--
-- Bounds. The loop of addFee recurs on the queue, which every round shortens. The loop of
-- getNextFeeCap's sort recurs on lists. Printing a number has one round more than the number, and
-- each round divides it by ten. The inner loop of DoSync has a round for every height up to the head,
-- which is all that it can do before the height passes the head; Window shows that it has ended
-- by then. The loop of the power calculator has a round for every day of its range and one more, and
-- Days shows that it has ended by then. The jumps of RedisConnect are at most twelve, one for each of
-- eleven attempts and one for the last test. The outer loops recur on what they receive. In all other
-- places the recursion is on the data.
--
-- What is not modelled: waiting for tickers and signals; two goroutines inside a method of
-- the fee controller, or at the code cache, at the same time; the HTTP servers and the registration
-- of gauges; the libraries behind the clients; the reading of flags; the identifiers of util/random.go; the constants of
-- util/constant.go, which no code uses. Float64 numbers are their bits, with their arithmetic an
-- argument, or a type that is an argument.
pub mod Prelude
pub mod Config
pub mod Loading
pub mod Node
pub mod BaseFee
pub mod FeeController
pub mod Improve
pub mod Stmgr
pub mod Convert
pub mod Pool
pub mod Power
pub mod Synchain
pub mod Util
pub mod Clients
pub mod Tests
