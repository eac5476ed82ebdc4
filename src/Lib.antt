-- ===== src/Lib.antt =====
-- Verification library of the scalable systems design course: models of the Python programs of its
-- labs and the theorems that make them correct.
--
-- Parts, and the files that model them:
--   * KvNode: the replicated key-value node of lab 05,
--     05-distributed-systems-high-availability/app/kv_node.py. `KvNode/Version.antt` has records
--     and `is_newer`; `KvNode/Store.antt` the methods of `class Store`; `KvNode/Quorum.antt`
--     `count_until_quorum`, `visible_nodes` and `replicate_sync`; `KvNode/Sync.antt`
--     `sync_loop`, `warm_up` and the application of a batch; `KvNode/Http.antt` `do_GET` and
--     `do_PUT`; `KvNode/Post.antt` `do_POST`. A node holds its data, its Lamport clock and a
--     queue of writes for each peer; handlers and the sync thread share that store under one
--     lock, so each locked section is one step (`KvNode/Clock.antt`, `KvNode/Delivery.antt`).
--   * Gateway: the lab 15 gateway, 15-serverless/gateway/gateway.py. `Gateway/Queue.antt` is
--     `class Queue`, `Gateway/Pool.antt` `class EnvironmentPool`, `Gateway/Invoke.antt`
--     `invoke`, `Gateway/Poller.antt` `poll_once`, `Gateway/Api.antt` the routes and the events
--     of the API, and `Gateway/Dispatch.antt` `_dispatch`, which answers an HTTP request with
--     the replies of `Gateway/Replies.antt`. The poller receives a batch from the queue, invokes
--     the processor on an environment of the pool and settles each message.
--   * Messaging: the order messaging of lab 14, 14-distributed-messaging/app.
--     `Messaging/Worker.antt` is the handler of worker.py, `Messaging/Payment.antt` payment.py
--     with the tables of ledger.py, `Messaging/Broker.antt` broker.py, `Messaging/Producer.antt`
--     the orders of producer.py and `Messaging/Subscriber.antt` the loops of subscriber.py. They
--     share only the broker's queues: a handler takes a delivery and gives its calls on the
--     channel.
--   * Serverless: two functions of lab 15, 15-serverless/functions. `Serverless/Processor.antt`
--     is processor/app.py, which answers the batches that the gateway's poller sends, and
--     `Serverless/Orders.antt` is orders/app.py, which answers its HTTP events. DynamoDB enters
--     as a table with the calls that each makes and the promises of `IsTable` and `IsStore`: a
--     transaction happens as a whole or not at all, also one that raises, and a read gives some
--     version of an item, which may lag behind. `Serverless/Transaction.antt` reads these
--     promises for one order.
--   * Caching: the cache patterns of lab 11, 11-caching/python/cache_lab.py, in
--     `Caching/Patterns.antt`. Redis enters as a cache with the promises of `IsCache`, the
--     backend as its answers to HTTP calls.
--   * Builder: the builder of the architecture puzzles of lab 13,
--     13-solutions-architecture/arch-builder/tools/build.py. `Builder/Puzzle.antt` has a puzzle
--     as schema/puzzle.schema.json admits it and the registry of services,
--     `Builder/Problem.antt` what a `Report` records. `Builder/Schema.antt` and
--     `Builder/SchemaErrors.antt` are `schema_errors` on decoded JSON; `Builder/Accepted.antt`
--     says what a schema admits. The numbered sections of `validate` are `Builder/Names.antt`
--     (ids and blanks), `Builder/Palette.antt`, `Builder/Numbers.antt` (numbers, arrows and
--     steps), `Builder/Geometry.antt` and `Builder/Layout.antt` (`check_geometry`),
--     `Builder/Choices.antt` (distractors), `Builder/Leaks.antt` and `Builder/Wording.antt`;
--     `Builder/Difficulty.antt` is `difficulty`, `Builder/Overlay.antt` `validate_overlay`, and
--     `Builder/Validate.antt` puts them together to `validate`, `check_file`, `cmd_validate` and
--     the checks of `build`, which goes on in `Builder/Output.antt` with `normalize` and in
--     `Builder/Assemble.antt` with the clouds, the packages and the sprite of the game. A
--     message is a constructor of `Problem`, with the values that its text shows.
--   * Visualizer: the database visualizer of lab 10, 10-databases/visualizer/server.py.
--     `Visualizer/Transfer.antt` is `consistency_transfer`; MySQL enters as a database with the
--     promises of `IsDatabase`; a transaction is what the database keeps and what its own
--     statements see.
--   * Common: texts as lists of code points, dicts in insertion order, decoded JSON.
--
-- What comes from outside is a parameter: the answers of the network and of DNS, clocks, the ids of
-- `uuid4`, `json.loads`, `json.dumps`, base64 and md5, and what other threads do between two locked
-- sections; in the builder, what its regular expressions find. Lengths on the puzzle's grid are
-- numbers of millionths: a length with more decimals, and the rounding of floats, are not modelled.
-- The identity of a record object, which `is` compares in `sync_loop`, is a number. Of SQLite only
-- the primary key and the rollback of a transaction are written out, in `Messaging/Payment.antt`.
--
-- Loops are structural recursion over the list that the program walks, so no fuel is needed, but
-- for the decimal digits of a number n, printed with n + 1 rounds where each divides by ten, and
-- for the deliveries that follow from one message of the worker, whose theorem gives how many are
-- enough. The limit of fifty on the ancestors of a group is the program's own. `schema_errors`
-- takes a limit on how deep its checks nest: the depth of the schema is enough, whatever the value.
--
-- Not modelled: sockets, HTTP parsing (a request of the gateway is dispatched after its URL and
-- body are read), logging, threads as such, exhausted memory and recursion, and the programs of the
-- other labs: the other tabs of the database visualizer, the diagram animation and the availability
-- scripts; of the puzzle builder the reading of decoded JSON as a puzzle, the files that it copies
-- and writes, and `svg_symbol`, whose drawings and errors are a parameter.
pub mod Common
pub mod KvNode
pub mod Gateway
pub mod Messaging
pub mod Serverless
pub mod Caching
pub mod Builder
pub mod Visualizer
