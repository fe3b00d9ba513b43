-- ===== src/Lib.antt =====
-- A verification library for the Python services of the repository: the marketplace (дз_2/app), the
-- producer of movie events (dz_5/producer-service), the daily metrics (dz_5/aggregation-service),
-- and the first service of users (дз_1/auth_service/services/users_auth).
--
-- Parts and files.
--   Base      the names that all files share; Base/Exec, the state and error monad of the handlers;
--             Base/Retry, the retries of tenacity; Base/Table, rows by identifier; Base/Lists,
--             selection and order; Base/Members, what an order keeps; Base/Count, sums over rows.
--   Market    дз_2/app/src. Models: models/*.py, with the tables of the database in `Db`. Errors:
--             core/errors.py. Session: core/db.py and the transactions of main.py. Access: roles
--             and owners. Tokens: core/security.py and core/dependencies.py. Auth: the handlers of
--             /auth. Products: the handlers of /products and POST /promo-codes. Promo: codes and
--             discounts. Orders: the handlers of /orders, with the parts of their bodies in
--             Orders/Limits (rate limit and open orders) and Orders/Lines (the lines of an order);
--             Orders/Worth: the price of a request by the catalogue; Orders/ForeignKeys: the
--             references between the tables. Stock: what the shelf and the orders hold, a view of
--             the tables. Http/Responses and Http/Validation: the responses and the handlers of
--             exceptions of main.py. Http/Log and Http/Json: core/logging.py.
--   Producer  dz_5/producer-service/app. Events: models.py. Choices: the constants of generator.py.
--             Generator: the rest of it, but for its loop. Publish: kafka_client.py. Registry:
--             schema_registry.py. Settings: config.py. Service: main.py and `generator_loop`.
--   Aggregation  dz_5/aggregation-service/app. Warehouse: the tables of ClickHouse. Queries: the SQL
--             of aggregation.py; Ranking and TopMovies: its movies in order. Payload:
--             `_build_metric_payload`. Service: `aggregate_for_date`; DayMetrics: its payload by the
--             queries. Repository: repository.py. Exporter: exporter.py and the query of repository.py
--             that it calls. Jobs: main.py, scheduler.py and config.py. Commands: a run that stops;
--             Restart: the run after it. Pipeline: a run and its export.
--   Migrations  дз_2/app/alembic/versions (Initial) and dz_5/aggregation-service/alembic/versions
--             (DailyMetrics).
--   UsersAuth дз_1/auth_service/services/users_auth/app: app.py and models.py.
--   Tests     runs of the code on samples.
-- A request passes `respond`, which opens a session on the committed tables, `as_role`, and a
-- handler. The user is the argument that `get_current_user` finds. A handler is named as in main.py;
-- its query before the block, its block, and the block's steps are functions that it composes in
-- the source's order. The three orders' handlers share stock, promo codes and the log of operations
-- through the tables. `endpoint` makes the answer of a handler's result. The metrics go from the
-- events through the reports of a date, in ClickHouse, and the rows of a payload to the table in
-- PostgreSQL, from which the export reads.
--
-- How the code is modelled.
--   * Identifiers are natural numbers. A column NUMERIC(12, 2) is a number of cents, and an exact
--     Decimal is a number of millionths, of which percentages of cents need no more. What a column
--     keeps of an exact amount is an argument (`numeric`), and the hypotheses RoundsToNearest and
--     TiesUp name what PostgreSQL documents of it. Times are in microseconds, and a date is the
--     number of its day.
--   * The clocks, the draws of uuid4 and of random, `str.strip`, jose and passlib (`Crypto`), SHA-256
--     and the syntax of an e-mail, the Kafka client, the schema registry and the Avro writer, the
--     failures of the database and of the store, `json.loads` and the decoding of a body, pandas' CSV
--     and `float` are arguments. A run that stops in its reports has done some of its
--     commands; one that stops in the upsert or behind it, all of them and the upsert as far as the
--     database went. CryptoLaws names what the code relies on of jose and passlib, and
--     AllFresh that uuid4 draws no identifier of an order twice.
--   * Float64 is an argument too, with the quotient of two counts (`quotient`): the reports count
--     and sum whole numbers, and divide once.
--   * Requests run one after another, except in Orders/Races, where the blocks of two cancellations
--     follow their reads. An exception in a block rolls its transaction back.
--   * A quantity of a line is a natural number: request validation refuses others. The overflow of
--     an INTEGER column is not modelled.
--   * A report of ClickHouse is the list of its rows with their date; the columns computed_at and the
--     merges that FINAL asks for are left out, since a date is deleted before it is written. The
--     date of an event is the date of its timestamp, as the materialised view of
--     dz_5/infra/clickhouse/init/01_init.sql makes it.
--   * Loops are recursions on their list. The retries of tenacity are at most five attempts, as
--     `stop_after_attempt(5)` says, and need no further bound. The endless loop of the generator is
--     run on the batches that it draws, for as many as are given.
--   * A migration is the list of the operations of Alembic that it calls. `Alembic` is an argument:
--     the operations on a database, and its catalog. Its law `documented` names what PostgreSQL
--     documents of the statements that an operation sends: `step`, where op.create_table of a revision
--     creates the types of its columns, and op.drop_table of a name drops none.
-- Not modelled: the validation of requests, which pydantic does, but for the answer to it; the
-- set-up and the environment of the migrations, the connections, the health checks, when the jobs of
-- the scheduler fire, and the sleeps, which only call libraries; дз_2_prob, which is a copy of дз_2;
-- and the services in Go of дз_3.
pub mod Aggregation
pub mod Base
pub mod Market
pub mod Migrations
pub mod Producer
pub mod Tests
pub mod UsersAuth
