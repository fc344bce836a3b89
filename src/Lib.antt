-- ===== src/Lib.antt =====
-- Keyzori: a licensing server. A client activates a license key from a device and gets a session
-- token, keeps the session alive with heartbeats, and draws units from the meters of the license.
-- The server keeps licenses, devices, meters and a ledger of usage in PostgreSQL, and sessions in
-- Redis. This library models that core of the server.
--
-- Prelude.antt and Prelude/: names of the libraries passed on, tests, lists, integers.
-- Domain/Entities.antt, Domain/Errors.antt: apps/server/src/domain/entities.ts, errors.ts and
--   licenseLimits.ts.
-- Domain/LicenseStatus.antt: deriveLicenseStatus of apps/server/src/domain/licenseStatus.ts.
-- Domain/IpAddress.antt: normalizeIpAddress of apps/server/src/domain/ipAddress.ts.
-- Domain/Text.antt, Domain/Decimal.antt, Domain/Sorting.antt: what the source does with JavaScript
--   strings, the decimal numbers that it writes into Redis values and reads back, and the order in which
--   it sorts names. Domain/Host.antt: what it leaves to its runtime (dates, lower case, isIP, URLs).
-- Infrastructure/Database.antt: the tables of apps/server/src/db/schema.ts as lists of rows, with the
--   unique keys, foreign keys and checks that an insertion or an update meets.
-- Infrastructure/Redis.antt: the commands of Redis that the scripts call, and how their Lua reads a
--   number, as a record with the laws that Redis documents.
-- Infrastructure/LicenseRepository.antt, DeviceRepository.antt, MeterRepository.antt: the classes in
--   DrizzleLicenseRepository.ts, DrizzleDeviceRepository.ts and DrizzleMeterRepository.ts of
--   apps/server/src/infrastructure/repositories, a function for each method, with the method's name in
--   snake case (consume_units for consume).
-- Infrastructure/LicenseRepository/Creation.antt and Editing.antt: create (store_license), findAll,
--   update (edit_license), updateMeterDraft and startTrialIfUnset of DrizzleLicenseRepository.ts.
-- Infrastructure/CustomerRepository.antt, AccessRepository.antt and AccessRepository/Attempts.antt:
--   DrizzleCustomerRepository.ts (store_customer, edit_customer, drop_customer for create, update and
--   delete) and DrizzleAccessRepository.ts.
-- Infrastructure/SessionRepository.antt: RedisSessionRepository.ts of the same directory, a function
--   for each Lua script with the method that runs it (register_session, refresh_session,
--   remove_session, remove_all_sessions).
-- Application/Exec.antt: methods that await calls, over the database, the Redis store, the captured
--   events and a list of faults. Application/Exec/Laws.antt has the rules to reason on them.
-- Application/Activity.antt: the events that are captured.
-- Application/LicenseService.antt and LicenseService/Policy.antt:
--   apps/server/src/application/services/LicenseService.ts (activate, send_heartbeat for heartbeat,
--   consume_usage for consume, deactivate). Activation looks the license up, admits the device in a
--   transaction under the registration lock (policy, limits, session, trial, device), and reports.
-- Application/AdminService.antt and AdminService/: AdminService.ts of the same directory. Validation.antt
--   and TypeConfig.antt have its checks and the settings of a license's type, Customers.antt,
--   Licenses.antt, Updates.antt, Revocation.antt, Access.antt, Devices.antt and Meters.antt its methods
--   (remove_license_device for removeRegisteredDevice, reset_license_devices for
--   resetRegisteredDevices). Where an operator ends the sessions of a license, the next heartbeat or
--   consumption of LicenseService.ts meets the raised revision.
-- Application/ActivityService.antt and ActivityService/Secrets.antt: ActivityService.ts of the same
--   directory, with its regular expressions as tests of texts. The services' captures are calls that may
--   fail; what capture keeps of an event is sanitized_event here.
-- Infrastructure/RateLimiter.antt: RedisSlidingWindowRateLimiter of apps/server/src/plugins/ratelimit.ts,
--   on the sorted sets of Infrastructure/SortedSets.antt, a record with the laws that Redis documents.
-- Controllers/ClientIp.antt: ClientIpResolver of apps/server/src/controllers/clientIp.ts, which names the
--   address that the limiter counts and that activations are admitted by. BlockList of node:net is a
--   parameter.
-- The modules below a component's file hold the lemmas on it, named for what they are about.
-- Tests/: concrete inputs, with Redis as a store in memory.
--
-- How the state is modelled. A date is a number of milliseconds since 1970, and a request reads the
-- clock once. A SQL table is a list of rows; orderings of query results are left out. A repository's
-- transaction is a function to a result with a new database, or an error with none. Every call of a
-- repository or of the activity recorder, and every commit, takes the next entry of a list of faults,
-- which says whether it fails before it has an effect; at the end of the list no call fails. Where a
-- method of the license repository writes and then reads the license again, the admin service makes two
-- calls of it. The
-- advisory locks make the operations on a license sequential, so concurrent requests appear as
-- sequences of operations. Random identifiers and tokens are arguments, and sha256 is a parameter. A
-- JSON number is kept as its text. Units and balances are natural numbers, bounded by the integer
-- limit of the columns where the source or the column bounds them; a session revision has no such
-- bound here. Message texts of errors are left out. All recursion is structural; there is no fuel.
--
-- A number that an operator gives is a whole number or another; a date's text is read by a parameter.
-- The details of an event list the fields of a request in the order of its record.
--
-- Not modelled: the activity repository and the Stripe parts, except the deletion of a license's link
-- to Stripe, the hook that calls the rate limiter, the other controllers, the command line, the SDK.
-- The rows of activation attempts that the access records summarise are an argument. Expiry of Redis
-- keys by time is not modelled: the laws of Infrastructure/Redis.antt and SortedSets.antt are those of
-- keys that have not expired.
pub mod Prelude
pub mod Domain
pub mod Infrastructure
pub mod Application
pub mod Controllers
pub mod Tests
