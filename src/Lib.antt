-- ===== src/Lib.antt =====
-- The verification library of walletus, a Go service that keeps HD wallets for tenants and runs a
-- payroll portal on top of them.
--
-- The parts of the program, and how they meet. The API server (cmd/modapi) registers gin routes
-- (router); an interceptor puts the logged-in user into the request's context; the handlers
-- (http, http/portal) answer it, with the database reached through gorm (common/system/mysql.go)
-- and the chains through the gateway (common/chain/gateway.go), which finds the client of a chain
-- in a registry (common/chain/dep). Key derivation lives in common/bip.
--
-- Where each part is modelled:
-- - Gorm: the interface of a table (find, first, create, save, delete) with what the program
--   relies on of gorm and MySQL as named hypotheses; Gorm/Memory meets it with lists in memory.
-- - Web: the replies and the opening guards of a handler. A handler is an action on the database
--   that stops at its first reply; Web/Rules says what holds when one ends; Web/Codes are the
--   codes of cmd/modapi/codes/dict.go.
-- - Model: the rows of common/model.
-- - Chain: the chains, the registry and the gateway of common/chain, with `Chain/Json` for the
--   `any` of a receipt.
--   `Chain/Lookup` relates the registry to the chains that the program accepts.
-- - Config: the chains and endpoints of common/config/conf.go.
-- - Queue: the queues of common/system. `Queue/Slots` is queue.go, which `Queue/Fifo` compares
--   with the history of what was put in; `Queue/Locked` is queue_enhance.go, with the steps of
--   its callers, consumers and handlers, of which others may come in between, in
--   `Queue/Exclusive` and a wake of its consumer in `Queue/Drained`.
-- - Numbers: the numbers of 15 digits of common/system/rand.go; `Numbers/Luhn` is about their
--   check digit, `Numbers/Sequence` about the sequence of a day.
-- - Rpc: the clients of the nodes. `Rpc/Nodes`, `Rpc/Session`, `Rpc/Chunks` and `Rpc/Loops` are
--   what common/chain/tron/client.go, common/chain/solana/client.go and common/chain/evm/abi.go
--   repeat: the HTTP clients, the batches and the loops of queries. `Rpc/Tron`, `Rpc/Solana`
--   and `Rpc/Evm` are the three clients with their calls, `Client` below each its methods,
--   `Answers` what these answer, `Rpc/Tron/Words` and `Rpc/Tron/Replies` what a reply to a
--   token query holds; `Rpc/Tron/Encoded` relates the parameter of a token query to the
--   addresses of Bip, `Rpc/Evm/Anchored` an anchor to the block of a query, and
--   `Rpc/Evm/Ledger` the multicall to the calls one by one, where a call of a contract may
--   fail.
-- - Sealed: the tokens of cmd/modapi/security/aes.go, and in `Sealed/Master` the encryption of
--   the master keys of common/bip; `Sealed/Opened` is about opening what was sealed.
-- - Access: the interceptors of cmd/modapi/interceptor, `HttpInterceptor` in `Access/Signed`
--   and `TokenInterceptor` in `Access/Tokens`, and `PortalLogin` in `Access/Login`.
--   `Access/Issued` is about the tokens of the login; Access/Verified, Permitted and Authorised
--   lead to the chain of both interceptors in `Access/Admitted`, and `Access/Granted` ties the
--   check to the bindings of Rbac.
-- - Bip: `CheckValidChainCode`; `Bip/Path` is parseBIP44Path with the paths that are printed.
--   `Bip/Derive` derives keys and addresses over the key libraries, which are parameters, and
--   `Bip/Spendable` compares the derivation from an xpub with that from the master key.
-- - Wallet: `WalletCreate` of cmd/modapi/service/wallet.go (`Wallet/Create`) with
--   common/bip/parent.go and sol.go; `Wallet/Panics` is about the panic of Argon2, from which
--   it recovers, and `Wallet/Issued` about its outcomes.
-- - Tenants: cmd/modapi/http/portal/tenant.go, cmd/modapi/http/tenant.go and the keys of
--   applications of cmd/modapi/security/api.go (`Tenants/Handlers`); `Tenants/Registered` says
--   what creating a tenant stores, and `Tenants/Signing` that its application can then sign
--   requests.
-- - Rbac: bind and unbind of cmd/modapi/http/portal/rbac.go (`Rbac/Bind`); `Rbac/Pairs` speaks
--   of a table of pairs before and after.
-- - Payroll: the payroll routes of cmd/modapi/http/portal/admin.go. `Payroll/Month` is
--   isValidYearMonth, `Payroll/Settings` the settings that pay reads, `Payroll/Saved` the
--   settings routes of cmd/modapi/http/portal/sys.go with `Payroll/ReadBack`,
--   `Payroll/Transactions` the functions run by db.Transaction, `Payroll/Edit` create, update
--   and delete, `Payroll/Approve` submit and audit, `Payroll/Pay` pay, pay/config and status
--   check, `Payroll/Staff` staff/wallet and staff/delete. `Payroll/Lifecycle` is the workflow
--   of a payroll and the calls on it; Payroll/Checks, Confirmed, Monthly, Edited, Decisions,
--   Removed and Refusals say what single handlers have checked and written.
-- - People: the handlers of cmd/modapi/http/portal/admin.go that change users and departments
--   (`People/Handlers`); `People/Ended` is about how their transactions end, and
--   `People/Deleted` and `People/Updated` say what a deletion and an update of a user change.
--   `Web/Ended` says what a handler has passed through that goes on to its end.
-- - Tests: runs on tables in memory.
--
-- How code is rendered: `PortalPayrollCreate` is `portal_payroll_create`, and so on. A request
-- is given as what gin's binding makes of it, the request or the text of the error; the clock is
-- read once for a call; the time stamp of a reply is not modelled. decimal.Decimal, IsHexAddress
-- of go-ethereum and the errors of a transaction's begin and commit are parameters (`Env`); a
-- client of a chain is any value of the interface `Client`. Numbers are natural numbers; a
-- parameter of a path is read with the bound of 64 bits. Maps are association lists, texts that
-- are parsed are lists of bytes. A call of a node is a step of a world, which is a parameter, so
-- that the same call may have different answers; a range over a map goes in the order of the
-- list. Recursion on fuel: `format`, `show` and `format_hex` print a number with fewer digits
-- than its value plus one; `chunk_from` has one round more than the list has elements;
-- `consumer` and `consume` run as many rounds as they are given, and the rounds that empty a
-- queue are proved to be enough. What is relied on of the database and of the key libraries
-- stands in `IsEnv`, `IsRbacEnv`, `IsWalletEnv` and `IsKeyLib`, of the ciphers in `IsCipherLib`,
-- of the nodes and the address formats in `IsHonest`, `HasBalances` and `IsShared`, of the
-- sequences in `IsNumberEnv`, of the users' tables in `IsPeopleEnv` and of the tenants' in
-- `IsTenantEnv`, which are hypotheses.
--
-- Not modelled: the dashboard of the portal, the handlers of roles other than their bindings,
-- the routes that only list, the interceptor of web sockets, which no route has,
-- `BuildQueryString`, the nonces and invite codes of common/system/rand.go, singleflight and the
-- time limits of the calls of nodes, logging, the reading of configuration files and the
-- servers' start.
pub mod Base
pub mod Gorm
pub mod Web
pub mod Model
pub mod Config
pub mod Queue
pub mod Numbers
pub mod Chain
pub mod Rpc
pub mod Sealed
pub mod Access
pub mod Bip
pub mod Wallet
pub mod Tenants
pub mod Payroll
pub mod Rbac
pub mod People
pub mod Tests
