-- ===== src/Lib.antt =====
-- The LCP light client for ibc-go: a Cosmos chain follows another chain through messages that an
-- enclave signs. The enclave's keys are registered with attestation reports, operators sign for the
-- keys, and packets are proved by messages that registered keys sign.
--
-- The parts of the program, and the files that model them. Paths are from the repository's root, and
-- a function keeps its name in lower case with underscores.
--   light-clients/lcp/types/lcp.pb.go: the messages are records in Types; the interfaces that the code
--     takes apart by type switches are data types, with a constructor for every other type.
--   light-clients/lcp/types/errors.go: Result has values, errors and panics. An error keeps the
--     registered error that it wraps, and a constructor for its text; what a text interpolates is not
--     kept. `or_panic` is `if err != nil { panic(err) }`.
--   light-clients/lcp/types/store.go: Store. The store is a parameter S with the operations of
--     `KVStore`, passed from call to call; Store.Keys shows that the keys do not collide, and
--     Store.ClientId is about the client id in the store's prefix.
--   light-clients/lcp/types/message.go and header.go: Message, Message.ValidationContext and
--     Message.Decode; Message.TrustingPeriod and Message.Version hold what is proved of them.
--   light-clients/lcp/types/lcp.go: Eip712, the documents that operators sign.
--   sgx/ias/sgx.go and cert.go: Ias, with Ias.Anchors.
--   light-clients/lcp/types/update.go: EnclaveKey (the record of a key and its registration),
--     Signatures (`VerifySignatures`), Operators (`verifyUpdateOperators`, `updateOperators`) and
--     Update (`VerifyClientMessage`, `UpdateState`); events.go is the type Event.
--   light-clients/lcp/types/misbehaviour_handle.go: Update, with Update.Misbehaviour.
--   light-clients/lcp/types/client_state.go: Client, with Client.Initialization, Client.Delay and
--     Client.Membership.
-- Update.Reachable joins the parts: a step of the client reads the client state in the store,
-- verifies a message and carries it out, or freezes the client.
--   relay/config.go and relay/operator.go: Relay.Config, the configuration and its validation.
--   relay/db.go and relay/lcp.go: Relay.ActiveKey, the enclave key that the prover uses, in memory and
--     in its files, and `loadEKIAndCheckUpdateNeeded`; Relay.KeySelection, `selectNewEnclaveKey`;
--     Relay.KeyUpdate, `UpdateEKIfNeeded`; and Relay.Elc, the prover's client in the LCP service.
--   relay/lcp.go and relay/operator.go: Relay.Registering, the messages for the client on the
--     counterparty, of `registerEnclaveKey` and `updateOperators`, which the light client verifies.
--     Relay.Registering.Laws is what is assumed of the signer and of the chain.
--   relay/restore.go: Relay.Elc.RestoreChecks and Relay.Elc.Restoring.
--   relay/prover.go: Relay.Prover is the struct, Relay.Aggregation is `aggregateMessages`, and
--     Relay.Headers has the methods of `core.Prover`.
-- The prover's services, files, encodings, clock and chains are functions of a record of parameters,
-- and what they hold is a state E. A method of the prover is an Action on its fields and this state,
-- which gives the new state also where it gives an error (Relay.Action).
--
-- Packages holds the libraries that the program calls, as records of functions (the store, ibc-go,
-- go-ethereum, the ABI decoder, the attestation library and the certificates), and
-- Packages.Documented holds the behaviour of these that a theorem relies on, as records of laws that
-- it takes as hypotheses. Examples has packages that satisfy all of them and that run: lists as keys
-- and texts, the identity as the hash, and signatures that begin with their signer.
--
-- Numbers: `uint64` is a natural number with its wrap-around written out (`% two_64`), `int64` and
-- `time.Duration` are integers wrapped to 64 bits (Common.Int), and `big.Int` is an integer without
-- bounds. A `time.Time` is its seconds since the year 1, as an `int64`, and its nanoseconds (GoTime).
-- Bytes and strings are lists of natural numbers, and an address is such a list. Every loop of the
-- source but one is over a list, so it is structural recursion here. The outer loop of
-- `aggregateMessages` has as fuel the number of its messages, which is enough since each pass has
-- fewer. `retry.Do` in `activateClient` is a parameter.
--
-- Not modelled: the texts of errors and logs, gas, JSON encodings, the methods that only panic with
-- "not implemented", generated code other than its structs, the command line, the
-- connection to the LCP service, and the calls of the prover that only pass on to the origin prover.
mod Common
pub mod Result
pub mod GoTime
pub mod Types
pub mod Packages
pub mod Message
pub mod Store
pub mod Ias
pub mod Eip712
pub mod EnclaveKey
pub mod Signatures
pub mod Operators
pub mod Client
pub mod Update
pub mod Relay
mod Examples
