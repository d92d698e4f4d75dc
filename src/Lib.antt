-- ===== src/Lib.antt =====
-- Beckn Data Commons: a consent layer for data exchange over the Beckn protocol.
--
-- An Access Manager issues signed Access Grants for the requests of a consumer platform (BAP), and
-- revokes them. A provider platform (BPP) serves a file to whoever presents a grant that verifies, is
-- not revoked and is within its cap. Platforms authenticate each message that they exchange. The
-- Access Manager and the providers share one table of a database, `grant_revocations`.
--
-- The files, by part:
--   Base, Js, Json, Zod: options, lists, JavaScript's numbers, texts and `Map`, JSON values and how
--     they cross the wire, and the readers that the schemas are made of. Js/Scalar and Js/Base64 are
--     UTF-8 and `base64url`, Json/Print, Json/Lexer and Json/Parser `JSON.stringify` and `JSON.parse`.
--   Http: requests and answers, and a network as a function from its state.
--   Canonical: packages/crypto-utils/src/canonical.ts, `canonicalJson`.
--   Ed25519: packages/crypto-utils/src/ed25519.ts, keys and signatures in hexadecimal.
--   Auth: packages/crypto-utils/src/beckn-auth.ts. Auth/Header is `parseHeader` and what `signMessage`
--     prints, Auth/Message is `signMessage` and `verifyMessage`, Auth/ReplayCache is `ReplayCache`,
--     Auth/Participant is `createParticipantAuth`, Auth/Registry `parseKeyRegistry`.
--   Domain, Grant: packages/beckn-schemas/src/domain.ts and grant.ts. Grant/Types has the records and
--     the JSON of a grant, Grant/Parse the schemas
--     and Grant/Parse/Reads what they read, Grant/Issue `issueGrant`, Grant/Verify
--     `verifyGrant`.
--   AccessManager: services/access-manager/src. AccessManager/Stores has the two stores and what they
--     promise, AccessManager/Service `GrantService`, AccessManager/App the HTTP handlers.
--   Beckn: packages/beckn-schemas/src/context.ts, the context of a message.
--   Bpp: services/bpp/src. Bpp/Stores has the stores of revocations and redemptions, Bpp/Download
--     `redeemGrant`, Bpp/Download/Presented the grant in a header, Bpp/Download/Ledger series of downloads and revocations, Bpp/Catalog the search and
--     the files, Bpp/Intent and Bpp/Builders the callbacks, Bpp/App the HTTP handlers.
--   Bap: services/bap/src. Bap/Orchestrator is the registry of collectors of orchestrator.ts and its
--     events, Bap/Orchestrator/Journey what each step of a journey sends and reads, Bap/Transport the
--     calls of transport.ts, Bap/Config `parseBpps`. Bap/App has the routes of app.ts for callbacks,
--     `select` and `init`, and Bap/Client those for `search` and `confirm` (Bap/Client/Typed: a
--     grantee as typed); Bap/App/Delivered and
--     Bap/App/Settles are about a provider's callback on its way to the collector that waits for it.
--   Mcp: services/mcp-server/src. Mcp/Session is what a session remembers, Mcp/Gateway
--     `HttpBdcGateway`, Mcp/Replies the texts of the answers, Mcp/Tools the seven tools of server.ts,
--     Mcp/Tools/Calls series of calls.
--   Consent: the services together; Consent/Confirmed from a confirmation at the BAP to the redemption,
--     Consent/Presented a grant on its way to the provider, Consent/Downloaded both.
--   Web: apps/web/src. Web/Client is lib/bdc.ts, Web/Offers lib/offers.ts, Web/Held the grants of
--     lib/identity.ts, Web/Routes the routes of app/api.
--   Tests: concrete parameters, and each theorem at a concrete input.
--
-- State is passed explicitly: an operation takes the store and returns the new one. An error that is
-- thrown is `none`, or a constructor of the result type. Awaited calls in a handler run in the order
-- of the code; each statement on a store is one step, as the code asks of it. A clock that the code
-- reads twice is two arguments. A time in seconds or milliseconds is a natural number; a number that
-- a message carries may be any number of JavaScript.
--
-- Parameters: `Noble` is @noble/ed25519 with its documented laws (`IsNoble`), `Zod` is the format
-- tests and error texts of zod, and `other` reads the numerals of JavaScript that are not plain
-- decimals. `to_lower_case`, `resolve` and `exists_sync` are the language's, the path library's and the
-- file system's. Texts are sequences of Unicode characters; a lone surrogate is outside the model. The
-- printed form of a natural number divides by ten as often as there is fuel, one more than the number
-- itself, which is more than its digits.
--
-- A network is `fetch`, a function from its state and a request to the next state and a response, or
-- to none when it throws. `parse_url` is the platform's parser of addresses. `Shown` has how JSON is indented and how a time is written, `FileSystem` what
-- the tools do with files, `Sign` is the signer of the Access Manager's client.
--
-- Not modelled: the start-up of the services, their reading of the environment and timers, rate
-- limits, the pages of the web application, the scripts, and, so far, the schemas of the catalog and the contract.
-- The ranges of the integer columns of Postgres are left out, and so is the cast of `confirm_access`: a
-- grant without an id throws. A property that is there with the value `undefined`, which no body that
-- was parsed has, is read as one that is absent.
-- Of JSON's objects, the order that the language gives to names that are array indices is left out.
pub mod Base
pub mod Js
pub mod Json
pub mod Canonical
pub mod Ed25519
pub mod Zod
pub mod Domain
pub mod Grant
pub mod Auth
pub mod Beckn
pub mod AccessManager
pub mod Bpp
pub mod Bap
pub mod Http
pub mod Mcp
pub mod Web
pub mod Consent
pub mod Tests
