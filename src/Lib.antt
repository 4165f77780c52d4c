-- ===== src/Lib.antt =====
-- A model of the backend of a multi-tenant chat application, with the theorems that make its
-- accounts, its sessions, its guards and its conversations correct.
--
-- The program. `AuthService` (src/modules/auth/auth.service.ts) registers accounts, logs them in by
-- password, by a one-time password or by a connected OAuth account, verifies and resets what belongs
-- to them, and issues, refreshes and revokes tokens. It keeps accounts in the database through
-- Prisma, and codes, counters, blocks, sessions and blacklisted tokens in Redis through
-- `RedisService` (src/redis/redis.service.ts), which falls back to a map in memory. The guards
-- (src/common/guards) read tokens, the blacklist and accounts before a request is handled.
-- `SocketStateService` (src/socket/socket-state.service.ts) keeps which sockets each user has open
-- and writes a change of presence to the database and to Redis. `ConversationService` and
-- `MessageService` (src/modules/conversation, src/modules/message) keep the rooms with their members
-- and the messages with their attachments, whose files `StorageService`
-- (src/shared/storage.service.ts) keeps on the disk, and tell the sockets of a room of its messages;
-- sockets join a room through `ChatGateway` (src/modules/chat/chat.gateway.ts). `OauthService`
-- (src/modules/oauth) links accounts of Google and other providers, `UserService` (src/modules/user)
-- changes profiles and says who sees whose presence. `SocketIoAdapter` (src/socket/socket.adapter.ts)
-- lets sockets in and tells the namespace /presence of who comes and goes. `AuthController`
-- (src/modules/auth/auth.controller.ts) puts the routes before `AuthService`; what a handler answers
-- or throws passes `TransformInterceptor` and `GlobalExceptionFilter` (src/common).
--
-- The files.
--   Common        library names, texts, lists, maps, results with errors, frames of handlers.
--   Database      prisma/schema.prisma: the tables, and `Table`, what is used of a Prisma model;
--                 Database/Store is the same for the operations on many rows.
--   Redis         src/redis/redis.service.ts, one function for each method; Redis/Driver is what is
--                 used of the ioredis client, Redis/Cache what other services rely on,
--                 Redis/Implements that the service, in either mode, fills that interface,
--                 Redis/Flush what `flushPrefix` removes.
--   Auth/Keys     the keys of Redis (`otpKey`, `otpTokenKey`, `refreshSessionKey`, ...).
--   Auth/World    the services that `AuthService` is constructed with, their state, `audit`.
--   Auth/Users    `findUserByIdentifier`, `resolveTenantId`, `resolveOtpChannel`, ...
--   Auth/OtpGuards `assertOtpNotBlocked`, `bumpOtpResendCounter`, `bumpOtpInvalidAttempts`,
--                 `clearOtpGuardKeys`, `enforceLoginRateLimit`.
--   Auth/Tokens   `issueTokens`, `buildAuthorizationClaims`, `refreshTokens`, `revokeUserSessions`,
--                 `blacklistAccessToken`, `touchPresence`, `logout`, and src/shared/jwt.service.ts.
--   Auth/Otp      `sendOtp`, `verifyOtp` and their parts.
--   Auth/Login    `login` in its three ways.
--   Auth/Passwords `verifyEmail`, `forgotPassword`, `resetPassword`, `changePassword`.
--   Auth/Register `register`, `resolveUsername`, `ensureNoDuplicateIdentity`, `ensureDefaultRole`.
--   Guards        src/common/guards: `AuthGuard`, `RolesGuard`, `PermissionsGuard`, `WsAuthGuard`.
--   Endpoints     src/modules/auth/auth.controller.ts: the routes, with `AuthGuard` before them; the
--                 children Profiles, Talks and Providers are the controllers of src/modules/user,
--                 conversation, message, oauth and session.
--   Sockets       src/socket/socket-state.service.ts: the sockets of each user, `addSocket` and
--                 `removeSocket` with the presence that they write; Sockets/Interleaving has the
--                 two as they interleave at their first `await`.
--   Adapter       src/socket/socket.adapter.ts: the handshake, connections and disconnections.
--   PresenceGateway src/modules/presence/presence.gateway.ts: the channel and the heartbeats.
--   Roles         src/modules/role, src/modules/permission, src/modules/tenant: the services;
--                 Roles/Routes is their controllers.
--   Http          the values of answers; Http/Filter is src/common/filters, Http/Envelope
--                 src/common/interceptors/transform.interceptor.ts and
--                 src/common/utils/response.util.ts, Http/Paging
--                 src/common/utils/pagination.util.ts.
--   Session       src/modules/session/session.service.ts: `findByUser` and `revokeAll`.
--   Storage       src/shared/storage.service.ts: uploads, their keys and their removal;
--                 Storage/Paths is src/modules/upload/utils/upload.util.ts.
--   Chat/World    the tables, files and sockets that the services of the chat work with.
--   Chat/Rooms    src/modules/conversation/conversation.service.ts; Chat/Rooms/Membership is the
--                 abstract state, who is member and administrator of which room.
--   Chat/Messages src/modules/message/message.service.ts, with `emitToRoom` of
--                 src/socket/socket-emitter.service.ts.
--   Oauth         src/modules/oauth/oauth.service.ts; the operations stand in Oauth/Service.
--   Users         src/modules/user/user.service.ts: profiles and presence.
--   Chat/Gateway  src/modules/chat/chat.gateway.ts: the sockets that joined a room.
--   Seed          src/bootstrap/admin-seed.service.ts: what a start does to the users.
--   Subscriber    src/redis/redis.subscriber.ts: handlers of channels and the subscriptions at Redis.
--   Samples       small servers, and the theorems applied at concrete inputs.
-- A child of one of these proves what its name says.
--
-- How the code is modelled. A handler is a function from a state to a result and the next state: a
-- failure keeps the state that it was thrown in. The record `World` holds the state of Redis, of the
-- tables, of the mails and of the audit log, a count of random draws and the clock. A DTO is a
-- record; a truthiness test of the code is written out. Texts are lists of character codes.
--
-- Parameters. Prisma and ioredis are interfaces with their documented laws; bcryptjs, crypto, uuid,
-- the signatures of tokens, the mail transport and `Math.random` are functions without laws. The
-- laws have an instance in Samples/Servers and in Samples/Tables. The file system is an interface of
-- the same kind; `path`, `uuid`, the message that Nest derives for an exception and what the servers
-- of Google answer are functions without laws.
--
-- Bounds and fuel. `resolveUsername` tries ten candidates and `generateUniqueUsername` twenty, as the
-- loops of the code do. A number is printed by a recursion with fuel for 21 digits, more than a safe
-- integer of JavaScript has.
--
-- Not modelled. The wording of messages and mails; letters outside ASCII in case folding and in
-- trimming; exceptions of the Redis client; the lapse of a key: its time to live is passed on, and a
-- theorem speaks of runs in which Redis keeps its keys. A handler runs at one instant and alone, but
-- for Sockets/Interleaving. The routes that only list roles, permissions and tenants, and the one that
-- lists the messages of a room: it passes on a limit that may be NaN, a fraction or negative. The
-- controller of the audit log, the modules and the configuration are glue; notifications, calls and
-- the queue keep no state.
pub mod Common
pub mod Redis
pub mod Database
pub mod Auth
pub mod Guards
pub mod Endpoints
pub mod Sockets
pub mod Storage
pub mod Chat
pub mod Oauth
pub mod Users
pub mod Seed
pub mod Subscriber
pub mod Adapter
pub mod PresenceGateway
pub mod Roles
pub mod Http
pub mod Session
pub mod Samples
