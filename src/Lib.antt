-- ===== src/Lib.antt =====
-- ccu-mcp: an MCP server in front of a HomeMatic CCU (src/, TypeScript).
--
-- An MCP client calls tools; a tool picks the target CCU of its MCP session, passes the write gate,
-- waits for a token of the rate limiter, and sends JSON-RPC requests through the session with that CCU,
-- retrying what is transient. This library models the parts that decide something on that way:
--
-- - Errors and Errors/: src/middleware/error-mapper.ts and the error types of src/ccu/types.ts.
-- - Action and its children: asynchronous code that changes a state and may throw, run by itself, the
--   relations of states that it respects, and what it guarantees when it ends.
-- - Middleware/RateLimiter and its children: src/middleware/rate-limiter.ts. `acquire`, the callback of
--   the refill timer and `destroy` are functions from the limiter's fields to the new fields and the
--   promises that settle; Event, step and run are histories of such calls.
-- - Middleware/Retry and its children: src/middleware/retry.ts (`withRetry`).
-- - Middleware/Resolver and its children: src/middleware/resolver.ts, its maps and the types that it reads
--   from the cache of device types. What fetches the device list is in Tools/Target.
-- - Ccu/Targets and its children: src/ccu/target-registry.ts, the registry, `TargetSelection` and
--   `assertWritable`.
-- - Ccu/Session and its children: src/ccu/session.ts, the session with one CCU. The CCU client is a
--   function of the request; Event, step and run are histories of calls, logins and timers, each run to its
--   end. Closing, Late and late_run of Ccu/Session/InFlight add a login that waits while the session
--   manager is closed.
-- - Ccu/Client and its children: src/ccu/client.ts. `fetch`, `JSON.parse` and the TLS connection are
--   parameters; `fetch` is given the dispatcher.
-- - Auth/Tokens and its children: `AuthTokens` of src/auth/token.ts.
-- - Auth/File and its children: the token file there, `parsePersisted`, `serialize` and what `persist`
--   writes.
-- - Auth/Resolve and its children: `resolveAuthTokens` and the tick of `startAutoRotation`, as functions
--   of the file, of whether it can be written, of the new random token and of the time.
-- - Tools/Values and Tools/Target: what a tool is given and what it works on. A request is recorded in the
--   state, newest first, and answered by the world, which is a parameter, as are the waits and the tokens.
--   What other tools do to the cache of system variable types during a request is the parameter
--   `meanwhile`.
-- - Tools/Control and its children: the tools that write, src/tools/control.ts, one module for each
--   handler: SetValue, PutParamset, Coerce and SetVariable, CreateScript and CreateVariable,
--   DeleteVariable, AssignChannel, Program. JavaScript's numbers are a parameter (`Js` of Tools/Values).
--   Once, Written, Executed, Refused, Labels, Scripts and Assigned prove; Tools/Steps says what
--   requests do to the state, Tools/Interface what `resolveInterface` answers.
-- - Resources/Poller and its children: src/resources/poller.ts. `start`, `stop`, the callback of the timer
--   and the end of its poll are functions, with the timeouts that the runtime has armed; Event, step and run
--   are histories of them.
-- - Cache/DeviceTypes and its children: the rest of src/cache/device-type-cache.ts. The file is what
--   `JSON.parse` gives of what `JSON.stringify` wrote, which changes numbers that are not finite; the
--   workers of `warm` run one after another.
-- - Cache/TclList and its children: `parseTclList` of src/cache/device-type-cache.ts; its loop runs on
--   fuel, one more than the length of the text, of which every turn takes a character.
-- - Config and its children: src/config.ts, the parsing of single settings and, in Config/Loading, the
--   profiles of the CCUs and their checks, in Config/Server the rest of `loadConfig`. The environment, the
--   files of certificates and JavaScript's numbers are parameters.
-- - Cli/EnvFile and its children: src/cli/env-writer.ts, on texts of UTF-16 code units.
-- - Http/Handler: `handleRequest` of src/index.ts, with src/health/handler.ts and
--   src/http/error-response.ts; Http/Sessions: the map of MCP sessions and what else changes it. Step and
--   Reach of Http/Reached are its histories; the other children prove. The MCP SDK's transports are left
--   to it: the handler says which one gets a request.
-- - Utils and its children: `escapeHmScript`, `extractBearerToken` and `normalizeClientIp` of
--   src/utils.ts, and in Utils/Values `parseValue` and `parseValues`.
-- - Middleware/ToolHandler and its children: src/middleware/tool-handler.ts, `runTool` around any body.
-- - Tools/Targets and its children: src/tools/targets.ts, the tools that list and switch the targets.
-- - Prelude and its children: shared names, tests on numbers, lists, texts, integers, dictionaries.
--
-- Other recursions are structural: on lists, and on the retries that are left. Tokens of the rate limiter are
-- counted in thousandths, as `burst` and `rate` are positive integers (src/config.ts). `Date.now()` is an
-- argument. `toLowerCase` and SHA-256 are parameters; what is used of them is in `Naming` and in the
-- hypotheses of the theorems. Log lines are left out, but for those of `runTool`.
--
-- Not modelled: start-up, shutdown and stdio of src/index.ts, the promises that concurrent logins, refreshes
-- and live queries share (but for a login under way at a close), the tools that only read, the dialogues of
-- the command line, prompts and resources, the schemas of arguments, the JSON of results, and the release
-- scripts.
pub mod Action
pub mod Auth
pub mod Cache
pub mod Ccu
pub mod Cli
pub mod Config
pub mod Errors
pub mod Http
pub mod Middleware
pub mod Prelude
pub mod Resources
pub mod Tools
pub mod Utils
