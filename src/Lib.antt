-- ===== src/Lib.antt =====
-- Helio: the Alexa relay (integrations/alexa-relay/src) and the decisions of the web application
-- (web/src), modelled in antt.
--
-- The program. Helio reads a solar inverter and serves a web application. The relay is a separate
-- Node service: Helio posts snapshots to its route /ingest, it keeps the last one and the linked
-- Alexa devices in a file, answers the skill, and pushes the data of the widget to Amazon.
--
--   /ingest ── verifySignature ── parseSnapshot ── StateStore.updateSnapshot ── schedule ── AlexaClient
--   /alexa  ── the skill's handlers ── StateStore.addDevice, removeDevice
--
-- The relay, in Relay:
--   Relay/Errors      app.js: `requestError`, `sendRequestError`; `Result` for code that may throw.
--   Relay/State       state.js: `StateStore`. A `Store` has the data in memory, the file and its
--                     temporary copy, and `queue`: the chain of promises of `#save`, one content per
--                     save, in order. `save` is the code up to its `await`; `run_write` is one
--                     link of the chain, its outcome a parameter (written, or failed at a step).
--                     `Call` and `run` are any sequence of calls and links.
--   Relay/Signature   app.js: `verifySignature`.
--   Relay/Snapshot    app.js: `parseSnapshot` and what it checks; alexa-client.js reads its fields.
--   Relay/Ingest      app.js: the route /ingest with its two rate limits, middleware by middleware.
--                     `Progress` is what the handler has done when it returns or first waits.
--   Relay/Push        app.js: `pushScheduler`. A `Scheduler` has `running`, `pending`, the
--                     arguments of the last call, the callbacks that wait and the pushes that were
--                     started; `step` is a call or a callback, `run` any sequence of them.
--   Relay/Skill       app.js: the request handlers of the skill and how they are chosen.
--   Relay/Client      alexa-client.js: the token, the batches of devices and the requests to the
--                     data store; Relay/Client/Widget: how figures are displayed.
--   Relay/Server      server.js: the settings from the environment, and the start.
-- The web application, in Web:
--   Web/Access        app/auth-gate.ts: `resolveAppAccess` and the redirects; app/query-client.ts:
--                     the retry of a query and the handler of an expired session, on a `Page`.
--   Web/Api           api/client.ts: the headers of a request, and what its response becomes.
--   Web/Downloads     api/client.ts: `download`, and the name of the file.
--   Web/Live          api/live-events.ts: which messages are read; features/live/useLiveTelemetry.ts:
--                     `mergeState`, and the event source's reports as signals on a `Telemetry`;
--                     Web/Live/Status: the state of the connection and the shared status.
--   Web/History       features/history/history-model.ts: the points, segments and gaps of a chart.
--   Web/Fields        features/onboarding/schema.ts and currencies.ts: the fields of both forms and
--                     what their texts are read as; the `Settings` of api/types.ts.
--   Web/Calendar      features/history/history-model.ts: days and dates, `shiftCalendar`, and the
--                     time at which the clocks of a zone show a calendar.
--   Web/Periods       features/history/history-model.ts: `periodStart`, `getPeriodRange`, and the
--                     address of a range.
--   Web/Forms         features/onboarding/schema.ts: the values of the set-up form, `validateStep`,
--                     `toBootstrapPayload` and `serverFieldError`.
--   Web/Settings      features/settings/settings-model.ts: settings as form values and back.
--   Web/Wizard        features/onboarding/OnboardingWizard.tsx as a machine: its state, and the
--                     visitor's and the server's events.
--   Web/Editor        features/settings/SettingsPage.tsx as a machine: edits, the save with the
--                     confirmation of the password, and settings that change on the server.
--   Web/Login         features/auth/LoginForm.tsx as a machine: the attempt, its lock and the wait.
--   Web/Tariffs       features/finance/ManualTariffForm.tsx: the reading of rates, and the form.
--   Web/Theme         app/theme.tsx: the choice of the visitor, what is shown, and the storage.
--   Web/Browser       URLs and what else the application takes from the browser, as a record.
-- What they share:
--   Prelude           tests and lists on ℕ, chains of options, integers with `pos` and `negsuc`.
--   Js                strings as lists of UTF-16 code units (Js/Text), numbers as dyadic rationals,
--                     infinities and NaN (Js/Number), JSON values (Js/Json).
--   Js/Host           the services of the runtime and of third-party packages, as a record that
--                     the definitions take: JSON.parse, Date.parse, HMAC and others. Nothing is
--                     assumed of them but what a theorem names among its hypotheses; Js/Toy is a
--                     host for the tests and examples.
-- A module's laws stand in its children, its runs on concrete data in its child Tests.
--
-- Bounds and fuel. Loops are recursion on their lists; the scheduler's callbacks are steps, and
-- the number of steps that a state admits is measured by `work`. Three definitions run
-- on fuel: `digits_from`, which writes a number in decimals, on n + 1 for n, more than its digits;
-- `date_from`, which finds the month of a day, on one more than the number of the day, more than the
-- months before it; and `push_from`, a round for each batch, on as many rounds as there are devices:
-- enough, since each round takes one of them at least. Days and months are counted from January 1970: an earlier date stops at it.
-- Integers are exact: the code's integers are lengths, times and safe integers below 2 ^ 53.
--
-- Not modelled. The HTTP servers, Express, helmet, the skill adapter's verification of Amazon's
-- certificates and the limiter's windows are third-party code: what the code relies on is a
-- parameter or an argument. Divisions that round (figures for display) are parameters of the host.
-- Of the web application, the summaries and the rows of the history charts, the texts of the forms'
-- messages, the refetches of the live query, the credentials of Solarman, the menu of themes and the
-- drawing of the React components are left out. The Go server
-- (cmd, internal) is another language. internal/webui/dist is generated by the web build.
pub mod Prelude
pub mod Js
pub mod Relay
pub mod Web
