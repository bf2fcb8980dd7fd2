-- ===== src/Lib.antt =====
-- A verification library for the Python services of Replica AI, a self-hosted model of a person
-- that an owner trains and that the family may talk to (apps/api, the FastAPI back end, and
-- apps/ai, the service of the language model).
--
-- Parts and how they interact
--   Billing      apps/api/app/services/self_manager.py: HostingManager (Stripe customer,
--                subscription, renewal, webhook) and SelfPreservation (daily check, retry job), over
--                the rows of apps/api/app/models/owner.py.
--   RateLimit    apps/api/app/core/rate_limit.py, over the commands of Redis.
--   Family       apps/api/app/services/family_access.py: what a family session may see, access
--                rules, invites and their verification, sign-in by family code, legacy mode.
--                `family_login` calls the rate limit with a key of its own, so Family/Login.antt is
--                a client of RateLimit.antt and both take the interface Redis.antt.
--   Instances    apps/api/app/services/instance_manager.py: the registry of an owner's model
--                instances, its primary, heartbeats and the stale check.
--   Sync         apps/api/app/services/sync_engine.py: replication from one instance to another, over
--                the rows of Instances, with conflicts and the background job.
--   Auth         apps/api/app/services/auth.py with apps/api/app/core/security.py and auth_guard.py: tokens,
--                guards, sessions, accounts and the verification of an owner, which calls the rate
--                limit.
--   Ingest       apps/ai/app/services/knowledge.py with core/task_tracker.py, core/storage.py and
--                routers/knowledge.py: texts and files become points of a collection, in jobs whose
--                tasks are kept in Redis.
--   Search       apps/ai/app/services/search.py with core/qdrant.py: the points that answer a question,
--                and the grounded answer. Family chat passes the scope of Family as a filter, so
--                Search/Permitted.antt joins Ingest, Search and Family.
--   Browsing     apps/api/app/services/web_browser.py: domain rules, pages, searches and monitors.
--   Gateway      apps/api/app/services/external_llm.py: queries to external language models, their costs
--                and budgets, and the sanitizer of prompts.
--   Redis        the interface of the store: the commands the services send, with their documented
--                laws, for counters and, in Redis/Texts.antt, for texts, both with the passage of time. Redis/Table.antt is an
--                instance, for tests.
--
-- Files
--   Common, Common/*         library names, tests on numbers and text, lists, time, raised errors.
--   Billing/Account          the rows of one owner as a record; `ensure_billing_config`,
--                            `get_survival_config`, `_enter_survival_mode`, `_exit_survival_mode`.
--   Billing/Hosting          `check_hosting_status`, `setup_billing`, `subscribe`,
--                            `cancel_subscription`, `update_auto_pay`.
--   Billing/Renewal          `renew_hosting`.
--   Billing/Webhook          `handle_stripe_webhook`.
--   Billing/Preservation     `update_survival_config`, `_check_single_owner`, `daily_check`,
--                            `check_hosting_retries`.
--   Billing/Invariant, Soundness, History, Retries, Attempts, Survival, Events
--                            proofs on these, Billing/Tests their runs.
--   RateLimit, RateLimit/*   `check_rate_limit`, `record_attempt`, `clear_attempts`; proofs on the
--                            lock-out, on the window and on the independence of owners.
--   Family/Data              rules, invites and sessions as records.
--   Family/Scope             `FamilyScope.permits`, `resolve_family_scope`, `list_family_assets`.
--   Family/Window            the days, hours and expiry of a rule.
--   Family/Rules             `create_access_rule`, `get_access_rule`, `list_access_rules`,
--                            `update_access_rule`, `delete_access_rule`.
--   Family/Invites           `generate_family_invite`, `validate_family_access`.
--   Family/Login             `family_login`.
--   Family/Legacy            `get_legacy_config`, `configure_legacy`, `activate_legacy`,
--                            `check_inactivity_triggers`.
--   Family/Visible, InForce, Admission, Uses, Guessing, Ownership, Activation
--                            proofs on these, Family/Tests and Family/LoginTests their runs.
--   Instances                `InstanceRegistry`, each method under its name.
--   Instances/Primary, History, Stale
--                            proofs on these, over Instances/Tables; Instances/Tests their runs.
--   Sync/Tables              the rows and the answers of the instances.
--   Sync/Transfer            `_sync_knowledge_entries`, `_sync_conversations`, `_sync_access_rules`,
--                            `_get_remote_entry_ids`, `_check_entry_conflict`,
--                            `_transfer_entry_to_instance`.
--   Sync/Run                 `_load_instances`, `full_sync`, `incremental_sync`.
--   Sync/Resolve             `resolve_conflict`, `_apply_conflict_resolution`.
--   Sync/Auto                `auto_sync_check`.
--   Sync/Counts, Outcomes, Bounds, Watermark, Choices, Background
--                            proofs on these, Sync/Tests their runs.
--
--   Auth/Tokens              `create_access_token`, `create_refresh_token`, `create_connect_token`,
--                            `require_auth`, `require_role`.
--   Auth/Sessions            `store_refresh_token`, `refresh_tokens`, `logout`.
--   Auth/Accounts            `setup_owner`, `get_profile`, `update_profile`, `set_password`.
--   Auth/Connection, Google  `connect_instance`, `login_or_create_owner_via_google`.
--   Auth/Verify              `_resolve_verification`, `verify_identity`, `login_owner`, `auth_verify`.
--   Auth/Rotation, Kinds, Proofs, Emails
--                            proofs on these; Auth/Codec is a token library for Auth/Tests.
--   Ingest/Chunks            `_chunk_text`, over the laws of Ingest/Slices.
--   Ingest/Tasks, Tracked    `create_task`, `update_task`, `get_task`, and what they keep.
--   Ingest/Jobs              coroutines that raise, `try … except`, and a rule for chains of steps.
--   Ingest/World, Knowledge  the state of a job, the libraries, and the steps that jobs share.
--   Ingest/Background        `ingest_text` and the four background jobs.
--   Ingest/Uploads, Serving  the routes that take a file and that serve one.
--   Ingest/Unfinished, Settled, Accepted
--                            proofs on the jobs; Ingest/Samples are libraries for tests.
--   Search/Ranking           the best of each entry, and the sort by score, with what they keep.
--   Search/Vectors           `QdrantService.search`, `delete_by_entry_id`.
--   Search/Retrieval         `KnowledgeSearch`; Search/Grounding `RAGEngine`.
--   Search/Shown, Permitted  proofs on the sources of an answer.
--   Browsing/Domains         `check_domain_allowed`, `create_domain_rule`, `delete_domain_rule`.
--   Browsing/Pages, Searches `browse`, `search_web`, `update_browse_config`.
--   Browsing/Monitors        `create_monitor`, `update_monitor`, `delete_monitor`, `check_monitors`.
--   Browsing/Limits, Refused, Idle
--                            proofs on these.
--   Gateway/Costs            `_estimate_cost`; Gateway/Sanitizer `ExternalRequestSanitizer`.
--   Gateway/Configs          the configurations, `check_budget`, `reset_monthly_budgets`.
--   Gateway/Queries          `query_external`, `record_usage`, `_call_provider`.
--   Gateway/Accounted, Providers
--                            proofs on these.
--
-- How state and operations correspond
--   A session of the database is state passing: an operation takes the rows it reads and returns
--   the rows as committed. A raised exception is a value of `Result` beside that state, so what was
--   committed before it is kept. Where a change is made and then lost, as in `record_failure` of
--   Billing/Webhook, the session is a record of the saved and the changed rows; where rows are
--   committed before the work ends, as the log of a sync in Sync/Run, each commit is written out. Time is a number of microseconds since the first of January 1970, passed in
--   where the source asks for the clock; `timedelta.days` is the quotient by a day, rounded down.
--   Identifiers, tokens and hashes that the source draws are arguments. Order of rows is the order
--   of the list; the time a row was made is not kept where only the order depends on it.
--
-- Parameters
--   The answers of Stripe to each call, as values (a charge succeeds, is declined, or another error
--   is raised); the verification of a webhook's signature; Redis, by its laws; bcrypt's `checkpw`
--   and hash function; the answers of the instances to the calls of a sync and to health probes, one
--   for each call and entry; the text of an exception; `strip`, `lower` and `upper` as functions of text to its normal form; the
--   settings of the rate limit; the JWT library, which decodes what it encoded before it expires and
--   whose tokens share their header; JSON, which reads back what it wrote; whisper, ffmpeg, the
--   readers of documents, the language model, the embeddings, Qdrant, which answers with points that
--   pass the filter, and the file system of apps/ai, each as what it answers or raises; urllib, the
--   pages of the web, after the redirects that the client follows, and the extraction of their text;
--   what the driver of the database raises for a bound with a zone on a column without one; the providers of external models, Fernet and
--   regular expressions.
--
-- Bounds and fuel
--   No operation loops but over a list, except two, on fuel. `decimal` prints a number with one more
--   than the number, which is enough since each digit divides it by ten. The chunker has the length
--   of the text, which is enough since each round moves on by 1,800 characters.
--
-- Not modelled
--   A cancellation of a request and a failing commit. Requests that run at one time: each operation
--   reads and writes its rows with no other between.
--   The reports `get_payment_history` and `get_cost_breakdown`, the QR image and the fixed
--   templates; `sync_model_weights`, `get_sync_status` and `get_sync_history`; most of the
--   routers; the exchange with Google and the QR images of apps/api/app/services/auth.py; the streaming
--   answers and the synchronous transcription of apps/ai; the services whose core is a call of a language model; the TypeScript
--   applications. Amounts of money are
--   the monthly price of the settings, a number of cents, or of millionths of a dollar in Gateway,
--   never a float.
pub mod Common
pub mod Billing
pub mod Redis
pub mod RateLimit
pub mod Family
pub mod Browsing
pub mod Gateway
pub mod Ingest
pub mod Instances
pub mod Search
pub mod Sync
pub mod Auth
