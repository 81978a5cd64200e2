-- ===== src/Lib.antt =====
-- Varnish Agent: a model of the daemon that serves the management of varnishd over HTTP, and of
-- what makes its parts correct.
--
-- The program. main.c reads the options and the password file, allocates one plugin for each line of
-- include/plugin-list.h, runs the init function of each, and starts the threads. A plugin registers
-- paths with http.c, which answers the calls of libmicrohttpd and hands an authorised request to the
-- callback of the listener it selects. The callbacks send commands by ipc.c to the plugins "vadmin",
-- which keeps the connection to varnishd, and "curl", which talks to the VAC. vcl.c also keeps the
-- uploaded VCL on disk.
--
-- The files.
--   Prelude             numbers, tests, lists, and C strings as lists of bytes without the final NUL;
--                       Options: blocks of asserts that may fail
--   Exec                the actions of a callback: what ipc_run, send_response and the loggers do to a
--                       world of peers and a trace; a failed assert aborts. Refinement: when one
--                       action does what another does
--   Foreign             the string buffers of src/foreign/vsb.c, as an interface with laws
--   Http                src/modules/http.c, include/http.h: responses, methods, the listeners
--   Http/Routing        which listener a request reaches
--   Http/Connection     answer_to_connection: the calls for one request. Auth: calls that are turned
--                       away. Body: calls that reach a callback. Listeners, Answered: every request
--                       gets one response. Kept: the listeners stay registered
--   Ipc                 src/ipc.c: the messages. Framing: their lengths and pieces. Handles: the
--                       owner of a handle. Loop: ipc_loop and the threads of its clients, as a step
--                       relation; Frames, Invariant: what is on each line; Order: which answer a
--                       call gets; Progress: what poll reports
--   Plugins             src/plugins.c, and the parts of src/ipc.c and src/main.c on the list of plugins
--   Helpers             src/helpers.c. Respond: how many responses an action queues. Endpoint: url_arg
--   Vadmin              src/modules/vadmin.c. Connect: cli_sock. Session: read_cmd
--   Vcl/Files           src/modules/vcl.c: the files. Persist, Active: their replacement
--   Vcl/Handlers        src/modules/vcl.c: the request handlers. Names: uploads turned down
--   Vcl/Listing         src/modules/vcl.c: vcl_active
--   Vcl/Json            src/modules/vcl.c: vcl_list_json. Columns: how it reads a row. Rows: all of
--                       them. Reply: vcl_json
--   Vban, Vdirect, Vstatus, Echo, Vbackends, Html
--                       the modules of these names under src/modules
--   Vparams             src/modules/vparams.c. Parse: the parser of param.show. Json: the listing.
--                       Shown: what varnishd prints. RoundTrip, EmptyValue: what becomes of it
--   Vlog                src/modules/vlog.c. Limit: the records that a query is answered with
--   Vstat               src/modules/vstat.c. Pushed: its specification, without buffers. Sending,
--                       Refined: the refinement
--   Vping, Logger       src/modules/vping.c and logger.c
--   Init                the init functions, and core_plugins of src/main.c. Modules: one for each
--                       plugin. Routes: the table of paths. Lookup: where a request is handed to
--   Curl, VacRegister   src/modules/curl.c and vac_register.c
--   Config              src/main.c: core_opt and get_first_line
--   Http/Server         http_run of src/modules/http.c
--   Start               src/main.c: p_open, sandbox, v_daemon and main. Order: what has to come
--                       before what. Dropping, Privileges: that it does. Threads: those that are
--                       started. Whole: with core_plugins
--   Agent               the callbacks of all plugins on one state. Handlers, Plugins: how many
--                       responses each queues. Answers, Requests: behind answer_to_connection.
--                       Session: one request after the other
--   Tests               the properties at concrete inputs
--
-- The correspondence. A function of the source has the name of its definition. Where a function is
-- long, its parts are definitions of their own, which it calls in the order of the source:
-- answer_again and answer_request are the later calls of answer_to_connection; greet,
-- authenticate, after_auth, after_greeting and ping are cli_sock from its first read on;
-- write_temp, link_active and move_into_place are the steps behind the unlink of vcl_persist and
-- vcl_persist_active; terminate_line is get_first_line from its strchr on; value_part, parse_field
-- and describe are the steps of fill_entry and extract_description; scan_word, scan_name,
-- scan_refs and scan_temp are the conversions of the sscanf in vcl_list_json; log_args,
-- tag_failure, log_failure and query_log are vlog_reply in order; vadmin_plugin_init is
-- vadmin_init on the plugins, with the outcome of its connection, which vadmin_init of Vadmin
-- makes. The init functions work on a record of the plugins, the listeners and the handles, and a
-- callback that they register is a name that a table gives its function; the table is a parameter
-- there, and `callbacks` of Agent is the agent's own. opened_as is p_open by the result of
-- pidfile_open; become and set_ids are sandbox behind geteuid; main_threads is main from the fork
-- on. The steps send, send_rest, take_answer and stop_waiting are ipc_send, and polled, header,
-- part and run are ipc_loop and ipc_cmd; a read by the server takes any number of the bytes that
-- are there. A callback with its private data is one function. A pointer that may be NULL is an
-- Option. A read of memory that C leaves undefined is an abort, a fault or no result.
--
-- Bounds and fuel. The loop of ipc_cmd runs over the list of the reads that the kernel gives; a
-- loop over tokens has the length of its string as fuel, and every token takes a byte or more; so
-- have vcl_list_json and the loops of the parser of param.show, whose every line and entry takes a
-- byte or more; the loop of vlog_reply runs over the dispatches to come, and one that would go on
-- behind the last of them is no result; decimal writes at most 20 digits, which hold each 64-bit
-- number. Buffers are cut where snprintf cuts them.
--
-- Not modelled. libmicrohttpd, libvarnishapi, libcurl, the kernel and the VSB copy are parameters.
-- The sleeps and the locks are left out, and of the threads those of ipc.c alone are interleaved;
-- elsewhere a command to another plugin is one action, which Ipc/Loop justifies as long as no call
-- times out. The socket of a line takes each write whole: a write that waits for room in its
-- buffer is a step that is not taken, so Ipc/Loop says what is read and answered, and not that a
-- call returns. A call by ipc_run that times out and its wait are left out of Exec. The text of
-- usage is left out. The lines for the logger are events without their text, and in vadmin.c they
-- are left out. A command of 10 ^ 9 bytes or more aborts at the assert of ipc_send. VSM_Open,
-- VSC_Iter and the clock are what a call of vstat.c finds, and the steps of libvarnishapi in
-- vlog.c come with their failures.
pub mod Start
pub mod Agent
pub mod Prelude
pub mod Exec
pub mod Foreign
pub mod Http
pub mod Init
pub mod Ipc
pub mod Plugins
pub mod Helpers
pub mod Vadmin
pub mod Vcl
pub mod Vban
pub mod Vstat
pub mod Vping
pub mod Logger
pub mod Vlog
pub mod Vparams
pub mod Vdirect
pub mod Vstatus
pub mod Echo
pub mod Vbackends
pub mod Curl
pub mod VacRegister
pub mod Html
pub mod Config
pub mod Tests
