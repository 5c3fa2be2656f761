-- ===== src/Lib.antt =====
-- OBHOD: a Telegram bot that manages the server it runs on, with agents that it starts for each
-- command and services that stay up. This library models the parts that decide: who is answered, who
-- is refused or warned about, which port is touched, and what is counted.
--
-- The program. BOT/app.py reads the chat and asks BOT/ratelimit.py whether a message or a button may
-- be served. Storage/remote/sub_server.py hands out the subscriptions over HTTP and throttles each
-- address. Storage/remote/honeypot_agent.py listens on decoy ports and limits the connections of an
-- address. Storage/remote/ddos_agent.py writes a firewall table from the policy of BOT/antiddos.py and
-- reports counters, which the Status of that file turns into reasons and a level; with the events of
-- the other agents they go to BOT/notify.py, which decides what the owner is told. BOT/portguard.py
-- keeps the firewall off the ports in use and finds free ones. BOT/traffic.py keeps the count of every
-- client from the counters of the interface, and BOT/subs.py makes the list of links and the quota
-- that the subscription server hands out. BOT/chebur.py asks probes
-- whether a target is blocked, and BOT/xray.py holds the list of inbounds, with their security, and computes keys. BOT/app.py lets one owner
-- in, and one action run at a time. Storage/remote/ssh_agent.py changes the settings of sshd and adds
-- public keys, Storage/remote/xray_agent.py installs the core and applies its configuration, and
-- BOT/update.py moves the bot itself to another commit: each of the three tests the new state and has
-- a way back, which an error that is raised on the way can pass by.
--
-- The files.
--   Prelude, Prelude/*          shared names, Boolean tests on numbers, lists, keys, integers
--   Chars, Chars/*              texts as code points: strip, split, lower; bytes as texts and back
--   Dict, Dict/*                Python's dict: get, put, pop, pruning, eviction of the oldest
--   Ports, Ports/*              the loop that reads a list of ports; sorted(set(...))
--   Limiter, Limiter/*          BOT/ratelimit.py: Limiter.allow and sweep
--   SubServer/Throttle, .../*   Storage/remote/sub_server.py: Bucket, throttled, record_miss, sweep
--   SubServer/Registry          Storage/remote/sub_server.py: payload_of, header_lines, info_body
--   SubServer/Cache, .../*      Storage/remote/sub_server.py: read_registry and CACHE
--   SubServer/Client            Storage/remote/sub_server.py: proxy_client_ip, base_url
--   SubServer/Slots, .../*      Storage/remote/sub_server.py: Server and its slots, as runs
--   SubServer/Handler, .../*    Storage/remote/sub_server.py: Handler.do_GET and send_plain
--   App/Front, App/Front/*      BOT/app.py: guard_admin, the claim, quiet, busy_begin and busy_end
--   App/Clicks, App/Clicks/*    BOT/app.py: on_callback, handle_message; BOT/audit.py: first_time
--   Ssh/Dropin, Ssh/Keys, ...   Storage/remote/ssh_agent.py: apply, add_key
--   Update, Update/*            BOT/update.py: Updater.apply and verify
--   XrayAgent/Install, .../*    Storage/remote/xray_agent.py: install_core, pinned_with_fallback
--   XrayAgent/Apply, .../*      Storage/remote/xray_agent.py: write_config, cmd_apply
--   Honeypot/Guard, .../*       Storage/remote/honeypot_agent.py: Guard.take and drop (here `release`)
--                               and the threads of Server.accept and serve, as a step relation
--   Antiddos/Policy, .../*      BOT/antiddos.py: clamp, ports_of on numbers, Policy
--   Antiddos/Status, .../*      BOT/antiddos.py: Status.reasons, level, under_attack, event_kind
--   Notify/Settings, .../*      BOT/notify.py: Settings
--   Notify/Centre, .../*        BOT/notify.py: Centre.observe and all that it calls
--   Portguard, Portguard/*      BOT/portguard.py: protected_ports, check, foreign_ports, free_port
--   Net, Net/*                  BOT/net.py: parse_ports, parse_hops; BOT/portguard.py: join
--   Subs, Subs/*                BOT/subs.py: clean_links, keep_links, payload_of, sum_quota, decode
--   Traffic, Traffic/*          BOT/traffic.py: Traffic.sample, day_base, the first loop of usage
--   Verdict, Verdict/*          BOT/chebur.py: Live.counts, blocking, blocked, dominant, verdict
--   Xray/Inbounds, .../*        BOT/xray.py: XrayState.next_id, add and remove
--   Xray/Security, .../*        BOT/xray.py: security_kind, switch_security and the setters of keys
--   Xray/Moves, .../*           BOT/xray.py: metric_parts and resolve_ports
--   Xray/Subscriptions, .../*   BOT/xray.py: subscriptions, rotate_subscription
--   Xray/Ladder, .../*          BOT/xray.py: x25519, against the formulas of the curve in Xray/Ladder/Curve
--
-- How the code is written here. An object is a record, and a method is a function that returns the new
-- record beside the method's result. Every clock is an argument, a natural number of ticks; where a
-- constant of the code is in seconds, the definition takes `second`, the number of ticks in one, so
-- that fractions of a second are covered. `now - t < span` is written `now < t + span`. A method that
-- holds a lock is one step. A dict is an association list in the order of insertion. An error that is
-- raised is a value of the result. Numbers have no bound, as in Python. A test of a share such as 0.7
-- is written on the integers whose quotient it is.
--
-- Loops. The loops over lists are structural, and so are those over a range, on the number of their
-- steps: the two loops of free_port take `max 1 span` and 64510 steps, which is what the code's ranges
-- have. The search of next_id for a free number takes fuel, one round more than there are numbers in
-- use, and it ends at a free number within that. The decimals of a number take as much fuel as the
-- number and one, and a number has no more decimals than that. The ladder of x25519 takes its 255
-- rounds, and `pow` 255 squarings for an exponent below 2 ^ 255.
--
-- What stands outside. What git, the compiler, pip, systemd, sshd, the network, an archive and the
-- core answer is a record of parameters: `World` of Update, `System` of Ssh, `Outside` and `Machine`
-- of XrayAgent. `Addresses` of SubServer stands for Python's ipaddress. A handler of the chat reads
-- the clock once. The calendar that gives the date of a time is a parameter of Traffic, and the
-- Base64 of `payload_of` one of Subs, of which the length of its result is a hypothesis. Not
-- modelled are the screens, the texts and the translations, the other agents and the parsing of what
-- their programs print, the transports (MTProto, HTTP, gRPC), the files in which state is kept, and,
-- but for the requests of the subscription server and the ports of a scan, the parsing of a free
-- text into numbers, for which the definitions take the numbers.
pub mod Antiddos
pub mod App
pub mod Chars
pub mod Dict
pub mod Honeypot
pub mod Limiter
pub mod Net
pub mod Notify
pub mod Portguard
pub mod Ports
pub mod Prelude
pub mod Ssh
pub mod SubServer
pub mod Subs
pub mod Traffic
pub mod Update
pub mod Verdict
pub mod Xray
pub mod XrayAgent
