-- ===== src/Lib.antt =====
-- AsmFlow is a local gateway for model providers and MCP servers, written in NASM assembly with a
-- few C shims. This library is about the Python beside it: the reference models that the test
-- suites compare the binary with, and the scripts that decide whether a build may be released.
--
-- The parts modelled, and the code that they follow:
--
--   Route    tests/route_oracle.py, the routing oracle. `eligible_candidates` filters the candidates
--            of a route; `select` picks one of them by priority, round robin or least latency;
--            `fallback_allowed` says whether a failed attempt may be followed by another. Python's
--            `min` and `sorted` with tuple keys stand on Order, where the tuple orders are built.
--   Config   tests/config_corpus.py, the reference validator of the configuration. The helpers
--            `_obj` to `_array` are in Config.antt, the sweep for credentials and the authentication
--            block in Config/Auth, `_check_path` in Config/Path, `_check_url` in Config/Url, with
--            the addresses of Python's `ipaddress` in Config/Address, and the sections of `validate`
--            in Config/Daemon, Config/Providers, Config/Routes and Config/Mcp. Config/Validate
--            puts them together as `validate` and `accepts`. Documents are values of Json.
--   Abi      scripts/abi_audit.py, the audit of the callee-saved registers. `parse_functions` reads
--            a disassembly (Abi/Listing), `written_callee_saved` finds the registers that a body
--            writes (Abi/Writes), `epilogue_is_complete` looks at each `ret` (Abi/Epilogue), and
--            `audit` gathers the problems (Abi/Audit).
--   Http     tests/http_harness.py, the reader of HTTP responses. `decode_chunked` is in Http/Chunked,
--            over Python's slices (Http/Slice) and `int` (Http/Number); `parse_responses`,
--            `parse_prefix` and `ResponseStream.next` are in Http/Reader, and `request_bytes` in
--            Http/Request.
--   Gate     scripts/gate_m4.py to scripts/gate_m11.py, the release gates of the last milestones, as
--            functions of the files of the repository and of what other programs printed. Shared:
--            the text scanners `strip_asm_comments`, `strip_c_comments` and `function_body` in
--            Gate/Comments, `logical_make_lines` and `make_recipe` in Gate/Make (the scripts
--            have copies that do the same, unless said otherwise), the outcomes of a check and the
--            tests that checks are made of in Gate/Report, the regular expressions in Gate/Pattern,
--            the runs of the suites and the exit code of a gate in Gate/Suite.
--            gate_m11.py: Gate/Checks, the checks on the daemon's sources, with the matrix of suites
--            and the rest in Matrix, and Gate/Make/Wiring.
--            gate_m9.py: Gate/McpHttp, with the bounds of buffers in Bounds, curl options and cache
--            in Security, fixtures in Fixtures, exported symbols in Build, the Makefile in Wiring.
--            gate_m8.py: Gate/McpStdio, with eras, deadlines and tables in Eras.
--            gate_m10.py: Gate/Console, whose `strip_asm_comments` and `make_recipe` differ from the
--            others; `canonical` and `display_width` in Screen, the sources in Source, binaries and
--            link maps in Links, fixtures in Fixtures, Catalogue and Actions.
--            gate_m7.py: Gate/Routing, with the document of the errors that may be retried in Fallback.
--            gate_m6.py: Gate/Provider, with the adapters' table and documents in Contract.
--            gate_m5.py: Gate/Listener, with the switches of llhttp in Leniency, the shim and the
--            catalogue of errors in Shim.
--            gate_m4.py: Gate/Storage, with the patterns for SQL and the single writer, and the other
--            checks in Checks.
--            Each has its `main` in a module Main.
--   Repo     scripts/validate_repo.py, the validation of the repository: layout and documents in
--            Repo.antt, `walk_json` in Walk, the examples in Examples, fixtures and the status in
--            Contract, modes and sizes of files in Scripts, the macros in Macros, `main` in Main.
--
-- Prelude, Order and Str hold what they share: native numbers and their tests, texts as lists of
-- code points, membership, orders on keys with a stable sort, and the string methods of Python.
--
-- The parts meet in the data: the routing oracle assumes the routes that the validator accepts,
-- with targets that name configured providers, and the audit reads what the build produced.
--
-- How the code is rendered. An exception is a value: `reject` carries the pointer and the rule of a
-- `Reject`, and `crash` stands for every other exception. A loop with a `continue` or an early
-- return is recursion on the list; a loop with a state passes it on, as `each` does for
-- `for index, entry in enumerate(...)`. A set is a list, of which only membership and sorted order
-- are used. A `dict` is a list of fields in its order. Python's unbounded integers are natural
-- numbers, or integers where the code allows a sign, and a `float` of a document is an exact binary
-- fraction.
--
-- Fuel. `decimal` has as much fuel as the number and one more, and each digit takes the tenth part;
-- `expand`, the loop of `_check_path`, has the length of the path, and each round takes at least one
-- character; the loops of `decode_chunked` and `parse_responses` have the length of the bytes, of
-- which each round takes a header away. That these three loops do not run out is among the results.
-- Everything else is structural recursion.
--
-- Regular expressions. A pattern of Gate/Pattern is a list of atoms that give nothing back; each
-- pattern of the scripts is written so that giving back would find no further match. str.isalnum on
-- characters that are not ASCII is a parameter, so that `\w` and `\b` are those of Python.
--
-- Not modelled: the assembly and C sources; scripts/gate_m1.py and scripts/gate_m3.py; the mock
-- servers, clients and terminal harness in tests, which talk over sockets and pipes; the test
-- cases themselves. What objdump, nm, readelf, git and unittest print, the listings of
-- directories, and what Python's json, ast, unicodedata and repr return are arguments. The texts
-- of files are those that `read_text` gives, so a file that is no UTF-8 is outside the model, and
-- so are the lines that a script prints for a check that passes. `lower` follows `str.lower` as
-- far as its result is ASCII. A part of an IPv6 address that comes from an embedded IPv4 address
-- is printed with four hexadecimal digits, where Python leaves zeros in front away; both are read
-- back alike.
mod Prelude
mod Order
pub mod Str
pub mod Abi
pub mod Json
pub mod Config
pub mod Gate
pub mod Repo
pub mod Http
pub mod Route
