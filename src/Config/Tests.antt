-- ===== src/Config/Tests.antt =====
-- The validator on a small document, accepted and with faults.
use asm_flow.Prelude.{
  true, false, some, List, [], ◌∷◌, ◌≡◌, ◌≢◌, ◌↔◌, refl, All, inl, inr, Text, codes, mem_text,
}
use asm_flow.Str.{text_runs}
use asm_flow.Json.{Json, bool, arr, Items, nil, get, to_list, entries, equals_number}
use asm_flow.Config.{
  ok, crash, unauthenticated, no_choice, ◌▸◌, decimal_from, decimal, as_obj, check_keys, req,
  req_int, req_str, req_bool, req_enum, req_array,
}
use asm_flow.Config.Names.{all_chars, name_matches, is_identifier, is_alias, is_env_name, is_header}
use asm_flow.Config.Path.{allowed_xdg, is_forbidden, expand, check_path}
use asm_flow.Config.Address.{
  value_in_base, has_leading_zero, parse_octet, four_octets, parse_v4, is_hex_digit, parse_hextet,
  hextets, hextet_digit, print_hextet, with_embedded, inner_gaps, last_or, first_or, with_gap,
  without_gap, of_gaps, parse_v6, parse_scoped, ip_address, is_loopback, in_plaintext_network,
}
use asm_flow.Config.Url.{
  is_url_char, rfind_suc, without_port, without_brackets, check_host, check_authority, check_url,
}
use asm_flow.Config.Auth.{
  credential_keys, lower, auth_none, auth_bearer, auth_header, auth_of_kind, check_auth,
  check_timeouts, sweep, sweep_items, sweep_fields,
}
use asm_flow.Config.Daemon.{
  loopback_hosts, words, optional_bool, check_listener, check_control, check_storage, check_redact,
  check_destination, check_logging, check_limits,
}
use asm_flow.Config.Loop.{each, req_sized, req_id, allows_insecure, choose}
use asm_flow.Config.Providers.{
  cap_names, enabled_caps, check_capabilities, check_health, check_endpoint, check_provider,
  check_providers,
}
use asm_flow.Config.Routes.{
  next_index, index_of, resolve, check_target, retryable_classes, check_fallback,
  advertises_responses, any_of, check_route, check_routes,
}
use asm_flow.Config.Mcp.{
  check_legacy, check_protocol, check_arg, check_allowed, check_env, check_restart, check_command,
  check_environment, check_stdio, check_http, server_keys, check_server, check_servers,
}
use asm_flow.Config.Validate.{
  check_section, check_daemon, check_version, validate, accepts, accepted, refused, raised,
}
use asm_flow.Config.Sample.{text, num, document, sample}
use asm_flow.Config.Auth.Swept.{HasKey, HasKeyInFields, IsCredential, sweep_iff}
use asm_flow.Config.Path.Total.{check_path-ne-crash}
use asm_flow.Config.Path.Expansion.{IsPath, check_path_iff}
use asm_flow.Config.Url.Policy.{IsAllowed, check_url-IsAllowed}
use asm_flow.Config.Validate.Ranges.{at, AllInRange, accepts-AllInRange}
use asm_flow.Config.Validate.Exposed.{IsGuarded, accepts-IsGuarded}
use asm_flow.Config.Validate.Names.{Names, DifferentAt, accepts-DifferentAt}
use asm_flow.Config.Validate.Targets.{IsRouted, accepts-IsRouted}
use asm_flow.Config.Validate.Outbound.{Allowed, IsReached, accepts-Allowed}
use asm_flow.Config.Validate.Stdio.{IsStarted, accepts-IsStarted}
use asm_flow.Config.Validate.Clean.{accepts-HasKey}

abbrev helpers_run : Unit {0}
unfolding text_runs mem_text get to_list entries equals_number ◌▸◌ decimal_from decimal as_obj
    check_keys req req_int req_str req_bool req_enum req_array
helpers_run = tt

abbrev names_run : Unit {0}
unfolding all_chars name_matches is_identifier is_alias is_env_name is_header
names_run = tt

abbrev path_run : Unit {0}
unfolding allowed_xdg is_forbidden expand check_path
path_run = tt

abbrev address_run : Unit {0}
unfolding value_in_base has_leading_zero parse_octet four_octets parse_v4 is_hex_digit parse_hextet
    hextets hextet_digit print_hextet with_embedded inner_gaps last_or first_or with_gap without_gap
    of_gaps parse_v6 parse_scoped ip_address is_loopback in_plaintext_network
address_run = tt

abbrev url_run : Unit {0}
unfolding is_url_char rfind_suc without_port without_brackets check_host check_authority check_url
url_run = tt

abbrev auth_run : Unit {0}
unfolding credential_keys lower auth_none auth_bearer auth_header auth_of_kind check_auth
    check_timeouts sweep sweep_items sweep_fields
auth_run = tt

abbrev daemon_run : Unit {0}
unfolding loopback_hosts words optional_bool check_listener check_control check_storage check_redact
    check_destination check_logging check_limits
daemon_run = tt

abbrev loop_run : Unit {0}
unfolding each req_sized req_id allows_insecure choose
loop_run = tt

abbrev providers_run : Unit {0}
unfolding cap_names enabled_caps check_capabilities check_health check_endpoint check_provider
    check_providers
providers_run = tt

abbrev routes_run : Unit {0}
unfolding next_index index_of resolve check_target retryable_classes check_fallback
    advertises_responses any_of check_route check_routes
routes_run = tt

abbrev mcp_run : Unit {0}
unfolding check_legacy check_protocol check_arg check_allowed check_env check_restart check_command
    check_environment check_stdio check_http server_keys check_server check_servers
mcp_run = tt

abbrev validate_run : Unit {0}
unfolding check_section check_daemon check_version validate accepts
validate_run = tt

abbrev validator_runs : Unit {0}
unfolding helpers_run names_run path_run address_run url_run auth_run daemon_run loop_run
    providers_run routes_run mcp_run validate_run
validator_runs = tt

sample_run : accepts sample ≡ accepted
unfolding validator_runs
sample_run = refl

-- `True` passes for version 1, since it is equal to it.
true_version : accepts (document (bool true) "127.0.0.1" (text "responses")) ≡ accepted
unfolding validator_runs
true_version = refl

-- A list in place of a family has no hash, and the exception is not a rejection.
unhashable : accepts (document (num 1) "127.0.0.1" (arr nil)) ≡ raised
unfolding validator_runs
unhashable = refl

exposed :
    accepts (document (num 1) "0.0.0.0" (text "responses"))
    ≡ refused (codes "/listener/auth") unauthenticated
unfolding validator_runs
exposed = refl

bad_family :
    accepts (document (num 1) "127.0.0.1" (text "embeddings"))
    ≡ refused (codes "/routes/0/endpoint_families/0") no_choice
unfolding validator_runs
bad_family = refl

private_url : check_url (codes "http://10.0.0.1:80/v1") true [] ≡ ok false
unfolding validator_runs
private_url = refl

check_path_iff_example : (check_path (codes "${HOME}/s") [] ≡ ok tt) ↔ IsPath (codes "${HOME}/s")
check_path_iff_example = check_path_iff (codes "${HOME}/s") []

check_path-ne-crash_example : check_path (codes "${HOME}/s") [] ≢ crash
check_path-ne-crash_example = check_path-ne-crash (codes "${HOME}/s") []

sweep_iff_example : (sweep sample [] ≡ ok tt) ↔ ¬ ((k : Text) × HasKey k sample × IsCredential k)
sweep_iff_example = sweep_iff sample []

check_url-IsAllowed_example :
    (all_chars is_url_char (codes "http://10.0.0.1:80/v1") ≡ true)
    × (IsAllowed (codes "http://10.0.0.1:80/v1") true)
check_url-IsAllowed_example =
    check_url-IsAllowed (codes "http://10.0.0.1:80/v1") true [] false private_url

host_key : HasKey (codes "host") sample
unfolding HasKey HasKeyInFields
host_key = inr (inr (inr (inl (inl refl))))

accepts-HasKey_example : ¬ (IsCredential (codes "host"))
accepts-HasKey_example = accepts-HasKey sample sample_run (codes "host") host_key

accepts-AllInRange_example : AllInRange sample
accepts-AllInRange_example = accepts-AllInRange sample sample_run

accepts-IsGuarded_example :
    (listener : Json) × (at (codes "listener" ∷ []) sample ≡ some listener) × IsGuarded listener
accepts-IsGuarded_example = accepts-IsGuarded sample sample_run

accepts-DifferentAt_example :
    DifferentAt (codes "providers") (codes "id") sample
    × (DifferentAt (codes "routes") (codes "id") sample
        × DifferentAt (codes "routes") (codes "model_alias") sample)
    × DifferentAt (codes "mcp_servers") (codes "id") sample
accepts-DifferentAt_example = accepts-DifferentAt sample sample_run

accepts-IsRouted_example :
    (providers routes : Items) × (ids : List Text) × (at (codes "providers" ∷ []) sample
      ≡ some (arr providers))
    × (at (codes "routes" ∷ []) sample ≡ some (arr routes))
    × Names (codes "id") (to_list providers) ids
    × All (IsRouted ids) (to_list routes)
accepts-IsRouted_example = accepts-IsRouted sample sample_run

accepts-Allowed_example :
    (providers servers : Items) × (at (codes "providers" ∷ []) sample ≡ some (arr providers))
    × (at (codes "mcp_servers" ∷ []) sample ≡ some (arr servers))
    × All (Allowed (codes "base_url")) (to_list providers)
    × All IsReached (to_list servers)
accepts-Allowed_example = accepts-Allowed sample sample_run

accepts-IsStarted_example :
    (servers : Items) × (at (codes "mcp_servers" ∷ []) sample ≡ some (arr servers))
    × All IsStarted (to_list servers)
accepts-IsStarted_example = accepts-IsStarted sample sample_run
