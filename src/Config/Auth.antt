-- ===== src/Config/Auth.antt =====
-- The sweep for plaintext credentials, `_check_auth` and `_check_timeouts`.
pub mod Swept
use asm_flow.Prelude.{
  ℕ, zero, suc, ◌+◌, Bool, true, false, ◌&&◌, ◌||◌, not, Option, none, some, List, [], ◌∷◌, ◌++◌,
  Text, codes, eq_text, mem_text, leb, ◌==◌, if◌then◌else◌, pos, map,
}
use asm_flow.Json.{Json, null, bool, int, real, str, arr, obj, Items, nil, cons, Fields, end, field}
use asm_flow.Config.{
  Result, ok, reject, crash, ◌>>=◌, ◌>>◌, require, ◌▸◌, decimal, as_obj, check_keys, req, req_int,
  req_str, req_enum, plaintext_credential, bad_env_name, bad_header,
}
use asm_flow.Config.Names.{is_env_name, is_header, is_upper}

unfoldable pub credential_keys : List Text
unfolding codes
credential_keys =
    codes "api_key"
    ∷ codes "apikey"
    ∷ codes "secret"
    ∷ codes "password"
    ∷ codes "token"
    ∷ codes "authorization"
    ∷ codes "private_key"
    ∷ codes "credential"
    ∷ codes "credentials"
    ∷ codes "passphrase"
    ∷ codes "bearer"
    ∷ []

-- str.lower as far as its result is ASCII: beside A to Z only the Kelvin sign has a lower case in
-- ASCII. Other characters stay, which no comparison with an ASCII word notices.
unfoldable pub lower : Text → Text
lower = map (λ c. if is_upper c then c + 32 else if c == 8490 then b'k' else c)

unfoldable mutual
  pub sweep : Json → Text → Result (Unit {0})
  sweep null p = ok tt
  sweep (bool b) p = ok tt
  sweep (int n) p = ok tt
  sweep (real m k) p = ok tt
  sweep (str s) p = ok tt
  sweep (arr xs) p = sweep_items xs 0 p
  sweep (obj fs) p = sweep_fields fs p

  pub sweep_items : Items → ℕ → Text → Result (Unit {0})
  sweep_items nil i p = ok tt
  sweep_items (cons x xs) i p = sweep x (p ▸ decimal i) >> sweep_items xs (i + 1) p

  pub sweep_fields : Fields → Text → Result (Unit {0})
  sweep_fields end p = ok tt
  sweep_fields (field k v fs) p =
      require (not (mem_text (lower k) credential_keys)) (p ▸ k) plaintext_credential
      >> (sweep v (p ▸ k) >> sweep_fields fs p)

-- An accepted authentication block: its type, and the variable that it names.
abbrev pub Auth : Type 0
Auth = Text × Option Text

unfoldable pub auth_none : Fields → Text → Text → Result Auth
auth_none auth kind p = do check_keys auth (codes "type" ∷ []) p; ok (kind, none)

unfoldable pub auth_bearer : Fields → Text → Text → Result Auth
auth_bearer auth kind p = do
  check_keys auth (codes "type" ∷ codes "env" ∷ []) p
  env ← req_str auth (codes "env") p
  require (is_env_name env) (p ▸ codes "env") bad_env_name
  ok (kind, some env)

unfoldable pub auth_header : Fields → Text → Text → Result Auth
auth_header auth kind p = do
  check_keys auth (codes "type" ∷ codes "header" ∷ codes "value" ∷ []) p
  header ← req_str auth (codes "header") p
  require (is_header header) (p ▸ codes "header") bad_header
  value ← req auth (codes "value") p
  ref ← as_obj value (p ▸ codes "value")
  check_keys ref (codes "source" ∷ codes "name" ∷ []) (p ▸ codes "value")
  req_enum ref (codes "source") (codes "env" ∷ []) (p ▸ codes "value")
  name ← req_str ref (codes "name") (p ▸ codes "value")
  require (is_env_name name) (p ▸ codes "value" ▸ codes "name") bad_env_name
  ok (kind, some name)

unfoldable pub auth_of_kind : Text → Fields → Text → Result Auth
auth_of_kind kind auth p =
    if eq_text kind (codes "none")
    then auth_none auth kind p
    else if eq_text kind (codes "bearer_env")
    then auth_bearer auth kind p
    else auth_header auth kind p

unfoldable pub check_auth : Json → Text → Result Auth
unfolding auth_of_kind
check_auth node p = do
  auth ← as_obj node p
  kind ←
      req_enum auth (codes "type") (codes "none" ∷ codes "bearer_env" ∷ codes "header_env" ∷ []) p
  auth_of_kind kind auth p

unfoldable pub check_timeouts : Json → Text → Result (Unit {0})
check_timeouts node p = do
  node' ← as_obj node p
  check_keys node' (codes "connect_ms" ∷ codes "request_ms" ∷ codes "idle_stream_ms" ∷ []) p
  req_int node' (codes "connect_ms") (pos 100) (pos 600000) p
  req_int node' (codes "request_ms") (pos 1000) (pos 86400000) p
  req_int node' (codes "idle_stream_ms") (pos 1000) (pos 3600000) p
  ok tt
