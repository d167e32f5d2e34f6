-- ===== src/Config.antt =====
-- src/ep_governance/config.py: `load_config`, from an environment to a configuration or an error.
use ep_governance.Prelude.{
  ℕ, String, Bool, true, false, not, ◌&&◌, Option, none, some, List, [], ◌∷◌, any, str_eq,
  str_eq_iff, if◌then◌else◌, ◌≡◌, ◌⊎◌, inl, inr, arith, Bool-cases, subst,
}
use ep_governance.Errors.{Result, ok, require, guard, ◌>>=◌, ◌>>◌, >>=-ok, config_error}

pub data ℤ : Type 0 where
  pos negsuc : ℕ → ℤ

-- The variables, and Python's `str.lower` and `int` of a text, which is `none` where it raises.
pub record Environment : Type 0 where
  pub variable : String → Option String
  pub lower : String → String
  pub int : String → Option ℤ

pub record Config : Type 0 where
  pub mode : String
  pub db_url : String
  pub db_schema : String
  pub embedding_provider : String
  pub embedding_model : String
  pub embedding_host : String
  pub embedding_api_key : String
  pub mcp_transport : String
  pub mcp_port : ℤ
  pub mcp_tls_cert : String
  pub mcp_tls_key : String
  pub mcp_allowed_hosts : String
  pub notify_backend : String
  pub nats_url : String
  pub token_ttl_seconds : ℤ
  pub dev : Bool
  pub bootstrap_token_hash : Option String
  pub signing_key_file : Option String
  pub allow_advisory_execution : Bool
  pub require_signed_authorization : Bool
  pub fail_closed : Bool

-- `e.get(name, default)`
unfoldable pub get : Environment → String → String → String
get e name default = elim (e.variable name) [ none ↦ default | some v ↦ v ]

-- `e.get(name) or None`
unfoldable pub get_set : Environment → String → Option String
get_set e name = elim (e.variable name) [
  | none ↦ none
  | some v ↦ if str_eq v "" then none else some v
]

abbrev pub yes : List String
yes = "true" ∷ "1" ∷ "yes" ∷ []

unfoldable pub one_of : List String → String → Bool
one_of names s = any (str_eq s) names

-- `e.get(name, default).lower() in ("true", "1", "yes")`
unfoldable pub flag : Environment → String → String → Bool
unfolding get one_of
flag e name default = one_of yes (e.lower (get e name default))

abbrev pub modes : List String
modes = "enforced" ∷ "advisory" ∷ []

abbrev pub embedding_providers : List String
embedding_providers = "ollama" ∷ "openai" ∷ "cohere" ∷ "none" ∷ []

abbrev pub notify_backends : List String
notify_backends = "native" ∷ "nats" ∷ "none" ∷ []

-- The configuration that the variables ask for.
unfoldable pub requested : Environment → ℤ → ℤ → Config
unfolding flag get_set
requested e token_ttl mcp_port = record {
  mode = get e "EP_MODE" "enforced";
  db_url = get e "EP_DB_URL" "";
  db_schema = get e "EP_DB_SCHEMA" "";
  embedding_provider = get e "EP_EMBEDDING_PROVIDER" "none";
  embedding_model = get e "EP_EMBEDDING_MODEL" "";
  embedding_host = get e "EP_EMBEDDING_HOST" "";
  embedding_api_key = get e "EP_EMBEDDING_API_KEY" "";
  mcp_transport = get e "EP_MCP_TRANSPORT" "stdio";
  mcp_port = mcp_port;
  mcp_tls_cert = get e "EP_MCP_TLS_CERT" "";
  mcp_tls_key = get e "EP_MCP_TLS_KEY" "";
  mcp_allowed_hosts = get e "EP_MCP_ALLOWED_HOSTS" "";
  notify_backend = get e "EP_NOTIFY" "native";
  nats_url = get e "EP_NATS_URL" "";
  token_ttl_seconds = token_ttl;
  dev = flag e "EP_DEV" "";
  bootstrap_token_hash = get_set e "EP_BOOTSTRAP_TOKEN_HASH";
  signing_key_file = get_set e "EP_SIGNING_KEY_FILE";
  allow_advisory_execution = flag e "EP_ALLOW_ADVISORY_EXECUTION" "false";
  require_signed_authorization = flag e "EP_REQUIRE_SIGNED_AUTHORIZATION" "true";
  fail_closed = flag e "EP_FAIL_CLOSED" "true";
}

-- The advisory mode is for development, and only where it is asked for twice.
unfoldable pub mode_allowed : Config → Bool
mode_allowed c =
    not (str_eq c.mode "advisory" && not c.dev)
    && not (str_eq c.mode "advisory" && c.dev && not c.allow_advisory_execution)

-- The names and the database's address, in the order of the checks.
unfoldable pub check_variables : Environment → Result (Unit {0})
unfolding one_of get
check_variables e =
    guard (one_of modes (get e "EP_MODE" "enforced")) config_error
    >> guard (not (str_eq (get e "EP_DB_URL" "") "")) config_error
    >> guard (one_of embedding_providers (get e "EP_EMBEDDING_PROVIDER" "none")) config_error
    >> guard (one_of notify_backends (get e "EP_NOTIFY" "native")) config_error

unfoldable pub accept : Config → Result Config
unfolding mode_allowed
accept c = guard (mode_allowed c) config_error >> ok c

unfoldable pub integer_variable : Environment → String → String → Result ℤ
unfolding get
integer_variable e name default = require (e.int (get e name default)) config_error

unfoldable pub load_config : Environment → Result Config
unfolding check_variables integer_variable requested accept
load_config e =
    check_variables e
    >> (integer_variable e "EP_TOKEN_TTL_SECONDS" "300" >>= λ token_ttl.
        integer_variable e "EP_MCP_PORT" "8200" >>= λ mcp_port.
        accept (requested e token_ttl mcp_port))

check_variables-ok :
    (e : Environment) (u : Unit {0})
    → check_variables e ≡ ok u
    → (one_of modes (get e "EP_MODE" "enforced") ≡ true)
      × (str_eq (get e "EP_DB_URL" "") "" ≡ false)
unfolding check_variables
check_variables-ok e u h = (ground (arith, h), ground (arith, h))

accept-ok : (c d : Config) → accept c ≡ ok d → (mode_allowed c ≡ true) × (c ≡ d)
unfolding accept
accept-ok c d h =
    let (u, allowed, same) = >>=-ok (guard (mode_allowed c) config_error) (λ _. ok c) h in
    (ground (arith, allowed), cc same)

one_of-modes : (s : String) → one_of modes s ≡ true → (s ≡ "enforced") ⊎ (s ≡ "advisory")
unfolding one_of any
one_of-modes s h = elim (Bool-cases (str_eq s "enforced")) [
  | inl e ↦ inl ((str_eq_iff s "enforced").0 e)
  | inr e ↦ inr ((str_eq_iff s "advisory").0 (ground (arith, h, e)))
]

-- The mode of a configuration that is allowed.
IsSafe : Config → Type 0
IsSafe c =
    ((c.mode ≡ "enforced")
      ⊎ ((c.mode ≡ "advisory") × (c.dev ≡ true) × (c.allow_advisory_execution ≡ true)))
    × (str_eq c.db_url "" ≡ false)

mode_allowed-IsSafe :
    (c : Config)
    → one_of modes c.mode ≡ true
    → str_eq c.db_url "" ≡ false
    → mode_allowed c ≡ true
    → IsSafe c
unfolding mode_allowed IsSafe
mode_allowed-IsSafe c named address allowed = (
  (elim (one_of-modes c.mode named) [
    | inl e ↦ inl e
    | inr e ↦
        let same : str_eq c.mode "advisory" ≡ true = (str_eq_iff c.mode "advisory").1 e in
        inr (e, ground (arith, allowed, same), ground (arith, allowed, same))
  ]),
  address,
)

-- A configuration that is accepted is enforced, or advisory in development where that is allowed, and
-- names a database.
pub load_config-enforced :
    (e : Environment) (c : Config)
    → load_config e ≡ ok c
    → ((c.mode ≡ "enforced")
        ⊎ ((c.mode ≡ "advisory") × (c.dev ≡ true) × (c.allow_advisory_execution ≡ true)))
      × (str_eq c.db_url "" ≡ false)
unfolding load_config IsSafe
load_config-enforced e c h =
    let (u, checked, h0) = >>=-ok (check_variables e) _ h in
    let (ttl, _, h1) = >>=-ok (integer_variable e "EP_TOKEN_TTL_SECONDS" "300") _ h0 in
    let (port, _, h2) = >>=-ok (integer_variable e "EP_MCP_PORT" "8200") _ h1 in
    let (allowed, same) = accept-ok (requested e ttl port) c h2 in
    let (named, address) = check_variables-ok e u checked in
    subst IsSafe same (mode_allowed-IsSafe (requested e ttl port) named address allowed)
