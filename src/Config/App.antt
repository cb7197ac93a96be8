-- ===== src/Config/App.antt =====
-- How the two programs are put together: the HTTP server (src/main.ts, src/config/app.config.ts,
-- src/config/swagger.config.ts, src/app.service.ts) and the listener (src/main-listener.ts), with the
-- client of src/modules/messaging/rmq.module.ts. The framework is a list of the calls that it gets.
use api_wallet.Prelude.{
  ℕ, Text, codes, Bool, true, Option, none, some, List, [], ◌∷◌, ◌++◌, or_else,
}
use api_wallet.Config.{
  Script, Environment, RmqOptions, build_rmq_server_options, build_rmq_client_options,
}

-- The options of the ValidationPipe.
pub record Validation : Type 0 where
  pub whitelist : Bool
  pub transform : Bool
  pub forbid_non_whitelisted : Bool
  pub enable_implicit_conversion : Bool

-- `configService.get<number>('APP_PORT') ?? 3000`: a setting is a string at run time.
pub data Port : Type 0 where
  setting : Text → Port
  literal : ℕ → Port

-- What is asked of the application.
pub data AppCall : Type 0 where
  enable_shutdown_hooks use_cookie_parser : AppCall
  use_global_pipes : Validation → AppCall
  enable_cors : (origin credentials : Bool) → AppCall
  use_basic_auth :
      (paths : List Text) (user password unauthorized_response : Text) (challenge : Bool) → AppCall
  setup_docs : (path title description version : Text) → AppCall
  listen : Port → (host : Text) → AppCall

abbrev pub swagger_path : Text
swagger_path = codes "docs"

unfoldable pub setup_swagger : Environment → List AppCall
setup_swagger get =
    use_basic_auth
      ((codes "/" ++ swagger_path) ∷ (codes "/" ++ (swagger_path ++ codes "-json")) ∷ [])
      (or_else (get (codes "SWAGGER_USER")) (codes "admin"))
      (or_else (get (codes "SWAGGER_PASSWORD")) (codes "admin")) (codes "Unauthorized") true
    ∷ setup_docs swagger_path (codes "Wallet API")
        (codes "Event-driven wallet service API documentation") (codes "1.0.0")
    ∷ []

pub record Configured : Type 0 where
  pub port : Port
  pub node_env : Text

abbrev pub port_of : Option Text → Port
port_of none = literal 3000
port_of (some value) = setting value

unfoldable pub configure_app : Environment → List AppCall × Configured
unfolding setup_swagger
configure_app get = (
  enable_shutdown_hooks
      ∷ use_global_pipes (record {
        whitelist = true;
        transform = true;
        forbid_non_whitelisted = true;
        enable_implicit_conversion = true;
      })
      ∷ use_cookie_parser
      ∷ enable_cors true true
      ∷ setup_swagger get,
  record {
    port = port_of (get (codes "APP_PORT"));
    node_env = or_else (get (codes "NODE_ENV")) (codes "development");
  },
)

-- `bootstrap` of the server.
unfoldable pub bootstrap : Environment → List AppCall
unfolding configure_app
bootstrap get =
    let (calls, configured) = configure_app get in
    calls ++ listen configured.port (or_else (get (codes "APP_HOST")) (codes "0.0.0.0")) ∷ []

-- AppService and AppController, and the listener, which takes messages instead of requests.
abbrev pub get_hello : Text
get_hello = codes "Hello Wallet API!"

module _ (s : Script) where
  pub data ListenerCall : Type 0 where
    connect_microservice : RmqOptions s → ListenerCall
    start_all_microservices : ListenerCall

  -- `bootstrap` of the listener.
  unfoldable pub bootstrap_listener : Environment → List ListenerCall
  bootstrap_listener get =
      connect_microservice (build_rmq_server_options s get) ∷ start_all_microservices ∷ []

  -- The provider of RMQ_CLIENT; `create` is `ClientProxyFactory.create`.
  unfoldable pub rmq_client :
      {Client : Type 0} → (create : RmqOptions s → Client) → Environment → Client
  rmq_client create get = create (build_rmq_client_options s get)
