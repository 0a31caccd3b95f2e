-- ===== src/Bridge/Startup.antt =====
-- stripenav.go: Handler, which builds the handler with its client and its worker, Shutdown, and
-- AnnulInvoice, by which an operator has an invoice annulled.
use go_stripenav.Base.{
  xml_header, ℕ, zero, suc, ◌≡◌, refl, subst, ◌⊎◌, inl, inr, Bool, true, false, not, Option, none,
  some, List, [], ◌∷◌, ◌++◌, arith, if◌then◌else◌, Bool-cases, Bytes, str, str_eq,
}
use go_stripenav.Base.Int.{ℤ, pos, negsuc}
use go_stripenav.Base.Results.{◌>>=◌, map_error, bind_inl, inl_inj, sum-cases}
use go_stripenav.Submission.{Time, Error}
use go_stripenav.Store.{Store, new}
use go_stripenav.Storno.{build_annulment_record}
use go_stripenav.Nav.{
  AnnulmentOperation, SubmitResult, Reply, reply, nav_failure, other_failure, nav_error_text,
}
use go_stripenav.Navclient.Config.{Config, new_client, IsReady, new_client-IsReady}
use go_stripenav.Worker.{Worker, WorkerConfig, new_worker, IsPaced, new_worker-IsPaced}
use go_stripenav.Bridge.{
  HandlerConfig, HandlerError, by_client, by_worker, validate_config, timeout_or_default, Packages,
}

-- The handler; `client` is the configuration of the client that Handler built.
pub record BridgeHandler : Type 0 where
  pub cfg : HandlerConfig
  pub client : Option Config
  pub worker : Option Worker

abbrev pub is_there {ℓ} : {A : Type ℓ} → Option A → Bool
is_there none = false
is_there (some a) = true

-- The configuration that Handler hands to NewWorker; the client is there by then.
unfoldable pub worker_config : HandlerConfig → WorkerConfig
worker_config cfg = record {
  has_store = is_there cfg.store;
  has_client = true;
  claimer_id = cfg.worker_claimer_id;
  max_sleep = cfg.worker_max_sleep;
  poll_interval = cfg.worker_poll_interval;
  lease_duration = cfg.worker_lease_duration;
  base_backoff = pos 0;
  max_backoff = pos 0;
  batch_limit = pos 0;
}

-- `for _, opt := range opts { opt(&cfg) }`.
unfoldable pub with_options : List (HandlerConfig → HandlerConfig) → HandlerConfig → HandlerConfig
with_options [] cfg = cfg
with_options (opt ∷ opts) cfg = with_options opts (opt cfg)

unfoldable pub make_client : HandlerConfig → Option Config ⊎ HandlerError
make_client cfg =
    if cfg.has_nav_client
    then inl none
    else map_error (λ e. by_client e) (new_client cfg.nav) >>= λ c. inl (some c)

-- `host` and `draws` are what a default claimer id is made of.
unfoldable pub make_worker : Bytes → List ℕ → HandlerConfig → Option Worker ⊎ HandlerError
unfolding worker_config
make_worker host draws cfg =
    if not cfg.disable_worker
    then map_error (λ e. by_worker e) (new_worker host draws (worker_config cfg))
      >>= (λ w. inl (some w))
    else inl none

unfoldable pub handler :
    Bytes
    → List ℕ
    → HandlerConfig
    → List (HandlerConfig → HandlerConfig)
    → BridgeHandler ⊎ HandlerError
unfolding with_options make_client make_worker
handler host draws given opts = do
  cfg ← validate_config (with_options opts given)
  client ← make_client cfg
  worker ← make_worker host draws cfg
  inl (record { cfg = cfg; client = client; worker = worker })

-- WithNAVClient, with a client or with nil.
unfoldable pub with_nav_client : Bool → HandlerConfig → HandlerConfig
with_nav_client is_given cfg = record cfg { has_nav_client = is_given }

-- What Shutdown's select takes: the worker's goroutine has ended, or the caller's context is done.
pub data Ending : Type 0 where
  drained : Ending
  expired : Error → Ending

-- Shutdown: whether it cancels the worker's context, and what it returns.
unfoldable pub shutdown : BridgeHandler → Ending → Bool × Option Error
shutdown h drained = (is_there h.worker, none)
shutdown h (expired e) = (is_there h.worker, some e)

abbrev pub default_reason : Bytes
default_reason = str "annulled by admin action"

-- AnnulInvoice, with the client's reply to the one operation; the result is the transaction's id or
-- the error's text.
unfoldable pub annul_invoice :
    Packages → (List AnnulmentOperation → Reply SubmitResult) → Time → Bytes → Bytes → Bytes ⊎ Bytes
unfolding build_annulment_record
annul_invoice lib client now number reason =
    if str_eq number []
    then inr (str "stripenav: invoiceNumber is required")
    else elim (lib.marshal_annulment (
        build_annulment_record lib.format_timestamp number
          (if str_eq reason [] then default_reason else reason) now)) [
            | inr t ↦ inr t
            | inl payload ↦
                elim (client (record { invoice_annulment = xml_header ++ payload } ∷ [])) [
                  | reply r ↦ inl r.transaction_id
                  | nav_failure e ↦ inr (nav_error_text e)
                  | other_failure t ↦ inr t
                ]
          ]

abbrev is_positive : ℤ → Bool
is_positive (pos zero) = false
is_positive (pos (suc n)) = true
is_positive (negsuc n) = false

-- What a request and a delivery rely on.
pub record IsServing (h : BridgeHandler) : Type 0 where
  pub has_secret : str_eq h.cfg.stripe_webhook_secret [] ≡ false
  pub has_supplier : str_eq h.cfg.supplier.tax_number [] ≡ false
  pub has_store : is_there h.cfg.store ≡ true
  pub has_time : is_positive h.cfg.accept_timeout ≡ true
  pub client_ready :
      (h.cfg.has_nav_client ≡ true) ⊎ ((c : Config) × (h.client ≡ some c) × IsReady c)
  pub worker_paced :
      (h.cfg.disable_worker ≡ true) ⊎ ((w : Worker) × (h.worker ≡ some w) × IsPaced w)

timeout-positive : (t : ℤ) → is_positive (timeout_or_default t) ≡ true
timeout-positive (pos zero) = ground arith
timeout-positive (pos (suc n)) = refl
timeout-positive (negsuc n) = ground arith

abbrev Valid : HandlerConfig → Type 0
Valid cfg =
    (str_eq cfg.stripe_webhook_secret [] ≡ false)
    × (str_eq cfg.supplier.tax_number [] ≡ false)
    × (is_there cfg.store ≡ true)
    × (is_positive cfg.accept_timeout ≡ true)

store-there : (s : Option Store) → is_there (elim s [ none ↦ some new | some t ↦ some t ]) ≡ true
store-there none = refl
store-there (some t) = refl

validated : (given cfg : HandlerConfig) → validate_config given ≡ inl cfg → Valid cfg
unfolding validate_config
validated given cfg e = elim (Bool-cases (str_eq given.stripe_webhook_secret [])) [
  | inl a ↦ absurd (ground (arith, a, e))
  | inr a ↦ elim (Bool-cases (str_eq given.supplier.tax_number [])) [
    | inl b ↦ absurd (ground (arith, a, b, e))
    | inr b ↦
        let is : filled ≡ cfg = ground (arith, a, b, e) in
        subst Valid is (a, b, store-there given.store, timeout-positive given.accept_timeout)
  ]
]
  where
    filled : HandlerConfig
    filled = record given {
      store = elim given.store [ none ↦ some new | some s ↦ some s ];
      accept_timeout = timeout_or_default given.accept_timeout;
    }

client-Ready :
    (cfg : HandlerConfig) (client : Option Config)
    → make_client cfg ≡ inl client
    → (cfg.has_nav_client ≡ true) ⊎ ((c : Config) × (client ≡ some c) × IsReady c)
unfolding make_client
client-Ready cfg client e = elim (Bool-cases cfg.has_nav_client) [
  | inl h ↦ inl h
  | inr h ↦ elim (sum-cases (new_client cfg.nav)) [
    | inl (c, q) ↦ inr (c, ground (arith, h, e, q), new_client-IsReady cfg.nav c q)
    | inr (x, q) ↦ absurd (ground (arith, h, e, q))
  ]
]

worker-Paced :
    (host : Bytes) (draws : List ℕ) (cfg : HandlerConfig) (worker : Option Worker)
    → make_worker host draws cfg ≡ inl worker
    → (cfg.disable_worker ≡ true) ⊎ ((w : Worker) × (worker ≡ some w) × IsPaced w)
unfolding make_worker
worker-Paced host draws cfg worker e = elim (Bool-cases cfg.disable_worker) [
  | inl h ↦ inl h
  | inr h ↦ elim (new_worker-IsPaced host draws (worker_config cfg)) [
    | inl (bad, (x, q)) ↦ absurd (ground (arith, h, e, q))
    | inr (s, c, (w, q, p)) ↦ inr (w, ground (arith, h, e, q), p)
  ]
]

-- A handler that Handler returns has a webhook secret, a supplier's tax number, a store and a
-- positive time limit; its NAV client is the injected one or has passed NewClient's checks; and its
-- worker is disabled, or has a name and positive pacing values.
pub handler-IsServing :
    (host : Bytes) (draws : List ℕ) (given : HandlerConfig)
    (opts : List (HandlerConfig → HandlerConfig)) (h : BridgeHandler)
    → handler host draws given opts ≡ inl h
    → IsServing h
unfolding handler
handler-IsServing host draws given opts h e =
    let (cfg, v, e1) = bind_inl (validate_config (with_options opts given)) _ e in
    let (client, c, e2) = bind_inl (make_client cfg) _ e1 in
    let (worker, w, e3) = bind_inl (make_worker host draws cfg) _ e2 in
    let (a, b, s, t) = validated (with_options opts given) cfg v in
    subst IsServing (inl_inj e3) (record {
      has_secret = a;
      has_supplier = b;
      has_store = s;
      has_time = t;
      client_ready = client-Ready cfg client c;
      worker_paced = worker-Paced host draws cfg worker w;
    })
