-- ===== src/Worker.antt =====
-- worker.go: the submission worker's pacing and its constructor. Its children model the submission
-- lifecycle. Durations are in nanoseconds.
pub mod Verdict
pub mod Backoff
pub mod Effects
pub mod Mutators
pub mod Actions
pub mod Acts
pub mod Steps
pub mod Lifecycle
pub mod Requests
pub mod Once
pub mod Parents
pub mod Progress
pub mod Acceptance
pub mod Document
pub mod World
pub mod Sending
pub mod Renewal
pub mod Run
pub mod Waking
pub mod Termination
use go_stripenav.Base.{
  ℕ, zero, suc, ◌+◌, ◌-◌, ◌*◌, ◌/◌, ◌%◌, ◌^◌, ◌≤◌, ◌<◌, ◌≡◌, refl, sym, ap, ◌∙◌, subst, ◌≢◌, ◌↔◌,
  ◌⊎◌, inl, inr, Bool, true, false, not, ◌&&◌, ◌||◌, Option, none, some, List, [], ◌∷◌, ◌++◌, map,
  append-nil, append_assoc, arith, ltb, leb, ◌==◌, if◌then◌else◌, ==_iff, leb_iff, &&_split,
  Bool-cases, Option-cases, length, take, drop, replicate, head?, all, any, In, here, there, All,
  length-append, take-append, drop-append, take-append-drop, length-take, length-drop,
  length-replicate, Bytes, str, str_eq, str_eq_iff, str_eq_refl, Permᴰ, Permᴰ-refl, Permᴰ-sym,
  Permᴰ-In, Permᴰ-length, In-All, In-cons, take_all,
}
use go_stripenav.Base.Int.{ℤ, pos, negsuc}

abbrev pub default_max_sleep : ℕ
default_max_sleep = 10_000_000_000

abbrev pub default_poll_interval : ℕ
default_poll_interval = 5_000_000_000

abbrev pub default_lease_duration : ℕ
default_lease_duration = 60_000_000_000

abbrev pub default_base_backoff : ℕ
default_base_backoff = 30_000_000_000

abbrev pub default_max_backoff : ℕ
default_max_backoff = 900_000_000_000

abbrev pub default_batch_limit : ℕ
default_batch_limit = 50

abbrev pub reporting_deadline : ℕ
reporting_deadline = 86_400_000_000_000

-- The knobs that the lifecycle reads.
pub record Worker : Type 0 where
  pub claimer_id : Bytes
  pub max_sleep : ℕ
  pub poll_interval : ℕ
  pub lease_duration : ℕ
  pub base_backoff : ℕ
  pub max_backoff : ℕ
  pub batch_limit : ℕ

-- The store and the client are there or nil; a duration or a limit may be negative.
pub record WorkerConfig : Type 0 where
  pub has_store : Bool
  pub has_client : Bool
  pub claimer_id : Bytes
  pub max_sleep : ℤ
  pub poll_interval : ℤ
  pub lease_duration : ℤ
  pub base_backoff : ℤ
  pub max_backoff : ℤ
  pub batch_limit : ℤ

pub data ConfigError : Type 0 where
  store_required client_required : ConfigError

-- `if v <= 0 { v = d }`.
abbrev pub defaulted : ℕ → ℤ → ℕ
defaulted d (pos zero) = d
defaulted d (pos (suc n)) = suc n
defaulted d (negsuc n) = d

abbrev alphabet : Bytes
alphabet = str "abcdefghijklmnopqrstuvwxyz0123456789"

abbrev nth : Bytes → ℕ → ℕ
nth [] i = 0
nth (c ∷ cs) zero = c
nth (c ∷ cs) (suc i) = nth cs i

-- `host` is the hostname, `draws` the eight values of `r.Intn(36)`.
unfoldable pub default_claimer_id : Bytes → List ℕ → Bytes
default_claimer_id host draws =
    (if str_eq host [] then str "worker" else host) ++ str "-" ++ map (nth alphabet) draws

unfoldable pub new_worker : Bytes → List ℕ → WorkerConfig → Worker ⊎ ConfigError
unfolding default_claimer_id
new_worker host draws cfg =
    if not cfg.has_store
    then inr store_required
    else if not cfg.has_client
    then inr client_required
    else inl (record {
      claimer_id =
          if str_eq cfg.claimer_id [] then default_claimer_id host draws else cfg.claimer_id;
      max_sleep = defaulted default_max_sleep cfg.max_sleep;
      poll_interval = defaulted default_poll_interval cfg.poll_interval;
      lease_duration = defaulted default_lease_duration cfg.lease_duration;
      base_backoff = defaulted default_base_backoff cfg.base_backoff;
      max_backoff = defaulted default_max_backoff cfg.max_backoff;
      batch_limit = defaulted default_batch_limit cfg.batch_limit;
    })

-- What the lifecycle and ClaimBatch rely on.
pub record IsPaced (w : Worker) : Type 0 where
  pub named : w.claimer_id ≢ []
  pub sleeps : 0 < w.max_sleep
  pub polls : 0 < w.poll_interval
  pub leases : 0 < w.lease_duration
  pub backs_off : 0 < w.base_backoff
  pub caps : 0 < w.max_backoff
  pub claims : 0 < w.batch_limit

defaulted-pos : (d : ℕ) (v : ℤ) → 0 < d → 0 < defaulted d v
defaulted-pos d (pos zero) h = h
defaulted-pos d (pos (suc n)) h = omega arith
defaulted-pos d (negsuc n) h = h

default_claimer_id-ne : (host : Bytes) (draws : List ℕ) → default_claimer_id host draws ≢ []
unfolding default_claimer_id str_eq
default_claimer_id-ne [] draws e = cc
default_claimer_id-ne (c ∷ cs) draws e = cc

-- Whatever the configuration, NewWorker fails exactly when the store or the client is nil;
-- otherwise the worker has a name and every pacing value of it is positive.
pub new_worker-IsPaced :
    (host : Bytes) (draws : List ℕ) (cfg : WorkerConfig)
    → (((cfg.has_store ≡ false) ⊎ (cfg.has_client ≡ false))
        × ((e : ConfigError) × (new_worker host draws cfg ≡ inr e)))
      ⊎ ((cfg.has_store ≡ true)
          × (cfg.has_client ≡ true)
          × ((w : Worker) × (new_worker host draws cfg ≡ inl w) × IsPaced w))
unfolding new_worker
new_worker-IsPaced host draws cfg = elim (Bool-cases cfg.has_store) [
  | inr e ↦ inl (inl e, (store_required, ground arith))
  | inl e ↦ elim (Bool-cases cfg.has_client) [
    | inr f ↦ inl (inr f, (client_required, ground arith))
    | inl f ↦ inr (
      e,
      f,
      (
        worker,
        ground arith,
        record {
          named = ground (arith, default_claimer_id-ne host draws, str_eq_iff cfg.claimer_id []);
          sleeps = defaulted-pos default_max_sleep cfg.max_sleep (omega arith);
          polls = defaulted-pos default_poll_interval cfg.poll_interval (omega arith);
          leases = defaulted-pos default_lease_duration cfg.lease_duration (omega arith);
          backs_off = defaulted-pos default_base_backoff cfg.base_backoff (omega arith);
          caps = defaulted-pos default_max_backoff cfg.max_backoff (omega arith);
          claims = defaulted-pos default_batch_limit cfg.batch_limit (omega arith);
        },
      ),
    )
  ]
]
  where
    worker : Worker
    worker = record {
      claimer_id =
          if str_eq cfg.claimer_id [] then default_claimer_id host draws else cfg.claimer_id;
      max_sleep = defaulted default_max_sleep cfg.max_sleep;
      poll_interval = defaulted default_poll_interval cfg.poll_interval;
      lease_duration = defaulted default_lease_duration cfg.lease_duration;
      base_backoff = defaulted default_base_backoff cfg.base_backoff;
      max_backoff = defaulted default_max_backoff cfg.max_backoff;
      batch_limit = defaulted default_batch_limit cfg.batch_limit;
    }
