-- ===== src/Operation/RedisQueue/Config.antt =====
-- The configuration of the Redis queue coordinator and the names of its keys:
-- cdmp-mini/internal/common/service/operation/queue/redisqueue/coordinator.go.
-- A duration or a number that is not positive stands as 0, which the code treats alike.
use Prim.Native.Char.{Char, code}
use Prim.Native.String.{◌++◌ as join}
use cdmp_mini.Base.Signed.{second}
use cdmp_mini.Base.{ℕ, ◌*◌, String, Bool, ltb, ◌==◌, if◌then◌else◌}
use cdmp_mini.Base.Text.{is_empty, trim_space}

-- `Config`
pub record Config : Type 0 where
  pub key_prefix : String
  pub ticket_ttl : ℕ
  pub payload_ttl : ℕ
  pub resource : String
  pub max_inflight_duration : ℕ
  pub reclaim_batch_size : ℕ

-- The fields of `Coordinator` that `NewCoordinator` sets for good, and whether one of the gauges of
-- `recordQueueMetrics` is there.
pub record Settings : Type 0 where
  pub key_prefix : String
  pub ticket_ttl : ℕ
  pub payload_ttl : ℕ
  pub resource : String
  pub reclaim_min_gap : ℕ
  pub max_inflight_age : ℕ
  pub reclaim_batch : ℕ
  pub gauges : Bool

abbrev pub minute : ℕ
minute = 60 * second

abbrev default_ticket_ttl : ℕ
default_ticket_ttl = 24 * 60 * minute

abbrev default_payload_ttl : ℕ
default_payload_ttl = 48 * 60 * minute

abbrev default_max_inflight_age : ℕ
default_max_inflight_age = 2 * minute

abbrev min_max_inflight_age : ℕ
min_max_inflight_age = 10 * second

abbrev default_reclaim_batch : ℕ
default_reclaim_batch = 32

abbrev max_reclaim_batch : ℕ
max_reclaim_batch = 32

abbrev pub queue_reclaim_min_interval : ℕ
queue_reclaim_min_interval = 2 * second

-- `strings.Trim(s, ":")`
trim_left_colons : String → String
trim_left_colons String.[] = String.[]
trim_left_colons (String.◌∷◌ c s) =
    let rest = trim_left_colons s in if code c == 58 then rest else String.◌∷◌ c s

push_colon : Char → String → String
push_colon c String.[] = if code c == 58 then String.[] else String.◌∷◌ c String.[]
push_colon c (String.◌∷◌ d s) = String.◌∷◌ c (String.◌∷◌ d s)

trim_right_colons : String → String
unfolding push_colon
trim_right_colons String.[] = String.[]
trim_right_colons (String.◌∷◌ c s) = push_colon c (trim_right_colons s)

trim_colons : String → String
unfolding trim_left_colons trim_right_colons
trim_colons s = trim_right_colons (trim_left_colons s)

positive_or : ℕ → ℕ → ℕ
positive_or fallback n = if n == 0 then fallback else n

text_or : String → String → String
text_or fallback s = if is_empty s then fallback else s

-- `NewCoordinator`, with a client that is not nil
unfoldable pub new_settings : Bool → Config → Settings
unfolding trim_colons trim_space positive_or text_or
new_settings gauges cfg =
    let prefix = text_or "operation" (trim_colons cfg.key_prefix) in
    let age = positive_or default_max_inflight_age cfg.max_inflight_duration in
    let batch = positive_or default_reclaim_batch cfg.reclaim_batch_size in
    record {
      key_prefix = prefix;
      ticket_ttl = positive_or default_ticket_ttl cfg.ticket_ttl;
      payload_ttl = positive_or default_payload_ttl cfg.payload_ttl;
      resource = text_or prefix (trim_space cfg.resource);
      reclaim_min_gap = queue_reclaim_min_interval;
      max_inflight_age = if ltb age min_max_inflight_age then min_max_inflight_age else age;
      reclaim_batch = if ltb max_reclaim_batch batch then max_reclaim_batch else batch;
      gauges = gauges;
    }

-- `queueKey`
unfoldable pub queue_key : String → String → String
unfolding trim_space text_or
queue_key key_prefix suffix =
    let trimmed_suffix = text_or "default" (trim_space suffix) in
    let prefix = trim_space key_prefix in
    if is_empty prefix
    then join "{queue}:" trimmed_suffix
    else join prefix (join ":{" (join prefix (join ":queue}:" trimmed_suffix)))

-- `compose` of two parts
unfoldable pub compose : String → String → String → String
compose key_prefix kind id =
    let joined = join kind (join ":" id) in
    if is_empty key_prefix then joined else join key_prefix (join ":" joined)
