-- ===== src/Cache/Redis.antt =====
-- The Redis cache: internal/cache/redis.go. The Redis server and its client are a parameter, a state
-- with the commands that the code issues; so are the JSON encoder and decoder.
use route_ans.Prelude.{
  ℕ, suc, zero, Bool, Option, none, some, List, [], ◌∷◌, ◌++◌, Text, codes, text_eq, Result, ok,
  err, ltb, if◌then◌else◌, ◌*◌,
}
use route_ans.Prelude.Int.{ℤ, pos, ◌<ℤ◌}
use route_ans.Cache.Memory.{second}

-- `RedisOptions`
pub record RedisOptions : Type 0 where
  pub address : Text
  pub password : Text
  pub db : ℤ
  pub pool_size : ℤ
  pub min_idle_conns : ℤ
  pub dial_timeout : ℤ
  pub read_timeout : ℤ
  pub write_timeout : ℤ
  pub namespace : Text
  pub default_ttl : ℤ

-- `DefaultRedisOptions`
abbrev pub default_redis_options : RedisOptions
default_redis_options = record {
  address = codes "localhost:6379";
  password = [];
  db = pos 0;
  pool_size = pos 10;
  min_idle_conns = pos 2;
  dial_timeout = pos (5 * second);
  read_timeout = pos (3 * second);
  write_timeout = pos (3 * second);
  namespace = codes "ans:";
  default_ttl = pos (300 * second);
}

-- The commands, on the state `S` of a server; an error is its text. A scan goes on at the cursor that
-- it returns, and is over at cursor 0.
pub record Client (S : Type 0) : Type 0 where
  pub ping : S → Result Text (Unit {0})
  pub get_bytes : ℕ → Text → S → Result Text (Option Text)
  pub set_bytes : ℕ → Text → Text → ℤ → S → Result Text S
  pub del : List Text → S → Result Text S
  pub exists : ℕ → Text → S → Result Text ℕ
  pub scan : ℕ → Text → S → Result Text (List Text × ℕ)

-- What `Get` can return: a value that was not encoded, such as the memory cache returns, or the
-- generic value `J` that JSON decodes to.
pub data Cached (V J : Type 0) : Type 0 where
  typed : V → Cached V J
  decoded : J → Cached V J

-- `redisCache`
pub record RedisCache : Type 0 where
  pub namespace : Text
  pub default_ttl : ℤ

-- `key`
abbrev pub key : RedisCache → Text → Text
key c k = c.namespace ++ k

module _ {S : Type 0} (client : Client S) where
  -- `NewRedisCache`
  unfoldable pub new_redis_cache : RedisOptions → S → Result Text RedisCache
  new_redis_cache opts s = elim (client.ping s) [
    | err e ↦ err e
    | ok _ ↦ ok (record {
      namespace = if text_eq opts.namespace [] then codes "ans:" else opts.namespace;
      default_ttl = opts.default_ttl;
    })
  ]

  module _ {V J : Type 0} (marshal : V → Option Text) (unmarshal : Text → Option J) where
    abbrev pub decode : Option Text → Result Text (Option (Cached V J))
    decode none = ok none
    decode (some bytes) = elim (unmarshal bytes) [
      | none ↦ err (codes "failed to unmarshal value")
      | some j ↦ ok (some (decoded j))
    ]

    -- `Get`; a missing value is no error.
    unfoldable pub redis_get : RedisCache → ℕ → Text → S → Result Text (Option (Cached V J))
    redis_get c now k s = elim (client.get_bytes now (key c k) s) [
      | err e ↦ err e
      | ok found ↦ decode found
    ]

    -- `Set`
    unfoldable pub redis_set : RedisCache → ℕ → Text → V → ℤ → S → Result Text S
    redis_set c now k v ttl s = elim (marshal v) [
      | none ↦ err (codes "failed to marshal value")
      | some bytes ↦
          client.set_bytes now (key c k) bytes (if pos 0 <ℤ ttl then ttl else c.default_ttl) s
    ]

  -- `Delete`
  unfoldable pub redis_delete : RedisCache → Text → S → Result Text S
  redis_delete c k s = client.del (key c k ∷ []) s

  -- `Exists`
  unfoldable pub redis_exists : RedisCache → ℕ → Text → S → Result Text Bool
  redis_exists c now k s = elim (client.exists now (key c k) s) [
    | err e ↦ err e
    | ok n ↦ ok (ltb 0 n)
  ]

  -- The loop of `Clear` over the cursor; with the fuel spent, `none`.
  unfoldable pub scan_keys : ℕ → RedisCache → ℕ → List Text → S → Option (Result Text (List Text))
  scan_keys zero c cursor found s = none
  scan_keys (suc fuel) c cursor found s = elim (client.scan cursor (c.namespace ++ codes "*") s) [
    | err e ↦ some (err e)
    | ok (batch, zero) ↦ some (ok (found ++ batch))
    | ok (batch, suc more) ↦ scan_keys fuel c (suc more) (found ++ batch) s
  ]

  abbrev pub delete_found : List Text → S → Result Text S
  delete_found [] s = ok s
  delete_found (k ∷ ks) s = client.del (k ∷ ks) s

  -- `Clear`
  unfoldable pub redis_clear : ℕ → RedisCache → S → Option (Result Text S)
  redis_clear fuel c s = elim (scan_keys fuel c 0 [] s) [
    | none ↦ none
    | some (err e) ↦ some (err e)
    | some (ok found) ↦ some (delete_found found s)
  ]
