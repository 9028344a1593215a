-- ===== src/Resolver/Events.antt =====
-- How events drop entries of the cache: `Invalidate` and `ProcessEvent` of
-- internal/resolver/resolver.go, and `handleQueueEvent` of internal/server/http.go.
use route_ans.Prelude.{Bool, ◌||◌, Option, Text, codes, text_eq, ok, err, if◌then◌else◌}
use route_ans.Ansname.Record.{AnsName, cache_key}
use route_ans.Ansname.Parse.{Url, parse}
use route_ans.Registry.Record.{Event}
use route_ans.Resolver.Store.{Store}
use route_ans.Resolver.Types.{State}

-- The cases of `ProcessEvent` that parse the name and drop its entry.
abbrev pub drops_entry : Text → Bool
drops_entry kind =
    text_eq kind (codes "revoked")
    || text_eq kind (codes "deprecated")
    || text_eq kind (codes "updated")

-- The cases of `handleQueueEvent` in internal/server/http.go.
abbrev pub queue_drops_entry : Text → Bool
queue_drops_entry kind =
    text_eq kind (codes "registered")
    || text_eq kind (codes "renewed")
    || text_eq kind (codes "revoked")
    || text_eq kind (codes "deprecated")
    || text_eq kind (codes "expired")

module _ {S : Type 0} (store : Store S) where
  -- `Invalidate`
  unfoldable pub invalidate : AnsName → State S → State S
  invalidate name s = record s { cache = store.drop_key (cache_key name) s.cache }

  -- `ProcessEvent`
  unfoldable pub process_event : (Text → Option Url) → Event → State S → State S
  process_event url_parse e s =
      if drops_entry e.kind
      then elim (parse url_parse e.ans_name) [ err _ ↦ s | ok name ↦ invalidate name s ]
      else s

  -- `handleQueueEvent` on an event's type and name: the key that it deletes is the name as written.
  unfoldable pub handle_queue_event : Text → Text → State S → State S
  handle_queue_event kind ans_name s =
      if queue_drops_entry kind then record s { cache = store.drop_key ans_name s.cache } else s
