-- ===== src/Registry/Godaddy/Events.antt =====
-- The events of the GoDaddy adapter: `fetchEvents`, `convertEvent` and `Subscribe` of
-- internal/registry/godaddy.go. The HTTP client and the decoding of JSON are parameters.
use route_ans.Prelude.{
  ℕ, Option, none, some, List, [], ◌∷◌, Text, codes, text_eq, ◌==◌, if◌then◌else◌,
}
use route_ans.Registry.Record.{Event}
use route_ans.Registry.Godaddy.{map_event_type}

-- `godaddyEvent`, without the fields that only go into the data of the event.
pub record GodaddyEvent : Type 0 where
  pub log_id : Text
  pub event_type : Text
  pub created_at : Text
  pub ans_name : Text
  pub agent_host : Text

-- `godaddyEventsResponse`
pub record EventsResponse : Type 0 where
  pub items : List GodaddyEvent
  pub last_log_id : Text

-- `convertEvent`, without its data
unfoldable pub convert_event : (Text → Option ℕ) → GodaddyEvent → Event
convert_event parse_time e = record {
  id = e.log_id;
  kind = map_event_type e.event_type;
  ans_name = e.ans_name;
  fqdn = e.agent_host;
  timestamp = elim (parse_time e.created_at) [ none ↦ 0 | some t ↦ t ];
  signature = [];
}

-- The query: the cursor is left out while it is empty.
abbrev pub events_query : Text → List (Text × Text)
events_query last =
    if text_eq last []
    then (codes "limit", codes "100") ∷ []
    else (codes "lastLogId", last) ∷ (codes "limit", codes "100") ∷ []

module _ (client : List (Text × Text) → Option (ℕ × Text))
    (decode : Text → Option EventsResponse) where
  abbrev pub events_of : Option (ℕ × Text) → Option EventsResponse
  events_of none = none
  events_of (some (code, body)) = if code == 200 then decode body else none

  -- `fetchEvents` with the limit 100 of `Subscribe`; `none` is an error.
  unfoldable pub fetch_events : Text → Option EventsResponse
  fetch_events last = events_of (client (events_query last))

-- The handler on each event in turn; its error is only logged.
unfoldable pub handle_events :
    {S : Type 0} → (Text → Option ℕ) → (Event → S → S) → List GodaddyEvent → S → S
handle_events parse_time handler [] s = s
handle_events parse_time handler (e ∷ events) s =
    handle_events parse_time handler events (handler (convert_event parse_time e) s)

-- A tick of `Subscribe` on what `fetchEvents` returned: the cursor moves to a last id that is not empty.
unfoldable pub tick :
    {S : Type 0} → (Text → Option ℕ) → (Event → S → S) → Option EventsResponse → Text × S → Text × S
tick parse_time handler none (last, s) = (last, s)
tick parse_time handler (some resp) (last, s) = (
  (if text_eq resp.last_log_id [] then last else resp.last_log_id),
  handle_events parse_time handler resp.items s,
)

-- `Subscribe` over ticks, on clients that may answer differently each time.
unfoldable pub subscribe :
    {S : Type 0}
    → (Text → Option ℕ)
    → (Event → S → S)
    → (Text → Option EventsResponse)
    → List (List (Text × Text) → Option (ℕ × Text))
    → Text × S
    → Text × S
subscribe parse_time handler decode [] p = p
subscribe parse_time handler decode (client ∷ clients) p =
    subscribe parse_time handler decode clients
      (tick parse_time handler (fetch_events client decode p.0) p)
