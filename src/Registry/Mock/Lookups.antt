-- ===== src/Registry/Mock/Lookups.antt =====
-- Records made by `CreateMockRecord` are found under their names.
use mathlib.Core.List.{Memᴰ}
use route_ans.Prelude.{
  ℕ, ◌≡◌, refl, ap, ◌∙◌, true, subst, inl, inr, Bool-cases, Option, some, [], ◌∷◌, Text, text_eq,
  text_eq_refl, text_eq_iff, ok, arith, if◌then◌else◌,
}
use route_ans.Ansname.Patterns.{protocol_pattern}
use route_ans.Ansname.Record.{AnsName, string, fqdn}
use route_ans.Ansname.Parse.{Url, parse}
use route_ans.Ansname.Parse.RoundTrip.{Canonical, host_text}
use route_ans.Ansname.Parse.Canonical.{parse-string}
use route_ans.Cache.Table.{insert, lookup-insert}
use route_ans.Registry.Record.{Record}
use route_ans.Registry.Mock.{Records, add_record, lookup_record, records_of_fqdn}
use route_ans.Registry.Mock.Samples.{create_mock_record}

-- The record that is made of the parts of a name.
abbrev pub created : (ℕ → ℕ) → AnsName → Record
created clock a =
    create_mock_record clock a.protocol a.agent_name a.capability a.provider_id a.version
      a.extension

pub created-ans_name : (clock : ℕ → ℕ) (a : AnsName) → (created clock a).ans_name ≡ string a
unfolding create_mock_record string
created-ans_name clock a = refl

created-fqdn : (clock : ℕ → ℕ) (a : AnsName) → (created clock a).fqdn ≡ fqdn a
unfolding create_mock_record fqdn
created-fqdn clock a = refl

pub lookup-add_record :
    (r : Record) (m : Records) (name : AnsName)
    → lookup_record (add_record r m) name
      ≡ (if text_eq r.ans_name (string name) then ok r else lookup_record m name)
unfolding lookup_record add_record
lookup-add_record r m name = ground (arith, lookup-insert r.ans_name (string name) r m)

-- An entry that is written is listed under its FQDN.
mem-records_of_fqdn :
    (k : Text) (r : Record) (m : Records) → Memᴰ r (records_of_fqdn r.fqdn (insert k r m))
unfolding records_of_fqdn insert
mem-records_of_fqdn k r [] = rw (text_eq_refl r.fqdn) (Memᴰ.head refl)
mem-records_of_fqdn k r ((j, old) ∷ m) = elim (Bool-cases (text_eq j k)) [
  | inl same ↦ rw (same, records_of_fqdn, text_eq_refl r.fqdn) (Memᴰ.head refl)
  | inr other ↦ elim (Bool-cases (text_eq old.fqdn r.fqdn)) [
    | inl listed ↦ rw (other, records_of_fqdn, listed) (Memᴰ.tail (mem-records_of_fqdn k r m))
    | inr unlisted ↦ rw (other, records_of_fqdn, unlisted) (mem-records_of_fqdn k r m)
  ]
]

-- `CreateMockRecord` makes, from the parts of a canonical name and at any times, a record that the mock
-- registry, once it was added, returns for the name that its text is parsed to, if the URL parser reads
-- the scheme and the host from that text, and lists under the FQDN of that name; for every other text
-- the registry answers as before.
pub lookup-create_mock_record :
    (url_parse : Text → Option Url) (a other : AnsName) (clock : ℕ → ℕ) (m : Records)
    → protocol_pattern a.protocol ≡ true
    → Canonical a
    → url_parse (string a) ≡ some (record { scheme = a.protocol; host = host_text a; opaque = [] })
    → ((name : AnsName) × (parse url_parse (created clock a).ans_name ≡ ok name)
        × (lookup_record (add_record (created clock a) m) name ≡ ok (created clock a))
        × Memᴰ (created clock a) (records_of_fqdn (fqdn name) (add_record (created clock a) m)))
      × (lookup_record (add_record (created clock a) m) other ≡ (
          if text_eq (created clock a).ans_name (string other)
          then ok (created clock a)
          else lookup_record m other))
lookup-create_mock_record url_parse a other clock m p k reads =
    let made = created clock a in
    let name : AnsName = record a { raw = string a } in
    let same : string name ≡ string a = unfold string in refl in
    let fqdn_same : made.fqdn ≡ fqdn name = created-fqdn clock name in
    let found : text_eq made.ans_name (string name) ≡ true =
      (text_eq_iff made.ans_name (string name)).1 (cc (created-ans_name clock a, same)) in
    (
      (
        name,
        ap (parse url_parse) (created-ans_name clock a) ∙ parse-string url_parse a p k reads,
        lookup-add_record made m name ∙ ap (λ b. if b then ok made else lookup_record m name) found,
        subst (λ f. Memᴰ made (records_of_fqdn f (add_record made m))) fqdn_same
            (unfold add_record in mem-records_of_fqdn made.ans_name made m),
      ),
      lookup-add_record made m other,
    )
