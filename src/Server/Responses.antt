-- ===== src/Server/Responses.antt =====
-- What the handlers answer, over a strict resolver.
use route_ans.Prelude.{
  ℕ, ◌≡◌, ◌↔◌, ◌⊎◌, inl, inr, refl, sym, subst, ap, ◌∙◌, false, Option, some, [], Text, codes,
  text_eq, text_eq_iff, Result, ok, err, arith, Bool-cases, Result-cases,
}
use route_ans.Models.{ResolutionRecord, status_active}
use route_ans.Ansname.Record.{AnsName, Error}
use route_ans.Ansname.Parse.{Url, parse}
use route_ans.Registry.Record.{Adapter}
use route_ans.Resolver.Store.{Store, StoreLaws}
use route_ans.Resolver.Types.{
  Config, State, Clock, ResolveError, agent_not_found, lookup_failed, verification_error,
  verification_failed, invalid_name, no_valid_candidates, negotiation_failed,
}
use route_ans.Resolver.Judge.{Verifier}
use route_ans.Resolver.Judge.Vouched.{Vouched, ResultVouched, Vouched-active}
use route_ans.Resolver.Request.Strict.{Clean, CleanStep, resolve-Clean, resolve_with_range-Clean}
use route_ans.Server.Handlers.{
  ResolutionResponse, Response, error_response, success, error_code, respond, resolve_query,
  answered, handle_resolve,
}

-- An answer with a record is the answer 200; the record is vouched for, and active.
pub record ResponseVouched (f : Verifier) (resp : Response ResolutionResponse) : Type 0 where
  pub served :
      {a : ResolutionResponse}
      → resp.body ≡ some a
      → (x : ResolutionRecord) × Vouched f x × (a ≡ success x) × (a.status ≡ status_active)
  pub ok_code : (resp.code ≡ 200) ↔ ((a : ResolutionResponse) × (resp.body ≡ some a))

refused-Vouched :
    (f : Verifier) (code : ℕ) → (code ≡ 200 → ⊥) → ResponseVouched f (error_response code)
refused-Vouched f code n = record {
  served = λ {a} e. cc;
  ok_code = (λ e. absurd (n e), λ p. cc (p.1));
}

-- An error of the resolver is answered 404, 422 or 500.
error_code_lem :
    (e : ResolveError) → (error_code e ≡ 404) ⊎ (error_code e ≡ 422) ⊎ (error_code e ≡ 500)
error_code_lem (agent_not_found name) = inl refl
error_code_lem lookup_failed = inr (inr refl)
error_code_lem (verification_error name) = inr (inr refl)
error_code_lem (verification_failed name status) = inr (inl refl)
error_code_lem (invalid_name name) = inr (inr refl)
error_code_lem no_valid_candidates = inr (inr refl)
error_code_lem (negotiation_failed name) = inr (inr refl)

-- The check of the status for revocation at the end of the handler never fires on an active record.
respond-active :
    (r : ResolutionRecord)
    → r.status ≡ status_active
    → respond (ok r) ≡ record { code = 200; body = some (success r) }
unfolding text_eq
respond-active r e = rw e refl

success-Vouched :
    (f : Verifier) (r : ResolutionRecord)
    → Vouched f r
    → ResponseVouched f (record { code = 200; body = some (success r) })
success-Vouched f r v = record {
  served = λ {a} e.
      let same : a ≡ success r = cc in (r, v, same, ap (λ x. x.status) same ∙ Vouched-active f r v);
  ok_code = (λ e. (success r, refl), λ p. refl);
}

respond-Vouched :
    (f : Verifier) (m : Result ResolveError ResolutionRecord)
    → ResultVouched f m
    → ResponseVouched f (respond m)
respond-Vouched f (err e) v = refused-Vouched f (error_code e) λ h. elim (error_code_lem e) [
  | inl a ↦ omega arith
  | inr (inl a) ↦ omega arith
  | inr (inr a) ↦ omega arith
]
respond-Vouched f (ok r) v =
    subst (ResponseVouched f) (sym (respond-active r (Vouched-active f r v)))
      (success-Vouched f r v)

ok_ne_bad : ◌≡◌ {A = ℕ} 200 400 → ⊥
ok_ne_bad h = omega arith

respond-ne_bad :
    (f : Verifier) (m : Result ResolveError ResolutionRecord)
    → ResultVouched f m
    → (respond m).code ≡ 400
    → ⊥
respond-ne_bad f (err e) v h = elim (error_code_lem e) [
  | inl a ↦ omega arith
  | inr (inl a) ↦ omega arith
  | inr (inr a) ↦ omega arith
]
respond-ne_bad f (ok r) v h =
    ok_ne_bad (ap (λ resp. resp.code) (sym (respond-active r (Vouched-active f r v))) ∙ h)

module _ (cfg : Config) (f : Verifier) (strict : cfg.verification_mode ≡ codes "strict")
    {S : Type 0} (store : Store S) (laws : StoreLaws store) (registry : Adapter)
    (url_parse : Text → Option Url) where
  resolve_query-Clean :
      (clock : Clock) (latency : ℕ) (name : AnsName) (range : Text) (s : State S)
      → Clean cfg f strict store laws s.cache
      → CleanStep cfg f strict store laws
          (resolve_query cfg (some f) store registry url_parse clock latency name range s)
  resolve_query-Clean clock latency name range s v = elim (Bool-cases (text_eq range [])) [
    | inl bare ↦ rw bare (resolve-Clean cfg f strict store laws registry clock name s v)
    | inr given ↦ rw given (
        resolve_with_range-Clean cfg f strict store laws registry url_parse clock latency name range
          s v)
  ]

  -- What is promised of an answer to the name `text`.
  abbrev pub Answered : Text → State S × Response ResolutionResponse → Type 0
  Answered text p =
      Clean cfg f strict store laws p.0.cache
      × ResponseVouched f p.1
      × ((p.1.code ≡ 400) ↔ ((text ≡ []) ⊎ ((e : Error) × (parse url_parse text ≡ err e))))

  answered-Answered :
      (text : Text) (name : AnsName) (p : State S × Result ResolveError ResolutionRecord)
      → text_eq text [] ≡ false
      → parse url_parse text ≡ ok name
      → CleanStep cfg f strict store laws p
      → Answered text (answered p)
  answered-Answered text name (s, m) given read (clean, v) = (
    clean,
    respond-Vouched f m v,
    (
      λ h. absurd (respond-ne_bad f m v h),
      elim [ inl empty ↦ ground (arith, text_eq_iff text []) | inr (e, bad) ↦ cc ],
    ),
  )

  handle_resolve_read :
      (clock : Clock) (latency : ℕ) (text range : Text) (s : State S) (name : AnsName)
      → text_eq text [] ≡ false
      → parse url_parse text ≡ ok name
      → handle_resolve cfg (some f) store registry url_parse clock latency text range s
        ≡ answered (resolve_query cfg (some f) store registry url_parse clock latency name range s)
  unfolding handle_resolve
  handle_resolve_read clock latency text range s name given read = rw (given, read) refl

  -- A strict server with a verifier on a clean cache answers `GET /v1/resolve` with status code 200
  -- exactly if the answer has a record, which then is an active record that is vouched for; with 400
  -- exactly if the name is missing or cannot be parsed; and the cache stays clean.
  pub handle_resolve-Vouched :
      (clock : Clock) (latency : ℕ) (text range : Text) (s : State S)
      → Clean cfg f strict store laws s.cache
      → Answered text
          (handle_resolve cfg (some f) store registry url_parse clock latency text range s)
  unfolding handle_resolve
  handle_resolve-Vouched clock latency text range s v = elim (Bool-cases (text_eq text [])) [
    | inl bare ↦
        rw (bare, handle_resolve)
          (
            v,
            refused-Vouched f 400 (λ h. omega arith),
            (λ h. inl ((text_eq_iff text []).0 bare), λ h. refl),
          )
    | inr given ↦ elim (Result-cases (parse url_parse text)) [
      | inl (name, read) ↦
          subst (Answered text)
            (sym (handle_resolve_read clock latency text range s name given read))
            (answered-Answered text name
              (resolve_query cfg (some f) store registry url_parse clock latency name range s) given
              read (resolve_query-Clean clock latency name range s v))
      | inr (x, unread) ↦
          rw (given, unread, handle_resolve)
            (v, refused-Vouched f 400 (λ h. omega arith), (λ h. inr (x, refl), λ h. refl))
    ]
  ]
