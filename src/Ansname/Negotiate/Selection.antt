-- ===== src/Ansname/Negotiate/Selection.antt =====
-- What `NegotiateVersion` returns, and when it fails.
use route_ans.Prelude.{
  ◌≡◌, refl, ap, sym, subst, ◌⊎◌, inl, inr, ◌↔◌, Bool, true, false, List, [], ◌∷◌, Text, Result, ok,
  err, arith, All, Bool-cases, >>=-elim,
}
use route_ans.Ansname.Record.{AnsName, Error}
use route_ans.Ansname.Semver.{Semver, is_newer_than, version_components, newer}
use route_ans.Ansname.Range.{VersionRange, parse_version_range, matches}
use route_ans.Ansname.Negotiate.{holds, matching, newest, first_newest, negotiate_version}
use route_ans.Ansname.Negotiate.Order.{newer_irrefl, newer_trans_not, newer_trans}

-- The candidate stands in the list.
abbrev pub Among : AnsName → List AnsName → Type 0
Among a [] = ⊥
Among a (c ∷ cs) = (a ≡ c) ⊎ Among a cs

-- The version of a candidate is not newer than that of `best`.
abbrev pub NotNewer : AnsName → AnsName → Type 0
NotNewer best c = is_newer_than c best ≡ ok false

-- The range matches the candidate.
abbrev pub Fits : VersionRange → AnsName → Type 0
Fits r c = matches r c ≡ ok true

abbrev Readable : AnsName → Type 0
Readable c = (v : Semver) × (version_components c ≡ ok v)

holds-eq-true : (x : Result Error Bool) → holds x ≡ true → x ≡ ok true
unfolding holds
holds-eq-true (ok b) h = ground arith
holds-eq-true (err e) h = cc

-- `matching` keeps exactly the candidates that fit.
matching_sound :
    (r : VersionRange) (a : AnsName) (cs : List AnsName)
    → Among a (matching r cs)
    → Among a cs × Fits r a
unfolding matching
matching_sound r a [] h = absurd h
matching_sound r a (c ∷ cs) h = elim (Bool-cases (holds (matches r c))) [
  | inl fits ↦ kept (rw fits at h) (matching_sound r a cs) (holds-eq-true _ fits)
  | inr unfit ↦ let (among, good) = matching_sound r a cs (rw unfit at h) in (inr among, good)
]
  where
    kept :
        Among a (c ∷ matching r cs)
        → (Among a (matching r cs) → Among a cs × Fits r a)
        → Fits r c
        → Among a (c ∷ cs) × Fits r a
    kept (inl e) ih good = (inl e, rw e good)
    kept (inr m) ih good = let (among, fit) = ih m in (inr among, fit)

matching_complete :
    (r : VersionRange) (a : AnsName) (cs : List AnsName)
    → Among a cs
    → Fits r a
    → Among a (matching r cs)
unfolding matching holds
matching_complete r a [] h fits = absurd h
matching_complete r a (c ∷ cs) (inl e) fits = rw (← e, fits) (inl refl)
matching_complete r a (c ∷ cs) (inr m) fits =
    let ih = matching_complete r a cs m fits in
    elim (Bool-cases (holds (matches r c))) [ inl good ↦ rw good (inr ih) | inr bad ↦ rw bad ih ]

Fits-Readable : (r : VersionRange) (c : AnsName) → Fits r c → Readable c
unfolding matches
Fits-Readable r c h = >>=-elim (version_components c) _ h λ v e _. (v, e)

All-Readable :
    (r : VersionRange) (cs : List AnsName)
    → ((a : AnsName) → Among a cs → Fits r a)
    → All Readable cs
All-Readable r [] h = tt
All-Readable r (c ∷ cs) h =
    (Fits-Readable r c (h c (inl refl)), All-Readable r cs (λ a m. h a (inr m)))

-- What the loop keeps: a member of the list that none of it is newer than.
record Newest (w : Semver) (n b : AnsName) (cs : List AnsName) : Type 0 where
  member : Among n (b ∷ cs)
  reads : version_components n ≡ ok w
  upper :
      (c : AnsName) (u : Semver)
      → Among c (b ∷ cs)
      → version_components c ≡ ok u
      → newer u w ≡ false

not_newer_of_newer : (u v : Semver) → newer u v ≡ true → newer v u ≡ false
not_newer_of_newer u v h = elim (Bool-cases (newer v u)) [
  | inl back ↦ cc (newer_irrefl u, newer_trans u v u h back)
  | inr no_more ↦ no_more
]

-- `b` gives way to a newer `c`
Newest-take :
    {w u v : Semver} {n b c : AnsName} {cs : List AnsName}
    → version_components b ≡ ok v
    → version_components c ≡ ok u
    → newer u v ≡ true
    → Newest w n c cs
    → Newest w n b (c ∷ cs)
Newest-take {w} {u} {v} {n} {b} {c} {cs} e k above ih = record {
  member = inr ih.member;
  reads = ih.reads;
  upper = go;
}
  where
    go :
        (x : AnsName) (t : Semver)
        → Among x (b ∷ c ∷ cs)
        → version_components x ≡ ok t
        → newer t w ≡ false
    go x t (inl same) p =
        let low =
          newer_trans_not w u v (ih.upper c u (inl refl) k) (not_newer_of_newer u v above) in
        cc (low, p, e, same)
    go x t (inr m) p = ih.upper x t m p

-- `b` stays before a `c` that is not newer
Newest-keep :
    {w u v : Semver} {n b c : AnsName} {cs : List AnsName}
    → version_components b ≡ ok v
    → version_components c ≡ ok u
    → newer u v ≡ false
    → Newest w n b cs
    → Newest w n b (c ∷ cs)
Newest-keep {w} {u} {v} {n} {b} {c} {cs} e k below ih = record {
  member = later ih.member;
  reads = ih.reads;
  upper = go;
}
  where
    later : Among n (b ∷ cs) → Among n (b ∷ c ∷ cs)
    later (inl same) = inl same
    later (inr m) = inr (inr m)

    go :
        (x : AnsName) (t : Semver)
        → Among x (b ∷ c ∷ cs)
        → version_components x ≡ ok t
        → newer t w ≡ false
    go x t (inl same) p = ih.upper x t (inl same) p
    go x t (inr (inl same)) p =
        cc (newer_trans_not w v u (ih.upper b v (inl refl) e) below, p, k, same)
    go x t (inr (inr m)) p = ih.upper x t (inr m) p

Newest-single : {v : Semver} (b : AnsName) → version_components b ≡ ok v → Newest v b b []
Newest-single {v} b e = record { member = inl refl; reads = e; upper = go }
  where
    go :
        (x : AnsName) (t : Semver)
        → Among x (b ∷ [])
        → version_components x ≡ ok t
        → newer t v ≡ false
    go x t (inl same) p = cc (newer_irrefl v, p, e, same)
    go x t (inr m) p = absurd m

newest-Newest :
    (b : AnsName) {v : Semver} (cs : List AnsName)
    → version_components b ≡ ok v
    → All Readable cs
    → (w : Semver) × Newest w (newest b cs) b cs
unfolding newest is_newer_than holds
newest-Newest b {v} [] e _ = (v, Newest-single b e)
newest-Newest b {v} (c ∷ cs) e ((u, k), more) = elim (Bool-cases (newer u v)) [
  | inl above ↦
      let (w, ih) = newest-Newest c cs k more in (w, rw (k, e, above) (Newest-take e k above ih))
  | inr below ↦
      let (w, ih) = newest-Newest b cs e more in (w, rw (k, e, below) (Newest-keep e k below ih))
]

Newest-NotNewer :
    {w : Semver} {n b c : AnsName} {cs : List AnsName}
    → Newest w n b cs
    → Among c (b ∷ cs)
    → Readable c
    → NotNewer n c
unfolding is_newer_than
Newest-NotNewer {c} top m (u, k) = rw (k, top.reads) (ap ok (top.upper c u m k))

-- What a successful negotiation promises of its result.
pub record Selected (range : Text) (cs : List AnsName) (best : AnsName) : Type 0 where
  pub bounds : VersionRange
  pub parsed : parse_version_range range ≡ ok bounds
  pub candidate : Among best cs
  pub fits : Fits bounds best
  pub greatest : (c : AnsName) → Among c cs → Fits bounds c → NotNewer best c

select :
    (range : Text) (r : VersionRange) (cs l : List AnsName) {best : AnsName}
    → parse_version_range range ≡ ok r
    → matching r cs ≡ l
    → first_newest l ≡ ok best
    → Selected range cs best
select range r cs [] parsed e h = cc
select range r cs (b ∷ l) {best} parsed e h = record {
  bounds = r;
  parsed = parsed;
  candidate = (good best member).0;
  fits = (good best member).1;
  greatest = λ c m fits. rw (← picked) (
      Newest-NotNewer top (subst (Among c) e (matching_complete r c cs m fits))
        (Fits-Readable r c fits));
}
  where
    good : (a : AnsName) → Among a (b ∷ l) → Among a cs × Fits r a
    good a m = matching_sound r a cs (subst (Among a) (sym e) m)

    readable : All Readable (b ∷ l)
    readable = All-Readable r (b ∷ l) (λ a m. (good a m).1)

    top : Newest (newest-Newest b l (readable.0).1 readable.1).0 (newest b l) b l
    top = (newest-Newest b l (readable.0).1 readable.1).1

    picked : newest b l ≡ best
    picked = ground arith

    member : Among best (b ∷ l)
    member = subst (λ a. Among a (b ∷ l)) picked top.member

-- A version that is negotiated is one of the candidates, fits the range that the text stands for,
-- and no candidate that fits has a newer version.
pub negotiate_version-Selected :
    (cs : List AnsName) (range : Text) {best : AnsName}
    → negotiate_version cs range ≡ ok best
    → Selected range cs best
unfolding negotiate_version
negotiate_version-Selected [] range h = cc
negotiate_version-Selected (c ∷ cs) range h =
    >>=-elim (parse_version_range range) _ h λ r e k. select range r (c ∷ cs) _ e refl k

first_newest_total :
    (a : AnsName) (l : List AnsName) → Among a l → (best : AnsName) × (first_newest l ≡ ok best)
first_newest_total a [] m = absurd m
first_newest_total a (b ∷ l) m = (newest b l, refl)

-- When the range can be read, a negotiation succeeds exactly when some candidate fits it.
pub negotiate_version-succeeds_iff :
    (cs : List AnsName) (range : Text) (r : VersionRange)
    → parse_version_range range ≡ ok r
    → ((best : AnsName) × (negotiate_version cs range ≡ ok best))
      ↔ ((c : AnsName) × Among c cs × Fits r c)
negotiate_version-succeeds_iff cs range r e = (found cs, exists cs)
  where
    found :
        (l : List AnsName)
        → ((best : AnsName) × (negotiate_version l range ≡ ok best))
        → (c : AnsName) × Among c l × Fits r c
    found l (best, h) =
        let s = negotiate_version-Selected l range h in
        let same : s.bounds ≡ r = cc (s.parsed, e) in
        (best, s.candidate, subst (λ t. Fits t best) same s.fits)

    exists :
        (l : List AnsName)
        → ((c : AnsName) × Among c l × Fits r c)
        → (best : AnsName) × (negotiate_version l range ≡ ok best)
    exists [] (c, m, fits) = absurd m
    exists (b ∷ l) (c, m, fits) =
        let (best, h) = first_newest_total c _ (matching_complete r c (b ∷ l) m fits) in
        (best, unfold negotiate_version in rw e h)
