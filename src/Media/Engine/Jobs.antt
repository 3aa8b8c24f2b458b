-- ===== src/Media/Engine/Jobs.antt =====
-- The jobs of a history of requests.
use p2p_hls.Prelude.{
  ℕ, ◌≡◌, ◌≢◌, ◌⊎◌, refl, sym, ap, subst, ◌∙◌, GoString, Bool, true, false, if◌then◌else◌, ◌==◌,
  ==_refl, string_eq, List, [], ◌∷◌, Option, none, some, lookup, lookup-insert, insert, In,
  Distinct, Bool-cases, Option-cases, inl, inr, arith,
}
use p2p_hls.Party.Types.{NodeId}
use p2p_hls.Catalog.{Policy, allowed}
use p2p_hls.Peer.Errors.{PeerError}
use p2p_hls.Peer.Session.{Result, ok, err}
use p2p_hls.Media.Engine.{
  Job, Jobs, Outside, new_job, start_job, lookup_title, ensure_job, finish, with_job, file,
  remote_file,
}

-- A remote node's request under the policy of that time, one of the owner, and the end of a job.
pub data MediaEvent (T : Type 0) : Type 0 where
  remote_asks : Policy → NodeId → GoString → GoString → Outside T → MediaEvent T
  owner_asks : GoString → GoString → Outside T → MediaEvent T
  finishes : GoString → MediaEvent T

module _ {T : Type 0} where
  -- A request for the Title, of the owner or of a node that is allowed, that finds it in the store.
  abbrev pub AsksFor : MediaEvent T → GoString → Type 0
  AsksFor (remote_asks policy remote id name o) k =
      (id ≡ k) × (allowed policy remote ≡ true) × ((t : T) × (o.stored ≡ ok (some t)))
  AsksFor (owner_asks id name o) k = (id ≡ k) × ((t : T) × (o.stored ≡ ok (some t)))
  AsksFor (finishes id) k = ⊥

  abbrev pub AnyAsksFor : List (MediaEvent T) → GoString → Type 0
  AnyAsksFor [] k = ⊥
  AnyAsksFor (e ∷ es) k = AsksFor e k ⊎ AnyAsksFor es k

  -- A request's job: none is started, or one for a Title that had none and is in the store.
  data Starts (jobs : Jobs T) (id : GoString) (o : Outside T) : Jobs T → Bool → Type 0 where
    stays : {jobs' : Jobs T} {b : Bool} → jobs' ≡ jobs → b ≡ false → Starts jobs id o jobs' b
    starts :
        {jobs' : Jobs T} {b : Bool} (t : T)
        → lookup id jobs ≡ none
        → o.stored ≡ ok (some t)
        → jobs' ≡ insert id (new_job t) jobs
        → b ≡ true
        → Starts jobs id o jobs' b

  lookup_title-Starts :
      (jobs : Jobs T) (id : GoString) (o : Outside T) (r : Result (Option T)) (m : Option PeerError)
      → lookup id jobs ≡ none
      → o.stored ≡ r
      → (let (jobs', b, j) = lookup_title jobs id r m in Starts jobs id o jobs' b)
  unfolding lookup_title start_job
  lookup_title-Starts jobs id o (err e) m a s = stays refl refl
  lookup_title-Starts jobs id o (ok none) m a s = stays refl refl
  lookup_title-Starts jobs id o (ok (some t)) (some e) a s = stays refl refl
  lookup_title-Starts jobs id o (ok (some t)) none a s = starts t a s refl refl

  ensure_job-Starts :
      (jobs : Jobs T) (id : GoString) (o : Outside T)
      → (let (jobs', b, j) = ensure_job jobs id o in Starts jobs id o jobs' b)
  unfolding ensure_job
  ensure_job-Starts jobs id o = elim (Option-cases (lookup id jobs)) [
    | inr (j, e) ↦ rw (e, ensure_job) (stays refl refl)
    | inl e ↦ rw (e, ensure_job) (lookup_title-Starts jobs id o o.stored o.mkdir e refl)
  ]

  module _ (master : T → List ℕ) (subtitle : GoString → List ℕ) (inject : List ℕ → List ℕ) where
    file-Starts :
        (jobs : Jobs T) (id name : GoString) (o : Outside T)
        → (let (jobs', b, r) = file master subtitle inject jobs id name o in
            Starts jobs id o jobs' b)
    unfolding file with_job
    file-Starts jobs id name o = through (ensure_job jobs id o) (ensure_job-Starts jobs id o)
      where
        through :
            (x : Jobs T × Bool × Result (Job T))
            → (let (jobs', b, j) = x in Starts jobs id o jobs' b)
            → (let (jobs', b, r) = with_job master subtitle inject name o.read x in
                Starts jobs id o jobs' b)
        through (jobs', b, err e) s = s
        through (jobs', b, ok j) s = s

    -- One event: the jobs, and the id of a job that starts.
    unfoldable pub media_step : Jobs T → MediaEvent T → Jobs T × Option GoString
    media_step jobs (remote_asks policy remote id name o) =
        let (jobs', b, r) = remote_file master subtitle inject policy remote jobs id name o in
        (jobs', if b then some id else none)
    media_step jobs (owner_asks id name o) =
        let (jobs', b, r) = file master subtitle inject jobs id name o in
        (jobs', if b then some id else none)
    media_step jobs (finishes id) = (finish id jobs, none)

    -- The jobs that a history starts.
    abbrev pub started_then : Option GoString → List GoString → List GoString
    started_then none ids = ids
    started_then (some id) ids = id ∷ ids

    unfoldable pub media_run : Jobs T → List (MediaEvent T) → List GoString
    media_run jobs [] = []
    media_run jobs (e ∷ es) =
        let (jobs', s) = media_step jobs e in started_then s (media_run jobs' es)

    -- What one event does to the Title `k`.
    data Moves (jobs : Jobs T) (e : MediaEvent T) : Jobs T → Option GoString → Type 0 where
      keeps :
          {jobs' : Jobs T} {s : Option GoString}
          → s ≡ none
          → ((k : GoString) → lookup k jobs' ≡ none → lookup k jobs ≡ none)
          → Moves jobs e jobs' s
      begins :
          {jobs' : Jobs T} {s : Option GoString} (id : GoString)
          → s ≡ some id
          → lookup id jobs ≡ none
          → AsksFor e id
          → lookup id jobs' ≢ none
          → ((k : GoString) → lookup k jobs' ≡ none → lookup k jobs ≡ none)
          → Moves jobs e jobs' s

    insert-none :
        (jobs : Jobs T) (id k : GoString) (j : Job T)
        → lookup k (insert id j jobs) ≡ none
        → lookup k jobs ≡ none
    insert-none jobs id k j h =
        let l = lookup-insert id k j jobs in
        elim (Bool-cases (id == k)) [
          | inl q ↦ let no : some j ≡ none = sym (l ∙ rw q refl) ∙ h in ground arith
          | inr q ↦ sym (l ∙ rw q refl) ∙ h
        ]

    finish-none :
        (jobs : Jobs T) (id k : GoString) → lookup k (finish id jobs) ≡ none → lookup k jobs ≡ none
    unfolding finish
    finish-none jobs id k = elim (Option-cases (lookup id jobs)) [
      | inl e ↦ rw (e, finish) (λ h. h)
      | inr (j, e) ↦ rw (e, finish) (insert-none jobs id k (record j { complete = true }))
    ]

    Starts-Moves :
        (jobs : Jobs T) (e : MediaEvent T) (id : GoString) (o : Outside T) (jobs' : Jobs T)
        (b : Bool)
        → ((t : T) → o.stored ≡ ok (some t) → AsksFor e id)
        → Starts jobs id o jobs' b
        → Moves jobs e jobs' (if b then some id else none)
    Starts-Moves jobs e id o jobs' b asks (stays p q) =
        keeps (rw q refl) (λ k h. sym (ap (lookup k) p) ∙ h)
    Starts-Moves jobs e id o jobs' b asks (starts t a s p q) =
        begins id (rw q refl) a (asks t s)
          (λ h.
            let l = ap (lookup id) p ∙ lookup-insert id id (new_job t) jobs in
            let no : some (new_job t) ≡ none = sym (l ∙ rw (==_refl id) refl) ∙ h in ground arith)
          (λ k h. insert-none jobs id k (new_job t) (sym (ap (lookup k) p) ∙ h))

    media_step-Moves :
        (jobs : Jobs T) (e : MediaEvent T)
        → (let (jobs', s) = media_step jobs e in Moves jobs e jobs' s)
    unfolding media_step remote_file
    media_step-Moves jobs (finishes id) = keeps refl (λ k. finish-none jobs id k)
    media_step-Moves jobs (owner_asks id name o) =
        Starts-Moves jobs (owner_asks id name o) id o (file master subtitle inject jobs id name o).0
          (file master subtitle inject jobs id name o).1 (λ t s. (refl, (t, s)))
          (file-Starts jobs id name o)
    media_step-Moves jobs (remote_asks policy remote id name o) =
        elim (Bool-cases (allowed policy remote)) [
          | inr q ↦ rw (q, remote_file) (keeps refl (λ k h. h))
          | inl q ↦
              rw (q, remote_file)
                (Starts-Moves jobs (remote_asks policy remote id name o) id o
                  (file master subtitle inject jobs id name o).0
                  (file master subtitle inject jobs id name o).1 (λ t s. (refl, q, (t, s)))
                  (file-Starts jobs id name o))
        ]

    -- One event before a history that starts the jobs `ids`.
    extended :
        {jobs jobs' : Jobs T} (e : MediaEvent T) (es : List (MediaEvent T)) {s : Option GoString}
        (ids : List GoString)
        → Moves jobs e jobs' s
        → Distinct ids
        → ((k : GoString) → In k ids → (lookup k jobs' ≡ none) × AnyAsksFor es k)
        → Distinct (started_then s ids)
          × ((k : GoString)
              → In k (started_then s ids)
              → (lookup k jobs ≡ none) × AnyAsksFor (e ∷ es) k)
    extended {jobs} e es ids (keeps p mono) d f =
        rw p (d, (λ k i. (mono k (f k i).0, inr (f k i).1)))
    extended {jobs} e es ids (begins id p a asks there mono) d f = rw p (
      ((λ i. there (f id i).0), d),
      (λ k i. elim i [
        | inl q ↦ (subst (λ x. lookup x jobs ≡ none) q a, inl (subst (AsksFor e) q asks))
        | inr r ↦ (mono k (f k r).0, inr (f k r).1)
      ]),
    )

    -- A rendition is produced by one job. Over every history of requests of the owner and of remote
    -- nodes, under policies that may change between them and with any answers of the store and the
    -- file system, and of jobs that end, no Title has a job started for it twice; and each job that is
    -- started is for a Title without one, asked for by the owner or by a node that the policy of that
    -- time allows, and found in the store: a node that is not allowed starts no job.
    pub media_run-Distinct :
        (jobs : Jobs T) (es : List (MediaEvent T))
        → Distinct (media_run jobs es)
          × ((k : GoString) → In k (media_run jobs es) → (lookup k jobs ≡ none) × AnyAsksFor es k)
    unfolding media_run
    media_run-Distinct jobs [] = (tt, (λ k i. elim i [ ]))
    media_run-Distinct jobs (e ∷ es) =
        let (jobs', s) = media_step jobs e in
        let ih = media_run-Distinct jobs' es in
        extended e es (media_run jobs' es) (media_step-Moves jobs e) ih.0 ih.1
