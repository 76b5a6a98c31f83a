-- ===== src/Actions/Requests.antt =====
-- What the actions on a container request, and when.
use app_dockhand.Jobs.Track.{track_job, verdict, prefixes_of, finish, announce}
use app_dockhand.Base.{
  txt, ◌++◌, List, ◌≡◌, ◌&&◌, ◌≤◌, if◌then◌else◌, not, ap, ℕ, length, arith, replicate, Bool-cases,
  inl, suc, inr, ◌∙◌, ltb,
}
use app_dockhand.Types.Jobs.{JobStatus}
use mathlib.Core.List.{append-nil}
use app_dockhand.Jobs.Track.{job_id, rejected, Effect, poll_loop, settle, TrackOptions}
use mathlib.Core.List.{[]}
use mathlib.Core.Option.{none}
use app_dockhand.Jobs.{answered, missed, job_is}
use app_dockhand.Jobs.Track.Outcome.{first_finished, misses_in, track_job-first_finished}
use app_dockhand.Base.{refl}
use app_dockhand.Actions.{
  update_container, remove_container, ActionEffect, Effect, Text, refresh, ◌∷◌, map, Container, act,
  ask, page, Bool, request, Answer, Reply, delete, [], Job, is_accepted, some, container_path, true,
  refused, false, accepted, update_options, Option, Started, tracked,
}
use mathlib.Core.Bool.{false}

-- All paths that are requested, those of the polls of a job among them.
abbrev pub requests : List ActionEffect → List Text
requests [] = []
requests (ask t rows ∷ es) = requests es
requests (request p ∷ es) = p ∷ requests es
requests (delete p ∷ es) = p ∷ requests es
requests (page (Effect.fetch p) ∷ es) = p ∷ requests es
requests (page (Effect.toast kind title text) ∷ es) = requests es
requests (page (Effect.sleep n) ∷ es) = requests es
requests (page (Effect.invalidate p) ∷ es) = requests es
requests (page (Effect.on_done job) ∷ es) = requests es

-- What a job requests.
abbrev fetches : List Effect → List Text
fetches es = requests (map page es)

fetches-append : (es fs : List Effect) → fetches (es ++ fs) ≡ fetches es ++ fetches fs
fetches-append [] fs = refl
fetches-append (Effect.fetch p ∷ es) fs = ap (λ t. p ∷ t) (fetches-append es fs)
fetches-append (Effect.toast kind title text ∷ es) fs = fetches-append es fs
fetches-append (Effect.sleep n ∷ es) fs = fetches-append es fs
fetches-append (Effect.invalidate p ∷ es) fs = fetches-append es fs
fetches-append (Effect.on_done job ∷ es) fs = fetches-append es fs

fetches-invalidate :
    (ps : List Text) (es : List Effect) → fetches (map Effect.invalidate ps ++ es) ≡ fetches es
fetches-invalidate [] es = refl
fetches-invalidate (p ∷ ps) es = fetches-invalidate ps es

-- At most as many polls as there are answers, all of one job.
abbrev IsPolled : Text → List Answer → List Effect → Type 0
IsPolled path answers es = (k : ℕ) × (k ≤ length answers) × (fetches es ≡ replicate k path)

poll_loop-IsPolled :
    (path : Text) (job : Option Job) (misses : ℕ) (answers : List Answer)
    → IsPolled path answers (poll_loop path job misses answers).0
unfolding poll_loop
poll_loop-IsPolled path job misses [] = (0, omega arith, refl)
poll_loop-IsPolled path job misses (answered j ∷ rest) =
    elim (Bool-cases (job_is j.status JobStatus.running)) [
      | inl y ↦
          let (k, l, e) = poll_loop-IsPolled path (some j) 0 rest in
          rw y (suc k, omega arith, ap (λ t. path ∷ t) e)
      | inr y ↦ rw y (1, omega arith, refl)
    ]
poll_loop-IsPolled path job misses (missed ∷ rest) = elim (Bool-cases (ltb 20 (suc misses))) [
  | inl y ↦ rw y (1, omega arith, refl)
  | inr y ↦
      let (k, l, e) = poll_loop-IsPolled path job (suc misses) rest in
      rw y (suc k, omega arith, ap (λ t. path ∷ t) e)
]

fetches-verdict :
    (opts : TrackOptions) (job : Job) (es : List Effect)
    → fetches (verdict opts job ∷ es) ≡ fetches es
unfolding verdict
fetches-verdict opts job es = elim (Bool-cases (job_is job.status JobStatus.success)) [
  | inl y ↦ rw y
  | inr y ↦ rw y
]

fetches-on_done : (b : Bool) (job : Job) → fetches (if b then Effect.on_done job ∷ [] else []) ≡ []
fetches-on_done true job = refl
fetches-on_done false job = refl

fetches-settle : (opts : TrackOptions) (job : Option Job) → fetches (settle opts job) ≡ []
unfolding settle
fetches-settle opts none = fetches-invalidate (prefixes_of opts) _
fetches-settle opts (some job) =
    fetches-invalidate (prefixes_of opts) _
    ∙ fetches-verdict opts job _
    ∙ fetches-on_done opts.has_on_done job

fetches-finish :
    (opts : TrackOptions) (es : List Effect) (o : Option (Option Job))
    → fetches (finish opts es o).0 ≡ fetches es
fetches-finish opts es none = refl
fetches-finish opts es (some job) =
    fetches-append es (settle opts job)
    ∙ ap (λ t. fetches es ++ t) (fetches-settle opts job)
    ∙ append-nil (fetches es)

fetches-announce :
    (opts : TrackOptions) (es : List Effect) → fetches (announce opts ++ es) ≡ fetches es
fetches-announce opts es = elim (Bool-cases opts.quiet) [ inl y ↦ rw y | inr y ↦ rw y ]

-- The polls of a job, which there are none of if it does not start.
abbrev pub polls_of : Started → ℕ → List Text
polls_of (rejected message) k = []
polls_of (job_id id) k = replicate k (txt "/api/jobs/" ++ id)

fetches-track_job :
    (started : Started) (opts : TrackOptions) (answers : List Answer)
    → (k : ℕ) × (k ≤ length answers)
      × (fetches (track_job started opts answers).0 ≡ polls_of started k)
unfolding track_job
fetches-track_job (rejected message) opts answers = (0, omega arith, refl)
fetches-track_job (job_id id) opts answers =
    let (es, r) = poll_loop (txt "/api/jobs/" ++ id) none 0 answers in
    let (k, l, e) = poll_loop-IsPolled (txt "/api/jobs/" ++ id) none 0 answers in
    (k, l, fetches-finish opts (announce opts ++ es) r ∙ fetches-announce opts es ∙ e)

polled :
    (host : Text) (c : Container) (started : Started) (answers : List Answer)
    → let (es, r) = track_job started (update_options host c) answers in
      (k : ℕ) × (k ≤ length answers)
      × (requests (tracked (container_path host c ++ txt "/update") (es, r)).0
          ≡ (container_path host c ++ txt "/update") ∷ polls_of started k)
polled host c started answers =
    let (k, l, e) = fetches-track_job started (update_options host c) answers in
    (k, l, ap (λ t. (container_path host c ++ txt "/update") ∷ t) e)

finished :
    (host : Text) (c : Container) (started : Started) (answers : List Answer) (id : Text) (j : Job)
    → started ≡ job_id id
    → misses_in answers ≤ 20
    → first_finished answers ≡ some j
    → (track_job started (update_options host c) answers).1 ≡ some (some j)
finished host c started answers id j s m f =
    ap (λ (t : Started). (track_job t (update_options host c) answers).1) s
    ∙ track_job-first_finished id (update_options host c) answers j m f

-- Whatever becomes of its job, an update that is asked for and gets no consent requests nothing and has
-- no result. Else it requests first the update of its container, and then nothing but polls of the job
-- that this starts, at most as many as are answered or missed; none if it starts none. And if at most 20
-- polls fail and one is answered with a job that no longer runs, it ends with the first such job.
pub update_container_lem :
    (host : Text) (c : Container) (asks consent : Bool) (started : Started) (answers : List Answer)
    → let (es, r) = update_container host c asks consent started answers in
      ((asks && not consent) ≡ true → (requests es ≡ []) × (r ≡ none))
      × ((asks && not consent) ≡ false
          → (k : ℕ) × (k ≤ length answers)
            × (requests es ≡ (container_path host c ++ txt "/update") ∷ polls_of started k))
      × ((asks && not consent) ≡ false
          → (id : Text) (j : Job) → started ≡ job_id id
          → misses_in answers ≤ 20
          → first_finished answers ≡ some j
          → r ≡ some (some j))
unfolding update_container
update_container_lem host c true false started answers =
    (λ e. (refl, refl), λ e. absurd (cc), λ e. absurd (cc))
update_container_lem host c true true started answers = (
  λ e. absurd (cc),
  λ e. polled host c started answers,
  λ e id j s m f. finished host c started answers id j s m f,
)
update_container_lem host c false consent started answers = (
  λ e. absurd (cc),
  λ e. polled host c started answers,
  λ e id j s m f. finished host c started answers id j s m f,
)

-- A container is removed only with consent and if the server accepts it; the one request that is made
-- then keeps its volumes.
pub remove_container_lem :
    (host : Text) (c : Container) (consent : Bool) (reply : Reply)
    → let (es, b) = remove_container host c consent reply in
      (b ≡ (consent && is_accepted reply))
      × (requests es
          ≡ (if consent then (container_path host c ++ txt "?force=1&volumes=0") ∷ [] else []))
unfolding remove_container refresh act
remove_container_lem host c true accepted = (refl, refl)
remove_container_lem host c true (refused message) = (refl, refl)
remove_container_lem host c false reply = (refl, refl)
